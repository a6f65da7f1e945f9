-- ===== src/Lru/Evict.antt =====
-- lru_evictor.cc: `evict`, on an empty list, on a single node and on a longer list.
use cs389hw.Shared.{
  ◌≡◌, refl, subst, arith, true, false, [], ◌∷◌, Key, ok, none, some, contains, Distinct, ap, sym,
  ◌∙◌, ◌==◌, nat_eq, bytes_eq, eq_iff, Distinct-without,
}
use cs389hw.Shared.Tables.{find, keys, erase, find-erase, keys-erase, find_absent}
use cs389hw.Memory.{
  Ptr, null, read, write, Lives, load_lem, delete_lem, Lives-write_ne, read-write_self,
}
use cs389hw.Lru.{node, LruEvictor, evict}
use cs389hw.Lru.Segment.{
  Cells, ptrs, Segment, nil, last_of, uncons, frame, ends_of_nil, relink_first,
}
use cs389hw.Lru.Order.{Represents, not_null, set_prev_lem}

module _ (s : LruEvictor) where
  -- With nothing to evict the answer is the empty key.
  pub evict_empty : Represents s [] → evict s ≡ ok ([], s)
  unfolding evict
  evict_empty h =
      let e : (s.head == null) ≡ true =
        ground (arith, (ends_of_nil h.chain).0, eq_iff s.head null) in
      rw e

  evict_chain :
      {k : Key} {p : Ptr} (xs : Cells)
      → Segment s.nodes null s.head ((k, p) ∷ xs) s.tail null
      → Distinct (p ∷ ptrs xs)
      → (s' : LruEvictor) × (evict s ≡ ok (k, s'))
        × (s'.table ≡ erase s.table k)
        × Segment s'.nodes null s'.head xs s'.tail null
        × (read s'.nodes p ≡ none)
  unfolding evict
  evict_chain {k} {p} [] c d =
      let (q, e, h, rest) = uncons c in
      let (no_next, is_tail) = ends_of_nil rest in
      let h' : Lives s.nodes s.head (node null q k) =
        subst (λ x. Lives s.nodes x (node null q k)) (sym e) h in
      let next_null : (q == null) ≡ true = ground (arith, eq_iff q null) in
      let only : (s.tail == s.head) ≡ true = ground (arith, eq_iff s.tail s.head) in
      (
        record s {
          nodes = write s.nodes s.head none;
          table = erase s.table k;
          head = null;
          tail = null;
        },
        rw (not_null h', load_lem h', next_null, load_lem h', delete_lem h', only),
        refl,
        nil refl refl,
        subst (λ x. read (write s.nodes s.head none) x ≡ none) e
            (read-write_self s.nodes s.head none),
      )
  evict_chain {k} {p} ((j, r) ∷ xs) c d =
      let (q, e, h, rest) = uncons c in
      let end = last_of xs rest d.1 in
      let (q', h', first) = relink_first null rest d.1.0 in
      let n = some (node null q' j) in
      let apart : (p == q) ≡ false = ground (arith, (uncons rest).1) in
      let h₁ : Lives (write s.nodes q n) s.head (node null q k) =
        subst (λ x. Lives (write s.nodes q n) x (node null q k)) (sym e)
          (Lives-write_ne q n apart h) in
      let h₀ : Lives s.nodes s.head (node null q k) =
        subst (λ x. Lives s.nodes x (node null q k)) (sym e) h in
      let longer : (s.tail == s.head) ≡ false = ground (arith, eq_iff s.tail p, end.inside) in
      let out : contains s.head (r ∷ ptrs xs) ≡ false =
        subst (λ x. contains x (r ∷ ptrs xs) ≡ false) (sym e) d.0 in
      (
        record s {
          nodes = write (write s.nodes q n) s.head none;
          table = erase s.table k;
          head = q;
        },
        rw (
          not_null h₀,
          load_lem h₀,
          not_null h',
          set_prev_lem h' null,
          load_lem h₁,
          delete_lem h₁,
          longer,
        ),
        refl,
        frame s.head none out first,
        subst (λ x. read (write (write s.nodes q n) s.head none) x ≡ none) e
            (read-write_self (write s.nodes q n) s.head none),
      )

  -- `evict` answers with the least recently used key, forgets it and frees its node.
  pub evict_lem :
      {k : Key} {p : Ptr} {xs : Cells}
      → Represents s ((k, p) ∷ xs)
      → (s' : LruEvictor) × (evict s ≡ ok (k, s')) × Represents s' xs × (read s'.nodes p ≡ none)
  evict_lem {k} {xs} h =
      let (s', run, same, c, freed) = evict_chain xs h.chain h.distinct in
      (
        s',
        run,
        record {
          chain = c;
          distinct = h.distinct.1;
          unique = h.unique.1;
          table_unique =
              subst (λ t. Distinct (keys t)) (sym same)
                (rw (keys-erase s.table k) (Distinct-without k (keys s.table) h.table_unique));
          indexed = λ j.
              ap (λ t. find t j) same
              ∙ find-erase s.table k j
              ∙ ground (arith, h.indexed j, eq_iff j k, find_absent xs k h.unique.0);
        },
        freed,
      )
