-- ===== src/Lru/Insert.antt =====
-- lru_evictor.cc: `touch_key` on a key that is not in the list.
use cs389hw.Shared.{
  ◌≡◌, refl, subst, arith, true, false, [], ◌∷◌, ◌++◌, Key, ok, none, some, contains, Distinct, ap,
  sym, ◌∙◌, ◌==◌, nat_eq, bytes_eq, eq_iff, Option-cases, inl, inr, without_absent, Distinct-append,
  is_some,
}
use cs389hw.Shared.Tables.{find, keys, insert, find-append, keys-append, is_some-find}
use cs389hw.Memory.{
  Ptr, null, Memory, read, write, Lives, load_lem, Lives-write_ne, Lives-write_self,
  read-write_self, Allocator,
}
use cs389hw.Lru.{Node, node, LruEvictor, touch_new, touch_present, touch_at, touch_key}
use cs389hw.Lru.Segment.{
  Cells, ptrs, ptrs-append, Segment, nil, cons, last_of, uncons, join, frame, ends_of_nil,
}
use cs389hw.Lru.Order.{Represents, touched, not_null, set_next_lem, set_prev_lem}
use cs389hw.Lru.Move.{touch_present_lem}

-- An address at which nothing lives is none of a segment's.
unused_absent :
    {m : Memory Node} {b f l a : Ptr} {xs : Cells} (p : Ptr)
    → Segment m b f xs l a
    → read m p ≡ none
    → contains p (ptrs xs) ≡ false
unused_absent p (nil e e') h = refl
unused_absent p (cons q e r s) h = ground (arith, unused_absent p s h, r.holds)

module _ (s : LruEvictor) {k : Key} (p : Ptr) (new : Lives s.nodes p (node null null k)) where
  touch_new_chain :
      (xs : Cells)
      → Segment s.nodes null s.head xs s.tail null
      → Distinct (ptrs xs)
      → contains p (ptrs xs) ≡ false
      → (s' : LruEvictor) × (touch_new p s ≡ ok s')
        × (s'.table ≡ s.table)
        × Segment s'.nodes null s'.head (xs ++ (k, p) ∷ []) s'.tail null
  unfolding touch_new
  touch_new_chain [] c d out =
      let (no_head, no_tail) = ends_of_nil c in
      let tail_null : (s.tail == null) ≡ true = ground (arith, eq_iff s.tail null) in
      let head_null : (s.head == null) ≡ true = ground (arith, eq_iff s.head null) in
      let new₁ = Lives-write_self (node null null k) new in
      let m = write (write s.nodes p (some (node null null k))) p (some (node null null k)) in
      (
        record s { nodes = m; head = p; tail = p },
        rw (tail_null, head_null, set_next_lem new null, set_prev_lem new₁ null),
        refl,
        cons null refl (Lives-write_self (node null null k) new₁) (nil refl refl),
      )
  touch_new_chain ((j, r) ∷ []) c d out =
      let (q, e, h, rest) = uncons c in
      let (no_next, is_tail) = ends_of_nil rest in
      let h' : Lives s.nodes s.head (node null q j) =
        subst (λ x. Lives s.nodes x (node null q j)) (sym e) h in
      let apart : (s.head == p) ≡ false = ground (arith, eq_iff p r) in
      let apart' : (p == s.head) ≡ false = ground (arith, eq_iff p r) in
      let tail_real : (s.tail == null) ≡ false = ground (arith, h.ne_null) in
      let same : (s.tail == s.head) ≡ true = ground (arith, eq_iff s.tail s.head) in
      let n₁ = node s.head null k in
      let m₁ = write s.nodes p (some n₁) in
      let h₁ : Lives m₁ s.head (node null q j) = Lives-write_ne p (some n₁) apart h' in
      let n₂ = node null p j in
      let h₂ : Lives (write m₁ s.head (some n₂)) s.head n₂ = Lives-write_self n₂ h₁ in
      let m₃ = write (write m₁ s.head (some n₂)) s.head (some n₂) in
      let new₃ : Lives m₃ p n₁ =
        Lives-write_ne s.head (some n₂) apart'
          (Lives-write_ne s.head (some n₂) apart' (Lives-write_self n₁ new)) in
      (
        record s { nodes = m₃; tail = p },
        rw (tail_real, same, set_prev_lem new s.head, set_next_lem h₁ p, set_prev_lem h₂ null),
        refl,
        cons p e (subst (λ x. Lives m₃ x n₂) e (Lives-write_self n₂ h₂))
            (cons null refl (subst (λ x. Lives m₃ p (node x null k)) e new₃) (nil refl refl)),
      )
  touch_new_chain ((j, r) ∷ (i, u) ∷ zs) c d out =
      let (q, e, h, rest) = uncons c in
      let end = last_of ((i, u) ∷ zs) c d in
      let inside = (last_of zs rest d.1).inside in
      let tail_real = not_null end.alive in
      let head_real : (s.head == null) ≡ false = ground (arith, h.ne_null) in
      let longer : (s.tail == s.head) ≡ false = ground (arith, eq_iff s.tail r) in
      let last_next : (end.last_node.next == null) ≡ true = ground (arith, end.links) in
      let apart : (p == s.tail) ≡ false = ground (arith, eq_iff p s.tail, end.inside) in
      let n₁ = some (record end.last_node { next = p }) in
      let new₁ = Lives-write_ne s.tail n₁ apart new in
      let n₂ = node s.tail null k in
      (
        record s { nodes = write (write s.nodes s.tail n₁) p (some n₂); tail = p },
        rw (
          tail_real,
          longer,
          head_real,
          load_lem end.alive,
          last_next,
          set_next_lem end.alive p,
          set_prev_lem new₁ s.tail,
        ),
        refl,
        join (frame p (some n₂) out (end.relink p))
            (cons null refl (Lives-write_self n₂ new₁) (nil refl refl)),
      )

module _ (alloc : Allocator Node) (k : Key) (s : LruEvictor) where
  touch_key_absent :
      find s.table k ≡ none
      → touch_key alloc k s
        ≡ touch_new (alloc.fresh s.nodes) (record s {
          nodes = write s.nodes (alloc.fresh s.nodes) (some (node null null k));
          table = insert s.table k (alloc.fresh s.nodes);
        })
  unfolding touch_key touch_at
  touch_key_absent absent = ap (λ o. touch_at alloc o k s) absent

  touch_key_found : {p : Ptr} → find s.table k ≡ some p → touch_key alloc k s ≡ touch_present p s
  unfolding touch_key touch_at
  touch_key_found found = ap (λ o. touch_at alloc o k s) found

module _ (alloc : Allocator Node) (k : Key) (s : LruEvictor) {xs : Cells}
    (h : Represents s xs) where
  insert_lem :
      find s.table k ≡ none
      → (s' : LruEvictor) × (touch_key alloc k s ≡ ok s')
        × ((xs' : Cells) × Represents s' xs' × (keys xs' ≡ touched k (keys xs)))
  insert_lem absent =
      let p = alloc.fresh s.nodes in
      let n = some (node null null k) in
      let out = unused_absent p h.chain (alloc.fresh_unused s.nodes) in
      let new : Lives (write s.nodes p n) p (node null null k) = record {
        ne_null = alloc.fresh_ne_null s.nodes;
        holds = read-write_self s.nodes p n;
      } in
      let s₁ = record s { nodes = write s.nodes p n; table = insert s.table k p } in
      let no_key : contains k (keys xs) ≡ false =
        sym (is_some-find xs k) ∙ ap is_some (sym (h.indexed k) ∙ absent) in
      let (s', run, same, c) = touch_new_chain s₁ p new xs (frame p n out h.chain) h.distinct out in
      (
        s',
        touch_key_absent alloc k s absent ∙ run,
        (
          xs ++ (k, p) ∷ [],
          record {
            chain = c;
            distinct = rw (ptrs-append xs ((k, p) ∷ [])) (
                Distinct-append (ptrs xs) (p ∷ []) h.distinct (refl, tt)
                  λ a i. ground (arith, eq_iff a p));
            unique = rw (keys-append xs ((k, p) ∷ [])) (
                Distinct-append (keys xs) (k ∷ []) h.unique (refl, tt)
                  λ a i. ground (arith, eq_iff a k));
            table_unique =
                rw (same, absent)
                  (sym (is_some-find s.table k) ∙ ap is_some absent, h.table_unique);
            indexed = λ j.
                ap (λ t. find t j) same
                ∙ rw (absent, find-append) (ground (arith, h.indexed j, h.indexed k, eq_iff j k));
          },
          keys-append xs ((k, p) ∷ [])
              ∙ ap (λ l. l ++ k ∷ []) (sym (without_absent k (keys xs) no_key)),
        ),
      )

  -- `touch_key` keeps the evictor sound, and makes the key the most recently used one.
  pub touch_key_lem :
      (s' : LruEvictor) × (touch_key alloc k s ≡ ok s')
      × ((xs' : Cells) × Represents s' xs' × (keys xs' ≡ touched k (keys xs)))
  touch_key_lem = elim (Option-cases (find s.table k)) [
    | inl absent ↦ insert_lem absent
    | inr (p, found) ↦
        let (s', run, rest) = touch_present_lem s k p xs h (sym (h.indexed k) ∙ found) in
        (s', touch_key_found alloc k s found ∙ run, rest)
  ]
