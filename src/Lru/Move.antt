-- ===== src/Lru/Move.antt =====
-- lru_evictor.cc: `touch_key` on a key that is in the list.
use cs389hw.Shared.{
  ◌≡◌, refl, subst, arith, true, false, [], ◌∷◌, ◌++◌, Key, ok, some, contains, Distinct, ap, sym,
  ◌==◌, nat_eq, bytes_eq, eq_iff, Around, around, out_rest, absent_left, Distinct-rest,
  Distinct-moved, without_rest, without, ◌∙◌, append-nil,
}
use cs389hw.Shared.Tables.{find, keys, find_moved, keys-append, find_split}
use cs389hw.Memory.{Ptr, null, load_lem, Lives-write_ne}
use cs389hw.Lru.{node, LruEvictor, move_head, move_middle, touch_present}
use cs389hw.Lru.Segment.{
  Cells, ptrs, ptrs-append, Segment, last_of, uncons, split, join, frame, relink_first, ends_of_nil,
}
use cs389hw.Lru.Order.{Represents, touched, not_null, set_next_lem, set_prev_lem, append_tail_lem}

module _ (s : LruEvictor) (k : Key) (p : Ptr) where
  -- `touch_key` at the head of a longer list
  move_head_lem :
      (j : Key) (r : Ptr) (zs : Cells)
      → Segment s.nodes null s.head ((k, p) ∷ (j, r) ∷ zs) s.tail null
      → Distinct (p ∷ r ∷ ptrs zs)
      → (s' : LruEvictor) × (touch_present p s ≡ ok s')
        × (s'.table ≡ s.table)
        × Segment s'.nodes null s'.head (((j, r) ∷ zs) ++ (k, p) ∷ []) s'.tail null
  unfolding touch_present move_head
  move_head_lem j r zs c d =
      let (q, e, h, rest) = uncons c in
      let end = last_of zs rest d.1 in
      let (q', h', first) = relink_first null rest d.1.0 in
      let at_head : (p == s.head) ≡ true = ground (arith, eq_iff p s.head) in
      let not_tail : (p == s.tail) ≡ false = ground (arith, eq_iff p s.tail, end.inside) in
      let apart : (p == q) ≡ false = ground (arith, (uncons rest).1) in
      let (m, run, c') =
        append_tail_lem (Lives-write_ne q (some (node null q' j)) apart h) zs first d.1 d.0 in
      (
        record s { nodes = m; head = q; tail = p },
        rw (
          not_null h,
          load_lem h,
          at_head,
          not_tail,
          not_null h',
          load_lem h',
          at_head,
          set_prev_lem h' null,
          run,
        ),
        refl,
        c',
      )

  -- `touch_key` in the middle of the list
  move_middle_lem :
      (i j : Key) (u r : Ptr) (ys zs : Cells)
      → Segment s.nodes null s.head (((i, u) ∷ ys) ++ (k, p) ∷ (j, r) ∷ zs) s.tail null
      → Around p (u ∷ ptrs ys) (r ∷ ptrs zs)
      → (s' : LruEvictor) × (touch_present p s ≡ ok s')
        × (s'.table ≡ s.table)
        × Segment s'.nodes null s'.head ((((i, u) ∷ ys) ++ (j, r) ∷ zs) ++ (k, p) ∷ []) s'.tail null
  unfolding touch_present move_middle
  move_middle_lem i j u r ys zs c w =
      let (l, f, front, back) = split ((i, u) ∷ ys) c in
      let (q, e, h, rest) = uncons back in
      let before = last_of ys front w.left in
      let end = last_of zs rest w.right in
      let n₁ = some (record before.last_node { next = q }) in
      let not_head : (l == null) ≡ false = not_null before.alive in
      let not_tail : (p == s.tail) ≡ false =
        ground (arith, eq_iff p s.tail, end.inside, w.out_right) in
      let apart : (p == l) ≡ false = ground (arith, eq_iff p l, before.inside, w.out_left) in
      let out : contains l (r ∷ ptrs zs) ≡ false = w.apart l before.inside in
      let front₁ = before.relink q in
      let rest₁ = frame l n₁ out rest in
      let h₁ = Lives-write_ne l n₁ apart h in
      let (q', h', rest₂) = relink_first l rest₁ w.right.0 in
      let n₂ = some (node l q' j) in
      let apart' : (p == q) ≡ false = ground (arith, (uncons rest).1, w.out_right) in
      let out' : contains q (u ∷ ptrs ys) ≡ false =
        absent_left (u ∷ ptrs ys) (ptrs zs) w.apart (uncons rest).1 in
      let (m, run, c') =
        append_tail_lem (Lives-write_ne q n₂ apart' h₁) (ys ++ (j, r) ∷ zs)
          (join (frame q n₂ out' front₁) rest₂)
          (rw (ptrs-append ys ((j, r) ∷ zs)) (Distinct-rest w))
          (rw (ptrs-append ys ((j, r) ∷ zs)) (out_rest w)) in
      (
        record s { nodes = m; tail = p },
        rw (
          not_null h,
          load_lem h,
          not_head,
          not_tail,
          not_null h',
          set_next_lem before.alive q,
          load_lem h₁,
          set_prev_lem h' l,
          run,
        ),
        refl,
        c',
      )

  -- The list in which the node of `k` has moved to the end.
  abbrev moved : Cells → Cells → Cells
  moved ys zs = (ys ++ zs) ++ (k, p) ∷ []

  touch_present_chain :
      (ys zs : Cells)
      → Segment s.nodes null s.head (ys ++ (k, p) ∷ zs) s.tail null
      → Around p (ptrs ys) (ptrs zs)
      → (s' : LruEvictor) × (touch_present p s ≡ ok s')
        × (s'.table ≡ s.table)
        × Segment s'.nodes null s'.head (moved ys zs) s'.tail null
  unfolding touch_present
  touch_present_chain [] [] c w =
      let (q, e, h, rest) = uncons c in
      let at_head : (p == s.head) ≡ true = ground (arith, eq_iff p s.head) in
      let at_tail : (p == s.tail) ≡ true = ground (arith, eq_iff p s.tail, (ends_of_nil rest).1) in
      (s, rw (not_null h, load_lem h, at_head, at_tail), refl, c)
  touch_present_chain [] ((j, r) ∷ zs) c w = move_head_lem j r zs c (w.out_right, w.right)
  touch_present_chain ((i, u) ∷ ys) [] c w =
      let (l, f, front, back) = split ((i, u) ∷ ys) c in
      let (q, e, h, rest) = uncons back in
      let at_tail : (p == s.tail) ≡ true = ground (arith, eq_iff p s.tail, (ends_of_nil rest).1) in
      let not_head : (l == null) ≡ false = not_null (last_of ys front w.left).alive in
      (s, rw (not_null h, load_lem h, not_head, at_tail), refl, rw append-nil c)
  touch_present_chain ((i, u) ∷ ys) ((j, r) ∷ zs) c w = move_middle_lem i j u r ys zs c w

  -- `touch_key` on a key of the list makes it the last, and keeps the others in their order.
  pub touch_present_lem :
      (xs : Cells)
      → Represents s xs
      → find xs k ≡ some p
      → (s' : LruEvictor) × (touch_present p s ≡ ok s')
        × ((xs' : Cells) × Represents s' xs' × (keys xs' ≡ touched k (keys xs)))
  touch_present_lem xs h found =
      let (ys, zs, e) = find_split xs k found in
      let c = subst (λ x. Segment s.nodes null s.head x s.tail null) e h.chain in
      let wp : Around p (ptrs ys) (ptrs zs) =
        around
          (rw (ptrs-append ys ((k, p) ∷ zs)) at (subst (λ x. Distinct (ptrs x)) e h.distinct)) in
      let wk : Around k (keys ys) (keys zs) =
        around (rw (keys-append ys ((k, p) ∷ zs)) at (subst (λ x. Distinct (keys x)) e h.unique)) in
      let keys_moved : keys (moved ys zs) ≡ touched k (keys xs) =
        rw (keys-append (ys ++ zs) ((k, p) ∷ []), keys-append ys zs)
          (ap (λ l. l ++ k ∷ [])
            (sym (ap (without k) (ap keys e ∙ keys-append ys ((k, p) ∷ zs)) ∙ without_rest wk))) in
      let (s', run, same, c') = touch_present_chain ys zs c wp in
      (
        s',
        run,
        (
          moved ys zs,
          record {
            chain = c';
            distinct = simp ptrs-append (Distinct-moved wp);
            unique = simp keys-append (Distinct-moved wk);
            table_unique = subst (λ t. Distinct (keys t)) (sym same) h.table_unique;
            indexed = λ j.
                ap (λ t. find t j) same
                ∙ h.indexed j
                ∙ ap (λ x. find x j) e
                ∙ sym (find_moved ys zs k p j wk.out_left wk.out_right);
          },
          keys_moved,
        ),
      )
