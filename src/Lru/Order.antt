-- ===== src/Lru/Order.antt =====
-- What a sound evictor holds, and the steps of `touch_key` on the linked list.
use cs389hw.Shared.{
  ◌≡◌, refl, arith, false, List, [], ◌∷◌, ◌++◌, Key, ok, some, contains, Distinct, without, ◌==◌,
  nat_eq, bytes_eq, eq_iff,
}
use cs389hw.Shared.Tables.{find, keys}
use cs389hw.Memory.{Ptr, null, Memory, write, Lives, load_lem, Lives-write_self, Lives-write_ne}
use cs389hw.Lru.{Node, node, LruEvictor, set_next, set_prev, append_tail}
use cs389hw.Lru.Segment.{Cells, ptrs, Segment, last_of, join, frame, nil, cons}

-- `s` is a sound doubly linked list of the nodes `xs`, with a table that leads to them.
pub record Represents (s : LruEvictor) (xs : Cells) : Type 0 where
  pub chain : Segment s.nodes null s.head xs s.tail null
  pub distinct : Distinct (ptrs xs)
  pub unique : Distinct (keys xs)
  pub table_unique : Distinct (keys s.table)
  pub indexed : (k : Key) → find s.table k ≡ find xs k

-- The specification of `touch_key`: the key becomes the most recently used one.
abbrev pub touched : Key → List Key → List Key
touched k l = without k l ++ k ∷ []

module _ {m : Memory Node} {p : Ptr} {n : Node} (h : Lives m p n) where
  pub not_null : (p == null) ≡ false
  not_null = ground (arith, h.ne_null)

  pub set_next_lem : (q : Ptr) → set_next p q m ≡ ok (write m p (some (record n { next = q })))
  unfolding set_next
  set_next_lem q = rw (load_lem h)

  pub set_prev_lem : (q : Ptr) → set_prev p q m ≡ ok (write m p (some (record n { prev = q })))
  unfolding set_prev
  set_prev_lem q = rw (load_lem h)

module _ {m : Memory Node} {k : Key} {p q q' : Ptr} (r : Lives m p (node q q' k)) where
  -- A node outside the list becomes its tail.
  pub append_tail_lem :
      {j : Key} {t : Ptr} (xs : Cells) {b f l : Ptr}
      → Segment m b f ((j, t) ∷ xs) l null
      → Distinct (t ∷ ptrs xs)
      → contains p (t ∷ ptrs xs) ≡ false
      → (m' : Memory Node) × (append_tail l p m ≡ ok m')
        × Segment m' b f (((j, t) ∷ xs) ++ (k, p) ∷ []) p null
  unfolding append_tail
  append_tail_lem {t} xs {l} s d out =
      let end = last_of xs s d in
      let m₁ = write m l (some (record end.last_node { next = p })) in
      let m₂ = write m₁ p (some (node l q' k)) in
      let apart : (p == l) ≡ false = ground (arith, eq_iff p l, end.inside) in
      let r₁ : Lives m₁ p (node q q' k) = Lives-write_ne l _ apart r in
      let r₂ : Lives m₂ p (node l q' k) = Lives-write_self _ r₁ in
      (
        write m₂ p (some (node l null k)),
        rw (not_null end.alive, set_next_lem end.alive p, set_prev_lem r₁ l, set_next_lem r₂ null),
        join (frame p _ out (frame p _ out (end.relink p)))
            (cons null refl (Lives-write_self _ r₂) (nil refl refl)),
      )
