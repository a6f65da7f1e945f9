-- ===== src/Lru/Destroy.antt =====
-- lru_evictor.cc: the destructor.
use cs389hw.Shared.{
  if◌then◌else◌, eq_refl, subst, ◌≡◌, refl, ap, sym, ◌∙◌, arith, true, false, none, some, [], ◌∷◌,
  Key, ok, contains, Distinct, ◌==◌, nat_eq, bytes_eq, eq_iff, Bool-cases, inl, inr,
}
use cs389hw.Shared.Tables.{find, keys, find_absent}
use cs389hw.Memory.{Ptr, Memory, read, write, Lives, delete_lem, Lives-write_ne, read-write}
use cs389hw.Lru.{Node, node, LruEvictor, destroy}
use cs389hw.Lru.Segment.{Cells, ptrs, Segment, uncons}
use cs389hw.Lru.Order.{Represents}

-- A node lives at each address of a table.
AllLive : Memory Node → Cells → Type 0
AllLive m [] = Unit
AllLive m ((k, p) ∷ t) = ((n : Node) × Lives m p n) × AllLive m t

AllLive-write :
    (m : Memory Node) (p : Ptr) (t : Cells)
    → contains p (ptrs t) ≡ false
    → AllLive m t
    → AllLive (write m p none) t
unfolding AllLive
AllLive-write m p [] out h = tt
AllLive-write m p ((k, q) ∷ t) out h =
    let (n, alive) = h.0 in
    (
      (n, Lives-write_ne p none (ground (arith, eq_iff p q, eq_iff q p)) alive),
      AllLive-write m p t (ground arith) h.1,
    )

-- Each address is deleted, and no other write happens.
destroy_all :
    (t : Cells) (m : Memory Node)
    → AllLive m t
    → Distinct (ptrs t)
    → (m' : Memory Node) × (destroy t m ≡ ok m')
      × ((q : Ptr) → read m' q ≡ (if contains q (ptrs t) then none else read m q))
unfolding destroy AllLive
destroy_all [] m h d = (m, refl, λ q. refl)
destroy_all ((k, p) ∷ t) m h d =
    let (n, alive) = h.0 in
    let (m', ran, dead) = destroy_all t (write m p none) (AllLive-write m p t d.0 h.1) d.1 in
    (m', rw (delete_lem alive) ran, λ q. ground (arith, dead q, read-write m p none q))

find-contains : (t : Cells) (k : Key) (p : Ptr) → find t k ≡ some p → contains p (ptrs t) ≡ true
find-contains [] k p e = cc
find-contains ((j, q) ∷ t) k p e = ground (arith, find-contains t k p, eq_iff p q)

-- An address of a table without repetition has a key.
key_of :
    (t : Cells) (p : Ptr)
    → Distinct (keys t)
    → contains p (ptrs t) ≡ true
    → (k : Key) × (find t k ≡ some p)
key_of [] p d h = cc
key_of ((j, q) ∷ t) p d h = elim (Bool-cases (p == q)) [
  | inl here ↦ (j, ground (arith, eq_iff p q, eq_iff j j))
  | inr there ↦
      let (k, e) = key_of t p d.1 (ground arith) in
      (k, ground (arith, e, eq_iff k j, find_absent t k, d.0))
]

-- An address of the list has one key only.
unique_key :
    (xs : Cells) (j k : Key) (p : Ptr)
    → Distinct (ptrs xs)
    → find xs j ≡ some p
    → find xs k ≡ some p
    → j ≡ k
unique_key [] j k p d e e' = cc
unique_key ((i, q) ∷ xs) j k p d e e' = elim (Bool-cases (p == q)) [
  | inl here ↦
      ground
        (arith, eq_iff p q, eq_iff j i, eq_iff k i, find-contains xs j p, find-contains xs k p, d.0)
  | inr there ↦
      unique_key xs j k p d.1 (ground (arith, e, eq_iff p q)) (ground (arith, e', eq_iff p q))
]

-- Every entry of a table is an entry of the list.
Into : Cells → Cells → Type 0
Into t xs = (k : Key) (p : Ptr) → find t k ≡ some p → find xs k ≡ some p

Into-tail :
    (k : Key) (p : Ptr) (t xs : Cells)
    → contains k (keys t) ≡ false
    → Into ((k, p) ∷ t) xs
    → Into t xs
unfolding Into
Into-tail k p t xs out h j q e = h j q (ground (arith, e, eq_iff j k, find_absent t k))

Distinct-ptrs :
    (t xs : Cells) → Distinct (keys t) → Distinct (ptrs xs) → Into t xs → Distinct (ptrs t)
unfolding Into
Distinct-ptrs [] xs d u h = tt
Distinct-ptrs ((k, p) ∷ t) xs d u h = (
  elim (Bool-cases (contains p (ptrs t))) [
    | inl again ↦
        let (j, e) = key_of t p d.1 again in
        let same =
          unique_key xs j k p u (Into-tail k p t xs d.0 h j p e)
            (h k p (ground (arith, eq_refl k))) in
        absurd (ground (arith, e, ap (find t) same, find_absent t k, d.0))
    | inr once ↦ once
  ],
  Distinct-ptrs t xs d.1 u (Into-tail k p t xs d.0 h),
)

alive_at :
    {m : Memory Node} (xs : Cells) {b f l a : Ptr} (k : Key) (p : Ptr)
    → Segment m b f xs l a
    → find xs k ≡ some p
    → (n : Node) × Lives m p n
alive_at [] k p c e = cc
alive_at {m} ((j, q) ∷ xs) {b} k p c e =
    let (r, first, alive, rest) = uncons c in
    elim (Bool-cases (k == j)) [
      | inl here ↦
          let same : q ≡ p = ground (arith, e) in
          (node b r j, subst (λ x. Lives m x (node b r j)) same alive)
      | inr there ↦ alive_at xs k p rest (ground (arith, e))
    ]

module _ (s : LruEvictor) {xs : Cells} (h : Represents s xs) where
  table_alive : (t : Cells) → Distinct (keys t) → Into t xs → AllLive s.nodes t
  unfolding Into AllLive
  table_alive [] d i = tt
  table_alive ((k, p) ∷ t) d i = (
    alive_at xs k p h.chain (i k p (ground (arith, eq_refl k))),
    table_alive t d.1 (Into-tail k p t xs d.0 i),
  )

  -- The destructor of a sound evictor deletes each node of its table once, without a fault, and
  -- no other: afterwards none of them is alive, and every other address is as before.
  pub destroy_lem :
      (m' : Memory Node) × (destroy s.table s.nodes ≡ ok m')
      × ((q : Ptr) → read m' q ≡ (if contains q (ptrs s.table) then none else read s.nodes q))
      × ((k : Key) (p : Ptr) → find xs k ≡ some p → read m' p ≡ none)
  unfolding Into
  destroy_lem =
      let into : Into s.table xs = λ k p e. sym (h.indexed k) ∙ e in
      let (m', ran, dead) =
        destroy_all s.table s.nodes (table_alive s.table h.table_unique into)
          (Distinct-ptrs s.table xs h.table_unique h.distinct into) in
      (m', ran, dead, λ k p e. ground (arith, dead p, find-contains s.table k p (h.indexed k ∙ e)))
