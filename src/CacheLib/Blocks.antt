-- ===== src/CacheLib/Blocks.antt =====
-- cache_lib.cc: the table of the cache and the buffers that its entries own.
use cs389hw.Shared.{
  ℕ, ◌+◌, ◌≡◌, ◌≢◌, refl, subst, ap, arith, true, false, Option, none, some, List, [], ◌∷◌, Key,
  Bytes, ◌==◌, nat_eq, bytes_eq, eq_iff, if◌then◌else◌, contains, length, Bool-cases, inl, inr,
  contains-without,
}
use cs389hw.Shared.Tables.{find, erase, keys, find-erase, keys-erase}
use cs389hw.Memory.{Ptr, Memory, read, write, Lives, Lives-write_ne, read-write_ne}
use cs389hw.CacheLib.{Block}

abbrev pub Table : Type 0
Table = List (Key × Block)

abbrev pub addresses : Table → List Ptr
addresses [] = []
addresses ((k, b) ∷ t) = b.address ∷ addresses t

-- The sizes of all values, together.
abbrev pub total : Table → ℕ
total [] = 0
total ((k, b) ∷ t) = b.size + total t

abbrev pub size_in : Option Block → ℕ
size_in none = 0
size_in (some b) = b.size

abbrev pub read_in : Memory Bytes → Option Block → Option Bytes
read_in m none = none
read_in m (some b) = read m b.address

-- The value that a key has.
abbrev pub content : Memory Bytes → Table → Key → Option Bytes
content m t k = read_in m (find t k)

-- No key stands twice, and each entry has a live buffer of its own, of the entry's size.
pub data Owned (m : Memory Bytes) : Table → Type 0 where
  nil : Owned m []
  cons :
      {k : Key} {b : Block} {t : Table} (v : Bytes)
      → contains k (keys t) ≡ false
      → Lives m b.address v
      → length v ≡ b.size
      → contains b.address (addresses t) ≡ false
      → Owned m t
      → Owned m ((k, b) ∷ t)

module _ {m : Memory Bytes} where
  pub frame :
      {t : Table} (p : Ptr) (c : Option Bytes)
      → contains p (addresses t) ≡ false
      → Owned m t
      → Owned (write m p c) t
  frame p c out nil = nil
  frame p c out (cons {b} v new h n apart o) =
      cons v new (Lives-write_ne p c (ground (arith, eq_iff b.address p)) h) n apart
        (frame p c (ground arith) o)

  pub erase_absent : {t : Table} (k : Key) → contains k (keys t) ≡ false → Owned m t → erase t k ≡ t
  erase_absent k out nil = refl
  erase_absent k out (cons {k = j} v new h n apart o) =
      ground (arith, erase_absent k (ground arith) o)

  pub Owned-block :
      {t : Table} (k : Key) {b : Block}
      → Owned m t
      → find t k ≡ some b
      → (v : Bytes) × Lives m b.address v × (length v ≡ b.size)
  Owned-block k nil e = cc
  Owned-block k {b} (cons {k = j} {b = b'} v new h n apart o) e = elim (Bool-cases (k == j)) [
    | inl here ↦
        let same : b' ≡ b = ground arith in
        (v, subst (λ x. Lives m x.address v) same h, subst (λ x. length v ≡ x.size) same n)
    | inr there ↦ Owned-block k o (ground arith)
  ]

  pub address_inside :
      {t : Table} (k : Key) {b : Block}
      → Owned m t
      → find t k ≡ some b
      → contains b.address (addresses t) ≡ true
  address_inside k nil e = cc
  address_inside k {b} (cons {k = j} {b = b'} {t} v new h n apart o) e =
      elim (Bool-cases (k == j)) [
        | inl here ↦ ground (arith, eq_iff b.address b'.address)
        | inr there ↦
            let e' : find t k ≡ some b = ground arith in ground (arith, address_inside k o e')
      ]

  -- An address at which nothing lives is no entry's.
  pub unused_outside :
      {t : Table} (p : Ptr) → Owned m t → read m p ≡ none → contains p (addresses t) ≡ false
  unused_outside p nil e = refl
  unused_outside p (cons {b} v new h n apart o) e =
      ground (arith, unused_outside p o e, h.holds, eq_iff p b.address)

  -- An address of the table's rest is not that of its first block.
  pub outside_rest :
      {t : Table} (k : Key) {b : Block} (p : Ptr)
      → Owned m t
      → find t k ≡ some b
      → contains p (addresses t) ≡ false
      → p ≢ b.address
  outside_rest {t} k {b} p o e out same =
      ground (arith, address_inside k o e, ap (λ x. contains x (addresses t)) same)

  pub addresses_apart :
      {t : Table} (k j : Key) {b b' : Block}
      → Owned m t
      → find t k ≡ some b
      → find t j ≡ some b'
      → (j == k) ≡ false
      → (b'.address == b.address) ≡ false
  addresses_apart k j nil e e' ne = cc
  addresses_apart k j {b} {b'} (cons {k = i} {b = c} {t} v new h n apart o) e e' ne =
      elim (Bool-cases (k == i)) [
        | inl here ↦
            let rest : find t j ≡ some b' = ground (arith, eq_iff k i, eq_iff j i, eq_iff j k) in
            ground (arith, outside_rest j c.address o rest apart, eq_iff b'.address b.address)
        | inr there ↦
            let rest : find t k ≡ some b = ground arith in
            elim (Bool-cases (j == i)) [
              | inl here ↦
                  ground (arith, outside_rest k c.address o rest apart, eq_iff b'.address b.address)
              | inr there' ↦
                  let rest' : find t j ≡ some b' = ground arith in
                  addresses_apart k j o rest rest' ne
            ]
      ]

  pub total-erase :
      {t : Table} (k : Key) {b : Block}
      → Owned m t
      → find t k ≡ some b
      → total (erase t k) + b.size ≡ total t
  total-erase k nil e = cc
  total-erase k {b} (cons {k = j} {t} v new h n apart o) e = elim (Bool-cases (k == j)) [
    | inl here ↦ ground (arith, eq_iff k j, erase_absent j new o)
    | inr there ↦ let e' : find t k ≡ some b = ground arith in ground (arith, total-erase k o e')
  ]

pub addresses-erase :
    (t : Table) (k : Key) (p : Ptr)
    → contains p (addresses t) ≡ false
    → contains p (addresses (erase t k)) ≡ false
addresses-erase [] k p h = refl
addresses-erase ((j, b) ∷ t) k p h = ground (arith, addresses-erase t k p)

module _ {m : Memory Bytes} where
  -- Freeing one entry leaves the others their buffers.
  pub Owned-erase :
      {t : Table} (k : Key) {b : Block}
      → Owned m t
      → find t k ≡ some b
      → Owned (write m b.address none) (erase t k)
  Owned-erase k nil e = cc
  Owned-erase k {b} (cons {k = j} {b = b'} {t} v new h n apart o) e = elim (Bool-cases (k == j)) [
    | inl here ↦
        let same : b' ≡ b = ground arith in
        let gone : erase t k ≡ t = erase_absent k (ground (arith, eq_iff k j)) o in
        rw (here, gone)
          (frame b.address none (subst (λ x. contains x.address (addresses t) ≡ false) same apart)
            o)
    | inr there ↦
        let rest : find t k ≡ some b = ground arith in
        let ne = outside_rest k b'.address o rest apart in
        rw there (
          cons v (rw (keys-erase t k) (ground (arith, contains-without j k (keys t))))
            (Lives-write_ne b.address none (ground (arith, ne, eq_iff b'.address b.address)) h) n
            (addresses-erase t k b'.address apart) (Owned-erase k o rest))
  ]

  content_other :
      {t : Table} (k : Key) {b : Block} (j : Key) {o : Option Block}
      → Owned m t
      → find t k ≡ some b
      → (j == k) ≡ false
      → find t j ≡ o
      → read_in (write m b.address none) o ≡ read_in m o
  content_other k j {o = none} w e ne e' = refl
  content_other k {b} j {o = some b'} w e ne e' =
      read-write_ne m b.address none b'.address (addresses_apart k j w e e' ne)

  pub content-erase :
      {t : Table} (k : Key) {b : Block} (j : Key)
      → Owned m t
      → find t k ≡ some b
      → content (write m b.address none) (erase t k) j ≡ (if j == k then none else content m t j)
  content-erase {t} k {b} j w e = elim (Bool-cases (j == k)) [
    | inl same ↦ rw (find-erase, same)
    | inr ne ↦ rw (find-erase, ne) (content_other k j w e ne refl)
  ]

  read_in_other :
      {t : Table} (p : Ptr) (c : Option Bytes) (j : Key) {o : Option Block}
      → Owned m t
      → contains p (addresses t) ≡ false
      → find t j ≡ o
      → read_in (write m p c) o ≡ read_in m o
  read_in_other p c j {o = none} w out e = refl
  read_in_other p c j {o = some b} w out e =
      read-write_ne m p c b.address (ground (arith, outside_rest j p w e out, eq_iff b.address p))

  -- A write outside the table changes no value.
  pub content-write :
      {t : Table} (p : Ptr) (c : Option Bytes) (j : Key)
      → Owned m t
      → contains p (addresses t) ≡ false
      → content (write m p c) t j ≡ content m t j
  content-write p c j w out = read_in_other p c j w out refl
