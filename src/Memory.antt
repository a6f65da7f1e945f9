-- ===== src/Memory.antt =====
-- Objects at addresses: `new`, `delete`, and reads through a pointer. A memory is the list of its
-- writes, the latest first; `none` at an address says that no object lives there.
use Prim.Native.Nat.{max, suc, ◌<◌}
use native.Mathlib.Omega.{arith}
use cs389hw.Shared.{
  ℕ, ◌≡◌, refl, ◌≢◌, Option, none, some, List, [], ◌∷◌, Result, ok, stop, bad_access, false,
  if◌then◌else◌, ◌==◌, nat_eq, ◌>>=◌,
}

abbrev pub Ptr : Type 0
Ptr = ℕ

-- `nullptr`
abbrev pub null : Ptr
null = 0

abbrev pub Memory {ℓ} : Type ℓ → Type ℓ
Memory A = List (Ptr × Option A)

module _ {ℓ} {A : Type ℓ} where
  unfoldable pub read : Memory A → Ptr → Option A
  read [] p = none
  read ((q, c) ∷ m) p = if p == q then c else read m p

  unfoldable pub write : Memory A → Ptr → Option A → Memory A
  write m p c = (p, c) ∷ m

  -- `*p`: a fault at `nullptr` and where nothing lives.
  unfoldable pub load : Memory A → Ptr → Result A
  load m p =
      if p == null
      then stop bad_access
      else elim (read m p) [ none ↦ stop bad_access | some a ↦ ok a ]

  -- `delete p`
  unfoldable pub delete : Memory A → Ptr → Result (Memory A)
  delete m p = do _ ← load m p; ok (write m p none)

module _ {ℓ} {A : Type ℓ} where
  pub read-write :
      (m : Memory A) (p : Ptr) (c : Option A) (q : Ptr)
      → read (write m p c) q ≡ (if q == p then c else read m q)
  unfolding read write
  read-write m p c q = refl

  pub read-write_self : (m : Memory A) (p : Ptr) (c : Option A) → read (write m p c) p ≡ c
  read-write_self m p c = ground (arith, read-write m p c p)

  pub read-write_ne :
      (m : Memory A) (p : Ptr) (c : Option A) (q : Ptr)
      → (q == p) ≡ false
      → read (write m p c) q ≡ read m q
  read-write_ne m p c q h = rw (read-write, h)

-- The object at `p` is alive and has the value `a`.
pub record Lives {ℓ} {A : Type ℓ} (m : Memory A) (p : Ptr) (a : A) : Type ℓ where
  pub ne_null : p ≢ null
  pub holds : read m p ≡ some a

module _ {ℓ} {A : Type ℓ} {m : Memory A} {p : Ptr} {a : A} where
  pub load_lem : Lives m p a → load m p ≡ ok a
  unfolding load
  load_lem h = let e : (p == null) ≡ false = ground (arith, h.ne_null) in rw (e, h.holds)

  pub delete_lem : Lives m p a → delete m p ≡ ok (write m p none)
  unfolding delete
  delete_lem h = rw (load_lem h)

  pub Lives-write_self : (b : A) → Lives m p a → Lives (write m p (some b)) p b
  Lives-write_self b h = record { ne_null = h.ne_null; holds = read-write_self m p (some b) }

  pub Lives-write_ne :
      (q : Ptr) (c : Option A) → (p == q) ≡ false → Lives m p a → Lives (write m q c) p a
  Lives-write_ne q c e h = record { ne_null = h.ne_null; holds = rw (read-write_ne, e) h.holds }

-- What the program relies on of `new`: an address that is in use by no live object.
pub record Allocator {ℓ} (A : Type ℓ) : Type ℓ where
  pub fresh : Memory A → Ptr
  pub fresh_ne_null : (m : Memory A) → fresh m ≢ null
  pub fresh_unused : (m : Memory A) → read m (fresh m) ≡ none

-- An allocator that hands out the address above all that were ever written.
abbrev pub highest {ℓ} : {A : Type ℓ} → Memory A → ℕ
highest [] = 0
highest ((p, c) ∷ m) = max p (highest m)

pub read_above {ℓ} : {A : Type ℓ} (m : Memory A) (p : Ptr) → highest m < p → read m p ≡ none
unfolding read
read_above [] p h = refl
read_above ((q, c) ∷ m) p h = ground (arith, read_above m p)

-- The allocator at which the tests and the examples run.
abbrev pub bump {ℓ} : {A : Type ℓ} → Allocator A
bump = record {
  fresh = λ m. suc (highest m);
  fresh_ne_null = λ m. omega arith;
  fresh_unused = λ m. read_above m (suc (highest m)) (omega arith);
}
