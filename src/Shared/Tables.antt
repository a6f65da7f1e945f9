-- ===== src/Shared/Tables.antt =====
-- `std::unordered_map` as an association list.
use mathlib.Core.Path.{◌≡◌, refl, ap}
use mathlib.Core.Bool.{false}
use mathlib.Core.Logic.{inl, inr}
use mathlib.Core.List.{List, [], ◌∷◌, ◌++◌}
use mathlib.Core.Option.{Option, none, some}
use native.Mathlib.Omega.{arith}
use cs389hw.Shared.Tests.{if◌then◌else◌, Bool-cases}
use cs389hw.Shared.Keys.{Eq, ◌==◌, eq_iff}
use cs389hw.Shared.Lists.{is_some, or_else, contains, without, length}

module _ {ℓ κ} {K : Type ℓ} {V : Type κ} ⦃e : Eq K⦄ where
  -- `table->find(k)`; `none` is `table->end()`.
  abbrev pub find : List (K × V) → K → Option V
  find [] k = none
  find ((j, v) ∷ t) k = if k == j then some v else find t k

  -- `table->erase(k)`
  abbrev pub erase : List (K × V) → K → List (K × V)
  erase [] k = []
  erase ((j, v) ∷ t) k = if k == j then erase t k else (j, v) ∷ erase t k

  abbrev pub keys : List (K × V) → List K
  keys [] = []
  keys ((j, v) ∷ t) = j ∷ keys t

  -- `table->insert({k, v})` leaves a key that is present alone.
  abbrev pub insert : List (K × V) → K → V → List (K × V)
  insert t k v = if is_some (find t k) then t else (k, v) ∷ t

  pub find-append : (s t : List (K × V)) (k : K) → find (s ++ t) k ≡ or_else (find s k) (find t k)
  find-append [] t k = refl
  find-append ((j, v) ∷ s) t k = ground (arith, find-append s t k)

  pub find-erase :
      (t : List (K × V)) (k j : K) → find (erase t k) j ≡ (if j == k then none else find t j)
  find-erase [] k j = ground arith
  find-erase ((i, v) ∷ t) k j = ground (arith, find-erase t k j, eq_iff k i, eq_iff j i, eq_iff j k)

  pub keys-erase : (t : List (K × V)) (k : K) → keys (erase t k) ≡ without k (keys t)
  keys-erase [] k = refl
  keys-erase ((j, v) ∷ t) k = ground (arith, keys-erase t k)

  pub is_some-find : (t : List (K × V)) (k : K) → is_some (find t k) ≡ contains k (keys t)
  is_some-find [] k = refl
  is_some-find ((j, v) ∷ t) k = ground (arith, is_some-find t k)

  pub length-keys : (t : List (K × V)) → length (keys t) ≡ length t
  length-keys [] = refl
  length-keys ((j, v) ∷ t) = rw (length-keys t)

  pub keys-append : (s t : List (K × V)) → keys (s ++ t) ≡ keys s ++ keys t
  keys-append [] t = refl
  keys-append ((j, v) ∷ s) t = rw (keys-append s t)

  -- Where a key stands.
  pub find_split :
      (t : List (K × V)) (k : K) {v : V}
      → find t k ≡ some v
      → (l r : List (K × V)) × (t ≡ l ++ ((k, v) ∷ r))
  find_split [] k h = cc
  find_split ((j, w) ∷ t) k h = elim (Bool-cases (k == j)) [
    | inl here ↦ ([], t, ground (arith, eq_iff k j))
    | inr there ↦
        let (l, r, p) = find_split t k (ground arith) in ((j, w) ∷ l, r, ap (◌∷◌ (j, w)) p)
  ]

  pub find_absent : (t : List (K × V)) (k : K) → contains k (keys t) ≡ false → find t k ≡ none
  find_absent [] k h = refl
  find_absent ((j, v) ∷ t) k h = ground (arith, find_absent t k)

  -- Where a key stands does not matter to a table without repetition.
  pub find_moved :
      (l r : List (K × V)) (k : K) (v : V) (j : K)
      → contains k (keys l) ≡ false
      → contains k (keys r) ≡ false
      → find ((l ++ r) ++ (k, v) ∷ []) j ≡ find (l ++ (k, v) ∷ r) j
  find_moved l r k v j out out' =
      rw (find-append, find-append, find-append)
        (ground (arith, eq_iff j k, find_absent l k out, find_absent r k out'))
