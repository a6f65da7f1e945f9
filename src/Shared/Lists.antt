-- ===== src/Shared/Lists.antt =====
-- Lists: lengths by native numbers, prefixes, membership, and lists without repetition.
use Prim.Native.Nat.{ℕ, zero, suc, ◌+◌, ◌<◌, ◌≤◌}
use mathlib.Core.Path.{◌≡◌, refl, ap, ◌∙◌}
use mathlib.Core.Bool.{Bool, true, false, not, ◌&&◌, ◌||◌}
use mathlib.Core.List.{List, [], ◌∷◌, ◌++◌}
use mathlib.Core.Logic.{inl, inr}
use mathlib.Core.Option.{Option, none, some}
use native.Mathlib.Omega.{arith}
use cs389hw.Shared.Tests.{if◌then◌else◌, Bool-cases}
use cs389hw.Shared.Keys.{Eq, ◌==◌, eq_iff, eq_refl}

module _ {ℓ} {A : Type ℓ} where
  abbrev pub length : List A → ℕ
  length [] = 0
  length (x ∷ xs) = suc (length xs)

  abbrev pub is_some : Option A → Bool
  is_some none = false
  is_some (some a) = true

  abbrev pub or_else : Option A → Option A → Option A
  or_else none o = o
  or_else (some a) o = some a

  abbrev pub take : ℕ → List A → List A
  take zero xs = []
  take (suc n) [] = []
  take (suc n) (x ∷ xs) = x ∷ take n xs

  abbrev pub drop : ℕ → List A → List A
  drop zero xs = xs
  drop (suc n) [] = []
  drop (suc n) (x ∷ xs) = drop n xs

  pub length-append : (xs ys : List A) → length (xs ++ ys) ≡ length xs + length ys
  length-append [] ys = omega arith
  length-append (x ∷ xs) ys = omega (arith, length-append xs ys)

  pub length-take_of_le : (n : ℕ) (xs : List A) → n ≤ length xs → length (take n xs) ≡ n
  length-take_of_le zero xs h = refl
  length-take_of_le (suc n) [] h = absurd (omega arith)
  length-take_of_le (suc n) (x ∷ xs) h = omega (arith, length-take_of_le n xs)

  drop_append_suc : (xs : List A) (y : A) (ys : List A) → drop (suc (length xs)) (xs ++ y ∷ ys) ≡ ys
  drop_append_suc [] y ys = refl
  drop_append_suc (x ∷ xs) y ys = drop_append_suc xs y ys

  pub drop_append_self :
      (xs : List A) (y : A) (ys : List A) → drop (length xs + 1) (xs ++ y ∷ ys) ≡ ys
  drop_append_self xs y ys =
      let e : length xs + 1 ≡ suc (length xs) = omega arith in
      ap (λ n. drop n (xs ++ y ∷ ys)) e ∙ drop_append_suc xs y ys

  pub take_all : (xs : List A) → take (length xs) xs ≡ xs
  take_all [] = refl
  take_all (x ∷ xs) = ap (◌∷◌ x) (take_all xs)

  pub take_append_self : (xs ys : List A) → take (length xs) (xs ++ ys) ≡ xs
  take_append_self [] ys = refl
  take_append_self (x ∷ xs) ys = ap (◌∷◌ x) (take_append_self xs ys)

module _ {ℓ} {A : Type ℓ} ⦃e : Eq A⦄ where
  abbrev pub contains : A → List A → Bool
  contains a [] = false
  contains a (x ∷ xs) = (a == x) || contains a xs

  -- No element stands twice.
  abbrev pub Distinct : List A → Type 0
  Distinct [] = Unit
  Distinct (x ∷ xs) = (contains x xs ≡ false) × Distinct xs

  -- All elements but `a`.
  abbrev pub without : A → List A → List A
  without a [] = []
  without a (x ∷ xs) = if a == x then without a xs else x ∷ without a xs

  pub contains-append :
      (a : A) (xs ys : List A) → contains a (xs ++ ys) ≡ (contains a xs || contains a ys)
  contains-append a [] ys = refl
  contains-append a (x ∷ xs) ys = ground (arith, contains-append a xs ys)

  -- `xs` and `ys` have no element in common.
  abbrev pub Apart : List A → List A → Type ℓ
  Apart xs ys = (a : A) → contains a xs ≡ true → contains a ys ≡ false

  pub contains_self : (a : A) (xs : List A) → contains a (a ∷ xs) ≡ true
  contains_self a xs = rw (eq_refl a)

  pub contains-without :
      (a b : A) (xs : List A) → contains a (without b xs) ≡ (not (a == b) && contains a xs)
  contains-without a b [] = ground arith
  contains-without a b (x ∷ xs) =
      ground (arith, contains-without a b xs, eq_iff b x, eq_iff a x, eq_iff a b)

  pub without_absent : (a : A) (xs : List A) → contains a xs ≡ false → without a xs ≡ xs
  without_absent a [] h = refl
  without_absent a (x ∷ xs) h = ground (arith, without_absent a xs)

  pub without-append :
      (a : A) (xs ys : List A) → without a (xs ++ ys) ≡ without a xs ++ without a ys
  without-append a [] ys = refl
  without-append a (x ∷ xs) ys = ground (arith, without-append a xs ys)

  pub Distinct-without : (a : A) (xs : List A) → Distinct xs → Distinct (without a xs)
  Distinct-without a [] d = tt
  Distinct-without a (x ∷ xs) d = elim (Bool-cases (a == x)) [
    | inl e ↦ rw e (Distinct-without a xs d.1)
    | inr n ↦ rw n (ground (arith, contains-without x a xs), Distinct-without a xs d.1)
  ]

  -- A list whose elements all stand in another, and none of them twice, is not the longer one.
  length-without : (a : A) (xs : List A) → contains a xs ≡ true → length (without a xs) < length xs
  length-without a [] h = cc
  length-without a (x ∷ xs) h = elim (Bool-cases (contains a xs)) [
    | inl more ↦ ground (arith, length-without a xs more)
    | inr only ↦ ground (arith, without_absent a xs only)
  ]

  pub length_le_of_contains :
      (xs ys : List A)
      → Distinct xs
      → ((a : A) → contains a xs ≡ true → contains a ys ≡ true)
      → length xs ≤ length ys
  length_le_of_contains [] ys d h = omega arith
  length_le_of_contains (x ∷ xs) ys d h =
      let here = length-without x ys (h x (contains_self x xs)) in
      let rest =
        length_le_of_contains xs (without x ys) d.1
          λ a i. ground (arith, contains-without a x ys, h a, eq_iff a x, d.0) in
      omega (arith, here, rest)

  pub Distinct-append :
      (xs ys : List A) → Distinct xs → Distinct ys → Apart xs ys → Distinct (xs ++ ys)
  Distinct-append [] ys d d' p = d'
  Distinct-append (x ∷ xs) ys d d' p = (
    ground (arith, contains-append x xs ys, p x, eq_refl x),
    Distinct-append xs ys d.1 d' (λ a h. p a (ground arith)),
  )

  -- The parts of a list with no element twice.
  pub Distinct-append_parts :
      (xs ys : List A) → Distinct (xs ++ ys) → Distinct xs × Distinct ys × Apart xs ys
  Distinct-append_parts [] ys d = (tt, d, λ a h. cc)
  Distinct-append_parts (x ∷ xs) ys d =
      let (l, r, p) = Distinct-append_parts xs ys d.1 in
      (
        (ground (arith, contains-append x xs ys), l),
        r,
        λ a h. ground (arith, contains-append x xs ys, p a, eq_iff a x),
      )

  pub absent_left : (xs ys : List A) {a b : A} → Apart xs (b ∷ ys) → a ≡ b → contains a xs ≡ false
  absent_left xs ys {a} {b} p e = elim (Bool-cases (contains a xs)) [
    | inl h ↦ absurd (ground (arith, p a h, eq_iff a b))
    | inr h ↦ h
  ]

-- What holds of the parts of a list without repetition, on the two sides of one element.
pub record Around {ℓ} {A : Type ℓ} ⦃e : Eq A⦄ (a : A) (xs ys : List A) : Type ℓ where
  pub left : Distinct xs
  pub right : Distinct ys
  pub out_left : contains a xs ≡ false
  pub out_right : contains a ys ≡ false
  pub apart : Apart xs ys

module _ {ℓ} {A : Type ℓ} ⦃e : Eq A⦄ {a : A} {xs ys : List A} where
  pub around : Distinct (xs ++ a ∷ ys) → Around a xs ys
  around d =
      let (l, r, p) = Distinct-append_parts xs (a ∷ ys) d in
      record {
        left = l;
        right = r.1;
        out_left = elim (Bool-cases (contains a xs)) [
          | inl h ↦ absurd (ground (arith, p a h, eq_refl a))
          | inr h ↦ h
        ];
        out_right = r.0;
        apart = λ b h. ground (arith, p b h);
      }

  module _ (w : Around a xs ys) where
    pub out_rest : contains a (xs ++ ys) ≡ false
    out_rest = rw (contains-append a xs ys, w.out_left) w.out_right

    pub Distinct-rest : Distinct (xs ++ ys)
    Distinct-rest = Distinct-append xs ys w.left w.right w.apart

    pub Distinct-moved : Distinct ((xs ++ ys) ++ a ∷ [])
    Distinct-moved =
        Distinct-append (xs ++ ys) (a ∷ []) Distinct-rest (refl, tt)
          λ b h. ground (arith, out_rest, eq_iff b a)

    pub without_rest : without a (xs ++ a ∷ ys) ≡ xs ++ ys
    without_rest = rw (
      without-append a xs (a ∷ ys),
      without_absent a xs w.out_left,
      eq_refl a,
      without_absent a ys w.out_right,
    )
