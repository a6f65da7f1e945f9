-- ===== src/Shared/Decimal.antt =====
-- Numbers in decimal: how `std::string` and the streams print them, and `std::stoi`.
use Prim.Native.Nat.{ℕ, zero, suc, ◌+◌, ◌-◌, ◌*◌, ◌/◌, ◌%◌, ◌<◌, ◌^◌}
use mathlib.Core.Path.{◌≡◌, refl, ap, sym, ◌∙◌}
use mathlib.Core.Bool.{Bool, true, not, ◌&&◌}
use mathlib.Core.List.{[], ◌∷◌, ◌++◌}
use mathlib.Core.Logic.{inl, inr}
use native.Mathlib.Omega.{arith}
use cs389hw.Shared.Tests.{ltb, leb, if◌then◌else◌, Bool-cases}
use cs389hw.Shared.Keys.{Bytes}
use cs389hw.Shared.Results.{Result, ok, stop, uncaught}

-- `std::isdigit`
abbrev pub is_digit : ℕ → Bool
is_digit c = leb b'0' c && leb c b'9'

-- The digits of `n`, the highest first, before `rest`; `rounds` is at least the number of digits.
unfoldable pub digits : ℕ → ℕ → Bytes → Bytes
digits zero n rest = rest
digits (suc f) n rest =
    let more = digits f (n / 10) ((b'0' + n % 10) ∷ rest) in
    if ltb n 10 then (b'0' + n) ∷ rest else more

unfoldable pub to_text : ℕ → Bytes
unfolding digits
to_text n = digits (suc n) n []

-- The number that the digits at the head of a text add to `acc`.
unfoldable pub read_digits : ℕ → Bytes → ℕ
read_digits acc [] = acc
read_digits acc (c ∷ s) =
    let more = read_digits (acc * 10 + (c - b'0')) s in if is_digit c then more else acc

abbrev pub int_max : ℕ
int_max = 2 ^ 31

-- `std::stoi` of a text that begins with no space and no sign: it throws if no digit stands there
-- and if the number is no `int`.
unfoldable pub stoi : Bytes → Result ℕ
unfolding read_digits
stoi [] = stop uncaught
stoi (c ∷ s) =
    if is_digit c
    then (if ltb (read_digits 0 (c ∷ s)) int_max then ok (read_digits 0 (c ∷ s)) else stop uncaught)
    else stop uncaught

-- The number that is read from a text stands before the first byte that is no digit.
abbrev pub ends_number : Bytes → Bool
ends_number [] = true
ends_number (c ∷ s) = not (is_digit c)

read_digits-ends : (n : ℕ) (rest : Bytes) → ends_number rest ≡ true → read_digits n rest ≡ n
unfolding read_digits
read_digits-ends n [] h = refl
read_digits-ends n (c ∷ s) h = ground (arith, h)

read_digits-digits :
    (f n : ℕ) (rest : Bytes) → n < f → read_digits 0 (digits f n rest) ≡ read_digits n rest
unfolding read_digits digits
read_digits-digits zero n rest h = absurd (omega arith)
read_digits-digits (suc f) n rest h = elim (Bool-cases (ltb n 10)) [
  | inl low ↦ rw low (ground arith)
  | inr high ↦
      rw (high, read_digits-digits f (n / 10) ((b'0' + n % 10) ∷ rest) (ground arith))
        (ground arith)
]

pub digits_head :
    (f n : ℕ) (rest : Bytes)
    → n < f
    → (c : ℕ) × (s : Bytes) × (digits f n rest ≡ c ∷ s) × (is_digit c ≡ true)
unfolding digits
digits_head zero n rest h = absurd (omega arith)
digits_head (suc f) n rest h = elim (Bool-cases (ltb n 10)) [
  | inl low ↦ (b'0' + n, rest, rw low refl, ground arith)
  | inr high ↦
      let (c, s, e, d) = digits_head f (n / 10) ((b'0' + n % 10) ∷ rest) (ground arith) in
      (c, s, rw high e, d)
]

digits-append : (f n : ℕ) (s t : Bytes) → n < f → digits f n s ++ t ≡ digits f n (s ++ t)
unfolding digits
digits-append zero n s t h = absurd (omega arith)
digits-append (suc f) n s t h = elim (Bool-cases (ltb n 10)) [
  | inl low ↦ rw low refl
  | inr high ↦ rw high (digits-append f (n / 10) ((b'0' + n % 10) ∷ s) t (ground arith))
]

stoi_digit :
    (c : ℕ) (s : Bytes) {n : ℕ}
    → is_digit c ≡ true
    → read_digits 0 (c ∷ s) ≡ n
    → n < int_max
    → stoi (c ∷ s) ≡ ok n
unfolding stoi
stoi_digit c s {n} d reads small =
    let fits : ltb n int_max ≡ true = ground arith in
    ap
      (λ b.
        if b
        then (if ltb (read_digits 0 (c ∷ s)) int_max
            then ok (read_digits 0 (c ∷ s))
            else stop uncaught)
        else stop uncaught)
      d
    ∙ ap (λ m. if ltb m int_max then ok m else stop uncaught) reads
    ∙ ap (λ b. if b then ok n else stop uncaught) fits

-- What is printed is read back, whatever follows it but a digit.
pub stoi-to_text :
    (n : ℕ) (rest : Bytes) → n < int_max → ends_number rest ≡ true → stoi (to_text n ++ rest) ≡ ok n
unfolding stoi to_text
stoi-to_text n rest small ends =
    let (c, s, e, d) = digits_head (suc n) n rest (omega arith) in
    let reads : read_digits 0 (c ∷ s) ≡ n =
      ap (read_digits 0) (sym e)
      ∙ read_digits-digits (suc n) n rest (omega arith)
      ∙ read_digits-ends n rest ends in
    ap stoi (digits-append (suc n) n [] rest (omega arith) ∙ e) ∙ stoi_digit c s d reads small
