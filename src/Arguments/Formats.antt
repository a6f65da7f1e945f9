-- ===== src/Arguments/Formats.antt =====
-- Which texts the command line takes for a number and for an address.
use cs389hw.Shared.{
  ℕ, zero, suc, ◌/◌, ◌%◌, ◌<◌, ltb, ◌+◌, Bool, true, false, not, ◌&&◌, ◌||◌, [], ◌∷◌, ◌≡◌, refl, ap,
  ◌∙◌, arith, Bytes, ◌==◌, nat_eq, if◌then◌else◌, Bool-cases, inl, inr,
}
use cs389hw.Shared.Decimal.{is_digit, digits, to_text, digits_head}
use cs389hw.Arguments.{skip_digits, is_number, is_empty, skip_ip, is_ip, first, last}

abbrev pub all_digits : Bytes → Bool
all_digits [] = true
all_digits (c ∷ s) = is_digit c && all_digits s

is_empty-skip_digits : (s : Bytes) → is_empty (skip_digits s) ≡ all_digits s
unfolding skip_digits
is_empty-skip_digits [] = refl
is_empty-skip_digits (c ∷ s) = ground (arith, is_empty-skip_digits s)

-- `is_number` takes the texts of digits, but for the empty one.
pub is_number_lem : (s : Bytes) → is_number s ≡ (not (is_empty s) && all_digits s)
unfolding is_number
is_number_lem s = ap (λ b. not (is_empty s) && b) (is_empty-skip_digits s)

-- Digits and dots.
abbrev pub is_ip_char : ℕ → Bool
is_ip_char c = is_digit c || c == b'.'

abbrev pub all_ip_chars : Bytes → Bool
all_ip_chars [] = true
all_ip_chars (c ∷ s) = is_ip_char c && all_ip_chars s

-- No dot follows a dot.
abbrev pub dots_apart : Bytes → Bool
dots_apart [] = true
dots_apart (c ∷ s) = not (c == b'.' && first s == b'.') && dots_apart s

is_empty-skip_ip :
    (b : Bool) (c : ℕ) (s : Bytes)
    → is_empty (skip_ip b (c ∷ s)) ≡ (b && (all_ip_chars (c ∷ s) && dots_apart (c ∷ s)))
unfolding skip_ip
is_empty-skip_ip b c [] = ground arith
is_empty-skip_ip b c (d ∷ s) =
    ground (arith, is_empty-skip_ip ((d == b'.') && not (c == b'.') || not (d == b'.')) d s)

-- Digits and dots, not empty, no two dots in a row, and not a dot at both ends.
abbrev pub ip_like : Bytes → Bool
ip_like [] = false
ip_like (c ∷ s) =
    not (c == b'.' && last c s == b'.') && (all_ip_chars (c ∷ s) && dots_apart (c ∷ s))

-- `is_ip` takes the texts of digits and dots that are not empty, have no two dots in a row, and do
-- not both begin and end with a dot.
pub is_ip_lem : (s : Bytes) → is_ip s ≡ ip_like s
unfolding is_ip
is_ip_lem [] = refl
is_ip_lem (c ∷ s) =
    ap (λ b. if c == b'.' && last c s == b'.' then false else b) (is_empty-skip_ip true c s)
    ∙ ground arith

all_digits-digits :
    (f n : ℕ) (rest : Bytes) → n < f → all_digits rest ≡ true → all_digits (digits f n rest) ≡ true
unfolding digits
all_digits-digits zero n rest h d = absurd (omega arith)
all_digits-digits (suc f) n rest h d = elim (Bool-cases (ltb n 10)) [
  | inl low ↦ rw low (ground arith)
  | inr high ↦
      rw high (all_digits-digits f (n / 10) ((b'0' + n % 10) ∷ rest) (ground arith) (ground arith))
]

-- What is printed for a number is taken for one.
pub is_number-to_text : (n : ℕ) → is_number (to_text n) ≡ true
unfolding to_text
is_number-to_text n =
    let (c, s, e, d) = digits_head (suc n) n [] (omega arith) in
    is_number_lem (digits (suc n) n [])
    ∙ ap (λ b. not (is_empty (digits (suc n) n [])) && b)
        (all_digits-digits (suc n) n [] (omega arith) refl)
    ∙ ap (λ t. not (is_empty t) && true) e
