-- ===== src/Client/Find.antt =====
-- `std::string::find` of a text.
use cs389hw.Shared.{
  ℕ, suc, ◌+◌, true, false, some, List, [], ◌∷◌, ◌++◌, ◌≡◌, ap, ◌∙◌, arith, Bytes, nat_eq, length,
  drop,
}
use cs389hw.Client.{starts_with, find_text}

-- `t` begins nowhere in `p`, with `s` behind it.
abbrev pub Misses : Bytes → Bytes → Bytes → Type 0
Misses t [] s = Unit
Misses t (c ∷ p) s = (starts_with t (c ∷ p ++ s) ≡ false) × Misses t p s

pub find_text_here : (t s : Bytes) → starts_with t s ≡ true → find_text t s ≡ some 0
unfolding find_text
find_text_here t [] h = rw h
find_text_here t (c ∷ s) h = rw h

-- The first occurrence stands behind the part that has none.
pub find_text_append :
    (t p s : Bytes) {i : ℕ}
    → Misses t p s
    → find_text t s ≡ some i
    → find_text t (p ++ s) ≡ some (length p + i)
unfolding find_text
find_text_append t [] s {i} h e = e ∙ ap some (omega arith)
find_text_append t (c ∷ p) s {i} h e =
    rw (h.0, find_text_append t p s h.1 e) (ap some (omega arith))

pub drop_plus : {A : Type 0} (p s : List A) (n : ℕ) → drop (length p + n) (p ++ s) ≡ drop n s
drop_plus [] s n = ap (λ m. drop m s) (omega arith)
drop_plus (c ∷ p) s n =
    let e : suc (length p) + n ≡ suc (length p + n) = omega arith in
    ap (λ m. drop m (c ∷ p ++ s)) e ∙ drop_plus p s n
