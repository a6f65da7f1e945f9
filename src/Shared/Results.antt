-- ===== src/Shared/Results.antt =====
-- What stops the program: a failed `assert`, an access outside a live object, signed overflow,
-- an exception that nobody catches, a lock that the thread already has, or (in the model only) a
-- loop that runs out of rounds.
use mathlib.Core.Path.{◌≡◌, subst}
use mathlib.Core.Bool.{Bool, true, false}

pub data Stop : Type 0 where
  assert_failed bad_access overflow uncaught deadlock out_of_fuel : Stop

pub data Result {κ} (A : Type κ) : Type κ where
  stop : Stop → Result A
  ok : A → Result A

-- One statement after another: the first stop is the last.
infixl 5 ◌>>=◌
abbrev pub ◌>>=◌ {κ μ} : {A : Type κ} {B : Type μ} → Result A → (A → Result B) → Result B
stop reason >>= rest = stop reason
ok value >>= rest = rest value

infixl 5 ◌>>◌
abbrev pub ◌>>◌ {κ} : {B : Type κ} → Result (Unit {0}) → Result B → Result B
stop reason >> rest = stop reason
ok done >> rest = rest

-- `assert(b)`; the Makefile does not define NDEBUG.
abbrev pub assert : Bool → Result (Unit {0})
assert true = ok tt
assert false = stop assert_failed

-- How a computation on states of one kind and one on states of another end alike: with the same
-- reply and states that fit together, or with the same failure.
pub data Ends {A B R : Type 0} (Fits : A → B → Type 0)
    : Result (R × A) → Result (R × B) → Type 0 where
  replied : {a : A} {b : B} (r : R) → Fits a b → Ends Fits (ok (r, a)) (ok (r, b))
  halted : (e : Stop) → Ends Fits (stop e) (stop e)

pub replied_as :
    {A B R : Type 0} {Fits : A → B → Type 0} {a : A} {b : B} {r r' : R}
    → r ≡ r'
    → Fits a b
    → Ends Fits (ok (r, a)) (ok (r', b))
replied_as {Fits} {a} {b} {r} e h = subst (λ x. Ends Fits (ok (r, a)) (ok (x, b))) e (replied r h)

-- What the other side does, from what one side does.
pub answered :
    {A B R : Type 0} {F : A → B → Type 0} {r : Result (R × A)} {q : Result (R × B)} {x : R} {b : B}
    → Ends F r q
    → q ≡ ok (x, b)
    → (s : A) × (r ≡ ok (x, s)) × F s b
answered {F} {x} {b} (replied {a = s} {b = t} y h) e =
    let same_reply : y ≡ x = cc in let same : t ≡ b = cc in (s, cc, subst (F s) same h)
answered (halted t) e = cc

pub halts :
    {A B R : Type 0} {F : A → B → Type 0} {r : Result (R × A)} {q : Result (R × B)} (x : Stop)
    → Ends F r q
    → q ≡ stop x
    → r ≡ stop x
halts x (replied y h) e = cc
halts x (halted t) e = cc
