-- ===== src/Arguments/Settings.antt =====
-- What `set_params` makes of a command line.
use cs389hw.Shared.{
  ℕ, ◌<◌, ◌%◌, ◌^◌, Bool, true, false, Option, some, none, List, [], ◌∷◌, ◌++◌, ◌≡◌, refl, sym, ap,
  ◌∙◌, append-nil, Bytes, Result, ok, stop, ◌>>=◌,
}
use cs389hw.Shared.Decimal.{to_text, stoi, stoi-to_text, int_max}
use cs389hw.Arguments.{
  to_number, Params, Opt, opt_m, opt_p, opt_s, opt_t, unknown, set_param, param_of, set_params,
  next_round,
}
use cs389hw.Arguments.Formats.{is_number-to_text}

-- Options come one after another.
abbrev Options : Type 0
Options = List (Opt × Option Bytes)

after_bind :
    {A : Type 0} (r : Result A) (f g : A → Result (Option Params))
    (k : Params → Result (Option Params))
    → ((a : A) → f a ≡ (g a >>= next_round k))
    → (r >>= f) ≡ (r >>= g >>= next_round k)
after_bind (ok a) f g k h = h a
after_bind (stop e) f g k h = refl

after_round :
    (o : Option Params) (f g k : Params → Result (Option Params))
    → ((q : Params) → f q ≡ (g q >>= next_round k))
    → next_round f o ≡ (next_round g o >>= next_round k)
after_round none f g k h = refl
after_round (some q) f g k h = h q

-- The options are read from the left to the right, up to the first that is refused.
set_params_append :
    (pre post : Options) (q : Params)
    → set_params (pre ++ post) q ≡ (set_params pre q >>= next_round (set_params post))
unfolding set_params
set_params_append [] post q = refl
set_params_append ((opt, optarg) ∷ pre) post q =
    after_bind (param_of optarg) _ _ (set_params post) λ a.
      after_bind (set_param opt a q) _ _ (set_params post)
        λ o. after_round o _ _ (set_params post) (set_params_append pre post)

to_number-to_text : (n : ℕ) → n < int_max → to_number (to_text n) ≡ ok n
unfolding to_number
to_number-to_text n small = ap stoi (sym (append-nil (to_text n))) ∙ stoi-to_text n [] small refl

-- The setting that a numeric option stands for.
abbrev pub with_number : Opt → ℕ → Params → Params
with_number opt_m n q = record q { maxmem = n }
with_number opt_p n q = record q { port = n % 2 ^ 16 }
with_number opt_t n q = record q { threads = n }
with_number opt_s n q = q
with_number unknown n q = q

abbrev pub numeric : Opt → Bool
numeric opt_m = true
numeric opt_p = true
numeric opt_t = true
numeric opt_s = false
numeric unknown = false

set_param_number :
    (opt : Opt) (n : ℕ) (q : Params)
    → numeric opt ≡ true
    → n < int_max
    → set_param opt (to_text n) q ≡ ok (some (with_number opt n q))
unfolding set_param
set_param_number opt_m n q h small = rw (is_number-to_text n, to_number-to_text n small)
set_param_number opt_p n q h small = rw (is_number-to_text n, to_number-to_text n small)
set_param_number opt_t n q h small = rw (is_number-to_text n, to_number-to_text n small)
set_param_number opt_s n q h small = cc
set_param_number unknown n q h small = cc

-- A numeric option with a number of type `int` sets its parameter (the port modulo 2^16), after
-- the options before it and before those behind it.
pub set_params_number :
    (opt : Opt) (n : ℕ) (pre post : Options) (q q' : Params)
    → numeric opt ≡ true
    → n < int_max
    → set_params pre q ≡ ok (some q')
    → set_params (pre ++ (opt, some (to_text n)) ∷ post) q ≡ set_params post (with_number opt n q')
unfolding set_params param_of
set_params_number opt n pre post q q' h small run =
    set_params_append pre ((opt, some (to_text n)) ∷ post) q
    ∙ ap (λ r. r >>= next_round (set_params ((opt, some (to_text n)) ∷ post))) run
    ∙ ap (λ r. r >>= next_round (set_params post)) (set_param_number opt n q' h small)
