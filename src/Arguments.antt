-- ===== src/Arguments.antt =====
-- cache_server.cc: the command line (`is_number`, `is_ip`, `to_number`, `set_params`).
--
-- `getopt` is a parameter: the options are the list of what it returns, one after another, each
-- with `optarg`, which is a null pointer for an option that takes no argument.
pub mod Formats
pub mod Settings
use cs389hw.Shared.{
  ℕ, suc, ◌+◌, ◌%◌, ◌^◌, Bool, true, false, not, ◌&&◌, ◌||◌, Option, some, none, List, [], ◌∷◌,
  Bytes, Result, ok, stop, uncaught, bad_access, ◌>>=◌, ◌==◌, nat_eq, if◌then◌else◌, leb, text,
}
use cs389hw.Shared.Decimal.{is_digit, stoi}

-- The loop of `is_number`: the part of the text that its iterator has not passed.
unfoldable pub skip_digits : Bytes → Bytes
skip_digits [] = []
skip_digits (c ∷ s) = let rest = skip_digits s in if is_digit c then rest else c ∷ s

abbrev pub is_empty : Bytes → Bool
is_empty [] = true
is_empty (c ∷ s) = false

unfoldable pub is_number : Bytes → Bool
unfolding skip_digits
is_number s = not (is_empty s) && is_empty (skip_digits s)

-- `*it` of the part that the iterator has not passed; a string ends in a NUL.
abbrev pub first : Bytes → ℕ
first [] = 0
first (c ∷ s) = c

-- `*(s.end() - 1)` of a text that is not empty.
abbrev pub last : ℕ → Bytes → ℕ
last c [] = c
last c (d ∷ s) = last d s

-- The loop of `is_ip` from an iterator, with `no_consec_dots`.
unfoldable pub skip_ip : Bool → Bytes → Bytes
skip_ip no_consec_dots [] = []
skip_ip no_consec_dots (c ∷ s) =
    let rest = skip_ip ((first s == b'.') && not (c == b'.') || not (first s == b'.')) s in
    if (is_digit c || c == b'.') && no_consec_dots then rest else c ∷ s

-- An empty text: `*(s.end() - 1)` is read only after a dot, so the answer is false.
unfoldable pub is_ip : Bytes → Bool
unfolding skip_ip
is_ip [] = false
is_ip (c ∷ s) = if c == b'.' && last c s == b'.' then false else is_empty (skip_ip true (c ∷ s))

-- `size_type(std::stoi(s))`; an `int` that is not negative keeps its value.
unfoldable pub to_number : Bytes → Result ℕ
unfolding stoi
to_number s = stoi s

pub record Params : Type 0 where
  pub maxmem : ℕ
  pub server : Bytes
  pub port : ℕ
  pub threads : ℕ

-- One return of `getopt`.
pub data Opt : Type 0 where
  opt_m opt_p opt_s opt_t unknown : Opt

-- The body of the loop of `set_params`; `none` for `return false`.
unfoldable pub set_param : Opt → Bytes → Params → Result (Option Params)
unfolding is_number is_ip to_number
set_param opt_m param_str q =
    if is_number param_str
    then (do n ← to_number param_str; ok (some (record q { maxmem = n })))
    else ok none
set_param opt_p param_str q =
    if is_number param_str
    then (do n ← to_number param_str; ok (some (record q { port = n % 2 ^ 16 })))
    else ok none
set_param opt_s param_str q =
    if is_ip param_str then ok (some (record q { server = param_str })) else ok none
set_param opt_t param_str q =
    if is_number param_str
    then (do n ← to_number param_str; ok (some (record q { threads = n })))
    else ok none
set_param unknown param_str q = ok none

-- `std::string param_str(optarg)`: a null pointer is an error before `opt` is looked at.
unfoldable pub param_of : Option Bytes → Result Bytes
param_of none = stop uncaught
param_of (some a) = ok a

-- `return false`, or the next round of the loop.
abbrev pub next_round : (Params → Result (Option Params)) → Option Params → Result (Option Params)
next_round loop none = ok none
next_round loop (some q) = loop q

unfoldable pub set_params : List (Opt × Option Bytes) → Params → Result (Option Params)
unfolding param_of set_param
set_params [] q = ok (some q)
set_params ((opt, optarg) ∷ opts) q = do
  param_str ← param_of optarg
  set_param opt param_str q >>= next_round (set_params opts)

-- The values that `main` starts from.
abbrev pub default_params : Params
default_params = record { maxmem = 300000; server = text "127.0.0.1"; port = 10002; threads = 1 }
