-- ===== src/Server/Forms.antt =====
-- The forms of targets and responses, beside those of the specification.
use cs389hw.Shared.{
  ℕ, suc, ◌+◌, ◌≡◌, refl, arith, none, some, [], ◌∷◌, ◌++◌, Key, Bytes, Result, Ends, replied,
  halted, ok, stop, uncaught, ◌>>=◌, ◌==◌, nat_eq, bytes_eq, bytes_beq, take, drop, text,
  Bool-cases, inl, inr, ◌⊎◌,
}
use cs389hw.CacheLib
use cs389hw.CacheLib.{Impl}
use cs389hw.Server.{
  Request, default_response, slash, at_zero, find_char, set_header, set_field, error_response,
  bad_request, not_found,
}
use cs389hw.Server.Answers.{accepted}
use cs389hw.Server.Commands.{split, carried_out, refusal}

-- `find('/')`, with what `substr` makes of it.
pub split_lem :
    (s : Bytes)
    → ((find_char slash s ≡ none) × (split s ≡ none))
      ⊎ ((i : ℕ) × (find_char slash s ≡ some i) × (split s ≡ some (take i s, drop (i + 1) s)))
unfolding find_char
split_lem [] = inl (refl, refl)
split_lem (c ∷ s) = elim (Bool-cases (c == slash)) [
  | inl here ↦ inr (0, rw here, rw here)
  | inr there ↦ elim (split_lem s) [
    | inl (absent, whole) ↦ inl (rw (there, absent), rw (there, whole))
    | inr (i, at, parts) ↦
        let next : suc i + 1 ≡ suc (i + 1) = omega arith in
        inr (suc i, rw (there, at), rw (next, there, parts))
  ]
]

pub carried_lem : {S : Type 0} (s : Impl S) → accepted s ≡ carried_out s.current_mem
unfolding set_header set_field CacheLib.get_current_mem bytes_beq
carried_lem s = refl

pub bad_request_lem :
    (beast_version : Bytes) (dump : Bytes → Bytes → Result Bytes) (req : Request) (why : Bytes)
    → bad_request beast_version req why ≡ refusal beast_version dump 400 req why
unfolding bad_request error_response set_field bytes_beq
bad_request_lem beast_version dump req why = refl

pub not_found_lem :
    (beast_version : Bytes) (dump : Bytes → Bytes → Result Bytes) (req : Request) (key : Key)
    → not_found beast_version req key
      ≡ refusal beast_version dump 404 req
          (text "The resource '" ++ (key ++ text "' was not found."))
unfolding not_found error_response set_field bytes_beq
not_found_lem beast_version dump req key = refl

pub body_lem :
    {A B : Type 0} {Fits : A → B → Type 0} (body : Result Bytes) (a : A) (b : B)
    → Fits a b
    → Ends Fits
        (body >>= λ text. ok (record default_response { body = text }, a))
        ((body >>= λ text. ok (record default_response { body = text })) >>= λ r. ok (r, b))
body_lem (stop e) a b h = halted e
body_lem (ok t) a b h = replied _ h

-- The answer to GET, from the value that was read.
pub bodies :
    {A B : Type 0} {Fits : A → B → Type 0} (value : Result Bytes) (dump : Bytes → Result Bytes)
    (a : A) (b : B)
    → Fits a b
    → Ends Fits
        (value >>= λ v. (dump v >>= λ body. ok (record default_response { body = body }, a)))
        ((value >>= λ v. (dump v >>= λ body. ok (record default_response { body = body }))) >>= λ r.
          ok (r, b))
bodies (stop e) dump a b h = halted e
bodies (ok v) dump a b h = body_lem (dump v) a b h

pub at_zero_lem : (t : Bytes) (c : ℕ) (key : Bytes) → t ≡ c ∷ key → at_zero t ≡ ok c
unfolding at_zero
at_zero_lem t c key e = rw e

pub at_zero_empty : (t : Bytes) → t ≡ [] → at_zero t ≡ stop uncaught
unfolding at_zero
at_zero_empty t e = rw e
