-- ===== src/Server/Targets.antt =====
-- How `handle_request` takes a target apart.
use cs389hw.Shared.{
  drop, ℕ, Bool, true, false, ◌&&◌, some, none, [], ◌∷◌, ◌++◌, ◌≡◌, refl, arith, Bytes, Key, ok,
  ◌==◌, nat_eq, bytes_eq, contains, length, eq_iff, eq_refl, text,
}
use cs389hw.Server.{Verb, find_char, until_nul, slash, get, put, delete_, head, post, other}

pub find_char_absent : (c : ℕ) (s : Bytes) → contains c s ≡ false → find_char c s ≡ none
unfolding find_char
find_char_absent c [] h = refl
find_char_absent c (d ∷ s) h = rw (find_char_absent c s (ground arith)) (ground (arith, eq_iff c d))

-- The first occurrence of a byte.
pub find_char_append :
    (c : ℕ) (s t : Bytes) → contains c s ≡ false → find_char c (s ++ c ∷ t) ≡ some (length s)
unfolding find_char
find_char_append c [] t h = rw (eq_refl c)
find_char_append c (d ∷ s) t h =
    rw (find_char_append c s t (ground arith)) (ground (arith, eq_iff c d))

-- A C string gives the bytes before its terminator.
pub until_nul_lem : (s : Bytes) → contains 0 s ≡ false → until_nul (s ++ 0 ∷ []) ≡ ok s
unfolding until_nul
until_nul_lem [] h = refl
until_nul_lem (c ∷ s) h = rw (until_nul_lem s (ground arith)) (ground arith)

-- The target of `PUT /key/value` and that of the other requests for a key.
abbrev pub put_target : Key → Bytes → Bytes
put_target key value = slash ∷ key ++ slash ∷ value

abbrev pub key_target : Key → Bytes
key_target key = slash ∷ key

abbrev pub begins_with : ℕ → Bytes → Bool
begins_with c [] = false
begins_with c (d ∷ s) = d == c

-- The requests that the server understands, by their targets alone.
abbrev pub understood : Verb → Bytes → Bool
understood get target = begins_with slash target
understood put target = begins_with slash target && contains slash (drop 1 target)
understood delete_ target = begins_with slash target
understood head target = true
understood post target = target == text "/reset"
understood other target = false
