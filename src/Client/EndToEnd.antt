-- ===== src/Client/EndToEnd.antt =====
-- What the JSON text of a key and a value is, for the bytes that it has as they are.
use cs389hw.Shared.{
  ℕ, Bool, true, false, not, ◌&&◌, [], ◌∷◌, ◌≡◌, refl, arith, Bytes, Result, ok, ◌==◌, nat_eq,
  bytes_eq, leb, contains,
}
use cs389hw.Client.Parse.{quote, json_text}

-- A byte that a JSON text has as it is: ASCII, printable, no quotation mark and no backslash.
abbrev pub verbatim : ℕ → Bool
verbatim c = leb 32 c && leb c 126 && not (c == quote) && not (c == 92)

abbrev pub all_verbatim : Bytes → Bool
all_verbatim [] = true
all_verbatim (c ∷ s) = verbatim c && all_verbatim s

pub verbatim-unquoted : (s : Bytes) → all_verbatim s ≡ true → contains quote s ≡ false
verbatim-unquoted [] h = refl
verbatim-unquoted (c ∷ s) h = ground (arith, verbatim-unquoted s)

pub verbatim-no_nul : (s : Bytes) → all_verbatim s ≡ true → contains 0 s ≡ false
verbatim-no_nul [] h = refl
verbatim-no_nul (c ∷ s) h = ground (arith, verbatim-no_nul s)

-- What the JSON library documents of `dump` for such texts.
abbrev pub Dumps : (Bytes → Bytes → Result Bytes) → Type 0
Dumps dump =
    (key val : Bytes)
    → all_verbatim key ≡ true
    → all_verbatim val ≡ true
    → dump key val ≡ ok (json_text key val)
