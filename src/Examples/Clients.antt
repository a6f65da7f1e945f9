-- ===== src/Examples/Clients.antt =====
-- cache_client.cc at a small cache.
use cs389hw.Shared.{
  ◌≡◌, refl, List, [], ◌∷◌, ◌++◌, Bytes, Result, ok, stop, bad_access, text, bytes_beq,
}
use cs389hw.Server.{Response}
use cs389hw.Client.{parse_answer, space_mark}
use cs389hw.Client.Parse.{json_text}
use cs389hw.Client.SpaceUsed.{front, back}

abbrev pub dump : Bytes → Bytes → Result Bytes
dump key val = ok (json_text key val)

abbrev pub beast : Bytes
beast = text "Boost.Beast"

abbrev pub host : Bytes
host = text "127.0.0.1"

-- The lines of a header whose latest field is Space-Used.
abbrev pub header : List (Bytes × Bytes) → Bytes
header [] = []
header ((name, v) ∷ fields) = front ++ (space_mark ++ (v ++ back))

abbrev pub print : Response → Bytes
print r = header r.fields

-- A value that begins with a closing brace is not found again.
closing_brace : parse_answer (json_text (text "k") (text "}")) ≡ stop bad_access
unfolding parse_answer bytes_beq
closing_brace = refl
