-- ===== src/Server/Commands.antt =====
-- What a request asks for, and how a server over the specification of the cache answers it.
--
-- Nothing is left of buffers, tables and lists.
use cs389hw.Shared.{
  ℕ, ◌+◌, ◌<◌, ◌^◌, ◌≢◌, true, false, Option, none, some, List, [], ◌∷◌, ◌++◌, Key, Bytes, Result,
  ok, stop, uncaught, ◌>>=◌, ◌==◌, nat_eq, bytes_eq, if◌then◌else◌, length, text,
}
use cs389hw.Shared.Decimal.{to_text}
use cs389hw.Cache.Bounded
use cs389hw.Cache.Bounded.{Bounded, forget, get_in}
use cs389hw.Server.{
  Verb, get, put, delete_, head, post, other, Request, Response, default_response, slash, until_nul,
}

pub data Command : Type 0 where
  put_value : Key → Bytes → Command
  get_key delete_key : Key → Command
  ask_space reset_all : Command
  refuse : Bytes → Command
  crash : Command

-- The texts before and after the first slash.
abbrev pub split : Bytes → Option (Key × Bytes)
split [] = none
split (c ∷ s) =
    if c == slash
    then some ([], s)
    else elim (split s) [ none ↦ none | some (k, v) ↦ some (c ∷ k, v) ]

abbrev pub bad_delimitation : Command
bad_delimitation = refuse (text "bad target delimitation")

abbrev pub put_command : Option (Key × Bytes) → Command
put_command none = bad_delimitation
put_command (some (key, value)) = put_value key value

-- An empty target is one that GET, PUT and DELETE do not survive.
abbrev pub command_of : Verb → Bytes → Command
command_of get [] = crash
command_of get (c ∷ s) = if c == slash then get_key s else bad_delimitation
command_of put [] = crash
command_of put (c ∷ s) = if c == slash then put_command (split s) else bad_delimitation
command_of delete_ [] = crash
command_of delete_ (c ∷ s) = if c == slash then delete_key s else bad_delimitation
command_of head t = ask_space
command_of post t = if t == text "/reset" then reset_all else bad_delimitation
command_of other t = refuse (text "request method undefined")

-- A key that is told to the evictor is not empty, and the size of a value is an `int`.
abbrev pub Fine : Command → Type 0
Fine (put_value key value) = (key ≢ []) × (length value + 1 < 2 ^ 31)
Fine (get_key key) = key ≢ []
Fine c = Unit

-- The answer to a command that has been carried out, with the memory in use.
abbrev pub carried_out : ℕ → Response
carried_out used = record {
  status = 200;
  version = 11;
  fields =
      (text "Space-Used", to_text used)
      ∷ (text "Content-Type", text "application/json")
      ∷ (text "Accept", text "text/json")
      ∷ [];
  keep_alive = true;
  body = [];
  prepared = false;
}

module _ (beast_version : Bytes) (dump : Bytes → Bytes → Result Bytes) where
  abbrev pub refusal : ℕ → Request → Bytes → Response
  refusal status req why = record {
    status = status;
    version = req.version;
    fields = (text "Content-Type", text "text/html") ∷ (text "Server", beast_version) ∷ [];
    keep_alive = req.keep_alive;
    body = why;
    prepared = true;
  }

  -- The answer to GET, by the value that the key has.
  unfoldable pub found : Option Bytes → Key → Request → Result Response
  found none key req =
      ok (refusal 404 req (text "The resource '" ++ (key ++ text "' was not found.")))
  found (some val) key req = do
    value ← until_nul val
    body ← dump key value
    ok (record default_response { body = body })

  module _ (touched : Key → List Key → List Key) where
    unfoldable pub serve : Command → Request → Bounded → Result (Response × Bounded)
    unfolding found
    serve (put_value key value) req a = do
      b ← Bounded.set touched key (value ++ 0 ∷ []) a
      ok (carried_out b.used, b)
    serve (get_key key) req a = do
      response ← found (a.content key) key req
      ok (response, get_in touched (a.content key) key a)
    serve (delete_key key) req a = let b = forget key a in ok (carried_out b.used, b)
    serve ask_space req a = ok (carried_out a.used, a)
    serve reset_all req a =
        ok (carried_out 0, record a { used = 0; content = λ j. none; order = [] })
    serve (refuse why) req a = ok (refusal 400 req why, a)
    serve crash req a = stop uncaught
