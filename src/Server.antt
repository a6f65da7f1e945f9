-- ===== src/Server.antt =====
-- cache_server.cc: requests, responses and `handle_request`.
--
-- Boost.Beast and the JSON library are parameters: `beast_version` is BOOST_BEAST_VERSION_STRING,
-- `dump` is the text of `{"key": key, "value": value}`, or an exception.
pub mod Targets
pub mod Answers
pub mod Refused
pub mod Race
pub mod Kept
pub mod Commands
pub mod Growth
pub mod Forms
pub mod Exact
use cs389hw.Shared.{
  ℕ, suc, ◌+◌, ◌%◌, Bool, true, false, not, Option, some, none, List, [], ◌∷◌, ◌++◌, Key, Bytes,
  Result, ok, stop, uncaught, bad_access, ◌>>=◌, ◌==◌, nat_eq, bytes_eq, if◌then◌else◌, length,
  drop, take, text,
}
use cs389hw.Shared.Int.{u32}
use cs389hw.Shared.Tables.{erase}
use cs389hw.Shared.Decimal.{to_text}
use cs389hw.Memory.{Ptr, null, Memory, load, Allocator}
use cs389hw.Evictor.{Evictor}
use cs389hw.CacheLib
use cs389hw.CacheLib.{Impl}

-- `http::verb`, with one constructor for all that the server does not know.
pub data Verb : Type 0 where
  get put delete_ head post other : Verb

pub record Request : Type 0 where
  pub method : Verb
  pub target : Bytes
  pub version : ℕ
  pub keep_alive : Bool
  pub fields : List (Bytes × Bytes)

-- `prepared` says that `prepare_payload` has set the content length.
pub record Response : Type 0 where
  pub status : ℕ
  pub version : ℕ
  pub fields : List (Bytes × Bytes)
  pub keep_alive : Bool
  pub body : Bytes
  pub prepared : Bool

-- `http::response<http::string_body> res;`
abbrev pub default_response : Response
default_response = record {
  status = 200;
  version = 11;
  fields = [];
  keep_alive = true;
  body = [];
  prepared = false;
}

-- `res.set(name, value)`
unfoldable pub set_field : Bytes → Bytes → Response → Response
set_field name v r = record r { fields = (name, v) ∷ erase r.fields name }

module _ (beast_version : Bytes) where
  -- `http::response<http::string_body> res{status, req.version()}`, its fields and its body
  unfoldable pub error_response : ℕ → Request → Bytes → Response
  unfolding set_field
  error_response code req why =
      let r = set_field (text "Content-Type") (text "text/html") (
        set_field (text "Server") beast_version
          (record default_response { status = code; version = req.version })) in
      record r { keep_alive = req.keep_alive; body = why; prepared = true }

  unfoldable pub bad_request : Request → Bytes → Response
  unfolding error_response
  bad_request req why = error_response 400 req why

  unfoldable pub not_found : Request → Bytes → Response
  unfolding error_response
  not_found req target =
      error_response 404 req (text "The resource '" ++ (target ++ text "' was not found."))

unfoldable pub set_header : {S : Type 0} → Impl S → Response → ℕ → Response
unfolding set_field
set_header cache response code =
    let r = set_field (text "Space-Used") (to_text (CacheLib.get_current_mem cache)) (
      set_field (text "Content-Type") (text "application/json")
        (set_field (text "Accept") (text "text/json") (record response { version = 11 }))) in
    record r { status = code }

-- `s.at(0)`: `std::out_of_range` on an empty text, which `catch(int e)` does not catch
unfoldable pub at_zero : Bytes → Result ℕ
at_zero [] = stop uncaught
at_zero (c ∷ s) = ok c

-- `s.find(c)`
unfoldable pub find_char : ℕ → Bytes → Option ℕ
find_char c [] = none
find_char c (d ∷ s) =
    if d == c then some 0 else elim (find_char c s) [ none ↦ none | some i ↦ some (suc i) ]

-- `std::string(val)`: the bytes before the first NUL
unfoldable pub until_nul : Bytes → Result Bytes
until_nul [] = stop bad_access
until_nul (c ∷ s) = if c == 0 then ok [] else (until_nul s >>= λ t. ok (c ∷ t))

abbrev pub slash : ℕ
slash = b'/'

module _ {S : Type 0} (ev : Evictor S) (alloc : Allocator Bytes) (rounds : ℕ)
    (beast_version : Bytes) (dump : Bytes → Bytes → Result Bytes) where
  unfoldable pub bad_target : Request → Impl S → Result (Response × Impl S)
  unfolding bad_request
  bad_target req s = ok (bad_request beast_version req (text "bad target delimitation"), s)

  -- `case http::verb::get`, from the answer of the cache
  unfoldable pub answer_get : Request → Key → Ptr → Impl S → Result (Response × Impl S)
  unfolding not_found until_nul
  answer_get req key val s = if val == null then ok (not_found beast_version req key, s) else do
    bytes ← load s.buffers val
    value ← until_nul bytes
    body ← dump key value
    ok (record default_response { body = body }, s)

  unfoldable pub handle_get : Request → Impl S → Result (Response × Impl S)
  unfolding at_zero bad_target answer_get
  handle_get req s = do
    first ← at_zero req.target
    if not (first == slash) then bad_target req s else do
      let key = drop 1 req.target
      ((val, size), s) ← CacheLib.get ev key s
      answer_get req key val s

  -- `case http::verb::put`, from `key_value.find('/')`
  unfoldable pub put_at : Option ℕ → Bytes → Request → Impl S → Result (Response × Impl S)
  unfolding bad_target set_header
  put_at none key_value req s = bad_target req s
  put_at (some delim_pos) key_value req s = do
    let key = take delim_pos key_value
    let value = drop (delim_pos + 1) key_value
    s ← CacheLib.set ev alloc rounds key (value ++ 0 ∷ []) ((length value + 1) % u32) s
    ok (set_header s default_response 200, s)

  unfoldable pub handle_put : Request → Impl S → Result (Response × Impl S)
  unfolding at_zero bad_target find_char put_at
  handle_put req s = do
    first ← at_zero req.target
    if not (first == slash)
        then bad_target req s
        else let key_value = drop 1 req.target in put_at (find_char slash key_value) key_value req s

  unfoldable pub handle_delete : Request → Impl S → Result (Response × Impl S)
  unfolding at_zero bad_target set_header
  handle_delete req s = do
    first ← at_zero req.target
    if not (first == slash) then bad_target req s else do
      (found, s) ← CacheLib.del (drop 1 req.target) s
      ok (set_header s default_response 200, s)

  unfoldable pub handle_post : Request → Impl S → Result (Response × Impl S)
  unfolding bad_target set_header
  handle_post req s =
      if not (req.target == text "/reset")
      then bad_target req s
      else do s ← CacheLib.reset ev rounds s; ok (set_header s default_response 200, s)

  -- `switch(req.method())`
  unfoldable pub dispatch : Verb → Request → Impl S → Result (Response × Impl S)
  unfolding handle_get handle_put handle_delete handle_post set_header bad_request
  dispatch get req s = handle_get req s
  dispatch put req s = handle_put req s
  dispatch delete_ req s = handle_delete req s
  dispatch head req s = ok (set_header s default_response 200, s)
  dispatch post req s = handle_post req s
  dispatch other req s = ok (bad_request beast_version req (text "request method undefined"), s)

  unfoldable pub handle_request : Request → Impl S → Result (Response × Impl S)
  unfolding dispatch
  handle_request req s = dispatch req.method req s
