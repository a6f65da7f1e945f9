-- ===== src/Client.antt =====
-- cache_client.cc: `Cache::Impl` over a connection to the server.
--
-- The connection is a parameter: `send verb target w` is `make_request`, which writes a request and
-- reads the answer, with the state `w` of what is on the other side.
pub mod Find
pub mod Parse
pub mod EndToEnd
pub mod SpaceUsed
pub mod Connection
pub mod Implements
pub mod Anew
pub mod OverSession
pub mod Exact
use cs389hw.Shared.{
  ℕ, zero, suc, ◌^◌, ◌+◌, ◌-◌, ◌%◌, Bool, true, false, Option, some, none, List, [], ◌∷◌, ◌++◌, Key,
  Bytes, Result, ok, stop, uncaught, bad_access, ◌>>=◌, ◌==◌, ◌&&◌, nat_eq, bytes_eq, if◌then◌else◌,
  leb, length, drop, take, text,
}
use cs389hw.Shared.Int.{ℤ, pos, negsuc, u32, to_int, add_int, sub_int}
use cs389hw.Shared.Decimal.{stoi}
use cs389hw.Cache.{Answer}
use cs389hw.Server.{Verb, Request, Response, get, put, delete_, head, post, slash}

-- Does `s` begin with `t`?
abbrev pub starts_with : Bytes → Bytes → Bool
starts_with [] s = true
starts_with (c ∷ t) [] = false
starts_with (c ∷ t) (d ∷ s) = (c == d) && starts_with t s

-- `s.find(t)`
unfoldable pub find_text : Bytes → Bytes → Option ℕ
find_text t [] = if starts_with t [] then some 0 else none
find_text t (c ∷ s) =
    let rest = find_text t s in
    if starts_with t (c ∷ s) then some 0 else elim rest [ none ↦ none | some i ↦ some (suc i) ]

-- `s.substr(from)`
unfoldable pub substr : ℕ → Bytes → Result Bytes
substr from s = if leb from (length s) then ok (drop from s) else stop uncaught

abbrev pub value_mark : Bytes
value_mark = text "value\":\""

abbrev pub end_mark : Bytes
end_mark = text "\"}"

abbrev pub space_mark : Bytes
space_mark = text "Space-Used: "

-- `int(s.find(t))`: -1 for `npos`.
abbrev pub find_int : Bytes → Bytes → ℤ
find_int t s = elim (find_text t s) [ none ↦ negsuc 0 | some i ↦ to_int (i % u32) ]

-- An `int` as an unsigned number of 32 bits, and as a `size_t`.
abbrev pub to_u32 : ℤ → ℕ
to_u32 (pos n) = n % u32
to_u32 (negsuc n) = u32 - 1 - n % u32

abbrev pub to_size : ℤ → ℕ
to_size (pos n) = n
to_size (negsuc n) = 2 ^ 64 - 1 - n

-- `std::string s(val, n)`
unfoldable pub string_of : Bytes → ℕ → Result Bytes
string_of val n = if leb n (length val) then ok (take n val) else stop bad_access

-- The loop of `get` that copies `n` bytes of `value`; `value[value.size()]` is a NUL.
unfoldable pub copy_string : ℕ → Bytes → Result Bytes
copy_string zero value = ok []
copy_string (suc n) [] = if n == 0 then ok (0 ∷ []) else stop bad_access
copy_string (suc n) (c ∷ value) = do rest ← copy_string n value; ok (c ∷ rest)

-- The value in the body of an answer, from the positions `x` and `y` of the two marks.
unfoldable pub cut_value : ℤ → ℤ → Bytes → Result Answer
unfolding substr copy_string
cut_value x y ret = do
  from ← add_int x (pos 8)
  span ← sub_int y x
  n ← sub_int span (pos 8)
  rest ← substr (to_size from) ret
  bytes ← copy_string (to_u32 n) (take (to_size n) rest)
  ok (some (bytes ++ 0 ∷ []), (to_u32 n + 1) % u32)

-- What `get` makes of the body of an answer.
unfoldable pub parse_answer : Bytes → Result Answer
unfolding cut_value find_text
parse_answer [] = ok (none, 0)
parse_answer (c ∷ ret) =
    if c == b'{'
    then cut_value (find_int value_mark (c ∷ ret)) (find_int end_mark (c ∷ ret)) (c ∷ ret)
    else ok (none, 0)

-- `http::request<http::string_body> req{verb, target, version}`, with the host and the user agent
abbrev pub request : Bytes → Bytes → Verb → Bytes → Request
request host beast_version verb target = record {
  method = verb;
  target = target;
  version = 11;
  keep_alive = true;
  fields = (text "User-Agent", beast_version) ∷ (text "Host", host) ∷ [];
}

module _ {W : Type 0} (send : Verb → Bytes → W → Result (Response × W)) where
  unfoldable pub set : Key → Bytes → ℕ → W → Result W
  unfolding string_of
  set key val size w = do
    s ← string_of val ((size + u32 - 1) % u32)
    (res, w) ← send put (slash ∷ key ++ slash ∷ s) w
    ok w

  unfoldable pub get_value : Key → W → Result (Answer × W)
  unfolding parse_answer
  get_value key w = do
    (res, w) ← send get (slash ∷ key) w
    answer ← parse_answer res.body
    ok (answer, w)

  -- The server does not say whether the key was there.
  unfoldable pub del : Key → W → Result (Bool × W)
  del key w = do (res, w) ← send delete_ (slash ∷ key) w; ok (false, w)

  unfoldable pub reset : W → Result W
  reset w = do (res, w) ← send post (text "/reset") w; ok w

  -- `print` is the text of a header, by the stream operator of `res.base()`.
  unfoldable pub get_current_mem : (Response → Bytes) → W → Result (ℕ × W)
  unfolding find_text substr stoi
  get_current_mem print w = do
    (res, w) ← send head (slash ∷ []) w
    from ← add_int (find_int space_mark (print res)) (pos 12)
    space_used ← substr (to_size from) (print res)
    ret ← stoi space_used
    ok (ret, w)
