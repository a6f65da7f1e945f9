-- ===== src/Client/Implements.antt =====
-- cache_client.cc in front of cache_server.cc: how the two together are read as a cache.
pub mod Calls
pub mod Whole
use cs389hw.Shared.{
  ℕ, suc, ◌+◌, ◌-◌, ◌%◌, ◌^◌, ◌≤◌, ◌<◌, ◌≡◌, ◌≢◌, refl, ap, sym, ◌∙◌, arith, subst, Bool, true,
  false, not, Option, none, some, List, [], ◌∷◌, ◌++◌, Key, Bytes, bytes_eq, nat_eq, Result, ok,
  ◌>>=◌, ◌==◌, eq_iff, eq_refl, if◌then◌else◌, length, length-append, contains, is_some, take,
  take_append_self, leb, text, Bool-cases, inl, inr,
}
use cs389hw.Shared.Int.{u32}
use cs389hw.Shared.Tables.{find}
use cs389hw.Memory.{Allocator}
use cs389hw.Evictor.{Evictor, IsPolicy}
use cs389hw.CacheLib.{Impl}
use cs389hw.CacheLib.Blocks.{read_in}
use cs389hw.CacheLib.Valid.{IsValid, value}
use cs389hw.CacheLib.Config.{config, beside, of_Has}
use cs389hw.CacheLib.Outcomes.{Stored}
use cs389hw.CacheLib.Reset.{reset_lem}
use cs389hw.Server.{
  Request, Response, get, put, delete_, head, post, slash, handle_request, dispatch, not_found,
  error_response,
}
use cs389hw.Server.Targets.{begins_with}
use cs389hw.Server.Answers.{c_string, accepted, put_stores, get_answers, get_misses, delete_removes}
use cs389hw.Server.Kept.{request_Has}
use cs389hw.Cache.{Cache}
use cs389hw.Cache.Contract.{View, Kept, Contract}
use cs389hw.Library.Implements.{Enough}
use cs389hw.Client
use cs389hw.Client.{request, get_value, parse_answer, string_of}
use cs389hw.Client.Parse.{json_text, parse_answer_lem}
use cs389hw.Client.EndToEnd.{all_verbatim, verbatim-unquoted, verbatim-no_nul, Dumps}
use cs389hw.Client.SpaceUsed.{Prints}
use cs389hw.Client.Connection.{Connection, make_request, client}

-- Printable ASCII without quotation mark and backslash, not beginning with a closing brace.
pub record Clean (s : Bytes) : Type 0 where
  pub printable : all_verbatim s ≡ true
  pub unclosed : begins_with b'}' s ≡ false

-- The keys: clean, not empty, without a slash.
pub record Name (key : Key) : Type 0 where
  pub clean : Clean key
  pub unslashed : contains slash key ≡ false
  pub real : key ≢ []
  pub short : length key < 2 ^ 29

-- The values: the C strings of clean texts.
pub record CString (val : Bytes) : Type 0 where
  pub body : Bytes
  pub clean : Clean body
  pub terminated : val ≡ c_string body

-- The state between two calls: the server's cache is sound, has an evictor and C strings only.
pub record IsReady {S : Type 0} {ev : Evictor S} (P : IsPolicy ev) (c : Connection (Impl S))
    : Type 0 where
  pub order : List Key
  pub valid : IsValid P c.remote order
  pub on : is_some c.remote.my_evictor ≡ true
  pub strings : (j : Key) (u : Bytes) → value c.remote j ≡ some u → CString u
  pub connected : c.connected ≡ true

abbrev pub view : {S : Type 0} {ev : Evictor S} → IsPolicy ev → View (Connection (Impl S))
view P = record {
  Ready = IsReady P;
  content = λ c key. value c.remote key;
  capacity = λ c. c.remote.my_maxmem;
  used = λ c. c.remote.current_mem;
  IsKey = Name;
  IsValue = CString;
}

module _ {S : Type 0} (ev : Evictor S) (alloc : Allocator Bytes) (rounds : Impl S → ℕ)
    (beast_version : Bytes) (dump : Bytes → Bytes → Result Bytes) where
  -- The server, as it answers one request.
  abbrev pub serve : Request → Impl S → Result (Response × Impl S)
  serve req s = handle_request ev alloc (rounds s) beast_version dump req s

  abbrev pub to_server : (Response → Bytes) → Cache (Connection (Impl S))
  to_server print = client beast_version serve print
