-- ===== src/Client/Implements/Calls.antt =====
-- What the calls of the client do to the cache of the server.
use cs389hw.Shared.{
  ℕ, ◌+◌, ◌-◌, ◌%◌, ◌^◌, ◌≤◌, ◌<◌, ◌≡◌, refl, ap, sym, ◌∙◌, arith, Bool, true, false, none, some,
  List, [], ◌∷◌, ◌++◌, Key, Bytes, bytes_eq, nat_eq, Result, ok, ◌>>=◌, ◌==◌, eq_refl,
  if◌then◌else◌, length, length-append, take_append_self, leb, Bool-cases, Option-cases, inl, inr,
}
use cs389hw.Shared.Int.{u32}
use cs389hw.Shared.Tables.{find}
use cs389hw.Memory.{Allocator}
use cs389hw.Evictor.{Evictor, IsPolicy}
use cs389hw.CacheLib.{Impl}
use cs389hw.CacheLib.Blocks.{read_in, Owned-block}
use cs389hw.CacheLib.Valid.{IsValid, IsSound, value, size_le}
use cs389hw.CacheLib.Config.{beside, of_Has}
use cs389hw.CacheLib.Outcomes.{Stored}
use cs389hw.Server.{
  Request, Response, get, put, delete_, slash, handle_request, dispatch, not_found, error_response,
}
use cs389hw.Server.Answers.{c_string, accepted, put_stores, get_answers, get_misses, delete_removes}
use cs389hw.Server.Kept.{request_Has}
use cs389hw.Cache.Contract.{Kept}
use cs389hw.Library.Implements.{Enough}
use cs389hw.Client
use cs389hw.Client.{get_current_mem, substr}
use cs389hw.Server.{default_response}
use cs389hw.Client.{request, get_value, parse_answer, string_of}
use cs389hw.Client.Parse.{parse_answer_lem}
use cs389hw.Client.EndToEnd.{verbatim-unquoted, verbatim-no_nul, Dumps}
use cs389hw.Client.SpaceUsed.{Prints}
use cs389hw.Client.Implements.{Clean, Name, CString, IsReady, view, serve, to_server}
use cs389hw.Client.Connection.{Connection, make_request, client}

-- The size of a value is at most the memory in use.
pub length_le :
    {S : Type 0} {s : Impl S} (key : Key) {v : Bytes}
    → IsSound s
    → value s key ≡ some v
    → length v ≤ s.current_mem
length_le {s} key {v} h e = elim (Option-cases (find s.table key)) [
  | inl absent ↦ absurd (ground (arith, ap (read_in s.buffers) absent))
  | inr (b, found) ↦
      let (w, alive, n) = Owned-block key h.owned found in
      let same : w ≡ v = ground (arith, ap (read_in s.buffers) found, alive.holds) in
      omega (arith, sym n ∙ ap length same, size_le h key found)
]

module _ {S : Type 0} {ev : Evictor S} {P : IsPolicy ev} (alloc : Allocator Bytes)
    {rounds : Impl S → ℕ} (enough : Enough P rounds) (beast_version : Bytes)
    {dump : Bytes → Bytes → Result Bytes} (dumps : Dumps dump) {print : Response → Bytes}
    (prints : Prints print) where
  -- What an answered request leaves.
  pub after_call :
      {c : Connection (Impl S)} (r : IsReady P c) (s : Impl S) (l : List Key) (req : Request)
      (res : Response)
      → serve ev alloc rounds beast_version dump req c.remote ≡ ok (res, s)
      → IsValid P s l
      → ((j : Key) (u : Bytes) → value s j ≡ some u → CString u)
      → Kept (view P) c (record c { remote = s })
  after_call {c} r s l req res ran valid strings =
      let same =
        of_Has beside _ _ (request_Has ev alloc (rounds c.remote) beast_version dump req c.remote)
          ran in
      record {
        ready = record {
          order = l;
          valid = valid;
          on = ap (λ x. x.1) same ∙ r.on;
          strings = strings;
          connected = r.connected;
        };
        same_capacity = ap (λ x. x.0) same;
      }

  module _ {c : Connection (Impl S)} (r : IsReady P c) (key : Key) (k : Name key) where
    -- The request of `set`, at the server.
    put_lem :
        (u : Bytes)
        → length u < c.remote.my_maxmem
        → (s : Impl S) × (serve ev alloc rounds beast_version dump
              (request c.host beast_version put (slash ∷ key ++ slash ∷ u))
              c.remote
            ≡ ok (accepted s, s))
          × Stored P c.remote r.order key (c_string u) s
    unfolding handle_request dispatch
    put_lem u fits =
        put_stores ev alloc (rounds c.remote) beast_version dump r.valid
          (request c.host beast_version put (slash ∷ key ++ slash ∷ u)) key k.real u refl
          k.unslashed r.on fits (enough c.remote r.order r.valid).1

    pub set_body :
        (u : Bytes)
        → Clean u
        → length (c_string u) ≤ c.remote.my_maxmem
        → (c' : Connection (Impl S)) × ((to_server ev alloc rounds beast_version dump print).set key
              (c_string u)
              (length (c_string u))
              c
            ≡ ok c')
          × Kept (view P) c c'
          × (value c'.remote key ≡ some (c_string u))
          × ((j : Key) (v : Bytes)
              → (j == key) ≡ false
              → value c'.remote j ≡ some v
              → value c.remote j ≡ some v)
    unfolding client Client.set string_of make_request
    set_body u clean fits =
        let n : length (c_string u) ≡ length u + 1 = omega (arith, length-append u (0 ∷ [])) in
        let (s, ran, stored) = put_lem u (omega (arith, n)) in
        let size : (length (c_string u) + u32 - 1) % u32 ≡ length u =
          omega (arith, n, r.valid.sound.small) in
        let inside : leb (length u) (length (c_string u)) ≡ true = ground (arith, n) in
        let stays : (j : Key) (v : Bytes)
            → (j == key) ≡ false
            → value s j ≡ some v
            → value c.remote j ≡ some v =
          λ j v o e. ground (arith, stored.values j, e, o) in
        (
          record c { remote = s },
          rw (size, inside, take_append_self u (0 ∷ []), r.connected, ran) refl,
          after_call r s _ _ _ ran stored.valid (λ j v e. elim (Bool-cases (j == key)) [
            | inl here ↦
                let same : v ≡ c_string u = ground (arith, stored.values j, e, here) in
                record { body = u; clean = clean; terminated = same }
            | inr there ↦ r.strings j v (stays j v there e)
          ]),
          rw (stored.values key, eq_refl key) refl,
          stays,
        )

    pub get_body :
        (u : Bytes)
        → Clean u
        → value c.remote key ≡ some (c_string u)
        → (c' : Connection (Impl S)) × ((to_server ev alloc rounds beast_version dump print).get key
              c
            ≡ ok ((some (c_string u), length (c_string u)), c'))
          × Kept (view P) c c'
          × ((j : Key) → value c'.remote j ≡ value c.remote j)
    unfolding client get_value make_request handle_request dispatch
    get_body u clean has =
        let n : length (c_string u) ≡ length u + 1 = omega (arith, length-append u (0 ∷ [])) in
        let fits = length_le key r.valid.sound has in
        let small : length u + 1 < 2 ^ 30 =
          omega (arith, n, fits, r.valid.sound.bounded, r.valid.sound.small) in
        let (o, answer, valid) =
          get_answers ev alloc (rounds c.remote) beast_version dump r.valid
            (request c.host beast_version get (slash ∷ key)) key k.real u refl
            (verbatim-no_nul u clean.printable) has in
        let text = dumps key u k.clean.printable clean.printable in
        let parsed =
          parse_answer_lem key u
            (record {
              unquoted = verbatim-unquoted key k.clean.printable;
              unclosed = k.clean.unclosed;
            })
            (record { unquoted = verbatim-unquoted u clean.printable; unclosed = clean.unclosed })
            (omega (arith, small, k.short)) in
        let s = record c.remote { my_evictor = o } in
        let ran =
          answer ∙ ap (λ b. b >>= λ body. ok (record default_response { body = body }, s)) text in
        let size : (length u + 1) % u32 ≡ length (c_string u) = omega (arith, n, small) in
        (
          record c { remote = s },
          rw (r.connected, ran, parsed, size) refl,
          after_call r s _ (request c.host beast_version get (slash ∷ key)) _ ran valid r.strings,
          λ j. refl,
        )

    pub get_absent :
        value c.remote key ≡ none
        → (to_server ev alloc rounds beast_version dump print).get key c ≡ ok ((none, 0), c)
    unfolding client get_value make_request handle_request dispatch not_found error_response
        parse_answer
    get_absent absent =
        let missed =
          get_misses ev alloc (rounds c.remote) beast_version dump r.valid
            (request c.host beast_version get (slash ∷ key)) key k.real refl absent in
        rw (r.connected, missed) refl

    pub del_ready :
        (b : Bool) × (c' : Connection (Impl S)) × ((to_server ev alloc rounds beast_version dump
              print).del
            key c
          ≡ ok (b, c'))
        × Kept (view P) c c'
        × ((j : Key) → value c'.remote j ≡ (if j == key then none else value c.remote j))
    unfolding client Client.del make_request handle_request dispatch
    del_ready =
        let (s, ran, valid, values) =
          delete_removes ev alloc (rounds c.remote) beast_version dump r.valid
            (request c.host beast_version delete_ (slash ∷ key)) key k.real refl in
        (
          false,
          record c { remote = s },
          rw (r.connected, ran) refl,
          after_call r s r.order (request c.host beast_version delete_ (slash ∷ key)) _ ran valid
              (λ j v e. r.strings j v (ground (arith, values j, e))),
          values,
        )
