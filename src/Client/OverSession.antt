-- ===== src/Client/OverSession.antt =====
-- cache_client.cc on a connection to a session of cache_server.cc.
use cs389hw.Shared.{
  ℕ, ◌+◌, ◌-◌, ◌%◌, ◌<◌, ◌≡◌, refl, arith, Bool, true, false, List, [], ◌∷◌, ◌++◌, some, Key, Bytes,
  Result, Stop, ok, stop, uncaught, ◌>>=◌, length, length-append, leb, take_append_self, is_some,
  eq_refl, contains, ◌≢◌, nat_eq,
}
use cs389hw.Shared.Int.{u32}
use cs389hw.Memory.{Allocator}
use cs389hw.Evictor.{Evictor, IsPolicy}
use cs389hw.CacheLib.{Impl}
use cs389hw.CacheLib.Valid.{IsValid, value}
use cs389hw.Server.{
  Verb, Request, Response, put, slash, handle_request, dispatch, set_header, set_field,
}
use cs389hw.Server.Answers.{c_string, accepted, put_stores}
use cs389hw.Session.{
  Phase, reading, writing, closed, dropped, Session, arrived, written, do_close, on_read, on_write,
  send,
}
use cs389hw.Session.Closing.{Documented}
use cs389hw.Cache.{Call, set_call, get_call, del_call, space_call, reset_call, perform}
use cs389hw.Client
use cs389hw.Client.{request, get_value, get_current_mem, string_of}
use cs389hw.Client.Connection.{Connection, make_request, client}

module _ {S : Type 0} where
  -- The client reads the answer, and the session's write completes.
  abbrev hand_over : Phase → List Response → Session S → Result (Response × Session S)
  hand_over (writing close) (res ∷ answers) s = ok (res, on_write close written s)
  hand_over phase answers s = stop uncaught

  module _ (ev : Evictor S) (alloc : Allocator Bytes) (rounds : ℕ) (beast_version : Bytes)
      (dump : Bytes → Bytes → Result Bytes) (need_eof : Response → Bool) where
    -- A request on the connection, by what the session waits for. If it does not read any more,
    -- `http::read` of the client throws: "end of stream".
    abbrev exchange_in : Phase → Request → Session S → Result (Response × Session S)
    exchange_in reading req s = do
      s ← on_read ev alloc rounds beast_version dump need_eof (arrived req) s
      hand_over s.phase s.answers s
    exchange_in (writing close) req s = stop uncaught
    exchange_in closed req s = stop uncaught
    exchange_in dropped req s = stop uncaught

    unfoldable pub exchange : Request → Session S → Result (Response × Session S)
    exchange req s = exchange_in s.phase req s

module _ {W : Type 0} (beast_version : Bytes) (exchange : Request → W → Result (Response × W))
    (c : Connection W) (broken : (req : Request) → exchange req c.remote ≡ stop uncaught)
    (connected : c.connected ≡ true) where
  request_throws :
      (verb : Verb) (target : Bytes)
      → make_request beast_version exchange verb target c ≡ stop uncaught
  unfolding make_request
  request_throws verb target =
      rw (connected, broken (request c.host beast_version verb target)) refl

  set_fails :
      (key : Key) (x : Result Bytes)
      → (e : Stop) × ((x >>= λ s.
            make_request beast_version exchange put (slash ∷ key ++ slash ∷ s) c >>= λ y. ok y.1)
          ≡ stop e)
  set_fails key (ok s) = (uncaught, rw (request_throws put (slash ∷ key ++ slash ∷ s)) refl)
  set_fails key (stop e) = (e, refl)

  -- On a connection on which requests throw, every call fails.
  call_fails :
      (print : Response → Bytes) (call : Call)
      → (e : Stop) × (perform (client beast_version exchange print) call c ≡ stop e)
  unfolding perform client Client.set get_value Client.del get_current_mem Client.reset
  call_fails print (set_call key val) =
      let (e, failed) = set_fails key (string_of val ((length val + u32 - 1) % u32)) in
      (e, rw failed refl)
  call_fails print (get_call key) = (uncaught, rw (request_throws _ _) refl)
  call_fails print (del_call key) = (uncaught, rw (request_throws _ _) refl)
  call_fails print space_call = (uncaught, rw (request_throws _ _) refl)
  call_fails print reset_call = (uncaught, rw (request_throws _ _) refl)

accepted-need_eof :
    {S : Type 0} {need_eof : Response → Bool}
    → Documented need_eof
    → (s : Impl S) → need_eof (accepted s) ≡ true
unfolding set_header set_field
accepted-need_eof documented s = documented (accepted s) refl

module _ {S : Type 0} {ev : Evictor S} {P : IsPolicy ev} (alloc : Allocator Bytes) (rounds : ℕ)
    (beast_version : Bytes) (dump : Bytes → Bytes → Result Bytes) {need_eof : Response → Bool}
    (documented : Documented need_eof) (print : Response → Bytes) where
  pub one_call :
      (c : Connection (Session S)) {l : List Key} (key : Key) (val : Bytes) (call : Call)
      → c.connected ≡ true
      → c.remote.phase ≡ reading
      → IsValid P c.remote.cache l
      → is_some c.remote.cache.my_evictor ≡ true
      → key ≢ []
      → contains slash key ≡ false
      → length val < c.remote.cache.my_maxmem
      → length l < rounds
      → let over =
          client beast_version (exchange ev alloc rounds beast_version dump need_eof) print in
        (c' : Connection (Session S)) × (over.set key (c_string val) (length val + 1) c ≡ ok c')
        × (value c'.remote.cache key ≡ some (c_string val))
        × (e : Stop) × (perform over call c' ≡ stop e)
  unfolding client Client.set string_of make_request exchange on_read handle_request dispatch send
      on_write do_close
  one_call c key val call connected ready h on real unslashed fits enough =
      let n : length (c_string val) ≡ length val + 1 = omega (arith, length-append val (0 ∷ [])) in
      let size : (length val + 1 + u32 - 1) % u32 ≡ length val =
        omega (arith, fits, h.sound.small) in
      let inside : leb (length val) (length (c_string val)) ≡ true = ground (arith, n) in
      let (s, ran, stored) =
        put_stores ev alloc rounds beast_version dump h
          (request c.host beast_version put (slash ∷ key ++ slash ∷ val)) key real val refl
          unslashed on fits enough in
      let left = record c {
        remote = record c.remote {
          phase = closed;
          answers = accepted s ∷ c.remote.answers;
          cache = s;
        };
      } in
      let (e, failed) =
        call_fails beast_version (exchange ev alloc rounds beast_version dump need_eof) left
          (λ req. refl) connected print call in
      (
        left,
        rw
            (
              size,
              inside,
              take_append_self val (0 ∷ []),
              connected,
              ready,
              ran,
              accepted-need_eof documented s,
            )
            refl,
        rw (stored.values key, eq_refl key) refl,
        e,
        failed,
      )
