-- ===== src/Client/Anew.antt =====
-- cache_client.cc with a new client for every call: each connects, makes one request and goes, and
-- the server runs a session of its own for it. This is how a program can use the client, since a
-- session closes after the first request that it carries out. One client is at work at a time.
use cs389hw.Shared.{
  ℕ, ◌≡◌, refl, sym, ap, subst, fun_ext, Bool, true, false, List, [], Bytes, Result, ok, stop,
  ◌>>=◌,
}
use cs389hw.Memory.{Allocator}
use cs389hw.Evictor.{Evictor, IsPolicy}
use cs389hw.Cache.{Cache, Call, perform_all}
use cs389hw.Cache.Bounded.{Bounded}
use cs389hw.Cache.Contract.{Contract}
use cs389hw.Cache.Simulation.{replies_of, seen_by}
use cs389hw.CacheLib.{Impl}
use cs389hw.Server.{Request, Response, handle_request}
use cs389hw.Session.{reading, written, on_read, on_write, send, do_close, do_read}
use cs389hw.Client.Connection.{Connection, client}
use cs389hw.Client.EndToEnd.{Dumps}
use cs389hw.Client.Exact.{Shown, AllSendable, unseen}
use cs389hw.Client.Exact.Whole.{client-library}
use cs389hw.Client.Implements.{view, to_server}
use cs389hw.Client.Implements.Whole.{client-Contract}
use cs389hw.Client.OverSession.{exchange}
use cs389hw.Client.SpaceUsed.{Prints}
use cs389hw.Library.{Library, library}
use cs389hw.Library.Exact.{Shows}
use cs389hw.Library.Implements.{Enough}

module _ {S : Type 0} (ev : Evictor S) (alloc : Allocator Bytes) (rounds : Impl S → ℕ)
    (beast_version : Bytes) (dump : Bytes → Bytes → Result Bytes) (need_eof : Response → Bool) where
  -- A session that is started on the server's cache, for the one request of a client.
  unfoldable pub own_session : Request → Impl S → Result (Response × Impl S)
  own_session req cache = do
    (res, s) ←
        exchange ev alloc (rounds cache) beast_version dump need_eof req
          (record { phase = reading; answers = []; cache = cache })
    ok (res, s.cache)

  -- The server and its sessions, to clients of which each makes one call.
  unfoldable pub anew : (Response → Bytes) → Cache (Connection (Impl S))
  anew print = client beast_version own_session print

  closes_lem :
      (res : Response) (cache : Impl S) (b : Bool)
      → (on_write b written
          (send (λ r. b) res (record { phase = reading; answers = []; cache = cache }))).cache
        ≡ cache
  unfolding on_write do_close do_read send
  closes_lem res cache true = refl
  closes_lem res cache false = refl

  through :
      (req : Request) (cache : Impl S) (x : Result (Response × Impl S))
      → handle_request ev alloc (rounds cache) beast_version dump req cache ≡ x
      → own_session req cache ≡ x
  unfolding own_session exchange on_read send
  through req cache (ok (res, after)) e =
      rw e (ap (λ s. ok (res, s)) (closes_lem res after (need_eof res)))
  through req cache (stop e) ran = rw ran refl

  -- A session of its own changes nothing of what a request does.
  anew_lem :
      (print : Response → Bytes) → to_server ev alloc rounds beast_version dump print ≡ anew print
  unfolding anew
  anew_lem print =
      ap (λ f. client beast_version f print)
        (fun_ext (λ req. fun_ext (λ cache. sym (through req cache _ refl))))

module _ {S : Type 0} {ev : Evictor S} {P : IsPolicy ev} (alloc : Allocator Bytes)
    {rounds : Impl S → ℕ} (enough : Enough P rounds) (beast_version : Bytes)
    {dump : Bytes → Bytes → Result Bytes} (dumps : Dumps dump) (need_eof : Response → Bool)
    {print : Response → Bytes} (prints : Prints print) where
  pub anew-library :
      (calls : List Call) (c : Connection (Impl S)) (w : Library S) (a : Bounded)
      → Shown P c a
      → Shows P w a
      → AllSendable calls
      → replies_of (perform_all (anew ev alloc rounds beast_version dump need_eof print) calls c)
        ≡ seen_by unseen (replies_of (perform_all (library ev alloc rounds) calls w))
  anew-library calls c w a h h' fine =
      subst
        (λ o.
          replies_of (perform_all o calls c)
          ≡ seen_by unseen (replies_of (perform_all (library ev alloc rounds) calls w)))
        (anew_lem ev alloc rounds beast_version dump need_eof print)
        (client-library alloc enough beast_version dumps prints calls c w a h h' fine)

  pub anew-Contract : Contract (anew ev alloc rounds beast_version dump need_eof print) (view P)
  anew-Contract =
      subst (λ o. Contract o (view P)) (anew_lem ev alloc rounds beast_version dump need_eof print)
        (client-Contract alloc enough beast_version dumps prints)
