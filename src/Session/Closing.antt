-- ===== src/Session/Closing.antt =====
-- cache_server.cc: when a session closes its connection, and when it reads again.
use cs389hw.Shared.{
  ap, ◌∙◌, ℕ, Bool, true, false, not, ◌&&◌, List, [], ◌∷◌, ◌≡◌, refl, subst, arith, ◌==◌, nat_eq,
  Bytes, Result, ok, stop, ◌>>=◌,
}
use cs389hw.Memory.{Allocator}
use cs389hw.Evictor.{Evictor}
use cs389hw.CacheLib.{Impl}
use cs389hw.Server.{Request, bad_request, error_response, Response, handle_request}
use cs389hw.Server.Refused.{refused, unguarded, reason}
use cs389hw.Server.Targets.{understood}
use cs389hw.Session.{
  Phase, reading, writing, closed, dropped, Session, ReadEnd, end_of_stream, read_failed, arrived,
  WriteEnd, write_failed, written, do_read, do_close, fail, on_write, send, on_read, Step,
  read_ends, write_ends, Reachable, started, next,
}
use cs389hw.Session.Statuses.{with_body, Fit, HasBody, handle_request-HasBody}

-- What Boost.Beast documents of `need_eof`: a message whose length is announced needs no end of
-- stream if the connection is kept alive, and any other message with a body does.
abbrev pub Documented : (Response → Bool) → Type 0
Documented need_eof =
    (r : Response) → with_body r.status ≡ true → need_eof r ≡ not (r.prepared && r.keep_alive)

-- All of these answers are refusals: they announce their length, and their status is not 200.
abbrev pub AllRefusals : List Response → Type 0
AllRefusals [] = Unit
AllRefusals (r ∷ rs) = (r.prepared ≡ true) × ((r.status == 200) ≡ false) × AllRefusals rs

abbrev pub earlier : List Response → List Response
earlier [] = []
earlier (r ∷ rs) = rs

-- The answers that a session has sent, by what it waits for.
abbrev pub Follows : (Response → Bool) → Phase → List Response → Type 0
Follows need_eof reading rs = AllRefusals rs
Follows need_eof (writing close) [] = ⊥
Follows need_eof (writing close) (r ∷ rs) = (close ≡ need_eof r) × Fit r × AllRefusals rs
Follows need_eof closed rs = AllRefusals (earlier rs)
Follows need_eof dropped rs = AllRefusals (earlier rs)

AllRefusals-earlier : (rs : List Response) → AllRefusals rs → AllRefusals (earlier rs)
AllRefusals-earlier [] h = tt
AllRefusals-earlier (r ∷ rs) h = h.2

module _ {need_eof : Response → Bool} (documented : Documented need_eof) where
  sent :
      (close : Bool) (rs : List Response)
      → Follows need_eof (writing close) rs
      → AllRefusals (earlier rs)
  sent close [] h = absurd h
  sent close (r ∷ rs) h = h.2

  kept_open : (rs : List Response) → Follows need_eof (writing false) rs → AllRefusals rs
  kept_open [] h = absurd h
  kept_open (r ∷ rs) (same, (body, fit), all) =
      let announced : r.prepared ≡ true = ground (arith, documented r body, same) in
      (announced, ground (arith, announced, fit), all)

  -- The error responses of a request that is kept alive announce their length.
  documented_open :
      (beast_version : Bytes) (req : Request) (why : Bytes)
      → req.keep_alive ≡ true
      → need_eof (bad_request beast_version req why) ≡ false
  unfolding bad_request error_response
  documented_open beast_version req why keep =
      documented (bad_request beast_version req why) refl ∙ ap not keep

  module _ {S : Type 0} where
    Follows-on_write :
        (close : Bool) (e : WriteEnd) (s : Session S)
        → Follows need_eof (writing close) s.answers
        → Follows need_eof (on_write close e s).phase (on_write close e s).answers
    unfolding on_write do_close do_read fail
    Follows-on_write close write_failed s h = sent close s.answers h
    Follows-on_write true written s h = sent true s.answers h
    Follows-on_write false written s h = kept_open s.answers h

    -- The order of the answers, of a result that is a session.
    OrStopped : Result (Session S) → Type 0
    OrStopped (ok s) = Follows need_eof s.phase s.answers
    OrStopped (stop x) = Unit

    Follows-answer :
        (x : Result (Response × Impl S)) (s : Session S)
        → HasBody x
        → AllRefusals s.answers
        → OrStopped (x >>= λ y. ok (send need_eof y.0 (record s { cache = y.1 })))
    unfolding send OrStopped
    Follows-answer (ok (r, c)) s b h = (refl, b, h)
    Follows-answer (stop x) s b h = tt

    module _ (ev : Evictor S) (alloc : Allocator Bytes) (rounds : ℕ) (beast_version : Bytes)
        (dump : Bytes → Bytes → Result Bytes) where
      Follows-on_read :
          (e : ReadEnd) (s : Session S)
          → AllRefusals s.answers
          → OrStopped (on_read ev alloc rounds beast_version dump need_eof e s)
      unfolding on_read OrStopped do_close fail
      Follows-on_read end_of_stream s h = AllRefusals-earlier s.answers h
      Follows-on_read read_failed s h = AllRefusals-earlier s.answers h
      Follows-on_read (arrived req) s h =
          Follows-answer (handle_request ev alloc rounds beast_version dump req s.cache) s
            (handle_request-HasBody ev alloc rounds beast_version dump req s.cache) h

      Follows-Step :
          {s s' : Session S}
          → Step ev alloc rounds beast_version dump need_eof s s'
          → Follows need_eof s.phase s.answers
          → Follows need_eof s'.phase s'.answers
      unfolding OrStopped
      Follows-Step {s} {s'} (read_ends e at run) h =
          subst OrStopped run (Follows-on_read e s (subst (λ x. Follows need_eof x s.answers) at h))
      Follows-Step {s} (write_ends {close = close} e at) h =
          Follows-on_write close e s (subst (λ x. Follows need_eof x s.answers) at h)

      Follows-Reachable :
          {cache : Impl S} {s : Session S}
          → Reachable ev alloc rounds beast_version dump need_eof cache s
          → Follows need_eof s.phase s.answers
      Follows-Reachable started = tt
      Follows-Reachable (next r step) = Follows-Step step (Follows-Reachable r)

      Follows-earlier :
          (x : Phase) (rs : List Response) → Follows need_eof x rs → AllRefusals (earlier rs)
      Follows-earlier reading rs h = AllRefusals-earlier rs h
      Follows-earlier (writing close) rs h = sent close rs h
      Follows-earlier closed rs h = h
      Follows-earlier dropped rs h = h

      pub success_is_last :
          {cache : Impl S} {s : Session S}
          → Reachable ev alloc rounds beast_version dump need_eof cache s
          → AllRefusals (earlier s.answers)
      success_is_last {s = s} r = Follows-earlier s.phase s.answers (Follows-Reachable r)

      -- A request that is not understood leaves a connection that is kept alive open: after the
      -- answer with status 400 the session reads again, and the cache is as before.
      pub refused_stays_open :
          (req : Request) (s : Session S)
          → unguarded req.method req.target ≡ false
          → understood req.method req.target ≡ false
          → req.keep_alive ≡ true
          → (s' : Session S) × (on_read ev alloc rounds beast_version dump need_eof (arrived req) s
              ≡ ok s')
            × (s'.phase ≡ writing false)
            × (on_write false written s' ≡ record s {
              phase = reading;
              answers = bad_request beast_version req (reason req.method) ∷ s.answers;
            })
      unfolding on_read send on_write do_read
      refused_stays_open req s g u keep =
          let res = bad_request beast_version req (reason req.method) in
          let answered = refused ev alloc rounds beast_version dump req s.cache g u in
          let open_ : need_eof res ≡ false =
            documented_open beast_version req (reason req.method) keep in
          (
            record s { phase = writing false; answers = res ∷ s.answers },
            rw (answered, open_) refl,
            refl,
            refl,
          )
