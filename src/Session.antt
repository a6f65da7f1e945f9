-- ===== src/Session.antt =====
-- cache_server.cc: `session`, one connection, as a state machine that the completions of the
-- asynchronous reads and writes drive.
--
-- `need_eof` of a response is Boost.Beast's: whether the end of its body is the end of the stream.
pub mod Statuses
pub mod Closing
pub mod Many
use cs389hw.Shared.{
  ℕ, Bool, true, false, Option, some, none, List, [], ◌∷◌, Bytes, Result, ok, ◌>>=◌, ◌≡◌,
  if◌then◌else◌,
}
use cs389hw.Memory.{Allocator}
use cs389hw.Evictor.{Evictor}
use cs389hw.CacheLib.{Impl}
use cs389hw.Server.{Request, Response, handle_request}

-- What a session waits for: a request, the end of a write (with the argument `close` that
-- `on_write` is bound to), or nothing, after `do_close` or `fail`.
pub data Phase : Type 0 where
  reading : Phase
  writing : Bool → Phase
  closed : Phase
  dropped : Phase

-- `answers` are the messages that were given to `async_write`, the latest first.
pub record Session (S : Type 0) : Type 0 where
  pub phase : Phase
  pub answers : List Response
  pub cache : Impl S

-- How a read ends.
pub data ReadEnd : Type 0 where
  end_of_stream : ReadEnd
  read_failed : ReadEnd
  arrived : Request → ReadEnd

-- How a write ends.
pub data WriteEnd : Type 0 where
  write_failed written : WriteEnd

module _ {S : Type 0} where
  unfoldable pub do_read : Session S → Session S
  do_read s = record s { phase = reading }

  unfoldable pub do_close : Session S → Session S
  do_close s = record s { phase = closed }

  -- `fail(ec, what)` and `return`: no handler is left.
  unfoldable pub fail : Session S → Session S
  fail s = record s { phase = dropped }

  unfoldable pub on_write : Bool → WriteEnd → Session S → Session S
  unfolding do_read do_close fail
  on_write close write_failed s = fail s
  on_write close written s = if close then do_close s else do_read s

module _ {S : Type 0} (need_eof : Response → Bool) where
  -- `send_lambda`
  unfoldable pub send : Response → Session S → Session S
  send msg s = record s { phase = writing (need_eof msg); answers = msg ∷ s.answers }

module _ {S : Type 0} (ev : Evictor S) (alloc : Allocator Bytes) (rounds : ℕ)
    (beast_version : Bytes) (dump : Bytes → Bytes → Result Bytes) (need_eof : Response → Bool) where
  unfoldable pub on_read : ReadEnd → Session S → Result (Session S)
  unfolding do_close fail send
  on_read end_of_stream s = ok (do_close s)
  on_read read_failed s = ok (fail s)
  on_read (arrived req) s = do
    (res, cache) ← handle_request ev alloc rounds beast_version dump req s.cache
    ok (send need_eof res (record s { cache = cache }))

  -- One completion.
  pub data Step : Session S → Session S → Type 0 where
    read_ends :
        {s s' : Session S} (e : ReadEnd) → s.phase ≡ reading → on_read e s ≡ ok s' → Step s s'
    write_ends :
        {s : Session S} {close : Bool} (e : WriteEnd)
        → s.phase ≡ writing close
        → Step s (on_write close e s)

  -- The states of a session that has been started on a cache.
  pub data Reachable (cache : Impl S) : Session S → Type 0 where
    started : Reachable cache (record { phase = reading; answers = []; cache = cache })
    next : {s s' : Session S} → Reachable cache s → Step s s' → Reachable cache s'
