-- ===== src/Session/Many.antt =====
-- cache_server.cc: the sessions of one server with one thread, which share its cache.
--
-- One thread is the default of `-t`, and `ioc.run` of that thread calls one handler after another:
-- a handler runs to its end before the next one starts, so `on_read` is one step here. With more
-- threads the parts of `handle_request` that hold the mutex can come in between each other, which
-- is not modelled here. The completions of all sessions come in any order. The log has the requests
-- as they are read, the latest first, with the sessions that read them.
pub mod InOrder
use cs389hw.Shared.{
  ℕ, ◌+◌, ◌≤◌, ◌≡◌, Bool, true, List, [], ◌∷◌, Key, Bytes, Result, ok, ◌==◌, nat_eq, if◌then◌else◌,
  length, ◌>>=◌,
}
use cs389hw.Memory.{Allocator}
use cs389hw.Evictor.{Evictor, IsPolicy}
use cs389hw.Cache.Bounded.{Bounded}
use cs389hw.CacheLib.{Impl}
use cs389hw.CacheLib.Agrees.{Agrees}
use cs389hw.Server.{Request, Response}
use cs389hw.Server.Commands.{command_of, Fine, serve}
use cs389hw.Session.{
  Phase, reading, writing, Session, ReadEnd, end_of_stream, read_failed, arrived, WriteEnd, on_read,
  on_write,
}

pub record Sessions (S : Type 0) : Type 0 where
  pub phase : ℕ → Phase
  pub answers : ℕ → List Response
  pub cache : Impl S

abbrev pub Log : Type 0
Log = List (ℕ × Request)

module _ {S : Type 0} where
  abbrev pub session : ℕ → Sessions S → Session S
  session i w = record { phase = w.phase i; answers = w.answers i; cache = w.cache }

  -- The server, with what one session has become.
  abbrev pub back : ℕ → Session S → Sessions S → Sessions S
  back i s w = record {
    phase = λ j. if j == i then s.phase else w.phase j;
    answers = λ j. if j == i then s.answers else w.answers j;
    cache = s.cache;
  }

abbrev pub noted : ℕ → ReadEnd → Log → Log
noted i end_of_stream log = log
noted i read_failed log = log
noted i (arrived req) log = (i, req) ∷ log

module _ {S : Type 0} (ev : Evictor S) (alloc : Allocator Bytes) (rounds : ℕ)
    (beast_version : Bytes) (dump : Bytes → Bytes → Result Bytes) (need_eof : Response → Bool) where
  -- What is reached from a cache and sessions that all wait for their first request.
  pub data Reach (cache : Impl S) : Sessions S → Log → Type 0 where
    begins : Reach cache (record { phase = λ i. reading; answers = λ i. []; cache = cache }) []
    reads :
        {w : Sessions S} {log : Log} {s : Session S} (i : ℕ) (e : ReadEnd)
        → Reach cache w log
        → w.phase i ≡ reading
        → on_read ev alloc rounds beast_version dump need_eof e (session i w) ≡ ok s
        → Reach cache (back i s w) (noted i e log)
    writes :
        {w : Sessions S} {log : Log} {close : Bool} (i : ℕ) (e : WriteEnd)
        → Reach cache w log
        → w.phase i ≡ writing close
        → Reach cache (back i (on_write close e (session i w)) w) log

abbrev pub AllFine : Log → Type 0
AllFine [] = Unit
AllFine ((i, req) ∷ log) = Fine (command_of req.method req.target) × AllFine log

-- The answers to one of the sessions.
abbrev pub answers_to : ℕ → List (ℕ × Response) → List Response
answers_to i [] = []
answers_to i ((j, r) ∷ rs) = if i == j then r ∷ answers_to i rs else answers_to i rs

-- The requests of a log, one after another, over the specification of the cache.
module _ (touched : Key → List Key → List Key) (beast_version : Bytes)
    (dump : Bytes → Bytes → Result Bytes) where
  unfoldable pub served : Log → Bounded → Result (List (ℕ × Response) × Bounded)
  unfolding serve
  served [] a = ok ([], a)
  served ((i, req) ∷ log) a = do
    (rs, b) ← served log a
    (r, c) ← serve beast_version dump touched (command_of req.method req.target) req b
    ok ((i, r) ∷ rs, c)

module _ {S : Type 0} {ev : Evictor S} (P : IsPolicy ev) (beast_version : Bytes)
    (dump : Bytes → Bytes → Result Bytes) where
  -- What a server has answered and what its cache holds, by the log.
  pub record Told (a : Bounded) (w : Sessions S) (log : Log) : Type 0 where
    pub responses : List (ℕ × Response)
    pub now : Bounded
    pub ran : served P.touched beast_version dump log a ≡ ok (responses, now)
    pub agrees : Agrees P w.cache now
    pub on : now.evicts ≡ true
    pub short : length now.order ≤ length a.order + length log
    pub answered : (i : ℕ) → w.answers i ≡ answers_to i responses
