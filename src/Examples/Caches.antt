-- ===== src/Examples/Caches.antt =====
-- The library and the client as caches, and the library under two threads.
use cs389hw.Shared.{
  ℕ, suc, ◌+◌, ◌≡◌, refl, ap, arith, true, false, Option, none, some, List, [], ◌∷◌, Key, bytes_eq,
  Result, ok, length, text,
}
use cs389hw.Memory.{bump}
use cs389hw.Fifo.{FifoEvictor, evictor}
use cs389hw.Fifo.Order.{policy}
use cs389hw.CacheLib.{Impl}
use cs389hw.CacheLib.Valid.{InOrder, value}
use cs389hw.Cache.{Cache, Call, set_call, get_call, del_call, space_call, reset_call}
use cs389hw.Cache.Contract.{Contract}
use cs389hw.Library.{Library, library}
use cs389hw.Library.Implements.{Enough, view, library-Contract}
use cs389hw.Library.Threads.{
  Returned, section, Shared, Reach, begins, later, calls, locks, move, entered, waiting, outside,
  working,
}
use cs389hw.Library.Threads.Progress.{Gets, no_deadlock}
use cs389hw.Client.Implements.{Name, CString, IsReady as Ready, view as client_view}
use cs389hw.CacheLib.Blocks.{nil}
use cs389hw.Client.Anew.{anew, anew-Contract}
use cs389hw.Client.Connection.{Connection, client}
use cs389hw.Client.OverSession.{exchange, one_call}
use cs389hw.Cache.{perform}
use cs389hw.Server.Answers.{c_string}
use cs389hw.Session.{Session}
use cs389hw.Shared.{Stop, stop}
use cs389hw.Examples.Http.{need_eof, waiting as unread}
use cs389hw.Examples.Store.{cache, cache-IsValid}
use cs389hw.Examples.Clients.{dump, beast, header, print}

abbrev pub queue : Option FifoEvictor → List Key
queue none = []
queue (some e) = e.my_que

abbrev pub rounds : Impl FifoEvictor → ℕ
rounds s = suc (length s.table + length (queue s.my_evictor))

queue_lem : (o : Option FifoEvictor) (l : List Key) → InOrder policy o l → queue o ≡ l
unfolding policy
queue_lem none l h = cc
queue_lem (some e) l h = h

pub enough : Enough policy rounds
enough s l h =
    let n = ap length (queue_lem s.my_evictor l h.ordered) in (omega arith, omega (arith, n))

library-Contract_example : Contract (library evictor bump rounds) (view policy)
library-Contract_example = library-Contract bump enough

-- A new client for every call.
abbrev pub to_started : Cache (Connection (Impl FifoEvictor))
to_started = anew evictor bump rounds beast dump need_eof print

pub to_started-Contract : Contract to_started (client_view policy)
to_started-Contract =
    anew-Contract bump enough beast (λ k v h i. refl) need_eof (λ r v s n f. ap header f)

anew-Contract_example : Contract to_started (client_view policy)
anew-Contract_example =
    anew-Contract bump enough beast (λ k v h i. refl) need_eof (λ r v s n f. ap header f)

abbrev pub idle : Library FifoEvictor
idle = record { mutex = false; p_impl = cache }

-- A client of a server that has just been started.
abbrev pub started : Connection (Impl FifoEvictor)
started = record {
  host = text "127.0.0.1";
  port = text "10002";
  connected = true;
  remote = record {
    my_maxmem = 100;
    current_mem = 0;
    table = [];
    table_load_factor = 75;
    my_max_load_factor = 75;
    buffers = [];
    my_evictor = some (record { my_que = [] });
  };
}

pub started-IsReady : Ready policy started
unfolding policy
started-IsReady = record {
  order = [];
  valid = record {
    sound = record {
      owned = nil;
      accounted = refl;
      bounded = omega arith;
      loads = refl;
      small = omega arith;
    };
    ordered = refl;
    covered = λ on k i. cc;
    named = refl;
  };
  on = refl;
  strings = λ j u e. cc;
  connected = refl;
}

pub key_c : Name (text "c")
key_c = record {
  clean = record { printable = refl; unclosed = refl };
  unslashed = refl;
  real = λ p. cc;
  short = omega arith;
}

pub string_c : CString (c_string (text "12345"))
string_c = record {
  body = text "12345";
  clean = record { printable = refl; unclosed = refl };
  terminated = refl;
}

abbrev pub several : List Call
several =
    set_call (text "c") (c_string (text "12345"))
    ∷ get_call (text "c")
    ∷ space_call
    ∷ del_call (text "c")
    ∷ reset_call
    ∷ []

abbrev pub body : Call → Impl FifoEvictor → Result (Returned × Impl FifoEvictor)
body = section evictor bump rounds

abbrev pub in_section : Shared (Impl FifoEvictor)
in_section = record {
  mutex = some 1;
  evictor_mtx = none;
  state = cache;
  place = move 1 (entered space_call) (move 1 (waiting space_call) λ i. outside);
  done = [];
}

pub in_section-Reach : Reach body cache in_section
in_section-Reach = later (later begins (calls 1 space_call refl)) (locks 1 space_call refl refl)

-- Another thread waits.
abbrev two_threads : Shared (Impl FifoEvictor)
two_threads = record in_section { place = move 2 (waiting (get_call (text "a"))) in_section.place }

no_deadlock_example :
    ((j : ℕ) (call : Call) → two_threads.place j ≡ waiting call → Gets body j call two_threads)
    × ((i : ℕ) (call : Call) (seen : Impl FifoEvictor)
        → two_threads.place i ≡ working call seen
        → two_threads.evictor_mtx ≡ none)
no_deadlock_example =
    no_deadlock evictor bump rounds (later in_section-Reach (calls 2 (get_call (text "a")) refl))

abbrev connected : Connection (Session FifoEvictor)
connected = record {
  host = text "127.0.0.1";
  port = text "10002";
  connected = true;
  remote = unread;
}

abbrev over : Cache (Connection (Session FifoEvictor))
over = client beast (exchange evictor bump 9 beast dump need_eof) print

one_call_example :
    (c : Connection (Session FifoEvictor)) × (over.set
        (text "c")
        (c_string (text "12345"))
        6
        connected
      ≡ ok c)
    × (value c.remote.cache (text "c") ≡ some (c_string (text "12345")))
    × (e : Stop) × (perform over (get_call (text "c")) c ≡ stop e)
one_call_example =
    one_call bump 9 beast dump (λ r h. refl) print connected (text "c") (text "12345")
      (get_call (text "c")) refl refl cache-IsValid refl (λ p. cc) refl (omega arith) (omega arith)
