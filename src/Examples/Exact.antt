-- ===== src/Examples/Exact.antt =====
-- The library, the server and its sessions, beside the specification of the cache.
use cs389hw.Shared.{
  ◌≡◌, refl, ap, arith, true, false, none, some, List, [], ◌∷◌, bytes_eq, bytes_beq, Ends, ok, stop,
  assert_failed, length-append, text,
}
use cs389hw.Memory.{bump, read, write, load, delete}
use cs389hw.Fifo.{FifoEvictor, evictor}
use cs389hw.Fifo.Order.{policy, touched}
use cs389hw.Cache.{
  Call, set_call, get_call, del_call, space_call, nothing, answer, deleted, space, perform_all,
}
use cs389hw.Cache.Bounded
use cs389hw.Cache.Bounded.{Bounded, forget, put}
use cs389hw.CacheLib
use cs389hw.CacheLib.{Impl}
use cs389hw.CacheLib.Agrees.{Agrees}
use cs389hw.CacheLib.Valid.{value}
use cs389hw.Library.{Library, library, create}
use cs389hw.Cache.Simulation.{replies_of, seen_by}
use cs389hw.CacheLib.Blocks.{nil}
use cs389hw.Client.Exact.{unseen}
use cs389hw.Client.Anew.{anew-library}
use cs389hw.Library.Exact.{replies_lem}
use cs389hw.Library.Threads.{section, number, later, looks, works}
use cs389hw.Library.Threads.Exact.{Runs, threads_lem}
use cs389hw.Library.Lru.{lru_replies, rounds as lru_rounds}
use cs389hw.Lru
use cs389hw.Lru.{LruEvictor}
use cs389hw.Server.{Request, get, delete_, handle_request, put as put_verb}
use cs389hw.Server.Commands.{serve}
use cs389hw.Server.Exact.{handle_request_lem}
use cs389hw.Server.{
  not_found, error_response, dispatch, handle_get, handle_delete, at_zero, answer_get, set_header,
  set_field,
}
use cs389hw.Server.Answers.{accepted, c_string}
use cs389hw.Server.Commands.{carried_out}
use cs389hw.Session.{on_read, send, arrived, reading, writing}
use cs389hw.Session.Many.{Sessions, back, Reach, begins, reads, Told}
use cs389hw.Session.Many.InOrder.{in_order}
use cs389hw.Examples.Clients.{beast, dump, header}
use cs389hw.Examples.Http.{need_eof}
use cs389hw.Examples.Caches.{
  in_section-Reach, rounds, enough, idle, started, several, key_c, string_c, to_started,
}
use cs389hw.Examples.Store.{cache, cache-IsValid, order}

abbrev shown : Bounded
shown = record { maxmem = 10; used = 7; content = value cache; evicts = true; order = order }

cache-Agrees : Agrees policy cache shown
cache-Agrees = record {
  valid = cache-IsValid;
  sees = record { bound = refl; used = refl; values = λ j. refl; evicts = refl };
}

abbrev some_calls : List Call
some_calls =
    set_call (text "c") (text "12345")
    ∷ get_call (text "a")
    ∷ get_call (text "b")
    ∷ del_call (text "b")
    ∷ space_call
    ∷ []

-- "a" is the first to leave.
replies_lem_example :
    replies_of (perform_all (library evictor bump rounds) some_calls idle)
    ≡ ok (nothing ∷ answer (none, 0) ∷ answer (some (text "blue"), 4) ∷ deleted true ∷ space 5 ∷ [])
unfolding Bounded.replies Bounded.make_room policy bytes_beq read
replies_lem_example =
    replies_lem bump enough some_calls idle shown
      (record { unlocked = refl; agrees = cache-Agrees })
      (((λ p. cc), omega arith), ((λ p. cc), ((λ p. cc), (tt, (tt, tt)))))

-- A larger value for a key that is there runs the evictor dry.
too_large :
    Bounded.replies touched (set_call (text "a") (text "123456789012") ∷ []) shown
    ≡ stop assert_failed
unfolding Bounded.replies Bounded.make_room bytes_beq read
too_large = refl

abbrev lru_calls : List Call
lru_calls =
    set_call (text "a") (text "1234")
    ∷ set_call (text "b") (text "5678")
    ∷ get_call (text "a")
    ∷ set_call (text "c") (text "90")
    ∷ get_call (text "b")
    ∷ get_call (text "a")
    ∷ []

-- "b" was used least recently.
lru_replies_example :
    replies_of (
      perform_all
        (library (Lru.evictor bump) bump lru_rounds)
        lru_calls
        (create 9 75 (some Lru.create)))
    ≡ ok (
        nothing
        ∷ nothing
        ∷ answer (some (text "1234"), 4)
        ∷ nothing
        ∷ answer (none, 0)
        ∷ answer (some (text "1234"), 4)
        ∷ [])
unfolding Bounded.replies Bounded.make_room bytes_beq
lru_replies_example = lru_replies bump bump 9 lru_calls (omega arith) (
  ((λ p. cc), omega arith),
  (((λ p. cc), omega arith), ((λ p. cc), (((λ p. cc), omega arith), ((λ p. cc), ((λ p. cc), tt))))),
)

abbrev put_c : Request
put_c = record {
  method = put_verb;
  target = text "/c/1234";
  version = 11;
  keep_alive = true;
  fields = [];
}

-- The value has 5 bytes with its terminator, so "a" makes room.
handle_request_lem_example :
    Ends (Agrees policy) (handle_request evictor bump 9 beast dump put_c cache) (
      ok (
        carried_out 9,
        put touched
            (text "c")
            (c_string (text "1234"))
            (record (forget (text "a") shown) { order = text "b" ∷ [] }),
      ))
unfolding serve Bounded.set Bounded.make_room policy bytes_beq read
handle_request_lem_example =
    handle_request_lem bump 9 beast dump cache-Agrees put_c (omega arith) (omega arith)
      ((λ p. cc), omega arith)

abbrev get_a : Request
get_a = record { method = get; target = text "/a"; version = 11; keep_alive = true; fields = [] }

abbrev delete_a : Request
delete_a = record {
  method = delete_;
  target = text "/a";
  version = 11;
  keep_alive = true;
  fields = [];
}

abbrev without_a : Impl FifoEvictor
without_a = record cache {
  current_mem = 4;
  table = (text "b", record { address = 2; size = 4 }) ∷ [];
  buffers = (1, none) ∷ cache.buffers;
}

-- One session has read DELETE /a, and another one then GET /a.
abbrev at_first : Sessions FifoEvictor
at_first = record { phase = λ i. reading; answers = λ i. []; cache = cache }

abbrev one_read : Sessions FifoEvictor
one_read =
    back 1 (record { phase = writing true; answers = accepted without_a ∷ []; cache = without_a })
      at_first

abbrev two_read : Sessions FifoEvictor
two_read =
    back 2
      (record {
        phase = writing false;
        answers = not_found beast get_a (text "a") ∷ [];
        cache = without_a;
      })
      one_read

two_read-Reach :
    Reach evictor bump 9 beast dump need_eof cache two_read ((2, get_a) ∷ (1, delete_a) ∷ [])
unfolding on_read handle_request dispatch handle_get handle_delete at_zero answer_get not_found
    error_response set_header set_field CacheLib.get_current_mem CacheLib.get CacheLib.get_found
    CacheLib.del CacheLib.del_found CacheLib.free send bytes_beq read write load delete
two_read-Reach = reads 2 (arrived get_a) (reads 1 (arrived delete_a) begins refl refl) refl refl

in_order_example : Told policy beast dump shown two_read ((2, get_a) ∷ (1, delete_a) ∷ [])
unfolding policy
in_order_example =
    in_order bump 9 beast dump need_eof (λ k l. omega (arith, length-append l (k ∷ [])))
      two_read-Reach cache-Agrees refl ((λ p. cc), (tt, tt)) (omega arith)

abbrev empty : Bounded
empty = record { maxmem = 100; used = 0; content = λ j. none; evicts = true; order = [] }

started-Agrees : Agrees policy started.remote empty
unfolding policy
started-Agrees = record {
  valid = record {
    sound = record {
      owned = nil;
      accounted = refl;
      bounded = omega arith;
      loads = refl;
      small = omega arith;
    };
    ordered = refl;
    covered = λ on k i. cc;
    named = refl;
  };
  sees = record { bound = refl; used = refl; values = λ j. refl; evicts = refl };
}

abbrev beside_client : Library FifoEvictor
beside_client = record { mutex = false; p_impl = started.remote }

anew-library_example :
    replies_of (perform_all to_started several started)
    ≡ seen_by unseen (replies_of (perform_all (library evictor bump rounds) several beside_client))
anew-library_example =
    anew-library bump enough beast (λ k v h i. refl) need_eof (λ r v s n f. ap header f) several
      started beside_client empty
      (record { connected = refl; agrees = started-Agrees; strings = λ j u e. cc })
      (record { unlocked = refl; agrees = started-Agrees })
      ((key_c, string_c, omega arith), (key_c, (tt, (key_c, (tt, tt)))))

-- The replies that both give.
seen :
    seen_by unseen (Bounded.replies touched several empty)
    ≡ ok (
        nothing
        ∷ answer (some (c_string (text "12345")), 6)
        ∷ space 6
        ∷ deleted false
        ∷ nothing
        ∷ [])
unfolding Bounded.replies Bounded.make_room bytes_beq
seen = refl

threads_lem_example :
    (b : Bounded) × Runs
      (section evictor bump rounds)
      touched
      ((space_call, number 7) ∷ [])
      cache
      shown
      cache
      b
    × Agrees policy cache b
unfolding section CacheLib.get_current_mem policy
threads_lem_example =
    threads_lem bump enough
      (later (later in_section-Reach (looks 1 space_call refl))
        (works 1 space_call cache (number 7) cache refl refl))
      cache-Agrees (tt, tt)
