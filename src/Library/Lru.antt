-- ===== src/Library/Lru.antt =====
-- cache_lib.cc with the LRU evictor, as cache_server.cc makes it, against the specification that
-- runs: from the empty cache, with the rounds of the loops read off the state.
use cs389hw.Shared.{
  ℕ, suc, ◌+◌, ◌≤◌, ◌<◌, ◌^◌, ◌≡◌, refl, arith, ap, true, Option, none, some, List, [], Key, Bytes,
  bytes_eq, length,
}
use cs389hw.Memory.{Allocator}
use cs389hw.Cache.{Call, perform_all}
use cs389hw.Cache.Bounded
use cs389hw.Cache.Bounded.{Bounded}
use cs389hw.CacheLib
use cs389hw.CacheLib.{Impl}
use cs389hw.CacheLib.Agrees.{Agrees}
use cs389hw.CacheLib.Blocks.{nil}
use cs389hw.CacheLib.Valid.{InOrder}
use cs389hw.Lru
use cs389hw.Lru.{Node, LruEvictor, evictor}
use cs389hw.Lru.Order.{touched}
use cs389hw.Lru.Policy.{policy, create-Holds}
use cs389hw.Lru.Size.{length_le_table}
use cs389hw.Library.{library, create}
use cs389hw.Cache.Simulation.{replies_of}
use cs389hw.Library.Exact.{AllFine, replies_lem}
use cs389hw.Library.Implements.{Enough}

-- The number of keys that the evictor knows.
abbrev pub known : Option LruEvictor → ℕ
known none = 0
known (some e) = length e.table

abbrev pub rounds : Impl LruEvictor → ℕ
rounds s = suc (length s.table + known s.my_evictor)

-- An empty map within a bound, from which keys leave.
abbrev pub fresh : ℕ → Bounded
fresh maxmem = record { maxmem = maxmem; used = 0; content = λ j. none; evicts = true; order = [] }

module _ (nodes : Allocator Node) where
  order_le :
      (o : Option LruEvictor) (l : List Key) → InOrder (policy nodes) o l → length l ≤ known o
  unfolding policy
  order_le none l h = omega (arith, ap length h)
  order_le (some e) l h = length_le_table e l h

  pub enough : Enough (policy nodes) rounds
  enough s l h = let n = order_le s.my_evictor l h.ordered in (omega arith, omega (arith, n))

  pub fresh-Agrees :
      (maxmem : ℕ)
      → maxmem < 2 ^ 30
      → Agrees (policy nodes) (CacheLib.create maxmem 75 (some Lru.create)) (fresh maxmem)
  unfolding CacheLib.create policy
  fresh-Agrees maxmem small = record {
    valid = record {
      sound = record {
        owned = nil;
        accounted = refl;
        bounded = omega arith;
        loads = refl;
        small = small;
      };
      ordered = create-Holds;
      covered = λ on k i. cc;
      named = refl;
    };
    sees = record { bound = refl; used = refl; values = λ j. refl; evicts = refl };
  }

  -- A cache as `main` makes it, with the LRU evictor and from empty, answers any sequence of calls
  -- as a map of that size does from which the least recently used keys leave: the same replies, or
  -- the same failure. Keys that are set or got are not empty, sizes are of type `int`, and the
  -- memory is below 2 ^ 30.
  pub lru_replies :
      (alloc : Allocator Bytes) (maxmem : ℕ) (calls : List Call)
      → maxmem < 2 ^ 30
      → AllFine calls
      → replies_of (
          perform_all
            (library (evictor nodes) alloc rounds)
            calls
            (create maxmem 75 (some Lru.create)))
        ≡ Bounded.replies touched calls (fresh maxmem)
  unfolding create policy
  lru_replies alloc maxmem calls small fine =
      replies_lem alloc enough calls (create maxmem 75 (some Lru.create)) (fresh maxmem)
        (record { unlocked = refl; agrees = fresh-Agrees maxmem small }) fine
