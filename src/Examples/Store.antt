-- ===== src/Examples/Store.antt =====
-- cache_lib.cc at a small cache with the first-in, first-out evictor, and at one without.
use cs389hw.Shared.{
  ℕ, ◌+◌, ◌≡◌, ◌≢◌, refl, arith, some, none, Option, List, [], ◌∷◌, Key, Result, ok, stop,
  assert_failed, ◌>>=◌, text, bytes_beq, is_some, if◌then◌else◌, ◌==◌, bytes_eq, eq_iff,
}
use cs389hw.Shared.Tables.{find}
use cs389hw.Memory.{Ptr, null, Memory, read, write, load, delete, bump}
use cs389hw.Fifo
use cs389hw.Fifo.{FifoEvictor, evictor}
use cs389hw.Fifo.Order.{policy}
use cs389hw.CacheLib
use cs389hw.CacheLib.{Block, Impl, set, get, del, reset}
use cs389hw.CacheLib.Blocks.{nil, cons}
use cs389hw.CacheLib.Valid.{IsSound, IsValid, value, size_of}
use cs389hw.CacheLib.Store.{touched_order}
use cs389hw.CacheLib.Admit.{copied}
use cs389hw.CacheLib.Outcomes.{Stored, set_stores, set_fits, set_refused, set_aborts}
use cs389hw.CacheLib.EmptyKey.{set_empty_key}
use cs389hw.CacheLib.Access.{get-some, del_lem}
use cs389hw.CacheLib.Reset.{reset_lem}

-- 10 bytes in all: 3 for "a", 4 for "b".
abbrev with_evictor : Option FifoEvictor → Impl FifoEvictor
with_evictor o = record {
  my_maxmem = 10;
  current_mem = 7;
  table =
      (text "b", record { address = 2; size = 4 })
      ∷ (text "a", record { address = 1; size = 3 })
      ∷ [];
  table_load_factor = 75;
  my_max_load_factor = 75;
  buffers = (2, some (text "blue")) ∷ (1, some (text "red")) ∷ [];
  my_evictor = o;
}

abbrev pub order : List Key
order = text "a" ∷ text "b" ∷ []

abbrev pub cache : Impl FifoEvictor
cache = with_evictor (some (record { my_que = order }))

abbrev plain : Impl FifoEvictor
plain = with_evictor none

sound : (o : Option FifoEvictor) → IsSound (with_evictor o)
unfolding read bytes_beq
sound o = record {
  owned =
      cons (text "blue") refl (record { ne_null = ground arith; holds = refl }) refl refl
        (cons (text "red") refl (record { ne_null = ground arith; holds = refl }) refl refl nil);
  accounted = refl;
  bounded = omega arith;
  loads = refl;
  small = omega arith;
}

pub cache-IsValid : IsValid policy cache order
unfolding bytes_beq policy
cache-IsValid = record {
  sound = sound (some (record { my_que = order }));
  ordered = refl;
  covered = λ on k i. ground (arith, eq_iff k (text "a"), eq_iff k (text "b"));
  named = refl;
}

plain-IsValid : IsValid policy plain []
plain-IsValid = record { sound = sound none; ordered = refl; covered = λ on k i. cc; named = refl }

program : Unit {0}
unfolding read write load delete bytes_beq Fifo.touch_key Fifo.evict Fifo.evictor CacheLib.copy
    CacheLib.free CacheLib.exceeds CacheLib.change_for CacheLib.free_found CacheLib.drop_found
    CacheLib.evict_one CacheLib.make_room CacheLib.touch CacheLib.store CacheLib.admit set
    CacheLib.get_found get CacheLib.del_found del CacheLib.free_all CacheLib.drain
    CacheLib.drain_evictor reset
program = tt

abbrev summary : Impl FifoEvictor → Result (Option FifoEvictor × ℕ)
summary s = ok (s.my_evictor, s.current_mem)

-- The order of the queue after two more sets.
queue_order :
    (set evictor bump 3 (text "b") (text "by") 2 cache >>= λ s.
    set evictor bump 5 (text "c") (text "12345678") 8 s >>= summary)
    ≡ ok (some (record { my_que = text "b" ∷ text "b" ∷ text "c" ∷ [] }), 10)
unfolding program
queue_order = refl

-- A key that is empty stops the cache when its turn comes.
empty_key :
    (set evictor bump 3 [] (text "1") 1 cache >>= λ s.
    set evictor bump 9 (text "c") (text "1234567890") 10 s)
    ≡ stop assert_failed
unfolding program
empty_key = refl

set_stores_example :
    (s' : Impl FifoEvictor) × (set evictor bump 3 (text "c") (text "12345") 5 cache ≡ ok s')
    × Stored policy cache order (text "c") (text "12345") s'
unfolding policy
set_stores_example =
    set_stores bump 3 (text "c") (text "12345") 5 cache-IsValid (omega arith) (λ p. cc) refl
      (omega arith) (omega arith)

set_fits_example :
    (s' : Impl FifoEvictor) × (set evictor bump 1 (text "b") (text "123") 3 plain ≡ ok s')
    × IsValid policy s' []
    × ((j : Key) → value s' j ≡ (if j == text "b" then some (text "123") else value plain j))
unfolding bytes_beq
set_fits_example =
    set_fits bump 1 (text "b") (text "123") 3 plain-IsValid (omega arith) (λ p. cc) (omega arith)
      (omega arith)

set_refused_example :
    set evictor bump 0 (text "a") (text "12345678901234\0") 15 cache
    ≡ ok (copied bump 15 (text "12345678901234\0") cache)
unfolding bytes_beq
set_refused_example =
    set_refused bump 0 (text "a") (text "12345678901234\0") 15 cache-IsValid (omega arith)
      (omega arith) (omega arith)

-- A cache that has been given a value for the empty key, as PUT of "//1234" does.
abbrev with_nameless : List (Key × Block) → Memory (List ℕ) → ℕ → List Key → Impl FifoEvictor
with_nameless t m n l = record {
  my_maxmem = 10;
  current_mem = n;
  table = t;
  table_load_factor = 75;
  my_max_load_factor = 75;
  buffers = m;
  my_evictor = some (record { my_que = l });
}

abbrev nameless : Impl FifoEvictor
nameless =
    with_nameless (([], record { address = 1; size = 4 }) ∷ []) ((1, some (text "1234")) ∷ []) 4
      ([] ∷ [])

nameless_stored : set evictor bump 1 [] (text "1234") 4 (with_nameless [] [] 0 []) ≡ ok nameless
unfolding read write load delete bytes_beq Fifo.touch_key Fifo.evictor CacheLib.copy
    CacheLib.exceeds CacheLib.change_for CacheLib.free_found CacheLib.make_room CacheLib.touch
    CacheLib.store CacheLib.admit set
nameless_stored = refl

nameless-IsSound : IsSound nameless
unfolding read bytes_beq
nameless-IsSound = record {
  owned = cons (text "1234") refl (record { ne_null = ground arith; holds = refl }) refl refl nil;
  accounted = refl;
  bounded = omega arith;
  loads = refl;
  small = omega arith;
}

set_empty_key_example :
    set evictor bump 1 (text "a") (text "12345678") 8 nameless ≡ stop assert_failed
unfolding policy bytes_beq
set_empty_key_example =
    set_empty_key policy bump 1 (text "a") (text "12345678") 8 (record { my_que = [] ∷ [] }) []
      nameless-IsSound refl refl (omega arith) (omega arith) (omega arith) (omega arith)

-- "b" has 4 bytes, and the cache takes 10: a new value of 12 bytes stops the program.
set_aborts_example :
    set evictor bump 3 (text "b") (text "123456789012") 12 cache ≡ stop assert_failed
unfolding bytes_beq
set_aborts_example =
    set_aborts bump 3 (text "b") (text "123456789012") 12 cache-IsValid (omega arith) refl
      (omega arith) (omega arith) (omega arith)

get-some_example :
    (p : Ptr) × (o : Option FifoEvictor) × (get evictor (text "a") cache
      ≡ ok ((p, 3), record cache { my_evictor = o }))
    × (p ≢ null)
    × (read cache.buffers p ≡ some (text "red"))
    × IsValid policy
        (record cache { my_evictor = o })
        (touched_order policy cache.my_evictor (text "a") order)
unfolding bytes_beq read
get-some_example = get-some cache-IsValid (text "a") (λ p. cc) refl

del_lem_example :
    (s' : Impl FifoEvictor) × (del (text "a") cache ≡ ok (is_some (value cache (text "a")), s'))
    × IsValid policy s' order
    × ((j : Key) → value s' j ≡ (if j == text "a" then none else value cache j))
    × (s'.current_mem + size_of cache (text "a") ≡ cache.current_mem)
    × (s'.my_evictor ≡ cache.my_evictor)
del_lem_example = del_lem cache-IsValid (text "a")

reset_lem_example :
    (s' : Impl FifoEvictor) × (reset evictor 3 cache ≡ ok s')
    × IsValid policy s' []
    × (s'.table ≡ [])
    × (s'.current_mem ≡ 0)
    × ((j : Key) (b : Block) → find cache.table j ≡ some b → read s'.buffers b.address ≡ none)
reset_lem_example = reset_lem policy 3 cache-IsValid (omega arith) (omega arith)
