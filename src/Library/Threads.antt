-- ===== src/Library/Threads.antt =====
-- cache_lib.cc under several threads: the sections that `std::lock_guard guard(mutex)` protects.
--
-- A section is not one step: a thread takes the mutex, looks at the state, works on what it has
-- seen and writes it back, and gives the mutex back. Other threads move in between. While it works
-- it takes and gives back `evictor_mtx` of lru_evictor.cc, once for each call of the LRU evictor.
pub mod Exclusion
pub mod Progress
pub mod Exact
use cs389hw.Shared.{
  ℕ, ◌≡◌, Bool, true, false, Option, none, some, List, [], ◌∷◌, ◌++◌, Key, Bytes, Result, ok, ◌>>=◌,
  ◌==◌, nat_eq, if◌then◌else◌, length,
}
use cs389hw.Memory.{Ptr, Allocator}
use cs389hw.Evictor.{Evictor}
use cs389hw.CacheLib
use cs389hw.CacheLib.{Impl}
use cs389hw.Cache.{Call, set_call, get_call, del_call, space_call, reset_call}

-- What a section returns; `get` returns a pointer, which the caller uses after the section.
pub data Returned : Type 0 where
  returned : Returned
  pointer : Ptr → ℕ → Returned
  flag : Bool → Returned
  number : ℕ → Returned

-- What the section of a call does to the object behind `pImpl_`.
module _ {S : Type 0} (ev : Evictor S) (alloc : Allocator Bytes) (rounds : Impl S → ℕ) where
  unfoldable pub section : Call → Impl S → Result (Returned × Impl S)
  section (set_call key val) s = do
    s ← CacheLib.set ev alloc (rounds s) key val (length val) s
    ok (returned, s)
  section (get_call key) s = do ((p, size), s) ← CacheLib.get ev key s; ok (pointer p size, s)
  section (del_call key) s = do (b, s) ← CacheLib.del key s; ok (flag b, s)
  section space_call s = ok (number (CacheLib.get_current_mem s), s)
  section reset_call s = do s ← CacheLib.reset ev (rounds s) s; ok (returned, s)

-- Where a thread is: in no call, before the section of a call, in it, in it with what it has seen
-- of the state, in the evictor with the evictor's mutex, or at its end.
pub data Place (W : Type 0) : Type 0 where
  outside : Place W
  waiting : Call → Place W
  entered : Call → Place W
  working touching : Call → W → Place W
  leaving : Place W

-- `done` has the calls that have been carried out, and what they returned, the latest last.
pub record Shared (W : Type 0) : Type 0 where
  pub mutex : Option ℕ
  pub evictor_mtx : Option ℕ
  pub state : W
  pub place : ℕ → Place W
  pub done : List (Call × Returned)

abbrev pub move : {W : Type 0} → ℕ → Place W → (ℕ → Place W) → ℕ → Place W
move i x f j = if j == i then x else f j

module _ {W : Type 0} (body : Call → W → Result (Returned × W)) where
  -- One move of thread `i`.
  pub data Step (s : Shared W) : Shared W → Type 0 where
    calls :
        (i : ℕ) (call : Call)
        → s.place i ≡ outside
        → Step s (record s { place = move i (waiting call) s.place })
    locks :
        (i : ℕ) (call : Call)
        → s.place i ≡ waiting call
        → s.mutex ≡ none
        → Step s (record s { mutex = some i; place = move i (entered call) s.place })
    looks :
        (i : ℕ) (call : Call)
        → s.place i ≡ entered call
        → Step s (record s { place = move i (working call s.state) s.place })
    evictor_locks :
        (i : ℕ) (call : Call) (seen : W)
        → s.place i ≡ working call seen
        → s.evictor_mtx ≡ none
        → Step s (record s { evictor_mtx = some i; place = move i (touching call seen) s.place })
    evictor_unlocks :
        (i : ℕ) (call : Call) (seen : W)
        → s.place i ≡ touching call seen
        → Step s (record s { evictor_mtx = none; place = move i (working call seen) s.place })
    works :
        (i : ℕ) (call : Call) (seen : W) (reply : Returned) (after : W)
        → s.place i ≡ working call seen
        → body call seen ≡ ok (reply, after)
        → Step s (record s {
          state = after;
          place = move i leaving s.place;
          done = s.done ++ (call, reply) ∷ [];
        })
    unlocks :
        (i : ℕ)
        → s.place i ≡ leaving
        → Step s (record s { mutex = none; place = move i outside s.place })

  -- The states that any number of threads reach, from one in which none is in a call.
  pub data Reach (start : W) : Shared W → Type 0 where
    begins : Reach start (record {
      mutex = none;
      evictor_mtx = none;
      state = start;
      place = λ i. outside;
      done = [];
    })
    later : {s t : Shared W} → Reach start s → Step s t → Reach start t

  -- The same calls one after another, in one thread, with what they are to return.
  pub data Replays : List (Call × Returned) → W → W → Type 0 where
    ends : {w : W} → Replays [] w w
    runs :
        {call : Call} {reply : Returned} {rest : List (Call × Returned)} {w next last : W}
        → body call w ≡ ok (reply, next)
        → Replays rest next last
        → Replays ((call, reply) ∷ rest) w last
