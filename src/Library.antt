-- ===== src/Library.antt =====
-- cache_lib.cc: the member functions of `Cache` that take the mutex and call `Cache::Impl`.
--
-- The rounds of the loops of `set` and `reset` are a function of the state.
pub mod Exact
pub mod Lru
pub mod Implements
pub mod Threads
use cs389hw.Shared.{
  ℕ, Bool, true, false, Option, none, some, Key, Bytes, Result, ok, stop, deadlock, ◌>>=◌, ◌==◌,
  nat_eq, if◌then◌else◌,
}
use cs389hw.Memory.{Ptr, null, Memory, load, Allocator}
use cs389hw.Evictor.{Evictor}
use cs389hw.CacheLib
use cs389hw.CacheLib.{Impl}
use cs389hw.Cache.{Answer, Cache}

-- The global `mutex`, and the object behind `pImpl_`.
pub record Library (S : Type 0) : Type 0 where
  pub mutex : Bool
  pub p_impl : Impl S

-- `Cache::Cache`
unfoldable pub create : {S : Type 0} → ℕ → ℕ → Option S → Library S
create maxmem max_load_factor evictor = record {
  mutex = false;
  p_impl = CacheLib.create maxmem max_load_factor evictor;
}

-- `val_type` and `val_size` for a caller that reads the value at once.
unfoldable pub read_answer : Ptr → ℕ → Memory Bytes → Result Answer
read_answer p size m =
    if p == null then ok (none, size) else (load m p >>= λ val. ok (some val, size))

module _ {S : Type 0} where
  -- `std::lock_guard guard(mutex);` of one thread: it never gets a lock that it holds.
  unfoldable pub lock : Library S → Result (Library S)
  lock w = if w.mutex then stop deadlock else ok (record w { mutex = true })

  -- The destructor of the guard.
  unfoldable pub unlock : Library S → Library S
  unlock w = record w { mutex = false }

  module _ (ev : Evictor S) (alloc : Allocator Bytes) (rounds : Impl S → ℕ) where
    unfoldable pub set : Key → Bytes → ℕ → Library S → Result (Library S)
    unfolding lock unlock
    set key val size w = do
      w ← lock w
      s ← CacheLib.set ev alloc (rounds w.p_impl) key val size w.p_impl
      ok (unlock (record w { p_impl = s }))

    unfoldable pub get : Key → Library S → Result (Answer × Library S)
    unfolding lock unlock read_answer
    get key w = do
      w ← lock w
      ((p, size), s) ← CacheLib.get ev key w.p_impl
      a ← read_answer p size s.buffers
      ok (a, unlock (record w { p_impl = s }))

    unfoldable pub del : Key → Library S → Result (Bool × Library S)
    unfolding lock unlock
    del key w = do
      w ← lock w
      (b, s) ← CacheLib.del key w.p_impl
      ok (b, unlock (record w { p_impl = s }))

    unfoldable pub space_used : Library S → Result (ℕ × Library S)
    unfolding lock unlock
    space_used w = do w ← lock w; ok (CacheLib.get_current_mem w.p_impl, unlock w)

    unfoldable pub reset : Library S → Result (Library S)
    unfolding lock unlock
    reset w = do
      w ← lock w
      s ← CacheLib.reset ev (rounds w.p_impl) w.p_impl
      ok (unlock (record w { p_impl = s }))

    -- `Cache::~Cache`: the cache is reset, and `Impl` goes with `pImpl_`.
    unfoldable pub destroy : Library S → Result (Memory Bytes)
    unfolding reset
    destroy w = do w ← reset w; CacheLib.destroy w.p_impl.table w.p_impl.buffers

    -- The library as an implementation of the interface.
    unfoldable pub library : Cache (Library S)
    unfolding set get del space_used reset
    library = record { set = set; get = get; del = del; space_used = space_used; reset = reset }
