-- ===== src/Main/Service.antt =====
-- cache_server.cc: the try block of `main`.
--
-- Parameters: whether `make_address` takes a text, and the service itself, which the given number
-- of threads run until it is stopped.
use cs389hw.Shared.{
  ℕ, ◌<◌, ◌^◌, ◌≡◌, refl, arith, Bool, true, not, ◌||◌, Option, some, List, Bytes, Result, ok, stop,
  bad_access, ◌==◌, nat_eq, if◌then◌else◌,
}
use cs389hw.CacheLib
use cs389hw.CacheLib.{Impl}
use cs389hw.CacheLib.Blocks.{nil}
use cs389hw.CacheLib.Valid.{IsSound}
use cs389hw.Arguments.{Params, Opt, default_params, set_params}
use cs389hw.Listener
use cs389hw.Listener.{Listener, Errors, run}
use cs389hw.Lru
use cs389hw.Lru.{LruEvictor}
use cs389hw.Main.{main, main_faults}

module _ (is_address : Bytes → Bool) (errors : Errors)
    (service : ℕ → Listener → Impl LruEvictor → Result (Bool × Impl LruEvictor)) where
  -- The state of the cache after the block, with `true` if an exception has left it: `make_address`
  -- throws, or `v.reserve(threads - 1)`, since -1 becomes the largest size.
  unfoldable pub try_block : Params → Impl LruEvictor → Result (Bool × Impl LruEvictor)
  try_block params cache =
      if not (is_address params.server)
      then ok (true, cache)
      else let l = run (Listener.create errors) in
        if params.threads == 0 then ok (true, cache) else service params.threads l cache

  fresh-IsSound :
      (maxmem : ℕ)
      → maxmem < 2 ^ 30
      → IsSound (CacheLib.create {S = LruEvictor} maxmem 75 (some Lru.create))
  unfolding CacheLib.create
  fresh-IsSound maxmem small = record {
    owned = nil;
    accounted = refl;
    bounded = omega arith;
    loads = refl;
    small = small;
  }

  -- A text that is no address, or no thread at all: the exception is caught, but `main` does not
  -- come to its `return`, for the cache that it destroys calls the deleted evictor.
  pub rejected_faults :
      (rounds : ℕ) (opts : List (Opt × Option Bytes)) (params : Params)
      → set_params opts default_params ≡ ok (some params)
      → (not (is_address params.server) || (params.threads == 0)) ≡ true
      → params.maxmem < 2 ^ 30
      → 0 < rounds
      → main rounds try_block opts ≡ stop bad_access
  unfolding try_block CacheLib.create
  rejected_faults rounds opts params parsed rejected small enough =
      let cache = CacheLib.create params.maxmem 75 (some Lru.create) in
      main_faults rounds try_block opts params true cache parsed (ground (arith, rejected))
        (fresh-IsSound params.maxmem small) refl enough
