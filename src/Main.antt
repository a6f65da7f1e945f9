-- ===== src/Main.antt =====
-- cache_server.cc: `main`, and the order in which it destroys the evictor and the cache.
--
-- `serve params cache` is the state of the cache after the try block, with `true` if an exception
-- has left it; Main/Service has the block.
pub mod Service
use cs389hw.Shared.{
  ℕ, suc, ◌-◌, Bool, true, Option, none, some, List, Bytes, Result, ok, stop, bad_access, ◌>>=◌,
  if◌then◌else◌, ◌≡◌, refl, ap, ◌∙◌, arith, ◌<◌, is_some, length,
}
use cs389hw.Memory.{Memory}
use cs389hw.Evictor.{Evictor}
use cs389hw.CacheLib
use cs389hw.CacheLib.{Impl, reset, drain, drain_evictor, free_all}
use cs389hw.CacheLib.Valid.{IsSound}
use cs389hw.CacheLib.Reset.{free_all_lem}
use cs389hw.Arguments.{Params, Opt, default_params, set_params}
use cs389hw.Lru
use cs389hw.Lru.{LruEvictor}

-- What main returns.
pub data Exit : Type 0 where
  bad_arguments success failure : Exit

-- The methods of an evictor that has been deleted.
abbrev pub deleted : {S : Type 0} → Evictor S
deleted = record { touch_key = λ k e. stop bad_access; evict = λ e. stop bad_access }

-- `delete evictor; delete cache;`: the cache's destructor resets it, and the table goes with it.
unfoldable pub tear_down : {S : Type 0} → ℕ → Impl S → Result (Memory Bytes)
tear_down rounds s = do s ← reset deleted rounds s; CacheLib.destroy s.table s.buffers

-- The part of `main` behind the parsing of its arguments.
unfoldable pub serve_and_exit :
    ℕ → (Params → Impl LruEvictor → Result (Bool × Impl LruEvictor)) → Option Params → Result Exit
unfolding tear_down
serve_and_exit rounds serve none = ok bad_arguments
serve_and_exit rounds serve (some params) = do
  (thrown, cache) ← serve params (CacheLib.create params.maxmem 75 (some Lru.create))
  m ← tear_down rounds cache
  ok (if thrown then failure else success)

unfoldable pub main :
    ℕ
    → (Params → Impl LruEvictor → Result (Bool × Impl LruEvictor))
    → List (Opt × Option Bytes)
    → Result Exit
unfolding serve_and_exit
main rounds serve opts = set_params opts default_params >>= serve_and_exit rounds serve

drain_faults :
    {S : Type 0} (n : ℕ) (o : Option S)
    → is_some o ≡ true
    → drain_evictor deleted (suc n) o ≡ stop bad_access
unfolding drain_evictor drain
drain_faults n none h = cc
drain_faults n (some e) h = refl

tear_down_faults :
    {S : Type 0} (rounds : ℕ) (s : Impl S)
    → IsSound s
    → is_some s.my_evictor ≡ true
    → length s.table < rounds
    → tear_down rounds s ≡ stop bad_access
unfolding tear_down reset
tear_down_faults rounds s h on enough =
    let (s₁, run, r) = free_all_lem rounds s.table s h refl (omega arith) in
    let n : rounds ≡ suc (rounds - 1) = omega arith in
    let faults : drain_evictor deleted rounds s₁.my_evictor ≡ stop bad_access =
      ap (λ m. drain_evictor deleted m s₁.my_evictor) n
      ∙ drain_faults (rounds - 1) s₁.my_evictor (ap is_some r.same_evictor ∙ on) in
    rw (run, faults) refl

-- With the evictor deleted before the cache, the program does not come to its end: however the
-- service ends, if the cache is sound, the cache's destructor calls the deleted evictor.
pub main_faults :
    (rounds : ℕ) (serve : Params → Impl LruEvictor → Result (Bool × Impl LruEvictor))
    (opts : List (Opt × Option Bytes)) (params : Params) (thrown : Bool) (cache : Impl LruEvictor)
    → set_params opts default_params ≡ ok (some params)
    → serve params (CacheLib.create params.maxmem 75 (some Lru.create)) ≡ ok (thrown, cache)
    → IsSound cache
    → is_some cache.my_evictor ≡ true
    → length cache.table < rounds
    → main rounds serve opts ≡ stop bad_access
unfolding main serve_and_exit
main_faults rounds serve opts params thrown cache parsed served h on enough =
    rw (parsed, served, tear_down_faults rounds cache h on enough) refl
