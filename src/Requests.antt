-- ===== src/Requests.antt =====
-- statistics.cc and benchmark.cc: one request of the loops of their `baseline_latencies`, which
-- make it in the same way and differ in what they count.
pub mod Answered
pub mod Generated
use cs389hw.Shared.{
  ℕ, ◌+◌, ◌%◌, Option, Bytes, Key, Result, ok, ◌>>=◌, ◌==◌, bytes_eq, if◌then◌else◌, length, text,
}
use cs389hw.Shared.Int.{u32}
use cs389hw.Server.{until_nul}
use cs389hw.Cache.{Cache}
use cs389hw.Workload.Generator.{WorkloadGenerator}

-- Which branch was taken; `got` has the value, if it is not a null pointer.
pub data Made : Type 0 where
  got : Option Bytes → Made
  was_set was_deleted neither : Made

-- `strlen(val)`
unfoldable pub strlen : Bytes → Result ℕ
unfolding until_nul
strlen val = do s ← until_nul val; ok (length s)

module _ {W G : Type 0} (my_cache : Cache W) (wkld : WorkloadGenerator G) where
  unfoldable pub make_get : W → G → Result (Made × W × G)
  make_get w g = do
    (key, g) ← wkld.random_key g
    ((val, s), w) ← my_cache.get key w
    ok (got val, w, g)

  unfoldable pub make_set : W → G → Result (Made × W × G)
  unfolding strlen
  make_set w g = do
    (key, g) ← wkld.random_key g
    (val, g) ← wkld.random_val g
    n ← strlen val
    w ← my_cache.set key val ((n + 1) % u32) w
    ok (was_set, w, g)

  unfoldable pub make_del : W → G → Result (Made × W × G)
  make_del w g = do
    (key, g) ← wkld.random_key g
    (b, w) ← my_cache.del key w
    ok (was_deleted, w, g)

  -- The tests of `request_type`
  unfoldable pub make : W → G → Result (Made × W × G)
  unfolding make_get make_set make_del
  make w g =
      let (request_type, g) = wkld.request_type_dist g in
      if request_type == text "get"
      then make_get w g
      else if request_type == text "set"
      then make_set w g
      else if request_type == text "del"
      then make_del w g
      else ok (neither, w, g)
