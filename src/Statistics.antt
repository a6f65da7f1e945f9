-- ===== src/Statistics.antt =====
-- statistics.cc: the measurements of one client, and the file to which they are exported.
--
-- The clock is a parameter: `duration i` is what it measures in round `i`. A `double` is a value of
-- `T`, with its text `show`. What the program prints on the console is left out.
pub mod Round
pub mod Counted
pub mod Csv
use cs389hw.Shared.{
  ℕ, zero, suc, ◌+◌, ◌-◌, ◌%◌, Option, none, some, List, [], ◌∷◌, ◌++◌, Bytes, Result, ok, ◌>>=◌,
  if◌then◌else◌, leb, text,
}
use cs389hw.Shared.Int.{ℤ, pos, u32, add_int}
use cs389hw.Cache.{Cache}
use cs389hw.Workload.Generator.{WorkloadGenerator}
use cs389hw.Requests.{Made, got, was_set, was_deleted, neither, make}

-- The variables of `baseline_latencies`; `live` is the number of values from `get` that have not
-- been deleted.
pub record Tally (T : Type 0) : Type 0 where
  pub count : ℕ
  pub hits : ℕ
  pub set_count : ℤ
  pub del_count : ℤ
  pub measurements : List T
  pub live : ℕ

abbrev pub fresh : {T : Type 0} → Tally T
fresh = record {
  count = 0;
  hits = 0;
  set_count = pos 0;
  del_count = pos 0;
  measurements = [];
  live = 0;
}

abbrev pub warm_up_iters : ℕ
warm_up_iters = 100000

module _ {T : Type 0} where
  -- `measurements.push_back(duration.count())` behind the warm-up
  unfoldable pub push : ℕ → T → Tally T → Tally T
  push i d m =
      if leb warm_up_iters i then record m { measurements = m.measurements ++ d ∷ [] } else m

  -- What follows the call in each of the branches.
  unfoldable pub after_get : ℕ → T → Option Bytes → Tally T → Tally T
  after_get i d none m =
      if leb warm_up_iters i
      then record m { count = (m.count + 1) % u32; measurements = m.measurements ++ d ∷ [] }
      else m
  after_get i d (some val) m =
      let m = record m { live = m.live + 1 } in
      if leb warm_up_iters i
      then record m {
        count = (m.count + 1) % u32;
        hits = (m.hits + 1) % u32;
        live = m.live - 1;
        measurements = m.measurements ++ d ∷ [];
      }
      else m

  unfoldable pub after : ℕ → T → Made → Tally T → Result (Tally T)
  unfolding push after_get
  after i d (got val) m = ok (after_get i d val m)
  after i d was_set m = do
    n ← add_int m.set_count (pos 1)
    ok (push i d (record m { set_count = n }))
  after i d was_deleted m = do
    n ← add_int m.del_count (pos 1)
    ok (push i d (record m { del_count = n }))
  after i d neither m = ok m

-- The lines of the file behind the name of the column.
abbrev pub csv_lines : {T : Type 0} → (T → Bytes) → List T → Bytes
csv_lines show [] = []
csv_lines show (it ∷ m) = show it ++ (text "\n" ++ csv_lines show m)

module _ {W G T : Type 0} (my_cache : Cache W) (wkld : WorkloadGenerator G) (duration : ℕ → T) where
  -- The loop, with `n` rounds left of which the next one is round `i`.
  unfoldable pub rounds : ℕ → ℕ → W → G → Tally T → Result (Tally T × W × G)
  unfolding after
  rounds zero i w g m = ok (m, w, g)
  rounds (suc n) i w g m = do
    (made, w, g) ← make my_cache wkld w g
    m ← after i (duration i) made m
    rounds n (i + 1) w g m

  -- From the states of the connected client and of the generator.
  unfoldable pub baseline_latencies : ℕ → W → G → Result (Tally T × W × G)
  unfolding rounds
  baseline_latencies nreq w g =
      let test_iters = nreq % u32 in rounds ((warm_up_iters + test_iters) % u32) 0 w g fresh

  unfoldable pub export_measurements : (T → Bytes) → ℕ → W → G → Result (Bytes × W × G)
  unfolding baseline_latencies
  export_measurements show nreq w g = do
    (m, w, g) ← baseline_latencies nreq w g
    ok (text "latency\n" ++ csv_lines show m.measurements, w, g)

  unfoldable pub main : (T → Bytes) → W → G → Result (Bytes × W × G)
  unfolding export_measurements
  main show w g = export_measurements show 1000000 w g
