-- ===== src/Benchmark/Thread.antt =====
-- benchmark.cc: `baseline_latencies`, in one thread.
--
-- The connection is a parameter: `new_cache` opens it and may throw, `delete_cache` closes it.
-- `duration i` is the time that round `i` takes, in microseconds.
use cs389hw.Shared.{ℕ, zero, suc, ◌+◌, ◌≡◌, refl, ap, List, [], ◌∷◌, Result, ok, ◌>>=◌, length}
use cs389hw.Shared.Int.{ℤ, pos_part}
use cs389hw.Cache.{Cache}
use cs389hw.Cache.Contract.{View, Contract}
use cs389hw.Workload.Generator.{WorkloadGenerator}
use cs389hw.Requests.{make}
use cs389hw.Requests.Answered.{Feeds, make_lem}

module _ {W G : Type 0} (my_cache : Cache W) (wkld : WorkloadGenerator G) (duration : ℕ → ℕ) where
  -- The loop, with `n` rounds left of which the next one is round `i`. What a thread pushes is
  -- given in the order in which it does; every value from `get` is deleted at once.
  unfoldable pub rounds : ℕ → ℕ → W → G → Result (List ℕ × W × G)
  rounds zero i w g = ok ([], w, g)
  rounds (suc n) i w g = do
    (made, w, g) ← make my_cache wkld w g
    (pushed, w, g) ← rounds n (i + 1) w g
    ok (duration i ∷ pushed, w, g)

  unfoldable pub baseline_latencies : (W → Result W) → (W → W) → ℤ → W → G → Result (List ℕ × W × G)
  unfolding rounds
  baseline_latencies new_cache delete_cache nreq w g = do
    w ← new_cache w
    (pushed, w, g) ← rounds (pos_part nreq) 1 w g
    ok (pushed, delete_cache w, g)

module _ {W G : Type 0} {my_cache : Cache W} {v : View W} (contract : Contract my_cache v)
    {wkld : WorkloadGenerator G} {capacity : ℕ} {Fit : G → Type 0}
    (feeds : Feeds wkld v capacity Fit) (duration : ℕ → ℕ) where
  rounds_lem :
      (n i : ℕ) {w : W} {g : G}
      → v.Ready w
      → v.capacity w ≡ capacity
      → Fit g
      → (pushed : List ℕ) × (w' : W) × (g' : G) × (rounds my_cache wkld duration n i w g
          ≡ ok (pushed, w', g'))
        × (length pushed ≡ n)
        × v.Ready w'
  unfolding rounds
  rounds_lem zero i {w} {g} ready same fit = ([], w, g, refl, refl, ready)
  rounds_lem (suc n) i {w} {g} ready same fit =
      let a = make_lem contract feeds ready same fit in
      let (pushed, w', g', ran, all, ready') = rounds_lem n (i + 1) a.ready a.same a.fit in
      (duration i ∷ pushed, w', g', rw (a.ran, ran) refl, ap suc all, ready')

  pub thread_lem :
      (new_cache : W → Result W) (delete_cache : W → W) (nreq : ℤ) {start w : W} {g : G}
      → new_cache start ≡ ok w
      → v.Ready w
      → v.capacity w ≡ capacity
      → Fit g
      → (pushed : List ℕ) × (w' : W) × (g' : G) × (baseline_latencies my_cache wkld duration
            new_cache delete_cache nreq start g
          ≡ ok (pushed, delete_cache w', g'))
        × (length pushed ≡ pos_part nreq)
        × v.Ready w'
  unfolding baseline_latencies
  thread_lem new_cache delete_cache nreq opened ready same fit =
      let (pushed, w', g', ran, all, ready') = rounds_lem (pos_part nreq) 1 ready same fit in
      (pushed, w', g', rw (opened, ran) refl, all, ready')
