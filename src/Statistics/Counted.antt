-- ===== src/Statistics/Counted.antt =====
-- What `baseline_latencies` counts.
use cs389hw.Shared.{
  ℕ, zero, suc, ◌+◌, ◌%◌, ◌^◌, ◌<◌, ◌≤◌, ◌≡◌, refl, ap, ◌∙◌, arith, subst, ok, length,
}
use cs389hw.Shared.Int.{u32}
use cs389hw.Cache.{Cache}
use cs389hw.Cache.Contract.{View, Contract}
use cs389hw.Workload.Generator.{WorkloadGenerator}
use cs389hw.Requests.Answered.{Feeds, make_lem}
use cs389hw.Statistics.{Tally, fresh, warm_up_iters, rounds, baseline_latencies}
use cs389hw.Statistics.Round.{Counts, after_lem}

module _ {W G T : Type 0} {my_cache : Cache W} {v : View W} (contract : Contract my_cache v)
    {wkld : WorkloadGenerator G} {capacity : ℕ} {Fit : G → Type 0}
    (feeds : Feeds wkld v capacity Fit) (duration : ℕ → T) where
  rounds_lem :
      (n i : ℕ) {w : W} {g : G} {m : Tally T}
      → i + n + 1 < 2 ^ 31
      → v.Ready w
      → v.capacity w ≡ capacity
      → Fit g
      → Counts i i m
      → (m' : Tally T) × (w' : W) × (g' : G) × (rounds my_cache wkld duration n i w g m
          ≡ ok (m', w', g'))
        × Counts (i + n) (i + n) m'
        × v.Ready w'
        × Fit g'
  unfolding rounds
  rounds_lem zero i {w} {g} {m} small ready same fit h =
      (m, w, g, refl, subst (λ j. Counts j j m) (omega arith) h, ready, fit)
  rounds_lem (suc n) i {w} {g} {m} small ready same fit h =
      let a = make_lem contract feeds ready same fit in
      let (m₁, counted, h₁) = after_lem i (duration i) (omega arith) a.made m a.request h in
      let (m', w', g', ran, h', ready', fit') =
        rounds_lem n (i + 1) (omega arith) a.ready a.same a.fit h₁ in
      (
        m',
        w',
        g',
        rw (a.ran, counted, ran) refl,
        subst (λ j. Counts j j m') (omega arith) h',
        ready',
        fit',
      )

  pub baseline_latencies_lem :
      (nreq : ℕ) {w : W} {g : G}
      → nreq + 100001 < 2 ^ 31
      → v.Ready w
      → v.capacity w ≡ capacity
      → Fit g
      → (m : Tally T) × (w' : W) × (g' : G) × (baseline_latencies my_cache wkld duration nreq w g
          ≡ ok (m, w', g'))
        × (length m.measurements ≡ nreq)
        × (m.hits ≤ m.count)
        × (m.count ≤ nreq)
        × (m.live ≤ 100000)
        × v.Ready w'
        × Fit g'
  unfolding baseline_latencies
  baseline_latencies_lem nreq {w} {g} small ready same fit =
      let start : Counts 0 0 (fresh {T = T}) = record {
        measured = refl;
        gets = omega arith;
        hits = omega arith;
        sets = 0;
        dels = 0;
        set_count = refl;
        del_count = refl;
        made = omega arith;
        leaked = omega arith;
        warm = omega arith;
      } in
      let all : (warm_up_iters + nreq % u32) % u32 ≡ warm_up_iters + nreq = omega arith in
      let (m, w', g', ran, h, ready', fit') =
        rounds_lem (warm_up_iters + nreq) 0 (omega arith) ready same fit start in
      let measured : length m.measurements ≡ nreq = omega (arith, h.measured) in
      (
        m,
        w',
        g',
        ap (λ n. rounds my_cache wkld duration n 0 w g fresh) all ∙ ran,
        measured,
        h.hits,
        omega (arith, h.gets, measured),
        h.warm,
        ready',
        fit',
      )
