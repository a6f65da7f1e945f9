-- ===== src/Statistics/Csv.antt =====
-- The file of the measurements, read back.
use cs389hw.Shared.{
  ℕ, ◌+◌, ◌^◌, ◌<◌, ◌≡◌, refl, ap, ◌∙◌, arith, false, List, [], ◌∷◌, ◌++◌, map, Bytes, nat_eq, ok,
  ◌==◌, if◌then◌else◌, length, contains, text,
}
use cs389hw.Cache.{Cache}
use cs389hw.Cache.Contract.{View, Contract}
use cs389hw.Workload.Generator.{WorkloadGenerator}
use cs389hw.Requests.Answered.{Feeds}
use cs389hw.Statistics.{csv_lines, export_measurements}
use cs389hw.Statistics.Counted.{baseline_latencies_lem}

-- The lines of a text, without the ends of lines.
abbrev on_first : ℕ → List Bytes → List Bytes
on_first c [] = (c ∷ []) ∷ []
on_first c (l ∷ ls) = (c ∷ l) ∷ ls

abbrev pub lines : Bytes → List Bytes
lines [] = []
lines (c ∷ s) = let rest = lines s in if c == 10 then [] ∷ rest else on_first c rest

lines-append : (l s : Bytes) → contains 10 l ≡ false → lines (l ++ 10 ∷ s) ≡ l ∷ lines s
lines-append [] s h = refl
lines-append (c ∷ l) s h =
    let other : (c == 10) ≡ false = ground arith in rw (lines-append l s (ground arith), other) refl

module _ {T : Type 0} (show : T → Bytes) (one_line : (d : T) → contains 10 (show d) ≡ false) where
  lines-csv : (m : List T) → lines (csv_lines show m) ≡ map show m
  lines-csv [] = refl
  lines-csv (d ∷ m) =
      lines-append (show d) (csv_lines show m) (one_line d) ∙ ap (◌∷◌ (show d)) (lines-csv m)

  module _ {W G : Type 0} {my_cache : Cache W} {v : View W} (contract : Contract my_cache v)
      {wkld : WorkloadGenerator G} {capacity : ℕ} {Fit : G → Type 0}
      (feeds : Feeds wkld v capacity Fit) (duration : ℕ → T) where
    pub export_measurements_lem :
        (nreq : ℕ) {w : W} {g : G}
        → nreq + 100001 < 2 ^ 31
        → v.Ready w
        → v.capacity w ≡ capacity
        → Fit g
        → (csv : Bytes) × (measurements : List T) × (w' : W) × (g' : G) × (export_measurements
              my_cache wkld duration show nreq w g
            ≡ ok (csv, w', g'))
          × (lines csv ≡ text "latency" ∷ map show measurements)
          × (length measurements ≡ nreq)
          × v.Ready w'
    unfolding export_measurements
    export_measurements_lem nreq small ready same fit =
        let (m, w', g', ran, measured, hits, gets, live, ready', fit') =
          baseline_latencies_lem contract feeds duration nreq small ready same fit in
        (
          text "latency\n" ++ csv_lines show m.measurements,
          m.measurements,
          w',
          g',
          rw ran refl,
          lines-append (text "latency") (csv_lines show m.measurements) refl
              ∙ ap (◌∷◌ (text "latency")) (lines-csv m.measurements),
          measured,
          ready',
        )
