-- ===== src/Benchmark/Measured.antt =====
-- benchmark.cc: the number of measurements, and the result of `threaded_performance`.
use cs389hw.Shared.{
  ℕ, zero, suc, ◌+◌, ◌-◌, ◌*◌, ◌^◌, ◌<◌, ◌≡◌, ◌≢◌, refl, arith, true, false, List, [], ◌∷◌, ◌++◌,
  ok, ◌==◌, nat_eq, if◌then◌else◌, leb, length, length-append,
}
use cs389hw.Shared.Int.{pos, checked}
use cs389hw.Benchmark.Sorted.{Sorts, HasRank, length-sort, sum-sort, element-HasRank}
use cs389hw.Benchmark.{
  Pool, push, repeat, Runs, started, more, Joined, element, sum, measure, threaded_performance,
}

sum-append : (xs ys : List ℕ) → sum (xs ++ ys) ≡ sum xs + sum ys
sum-append [] ys = omega arith
sum-append (x ∷ xs) ys = omega (arith, sum-append xs ys)

sum-repeat : (n a : ℕ) → sum (repeat n a) ≡ a * n
sum-repeat zero a = omega arith
sum-repeat (suc n) a = ground (arith, sum-repeat n a)

Joined-sum : (ns : List ℕ) → Joined ns → sum ns ≡ 0
Joined-sum [] h = refl
Joined-sum (zero ∷ ns) h = omega (arith, Joined-sum ns h)
Joined-sum (suc n ∷ ns) h = absurd h

-- In whatever order the threads push, every request is still to be made or has been measured.
all_measured :
    {nthread nreq : ℕ} {p : Pool}
    → Runs nthread nreq p
    → length p.measurements + sum p.remaining ≡ nreq * nthread
all_measured {nthread} {nreq} started = omega (arith, sum-repeat nthread nreq)
all_measured (more r (push before after n duration ms)) = omega (
  arith,
  all_measured r,
  sum-append before (suc n ∷ after),
  sum-append before (n ∷ after),
  length-append ms (duration ∷ []),
)

element_lem : (ds : List ℕ) (i : ℕ) → i < length ds → (d : ℕ) × (element ds i ≡ ok d)
unfolding element
element_lem [] i h = absurd (omega arith)
element_lem (d ∷ ds) zero h = (d, refl)
element_lem (d ∷ ds) (suc i) h = element_lem ds i (omega arith)

-- Once the threads have been joined, `threaded_performance` returns: the number of measurements is
-- as asserted, and the latency is the measurement that stands, from low to high, at the index that
-- is computed for the percentile, or at the last one if the index is not below the number of
-- requests. There is at least one request, their number is an `int`, the measurements do not add up
-- to 0, which is asserted, and `std::sort` does what it documents.
pub threaded_performance_lem :
    {sort : List ℕ → List ℕ}
    → Sorts sort
    → (index : ℕ) {nthread nreq : ℕ} {p : Pool} → Runs nthread nreq p
    → Joined p.remaining
    → 0 < nreq * nthread
    → nreq * nthread < 2 ^ 31
    → sum p.measurements ≢ 0
    → (d : ℕ) × (threaded_performance sort index (pos nthread) (pos nreq) p.measurements
        ≡ ok
            (record { latency_95 = d; requests = nreq * nthread; total_time = sum p.measurements }))
      × HasRank (if leb (nreq * nthread) index then nreq * nthread - 1 else index) d p.measurements
unfolding threaded_performance measure
threaded_performance_lem {sort} sorts index {nthread} {nreq} {p} runs joined some_request int time =
    let size = nreq * nthread in
    let ms = p.measurements in
    let all : length ms ≡ size = omega (arith, all_measured runs, Joined-sum p.remaining joined) in
    let i = if leb size index then size - 1 else index in
    let (d, found) = element_lem (sort ms) i (ground (arith, all, length-sort sorts ms)) in
    let fits : checked (pos size) ≡ ok (pos size) = ground arith in
    let counted : (length ms == size) ≡ true = ground (arith, all) in
    let some_ : (size == 0) ≡ false = ground arith in
    let slow : (sum ms == 0) ≡ false = ground (arith, time) in
    (
      d,
      rw (fits, counted, some_, found, sum-sort sorts ms, slow) refl,
      element-HasRank sorts d i ms found,
    )
