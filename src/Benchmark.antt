-- ===== src/Benchmark.antt =====
-- benchmark.cc: the threads that measure, and `threaded_performance`.
--
-- A latency is the whole number of microseconds of `duration_cast`. The threads push into one
-- vector under a mutex, in any order. `std::sort` and the index `int(double(req_size) * 0.95)` are
-- parameters; the mean throughput is given by its two terms, the number of requests and the sum.
pub mod Sorted
pub mod Measured
pub mod Thread
use cs389hw.Shared.{
  ℕ, zero, suc, ◌+◌, ◌-◌, ◌*◌, Bool, true, false, not, List, [], ◌∷◌, ◌++◌, Result, ok, stop,
  bad_access, assert_failed, assert, Bytes, ◌>>=◌, ◌>>◌, ◌==◌, nat_eq, if◌then◌else◌, leb, length,
}
use cs389hw.Shared.Int.{ℤ, pos, negsuc, mul_int}

-- The requests that each thread has still to make, and the vector.
pub record Pool : Type 0 where
  pub remaining : List ℕ
  pub measurements : List ℕ

-- One round of the loop of `baseline_latencies`, in one of the threads.
pub data Round : Pool → Pool → Type 0 where
  push :
      (before after : List ℕ) (n duration : ℕ) (ms : List ℕ)
      → Round
          (record { remaining = before ++ suc n ∷ after; measurements = ms })
          (record { remaining = before ++ n ∷ after; measurements = ms ++ duration ∷ [] })

abbrev pub repeat : ℕ → ℕ → List ℕ
repeat zero a = []
repeat (suc n) a = a ∷ repeat n a

-- The states that the threads reach after they have been started.
pub data Runs (nthread nreq : ℕ) : Pool → Type 0 where
  started : Runs nthread nreq (record { remaining = repeat nthread nreq; measurements = [] })
  more : {p q : Pool} → Runs nthread nreq p → Round p q → Runs nthread nreq q

-- `join` of all threads returns when none has a round left.
abbrev pub Joined : List ℕ → Type 0
Joined [] = Unit
Joined (zero ∷ ns) = Joined ns
Joined (suc n ∷ ns) = ⊥

-- `measurements[i]`
unfoldable pub element : List ℕ → ℕ → Result ℕ
element [] i = stop bad_access
element (d ∷ ds) zero = ok d
element (d ∷ ds) (suc i) = element ds i

-- The loop that adds up the measurements.
abbrev pub sum : List ℕ → ℕ
sum [] = 0
sum (d ∷ ds) = d + sum ds

pub record Performance : Type 0 where
  pub latency_95 : ℕ
  pub requests : ℕ
  pub total_time : ℕ

-- `threaded_performance` from the assertion on the number of measurements
unfoldable pub measure : (List ℕ → List ℕ) → ℕ → ℤ → List ℕ → Result Performance
unfolding element
measure sort index (negsuc n) measurements = stop assert_failed
measure sort index (pos req_size) measurements = do
  assert (length measurements == req_size)
  if req_size == 0 then ok (record { latency_95 = 0; requests = 0; total_time = 0 }) else do
    let sorted = sort measurements
    latency_95 ← element sorted (if leb req_size index then req_size - 1 else index)
    assert (not (sum sorted == 0))
    ok (record { latency_95 = latency_95; requests = req_size; total_time = sum sorted })

-- `threaded_performance`, from what the threads have measured when they have been joined.
unfoldable pub threaded_performance : (List ℕ → List ℕ) → ℕ → ℤ → ℤ → List ℕ → Result Performance
unfolding measure
threaded_performance sort index nthread nreq measurements = do
  req_size ← mul_int nreq nthread
  measure sort index req_size measurements

-- `main`: `threads` starts the threads with their arguments, joins them and gives the vector. The
-- ratio of sets to deletions is read as an `int`, too.
unfoldable pub main :
    (Bytes → Result ℤ)
    → (ℤ → ℤ → ℤ → ℤ → List ℕ)
    → (List ℕ → List ℕ)
    → ℕ
    → List Bytes
    → Result Performance
unfolding threaded_performance
main atoi threads sort index (name ∷ a ∷ b ∷ c ∷ d ∷ []) = do
  nthread ← atoi a
  nreq ← atoi b
  set_del_ratio ← atoi c
  key_pool_size ← atoi d
  threaded_performance sort index nthread nreq (threads nthread nreq set_del_ratio key_pool_size)
main atoi threads sort index args = stop assert_failed
