-- ===== src/Examples/Loads.antt =====
-- workload_generator.cc, statistics.cc and benchmark.cc at a generator that draws small sizes.
use cs389hw.Shared.{
  ℕ, ◌+◌, ◌*◌, ◌-◌, ◌<◌, ◌≤◌, ◌≡◌, ◌≢◌, refl, arith, true, some, List, [], ◌∷◌, map, Key, Bytes,
  bytes_eq, nat_eq, ok, length, text, contains, leb, ltb, ◌==◌,
}
use cs389hw.Shared.Int.{pos}
use cs389hw.Fifo.{FifoEvictor}
use cs389hw.Fifo.Order.{policy}
use cs389hw.CacheLib.{Impl as Store}
use cs389hw.Server.Answers.{c_string}
use cs389hw.Client.Connection.{Connection}
use cs389hw.Client.Implements.{IsReady, view, Name, CString}
use cs389hw.Workload.{random_key}
use cs389hw.Shared.{Bool, Bool-cases, inl, inr, eq_iff, ◌^◌, ap, ◌&&◌}
use cs389hw.Workload.Floats.{Floats, Engine}
use cs389hw.Workload.Generator.{
  Impl, key_size_dist, val_size_dist, create, fill_pool, prompt_key, generator,
}
use cs389hw.Workload.Texts.{Sendable}
use cs389hw.Workload.Drawn.{IsWell, create-IsWell, prompt_key_lem}
use cs389hw.Requests.{got}
use cs389hw.Requests.Answered.{Feeds}
use cs389hw.Requests.Generated.{IsFit, generator-Feeds}
use cs389hw.Statistics.{Tally, fresh, after, baseline_latencies, export_measurements}
use cs389hw.Statistics.Counted.{baseline_latencies_lem}
use cs389hw.Statistics.Csv.{lines, export_measurements_lem}
use cs389hw.Benchmark.Thread
use cs389hw.Benchmark.Thread.{thread_lem}
use cs389hw.Examples.Caches.{started, started-IsReady, to_started, to_started-Contract}
use cs389hw.Examples.Programs.{rand}

-- Whole numbers in place of floating-point numbers; every size is 2.
abbrev whole : Floats ℕ
whole = record {
  decimal = λ m k. m;
  of_nat = λ n. n;
  add = λ a b. a + b;
  sub = λ a b. a - b;
  mul = λ a b. a * b;
  div = λ a b. a;
  pow = λ a b. a;
  neg = λ a. a;
  log = λ a. a;
  round = λ a. a;
  le = leb;
  lt = ltb;
  same = λ a b. a == b;
  to_size_type = λ a. 2;
  to_size_t = λ a. a;
}

-- An engine that counts.
abbrev counter : Engine ℕ ℕ
counter = record { uniform = λ e. (e + 1, e + 1); discrete = λ ws e. (0, e + 1) }

never_empty : (e : ℕ) → (key_size_dist whole counter e).0 ≢ 0
unfolding key_size_dist
never_empty e = ground arith

abbrev loaded : Impl ℕ ℕ
loaded = create whole counter rand 10 3 0 0

create-IsWell_example : IsWell loaded
create-IsWell_example =
    create-IsWell whole counter rand never_empty 10 3 0 0 (omega arith) (omega arith)

loaded-IsWell : IsWell loaded
loaded-IsWell = create-IsWell whole counter rand never_empty 10 3 0 0 (omega arith) (omega arith)

prompt_key_lem_example :
    (k : Key) × (e : ℕ) × (prompt_key whole counter rand loaded
      ≡ ok (k, record loaded { generator = e }))
    × (contains k loaded.key_pool ≡ true)
    × Sendable k
    × (k ≢ [])
prompt_key_lem_example = prompt_key_lem whole counter rand loaded-IsWell

small_values : (e : ℕ) → (val_size_dist whole counter e).0 < 100
unfolding val_size_dist
small_values e = omega arith

abbrev all_short : List Key → Bool
all_short [] = true
all_short (k ∷ ks) = ltb (length k) 9 && all_short ks

all_short_lem :
    (ks : List Key) → all_short ks ≡ true → (k : Key) → contains k ks ≡ true → length k < 2 ^ 29
all_short_lem [] h k inside = cc
all_short_lem (j ∷ ks) h k inside = elim (Bool-cases (k == j)) [
  | inl here ↦
      let same = ap length ((eq_iff k j).0 here) in
      let less : length j < 9 = ground (arith, h) in omega (arith, same, less)
  | inr there ↦ all_short_lem ks (ground (arith, h)) k (ground (arith, inside, there))
]

loaded_short : all_short loaded.key_pool ≡ true
unfolding create fill_pool random_key key_size_dist
loaded_short = refl

loaded-IsFit : IsFit loaded
loaded-IsFit = record { well = loaded-IsWell; short = all_short_lem loaded.key_pool loaded_short }

client_key : (k : Key) → Sendable k → k ≢ [] → length k < 2 ^ 29 → Name k
client_key k sendable real short = record {
  clean = record { printable = sendable.printable; unclosed = sendable.unclosed };
  unslashed = sendable.unslashed;
  real = real;
  short = short;
}

client_value : (val : Bytes) → Sendable val → CString (c_string val)
client_value val sendable = record {
  body = val;
  clean = record { printable = sendable.printable; unclosed = sendable.unclosed };
  terminated = refl;
}

feeds : Feeds (generator whole counter rand) (view policy) 100 IsFit
feeds =
    generator-Feeds whole counter rand (view policy) 100 (omega arith) small_values client_key
      client_value

abbrev duration : ℕ → ℕ
duration i = i + 5

baseline_latencies_lem_example :
    (m : Tally ℕ) × (w : Connection (Store FifoEvictor)) × (g : Impl ℕ ℕ) × (baseline_latencies
        to_started
        (generator whole counter rand)
        duration
        7
        started
        loaded
      ≡ ok (m, w, g))
    × (length m.measurements ≡ 7)
    × (m.hits ≤ m.count)
    × (m.count ≤ 7)
    × (m.live ≤ 100000)
    × IsReady policy w
    × IsFit g
baseline_latencies_lem_example =
    baseline_latencies_lem to_started-Contract feeds duration 7 (omega arith) started-IsReady refl
      loaded-IsFit

export_measurements_lem_example :
    (csv : Bytes) × (measurements : List ℕ) × (w : Connection (Store FifoEvictor)) × (g : Impl ℕ ℕ)
    × (export_measurements to_started
          (generator whole counter rand)
          duration
          (λ d. text "0.5")
          7
          started
          loaded
        ≡ ok (csv, w, g))
    × (lines csv ≡ text "latency" ∷ map (λ d. text "0.5") measurements)
    × (length measurements ≡ 7)
    × IsReady policy w
export_measurements_lem_example =
    export_measurements_lem (λ d. text "0.5") (λ d. refl) to_started-Contract feeds duration 7
      (omega arith) started-IsReady refl loaded-IsFit

thread_lem_example :
    (pushed : List ℕ) × (w : Connection (Store FifoEvictor)) × (g : Impl ℕ ℕ)
    × (Thread.baseline_latencies to_started
          (generator whole counter rand)
          duration
          ok
          (λ w. w)
          (pos 7)
          started
          loaded
        ≡ ok (pushed, w, g))
    × (length pushed ≡ 7)
    × IsReady policy w
thread_lem_example =
    thread_lem to_started-Contract feeds duration ok (λ w. w) (pos 7) refl started-IsReady refl
      loaded-IsFit

-- A value that `get` finds in the warm-up is not deleted.
leak : after 0 5 (got (some (text "a"))) (fresh {T = ℕ}) ≡ ok (record fresh { live = 1 })
unfolding after
leak = refl
