-- ===== src/Examples/Programs.antt =====
-- cache_server.cc: the command line, the listener and `main`; workload_generator.cc; benchmark.cc.
use cs389hw.Benchmark.{Runs, started, more, push, threaded_performance}
use cs389hw.Benchmark.Measured.{threaded_performance_lem}
use cs389hw.Benchmark.Sorted.{AtLeast, Ascending, HasRank, Sorts, total}
use cs389hw.Shared.{Bool-cases, inl, inr, ◌≤◌}
use cs389hw.Shared.{
  leb, nat_eq, if◌then◌else◌, ℕ, ◌+◌, ◌≡◌, refl, arith, Bool, true, false, some, List, [], ◌∷◌,
  ◌++◌, Result, ok, stop, bad_access, nat_eq, text,
}
use cs389hw.Shared.Int.{pos}
use cs389hw.Shared.Decimal.{to_text}
use cs389hw.Arguments.{Params, opt_t, is_ip, default_params, set_params}
use cs389hw.Arguments.Formats.{is_ip_lem}
use cs389hw.Arguments.Settings.{set_params_number}
use cs389hw.Listener.{Errors, accepts, create, run, accepts_lem, sockets, errors, count}
use cs389hw.CacheLib
use cs389hw.CacheLib.{Impl}
use cs389hw.CacheLib.Blocks.{nil}
use cs389hw.CacheLib.Valid.{IsSound}
use cs389hw.Lru
use cs389hw.Lru.{LruEvictor}
use cs389hw.Main.{main, main_faults}
use cs389hw.Main.Service.{try_block}

is_ip_lem_example : is_ip (text "1.2") ≡ true
is_ip_lem_example = is_ip_lem (text "1.2")

abbrev three_threads : Params
three_threads = record default_params { threads = 3 }

set_params_number_example :
    set_params ([] ++ (opt_t, some (to_text 3)) ∷ []) default_params ≡ set_params [] three_threads
unfolding set_params
set_params_number_example =
    set_params_number opt_t 3 [] [] default_params default_params refl (omega arith) refl

abbrev port_in_use : Errors
port_in_use = record {
  open_error = false;
  option_error = false;
  bind_error = true;
  listen_error = false;
}

abbrev completions : List Bool
completions = false ∷ false ∷ true ∷ []

accepts_lem_example :
    ((accepts completions (run (create port_in_use))).accepting ≡ true)
    × ((accepts completions (run (create port_in_use))).sessions ≡ sockets completions)
    × (count (accepts completions (run (create port_in_use))).failures ≡ 1 + errors completions)
accepts_lem_example = accepts_lem port_in_use completions

fresh-IsSound : IsSound (CacheLib.create {S = LruEvictor} 300000 75 (some Lru.create))
unfolding CacheLib.create
fresh-IsSound = record {
  owned = nil;
  accounted = refl;
  bounded = omega arith;
  loads = refl;
  small = omega arith;
}

abbrev block : Params → Impl LruEvictor → Result (Bool × Impl LruEvictor)
block = try_block (λ s. true) port_in_use (λ threads l cache. ok (false, cache))

main_faults_example : main 1 block [] ≡ stop bad_access
unfolding set_params CacheLib.create try_block
main_faults_example =
    main_faults 1 block [] default_params false (CacheLib.create 300000 75 (some Lru.create)) refl
      refl fresh-IsSound refl (omega arith)

abbrev pub rand : ℕ → ℕ
rand i = i + 83

-- Two threads, one request each; the second thread is the first to push.
two_threads-Runs : Runs 2 1 (record { remaining = 0 ∷ 0 ∷ []; measurements = 5 ∷ 3 ∷ [] })
two_threads-Runs = more (more started (push (1 ∷ []) [] 0 5 [])) (push [] (0 ∷ []) 0 3 (5 ∷ []))

abbrev insert : ℕ → List ℕ → List ℕ
insert a [] = a ∷ []
insert a (d ∷ ds) = let rest = insert a ds in if leb a d then a ∷ d ∷ ds else d ∷ rest

abbrev insertion_sort : List ℕ → List ℕ
insertion_sort [] = []
insertion_sort (d ∷ ds) = insert d (insertion_sort ds)

total-insert : (f : ℕ → ℕ) (a : ℕ) (ds : List ℕ) → total f (insert a ds) ≡ f a + total f ds
total-insert f a [] = refl
total-insert f a (d ∷ ds) = ground (arith, total-insert f a ds)

total-insertion_sort : (f : ℕ → ℕ) (ds : List ℕ) → total f (insertion_sort ds) ≡ total f ds
total-insertion_sort f [] = refl
total-insertion_sort f (d ∷ ds) =
    omega (arith, total-insert f d (insertion_sort ds), total-insertion_sort f ds)

AtLeast-weaken : (x y : ℕ) (ds : List ℕ) → x ≤ y → AtLeast y ds → AtLeast x ds
AtLeast-weaken x y [] h least = tt
AtLeast-weaken x y (d ∷ ds) h (now, later) = (omega (arith, h, now), AtLeast-weaken x y ds h later)

AtLeast-insert : (x a : ℕ) (ds : List ℕ) → x ≤ a → AtLeast x ds → AtLeast x (insert a ds)
AtLeast-insert x a [] h least = (h, tt)
AtLeast-insert x a (d ∷ ds) h (now, later) = elim (Bool-cases (leb a d)) [
  | inl below ↦ rw below (h, (now, later))
  | inr above ↦ rw above (now, AtLeast-insert x a ds h later)
]

Ascending-insert : (a : ℕ) (ds : List ℕ) → Ascending ds → Ascending (insert a ds)
Ascending-insert a [] h = (tt, tt)
Ascending-insert a (d ∷ ds) (first, h) = elim (Bool-cases (leb a d)) [
  | inl below ↦
      let le : a ≤ d = ground (arith, below) in
      rw below ((le, AtLeast-weaken a d ds le first), (first, h))
  | inr above ↦
      let le : d ≤ a = ground (arith, above) in
      rw above (AtLeast-insert d a ds le first, Ascending-insert a ds h)
]

Ascending-insertion_sort : (ds : List ℕ) → Ascending (insertion_sort ds)
Ascending-insertion_sort [] = tt
Ascending-insertion_sort (d ∷ ds) =
    Ascending-insert d (insertion_sort ds) (Ascending-insertion_sort ds)

insertion_sort-Sorts : Sorts insertion_sort
insertion_sort-Sorts = record {
  same_elements = total-insertion_sort;
  ascending = Ascending-insertion_sort;
}

threaded_performance_lem_example :
    (d : ℕ) × (threaded_performance insertion_sort 1 (pos 2) (pos 1) (5 ∷ 3 ∷ [])
      ≡ ok (record { latency_95 = d; requests = 2; total_time = 8 }))
    × HasRank 1 d (5 ∷ 3 ∷ [])
threaded_performance_lem_example =
    threaded_performance_lem insertion_sort-Sorts 1 two_threads-Runs tt (omega arith) (omega arith)
      (omega arith)
