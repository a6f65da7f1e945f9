-- ===== src/Library/Threads/Progress.antt =====
-- cache_lib.cc: whether a thread that waits for the mutex can get it.
use cs389hw.Shared.{
  Bool, ℕ, ◌≡◌, refl, ap, ◌∙◌, arith, true, false, none, some, Result, Stop, ok, stop, Bytes, ◌==◌,
  nat_eq, eq_iff, eq_refl, Bool-cases, Option-cases, ◌⊎◌, inl, inr,
}
use cs389hw.Memory.{Allocator}
use cs389hw.Evictor.{Evictor}
use cs389hw.CacheLib.{Impl}
use cs389hw.Cache.{Call}
use cs389hw.Library.Threads.{
  Returned, section, Place, outside, waiting, entered, working, touching, evictor_locks,
  evictor_unlocks, leaving, Shared, Step, calls, locks, looks, works, unlocks, Reach, begins, later,
}
use cs389hw.Library.Threads.Exclusion.{inside, mutual_exclusion}

module _ {W : Type 0} (body : Call → W → Result (Returned × W)) where
  -- What follows a state.
  pub data Steps (s : Shared W) : Shared W → Type 0 where
    stay : Steps s s
    more : {t u : Shared W} → Steps s t → Step body t u → Steps s u

  -- A thread is in its section, and the section fails on what it has seen.
  abbrev pub Fails : Shared W → Type 0
  Fails s =
      (i : ℕ) × (call : Call) × (seen : W) × (e : Stop) × (s.place i ≡ working call seen)
      × (body call seen ≡ stop e)

  -- The thread can get the mutex, or a section fails.
  abbrev pub Gets : ℕ → Call → Shared W → Type 0
  Gets j call s = (t : Shared W) × Steps s t × ((t.place j ≡ entered call) ⊎ Fails t)

module _ {W : Type 0} {body : Call → W → Result (Returned × W)} where
  Steps-append : {s t u : Shared W} → Steps body s t → Steps body t u → Steps body s u
  Steps-append a stay = a
  Steps-append a (more b step) = more (Steps-append a b) step

  -- Who has the mutex is in a section.
  Step-held :
      {s t : Shared W}
      → Step body s t
      → ((i : ℕ) → s.mutex ≡ some i → inside (s.place i) ≡ true)
      → (i : ℕ) → t.mutex ≡ some i
      → inside (t.place i) ≡ true
  Step-held {s} (calls j call at) h i e = ground (arith, eq_iff i j, h i e, at)
  Step-held {s} (locks j call at free) h i e = ground (arith, eq_refl j)
  Step-held {s} (looks j call at) h i e = ground (arith, eq_iff i j, h i e)
  Step-held {s} (evictor_locks j call seen at free) h i e = ground (arith, eq_iff i j, h i e)
  Step-held {s} (evictor_unlocks j call seen at) h i e = ground (arith, eq_iff i j, h i e)
  Step-held {s} (works j call seen reply after at ran) h i e = ground (arith, eq_iff i j, h i e)
  Step-held {s} (unlocks j at) h i e = cc

  Reach-held :
      {w : W} {s : Shared W}
      → Reach body w s
      → (i : ℕ) → s.mutex ≡ some i
      → inside (s.place i) ≡ true
  Reach-held begins i e = cc
  Reach-held (later r step) i e = Step-held step (Reach-held r) i e

-- Another thread than the one that waits.
-- Whether a thread is in the evictor.
abbrev in_evictor : {W : Type 0} → Place W → Bool
in_evictor outside = false
in_evictor (waiting call) = false
in_evictor (entered call) = false
in_evictor (working call seen) = false
in_evictor (touching call seen) = true
in_evictor leaving = false

inside_evictor : {W : Type 0} (p : Place W) → in_evictor p ≡ true → inside p ≡ true
inside_evictor outside e = cc
inside_evictor (waiting call) e = cc
inside_evictor (entered call) e = cc
inside_evictor (working call seen) e = cc
inside_evictor (touching call seen) e = refl
inside_evictor leaving e = cc

module _ {W : Type 0} {body : Call → W → Result (Returned × W)} where
  -- Who has the evictor's mutex is in the evictor.
  Step-touching :
      {s t : Shared W}
      → Step body s t
      → ((i : ℕ) → s.evictor_mtx ≡ some i → in_evictor (s.place i) ≡ true)
      → (i : ℕ) → t.evictor_mtx ≡ some i
      → in_evictor (t.place i) ≡ true
  Step-touching {s} (calls j call at) h i e = ground (arith, eq_iff i j, h i e, at)
  Step-touching {s} (locks j call at free) h i e = ground (arith, eq_iff i j, h i e, at)
  Step-touching {s} (looks j call at) h i e = ground (arith, eq_iff i j, h i e, at)
  Step-touching {s} (evictor_locks j call seen at free) h i e = ground (arith, eq_refl j)
  Step-touching {s} (evictor_unlocks j call seen at) h i e = cc
  Step-touching {s} (works j call seen reply after at ran) h i e =
      ground (arith, eq_iff i j, h i e, at)
  Step-touching {s} (unlocks j at) h i e = ground (arith, eq_iff i j, h i e, at)

  Reach-touching :
      {w : W} {s : Shared W}
      → Reach body w s
      → (i : ℕ) → s.evictor_mtx ≡ some i
      → in_evictor (s.place i) ≡ true
  Reach-touching begins i e = cc
  Reach-touching (later r step) i e = Step-touching step (Reach-touching r) i e

  -- A thread that works finds the evictor's mutex free.
  evictor_free :
      {w : W} {s : Shared W} (i : ℕ) (call : Call) (seen : W)
      → Reach body w s
      → s.place i ≡ working call seen
      → s.evictor_mtx ≡ none
  evictor_free {s} i call seen r at = elim (Option-cases s.evictor_mtx) [
    | inl free ↦ free
    | inr (k, held) ↦
        let there = Reach-touching r k held in
        let same : i ≡ k =
          mutual_exclusion r i k (ap inside at) (inside_evictor (s.place k) there) in
        let here : in_evictor (s.place i) ≡ true = ap (λ n. in_evictor (s.place n)) same ∙ there in
        absurd (ground (arith, here, ap in_evictor at))
  ]

apart :
    {W : Type 0} (j : ℕ) (call : Call) (s : Shared W) (i : ℕ)
    → inside (s.place i) ≡ true
    → s.place j ≡ waiting call
    → (j == i) ≡ false
apart j call s i e at = elim (Bool-cases (j == i)) [
  | inl here ↦
      let p : j ≡ i = (eq_iff j i).0 here in
      let there : inside (s.place j) ≡ true = ap (λ k. inside (s.place k)) p ∙ e in
      absurd (ground (arith, there, ap inside at))
  | inr there ↦ there
]

module _ {W : Type 0} {body : Call → W → Result (Returned × W)} (j : ℕ) (call : Call) where
  after : {s t : Shared W} → Steps body s t → Gets body j call t → Gets body j call s
  after a (u, b, h) = (u, Steps-append a b, h)

  gets_free : (s : Shared W) → s.place j ≡ waiting call → s.mutex ≡ none → Gets body j call s
  gets_free s at free = (_, more stay (locks j call at free), inl (ground (arith, eq_refl j)))

  gets_leaving :
      (s : Shared W) (i : ℕ) → s.place i ≡ leaving → s.place j ≡ waiting call → Gets body j call s
  gets_leaving s i there at =
      let differ = apart j call s i (ap inside there) at in
      after (more stay (unlocks i there)) (gets_free _ (ground (arith, differ, at)) refl)

  gets_working :
      (s : Shared W) (i : ℕ) (other : Call) (seen : W) (r : Result (Returned × W))
      → body other seen ≡ r
      → s.place i ≡ working other seen
      → s.place j ≡ waiting call
      → Gets body j call s
  gets_working s i other seen (stop e) ran there at = (s, stay, inr (i, other, seen, e, there, ran))
  gets_working s i other seen (ok (reply, w)) ran there at =
      let differ = apart j call s i (ap inside there) at in
      after (more stay (works i other seen reply w there ran))
        (gets_leaving _ i (ground (arith, eq_refl i)) (ground (arith, differ, at)))

  gets_entered :
      (s : Shared W) (i : ℕ) (other : Call)
      → s.place i ≡ entered other
      → s.place j ≡ waiting call
      → Gets body j call s
  gets_entered s i other there at =
      let differ = apart j call s i (ap inside there) at in
      after (more stay (looks i other there)) (
        gets_working _ i other s.state (body other s.state) refl (ground (arith, eq_refl i))
          (ground (arith, differ, at)))

  gets_held :
      (s : Shared W) (i : ℕ) (p : Place W)
      → s.place i ≡ p
      → inside p ≡ true
      → s.place j ≡ waiting call
      → Gets body j call s
  gets_held s i outside there e at = cc
  gets_held s i (waiting other) there e at = cc
  gets_held s i (entered other) there e at = gets_entered s i other there at
  gets_held s i (working other seen) there e at =
      gets_working s i other seen (body other seen) refl there at
  gets_held s i (touching other seen) there e at =
      let differ = apart j call s i (ap inside there) at in
      after (more stay (evictor_unlocks i other seen there)) (
        gets_working _ i other seen (body other seen) refl (ground (arith, eq_refl i))
          (ground (arith, differ, at)))
  gets_held s i leaving there e at = gets_leaving s i there at

pub no_deadlock :
    {S : Type 0} (ev : Evictor S) (alloc : Allocator Bytes) (rounds : Impl S → ℕ) {w : Impl S}
    {s : Shared (Impl S)}
    → Reach (section ev alloc rounds) w s
    → ((j : ℕ) (call : Call) → s.place j ≡ waiting call → Gets (section ev alloc rounds) j call s)
      × ((i : ℕ) (call : Call) (seen : Impl S)
          → s.place i ≡ working call seen
          → s.evictor_mtx ≡ none)
no_deadlock ev alloc rounds {s} r = (
  λ j call at. elim (Option-cases s.mutex) [
    | inl free ↦ gets_free j call s at free
    | inr (i, held) ↦ gets_held j call s i (s.place i) refl (Reach-held r i held) at
  ],
  λ i call seen at. evictor_free i call seen r at,
)
