-- ===== src/Library/Threads/Exclusion.antt =====
-- What the mutex of cache_lib.cc is for.
use cs389hw.Shared.{
  ℕ, ◌≡◌, ap, sym, ◌∙◌, arith, subst, Bool, true, false, some, List, [], ◌∷◌, ◌++◌, Result, ok,
  Bytes, ◌==◌, nat_eq, eq_iff, Bool-cases, inl, inr,
}
use cs389hw.Memory.{Allocator}
use cs389hw.Evictor.{Evictor}
use cs389hw.CacheLib.{Impl}
use cs389hw.Cache.{Call}
use cs389hw.Library.Threads.{
  Returned, section, Place, outside, waiting, entered, working, touching, leaving, Shared, Step,
  calls, locks, evictor_locks, evictor_unlocks, looks, works, unlocks, Reach, begins, later,
  Replays, ends, runs,
}

-- Whether a thread is in a section.
abbrev pub inside : {W : Type 0} → Place W → Bool
inside outside = false
inside (waiting call) = false
inside (entered call) = true
inside (working call seen) = true
inside (touching call seen) = true
inside leaving = true

-- What a thread has seen is the state.
abbrev IsFresh : {W : Type 0} → W → Place W → Type 0
IsFresh w (working call seen) = seen ≡ w
IsFresh w (touching call seen) = seen ≡ w
IsFresh w p = Unit

record Inv {W : Type 0} (s : Shared W) : Type 0 where
  owned : (i : ℕ) → inside (s.place i) ≡ true → s.mutex ≡ some i
  fresh : (i : ℕ) → IsFresh s.state (s.place i)

outside-IsFresh : {W : Type 0} (w : W) (p : Place W) → inside p ≡ false → IsFresh w p
outside-IsFresh w outside h = tt
outside-IsFresh w (waiting call) h = tt
outside-IsFresh w (entered call) h = tt
outside-IsFresh w (working call seen) h = cc
outside-IsFresh w (touching call seen) h = cc
outside-IsFresh w leaving h = tt

module _ {W : Type 0} {s : Shared W} (h : Inv s) (i : ℕ) (here : inside (s.place i) ≡ true) where
  others_out : (j : ℕ) → (j == i) ≡ false → inside (s.place j) ≡ false
  others_out j there = elim (Bool-cases (inside (s.place j))) [
    | inl e ↦ absurd (ground (arith, h.owned i here, h.owned j e, eq_iff j i, there))
    | inr e ↦ e
  ]

  others-IsFresh : (j : ℕ) (w : W) → (j == i) ≡ false → IsFresh w (s.place j)
  others-IsFresh j w there = outside-IsFresh w (s.place j) (others_out j there)

module _ {W : Type 0} {body : Call → W → Result (Returned × W)} where
  Step-Inv : {s t : Shared W} → Step body s t → Inv s → Inv t
  Step-Inv {s} (calls i call at) h = record {
    owned = λ j e. ground (arith, eq_iff j i, h.owned j);
    fresh = λ j. ground (arith, eq_iff j i, h.fresh j);
  }
  Step-Inv {s} (locks i call at free) h = record {
    owned = λ j e. ground (arith, eq_iff j i, h.owned j);
    fresh = λ j. ground (arith, eq_iff j i, h.fresh j);
  }
  Step-Inv {s} (looks i call at) h = record {
    owned = λ j e. ground (arith, eq_iff j i, h.owned j);
    fresh = λ j. ground (arith, eq_iff j i, h.fresh j);
  }
  Step-Inv {s} (evictor_locks i call seen at free) h = record {
    owned = λ j e. ground (arith, eq_iff j i, h.owned j, h.owned i (ap inside at));
    fresh = λ j. elim (Bool-cases (j == i)) [
      | inl here ↦ rw here (subst (IsFresh s.state) at (h.fresh i))
      | inr there ↦ rw there (h.fresh j)
    ];
  }
  Step-Inv {s} (evictor_unlocks i call seen at) h = record {
    owned = λ j e. ground (arith, eq_iff j i, h.owned j, h.owned i (ap inside at));
    fresh = λ j. elim (Bool-cases (j == i)) [
      | inl here ↦ rw here (subst (IsFresh s.state) at (h.fresh i))
      | inr there ↦ rw there (h.fresh j)
    ];
  }
  Step-Inv {s} (works i call seen reply after at ran) h = record {
    owned = λ j e. ground (arith, eq_iff j i, h.owned j);
    fresh = λ j. elim (Bool-cases (j == i)) [
      | inl here ↦ rw here tt
      | inr there ↦ rw there (others-IsFresh h i (ap inside at) j after there)
    ];
  }
  Step-Inv {s} (unlocks i at) h = record {
    owned = λ j e. elim (Bool-cases (j == i)) [
      | inl here ↦ absurd (ground (arith, e, here))
      | inr there ↦
          let out = others_out h i (ap inside at) j there in absurd (ground (arith, e, there, out))
    ];
    fresh = λ j. ground (arith, eq_iff j i, h.fresh j);
  }

  Reach-Inv : {w : W} {s : Shared W} → Reach body w s → Inv s
  Reach-Inv begins = record { owned = λ i e. cc; fresh = λ i. tt }
  Reach-Inv (later r step) = Step-Inv step (Reach-Inv r)

  -- Two threads are never in their sections at the same time.
  pub mutual_exclusion :
      {w : W} {s : Shared W}
      → Reach body w s
      → (i j : ℕ) → inside (s.place i) ≡ true
      → inside (s.place j) ≡ true
      → i ≡ j
  mutual_exclusion r i j e e' = let h = Reach-Inv r in ground (arith, h.owned i e, h.owned j e')

  Replays-append :
      {done : List (Call × Returned)} {call : Call} {reply : Returned} {w seen after : W}
      → Replays body done w seen
      → body call seen ≡ ok (reply, after)
      → Replays body (done ++ (call, reply) ∷ []) w after
  Replays-append ends ran = runs ran ends
  Replays-append (runs step more) ran = runs step (Replays-append more ran)

  Step-Replays :
      {w : W} {s t : Shared W}
      → Step body s t
      → Inv s
      → Replays body s.done w s.state
      → Replays body t.done w t.state
  Step-Replays (calls i call at) h r = r
  Step-Replays (locks i call at free) h r = r
  Step-Replays (looks i call at) h r = r
  Step-Replays (evictor_locks i call seen at free) h r = r
  Step-Replays (evictor_unlocks i call seen at) h r = r
  Step-Replays {s = s} (works i call seen reply after at ran) h r =
      let same : seen ≡ s.state = subst (IsFresh s.state) at (h.fresh i) in
      Replays-append r (ap (body call) (sym same) ∙ ran)
  Step-Replays (unlocks i at) h r = r

  Reach-Replays : {w : W} {s : Shared W} → Reach body w s → Replays body s.done w s.state
  Reach-Replays begins = ends
  Reach-Replays (later r step) = Step-Replays step (Reach-Inv r) (Reach-Replays r)

-- Whatever the order in which threads move, the library's state is what the calls that have been
-- carried out make of the first state one after another, and each has returned what it returns
-- then: no call works on an outdated state.
pub linearizable :
    {S : Type 0} (ev : Evictor S) (alloc : Allocator Bytes) (rounds : Impl S → ℕ) {w : Impl S}
    {s : Shared (Impl S)}
    → Reach (section ev alloc rounds) w s
    → Replays (section ev alloc rounds) s.done w s.state
linearizable ev alloc rounds r = Reach-Replays r
