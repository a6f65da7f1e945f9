-- ===== src/CacheLib/Agrees/Rooms.antt =====
-- The loop of `set` that makes room, against that of the specification.
use cs389hw.Shared.{
  ℕ, zero, suc, ◌+◌, ◌≤◌, ◌<◌, ◌^◌, ◌≡◌, refl, sym, ap, subst, ◌∙◌, arith, true, false, List, [],
  ◌∷◌, ◌++◌, Key, Result, ok, stop, assert_failed, ◌>>=◌, bytes_eq, eq_iff, is_some, length, ltb,
  Bool-cases, inl, inr,
}
use cs389hw.Evictor.{Evictor, IsPolicy}
use cs389hw.Cache.Bounded
use cs389hw.Cache.Bounded.{Bounded, over, forget}
use cs389hw.CacheLib
use cs389hw.CacheLib.{Impl}
use cs389hw.CacheLib.Valid.{IsValid, size_of}
use cs389hw.CacheLib.Room.{
  change, Dropped, Dropped-nil, Dropped-append, evict_one_lem, evict_one_empty,
}
use cs389hw.CacheLib.Loop.{stop_here, go_on, step}
use cs389hw.CacheLib.Agrees.{Sees, Sees-forget, over_lem}

-- How the two loops end: both with room, or both with the failed assertion.
pub data Makes {S : Type 0} {ev : Evictor S} (P : IsPolicy ev) (s : Impl S) (key : Key) (size : ℕ)
    : Result (Impl S) → Result Bounded → Type 0 where
  roomy :
      {s' : Impl S} {b : Bounded} (d : List Key)
      → IsValid P s' b.order
      → Sees s' b
      → Dropped s s' d
      → s'.current_mem + size ≤ s'.my_maxmem + size_of s' key
      → Makes P s key size (ok s') (ok b)
  empty : Makes P s key size (stop assert_failed) (stop assert_failed)

module _ {S : Type 0} {ev : Evictor S} (P : IsPolicy ev) (key : Key) (size : ℕ) where
  -- What holds from a state with fewer keys holds from the one before.
  earlier :
      {s s₁ : Impl S} (d : List Key) {r : Result (Impl S)} {q : Result Bounded}
      → Dropped s s₁ d
      → Makes P s₁ key size r q
      → Makes P s key size r q
  earlier d e (roomy d' valid sees e' fits) = roomy (d ++ d') valid sees (Dropped-append e e') fits
  earlier d e empty = empty

  module _ {s : Impl S} {l : List Key} {a : Bounded} (h : IsValid P s l) (sees : Sees s a)
      (wide : s.current_mem + size ≤ s.my_maxmem + s.my_maxmem + size_of s key) where
    in_range : s.current_mem + size < 2 ^ 31 + size_of s key
    in_range = omega (arith, h.sound.small)

    pub stays :
        (n : ℕ)
        → over key size a ≡ false
        → Makes P s key size
            (CacheLib.make_room ev (suc n) key size (change s key size) s)
            (ok (record a { order = l }))
    stays n room =
        let done : ltb (s.my_maxmem + size_of s key) (s.current_mem + size) ≡ false =
          over_lem h.sound sees key size ∙ room in
        subst (λ r. Makes P s key size r (ok (record a { order = l })))
          (sym (stop_here P key size h n in_range done))
          (roomy [] h
            (record {
              bound = sees.bound;
              used = sees.used;
              values = sees.values;
              evicts = sees.evicts;
            })
            (Dropped-nil s) (ground arith))

  pub loop_lem :
      (n : ℕ) (l : List Key) {s : Impl S} {a : Bounded}
      → IsValid P s l
      → is_some s.my_evictor ≡ true
      → Sees s a
      → s.current_mem + size ≤ s.my_maxmem + s.my_maxmem + size_of s key
      → size < 2 ^ 31
      → length l < n
      → Makes P s key size
          (CacheLib.make_room ev n key size (change s key size) s)
          (Bounded.make_room key size l a)
  unfolding Bounded.make_room
  loop_lem zero l h on sees wide small enough = absurd (omega arith)
  loop_lem (suc n) [] {s} {a} h on sees wide small enough = elim (Bool-cases (over key size a)) [
    | inr room ↦ rw room (stays h sees wide n room)
    | inl full ↦
        let more : ltb (s.my_maxmem + size_of s key) (s.current_mem + size) ≡ true =
          over_lem h.sound sees key size ∙ full in
        rw full (
          subst (λ r. Makes P s key size r (stop assert_failed))
            (sym (
              go_on P key size h n (in_range h sees wide) more
              ∙ ap (λ x. x >>= λ (c, s'). CacheLib.make_room ev n key size c s')
                  (evict_one_empty P key size (change s key size) h on)))
            empty)
  ]
  loop_lem (suc n) (v ∷ l) {s} {a} h on sees wide small enough =
      elim (Bool-cases (over key size a)) [
        | inr room ↦ rw room (stays h sees wide n room)
        | inl full ↦
            let more : ltb (s.my_maxmem + size_of s key) (s.current_mem + size) ≡ true =
              over_lem h.sound sees key size ∙ full in
            let (s₁, run, one) = evict_one_lem P key size h on small in
            let bound = one.dropped.same_bound in
            let less = one.less in
            let wide₁ : s₁.current_mem + size ≤ s₁.my_maxmem + s₁.my_maxmem + size_of s₁ key =
              ground (arith, one.dropped.entries key, eq_iff key v) in
            let rest =
              loop_lem n l one.valid (one.dropped.same_evictor ∙ on)
                (Sees-forget h.sound sees v one.dropped less) wide₁ small (omega arith) in
            rw full (
              subst (λ r. Makes P s key size r (Bounded.make_room key size l (forget v a)))
                (sym (step P key size n v h (in_range h sees wide) more run refl))
                (earlier (v ∷ []) one.dropped rest))
      ]
