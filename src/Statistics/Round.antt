-- ===== src/Statistics/Round.antt =====
-- statistics.cc: what one round of `baseline_latencies` counts.
use cs389hw.Shared.{
  ℕ, ◌+◌, ◌-◌, ◌%◌, ◌^◌, ◌<◌, ◌≤◌, ◌≡◌, refl, ◌∙◌, arith, Option, none, some, [], ◌∷◌, Bytes, ok,
  leb, length, length-append, Bool-cases, inl, inr,
}
use cs389hw.Shared.Int.{pos, u32, add_int}
use cs389hw.Requests.{Made, got, was_set, was_deleted, neither}
use cs389hw.Requests.Answered.{IsRequest}
use cs389hw.Statistics.{Tally, warm_up_iters, push, after_get, after}

-- The variables before round `i`, where `n` requests may have changed the cache.
pub record Counts {T : Type 0} (i n : ℕ) (m : Tally T) : Type 0 where
  pub measured : length m.measurements ≡ i - warm_up_iters
  pub gets : m.count ≤ length m.measurements
  pub hits : m.hits ≤ m.count
  pub sets : ℕ
  pub dels : ℕ
  pub set_count : m.set_count ≡ pos sets
  pub del_count : m.del_count ≡ pos dels
  pub made : sets + dels ≤ n
  pub leaked : m.live ≤ i
  pub warm : m.live ≤ warm_up_iters

module _ {T : Type 0} (i : ℕ) (d : T) (small : i + 1 < 2 ^ 31) where
  -- What is left to show when a round has not touched the numbers of changes.
  moved :
      {n : ℕ} {m m' : Tally T}
      → Counts i n m
      → n ≤ i + 1
      → m'.set_count ≡ m.set_count
      → m'.del_count ≡ m.del_count
      → length m'.measurements ≡ i + 1 - warm_up_iters
      → m'.count ≤ length m'.measurements
      → m'.hits ≤ m'.count
      → m'.live ≤ i + 1
      → m'.live ≤ warm_up_iters
      → Counts (i + 1) (i + 1) m'
  moved h up same same' measured gets hits leaked warm = record {
    measured = measured;
    gets = gets;
    hits = hits;
    sets = h.sets;
    dels = h.dels;
    set_count = same ∙ h.set_count;
    del_count = same' ∙ h.del_count;
    made = omega (arith, h.made);
    leaked = leaked;
    warm = warm;
  }

  push-Counts : (m : Tally T) → Counts i (i + 1) m → Counts (i + 1) (i + 1) (push i d m)
  unfolding push
  push-Counts m h =
      let n = length-append m.measurements (d ∷ []) in
      elim (Bool-cases (leb warm_up_iters i)) [
        | inl late ↦ rw late (
            moved h (omega arith) refl refl (ground (arith, late, n, h.measured))
              (omega (arith, n, h.gets)) h.hits (omega (arith, h.leaked)) h.warm)
        | inr early ↦ rw early (
            moved h (omega arith) refl refl (ground (arith, early, h.measured)) h.gets h.hits
              (omega (arith, h.leaked)) h.warm)
      ]

  get-Counts :
      (val : Option Bytes) (m : Tally T)
      → Counts i i m
      → Counts (i + 1) (i + 1) (after_get i d val m)
  unfolding after_get
  get-Counts none m h =
      let n = length-append m.measurements (d ∷ []) in
      let few = h.measured in
      elim (Bool-cases (leb warm_up_iters i)) [
        | inl late ↦
            let one_more : (m.count + 1) % u32 ≡ m.count + 1 = omega (arith, h.gets, few) in
            rw late (
              moved h (omega arith) refl refl (ground (arith, late, n, few))
                (omega (arith, n, h.gets, one_more)) (omega (arith, h.hits, one_more))
                (omega (arith, h.leaked)) h.warm)
        | inr early ↦ rw early (
            moved h (omega arith) refl refl (ground (arith, early, few)) h.gets h.hits
              (omega (arith, h.leaked)) h.warm)
      ]
  get-Counts (some val) m h =
      let n = length-append m.measurements (d ∷ []) in
      let few = h.measured in
      elim (Bool-cases (leb warm_up_iters i)) [
        | inl late ↦
            let one_more : (m.count + 1) % u32 ≡ m.count + 1 = omega (arith, h.gets, few) in
            let one_hit : (m.hits + 1) % u32 ≡ m.hits + 1 = omega (arith, h.hits, h.gets, few) in
            rw late (
              moved h (omega arith) refl refl (ground (arith, late, n, few))
                (omega (arith, n, h.gets, one_more)) (omega (arith, h.hits, one_more, one_hit))
                (omega (arith, h.leaked)) (omega (arith, h.warm)))
        | inr early ↦ rw early (
            moved h (omega arith) refl refl (ground (arith, early, few)) h.gets h.hits
              (omega (arith, h.leaked)) (ground (arith, early, h.leaked)))
      ]

  pub after_lem :
      (a : Made) (m : Tally T)
      → IsRequest a
      → Counts i i m
      → (m' : Tally T) × (after i d a m ≡ ok m') × Counts (i + 1) (i + 1) m'
  unfolding after
  after_lem (got val) m r h = (after_get i d val m, refl, get-Counts val m h)
  after_lem was_set m r h =
      let next : add_int m.set_count (pos 1) ≡ ok (pos (h.sets + 1)) =
        rw h.set_count (ground (arith, h.made)) in
      (
        _,
        rw next refl,
        push-Counts (record m { set_count = pos (h.sets + 1) })
            (record {
              measured = h.measured;
              gets = h.gets;
              hits = h.hits;
              sets = h.sets + 1;
              dels = h.dels;
              set_count = refl;
              del_count = h.del_count;
              made = omega (arith, h.made);
              leaked = h.leaked;
              warm = h.warm;
            }),
      )
  after_lem was_deleted m r h =
      let next : add_int m.del_count (pos 1) ≡ ok (pos (h.dels + 1)) =
        rw h.del_count (ground (arith, h.made)) in
      (
        _,
        rw next refl,
        push-Counts (record m { del_count = pos (h.dels + 1) })
            (record {
              measured = h.measured;
              gets = h.gets;
              hits = h.hits;
              sets = h.sets;
              dels = h.dels + 1;
              set_count = h.set_count;
              del_count = refl;
              made = omega (arith, h.made);
              leaked = h.leaked;
              warm = h.warm;
            }),
      )
  after_lem neither m r h = absurd r
