-- ===== src/Workload/Drawn.antt =====
-- workload_generator.cc: what a generator gives, once it has been constructed.
use cs389hw.Shared.{
  ℕ, zero, suc, ◌+◌, ◌-◌, ◌%◌, ◌<◌, ◌≡◌, ◌≢◌, refl, ap, ◌∙◌, arith, true, List, [], ◌∷◌, ◌++◌, Key,
  Bytes, bytes_eq, ok, ◌==◌, eq_iff, Bool-cases, inl, inr, if◌then◌else◌, ltb, length, contains,
  subst, sym,
}
use cs389hw.Shared.Int.{u32}
use cs389hw.Workload.{random_key, key_at}
use cs389hw.Workload.Floats.{Floats, Engine}
use cs389hw.Workload.Generator.{
  Impl, key_size_dist, val_size_dist, fill_pool, create, prompt_key, prompt_val,
}
use cs389hw.Workload.Texts.{Sendable, random_key-Sendable, length-random_key, random_val_lem}

-- The pool is as large as `key_num` says, and its keys are fit to be sent.
pub record IsWell {D G : Type 0} (g : Impl D G) : Type 0 where
  pub filled : length g.key_pool ≡ g.key_num
  pub some_key : 0 < g.key_num
  pub small : g.key_num < u32
  pub fit : (k : Key) → contains k g.key_pool ≡ true → Sendable k × (k ≢ [])

key_at_lem :
    (ks : List Key) (i : ℕ)
    → i < length ks
    → (k : Key) × (key_at ks i ≡ ok k) × (contains k ks ≡ true)
unfolding key_at
key_at_lem [] i n = absurd (omega arith)
key_at_lem (k ∷ ks) zero n = (k, refl, ground (arith, eq_iff k k))
key_at_lem (k ∷ ks) (suc i) n =
    let (j, e, c) = key_at_lem ks i (omega arith) in (j, e, ground arith)

module _ {D : Type 0} (f : Floats D) {G : Type 0} (engine : Engine D G) (rand : ℕ → ℕ) where
  length-fill_pool : (n : ℕ) (e : G) (i : ℕ) → length (fill_pool f engine rand n e i).0 ≡ n
  unfolding fill_pool
  length-fill_pool zero e i = refl
  length-fill_pool (suc n) e i =
      let (size, e) = key_size_dist f engine e in ap suc (length-fill_pool n e (i + size))

  module _ (never : (e : G) → (key_size_dist f engine e).0 ≢ 0) where
    fill_pool-fit :
        (n : ℕ) (e : G) (i : ℕ) (k : Key)
        → contains k (fill_pool f engine rand n e i).0 ≡ true
        → Sendable k × (k ≢ [])
    unfolding fill_pool
    fill_pool-fit zero e i k h = cc
    fill_pool-fit (suc n) e i k h =
        let size = (key_size_dist f engine e).0 in
        let key = random_key rand size i in
        elim (Bool-cases (k == key)) [
          | inl here ↦
              let same : k ≡ key = (eq_iff k key).0 here in
              (
                subst Sendable (sym same) (random_key-Sendable rand size i),
                λ empty.
                    never e (
                      sym (length-random_key rand size i) ∙ ap length (sym same) ∙ ap length empty),
              )
          | inr there ↦
              fill_pool-fit n (key_size_dist f engine e).1 (i + size) k (ground (arith, there))
        ]

    -- The constructor makes a pool of `key_num` keys that are fit to be sent and not empty, if no
    -- key size that is drawn is 0. The number of keys is not 0 and fits its type.
    pub create-IsWell :
        (set_del_ratio : D) (key_num : ℕ) (e : G) (i : ℕ)
        → 0 < key_num
        → key_num < u32
        → IsWell (create f engine rand set_del_ratio key_num e i)
    unfolding create
    create-IsWell set_del_ratio key_num e i real small = record {
      filled = length-fill_pool key_num e i;
      some_key = real;
      small = small;
      fit = fill_pool-fit key_num e i;
    }

  module _ {g : Impl D G} (h : IsWell g) where
    -- Whatever is drawn, `prompt_key` does not leave the pool: it gives one of the keys, which is
    -- fit to be sent, and changes no more than the engine.
    pub prompt_key_lem :
        (k : Key) × (e : G) × (prompt_key f engine rand g ≡ ok (k, record g { generator = e }))
        × (contains k g.key_pool ≡ true)
        × Sendable k
        × (k ≢ [])
    unfolding prompt_key
    prompt_key_lem =
        let (segment, e) = engine.discrete g.dd g.generator in
        let (u, e) = engine.uniform e in
        let i = f.to_size_t (
          f.round (
            f.mul (f.div (f.of_nat g.key_num) (f.of_nat (length g.temp_weights)))
              (f.add (f.of_nat segment) u))) in
        let (k, at, c) =
          key_at_lem g.key_pool (if ltb i g.key_num then i else (g.key_num + u32 - 1) % u32)
            (ground (arith, h.filled, h.some_key, h.small)) in
        (k, e, rw at refl, c, (h.fit k c).0, (h.fit k c).1)

    -- `prompt_val` gives a C string of bytes that need no escapes, of the size that is drawn.
    pub prompt_val_lem :
        (val : Bytes) × (g' : Impl D G) × (prompt_val f engine rand g ≡ ok (val ++ 0 ∷ [], g'))
        × IsWell g'
        × (g'.key_pool ≡ g.key_pool)
        × Sendable val
        × (length val ≡ (val_size_dist f engine g.generator).0)
    unfolding prompt_val
    prompt_val_lem =
        let (s, e) = val_size_dist f engine g.generator in
        let (val, ran, n, fit) = random_val_lem rand s g.calls in
        (
          val,
          record g { generator = e; calls = g.calls + s },
          rw ran refl,
          record { filled = h.filled; some_key = h.some_key; small = h.small; fit = h.fit },
          refl,
          fit,
          n,
        )
