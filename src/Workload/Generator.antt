-- ===== src/Workload/Generator.antt =====
-- workload_generator.cc: the distributions, the generator's state and its operations.
use cs389hw.Shared.{
  ℕ, zero, suc, ◌+◌, ◌-◌, ◌%◌, List, [], ◌∷◌, Key, Bytes, Result, ok, ◌>>=◌, ◌&&◌, if◌then◌else◌,
  ltb, length, text,
}
use cs389hw.Shared.Int.{u32}
use cs389hw.Workload.{random_key, random_val, key_at}
use cs389hw.Workload.Floats.{Floats, Engine}

-- `WorkloadGenerator`, as its users see it, over a state.
pub record WorkloadGenerator (W : Type 0) : Type 0 where
  pub request_type_dist : W → Bytes × W
  pub random_key : W → Result (Key × W)
  pub random_val : W → Result (Bytes × W)

-- The fields of `WorkloadGenerator::Impl`; `calls` is the number of calls of `rand()` so far, `dd`
-- the weights of the discrete distribution.
pub record Impl (D G : Type 0) : Type 0 where
  pub set_rate : D
  pub del_rate : D
  pub generator : G
  pub key_pool : List Key
  pub key_num : ℕ
  pub temp_weights : List D
  pub dd : List D
  pub calls : ℕ

module _ {D : Type 0} (f : Floats D) where
  abbrev pub mu_k : D
  mu_k = f.decimal 307984 4

  abbrev pub sigma_k : D
  sigma_k = f.decimal 820449 5

  abbrev pub k_k : D
  k_k = f.decimal 78688 6

  abbrev pub theta_v : D
  theta_v = f.decimal 0 0

  abbrev pub sigma_v : D
  sigma_v = f.decimal 214476 3

  abbrev pub k_v : D
  k_v = f.decimal 78688 6

  abbrev pub get_rate : D
  get_rate = f.decimal 67 2

  -- `std::clamp`
  abbrev pub clamp : D → D → D → D
  clamp x low high = if f.lt x low then low else if f.lt high x then high else x

  -- The loop of the constructor over `temp_weights`, of 100 numbers.
  unfoldable pub weights : ℕ → ℕ → List D
  weights zero i = []
  weights (suc n) i = f.pow (f.of_nat 10) (f.of_nat (100 - 1 - i)) ∷ weights n (i + 1)

  module _ {G : Type 0} (engine : Engine D G) where
    unfoldable pub key_size_dist : G → ℕ × G
    key_size_dist e =
        let (u, e) = engine.uniform e in
        if f.same u (f.decimal 0 0) then (0, e) else (
          f.to_size_type (
              f.round (
                f.add
                  (f.mul (f.div sigma_k k_k)
                    (f.sub (f.pow (f.neg (f.log u)) (f.neg k_k)) (f.decimal 1 0)))
                  mu_k)),
          e,
        )

    unfoldable pub val_size_dist : G → ℕ × G
    val_size_dist e =
        let (u, e) = engine.uniform e in
        (
          f.to_size_type (
              f.round (
                f.add
                  (f.mul (f.div sigma_v k_v)
                    (f.sub (f.pow (f.sub (f.decimal 1 0) u) (f.neg k_v)) (f.decimal 1 0)))
                  theta_v)),
          e,
        )

    unfoldable pub request_type_dist : Impl D G → Bytes × Impl D G
    request_type_dist g =
        let (u, e) = engine.uniform g.generator in
        (
          if f.le u get_rate
              then text "get"
              else if f.lt get_rate u && f.le u (f.add get_rate g.set_rate)
              then text "set"
              else text "del",
          record g { generator = e },
        )

    module _ (rand : ℕ → ℕ) where
      -- The loop of the constructor that fills the pool.
      unfoldable pub fill_pool : ℕ → G → ℕ → List Key × G × ℕ
      unfolding key_size_dist
      fill_pool zero e i = ([], e, i)
      fill_pool (suc n) e i =
          let (key_size, e) = key_size_dist e in
          let key = random_key rand key_size i in
          let (keys, e, i) = fill_pool n e (i + key_size) in (key ∷ keys, e, i)

      -- `Impl::Impl`, from the states of the engine and of `rand()`
      unfoldable pub create : D → ℕ → G → ℕ → Impl D G
      unfolding weights fill_pool
      create set_del_ratio key_num e i =
          let set_del_ratio = clamp set_del_ratio (f.decimal 0 0) (f.decimal 1010101 0) in
          let del_rate =
            f.div (f.sub (f.decimal 1 0) get_rate) (f.add (f.decimal 1 0) set_del_ratio) in
          let (keys, e, i) = fill_pool key_num e i in
          record {
            set_rate = f.mul set_del_ratio del_rate;
            del_rate = del_rate;
            generator = e;
            key_pool = keys;
            key_num = key_num;
            temp_weights = weights 100 0;
            dd = weights 100 0;
            calls = i;
          }

      unfoldable pub prompt_key : Impl D G → Result (Key × Impl D G)
      unfolding key_at
      prompt_key g = do
        let (segment, e) = engine.discrete g.dd g.generator
        let (u, e) = engine.uniform e
        let i = f.to_size_t (
            f.round (
              f.mul (f.div (f.of_nat g.key_num) (f.of_nat (length g.temp_weights)))
                (f.add (f.of_nat segment) u)))
        key ← key_at g.key_pool (if ltb i g.key_num then i else (g.key_num + u32 - 1) % u32)
        ok (key, record g { generator = e })

      unfoldable pub prompt_val : Impl D G → Result (Bytes × Impl D G)
      unfolding val_size_dist
      prompt_val g = do
        let (s, e) = val_size_dist g.generator
        val ← random_val rand s g.calls
        ok (val, record g { generator = e; calls = g.calls + s })

      -- The member functions, each a call of the one of `Impl`.
      unfoldable pub generator : WorkloadGenerator (Impl D G)
      unfolding request_type_dist prompt_key prompt_val
      generator = record {
        request_type_dist = request_type_dist;
        random_key = prompt_key;
        random_val = prompt_val;
      }
