-- ===== src/Workload/Floats.antt =====
-- workload_generator.cc: what the generator uses of `double`, of <math.h> and of <random>.
use cs389hw.Shared.{ℕ, Bool, List}

-- Floating-point numbers: `decimal m k` is the literal for m / 10 ^ k.
pub record Floats (D : Type 0) : Type 0 where
  pub decimal : ℕ → ℕ → D
  pub of_nat : ℕ → D
  pub add : D → D → D
  pub sub : D → D → D
  pub mul : D → D → D
  pub div : D → D → D
  pub pow : D → D → D
  pub neg : D → D
  pub log : D → D
  pub round : D → D
  pub le : D → D → Bool
  pub lt : D → D → Bool
  pub same : D → D → Bool
  pub to_size_type : D → ℕ
  pub to_size_t : D → ℕ

-- An engine with a state `G`: a number of the uniform distribution, and an index of the discrete
-- distribution with the given weights.
pub record Engine (D G : Type 0) : Type 0 where
  pub uniform : G → D × G
  pub discrete : List D → G → ℕ × G
