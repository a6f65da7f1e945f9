-- ===== src/Workload.antt =====
-- workload_generator.cc: the keys and values of the benchmarks.
--
-- `rand i` is what the i-th call of `rand()` returns.
pub mod Texts
pub mod Floats
pub mod Generator
pub mod Drawn
use cs389hw.Shared.{
  ℕ, zero, suc, ◌+◌, ◌-◌, ◌%◌, Option, none, some, List, [], ◌∷◌, ◌++◌, Key, Bytes, Result, ok,
  stop, uncaught, ◌>>=◌, if◌then◌else◌, ltb, length, text,
}
use cs389hw.Shared.Int.{u32}
use cs389hw.CacheLib.{copy}

abbrev pub charset : Bytes
charset =
    text "0123456789"
    ++ (text "ABCDEFGHIJKLMNOPQRSTUVWXYZ"
        ++ (text "abcdefghijklmnopqrstuvwxyz" ++ text "!@#$%^&*()_+[]|;',.<>?"))

-- `sizeof(charset) - 1`
abbrev pub max_index : ℕ
max_index = length charset

-- `charset[i]`; behind the last character stands a NUL.
abbrev pub char_at : Bytes → ℕ → ℕ
char_at [] i = 0
char_at (c ∷ s) zero = c
char_at (c ∷ s) (suc i) = char_at s i

module _ (rand : ℕ → ℕ) where
  -- `generate_n` with `randchar`, from the call number `i` on
  unfoldable pub random_key : ℕ → ℕ → Key
  random_key zero i = []
  random_key (suc n) i = char_at charset (rand i % max_index) ∷ random_key n (i + 1)

  unfoldable pub random_val : ℕ → ℕ → Result Bytes
  unfolding random_key
  random_val size i = do val ← copy size (random_key size i); ok (val ++ 0 ∷ [])

-- `key_pool.at(i)`
unfoldable pub key_at : List Key → ℕ → Result Key
key_at [] i = stop uncaught
key_at (k ∷ ks) zero = ok k
key_at (k ∷ ks) (suc i) = key_at ks i
