-- ===== src/Workload/Texts.antt =====
-- What the generator's keys and values look like.
use cs389hw.Shared.{
  ℕ, zero, suc, ◌+◌, ◌%◌, ◌<◌, ◌≡◌, refl, ap, ◌∙◌, arith, Bool, true, false, not, ◌&&◌, [], ◌∷◌,
  ◌++◌, Bytes, ok, ◌==◌, nat_eq, length, contains, take, take_all,
}
use cs389hw.Server.{slash}
use cs389hw.Server.Targets.{begins_with}
use cs389hw.CacheLib.{copy}
use cs389hw.CacheLib.Set.{copy-take}
use cs389hw.Client.EndToEnd.{verbatim, all_verbatim}
use cs389hw.Workload.{charset, max_index, char_at, random_key, random_val}

-- A byte that needs no escape in a target or in a JSON text.
abbrev clean : ℕ → Bool
clean c = verbatim c && not (c == slash) && not (c == b'}')

abbrev all_clean : Bytes → Bool
all_clean [] = true
all_clean (c ∷ s) = clean c && all_clean s

char_at-clean : (s : Bytes) (i : ℕ) → all_clean s ≡ true → i < length s → clean (char_at s i) ≡ true
char_at-clean [] i h n = absurd (omega arith)
char_at-clean (c ∷ s) zero h n = ground arith
char_at-clean (c ∷ s) (suc i) h n = char_at-clean s i (ground arith) (omega arith)

module _ (rand : ℕ → ℕ) where
  random_key-clean : (n i : ℕ) → all_clean (random_key rand n i) ≡ true
  unfolding random_key
  random_key-clean zero i = refl
  random_key-clean (suc n) i =
      rw (char_at-clean charset (rand i % max_index) refl (omega arith), random_key-clean n (i + 1))
        refl

-- A text that the client can send in a target and find again in a JSON text.
pub record Sendable (s : Bytes) : Type 0 where
  pub printable : all_verbatim s ≡ true
  pub unslashed : contains slash s ≡ false
  pub unclosed : begins_with b'}' s ≡ false

clean-verbatim : (s : Bytes) → all_clean s ≡ true → all_verbatim s ≡ true
clean-verbatim [] h = refl
clean-verbatim (c ∷ s) h = ground (arith, clean-verbatim s)

clean-unslashed : (s : Bytes) → all_clean s ≡ true → contains slash s ≡ false
clean-unslashed [] h = refl
clean-unslashed (c ∷ s) h = ground (arith, clean-unslashed s)

clean-unclosed : (s : Bytes) → all_clean s ≡ true → begins_with b'}' s ≡ false
clean-unclosed [] h = refl
clean-unclosed (c ∷ s) h = ground arith

module _ (rand : ℕ → ℕ) where
  pub length-random_key : (n i : ℕ) → length (random_key rand n i) ≡ n
  unfolding random_key
  length-random_key zero i = refl
  length-random_key (suc n) i = ap suc (length-random_key n (i + 1))

  pub random_key-Sendable : (n i : ℕ) → Sendable (random_key rand n i)
  random_key-Sendable n i = record {
    printable = clean-verbatim (random_key rand n i) (random_key-clean rand n i);
    unslashed = clean-unslashed (random_key rand n i) (random_key-clean rand n i);
    unclosed = clean-unclosed (random_key rand n i) (random_key-clean rand n i);
  }

  -- A random value is a C string of the wanted size, of bytes that need no escapes.
  pub random_val_lem :
      (size i : ℕ)
      → (val : Bytes) × (random_val rand size i ≡ ok (val ++ 0 ∷ []))
        × (length val ≡ size)
        × Sendable val
  unfolding random_val
  random_val_lem size i =
      let val = random_key rand size i in
      let n : length val ≡ size = length-random_key size i in
      let copied : copy size val ≡ ok val =
        copy-take size val (omega (arith, n))
        ∙ ap ok (ap (λ m. take m val) (omega (arith, n)) ∙ take_all val) in
      (val, rw copied refl, n, random_key-Sendable size i)
