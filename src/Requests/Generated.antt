-- ===== src/Requests/Generated.antt =====
-- The requests of the generator, for a cache that takes printable keys and values.
use cs389hw.Shared.{
  ◌^◌, length, contains, nat_eq, bytes_eq, ℕ, ◌<◌, ◌≡◌, ◌≢◌, refl, Bool, true, false, Key, Bytes,
  [], ◌&&◌, if◌then◌else◌, text, subst, sym, inl, inr, ◌⊎◌,
}
use cs389hw.Shared.Int.{u32}
use cs389hw.Server.Answers.{c_string}
use cs389hw.Cache.Contract.{View}
use cs389hw.Client.EndToEnd.{verbatim-no_nul}
use cs389hw.Workload.Floats.{Floats, Engine}
use cs389hw.Workload.Generator.{Impl, val_size_dist, get_rate, request_type_dist, generator}
use cs389hw.Workload.Texts.{Sendable}
use cs389hw.Workload.Drawn.{IsWell, prompt_key_lem, prompt_val_lem}
use cs389hw.Requests.Answered.{Feeds}

if_one_of :
    (get_it set_it : Bool)
    → let t = if get_it then text "get" else if set_it then text "set" else text "del" in
      (t ≡ text "get") ⊎ (t ≡ text "set") ⊎ (t ≡ text "del")
if_one_of true set_it = inl refl
if_one_of false true = inr (inl refl)
if_one_of false false = inr (inr refl)

-- A generator that has been constructed well, with keys whose JSON texts have a size of type `int`.
pub record IsFit {D G : Type 0} (g : Impl D G) : Type 0 where
  pub well : IsWell g
  pub short : (k : Key) → contains k g.key_pool ≡ true → length k < 2 ^ 29

module _ {D : Type 0} (f : Floats D) {G : Type 0} (engine : Engine D G) (rand : ℕ → ℕ) where
  moved : {g : Impl D G} (e : G) → IsFit g → IsFit (record g { generator = e })
  moved e h = record {
    well = record {
      filled = h.well.filled;
      some_key = h.well.some_key;
      small = h.well.small;
      fit = h.well.fit;
    };
    short = h.short;
  }

  module _ {W : Type 0} (v : View W) (capacity : ℕ) (small : capacity < u32)
      (fits : (e : G) → (val_size_dist f engine e).0 < capacity)
      (is_key : (k : Key) → Sendable k → k ≢ [] → length k < 2 ^ 29 → v.IsKey k)
      (is_value : (val : Bytes) → Sendable val → v.IsValue (c_string val)) where
    -- A generator that has been constructed well makes requests that the cache takes, if no value
    -- is drawn that is too large for it.
    pub generator-Feeds : Feeds (generator f engine rand) v capacity IsFit
    unfolding generator request_type_dist
    generator-Feeds = record {
      knows = λ {g} h.
          let (u, e) = engine.uniform g.generator in
          (
            moved e h,
            if_one_of (f.le u (get_rate f))
                (f.lt (get_rate f) u && f.le u (f.add (get_rate f) g.set_rate)),
          );
      keys = λ {g} h.
          let (k, e, ran, inside, sendable, real) = prompt_key_lem f engine rand h.well in
          (
            k,
            record g { generator = e },
            ran,
            moved e h,
            is_key k sendable real (h.short k inside),
          );
      values = λ {g} h.
          let (val, g', ran, h', same, sendable, n) = prompt_val_lem f engine rand h.well in
          (
            val,
            g',
            ran,
            record {
              well = h';
              short =
                  subst (λ p. (k : Key) → contains k p ≡ true → length k < 2 ^ 29) (sym same)
                    h.short;
            },
            is_value val sendable,
            verbatim-no_nul val sendable.printable,
            subst (λ m. m < capacity) (sym n) (fits g.generator),
          );
      small = small;
    }
