-- ===== src/Requests/Answered.antt =====
-- The requests of the programs, at a cache that keeps its contract.
use cs389hw.Shared.{
  ℕ, ◌+◌, ◌%◌, ◌<◌, ◌≡◌, refl, ap, ◌∙◌, arith, false, none, some, [], ◌∷◌, Key, Bytes, nat_eq,
  bytes_eq, bytes_beq, Result, ok, ◌>>=◌, length, length-append, contains, text, Option-cases, inl,
  inr, ◌⊎◌,
}
use cs389hw.Shared.Int.{u32}
use cs389hw.Server.Answers.{c_string}
use cs389hw.Server.Targets.{until_nul_lem}
use cs389hw.Cache.{Cache}
use cs389hw.Cache.Contract.{View, Contract}
use cs389hw.Workload.Generator.{WorkloadGenerator}
use cs389hw.Requests.{
  Made, got, was_set, was_deleted, neither, strlen, make_get, make_set, make_del, make,
}

-- A generator whose requests are the three known ones, with keys and values that the cache takes;
-- the values are C strings that fit into the cache.
pub record Feeds {W G : Type 0} (wkld : WorkloadGenerator G) (v : View W) (capacity : ℕ)
    (Fit : G → Type 0) : Type 0 where
  pub knows :
      {g : G}
      → Fit g
      → let r = wkld.request_type_dist g in
        Fit r.1 × ((r.0 ≡ text "get") ⊎ (r.0 ≡ text "set") ⊎ (r.0 ≡ text "del"))
  pub keys :
      {g : G}
      → Fit g
      → (key : Key) × (g' : G) × (wkld.random_key g ≡ ok (key, g')) × Fit g' × v.IsKey key
  pub values :
      {g : G}
      → Fit g
      → (val : Bytes) × (g' : G) × (wkld.random_val g ≡ ok (c_string val, g'))
        × Fit g'
        × v.IsValue (c_string val)
        × (contains 0 val ≡ false)
        × (length val < capacity)
  pub small : capacity < u32

-- One of the three branches was taken.
abbrev pub IsRequest : Made → Type 0
IsRequest neither = ⊥
IsRequest m = Unit

module _ {W G : Type 0} {my_cache : Cache W} {v : View W} (contract : Contract my_cache v)
    {wkld : WorkloadGenerator G} {capacity : ℕ} {Fit : G → Type 0}
    (feeds : Feeds wkld v capacity Fit) where
  pub record Answered (r : Result (Made × W × G)) : Type 0 where
    pub made : Made
    pub w : W
    pub g : G
    pub ran : r ≡ ok (made, w, g)
    pub request : IsRequest made
    pub ready : v.Ready w
    pub same : v.capacity w ≡ capacity
    pub fit : Fit g

  module _ {w : W} {g : G} (ready : v.Ready w) (same : v.capacity w ≡ capacity) (fit : Fit g) where
    get_lem : Answered (make_get my_cache wkld w g)
    unfolding make_get
    get_lem =
        let (key, g', drawn, fit', real) = feeds.keys fit in
        elim (Option-cases (v.content w key)) [
          | inl absent ↦ record {
            made = got none;
            w = w;
            g = g';
            ran = rw (drawn, contract.get_misses key ready real absent) refl;
            request = tt;
            ready = ready;
            same = same;
            fit = fit';
          }
          | inr (val, found) ↦
              let (w', ran, kept, others) = contract.get_finds key ready real found in
              record {
                made = got (some val);
                w = w';
                g = g';
                ran = rw (drawn, ran) refl;
                request = tt;
                ready = kept.ready;
                same = kept.same_capacity ∙ same;
                fit = fit';
              }
        ]

    set_lem : Answered (make_set my_cache wkld w g)
    unfolding make_set strlen
    set_lem =
        let (key, g₁, drawn, fit₁, real) = feeds.keys fit in
        let (val, g₂, drawn', fit₂, string, no_nul, fits) = feeds.values fit₁ in
        let n : length (c_string val) ≡ length val + 1 =
          omega (arith, length-append val (0 ∷ [])) in
        let size : (length val + 1) % u32 ≡ length (c_string val) =
          omega (arith, n, fits, feeds.small) in
        let (w', ran, kept, here, others) =
          contract.set_stores key (c_string val) ready real string (omega (arith, n, same)) in
        record {
          made = was_set;
          w = w';
          g = g₂;
          ran =
              rw (drawn, drawn', until_nul_lem val no_nul)
                (ap (λ n. my_cache.set key (c_string val) n w >>= λ w. ok (was_set, w, g₂)) size
                  ∙ ap (λ r. r >>= λ w. ok (was_set, w, g₂)) ran);
          request = tt;
          ready = kept.ready;
          same = kept.same_capacity ∙ same;
          fit = fit₂;
        }

    del_lem : Answered (make_del my_cache wkld w g)
    unfolding make_del
    del_lem =
        let (key, g', drawn, fit', real) = feeds.keys fit in
        let (b, w', ran, kept, others) = contract.del_removes key ready real in
        record {
          made = was_deleted;
          w = w';
          g = g';
          ran = rw (drawn, ran) refl;
          request = tt;
          ready = kept.ready;
          same = kept.same_capacity ∙ same;
          fit = fit';
        }

  -- A request succeeds, and the cache and the generator are fit for the next one.
  pub make_lem :
      {w : W} {g : G}
      → v.Ready w
      → v.capacity w ≡ capacity
      → Fit g
      → Answered (make my_cache wkld w g)
  unfolding make bytes_beq
  make_lem ready same fit =
      let (fit', which) = feeds.knows fit in
      elim which [
        | inl e ↦ rw e (get_lem ready same fit')
        | inr (inl e) ↦ rw e (set_lem ready same fit')
        | inr (inr e) ↦ rw e (del_lem ready same fit')
      ]
