-- ===== src/CacheLib/Agrees.antt =====
-- cache_lib.cc: when a state of `Cache::Impl` shows a state of the specification.
pub mod Rooms
pub mod Sets
pub mod Calls
use cs389hw.Shared.{
  ℕ, ◌+◌, ◌-◌, ◌≤◌, ◌<◌, ◌^◌, ◌≡◌, refl, sym, ap, ◌∙◌, arith, Bool, true, false, Option, none, some,
  List, [], ◌∷◌, Key, Bytes, bytes_eq, ◌==◌, if◌then◌else◌, contains, is_some, length, ltb,
  Option-cases, inl, inr,
}
use cs389hw.Shared.Tables.{find}
use cs389hw.Evictor.{Evictor, IsPolicy}
use cs389hw.Cache.Bounded.{Bounded, length_of, over, forget}
use cs389hw.CacheLib.{Impl}
use cs389hw.CacheLib.Blocks.{read_in, Owned-block}
use cs389hw.CacheLib.Valid.{IsSound, IsValid, value, size_of}
use cs389hw.CacheLib.Room.{Dropped}
use cs389hw.CacheLib.Store.{touched_order}

pub record Sees {S : Type 0} (s : Impl S) (a : Bounded) : Type 0 where
  pub bound : s.my_maxmem ≡ a.maxmem
  pub used : s.current_mem ≡ a.used
  pub values : (k : Key) → value s k ≡ a.content k
  pub evicts : is_some s.my_evictor ≡ a.evicts

-- The whole state: the invariant holds, for the order of the specification.
pub record Agrees {S : Type 0} {ev : Evictor S} (P : IsPolicy ev) (s : Impl S) (a : Bounded)
    : Type 0 where
  pub valid : IsValid P s a.order
  pub sees : Sees s a

module _ {S : Type 0} {s : Impl S} (h : IsSound s) where
  pub size_of-length : (k : Key) → size_of s k ≡ length_of (value s k)
  size_of-length k = elim (Option-cases (find s.table k)) [
    | inl absent ↦ rw absent
    | inr (b, found) ↦
        let (v, alive, n) = Owned-block k h.owned found in
        let here : value s k ≡ some v = ap (read_in s.buffers) found ∙ alive.holds in
        rw (here, found) (sym n)
  ]

  module _ {a : Bounded} (sees : Sees s a) (k : Key) where
    pub same_size : size_of s k ≡ length_of (a.content k)
    same_size = size_of-length k ∙ ap length_of (sees.values k)

    pub over_lem :
        (size : ℕ) → ltb (s.my_maxmem + size_of s k) (s.current_mem + size) ≡ over k size a
    over_lem size = ground (arith, same_size, sees.bound, sees.used)

    -- A key that has left.
    pub Sees-forget :
        {s' : Impl S}
        → Dropped s s' (k ∷ [])
        → s'.current_mem + size_of s k ≡ s.current_mem
        → Sees s' (forget k a)
    Sees-forget d less = record {
      bound = d.same_bound ∙ sees.bound;
      used = omega (arith, less, same_size, sees.used);
      values = λ j. ground (arith, d.values j, sees.values j);
      evicts = d.same_evictor ∙ sees.evicts;
    }

pub touched_order_if :
    {S : Type 0} {ev : Evictor S} (P : IsPolicy ev) (o : Option S) (k : Key) (l : List Key)
    → touched_order P o k l ≡ (if is_some o then P.touched k l else l)
touched_order_if P none k l = refl
touched_order_if P (some e) k l = refl
