-- ===== src/CacheLib/Valid.antt =====
-- The invariant of `Cache::Impl`, and what `free` does to it.
use cs389hw.Shared.{
  ℕ, ◌-◌, ◌≤◌, ◌<◌, ◌^◌, ◌≡◌, arith, true, false, Option, none, some, List, [], Key, ok, bytes_eq,
  contains, is_some, le→leb, Option-cases, inl, inr,
}
use cs389hw.Shared.Tables.{find, erase}
use cs389hw.Memory.{write, delete_lem}
use cs389hw.Evictor.{Evictor, IsPolicy}
use cs389hw.CacheLib.{Block, Impl, free}
use cs389hw.CacheLib.Blocks.{Owned, total, size_in, content, Owned-block, total-erase, Owned-erase}

-- The order in which the evictor will evict; with no evictor there is nothing to evict.
abbrev pub InOrder : {S : Type 0} {ev : Evictor S} → IsPolicy ev → Option S → List Key → Type 0
InOrder P none l = l ≡ []
InOrder P (some e) l = P.Holds e l

-- The table and its memory. `int` sums of two sizes do not overflow.
pub record IsSound {S : Type 0} (s : Impl S) : Type 0 where
  pub owned : Owned s.buffers s.table
  pub accounted : s.current_mem ≡ total s.table
  pub bounded : s.current_mem ≤ s.my_maxmem
  pub loads : s.table_load_factor ≡ s.my_max_load_factor
  pub small : s.my_maxmem < 2 ^ 30

-- `l` is the order of the evictor: it knows all keys of the table, and no empty key.
pub record IsValid {S : Type 0} {ev : Evictor S} (P : IsPolicy ev) (s : Impl S) (l : List Key)
    : Type 0 where
  pub sound : IsSound s
  pub ordered : InOrder P s.my_evictor l
  pub covered :
      is_some s.my_evictor ≡ true
      → (k : Key) → is_some (find s.table k) ≡ true
      → contains k l ≡ true
  pub named : contains [] l ≡ false

-- The value that the cache has for a key.
abbrev pub value : {S : Type 0} → Impl S → Key → Option (List ℕ)
value s k = content s.buffers s.table k

-- The size of the value that the cache has for a key, 0 if it has none.
abbrev pub size_of : {S : Type 0} → Impl S → Key → ℕ
size_of s k = size_in (find s.table k)

-- The state without the entry `k`.
abbrev pub freed : {S : Type 0} → Key → Block → Impl S → Impl S
freed k b s = record s {
  current_mem = s.current_mem - b.size;
  table = erase s.table k;
  buffers = write s.buffers b.address none;
}

module _ {S : Type 0} {s : Impl S} where
  -- The invariant does not depend on the evictor.
  pub with_evictor : (o : Option S) → IsSound s → IsSound (record s { my_evictor = o })
  with_evictor o h = record {
    owned = h.owned;
    accounted = h.accounted;
    bounded = h.bounded;
    loads = h.loads;
    small = h.small;
  }

  module _ (h : IsSound s) where
    pub size_le : (k : Key) {b : Block} → find s.table k ≡ some b → b.size ≤ s.current_mem
    size_le k e = omega (arith, total-erase k h.owned e, h.accounted)

    -- `free` succeeds on each entry of the table.
    pub free_lem : (k : Key) {b : Block} → find s.table k ≡ some b → free k b s ≡ ok (freed k b s)
    unfolding free
    free_lem k {b} e =
        let (v, alive, n) = Owned-block k h.owned e in
        rw (le→leb b.size s.current_mem (size_le k e), delete_lem alive)

    pub freed-IsSound : (k : Key) {b : Block} → find s.table k ≡ some b → IsSound (freed k b s)
    freed-IsSound k {b} e = record {
      owned = Owned-erase k h.owned e;
      accounted = omega (arith, total-erase k h.owned e, h.accounted);
      bounded = omega (arith, h.bounded);
      loads = h.loads;
      small = h.small;
    }

    pub size_of_le : (k : Key) → size_of s k ≤ s.current_mem
    size_of_le k = elim (Option-cases (find s.table k)) [
      | inl absent ↦ rw absent (omega arith)
      | inr (b, e) ↦ rw e (size_le k e)
    ]
