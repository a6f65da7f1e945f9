-- ===== src/Cache/Contract.antt =====
-- What the users of a cache can rely on, by the values that the cache has, for values that fit into
-- it. It is a part of what cache.hh promises: of a value that does not fit it says nothing, where
-- cache.hh says that it is not inserted.
use cs389hw.Shared.{
  ℕ, ◌≤◌, ◌≡◌, Bool, Option, none, some, Key, Bytes, bytes_eq, ◌==◌, ok, false, if◌then◌else◌,
  length,
}
use cs389hw.Cache.{Cache}

-- How the state of a cache is read: when it is fit for calls, the value of each key, the memory in
-- all and in use; and the keys and values that it takes.
pub record View (W : Type 0) : Type 1 where
  pub Ready : W → Type 0
  pub content : W → Key → Option Bytes
  pub capacity : W → ℕ
  pub used : W → ℕ
  pub IsKey : Key → Type 0
  pub IsValue : Bytes → Type 0

-- A call leaves the cache ready and its capacity alone.
pub record Kept {W : Type 0} (v : View W) (w w' : W) : Type 0 where
  pub ready : v.Ready w'
  pub same_capacity : v.capacity w' ≡ v.capacity w

-- Each call succeeds. A value that fits is stored, and other keys keep their value or lose it to
-- make room; `get` finds what is there, and only that; `del` and `reset` remove.
pub record Contract {W : Type 0} (c : Cache W) (v : View W) : Type 0 where
  pub set_stores :
      {w : W} (key : Key) (val : Bytes)
      → v.Ready w
      → v.IsKey key
      → v.IsValue val
      → length val ≤ v.capacity w
      → (w' : W) × (c.set key val (length val) w ≡ ok w')
        × Kept v w w'
        × (v.content w' key ≡ some val)
        × ((j : Key) (u : Bytes)
            → (j == key) ≡ false
            → v.content w' j ≡ some u
            → v.content w j ≡ some u)
  pub get_finds :
      {w : W} {val : Bytes} (key : Key)
      → v.Ready w
      → v.IsKey key
      → v.content w key ≡ some val
      → (w' : W) × (c.get key w ≡ ok ((some val, length val), w'))
        × Kept v w w'
        × ((j : Key) → v.content w' j ≡ v.content w j)
  pub get_misses :
      {w : W} (key : Key)
      → v.Ready w
      → v.IsKey key
      → v.content w key ≡ none
      → c.get key w ≡ ok ((none, 0), w)
  pub del_removes :
      {w : W} (key : Key)
      → v.Ready w
      → v.IsKey key
      → (b : Bool) × (w' : W) × (c.del key w ≡ ok (b, w'))
        × Kept v w w'
        × ((j : Key) → v.content w' j ≡ (if j == key then none else v.content w j))
  pub space_used_reads : {w : W} → v.Ready w → c.space_used w ≡ ok (v.used w, w)
  pub reset_empties :
      {w : W}
      → v.Ready w
      → (w' : W) × (c.reset w ≡ ok w')
        × Kept v w w'
        × ((j : Key) → v.content w' j ≡ none)
        × (v.used w' ≡ 0)
