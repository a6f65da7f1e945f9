-- ===== src/Lru/Size.antt =====
-- The length of an LRU evictor's order, beside that of its table.
use cs389hw.Shared.{
  [], ◌∷◌, ◌+◌, without, length-append, ◌≤◌, arith, ap, sym, ◌∙◌, List, Key, bytes_eq, length,
  is_some, length_le_of_contains,
}
use cs389hw.Shared.Tables.{keys, is_some-find, length-keys}
use cs389hw.Lru.{LruEvictor}
use cs389hw.Lru.Order.{touched}
use cs389hw.Lru.Policy.{Holds}

pub length_le_table : (s : LruEvictor) (l : List Key) → Holds s l → length l ≤ length s.table
length_le_table s l (xs, h, e) =
    let below =
      length_le_of_contains (keys xs) (keys s.table) h.unique
        λ k i. sym (is_some-find s.table k) ∙ ap is_some (h.indexed k) ∙ is_some-find xs k ∙ i in
    omega (arith, below, length-keys s.table, ap length e)

length-without : (k : Key) (l : List Key) → length (without k l) ≤ length l
length-without k [] = omega arith
length-without k (j ∷ l) = ground (arith, length-without k l)

pub touched_grows : (k : Key) (l : List Key) → length (touched k l) ≤ length l + 1
touched_grows k l = omega (arith, length-append (without k l) (k ∷ []), length-without k l)
