-- ===== src/CacheLib/Sized.antt =====
-- The length of the table, beside that of the order of the evictor.
use cs389hw.Shared.{
  ◌≤◌, ◌≡◌, arith, ◌∙◌, true, List, Key, Bytes, bytes_eq, Distinct, length, is_some,
  length_le_of_contains,
}
use cs389hw.Shared.Tables.{keys, is_some-find, length-keys}
use cs389hw.Memory.{Memory}
use cs389hw.Evictor.{Evictor, IsPolicy}
use cs389hw.CacheLib.{Impl}
use cs389hw.CacheLib.Blocks.{Table, Owned, nil, cons}
use cs389hw.CacheLib.Valid.{IsValid}

Owned-Distinct : {m : Memory Bytes} {t : Table} → Owned m t → Distinct (keys t)
Owned-Distinct nil = tt
Owned-Distinct (cons v new h n apart o) = (new, Owned-Distinct o)

pub length-table_le :
    {S : Type 0} {ev : Evictor S} {P : IsPolicy ev} {s : Impl S} {l : List Key}
    → IsValid P s l
    → is_some s.my_evictor ≡ true
    → length s.table ≤ length l
length-table_le {s} {l} h on =
    let below =
      length_le_of_contains (keys s.table) l (Owned-Distinct h.sound.owned)
        λ k i. h.covered on k (is_some-find s.table k ∙ i) in
    omega (arith, below, length-keys s.table)
