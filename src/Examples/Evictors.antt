-- ===== src/Examples/Evictors.antt =====
-- lru_evictor.cc and fifo_evictor.cc at small evictors.
use cs389hw.Lru.Destroy.{destroy_lem}
use cs389hw.Shared.{contains, if◌then◌else◌, nat_eq, eq_iff, bytes_eq}
use cs389hw.Shared.{
  ◌≡◌, refl, arith, some, none, List, [], ◌∷◌, Key, Result, ok, ◌>>=◌, text, bytes_beq,
}
use cs389hw.Shared.Tables.{find, keys}
use cs389hw.Memory.{Ptr, Memory, read, write, load, delete, bump}
use cs389hw.Lru.{
  Node, node, LruEvictor, create, touch_key, touch_at, touch_new, touch_present, move_head,
  move_middle, append_tail, set_next, set_prev, evict, destroy,
}
use cs389hw.Lru.Segment.{Cells, ptrs, nil, cons}
use cs389hw.Lru.Order.{Represents, touched}
use cs389hw.Lru.Insert.{touch_key_lem}
use cs389hw.Lru.Evict.{evict_lem}

program : Unit {0}
unfolding read write load delete set_next set_prev append_tail move_head move_middle touch_present
    touch_new touch_at touch_key evict create bytes_beq destroy
program = tt

-- `touch` the keys in turn, then `evict` as often.
abbrev touch_all : List Key → LruEvictor → Result LruEvictor
touch_all [] s = ok s
touch_all (k ∷ ks) s = touch_key bump k s >>= touch_all ks

abbrev evict_all : List Key → LruEvictor → Result (List Key)
evict_all [] s = ok []
evict_all (k ∷ ks) s = evict s >>= λ (j, s'). evict_all ks s' >>= λ js. ok (j ∷ js)

abbrev ks : List Key
ks = text "a" ∷ text "b" ∷ text "c" ∷ text "a" ∷ text "c" ∷ text "d" ∷ text "b" ∷ []

eviction_order :
    (touch_all ks create >>= evict_all (text "w" ∷ text "x" ∷ text "y" ∷ text "z" ∷ text "v" ∷ []))
    ≡ ok (text "a" ∷ text "c" ∷ text "d" ∷ text "b" ∷ [] ∷ [])
unfolding program
eviction_order = refl

abbrev three : LruEvictor
three = record {
  nodes =
      (3, some (node 2 0 (text "c")))
      ∷ (2, some (node 1 3 (text "b")))
      ∷ (1, some (node 0 2 (text "a")))
      ∷ [];
  table = (text "c", 3) ∷ (text "b", 2) ∷ (text "a", 1) ∷ [];
  head = 1;
  tail = 3;
}

abbrev cells : Cells
cells = (text "a", 1) ∷ (text "b", 2) ∷ (text "c", 3) ∷ []

three-Represents : Represents three cells
unfolding read bytes_beq
three-Represents = record {
  chain =
      cons 2 refl (record { ne_null = ground arith; holds = refl })
        (cons 3 refl (record { ne_null = ground arith; holds = refl })
          (cons 0 refl (record { ne_null = ground arith; holds = refl }) (nil refl refl)));
  distinct = (refl, (refl, (refl, tt)));
  unique = (refl, (refl, (refl, tt)));
  table_unique = (refl, (refl, (refl, tt)));
  indexed = λ k. ground (arith, eq_iff k (text "a"), eq_iff k (text "b"), eq_iff k (text "c"));
}

touch_key_lem_example :
    (s' : LruEvictor) × (touch_key bump (text "b") three ≡ ok s')
    × ((xs : Cells) × Represents s' xs × (keys xs ≡ touched (text "b") (keys cells)))
touch_key_lem_example = touch_key_lem bump (text "b") three three-Represents

evict_lem_example :
    (s' : LruEvictor) × (evict three ≡ ok (text "a", s'))
    × Represents s' ((text "b", 2) ∷ (text "c", 3) ∷ [])
    × (read s'.nodes 1 ≡ none)
evict_lem_example = evict_lem three three-Represents

destroy_lem_example :
    (m' : Memory Node) × (destroy three.table three.nodes ≡ ok m')
    × ((q : Ptr) → read m' q ≡ (if contains q (ptrs three.table) then none else read three.nodes q))
    × ((k : Key) (p : Ptr) → find cells k ≡ some p → read m' p ≡ none)
destroy_lem_example = destroy_lem three three-Represents
