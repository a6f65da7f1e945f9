-- ===== src/CacheLib.antt =====
-- cache_lib.cc: `Cache::Impl`, the store with a bound on the memory that its values take.
--
-- A buffer from `new byte_type[size]` is an object of the memory `buffers`, its bytes the value. A
-- load factor is a number of hundredths. `int` arithmetic that leaves the range of `int` stops the
-- model. The two `while` loops take a number of rounds.
pub mod Blocks
pub mod Valid
pub mod Room
pub mod Loop
pub mod Sized
pub mod Store
pub mod Set
pub mod Admit
pub mod Outcomes
pub mod EmptyKey
pub mod Access
pub mod Reset
pub mod Config
pub mod Agrees
use cs389hw.Shared.{
  ℕ, zero, suc, ◌+◌, ◌-◌, ◌%◌, Bool, true, false, not, ◌&&◌, Option, none, some, List, [], ◌∷◌, Key,
  Bytes, Result, ok, stop, bad_access, out_of_fuel, assert, ◌>>=◌, ◌>>◌, ◌==◌, nat_eq, bytes_eq,
  leb, if◌then◌else◌, is_some,
}
use cs389hw.Shared.Int.{ℤ, pos, u32, to_int, ltb_ℤ, add_int, sub_int}
use cs389hw.Shared.Tables.{find, insert, erase}
use cs389hw.Memory.{Ptr, null, Memory, write, delete, Allocator}
use cs389hw.Evictor.{Evictor}

-- `pair_type`: the buffer of a value, and its size.
pub record Block : Type 0 where
  pub address : Ptr
  pub size : ℕ

-- The fields of `Impl`; `my_evictor` is `none` for a null pointer.
pub record Impl (S : Type 0) : Type 0 where
  pub my_maxmem : ℕ
  pub current_mem : ℕ
  pub table : List (Key × Block)
  pub table_load_factor : ℕ
  pub my_max_load_factor : ℕ
  pub buffers : Memory Bytes
  pub my_evictor : Option S

-- the constructor
unfoldable pub create : {S : Type 0} → ℕ → ℕ → Option S → Impl S
create maxmem max_load_factor evictor = record {
  my_maxmem = maxmem;
  current_mem = 0;
  table = [];
  table_load_factor = max_load_factor;
  my_max_load_factor = max_load_factor;
  buffers = [];
  my_evictor = evictor;
}

-- The loop that copies `size` bytes of `val`.
unfoldable pub copy : ℕ → Bytes → Result Bytes
copy zero val = ok []
copy (suc n) [] = stop bad_access
copy (suc n) (c ∷ val) = do rest ← copy n val; ok (c ∷ rest)

-- `std::cout << val`: the bytes are read up to the first NUL.
unfoldable pub print_string : Bytes → Result (Unit {0})
print_string [] = stop bad_access
print_string (c ∷ val) = if c == 0 then ok tt else print_string val

-- The two branches that set `size_change`.
unfoldable pub change_for : Option Block → ℕ → Result ℤ
change_for none size = ok (to_int size)
change_for (some b) size = sub_int (to_int size) (to_int b.size)

module _ {S : Type 0} where
  -- `free(iter)`, of the entry `key` with the block `b`
  unfoldable pub free : Key → Block → Impl S → Result (Impl S)
  free key b s = do
    assert (leb b.size s.current_mem)
    m ← delete s.buffers b.address
    ok (record s { current_mem = s.current_mem - b.size; table = erase s.table key; buffers = m })

  -- `int(current_mem) + size_change > int(my_maxmem)`
  unfoldable pub exceeds : ℤ → Impl S → Result Bool
  exceeds size_change s = do
    sum ← add_int (to_int s.current_mem) size_change
    ok (ltb_ℤ (to_int s.my_maxmem) sum)

  -- `if(iter != table->end()) free(iter);`
  unfoldable pub free_found : Option Block → Key → Impl S → Result (Impl S)
  free_found none key s = ok s
  free_found (some b) key s = free key b s

  -- The part of the loop's body after `table->find(eviction_key)`.
  unfoldable pub drop_found : Option Block → Key → Key → ℕ → ℤ → Impl S → Result (ℤ × Impl S)
  drop_found none eviction_key key size size_change s = ok (size_change, s)
  drop_found (some b) eviction_key key size size_change s = do
    let changed = if eviction_key == key then to_int size else size_change
    s ← free eviction_key b s
    ok (changed, s)

  unfoldable pub del_found : Option Block → Key → Impl S → Result (Bool × Impl S)
  del_found none key s = ok (false, s)
  del_found (some b) key s = do
    s ← free key b s
    assert (leb s.table_load_factor s.my_max_load_factor)
    ok (true, s)

  unfoldable pub del : Key → Impl S → Result (Bool × Impl S)
  del key s = del_found (find s.table key) key s

  unfoldable pub get_current_mem : Impl S → ℕ
  get_current_mem s = s.current_mem

  -- `while(!table->empty()) free(table->cbegin());`
  unfoldable pub free_all : ℕ → List (Key × Block) → Impl S → Result (Impl S)
  free_all rounds [] s = ok s
  free_all zero (x ∷ t) s = stop out_of_fuel
  free_all (suc n) ((key, b) ∷ t) s = do s ← free key b s; free_all n s.table s

module _ {S : Type 0} (ev : Evictor S) where
  -- The body of the loop in `set` that makes room.
  unfoldable pub evict_one : Option S → Key → ℕ → ℤ → Impl S → Result (ℤ × Impl S)
  evict_one none key size size_change s = stop bad_access
  evict_one (some e) key size size_change s = do
    (eviction_key, e') ← ev.evict e
    assert (not (eviction_key == []))
    drop_found (find s.table eviction_key) eviction_key key size size_change
        (record s { my_evictor = some e' })

  -- `while(int(current_mem) + size_change > int(my_maxmem))`
  unfoldable pub make_room : ℕ → Key → ℕ → ℤ → Impl S → Result (Impl S)
  make_room zero key size size_change s = stop out_of_fuel
  make_room (suc n) key size size_change s = do
    over ← exceeds size_change s
    elim over [
      | true ↦ do
        (size_change, s) ← evict_one s.my_evictor key size size_change s
        make_room n key size size_change s
      | false ↦ ok s
    ]

  -- `if (my_evictor) {my_evictor->touch_key(key);}`
  unfoldable pub touch : Option S → Key → Impl S → Result (Impl S)
  touch none key s = ok s
  touch (some e) key s = do e' ← ev.touch_key key e; ok (record s { my_evictor = some e' })

  -- The part of `set` after the loop; `copied_val` holds the bytes.
  unfoldable pub store : Key → Ptr → ℕ → Impl S → Result (Impl S)
  store key copied_val size s = do
    s ← free_found (find s.table key) key s
    let s = record s {
      table = insert s.table key (record { address = copied_val; size = size });
      current_mem = (s.current_mem + size) % u32;
    }
    assert (leb s.table_load_factor s.my_max_load_factor)
    assert (leb s.current_mem s.my_maxmem)
    touch s.my_evictor key s

  -- The part of `set` after `size_change` is known. A refusal prints a line with
  -- `val` in it and returns.
  unfoldable pub admit : ℕ → Key → Bytes → Ptr → ℕ → ℤ → Impl S → Result (Impl S)
  unfolding print_string
  admit rounds key val copied_val size size_change s = do
    assert (leb s.current_mem s.my_maxmem)
    if ltb_ℤ (to_int s.my_maxmem) size_change then print_string val >> ok s else do
      over ← exceeds size_change s
      if not (is_some s.my_evictor) && over
          then print_string val >> ok s
          else do s ← make_room rounds key size size_change s; store key copied_val size s

  unfoldable pub set : Allocator Bytes → ℕ → Key → Bytes → ℕ → Impl S → Result (Impl S)
  set alloc rounds key val size s = do
    bytes ← copy size val
    let copied_val = alloc.fresh s.buffers
    let s = record s { buffers = write s.buffers copied_val (some bytes) }
    size_change ← change_for (find s.table key) size
    admit rounds key val copied_val size size_change s

  -- What `get` answers: the pointer and `val_size`.
  unfoldable pub get_found : Option Block → Key → Impl S → Result ((Ptr × ℕ) × Impl S)
  get_found none key s = ok ((null, 0), s)
  get_found (some b) key s = do s ← touch s.my_evictor key s; ok ((b.address, b.size), s)

  unfoldable pub get : Key → Impl S → Result ((Ptr × ℕ) × Impl S)
  get key s = get_found (find s.table key) key s

  -- `while(evicted != "" && my_evictor != nullptr) evicted = my_evictor->evict();`
  unfoldable pub drain : ℕ → S → Result S
  drain zero e = stop out_of_fuel
  drain (suc n) e = do
    (evicted, e') ← ev.evict e
    elim (evicted == []) [ true ↦ ok e' | false ↦ drain n e' ]

  unfoldable pub drain_evictor : ℕ → Option S → Result (Option S)
  drain_evictor rounds none = ok none
  drain_evictor rounds (some e) = do e' ← drain rounds e; ok (some e')

  unfoldable pub reset : ℕ → Impl S → Result (Impl S)
  reset rounds s = do
    s ← free_all rounds s.table s
    e ← drain_evictor rounds s.my_evictor
    ok (record s { table = []; current_mem = 0; my_evictor = e })

-- the destructor: `delete[]` over the table
unfoldable pub destroy : List (Key × Block) → Memory Bytes → Result (Memory Bytes)
destroy [] m = ok m
destroy ((key, b) ∷ t) m = do m ← delete m b.address; destroy t m
