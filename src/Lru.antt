-- ===== src/Lru.antt =====
-- lru_evictor.hh and lru_evictor.cc: the least-recently-used policy. The nodes of the doubly linked
-- list stand in a memory; `table` leads from a key to its node.
pub mod Segment
pub mod Size
pub mod Order
pub mod Move
pub mod Insert
pub mod Evict
pub mod Policy
pub mod Destroy
use cs389hw.Shared.{
  ◌≡◌, Bool, true, false, not, ◌||◌, Option, none, some, List, [], ◌∷◌, Key, Result, ok, stop,
  assert, ◌>>=◌, ◌>>◌, ◌==◌, nat_eq, bytes_eq, if◌then◌else◌,
}
use cs389hw.Shared.Tables.{find, insert, erase}
use cs389hw.Memory.{Ptr, null, Memory, write, load, delete, Allocator}
use cs389hw.Evictor.{Evictor}

pub record Node : Type 0 where
  pub prev : Ptr
  pub next : Ptr
  pub key : Key

abbrev pub node : Ptr → Ptr → Key → Node
node p n k = record { prev = p; next = n; key = k }

pub record LruEvictor : Type 0 where
  pub nodes : Memory Node
  pub table : List (Key × Ptr)
  pub head : Ptr
  pub tail : Ptr

-- `p->next = q`
unfoldable pub set_next : Ptr → Ptr → Memory Node → Result (Memory Node)
set_next p q m = do n ← load m p; ok (write m p (some (record n { next = q })))

-- `p->prev = q`
unfoldable pub set_prev : Ptr → Ptr → Memory Node → Result (Memory Node)
set_prev p q m = do n ← load m p; ok (write m p (some (record n { prev = q })))

-- the constructor
unfoldable pub create : LruEvictor
create = record { nodes = []; table = []; head = null; tail = null }

-- The three writes that make `address` the tail: both branches of `touch_key` end with them.
unfoldable pub append_tail : Ptr → Ptr → Memory Node → Result (Memory Node)
append_tail tail address m = do
  assert (not (tail == null))
  m ← set_next tail address m
  m ← set_prev address tail m
  set_next address null m

-- `touch_key` at the head of a longer list: `address` is the least recently used node.
unfoldable pub move_head : Ptr → Node → LruEvictor → Result LruEvictor
move_head address n s = do
  assert (not (n.next == null))
  after ← load s.nodes n.next
  assert (after.prev == s.head)
  m ← set_prev n.next null s.nodes
  m ← append_tail s.tail address m
  ok (record s { nodes = m; head = n.next; tail = address })

-- `touch_key` in the middle of the list
unfoldable pub move_middle : Ptr → Node → LruEvictor → Result LruEvictor
move_middle address n s = do
  assert (not (n.prev == null))
  assert (not (n.next == null))
  m ← set_next n.prev n.next s.nodes
  n' ← load m address
  m ← set_prev n'.next n'.prev m
  m ← append_tail s.tail address m
  ok (record s { nodes = m; tail = address })

-- `touch_key`, where the key is in the list: its node becomes the tail.
unfoldable pub touch_present : Ptr → LruEvictor → Result LruEvictor
touch_present address s = do
  assert (not (address == null))
  n ← load s.nodes address
  if n.prev == null
      then (assert (address == s.head)
          >> (if address == s.tail then ok s else move_head address n s))
      else if address == s.tail
      then ok s
      else move_middle address n s

-- `touch_key`, where the key is new: `new_node` becomes the tail. `m` has the new node.
unfoldable pub touch_new : Ptr → LruEvictor → Result LruEvictor
touch_new new_node s =
    if s.tail == null
    then (do
      assert (s.head == null)
      m ← set_next new_node null s.nodes
      m ← set_prev new_node null m
      ok (record s { nodes = m; head = new_node; tail = new_node }))
    else if s.tail == s.head
    then (do
      m ← set_prev new_node s.head s.nodes
      m ← set_next s.head new_node m
      m ← set_prev s.head null m
      ok (record s { nodes = m; tail = new_node }))
    else do
      assert (not (s.head == null))
      last ← load s.nodes s.tail
      assert (last.next == null)
      m ← set_next s.tail new_node s.nodes
      m ← set_prev new_node s.tail m
      ok (record s { nodes = m; tail = new_node })

module _ (alloc : Allocator Node) where
  -- The two branches on `iter == table->end()`.
  unfoldable pub touch_at : Option Ptr → Key → LruEvictor → Result LruEvictor
  touch_at none my_key s =
      let new_node = alloc.fresh s.nodes in
      touch_new new_node (record s {
        nodes = write s.nodes new_node (some (node null null my_key));
        table = insert s.table my_key new_node;
      })
  touch_at (some address) my_key s = touch_present address s

  unfoldable pub touch_key : Key → LruEvictor → Result LruEvictor
  touch_key my_key s = touch_at (find s.table my_key) my_key s

unfoldable pub evict : LruEvictor → Result (Key × LruEvictor)
evict s = if s.head == null then ok ([], s) else do
  first ← load s.nodes s.head
  m ← if first.next == null then ok s.nodes else set_prev first.next null s.nodes
  let only = s.tail == s.head
  old ← load m s.head
  let t = erase s.table old.key
  m ← delete m s.head
  ok (
    first.key,
    record s {
      nodes = m;
      table = t;
      head = if only then null else first.next;
      tail = if only then null else s.tail;
    },
  )

-- the destructor: `delete iter->second` over the table
unfoldable pub destroy : List (Key × Ptr) → Memory Node → Result (Memory Node)
destroy [] m = ok m
destroy ((k, p) ∷ t) m = do m ← delete m p; destroy t m

unfoldable pub evictor : Allocator Node → Evictor LruEvictor
evictor alloc = record { touch_key = touch_key alloc; evict = evict }
