-- ===== src/Fifo.antt =====
-- fifo_evictor.hh and fifo_evictor.cc: the first-in, first-out policy. The `std::queue` is a list,
-- its front first. The C++ code takes no lock here.
pub mod Order
use cs389hw.Shared.{Key, Result, ok, List, [], ◌∷◌, ◌++◌}
use cs389hw.Evictor.{Evictor}

pub record FifoEvictor : Type 0 where
  pub my_que : List Key

-- the constructor
unfoldable pub create : FifoEvictor
create = record { my_que = [] }

unfoldable pub touch_key : Key → FifoEvictor → Result FifoEvictor
touch_key my_key s = ok (record s { my_que = s.my_que ++ my_key ∷ [] })

-- the queue's front, and what is left; the empty key if there is none
unfoldable pub pop_front : List Key → Key × List Key
pop_front [] = ([], [])
pop_front (k ∷ q) = (k, q)

unfoldable pub evict : FifoEvictor → Result (Key × FifoEvictor)
unfolding pop_front
evict s = let (k, q) = pop_front s.my_que in ok (k, record s { my_que = q })

-- the destructor: `pop` until the queue is empty
unfoldable pub destroy : List Key → List Key
destroy [] = []
destroy (k ∷ q) = destroy q

unfoldable pub evictor : Evictor FifoEvictor
unfolding touch_key evict
evictor = record { touch_key = touch_key; evict = evict }
