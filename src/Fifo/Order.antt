-- ===== src/Fifo/Order.antt =====
-- fifo_evictor.cc as a policy of the interface in evictor.hh.
use cs389hw.Shared.{◌||◌}
use cs389hw.Shared.{◌==◌}
use cs389hw.Shared.{contains}
use cs389hw.Shared.{◌≡◌, refl, arith, Key, List, [], ◌∷◌, ◌++◌, contains-append, bytes_eq}
use cs389hw.Evictor.{IsPolicy}
use cs389hw.Fifo.{FifoEvictor, evict, pop_front, evictor}

abbrev pub Holds : FifoEvictor → List Key → Type 0
Holds s l = s.my_que ≡ l

abbrev pub touched : Key → List Key → List Key
touched k l = l ++ k ∷ []

pub contains-touched :
    (j k : Key) (l : List Key) → contains j (touched k l) ≡ ((j == k) || contains j l)
contains-touched j k l = ground (arith, contains-append j l (k ∷ []))

unfoldable pub policy : IsPolicy evictor
unfolding evictor
policy = record {
  Holds = Holds;
  touched = touched;
  contains-touched = contains-touched;
  touch_holds = λ k s l h. (record s { my_que = s.my_que ++ k ∷ [] }, refl, rw h);
  evict_empty = λ s h. rw (h, evict, pop_front);
  evict_holds = λ k s l h. (record s { my_que = l }, rw (h, evict, pop_front), refl);
}
