-- ===== src/Lru/Policy.antt =====
-- The least-recently-used evictor fills the interface of the policies.
use cs389hw.Shared.{
  ◌≡◌, refl, arith, ok, ◌||◌, List, [], ◌∷◌, Key, ap, ◌∙◌, ◌==◌, bytes_eq, contains, without,
  contains-append, contains-without,
}
use cs389hw.Shared.Tables.{keys}
use cs389hw.Memory.{Allocator}
use cs389hw.Evictor.{IsPolicy}
use cs389hw.Lru.{Node, LruEvictor, create, evict, evictor}
use cs389hw.Lru.Segment.{Cells, nil}
use cs389hw.Lru.Order.{Represents, touched}
use cs389hw.Lru.Insert.{touch_key_lem}
use cs389hw.Lru.Evict.{evict_empty, evict_lem}

-- The keys in the order in which they were last touched, the oldest first.
abbrev pub Holds : LruEvictor → List Key → Type 0
Holds s l = (xs : Cells) × Represents s xs × (keys xs ≡ l)

pub create-Holds : Holds create []
unfolding create
create-Holds = (
  [],
  record {
    chain = nil refl refl;
    distinct = tt;
    unique = tt;
    table_unique = tt;
    indexed = λ k. refl;
  },
  refl,
)

pub contains-touched :
    (j k : Key) (l : List Key) → contains j (touched k l) ≡ ((j == k) || contains j l)
contains-touched j k l =
    ground (arith, contains-append j (without k l) (k ∷ []), contains-without j k l)

pub evict_none : (s : LruEvictor) → Holds s [] → evict s ≡ ok ([], s)
evict_none s ([], h, e) = evict_empty s h
evict_none s (x ∷ xs, h, e) = cc

pub evict_some :
    (k : Key) (s : LruEvictor) (l : List Key)
    → Holds s (k ∷ l)
    → (s' : LruEvictor) × (evict s ≡ ok (k, s')) × Holds s' l
evict_some k s l ([], h, e) = cc
evict_some k s l ((j, p) ∷ xs, h, e) =
    let same : j ≡ k = cc in
    let (s', run, h', freed) = evict_lem s h in (s', run ∙ ap (λ x. ok (x, s')) same, (xs, h', cc))

module _ (alloc : Allocator Node) where
  unfoldable pub policy : IsPolicy (evictor alloc)
  unfolding evictor
  policy = record {
    Holds = Holds;
    touched = touched;
    contains-touched = contains-touched;
    touch_holds = λ k s l (xs, h, e).
        let (s', run, (xs', h', e')) = touch_key_lem alloc k s h in
        (s', run, (xs', h', e' ∙ ap (touched k) e));
    evict_empty = evict_none;
    evict_holds = evict_some;
  }
