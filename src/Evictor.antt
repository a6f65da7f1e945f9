-- ===== src/Evictor.antt =====
-- evictor.hh: the interface of the eviction policies, and what a cache relies on of one.
use cs389hw.Shared.{◌≡◌, ◌||◌, Key, Result, ok, List, [], ◌∷◌, contains, ◌==◌, bytes_eq}

-- `class Evictor`: its two pure virtual methods over the state of an implementation.
pub record Evictor (S : Type 0) : Type 0 where
  pub touch_key : Key → S → Result S
  pub evict : S → Result (Key × S)

-- `Holds s l`: the evictor's state is sound, and `l` is the order in which it will evict. The
-- empty key is the answer of `evict` when it knows of no key.
pub record IsPolicy {S : Type 0} (ev : Evictor S) : Type 1 where
  pub Holds : S → List Key → Type 0
  pub touched : Key → List Key → List Key
  pub contains-touched :
      (j k : Key) (l : List Key) → contains j (touched k l) ≡ ((j == k) || contains j l)
  pub touch_holds :
      (k : Key) (s : S) (l : List Key)
      → Holds s l
      → (s' : S) × (ev.touch_key k s ≡ ok s') × Holds s' (touched k l)
  pub evict_empty : (s : S) → Holds s [] → ev.evict s ≡ ok ([], s)
  pub evict_holds :
      (k : Key) (s : S) (l : List Key)
      → Holds s (k ∷ l)
      → (s' : S) × (ev.evict s ≡ ok (k, s')) × Holds s' l
