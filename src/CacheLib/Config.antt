-- ===== src/CacheLib/Config.antt =====
-- cache_lib.cc: the capacity, and whether there is an evictor, across the operations.
use cs389hw.Shared.{
  subst, ap, Stop, ℕ, zero, suc, Bool, true, false, not, ◌&&◌, Option, none, some, List, [], ◌∷◌,
  ◌≡◌, refl, Key, Bytes, Result, ok, stop, ◌>>=◌, ◌>>◌, assert, ◌==◌, bytes_eq, nat_eq,
  if◌then◌else◌, is_some, leb,
}
use cs389hw.Shared.Int.{ℤ, to_int, ltb_ℤ}
use cs389hw.Shared.Tables.{find}
use cs389hw.Memory.{Allocator, delete}
use cs389hw.Evictor.{Evictor}
use cs389hw.CacheLib.{
  Block, Impl, copy, change_for, free, exceeds, free_found, drop_found, del_found, del, free_all,
  evict_one, make_room, touch, store, print_string, admit, set, get_found, get, drain,
  drain_evictor, reset,
}

abbrev pub config : {S : Type 0} → Impl S → ℕ × Bool
config s = (s.my_maxmem, is_some s.my_evictor)

module _ {S : Type 0} where
  -- A result, if there is one, has a state with this configuration.
  unfoldable pub Has : {A : Type 0} → (A → Impl S) → ℕ × Bool → Result A → Type 0
  Has f c (ok a) = config (f a) ≡ c
  Has f c (stop e) = Unit

  pub ok_Has :
      {A : Type 0} (f : A → Impl S) (c : ℕ × Bool) (a : A) → config (f a) ≡ c → Has f c (ok a)
  unfolding Has
  ok_Has f c a h = h

  pub stop_Has : {A : Type 0} (f : A → Impl S) (c : ℕ × Bool) (e : Stop) → Has f c (stop e)
  unfolding Has
  stop_Has f c e = tt

  pub of_Has :
      {A : Type 0} (f : A → Impl S) (c : ℕ × Bool) (r : Result A) {a : A}
      → Has f c r
      → r ≡ ok a
      → config (f a) ≡ c
  unfolding Has
  of_Has f c r h e = subst (Has f c) e h

  pub then_Has :
      {A B : Type 0} (f : A → Impl S) (g : B → Impl S) (c : ℕ × Bool) (m : Result A)
      (k : A → Result B)
      → Has f c m
      → ((a : A) → Has g (config (f a)) (k a))
      → Has g c (m >>= k)
  unfolding Has
  then_Has f g c (ok a) k h i = subst (λ c. Has g c (k a)) h (i a)
  then_Has f g c (stop e) k h i = tt

  pub after_Has :
      {A B : Type 0} (g : B → Impl S) (c : ℕ × Bool) (m : Result A) (k : A → Result B)
      → ((a : A) → Has g c (k a))
      → Has g c (m >>= k)
  unfolding Has
  after_Has g c (ok a) k i = i a
  after_Has g c (stop e) k i = tt

  pub assert-Has :
      {B : Type 0} (g : B → Impl S) (c : ℕ × Bool) (b : Bool) (k : Result B)
      → Has g c k
      → Has g c (assert b >> k)
  unfolding Has
  assert-Has g c true k h = h
  assert-Has g c false k h = tt

  pub if_Has :
      {A : Type 0} (f : A → Impl S) (c : ℕ × Bool) (b : Bool) (m k : Result A)
      → Has f c m
      → Has f c k
      → Has f c (if b then m else k)
  if_Has f c true m k h i = h
  if_Has f c false m k h i = i

  -- The state that is the whole result, and the one beside it.
  abbrev pub itself : Impl S → Impl S
  itself s = s

  abbrev pub beside : {A : Type 0} → A × Impl S → Impl S
  beside (a, s) = s

  free-Has : (key : Key) (b : Block) (s : Impl S) → Has itself (config s) (free key b s)
  unfolding free
  free-Has key b s =
      assert-Has itself _ (leb b.size s.current_mem) _
        (after_Has itself _ (delete s.buffers b.address) _ λ m. ok_Has itself _ _ refl)

  free_found-Has :
      (o : Option Block) (key : Key) (s : Impl S) → Has itself (config s) (free_found o key s)
  unfolding free_found
  free_found-Has none key s = ok_Has itself _ _ refl
  free_found-Has (some b) key s = free-Has key b s

  drop_found-Has :
      (o : Option Block) (j key : Key) (size : ℕ) (size_change : ℤ) (s : Impl S)
      → Has beside (config s) (drop_found o j key size size_change s)
  unfolding drop_found
  drop_found-Has none j key size x s = ok_Has beside _ _ refl
  drop_found-Has (some b) j key size x s =
      then_Has itself beside _ (free j b s) _ (free-Has j b s) λ s. ok_Has beside _ _ refl

  del_found-Has :
      (o : Option Block) (key : Key) (s : Impl S) → Has beside (config s) (del_found o key s)
  unfolding del_found
  del_found-Has none key s = ok_Has beside _ _ refl
  del_found-Has (some b) key s = then_Has itself beside _ (free key b s) _ (free-Has key b s) λ s.
      assert-Has beside _ (leb s.table_load_factor s.my_max_load_factor) _ (ok_Has beside _ _ refl)

  free_all-Has :
      (n : ℕ) (t : List (Key × Block)) (s : Impl S) → Has itself (config s) (free_all n t s)
  unfolding free_all
  free_all-Has n [] s = ok_Has itself _ _ refl
  free_all-Has zero (x ∷ t) s = stop_Has itself _ _
  free_all-Has (suc n) ((key, b) ∷ t) s =
      then_Has itself itself _ (free key b s) _ (free-Has key b s) λ s. free_all-Has n s.table s

  pub del_Has : (key : Key) (s : Impl S) → Has beside (config s) (del key s)
  unfolding del
  del_Has key s = del_found-Has (find s.table key) key s

module _ {S : Type 0} (ev : Evictor S) where
  evict_one-Has :
      (o : Option S) (key : Key) (size : ℕ) (x : ℤ) (s : Impl S)
      → is_some o ≡ is_some s.my_evictor
      → Has beside (config s) (evict_one ev o key size x s)
  unfolding evict_one
  evict_one-Has none key size x s h = stop_Has beside _ _
  evict_one-Has (some e) key size x s h = after_Has beside _ (ev.evict e) _ λ y.
      assert-Has beside _ (not (y.0 == [])) _ (
        subst
          (λ b.
            Has beside (s.my_maxmem, b)
              (drop_found (find s.table y.0) y.0 key size x (record s { my_evictor = some y.1 })))
          h (drop_found-Has (find s.table y.0) y.0 key size x (record s { my_evictor = some y.1 })))

  room_Has :
      (over : Bool) (m k : Result (Impl S)) (c : ℕ × Bool)
      → Has itself c m
      → Has itself c k
      → Has itself c (elim over [ true ↦ m | false ↦ k ])
  room_Has true m k c h i = h
  room_Has false m k c h i = i

  make_room-Has :
      (n : ℕ) (key : Key) (size : ℕ) (x : ℤ) (s : Impl S)
      → Has itself (config s) (make_room ev n key size x s)
  unfolding make_room
  make_room-Has zero key size x s = stop_Has itself _ _
  make_room-Has (suc n) key size x s = after_Has itself _ (exceeds x s) _ λ over.
      room_Has over _ _ _
        (then_Has beside itself _ (evict_one ev s.my_evictor key size x s) _
          (evict_one-Has s.my_evictor key size x s refl) λ y. make_room-Has n key size y.0 y.1)
        (ok_Has itself _ _ refl)

  touch-Has :
      (o : Option S) (key : Key) (s : Impl S)
      → is_some o ≡ is_some s.my_evictor
      → Has itself (config s) (touch ev o key s)
  unfolding touch
  touch-Has none key s h = ok_Has itself _ _ refl
  touch-Has (some e) key s h =
      after_Has itself _ (ev.touch_key key e) _
        λ e'. ok_Has itself _ _ (ap (λ b. (s.my_maxmem, b)) h)

  pub store-Has :
      (key : Key) (p size : ℕ) (s : Impl S) → Has itself (config s) (store ev key p size s)
  unfolding store
  store-Has key p size s =
      then_Has itself itself _ (free_found (find s.table key) key s) _
        (free_found-Has (find s.table key) key s)
        λ s. assert-Has itself _ _ _ (assert-Has itself _ _ _ (touch-Has s.my_evictor key _ refl))

  printed_Has : (r : Result (Unit {0})) (s : Impl S) → Has itself (config s) (r >> ok s)
  printed_Has (ok done) s = ok_Has itself _ _ refl
  printed_Has (stop e) s = stop_Has itself _ _

  print_Has : (val : Bytes) (s : Impl S) → Has itself (config s) (print_string val >> ok s)
  print_Has val s = printed_Has (print_string val) s

  admit-Has :
      (n : ℕ) (key : Key) (val : Bytes) (p size : ℕ) (x : ℤ) (s : Impl S)
      → Has itself (config s) (admit ev n key val p size x s)
  unfolding admit
  admit-Has n key val p size x s = assert-Has itself _ _ _ (
      if_Has itself _ (ltb_ℤ (to_int s.my_maxmem) x) _ _ (print_Has val s) (
        after_Has itself _ (exceeds x s) _ λ over.
          if_Has itself _ (not (is_some s.my_evictor) && over) _ _ (print_Has val s) (
            then_Has itself itself _ (make_room ev n key size x s) _ (make_room-Has n key size x s)
              λ s. store-Has key p size s)))

  pub set_Has :
      (alloc : Allocator Bytes) (n : ℕ) (key : Key) (val : Bytes) (size : ℕ) (s : Impl S)
      → Has itself (config s) (set ev alloc n key val size s)
  unfolding set
  set_Has alloc n key val size s = after_Has itself _ (copy size val) _ λ bytes.
      after_Has itself _ (change_for (find s.table key) size) _
        λ x. admit-Has n key val (alloc.fresh s.buffers) size x _

  get_found-Has :
      (o : Option Block) (key : Key) (s : Impl S) → Has beside (config s) (get_found ev o key s)
  unfolding get_found
  get_found-Has none key s = ok_Has beside _ _ refl
  get_found-Has (some b) key s =
      then_Has itself beside _ (touch ev s.my_evictor key s) _ (touch-Has s.my_evictor key s refl)
        λ s. ok_Has beside _ _ refl

  pub get_Has : (key : Key) (s : Impl S) → Has beside (config s) (get ev key s)
  unfolding get
  get_Has key s = get_found-Has (find s.table key) key s

  drained_Has :
      (r : Result S) (s : Impl S)
      → true ≡ is_some s.my_evictor
      → Has itself (config s) (
          (r >>= λ e. ok (some e)) >>= λ e.
          ok (record s { table = []; current_mem = 0; my_evictor = e }))
  drained_Has (ok e) s h = ok_Has itself _ _ (ap (λ b. (s.my_maxmem, b)) h)
  drained_Has (stop x) s h = stop_Has itself _ _

  drain_evictor-Has :
      (n : ℕ) (o : Option S) (s : Impl S)
      → is_some o ≡ is_some s.my_evictor
      → Has itself (config s) (
          drain_evictor ev n o >>= λ e.
          ok (record s { table = []; current_mem = 0; my_evictor = e }))
  unfolding drain_evictor
  drain_evictor-Has n none s h = ok_Has itself _ _ (ap (λ b. (s.my_maxmem, b)) h)
  drain_evictor-Has n (some e) s h = drained_Has (drain ev n e) s h

  pub reset_Has : (n : ℕ) (s : Impl S) → Has itself (config s) (reset ev n s)
  unfolding reset
  reset_Has n s =
      then_Has itself itself _ (free_all n s.table s) _ (free_all-Has n s.table s)
        λ s. drain_evictor-Has n s.my_evictor s refl
