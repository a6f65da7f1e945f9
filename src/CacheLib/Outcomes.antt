-- ===== src/CacheLib/Outcomes.antt =====
-- `Cache::Impl::set` as a whole: what a caller sees on each of its branches.
use cs389hw.Shared.{
  ltb, ◌-◌, take, [], ℕ, suc, ◌+◌, ◌≤◌, ◌<◌, ◌^◌, ◌≡◌, ◌≢◌, refl, ap, subst, ◌∙◌, arith, some, none,
  List, ◌++◌, Key, Bytes, ok, is_some, if◌then◌else◌, ◌==◌, bytes_eq, contains, length,
  length-take_of_le, ◌>>=◌, true, false, inl, inr, Option, stop, assert_failed,
}
use cs389hw.Memory.{Lives, Allocator}
use cs389hw.Evictor.{Evictor, IsPolicy}
use cs389hw.CacheLib.{Impl, store, admit, set, make_room}
use cs389hw.CacheLib.Valid.{IsSound, IsValid, value, size_of, size_of_le}
use cs389hw.CacheLib.Room.{change, change_for_lem}
use cs389hw.CacheLib.Loop.{make_room_lem, make_room_fails, stop_here}
use cs389hw.CacheLib.Store.{touched_order}
use cs389hw.CacheLib.Set.{store_lem, copy-take}
use cs389hw.CacheLib.Admit.{
  copied, unused, copied-IsSound, copied-Lives, copied-IsValid, value-copied, admit-refused,
  refused, admit_full, admit_room,
}

-- `set` up to the first test
pub admits :
    {S : Type 0} (ev : Evictor S) (alloc : Allocator Bytes) (rounds : ℕ) (key : Key) (val : Bytes)
    (size : ℕ) {s : Impl S}
    → IsSound s
    → size ≤ length val
    → size < 2 ^ 31
    → set ev alloc rounds key val size s
      ≡ admit ev rounds key val
          (alloc.fresh s.buffers)
          size
          (change s key size)
          (copied alloc size val s)
unfolding set
admits ev alloc rounds key val size h whole int =
    rw (copy-take size val whole, change_for_lem h key size int)

module _ {S : Type 0} {ev : Evictor S} {P : IsPolicy ev} (alloc : Allocator Bytes) (rounds : ℕ)
    (key : Key) (val : Bytes) (size : ℕ) {s : Impl S} {l : List Key} (h : IsValid P s l)
    (whole : size ≤ length val) where
  pub set-admit :
      size < 2 ^ 31
      → set ev alloc rounds key val size s
        ≡ admit ev rounds key val
            (alloc.fresh s.buffers)
            size
            (change s key size)
            (copied alloc size val s)
  set-admit int = admits ev alloc rounds key val size h.sound whole int

  -- A value that is larger than the whole cache, even with the key's old value gone, is refused:
  -- table and evictor stay as they are, and the copy of the value stays allocated. The line that is
  -- printed has the value as a C string in it: with no NUL in the value this reads past its end.
  pub set_refused :
      size < 2 ^ 31
      → s.my_maxmem + size_of s key < size
      → set ev alloc rounds key val size s ≡ refused val (copied alloc size val s)
  set_refused int large =
      set-admit int
      ∙ admit-refused ev rounds key val (alloc.fresh s.buffers) size
          (copied-IsSound alloc size val h.sound) large

  -- With no evictor, a value for which there is no room is refused in the same way.
  pub set_full :
      s.my_evictor ≡ none
      → size ≤ s.my_maxmem + size_of s key
      → s.my_maxmem + size_of s key < s.current_mem + size
      → set ev alloc rounds key val size s ≡ refused val (copied alloc size val s)
  set_full off small over =
      set-admit (omega (arith, h.sound.small, h.sound.bounded, size_of_le h.sound key))
      ∙ admit_full ev rounds key val (alloc.fresh s.buffers) size
          (copied-IsSound alloc size val h.sound) small off over

  -- With an evictor, a larger value for a key that is in the cache runs the evictor dry, and the
  -- assertion on the evicted key stops the program.
  pub set_aborts :
      is_some s.my_evictor ≡ true
      → s.my_maxmem < size
      → size ≤ s.my_maxmem + size_of s key
      → length l < rounds
      → set ev alloc rounds key val size s ≡ stop assert_failed
  set_aborts on large small enough =
      let int : size < 2 ^ 31 =
        omega (arith, h.sound.small, h.sound.bounded, size_of_le h.sound key) in
      let in_range : s.current_mem + size < 2 ^ 31 + size_of s key =
        omega (arith, h.sound.small, h.sound.bounded) in
      set-admit int
      ∙ admit_room ev rounds key val (alloc.fresh s.buffers) size
          (copied-IsSound alloc size val h.sound) small (inl on)
      ∙ ap (λ r. r >>= store ev key (alloc.fresh s.buffers) size)
          (make_room_fails P key size rounds l (copied-IsValid alloc size val h) on large int
            in_range enough)

-- The keys that left and those that stayed when `key` was stored.
pub record Stored {S : Type 0} {ev : Evictor S} (P : IsPolicy ev) (s : Impl S) (l : List Key)
    (key : Key) (v : Bytes) (s' : Impl S) : Type 0 where
  pub dropped : List Key
  pub kept : List Key
  pub parts : l ≡ dropped ++ kept
  pub valid : IsValid P s' (P.touched key kept)
  pub values :
      (j : Key)
      → value s' j ≡ (if j == key then some v else if contains j dropped then none else value s j)

touched_some :
    {S : Type 0} {ev : Evictor S} (P : IsPolicy ev) (o : Option S) (k : Key) (l : List Key)
    → is_some o ≡ true
    → touched_order P o k l ≡ P.touched k l
touched_some P none k l h = cc
touched_some P (some e) k l h = refl

module _ {S : Type 0} {ev : Evictor S} {P : IsPolicy ev} (alloc : Allocator Bytes) (rounds : ℕ)
    (key : Key) (val : Bytes) (size : ℕ) {s : Impl S} {l : List Key} (h : IsValid P s l)
    (whole : size ≤ length val) (real : key ≢ []) where
  -- A value for which there is room is stored: the key has it, and every other key has what it
  -- had. With an evictor the key is told to it.
  pub set_fits :
      0 < rounds
      → s.current_mem + size ≤ s.my_maxmem + size_of s key
      → (s' : Impl S) × (set ev alloc rounds key val size s ≡ ok s')
        × IsValid P s' (touched_order P s.my_evictor key l)
        × ((j : Key) → value s' j ≡ (if j == key then some (take size val) else value s j))
  set_fits enough fits =
      let p = alloc.fresh s.buffers in
      let s₁ = copied alloc size val s in
      let sound₁ = copied-IsSound alloc size val h.sound in
      let old = size_of_le h.sound key in
      let small : size ≤ s.my_maxmem + size_of s key = omega (arith, old) in
      let int : size < 2 ^ 31 = omega (arith, old, h.sound.small, h.sound.bounded) in
      let in_range : s.current_mem + size < 2 ^ 31 + size_of s key =
        omega (arith, h.sound.small, h.sound.bounded) in
      let one_more : rounds ≡ suc (rounds - 1) = omega arith in
      let done : ltb (s.my_maxmem + size_of s key) (s.current_mem + size) ≡ false = ground arith in
      let (s', run, valid, values) =
        store_lem P key p (take size val) size (copied-IsValid alloc size val h) real
          (copied-Lives s alloc size val) (unused alloc size val h.sound)
          (length-take_of_le size val whole) fits in
      (
        s',
        set-admit alloc rounds key val size h whole int
            ∙ admit_room ev rounds key val p size sound₁ small (inr fits)
            ∙ ap (λ r. r >>= store ev key p size)
                (ap (λ r. make_room ev r key size (change s key size) s₁) one_more
                  ∙ stop_here P key size (copied-IsValid alloc size val h) (rounds - 1) in_range
                      done)
            ∙ run,
        valid,
        λ j. ground (arith, values j, value-copied alloc size val h.sound j),
      )

  -- With an evictor, a value that fits into the whole cache is always stored. The keys that make
  -- room for it are the first ones of the evictor's order, and every other key has what it had.
  pub set_stores :
      is_some s.my_evictor ≡ true
      → size ≤ s.my_maxmem
      → length l < rounds
      → (s' : Impl S) × (set ev alloc rounds key val size s ≡ ok s')
        × Stored P s l key (take size val) s'
  set_stores on small enough =
      let p = alloc.fresh s.buffers in
      let v = take size val in
      let sound₁ = copied-IsSound alloc size val h.sound in
      let int : size < 2 ^ 31 = omega (arith, h.sound.small) in
      let (s₂, room, r) =
        make_room_lem P key size rounds l (copied-IsValid alloc size val h) on small enough in
      let d = r.without_dropped in
      let (same, out) = d.spared p (unused alloc size val h.sound) in
      let alive : Lives s₂.buffers p v = record {
        ne_null = alloc.fresh_ne_null s.buffers;
        holds = same ∙ (copied-Lives s alloc size val).holds;
      } in
      let (s', run, valid, values) =
        store_lem P key p v size r.valid real alive out (length-take_of_le size val whole) r.fits in
      (
        s',
        set-admit alloc rounds key val size h whole int
            ∙ admit_room ev rounds key val p size sound₁ (omega arith) (inl on)
            ∙ ap (λ x. x >>= store ev key p size) room
            ∙ run,
        record {
          dropped = r.dropped;
          kept = r.kept;
          parts = r.parts;
          valid =
              subst (IsValid P s') (touched_some P s₂.my_evictor key r.kept (d.same_evictor ∙ on))
                valid;
          values = λ j. ground (arith, values j, d.values j, value-copied alloc size val h.sound j);
        },
      )
