-- ===== src/CacheLib/Admit.antt =====
-- `Cache::Impl::set` as a whole, on each of its branches.
use cs389hw.Shared.{
  ◌&&◌, not, ltb, inl, inr, false, ◌⊎◌, take, lt→ltb, le→leb, contains, true, none, ℕ, ◌+◌, ◌≤◌,
  ◌<◌, ◌^◌, ◌≡◌, arith, some, List, ◌∷◌, [], refl, ap, Key, Bytes, Result, stop, bad_access, ◌>>◌,
  if◌then◌else◌, eq_iff, Bool-cases, ok, is_some, ◌>>=◌, nat_eq,
}
use cs389hw.Shared.Int.{to_int, ltb_ℤ}
use cs389hw.Memory.{read-write_self, Lives, write, Ptr, Allocator}
use cs389hw.CacheLib.Valid.{size_of_le, IsSound, IsValid, value, size_of}
use cs389hw.CacheLib.Room.{exceeds_lem, change}
use cs389hw.CacheLib.Blocks.{addresses, frame, content-write, unused_outside}
use cs389hw.Evictor.{Evictor, IsPolicy}
use cs389hw.CacheLib.{Impl, store, admit, make_room, print_string}

module _ {S : Type 0} where
  -- The state with the copy of the value in a new buffer.
  abbrev pub copied : Allocator Bytes → ℕ → Bytes → Impl S → Impl S
  copied alloc size val s = record s {
    buffers = write s.buffers (alloc.fresh s.buffers) (some (take size val));
  }

  module _ {s : Impl S} (alloc : Allocator Bytes) (size : ℕ) (val : Bytes) where
    pub unused : IsSound s → contains (alloc.fresh s.buffers) (addresses s.table) ≡ false
    unused h = unused_outside (alloc.fresh s.buffers) h.owned (alloc.fresh_unused s.buffers)

    pub copied-IsSound : IsSound s → IsSound (copied alloc size val s)
    copied-IsSound h = record {
      owned = frame (alloc.fresh s.buffers) (some (take size val)) (unused h) h.owned;
      accounted = h.accounted;
      bounded = h.bounded;
      loads = h.loads;
      small = h.small;
    }

    pub value-copied : IsSound s → (j : Key) → value (copied alloc size val s) j ≡ value s j
    value-copied h j =
        content-write (alloc.fresh s.buffers) (some (take size val)) j h.owned (unused h)

    pub copied-IsValid :
        {ev : Evictor S} {P : IsPolicy ev} {l : List Key}
        → IsValid P s l
        → IsValid P (copied alloc size val s) l
    copied-IsValid h = record {
      sound = copied-IsSound h.sound;
      ordered = h.ordered;
      covered = h.covered;
      named = h.named;
    }

pub copied-Lives :
    {S : Type 0} (s : Impl S) (alloc : Allocator Bytes) (size : ℕ) (val : Bytes)
    → Lives (copied alloc size val s).buffers (alloc.fresh s.buffers) (take size val)
copied-Lives s alloc size val = record {
  ne_null = alloc.fresh_ne_null s.buffers;
  holds = read-write_self s.buffers (alloc.fresh s.buffers) (some (take size val));
}

pub print_string_lem :
    (val : Bytes) → print_string val ≡ (if contains 0 val then ok tt else stop bad_access)
unfolding print_string
print_string_lem [] = refl
print_string_lem (c ∷ val) = ground (arith, print_string_lem val, eq_iff c 0)

-- What a refusal comes to: the value is printed, and has to be a C string.
abbrev pub refused : {S : Type 0} → Bytes → Impl S → Result (Impl S)
refused val s = if contains 0 val then ok s else stop bad_access

printed : {S : Type 0} (val : Bytes) (s : Impl S) → (print_string val >> ok s) ≡ refused val s
printed val s = elim (Bool-cases (contains 0 val)) [
  | inl e ↦ rw (print_string_lem val, e)
  | inr e ↦ rw (print_string_lem val, e)
]

module _ {S : Type 0} (ev : Evictor S) (rounds : ℕ) (key : Key) (val : Bytes) (p : Ptr) (size : ℕ)
    {s : Impl S} (h : IsSound s) where
  pub admit-refused :
      s.my_maxmem + size_of s key < size
      → admit ev rounds key val p size (change s key size) s ≡ refused val s
  unfolding admit
  admit-refused large =
      let bounded = le→leb s.current_mem s.my_maxmem h.bounded in
      let over_bound : ltb_ℤ (to_int s.my_maxmem) (change s key size) ≡ true =
        ground (arith, h.small, h.bounded, size_of_le h key) in
      rw (bounded, over_bound) (printed val s)

  module _ (small : size ≤ s.my_maxmem + size_of s key) where
    accepted : ltb_ℤ (to_int s.my_maxmem) (change s key size) ≡ false
    accepted = ground (arith, h.small, h.bounded, size_of_le h key)

    in_range : s.current_mem + size < 2 ^ 31 + size_of s key
    in_range = omega (arith, h.small, h.bounded)

    pub admit_full :
        s.my_evictor ≡ none
        → s.my_maxmem + size_of s key < s.current_mem + size
        → admit ev rounds key val p size (change s key size) s ≡ refused val s
    unfolding admit
    admit_full off over =
        let bounded = le→leb s.current_mem s.my_maxmem h.bounded in
        let test = lt→ltb (s.my_maxmem + size_of s key) (s.current_mem + size) over in
        rw (bounded, accepted, exceeds_lem h key size in_range, test, ap is_some off)
          (printed val s)

    pub admit_room :
        (is_some s.my_evictor ≡ true) ⊎ (s.current_mem + size ≤ s.my_maxmem + size_of s key)
        → admit ev rounds key val p size (change s key size) s
          ≡ (make_room ev rounds key size (change s key size) s >>= store ev key p size)
    unfolding admit
    admit_room (inl on) =
        let bounded = le→leb s.current_mem s.my_maxmem h.bounded in
        rw (bounded, accepted, exceeds_lem h key size in_range, on)
    admit_room (inr fits) =
        let bounded = le→leb s.current_mem s.my_maxmem h.bounded in
        let test : ltb (s.my_maxmem + size_of s key) (s.current_mem + size) ≡ false =
          ground arith in
        let off : (not (is_some s.my_evictor) && false) ≡ false = ground arith in
        rw (bounded, accepted, exceeds_lem h key size in_range, test, off)
