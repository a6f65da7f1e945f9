-- ===== src/CacheLib/EmptyKey.antt =====
-- `Cache::Impl::set` when the evictor has been told of the empty key.
use cs389hw.Shared.{
  ℕ, suc, ◌+◌, ◌-◌, ◌≤◌, ◌<◌, ◌^◌, ◌≡◌, refl, ap, ◌∙◌, arith, true, some, List, [], ◌∷◌, Key, Bytes,
  stop, assert_failed, ◌>>=◌, bytes_eq, bytes_beq, is_some, length, inl, ltb,
}
use cs389hw.Memory.{Allocator}
use cs389hw.Evictor.{Evictor, IsPolicy}
use cs389hw.CacheLib.{Impl, evict_one, make_room, store, set}
use cs389hw.CacheLib.Valid.{IsSound, size_of, size_of_le}
use cs389hw.CacheLib.Room.{change, exceeds_lem}
use cs389hw.CacheLib.Admit.{copied, copied-IsSound, admit_room}
use cs389hw.CacheLib.Outcomes.{admits}

module _ {S : Type 0} {ev : Evictor S} (P : IsPolicy ev) (key : Key) (size : ℕ) (s : Impl S) (e : S)
    (l : List Key) (here : s.my_evictor ≡ some e) (h : P.Holds e ([] ∷ l)) where
  evict_one_fails : evict_one ev s.my_evictor key size (change s key size) s ≡ stop assert_failed
  unfolding evict_one bytes_beq
  evict_one_fails = let (e', run, h') = P.evict_holds [] e l h in rw (here, run) refl

  make_room_fails :
      (n : ℕ)
      → IsSound s
      → s.current_mem + size < 2 ^ 31 + size_of s key
      → s.my_maxmem + size_of s key < s.current_mem + size
      → make_room ev (suc n) key size (change s key size) s ≡ stop assert_failed
  unfolding make_room
  make_room_fails n sound in_range over =
      let more : ltb (s.my_maxmem + size_of s key) (s.current_mem + size) ≡ true =
        ground (arith, over) in
      rw (exceeds_lem sound key size in_range, more)
        (ap (λ x. x >>= λ (c, s'). make_room ev n key size c s') evict_one_fails)

-- When the empty key is the next one to leave, a value for which room must be made stops the
-- program: the evictor answers the empty key, and the assertion takes it for an empty evictor. The
-- table is sound, and the value is not larger than the cache, the key's old value apart.
pub set_empty_key :
    {S : Type 0} {ev : Evictor S} (P : IsPolicy ev) (alloc : Allocator Bytes) (rounds : ℕ)
    (key : Key) (val : Bytes) (size : ℕ) {s : Impl S} (e : S) (l : List Key)
    → IsSound s
    → s.my_evictor ≡ some e
    → P.Holds e ([] ∷ l)
    → size ≤ length val
    → size ≤ s.my_maxmem + size_of s key
    → s.my_maxmem + size_of s key < s.current_mem + size
    → 0 < rounds
    → set ev alloc rounds key val size s ≡ stop assert_failed
set_empty_key {ev} P alloc rounds key val size {s} e l sound here h whole small over enough =
    let s₁ = copied alloc size val s in
    let sound₁ = copied-IsSound alloc size val sound in
    let in_range : s.current_mem + size < 2 ^ 31 + size_of s key =
      omega (arith, sound.small, sound.bounded, small) in
    let int : size < 2 ^ 31 =
      omega (arith, small, sound.small, sound.bounded, size_of_le sound key) in
    let one_more : rounds ≡ suc (rounds - 1) = omega (arith, enough) in
    admits ev alloc rounds key val size sound whole int
    ∙ admit_room ev rounds key val (alloc.fresh s.buffers) size sound₁ small (inl (ap is_some here))
    ∙ ap (λ r. r >>= store ev key (alloc.fresh s.buffers) size)
        (ap (λ r. make_room ev r key size (change s key size) s₁) one_more
          ∙ make_room_fails P key size s₁ e l here h (rounds - 1) sound₁ in_range over)
