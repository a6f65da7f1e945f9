-- ===== src/CacheLib/Loop.antt =====
-- cache_lib.cc: the loop of `set` that makes room.
use cs389hw.Shared.{
  ℕ, zero, suc, ◌+◌, ◌≤◌, ◌<◌, ◌^◌, ◌≡◌, refl, ap, ◌∙◌, arith, true, false, List, [], ◌∷◌, ◌++◌,
  Key, ok, stop, assert_failed, bytes_eq, length, is_some, ltb, ltb→lt, Result, lt→ltb, eq_iff,
  Bool-cases, inl, inr, ◌>>=◌, eq_refl,
}
use cs389hw.Shared.Tables.{find}
use cs389hw.Evictor.{Evictor, IsPolicy}
use cs389hw.CacheLib.{Impl, evict_one, make_room}
use cs389hw.CacheLib.Blocks.{Table, total}
use cs389hw.CacheLib.Valid.{IsValid, size_of, size_of_le}
use cs389hw.CacheLib.Room.{
  change, exceeds_lem, Dropped, Dropped-nil, Dropped-append, evict_one_lem, evict_one_empty,
}

-- A table that has no key is empty.
total_of_none : (t : Table) → ((k : Key) → is_some (find t k) ≡ false) → total t ≡ 0
total_of_none [] h = refl
total_of_none ((k, b) ∷ t) h = absurd (ground (arith, h k, eq_refl k))

-- The loop has ended by its test: `dropped` are the keys that the evictor gave up, in order.
pub record Roomy {S : Type 0} {ev : Evictor S} (P : IsPolicy ev) (s : Impl S) (l : List Key)
    (key : Key) (size : ℕ) (s' : Impl S) : Type 0 where
  pub dropped : List Key
  pub kept : List Key
  pub parts : l ≡ dropped ++ kept
  pub valid : IsValid P s' kept
  pub without_dropped : Dropped s s' dropped
  pub fits : s'.current_mem + size ≤ s'.my_maxmem + size_of s' key

module _ {S : Type 0} {ev : Evictor S} (P : IsPolicy ev) (key : Key) (size : ℕ) where
  -- With nothing to evict the table is empty.
  empty_of_nil : {s : Impl S} → IsValid P s [] → is_some s.my_evictor ≡ true → s.current_mem ≡ 0
  empty_of_nil {s} h on =
      h.sound.accounted
      ∙ total_of_none s.table λ k. elim (Bool-cases (is_some (find s.table k))) [
        | inl i ↦ absurd (ground (arith, h.covered on k i))
        | inr o ↦ o
      ]

  module _ {s : Impl S} {l : List Key} (h : IsValid P s l) (n : ℕ)
      (in_range : s.current_mem + size < 2 ^ 31 + size_of s key) where
    pub stop_here :
        ltb (s.my_maxmem + size_of s key) (s.current_mem + size) ≡ false
        → make_room ev (suc n) key size (change s key size) s ≡ ok s
    unfolding make_room
    stop_here done = rw (exceeds_lem h.sound key size in_range, done)

    pub go_on :
        ltb (s.my_maxmem + size_of s key) (s.current_mem + size) ≡ true
        → make_room ev (suc n) key size (change s key size) s ≡ (
            evict_one ev s.my_evictor key size (change s key size) s >>= λ (c, s').
            make_room ev n key size c s')
    unfolding make_room
    go_on over = rw (exceeds_lem h.sound key size in_range, over)

  -- One round that evicts `v`, and the rounds after it.
  pub step :
      (n : ℕ) (v : Key) {l : List Key} {s s₁ : Impl S} {r : Result (Impl S)}
      → IsValid P s (v ∷ l)
      → s.current_mem + size < 2 ^ 31 + size_of s key
      → ltb (s.my_maxmem + size_of s key) (s.current_mem + size) ≡ true
      → evict_one ev s.my_evictor key size (change s key size) s ≡ ok (change s₁ key size, s₁)
      → make_room ev n key size (change s₁ key size) s₁ ≡ r
      → make_room ev (suc n) key size (change s key size) s ≡ r
  step n v h in_range over run rest =
      go_on h n in_range over ∙ ap (λ x. x >>= λ (c, s'). make_room ev n key size c s') run ∙ rest

  stays :
      (n : ℕ) {l : List Key} {s : Impl S}
      → IsValid P s l
      → size ≤ s.my_maxmem
      → ltb (s.my_maxmem + size_of s key) (s.current_mem + size) ≡ false
      → (s' : Impl S) × (make_room ev (suc n) key size (change s key size) s ≡ ok s')
        × Roomy P s l key size s'
  stays n {l} {s} h small done = (
    s,
    stop_here h n (omega (arith, h.sound.bounded, h.sound.small)) done,
    record {
      dropped = [];
      kept = l;
      parts = refl;
      valid = h;
      without_dropped = Dropped-nil s;
      fits = ground arith;
    },
  )

  -- A value that fits into the whole cache always gets room, by keys that leave in the
  -- evictor's order.
  pub make_room_lem :
      (n : ℕ) (l : List Key) {s : Impl S}
      → IsValid P s l
      → is_some s.my_evictor ≡ true
      → size ≤ s.my_maxmem
      → length l < n
      → (s' : Impl S) × (make_room ev n key size (change s key size) s ≡ ok s')
        × Roomy P s l key size s'
  make_room_lem zero l h on small rounds = absurd (omega arith)
  make_room_lem (suc n) [] {s} h on small rounds =
      elim (Bool-cases (ltb (s.my_maxmem + size_of s key) (s.current_mem + size))) [
        | inr done ↦ stays n h small done
        | inl over ↦ absurd (omega (arith, empty_of_nil h on, ltb→lt _ _ over))
      ]
  make_room_lem (suc n) (v ∷ l) {s} h on small rounds =
      elim (Bool-cases (ltb (s.my_maxmem + size_of s key) (s.current_mem + size))) [
        | inr done ↦ stays n h small done
        | inl over ↦
            let in_range : s.current_mem + size < 2 ^ 31 + size_of s key =
              omega (arith, h.sound.bounded, h.sound.small) in
            let (s₁, run, one) = evict_one_lem P key size h on (omega (arith, h.sound.small)) in
            let bound = one.dropped.same_bound in
            let (s', rest, roomy) =
              make_room_lem n l one.valid (one.dropped.same_evictor ∙ on) (omega arith)
                (omega arith) in
            (
              s',
              step n v h in_range over run rest,
              record {
                dropped = v ∷ roomy.dropped;
                kept = roomy.kept;
                parts = ap (◌∷◌ v) roomy.parts;
                valid = roomy.valid;
                without_dropped = Dropped-append one.dropped roomy.without_dropped;
                fits = roomy.fits;
              },
            )
      ]

  -- A value larger than the whole cache gets no room: the loop runs the evictor dry, and the
  -- assertion on the evicted key fails.
  pub make_room_fails :
      (n : ℕ) (l : List Key) {s : Impl S}
      → IsValid P s l
      → is_some s.my_evictor ≡ true
      → s.my_maxmem < size
      → size < 2 ^ 31
      → s.current_mem + size < 2 ^ 31 + size_of s key
      → length l < n
      → make_room ev n key size (change s key size) s ≡ stop assert_failed
  make_room_fails zero l h on large int in_range rounds = absurd (omega arith)
  make_room_fails (suc n) [] {s} h on large int in_range rounds =
      let over : ltb (s.my_maxmem + size_of s key) (s.current_mem + size) ≡ true =
        lt→ltb _ _ (omega (arith, size_of_le h.sound key)) in
      go_on h n in_range over
      ∙ ap (λ x. x >>= λ (c, s'). make_room ev n key size c s')
          (evict_one_empty P key size (change s key size) h on)
  make_room_fails (suc n) (v ∷ l) {s} h on large int in_range rounds =
      let over : ltb (s.my_maxmem + size_of s key) (s.current_mem + size) ≡ true =
        lt→ltb _ _ (omega (arith, size_of_le h.sound key)) in
      let (s₁, run, one) = evict_one_lem P key size h on int in
      let bound = one.dropped.same_bound in
      let less = one.less in
      let in_range' : s₁.current_mem + size < 2 ^ 31 + size_of s₁ key =
        ground (arith, one.dropped.entries key, eq_iff key v) in
      step n v h in_range over run (
        make_room_fails n l one.valid (one.dropped.same_evictor ∙ on) (omega arith) int in_range'
          (omega arith))
