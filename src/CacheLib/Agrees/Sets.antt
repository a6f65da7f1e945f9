-- ===== src/CacheLib/Agrees/Sets.antt =====
-- `set` as a whole, on each of its branches, against the specification.
use cs389hw.Shared.{
  ℕ, suc, ◌+◌, ◌-◌, ◌≤◌, ◌<◌, ◌^◌, ◌≡◌, ◌≢◌, refl, sym, ap, subst, ◌∙◌, arith, true, false, not,
  ◌&&◌, ◌||◌, Option, none, some, List, [], ◌∷◌, Key, Bytes, Result, Stop, ok, stop, assert_failed,
  bad_access, ◌>>=◌, bytes_eq, nat_eq, if◌then◌else◌, contains, is_some, length, ltb, take_all,
  Bool-cases, inl, inr, ◌⊎◌,
}
use cs389hw.Memory.{Allocator, Lives, Ptr}
use cs389hw.Evictor.{Evictor, IsPolicy}
use cs389hw.Cache.Bounded
use cs389hw.Cache.Bounded.{Bounded, length_of, over, put, refuse_value}
use cs389hw.CacheLib
use cs389hw.CacheLib.{Impl, store}
use cs389hw.CacheLib.Blocks.{addresses}
use cs389hw.CacheLib.Valid.{IsValid, size_of, size_of_le}
use cs389hw.CacheLib.Room.{change}
use cs389hw.CacheLib.Store.{touched_order}
use cs389hw.CacheLib.Set.{store_used}
use cs389hw.CacheLib.Admit.{
  copied, refused, unused, copied-IsSound, copied-IsValid, value-copied, copied-Lives, admit_room,
}
use cs389hw.CacheLib.Outcomes.{set-admit, set_refused, set_full}
use cs389hw.CacheLib.Config.{itself, of_Has, store-Has}
use cs389hw.CacheLib.Agrees.{Sees, Agrees, same_size, touched_order_if}
use cs389hw.CacheLib.Agrees.Rooms.{Makes, roomy, empty, loop_lem, stays}

-- The same end: states that agree, or the same failure.
pub data Matches {S : Type 0} {ev : Evictor S} (P : IsPolicy ev)
    : Result (Impl S) → Result Bounded → Type 0 where
  agreed : {s : Impl S} {b : Bounded} → Agrees P s b → Matches P (ok s) (ok b)
  failed : (e : Stop) → Matches P (stop e) (stop e)

make_room_roomy :
    (key : Key) (size : ℕ) (l : List Key) (a : Bounded)
    → over key size a ≡ false
    → Bounded.make_room key size l a ≡ ok (record a { order = l })
unfolding Bounded.make_room
make_room_roomy key size [] a h = rw h refl
make_room_roomy key size (v ∷ l) a h = rw h refl

module _ {S : Type 0} {ev : Evictor S} (P : IsPolicy ev) (key : Key) (real : key ≢ []) (p : Ptr)
    (val : Bytes) where
  stored :
      {s : Impl S} {b : Bounded}
      → IsValid P s b.order
      → Sees s b
      → Lives s.buffers p val
      → contains p (addresses s.table) ≡ false
      → s.current_mem + length val ≤ s.my_maxmem + size_of s key
      → Matches P (store ev key p (length val) s) (ok (put P.touched key val b))
  stored {s} {b} h sees alive out fits =
      let (s', run, valid, values, used) =
        store_used P key p val (length val) h real alive out refl fits in
      let same = of_Has itself _ _ (store-Has ev key p (length val) s) run in
      let n = same_size h.sound sees key in
      let order : touched_order P s.my_evictor key b.order
          ≡ (if b.evicts then P.touched key b.order else b.order) =
        touched_order_if P s.my_evictor key b.order
        ∙ ap (λ x. if x then P.touched key b.order else b.order) sees.evicts in
      subst (λ r. Matches P r (ok (put P.touched key val b))) (sym run)
        (agreed (record {
          valid = subst (IsValid P s') order valid;
          sees = record {
            bound = ap (λ x. x.0) same ∙ sees.bound;
            used = omega (arith, used, n, sees.used, size_of_le h.sound key);
            values = λ j. ground (arith, values j, sees.values j);
            evicts = ap (λ x. x.1) same ∙ sees.evicts;
          };
        }))

  after_loop :
      {s : Impl S} {r : Result (Impl S)} {q : Result Bounded}
      → Lives s.buffers p val
      → contains p (addresses s.table) ≡ false
      → Makes P s key (length val) r q
      → Matches P (r >>= store ev key p (length val)) (q >>= λ b. ok (put P.touched key val b))
  after_loop alive out (roomy d valid sees without fits) =
      let (same, out') = without.spared p out in
      stored valid sees (record { ne_null = alive.ne_null; holds = same ∙ alive.holds }) out' fits
  after_loop alive out empty = failed assert_failed

module _ {S : Type 0} {ev : Evictor S} {P : IsPolicy ev} (alloc : Allocator Bytes) (rounds : ℕ)
    (key : Key) (val : Bytes) {s : Impl S} {a : Bounded} (h : Agrees P s a) where
  copied-Sees : Sees (copied alloc (length val) val s) a
  copied-Sees = record {
    bound = h.sees.bound;
    used = h.sees.used;
    values = λ j. value-copied alloc (length val) val h.valid.sound j ∙ h.sees.values j;
    evicts = h.sees.evicts;
  }

  copied-Agrees : Agrees P (copied alloc (length val) val s) a
  copied-Agrees = record {
    valid = copied-IsValid alloc (length val) val h.valid;
    sees = copied-Sees;
  }

  alive : Lives (copied alloc (length val) val s).buffers (alloc.fresh s.buffers) val
  alive =
      subst (Lives (copied alloc (length val) val s).buffers (alloc.fresh s.buffers)) (take_all val)
        (copied-Lives s alloc (length val) val)

  refused_lem : Matches P (refused val (copied alloc (length val) val s)) (refuse_value val a)
  refused_lem = elim (Bool-cases (contains 0 val)) [
    | inl e ↦ rw e (agreed copied-Agrees)
    | inr e ↦ rw e (failed bad_access)
  ]

  -- `set`, where it neither refuses the value nor finds that nothing can be evicted.
  admitted :
      key ≢ []
      → length val < 2 ^ 31
      → length val ≤ s.my_maxmem + size_of s key
      → (is_some s.my_evictor ≡ true) ⊎ (s.current_mem + length val ≤ s.my_maxmem + size_of s key)
      → {q : Result Bounded}
      → Makes P
          (copied alloc (length val) val s)
          key
          (length val)
          (CacheLib.make_room ev rounds key
            (length val)
            (change s key (length val))
            (copied alloc (length val) val s))
          q
      → Matches P
          (CacheLib.set ev alloc rounds key val (length val) s)
          (q >>= λ b. ok (put P.touched key val b))
  admitted real int small room {q} made =
      subst (λ r. Matches P r (q >>= λ b. ok (put P.touched key val b)))
        (sym (
          set-admit alloc rounds key val (length val) h.valid (omega arith) int
          ∙ admit_room ev rounds key val (alloc.fresh s.buffers) (length val)
              (copied-IsSound alloc (length val) val h.valid.sound) small room))
        (after_loop P key real (alloc.fresh s.buffers) val alive
          (unused alloc (length val) val h.valid.sound) made)

  none_of : (o : Option S) → is_some o ≡ false → o ≡ none
  none_of none e = refl
  none_of (some e') e = cc

  module _ (real : key ≢ []) (int : length val < 2 ^ 31) (enough : length a.order < rounds)
      (small : ltb (a.maxmem + length_of (a.content key)) (length val) ≡ false) where
    fits_alone : length val ≤ s.my_maxmem + size_of s key
    fits_alone =
        let n = same_size h.valid.sound h.sees key in ground (arith, n, h.sees.bound, small)

    wide :
        let s₁ = copied alloc (length val) val s in
        s₁.current_mem + length val ≤ s₁.my_maxmem + s₁.my_maxmem + size_of s₁ key
    wide = omega (arith, fits_alone, h.valid.sound.bounded)

    evicting :
        a.evicts ≡ true
        → Matches P
            (CacheLib.set ev alloc rounds key val (length val) s)
            (Bounded.make_room key (length val) a.order a >>= λ b. ok (put P.touched key val b))
    evicting on = admitted real int fits_alone (inl (h.sees.evicts ∙ on)) (
        loop_lem P key (length val) rounds a.order copied-Agrees.valid (h.sees.evicts ∙ on)
          copied-Sees wide int enough)

    roomy_already :
        over key (length val) a ≡ false
        → Matches P
            (CacheLib.set ev alloc rounds key val (length val) s)
            (Bounded.make_room key (length val) a.order a >>= λ b. ok (put P.touched key val b))
    roomy_already room =
        let n = same_size h.valid.sound h.sees key in
        let fits : s.current_mem + length val ≤ s.my_maxmem + size_of s key =
          ground (arith, n, h.sees.bound, h.sees.used, room) in
        let one_more : rounds ≡ suc (rounds - 1) = omega (arith, enough) in
        let made =
          stays P key (length val) copied-Agrees.valid copied-Sees wide (rounds - 1) room in
        rw (make_room_roomy key (length val) a.order a room) (
          admitted real int fits_alone (inr fits) (
            subst
              (λ n.
                Makes P (copied alloc (length val) val s) key (length val)
                  (CacheLib.make_room ev n key (length val) (change s key (length val))
                    (copied alloc (length val) val s))
                  (ok (record a { order = a.order })))
              (sym one_more) made))

  -- Whatever branch `set` takes, it ends as the specification does.
  pub set_lem :
      key ≢ []
      → length val < 2 ^ 31
      → length a.order < rounds
      → Matches P
          (CacheLib.set ev alloc rounds key val (length val) s)
          (Bounded.set P.touched key val a)
  unfolding Bounded.set
  set_lem real int enough =
      let n = same_size h.valid.sound h.sees key in
      let large = ltb (a.maxmem + length_of (a.content key)) (length val) in
      let guard = large || (not a.evicts && over key (length val) a) in
      elim (Bool-cases large) [
        | inl e ↦
            let no_room =
              set_refused alloc rounds key val (length val) h.valid (omega arith) int
                (ground (arith, n, h.sees.bound, e)) in
            let test : guard ≡ true = ground (arith, e) in
            rw test (subst (λ r. Matches P r (refuse_value val a)) (sym no_room) refused_lem)
        | inr small ↦ elim (Bool-cases a.evicts) [
          | inl on ↦
              let test : guard ≡ false = ground (arith, small, on) in
              rw test (evicting real int enough small on)
          | inr off ↦ elim (Bool-cases (over key (length val) a)) [
            | inr room ↦
                let test : guard ≡ false = ground (arith, small, room) in
                rw test (roomy_already real int enough small room)
            | inl full ↦
                let no_room =
                  set_full alloc rounds key val (length val) h.valid (omega arith)
                    (none_of s.my_evictor (h.sees.evicts ∙ off))
                    (ground (arith, n, h.sees.bound, small))
                    (ground (arith, n, h.sees.bound, h.sees.used, full)) in
                let test : guard ≡ true = ground (arith, off, full) in
                rw test (subst (λ r. Matches P r (refuse_value val a)) (sym no_room) refused_lem)
          ]
        ]
      ]
