-- ===== src/Library/Threads/Exact.antt =====
-- cache_lib.cc under several threads, against the specification of the cache that runs.
use cs389hw.Shared.{
  ℕ, ◌≡◌, ◌≢◌, refl, ◌∙◌, arith, subst, false, Option, none, some, List, [], ◌∷◌, Key, Bytes,
  Result, Stop, ok, stop, ◌>>=◌, ◌==◌, nat_eq, length,
}
use cs389hw.Memory.{Allocator, null, load, load_lem}
use cs389hw.Library.{read_answer}
use cs389hw.Evictor.{Evictor, IsPolicy}
use cs389hw.Cache.{
  Call, set_call, get_call, del_call, space_call, reset_call, Reply, nothing, answer, deleted,
  space,
}
use cs389hw.Cache.Bounded
use cs389hw.Cache.Bounded.{Bounded, length_of, get_in}
use cs389hw.CacheLib
use cs389hw.CacheLib.{Impl}
use cs389hw.CacheLib.Access.{get-none}
use cs389hw.CacheLib.Agrees.{Agrees}
use cs389hw.CacheLib.Agrees.Calls.{get_hit, del_lem, reset_lem}
use cs389hw.CacheLib.Agrees.Sets.{Matches, agreed, failed, set_lem}
use cs389hw.Library.Exact.{Fine}
use cs389hw.Library.Implements.{Enough}
use cs389hw.Library.Threads.{
  Returned, returned, pointer, flag, number, section, Shared, Reach, Replays, ends, runs,
}
use cs389hw.Library.Threads.Exclusion.{linearizable}

-- What a section returns, as a reply, in the state that the section leaves: a pointer is answered
-- by the value that it leads to then, a null pointer by none.
abbrev pub Tells : {S : Type 0} → Impl S → Returned → Reply → Type 0
Tells s returned nothing = Unit
Tells s (pointer p n) (answer x) = read_answer p n s.buffers ≡ ok x
Tells s (flag b) (deleted b') = b ≡ b'
Tells s (number n) (space m) = n ≡ m
Tells s r q = ⊥

-- Calls, one after another, in the sections and on the specification at once.
pub data Runs {S : Type 0} (body : Call → Impl S → Result (Returned × Impl S))
    (touched : Key → List Key → List Key)
    : List (Call × Returned) → Impl S → Bounded → Impl S → Bounded → Type 0 where
  none_left : {s : Impl S} {a : Bounded} → Runs body touched [] s a s a
  one_more :
      {call : Call} {r : Returned} {rest : List (Call × Returned)} {s next last : Impl S}
      {a b c : Bounded} (q : Reply)
      → body call s ≡ ok (r, next)
      → Bounded.perform touched call a ≡ ok (q, b)
      → Tells next r q
      → Runs body touched rest next b last c
      → Runs body touched ((call, r) ∷ rest) s a last c

abbrev pub AllFine : List (Call × Returned) → Type 0
AllFine [] = Unit
AllFine ((call, r) ∷ done) = Fine call × AllFine done

-- A section and the specification end alike.
data Alike {S : Type 0} {ev : Evictor S} (P : IsPolicy ev)
    : Result (Returned × Impl S) → Result (Reply × Bounded) → Type 0 where
  both :
      {s : Impl S} {b : Bounded} (r : Returned) (q : Reply)
      → Tells s r q
      → Agrees P s b
      → Alike P (ok (r, s)) (ok (q, b))
  neither : (e : Stop) → Alike P (stop e) (stop e)

module _ {S : Type 0} {ev : Evictor S} {P : IsPolicy ev} (alloc : Allocator Bytes)
    {rounds : Impl S → ℕ} (enough : Enough P rounds) where
  set_Alike :
      {r : Result (Impl S)} {q : Result Bounded}
      → Matches P r q
      → Alike P (r >>= λ s. ok (returned, s)) (q >>= λ b. ok (nothing, b))
  set_Alike (agreed h) = both returned nothing tt h
  set_Alike (failed e) = neither e

  get_Alike :
      (key : Key) {s : Impl S} {a : Bounded} (o : Option Bytes)
      → Agrees P s a
      → key ≢ []
      → a.content key ≡ o
      → Alike P
          (CacheLib.get ev key s >>= λ ((p, n), s'). ok (pointer p n, s'))
          (ok (answer (o, length_of o), get_in P.touched o key a))
  unfolding read_answer
  get_Alike key none h real e =
      rw (get-none h.valid key (h.sees.values key ∙ e))
        (both (pointer null 0) (answer (none, 0)) refl h)
  get_Alike key (some v) h real e =
      let (p, s, run, alive, holds, agrees) = get_hit h key real e in
      let there : (p == null) ≡ false = ground (arith, alive) in
      let loaded : load s.buffers p ≡ ok v = load_lem (record { ne_null = alive; holds = holds }) in
      let told : read_answer p (length v) s.buffers ≡ ok (some v, length v) =
        rw (there, loaded) refl in
      rw run (both (pointer p (length v)) (answer (some v, length v)) told agrees)

  section_lem :
      (call : Call) {s : Impl S} {a : Bounded}
      → Agrees P s a
      → Fine call
      → Alike P (section ev alloc rounds call s) (Bounded.perform P.touched call a)
  unfolding section Bounded.perform CacheLib.get_current_mem
  section_lem (set_call key val) {s} {a} h (real, int) =
      set_Alike (set_lem alloc (rounds s) key val h real int (enough s a.order h.valid).1)
  section_lem (get_call key) {s} {a} h real = get_Alike key (a.content key) h real refl
  section_lem (del_call key) h fine =
      let (s', run, agrees) = del_lem h key in rw run (both (flag _) _ refl agrees)
  section_lem space_call h fine = both _ _ h.sees.used h
  section_lem reset_call {s} {a} h fine =
      let (below, below') = enough s a.order h.valid in
      let (s', run, agrees) = reset_lem h (rounds s) below below' in
      rw run (both returned nothing tt agrees)

  told :
      {r : Result (Returned × Impl S)} {q : Result (Reply × Bounded)} {x : Returned} {s : Impl S}
      → Alike P r q
      → r ≡ ok (x, s)
      → (y : Reply) × (b : Bounded) × (q ≡ ok (y, b)) × Tells s x y × Agrees P s b
  told {x} {s} (both {s = t} {b = b} r y tells h) e =
      let same : r ≡ x = cc in
      let same_state : t ≡ s = cc in
      (
        y,
        b,
        refl,
        subst (λ t. Tells t x y) same_state (subst (λ r. Tells t r y) same tells),
        subst (λ t. Agrees P t b) same_state h,
      )
  told (neither x) e = cc

  replays_lem :
      {done : List (Call × Returned)} {w s : Impl S} {a : Bounded}
      → Replays (section ev alloc rounds) done w s
      → Agrees P w a
      → AllFine done
      → (b : Bounded) × Runs (section ev alloc rounds) P.touched done w a s b × Agrees P s b
  replays_lem {a} ends h fine = (a, none_left, h)
  replays_lem (runs {call = call} ran rest) h (now, later) =
      let (q, next, run, tells, agrees) = told (section_lem call h now) ran in
      let (b, more, agrees') = replays_lem rest agrees later in
      (b, one_more q ran run tells more, agrees')

  -- Whatever the order in which threads move, the calls that have been carried out, in the order in
  -- which their sections worked, are a run of the sections and of the specification at once: each
  -- has returned what the specification replies, a pointer being read in the state that its section
  -- leaves, and the state agrees with the one that the specification comes to. This takes that the
  -- keys that were set or got are not empty and the sizes of type `int`, that the first state
  -- agrees with the specification's, and rounds above the number of entries and the length of the
  -- order.
  pub threads_lem :
      {w : Impl S} {s : Shared (Impl S)} {a : Bounded}
      → Reach (section ev alloc rounds) w s
      → Agrees P w a
      → AllFine s.done
      → (b : Bounded) × Runs (section ev alloc rounds) P.touched s.done w a s.state b
        × Agrees P s.state b
  threads_lem r h fine = replays_lem (linearizable ev alloc rounds r) h fine
