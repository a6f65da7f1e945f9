-- ===== src/Library/Exact.antt =====
-- cache_lib.cc, reply by reply, against the specification of cache.hh that runs.
use cs389hw.Shared.{
  ℕ, ◌<◌, ◌^◌, ◌≡◌, ◌≢◌, refl, sym, ap, subst, ◌∙◌, arith, true, false, Option, none, some, List,
  [], ◌∷◌, Key, Bytes, Result, Ends, replied, halted, ok, stop, ◌>>=◌, ◌==◌, nat_eq, bytes_eq,
  length,
}
use cs389hw.Memory.{Allocator, null, load, load_lem}
use cs389hw.Evictor.{Evictor, IsPolicy}
use cs389hw.Cache.{
  Call, set_call, get_call, del_call, space_call, reset_call, Reply, nothing, answer, space,
  perform, perform_all,
}
use cs389hw.Cache.Bounded
use cs389hw.Cache.Simulation
use cs389hw.Cache.Simulation.{All, replies_of, seen_by, Simulates}
use cs389hw.Shared.{map}
use cs389hw.Cache.Bounded.{Bounded, length_of, get_in}
use cs389hw.CacheLib
use cs389hw.CacheLib.{Impl}
use cs389hw.CacheLib.Access.{get-none}
use cs389hw.CacheLib.Agrees.{Agrees}
use cs389hw.CacheLib.Agrees.Calls.{get_hit, del_lem, reset_lem}
use cs389hw.CacheLib.Agrees.Sets.{Matches, agreed, failed, set_lem}
use cs389hw.Library.{Library, lock, unlock, read_answer, set, get, del, space_used, reset, library}
use cs389hw.Library.Implements.{Enough}

-- The library between two calls, and the state of the specification that it shows.
pub record Shows {S : Type 0} {ev : Evictor S} (P : IsPolicy ev) (w : Library S) (a : Bounded)
    : Type 0 where
  pub unlocked : w.mutex ≡ false
  pub agrees : Agrees P w.p_impl a

-- A key is not empty where it is told to the evictor, and a size is an `int`.
abbrev pub Fine : Call → Type 0
Fine (set_call key val) = (key ≢ []) × (length val < 2 ^ 31)
Fine (get_call key) = key ≢ []
Fine (del_call key) = Unit
Fine space_call = Unit
Fine reset_call = Unit

abbrev pub AllFine : List Call → Type 0
AllFine = All Fine

-- A user of the library sees the replies as they are.
abbrev as_they_are : Reply → Reply
as_they_are r = r

map-as_they_are : (rs : List Reply) → map as_they_are rs ≡ rs
map-as_they_are [] = refl
map-as_they_are (r ∷ rs) = ap (λ rs. r ∷ rs) (map-as_they_are rs)

seen_by-as_they_are : (r : Result (List Reply)) → seen_by as_they_are r ≡ r
seen_by-as_they_are (ok rs) = ap ok (map-as_they_are rs)
seen_by-as_they_are (stop e) = refl

as_they_are_lem : (q : Result (Reply × Bounded)) → (q >>= λ (r, b). ok (as_they_are r, b)) ≡ q
as_they_are_lem (ok (r, b)) = refl
as_they_are_lem (stop e) = refl

module _ {S : Type 0} {ev : Evictor S} {P : IsPolicy ev} (alloc : Allocator Bytes)
    {rounds : Impl S → ℕ} (enough : Enough P rounds) where
  -- The library after a call, by what the call leaves of `Impl`.
  abbrev left : Impl S → Library S
  left s = unlock (record { mutex = true; p_impl = s })

  after : {s : Impl S} {b : Bounded} → Agrees P s b → Shows P (left s) b
  unfolding unlock
  after h = record { unlocked = refl; agrees = h }

  set_Ends :
      {r : Result (Impl S)} {q : Result Bounded}
      → Matches P r q
      → Ends
          (Shows P)
          ((r >>= λ s. ok (left s)) >>= λ w. ok (nothing, w))
          (q >>= λ b. ok (nothing, b))
  set_Ends (agreed h) = replied nothing (after h)
  set_Ends (failed e) = halted e

  get_Ends :
      (key : Key) {w : Library S} {a : Bounded} (o : Option Bytes)
      → Shows P w a
      → key ≢ []
      → a.content key ≡ o
      → Ends
          (Shows P)
          (get ev alloc rounds key w >>= λ (x, w'). ok (answer x, w'))
          (ok (answer (o, length_of o), get_in P.touched o key a))
  unfolding get lock unlock read_answer
  get_Ends key {w} {a} none h real e =
      rw (h.unlocked, get-none h.agrees.valid key (h.agrees.sees.values key ∙ e))
        (replied _ (record { unlocked = refl; agrees = h.agrees }))
  get_Ends key (some v) h real e =
      let (p, s, run, alive, holds, agrees) = get_hit h.agrees key real e in
      let there : (p == null) ≡ false = ground (arith, alive) in
      let loaded : load s.buffers p ≡ ok v = load_lem (record { ne_null = alive; holds = holds }) in
      rw (h.unlocked, run, there, loaded) (replied _ (record { unlocked = refl; agrees = agrees }))

  perform_lem :
      (call : Call) {w : Library S} {a : Bounded}
      → Shows P w a
      → Fine call
      → Ends (Shows P) (perform (library ev alloc rounds) call w) (Bounded.perform P.touched call a)
  unfolding perform library set del space_used reset lock Bounded.perform CacheLib.get_current_mem
  perform_lem (set_call key val) {w} {a} h (real, int) = rw h.unlocked (
      set_Ends (
        set_lem alloc (rounds w.p_impl) key val h.agrees real int
          (enough w.p_impl a.order h.agrees.valid).1))
  perform_lem (get_call key) {w} {a} h real = get_Ends key (a.content key) h real refl
  perform_lem (del_call key) h fine =
      let (s, run, agrees) = del_lem h.agrees key in rw (h.unlocked, run) (replied _ (after agrees))
  perform_lem space_call {w} {a} h fine =
      let same : ok (space w.p_impl.current_mem, left w.p_impl) ≡ ok (space a.used, left w.p_impl) =
        ap (λ n. ok (space n, left w.p_impl)) h.agrees.sees.used in
      rw h.unlocked (
        subst (λ r. Ends (Shows P) r (ok (space a.used, a))) (sym same)
          (replied _ (after h.agrees)))
  perform_lem reset_call {w} {a} h fine =
      let (below, below') = enough w.p_impl a.order h.agrees.valid in
      let (s, run, agrees) = reset_lem h.agrees (rounds w.p_impl) below below' in
      rw (h.unlocked, run) (replied _ (after agrees))

  simulates : Simulates (library ev alloc rounds) (Shows P) Fine as_they_are P.touched
  simulates call w a h fine =
      subst (Ends (Shows P) (perform (library ev alloc rounds) call w))
        (sym (as_they_are_lem (Bounded.perform P.touched call a))) (perform_lem call h fine)

  -- The library answers any sequence of calls as the specification does, whatever branches they
  -- take: the same replies, or the same failure. Keys that are set or got are not empty, sizes are
  -- of type `int`, no thread has the mutex, and the rounds are above the number of entries and the
  -- length of the order.
  pub replies_lem :
      (calls : List Call) (w : Library S) (a : Bounded)
      → Shows P w a
      → AllFine calls
      → replies_of (perform_all (library ev alloc rounds) calls w)
        ≡ Bounded.replies P.touched calls a
  replies_lem calls w a h fine =
      Simulation.replies_lem (library ev alloc rounds) (Shows P) Fine as_they_are P.touched
        simulates calls w a h fine
      ∙ seen_by-as_they_are (Bounded.replies P.touched calls a)
