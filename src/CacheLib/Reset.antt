-- ===== src/CacheLib/Reset.antt =====
-- cache_lib.cc: `reset`, with its two loops.
use cs389hw.Shared.{bytes_beq}
use cs389hw.Shared.{
  ℕ, zero, suc, ◌≤◌, ◌<◌, ◌≡◌, refl, ap, subst, sym, ◌∙◌, arith, true, false, Option, some, none,
  List, [], ◌∷◌, Key, Result, ok, ◌==◌, bytes_eq, nat_eq, contains, length, eq_iff, eq_refl,
  Bool-cases, inl, inr,
}
use cs389hw.Shared.Tables.{find, erase, find-erase}
use cs389hw.Memory.{read, read-write}
use cs389hw.Evictor.{Evictor, IsPolicy}
use cs389hw.CacheLib.{Block, Impl, free_all, drain, drain_evictor, reset}
use cs389hw.CacheLib.Blocks.{Table, nil}
use cs389hw.CacheLib.Valid.{IsSound, IsValid, InOrder, freed, free_lem, freed-IsSound}

length-erase-le : (t : Table) (k : Key) → length (erase t k) ≤ length t
length-erase-le [] k = omega arith
length-erase-le ((j, b) ∷ t) k = ground (arith, length-erase-le t k)

-- What `free_all` leaves: an empty table, and none of its buffers alive.
pub record Emptied {S : Type 0} (s s' : Impl S) : Type 0 where
  pub sound : IsSound s'
  pub empty : s'.table ≡ []
  pub same_evictor : s'.my_evictor ≡ s.my_evictor
  pub dead : (j : Key) (b : Block) → find s.table j ≡ some b → read s'.buffers b.address ≡ none
  pub gone : (q : ℕ) → read s.buffers q ≡ none → read s'.buffers q ≡ none

module _ {S : Type 0} where
  nothing : (s : Impl S) → IsSound s → s.table ≡ [] → Emptied s s
  nothing s h e = record {
    sound = h;
    empty = e;
    same_evictor = refl;
    dead = λ j b i. absurd (ground (arith, ap (λ t. find t j) e));
    gone = λ q i. i;
  }

  pub free_all_lem :
      (n : ℕ) (t : Table) (s : Impl S)
      → IsSound s
      → s.table ≡ t
      → length t ≤ n
      → (s' : Impl S) × (free_all n t s ≡ ok s') × Emptied s s'
  unfolding free_all
  free_all_lem zero [] s h e enough = (s, refl, nothing s h e)
  free_all_lem (suc n) [] s h e enough = (s, refl, nothing s h e)
  free_all_lem zero ((k, b) ∷ t) s h e enough = absurd (omega arith)
  free_all_lem (suc n) ((k, b) ∷ t) s h e enough =
      let found : find s.table k ≡ some b = rw e (ground (arith, eq_refl k)) in
      let s₁ = freed k b s in
      let shorter : length s₁.table ≤ n = rw e (ground (arith, length-erase-le t k, eq_refl k)) in
      let (s', run, r) = free_all_lem n s₁.table s₁ (freed-IsSound h k found) refl shorter in
      (
        s',
        rw (free_lem h k found) run,
        record {
          sound = r.sound;
          empty = r.empty;
          same_evictor = r.same_evictor;
          dead = λ j c i. elim (Bool-cases (j == k)) [
            | inl here ↦
                let same : b ≡ c = ground (arith, eq_iff j k) in
                r.gone c.address (ground (arith, read-write s.buffers b.address none c.address))
            | inr there ↦ r.dead j c (ground (arith, find-erase s.table k j))
          ];
          gone = λ q i. r.gone q (ground (arith, read-write s.buffers b.address none q));
        },
      )

module _ {S : Type 0} {ev : Evictor S} (P : IsPolicy ev) where
  drain_nil : (n : ℕ) (e : S) → P.Holds e [] → drain ev (suc n) e ≡ ok e
  unfolding drain bytes_beq
  drain_nil n e h = rw (P.evict_empty e h)

  drain_cons :
      (n : ℕ) {v : Key} {e e' : S}
      → ev.evict e ≡ ok (v, e')
      → (v == []) ≡ false
      → drain ev (suc n) e ≡ drain ev n e'
  unfolding drain
  drain_cons n {e'} run real =
      rw run (ap (λ b. elim b as (λ x. Result S) [ true ↦ ok e' | false ↦ drain ev n e' ]) real)

  drain_lem :
      (n : ℕ) (l : List Key) (e : S)
      → P.Holds e l
      → contains [] l ≡ false
      → length l < n
      → (e' : S) × (drain ev n e ≡ ok e') × P.Holds e' []
  drain_lem zero l e h named enough = absurd (omega arith)
  drain_lem (suc n) [] e h named enough = (e, drain_nil n e h, h)
  drain_lem (suc n) (v ∷ l) e h named enough =
      let (e', run, h') = P.evict_holds v e l h in
      let real : (v == []) ≡ false = ground (arith, eq_iff v [], eq_iff [] v) in
      let (e'', rest, h'') = drain_lem n l e' h' (ground arith) (omega arith) in
      (e'', drain_cons n run real ∙ rest, h'')

  drain_evictor_lem :
      (n : ℕ) (l : List Key) (o : Option S)
      → InOrder P o l
      → contains [] l ≡ false
      → length l < n
      → (o' : Option S) × (drain_evictor ev n o ≡ ok o') × InOrder P o' []
  unfolding drain_evictor
  drain_evictor_lem n l none h named enough = (none, refl, refl)
  drain_evictor_lem n l (some e) h named enough =
      let (e', run, h') = drain_lem n l e h named enough in (some e', rw run, h')

  -- `reset` ends with an empty cache that takes no memory and an evictor that knows no key, and
  -- frees the buffer of every entry.
  pub reset_lem :
      (rounds : ℕ) {s : Impl S} {l : List Key}
      → IsValid P s l
      → length s.table < rounds
      → length l < rounds
      → (s' : Impl S) × (reset ev rounds s ≡ ok s')
        × IsValid P s' []
        × (s'.table ≡ [])
        × (s'.current_mem ≡ 0)
        × ((j : Key) (b : Block) → find s.table j ≡ some b → read s'.buffers b.address ≡ none)
  unfolding reset
  reset_lem rounds {s} {l} h enough enough' =
      let (s₁, run, r) = free_all_lem rounds s.table s h.sound refl (omega arith) in
      let order : InOrder P s₁.my_evictor l =
        subst (λ o. InOrder P o l) (sym r.same_evictor) h.ordered in
      let (o, run', empty) = drain_evictor_lem rounds l s₁.my_evictor order h.named enough' in
      (
        record s₁ { table = []; current_mem = 0; my_evictor = o },
        rw (run, run'),
        record {
          sound = record {
            owned = nil;
            accounted = refl;
            bounded = omega arith;
            loads = r.sound.loads;
            small = r.sound.small;
          };
          ordered = empty;
          covered = λ on k i. cc;
          named = refl;
        },
        refl,
        refl,
        r.dead,
      )
