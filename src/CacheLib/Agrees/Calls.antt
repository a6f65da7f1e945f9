-- ===== src/CacheLib/Agrees/Calls.antt =====
-- `get`, `del` and `reset`, against the specification.
use cs389hw.Shared.{
  ℕ, ◌<◌, ◌≡◌, ◌≢◌, ap, subst, ◌∙◌, arith, none, some, [], Key, Bytes, ok, bytes_eq, if◌then◌else◌,
  is_some, length,
}
use cs389hw.Shared.Tables.{find}
use cs389hw.Memory.{Ptr, null, read}
use cs389hw.Evictor.{Evictor, IsPolicy}
use cs389hw.Cache.Bounded.{Bounded, forget, get_in}
use cs389hw.CacheLib
use cs389hw.CacheLib.{Impl}
use cs389hw.CacheLib.Access
use cs389hw.CacheLib.Access.{get-some}
use cs389hw.CacheLib.Blocks.{read_in}
use cs389hw.CacheLib.Config.{itself, beside, of_Has, get_Has, del_Has, reset_Has}
use cs389hw.CacheLib.Reset
use cs389hw.CacheLib.Store.{touched_order}
use cs389hw.CacheLib.Valid.{IsValid}
use cs389hw.CacheLib.Agrees.{Agrees, same_size, touched_order_if}

module _ {S : Type 0} {ev : Evictor S} {P : IsPolicy ev} {s : Impl S} {a : Bounded}
    (h : Agrees P s a) where
  -- A hit, and how the answer is read.
  pub get_hit :
      (key : Key) {v : Bytes}
      → key ≢ []
      → a.content key ≡ some v
      → (p : Ptr) × (s' : Impl S) × (CacheLib.get ev key s ≡ ok ((p, length v), s'))
        × (p ≢ null)
        × (read s'.buffers p ≡ some v)
        × Agrees P s' (get_in P.touched (some v) key a)
  get_hit key {v} real found =
      let (p, o, run, alive, holds, valid) =
        get-some h.valid key real (h.sees.values key ∙ found) in
      let same = of_Has beside _ _ (get_Has ev key s) run in
      let order : touched_order P s.my_evictor key a.order
          ≡ (if a.evicts then P.touched key a.order else a.order) =
        touched_order_if P s.my_evictor key a.order
        ∙ ap (λ x. if x then P.touched key a.order else a.order) h.sees.evicts in
      (
        p,
        record s { my_evictor = o },
        run,
        alive,
        holds,
        record {
          valid = subst (IsValid P (record s { my_evictor = o })) order valid;
          sees = record {
            bound = h.sees.bound;
            used = h.sees.used;
            values = h.sees.values;
            evicts = ap (λ x. x.1) same ∙ h.sees.evicts;
          };
        },
      )

  pub del_lem :
      (key : Key)
      → (s' : Impl S) × (CacheLib.del key s ≡ ok (is_some (a.content key), s'))
        × Agrees P s' (forget key a)
  del_lem key =
      let (s', run, valid, values, less, same_evictor) = Access.del_lem h.valid key in
      let same = of_Has beside _ _ (del_Has key s) run in
      let n = same_size h.valid.sound h.sees key in
      (
        s',
        run ∙ ap (λ o. ok (is_some o, s')) (h.sees.values key),
        record {
          valid = valid;
          sees = record {
            bound = ap (λ x. x.0) same ∙ h.sees.bound;
            used = omega (arith, less, n, h.sees.used);
            values = λ j. ground (arith, values j, h.sees.values j);
            evicts = ap (λ x. x.1) same ∙ h.sees.evicts;
          };
        },
      )

  pub reset_lem :
      (rounds : ℕ)
      → length s.table < rounds
      → length a.order < rounds
      → (s' : Impl S) × (CacheLib.reset ev rounds s ≡ ok s')
        × Agrees P s' (record a { used = 0; content = λ j. none; order = [] })
  reset_lem rounds below below' =
      let (s', run, valid, empty, unused, freed) = Reset.reset_lem P rounds h.valid below below' in
      let same = of_Has itself _ _ (reset_Has ev rounds s) run in
      (
        s',
        run,
        record {
          valid = valid;
          sees = record {
            bound = ap (λ x. x.0) same ∙ h.sees.bound;
            used = unused;
            values = λ j. ap (λ t. read_in s'.buffers (find t j)) empty;
            evicts = ap (λ x. x.1) same ∙ h.sees.evicts;
          };
        },
      )
