-- ===== src/CacheLib/Store.antt =====
-- cache_lib.cc: the end of `set`, where the new entry comes in and the evictor is told.
use cs389hw.Shared.{
  ◌+◌, ◌≡◌, ◌≢◌, refl, sym, ap, ◌∙◌, arith, true, false, ◌||◌, Option, none, some, List, [], ◌∷◌,
  Key, Bytes, ok, bytes_eq, nat_eq, ◌==◌, contains, is_some, if◌then◌else◌, Option-cases,
  Bool-cases, inl, inr, eq_iff,
}
use cs389hw.Shared.Tables.{find, find-erase}
use cs389hw.Memory.{Ptr, Lives, Lives-write_ne}
use cs389hw.Evictor.{Evictor, IsPolicy}
use cs389hw.CacheLib.{Block, Impl, free_found, touch}
use cs389hw.CacheLib.Blocks.{addresses, addresses-erase, content-erase, outside_rest}
use cs389hw.CacheLib.Valid.{
  InOrder, IsSound, with_evictor, IsValid, value, size_of, freed, size_le, free_lem, freed-IsSound,
}

-- The order after `touch_key`, for a cache with an evictor and for one without.
abbrev pub touched_order :
    {S : Type 0} {ev : Evictor S} → IsPolicy ev → Option S → Key → List Key → List Key
touched_order P none k l = l
touched_order P (some e) k l = P.touched k l

-- The state with `block` for `key`.
abbrev pub with_block : {S : Type 0} → Key → Block → Impl S → Impl S
with_block key block s = record s {
  table = (key, block) ∷ s.table;
  current_mem = s.current_mem + block.size;
}

module _ {S : Type 0} {ev : Evictor S} (P : IsPolicy ev) where
  -- What `touch` does to an order, and to no other part of the state.
  pub touch_lem :
      (k : Key) (s : Impl S) (o : Option S) (l : List Key)
      → InOrder P o l
      → (o' : Option S) × (touch ev o k (record s { my_evictor = o })
          ≡ ok (record s { my_evictor = o' }))
        × InOrder P o' (touched_order P o k l)
        × (is_some o' ≡ is_some o)
  unfolding touch
  touch_lem k s none l h = (none, refl, h, refl)
  touch_lem k s (some e) l h =
      let (e', run, h') = P.touch_holds k e l h in (some e', rw run, h', refl)

  contains-touched_order :
      (j k : Key) (o : Option S) (l : List Key)
      → is_some o ≡ true
      → contains j (touched_order P o k l) ≡ ((j == k) || contains j l)
  contains-touched_order j k none l h = cc
  contains-touched_order j k (some e) l h = P.contains-touched j k l

  named_touched :
      (k : Key) (o : Option S) (l : List Key)
      → k ≢ []
      → contains [] l ≡ false
      → contains [] (touched_order P o k l) ≡ false
  named_touched k none l real named = named
  named_touched k (some e) l real named =
      ground (arith, P.contains-touched [] k l, eq_iff [] k, λ (p : [] ≡ k). real (sym p))

  -- After `touch` the evictor knows the key, too.
  pub touch-IsValid :
      (k : Key) (l : List Key) {s : Impl S}
      → IsSound s
      → InOrder P s.my_evictor l
      → (is_some s.my_evictor ≡ true
          → (j : Key) → is_some (find s.table j) ≡ true
          → ((j == k) || contains j l) ≡ true)
      → contains [] l ≡ false
      → k ≢ []
      → (o : Option S) × (touch ev s.my_evictor k s ≡ ok (record s { my_evictor = o }))
        × IsValid P (record s { my_evictor = o }) (touched_order P s.my_evictor k l)
  touch-IsValid k l {s} h order covers named real =
      let (o, run, order', same) = touch_lem k s s.my_evictor l order in
      (
        o,
        run,
        record {
          sound = with_evictor o h;
          ordered = order';
          covered = λ on j present.
              contains-touched_order j k s.my_evictor l (sym same ∙ on)
              ∙ covers (sym same ∙ on) j present;
          named = named_touched k s.my_evictor l real named;
        },
      )

-- The state after the old entry of `key` has left, and before the new one comes in.
pub record Cleared {S : Type 0} (s : Impl S) (key : Key) (p : Ptr) (v : Bytes) (s' : Impl S)
    : Type 0 where
  pub sound : IsSound s'
  pub same_bound : s'.my_maxmem ≡ s.my_maxmem
  pub same_evictor : s'.my_evictor ≡ s.my_evictor
  pub entries : (j : Key) → find s'.table j ≡ (if j == key then none else find s.table j)
  pub values : (j : Key) → value s' j ≡ (if j == key then none else value s j)
  pub less : s'.current_mem + size_of s key ≡ s.current_mem
  pub copied : Lives s'.buffers p v
  pub outside : contains p (addresses s'.table) ≡ false

module _ {S : Type 0} {s : Impl S} (h : IsSound s) (key : Key) {p : Ptr} {v : Bytes} where
  pub free_found_lem :
      Lives s.buffers p v
      → contains p (addresses s.table) ≡ false
      → (s' : Impl S) × (free_found (find s.table key) key s ≡ ok s') × Cleared s key p v s'
  unfolding free_found
  free_found_lem alive out = elim (Option-cases (find s.table key)) [
    | inl absent ↦ (
      s,
      ap (λ o. free_found o key s) absent,
      record {
        sound = h;
        same_bound = refl;
        same_evictor = refl;
        entries = λ j. ground (arith, eq_iff j key);
        values = λ j. elim (Bool-cases (j == key)) [
          | inl here ↦
              let gone : find s.table j ≡ none = ground (arith, eq_iff j key) in rw (here, gone)
          | inr there ↦ rw there
        ];
        less = rw absent (omega arith);
        copied = alive;
        outside = out;
      },
    )
    | inr (b, found) ↦ (
      freed key b s,
      ap (λ o. free_found o key s) found ∙ free_lem h key found,
      record {
        sound = freed-IsSound h key found;
        same_bound = refl;
        same_evictor = refl;
        entries = find-erase s.table key;
        values = λ j. content-erase key j h.owned found;
        less = rw found (omega (arith, size_le h key found));
        copied =
            Lives-write_ne b.address none
              (ground (arith, outside_rest key p h.owned found out, eq_iff p b.address)) alive;
        outside = addresses-erase s.table key p out;
      },
    )
  ]
