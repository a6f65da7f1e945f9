-- ===== src/CacheLib/Room.antt =====
-- The loop of `set` that makes room.
use cs389hw.Shared.{
  ℕ, ◌+◌, ◌<◌, ◌^◌, ◌≡◌, refl, sym, ap, subst, ◌∙◌, arith, true, false, none, some, List, [], ◌∷◌,
  ◌++◌, Key, ok, stop, assert_failed, bytes_eq, nat_eq, ◌==◌, contains, contains-append, is_some,
  if◌then◌else◌, ltb, Option-cases, Bool-cases, inl, inr, eq_iff, eq_refl,
}
use cs389hw.Shared.Int.{ℤ, sub_ℕ}
use cs389hw.Shared.Tables.{find, find-erase}
use cs389hw.Memory.{Ptr, read, read-write_ne}
use cs389hw.Evictor.{Evictor, IsPolicy}
use cs389hw.CacheLib.{Block, Impl, exceeds, change_for, drop_found, evict_one}
use cs389hw.CacheLib.Blocks.{content-erase, addresses, addresses-erase, outside_rest}
use cs389hw.CacheLib.Valid.{
  InOrder, IsSound, IsValid, value, size_of, freed, size_le, free_lem, freed-IsSound, size_of_le,
  with_evictor,
}

-- What `size_change` is, for the value of `key` that is in the table now.
abbrev pub change : {S : Type 0} → Impl S → Key → ℕ → ℤ
change s key size = sub_ℕ size (size_of s key)

module _ {S : Type 0} {s : Impl S} (h : IsSound s) where
  -- The loop's test, in numbers.
  pub exceeds_lem :
      (key : Key) (size : ℕ)
      → s.current_mem + size < 2 ^ 31 + size_of s key
      → exceeds (change s key size) s
        ≡ ok (ltb (s.my_maxmem + size_of s key) (s.current_mem + size))
  unfolding exceeds
  exceeds_lem key size fits = ground (arith, h.bounded, h.small, size_of_le h key)

  pub change_for_lem :
      (key : Key) (size : ℕ)
      → size < 2 ^ 31
      → change_for (find s.table key) size ≡ ok (change s key size)
  unfolding change_for
  change_for_lem key size small = elim (Option-cases (find s.table key)) [
    | inl absent ↦ rw absent (ground arith)
    | inr (b, e) ↦ rw e (ground (arith, size_le h key e, h.bounded, h.small))
  ]

-- `s'` is `s` without the keys `d`.
pub record Dropped {S : Type 0} (s s' : Impl S) (d : List Key) : Type 0 where
  pub same_bound : s'.my_maxmem ≡ s.my_maxmem
  pub same_evictor : is_some s'.my_evictor ≡ is_some s.my_evictor
  pub entries : (j : Key) → find s'.table j ≡ (if contains j d then none else find s.table j)
  pub values : (j : Key) → value s' j ≡ (if contains j d then none else value s j)
  pub spared :
      (q : Ptr)
      → contains q (addresses s.table) ≡ false
      → (read s'.buffers q ≡ read s.buffers q) × (contains q (addresses s'.table) ≡ false)

module _ {S : Type 0} where
  pub Dropped-nil : (s : Impl S) → Dropped s s []
  Dropped-nil s = record {
    same_bound = refl;
    same_evictor = refl;
    entries = λ j. refl;
    values = λ j. refl;
    spared = λ q out. (refl, out);
  }

  pub Dropped-append :
      {s s' s'' : Impl S} {d d' : List Key}
      → Dropped s s' d
      → Dropped s' s'' d'
      → Dropped s s'' (d ++ d')
  Dropped-append {d} {d'} a b = record {
    same_bound = b.same_bound ∙ a.same_bound;
    same_evictor = b.same_evictor ∙ a.same_evictor;
    entries = λ j. ground (arith, contains-append j d d', a.entries j, b.entries j);
    values = λ j. ground (arith, contains-append j d d', a.values j, b.values j);
    spared = λ q out. let (r, o) = a.spared q out in let (r', o') = b.spared q o in (r' ∙ r, o');
  }

module _ {S : Type 0} (ev : Evictor S) where
  pub evict_one_run :
      (v key : Key) (size : ℕ) (c : ℤ) (s : Impl S) {e e' : S}
      → s.my_evictor ≡ some e
      → ev.evict e ≡ ok (v, e')
      → (v == []) ≡ false
      → evict_one ev s.my_evictor key size c s
        ≡ drop_found (find s.table v) v key size c (record s { my_evictor = some e' })
  unfolding evict_one
  evict_one_run v key size c s some_e run real =
      ap (λ o. evict_one ev o key size c s) some_e ∙ rw (run, real)

module _ {S : Type 0} where
  drop_found_lem :
      (v key : Key) (size : ℕ) {s : Impl S} {b : Block}
      → IsSound s
      → size < 2 ^ 31
      → find s.table v ≡ some b
      → drop_found (some b) v key size (change s key size) s
        ≡ ok (change (freed v b s) key size, freed v b s)
  unfolding drop_found
  drop_found_lem v key size {s} {b} h small found = rw (free_lem h v found) (
      ap (λ c. ok (c, freed v b s))
        (ground (arith, find-erase s.table v key, eq_iff v key, eq_iff key v)))

-- `s'` is what `evict_one` makes of `s` when the evictor answers `v`.
pub record Evicted {S : Type 0} {ev : Evictor S} (P : IsPolicy ev) (s : Impl S) (v : Key)
    (l : List Key) (s' : Impl S) : Type 0 where
  pub valid : IsValid P s' l
  pub dropped : Dropped s s' (v ∷ [])
  pub less : s'.current_mem + size_of s v ≡ s.current_mem

module _ {S : Type 0} {ev : Evictor S} (P : IsPolicy ev) {v : Key} {l : List Key} where
  module _ {s : Impl S} (h : IsValid P s (v ∷ l)) (on : is_some s.my_evictor ≡ true) {e' : S}
      (holds : P.Holds e' l) where
    forgotten : find s.table v ≡ none → Evicted P s v l (record s { my_evictor = some e' })
    forgotten absent = record {
      valid = record {
        sound = with_evictor (some e') h.sound;
        ordered = holds;
        covered = λ i k present. ground (arith, h.covered on k present, eq_iff k v);
        named = ground (arith, h.named);
      };
      dropped = record {
        same_bound = refl;
        same_evictor = sym on;
        entries = λ j. ground (arith, eq_iff j v);
        values = λ j. elim (Bool-cases (j == v)) [
          | inl here ↦
              let gone : find s.table j ≡ none = ground (arith, eq_iff j v) in rw (here, gone)
          | inr there ↦ rw there
        ];
        spared = λ q out. (refl, out);
      };
      less = rw absent (omega arith);
    }

    evicted :
        {b : Block}
        → find s.table v ≡ some b
        → Evicted P s v l (freed v b (record s { my_evictor = some e' }))
    evicted {b} found = record {
      valid = record {
        sound = freed-IsSound (with_evictor (some e') h.sound) v found;
        ordered = holds;
        covered = λ i k present. ground (arith, h.covered on k, find-erase s.table v k, eq_iff k v);
        named = ground (arith, h.named);
      };
      dropped = record {
        same_bound = refl;
        same_evictor = sym on;
        entries = λ j. ground (arith, find-erase s.table v j);
        values = λ j. ground (arith, content-erase v j h.sound.owned found);
        spared = λ q out. (
          read-write_ne s.buffers b.address none q
              (ground (arith, outside_rest v q h.sound.owned found out, eq_iff q b.address)),
          addresses-erase s.table v q out,
        );
      };
      less = rw found (omega (arith, size_le h.sound v found));
    }

  -- One round of the loop: the key that the evictor answers leaves the cache, if it is there.
  pub evict_one_lem :
      (key : Key) (size : ℕ) {s : Impl S}
      → IsValid P s (v ∷ l)
      → is_some s.my_evictor ≡ true
      → size < 2 ^ 31
      → (s' : Impl S) × (evict_one ev s.my_evictor key size (change s key size) s
          ≡ ok (change s' key size, s'))
        × Evicted P s v l s'
  unfolding drop_found
  evict_one_lem key size {s} h on small = elim (Option-cases s.my_evictor) [
    | inl off ↦ cc
    | inr (e, some_e) ↦
        let holds : P.Holds e (v ∷ l) = subst (λ o. InOrder P o (v ∷ l)) some_e h.ordered in
        let (e', run, holds') = P.evict_holds v e l holds in
        let real : (v == []) ≡ false = ground (arith, h.named, eq_iff v [], eq_iff [] v) in
        elim (Option-cases (find s.table v)) [
          | inl absent ↦ (
            record s { my_evictor = some e' },
            evict_one_run ev v key size (change s key size) s some_e run real
                ∙ ap
                    (λ o.
                      drop_found o v key size (change s key size)
                        (record s { my_evictor = some e' }))
                    absent,
            forgotten h on holds' absent,
          )
          | inr (b, found) ↦ (
            freed v b (record s { my_evictor = some e' }),
            evict_one_run ev v key size (change s key size) s some_e run real
                ∙ ap
                    (λ o.
                      drop_found o v key size (change s key size)
                        (record s { my_evictor = some e' }))
                    found
                ∙ drop_found_lem v key size (with_evictor (some e') h.sound) small found,
            evicted h on holds' found,
          )
        ]
  ]

module _ {S : Type 0} {ev : Evictor S} (P : IsPolicy ev) where
  -- With no key left the evictor answers the empty key, and the assertion fails.
  pub evict_one_empty :
      (key : Key) (size : ℕ) (c : ℤ) {s : Impl S}
      → IsValid P s []
      → is_some s.my_evictor ≡ true
      → evict_one ev s.my_evictor key size c s ≡ stop assert_failed
  unfolding evict_one
  evict_one_empty key size c {s} h on = elim (Option-cases s.my_evictor) [
    | inl off ↦ cc
    | inr (e, some_e) ↦
        let holds : P.Holds e [] = subst (λ o. InOrder P o []) some_e h.ordered in
        ap (λ o. evict_one ev o key size c s) some_e
        ∙ rw (P.evict_empty e holds, eq_refl {A = Key} [])
  ]
