-- ===== src/CacheLib/Access.antt =====
-- `get`, `del` and `space_used`.
use cs389hw.Shared.{
  eq_iff, Bool-cases, ◌+◌, sym, [], Bytes, ℕ, ◌≡◌, ◌≢◌, refl, ap, ◌∙◌, arith, true, Option, some,
  none, List, Key, ok, is_some, if◌then◌else◌, ◌==◌, bytes_eq, Option-cases, inl, inr, le→leb,
  length,
}
use cs389hw.Shared.Tables.{find, find-erase}
use cs389hw.Memory.{Ptr, null, read}
use cs389hw.Evictor.{Evictor, IsPolicy}
use cs389hw.CacheLib.{Block, Impl, get, get_found, del, del_found}
use cs389hw.CacheLib.Blocks.{read_in, content-erase, Owned-block}
use cs389hw.CacheLib.Valid.{IsValid, value, size_of, freed, free_lem, freed-IsSound, size_le}
use cs389hw.CacheLib.Store.{touched_order, touch-IsValid}

module _ {S : Type 0} {ev : Evictor S} {P : IsPolicy ev} {s : Impl S} {l : List Key}
    (h : IsValid P s l) (key : Key) where
  pub get_hit :
      {b : Block}
      → key ≢ []
      → find s.table key ≡ some b
      → (o : Option S) × (get ev key s ≡ ok ((b.address, b.size), record s { my_evictor = o }))
        × IsValid P (record s { my_evictor = o }) (touched_order P s.my_evictor key l)
  unfolding get get_found
  get_hit {b} real found =
      let (o, run, valid) =
        touch-IsValid P key l h.sound h.ordered (λ on j i. ground (arith, h.covered on j i)) h.named
          real in
      (o, ap (λ x. get_found ev x key s) found ∙ rw run, valid)

  -- A hit: `get` answers the pointer to the key's value and its size, tells the evictor of the
  -- key, and changes nothing else.
  pub get-some :
      {v : Bytes}
      → key ≢ []
      → value s key ≡ some v
      → (p : Ptr) × (o : Option S) × (get ev key s
          ≡ ok ((p, length v), record s { my_evictor = o }))
        × (p ≢ null)
        × (read s.buffers p ≡ some v)
        × IsValid P (record s { my_evictor = o }) (touched_order P s.my_evictor key l)
  get-some {v} real e = elim (Option-cases (find s.table key)) [
    | inl absent ↦ absurd (ground (arith, ap (read_in s.buffers) absent))
    | inr (b, found) ↦
        let (o, run, valid) = get_hit real found in
        let (w, alive, n) = Owned-block key h.sound.owned found in
        let same : w ≡ v = ground (arith, ap (read_in s.buffers) found, alive.holds) in
        (
          b.address,
          o,
          run
              ∙ ap (λ (x : ℕ). ok ((b.address, x), record s { my_evictor = o }))
                  (sym n ∙ ap length same),
          alive.ne_null,
          alive.holds ∙ ap some same,
          valid,
        )
  ]

  -- A miss: a null pointer, size 0, and no change.
  pub get-none : value s key ≡ none → get ev key s ≡ ok ((null, 0), s)
  unfolding get get_found
  get-none e = elim (Option-cases (find s.table key)) [
    | inl absent ↦ ap (λ x. get_found ev x key s) absent
    | inr (b, found) ↦
        let (w, alive, n) = Owned-block key h.sound.owned found in
        absurd (ground (arith, ap (read_in s.buffers) found, alive.holds))
  ]

  del_absent :
      find s.table key ≡ none
      → (del key s ≡ ok (is_some (value s key), s))
        × ((j : Key) → value s j ≡ (if j == key then none else value s j))
  unfolding del del_found
  del_absent absent = (
    ap (λ x. del_found x key s) absent
        ∙ ap (λ b. ok (b, s)) (sym (ap (λ o. is_some (read_in s.buffers o)) absent)),
    λ j. elim (Bool-cases (j == key)) [
      | inl here ↦
          let gone : find s.table j ≡ none = ground (arith, eq_iff j key) in rw (here, gone)
      | inr there ↦ rw there
    ],
  )

  pub del_present :
      {b : Block}
      → find s.table key ≡ some b
      → (del key s ≡ ok (is_some (value s key), freed key b s)) × IsValid P (freed key b s) l
  unfolding del del_found
  del_present {b} found =
      let (w, alive, n) = Owned-block key h.sound.owned found in
      let loads = le→leb s.table_load_factor s.my_max_load_factor (omega (arith, h.sound.loads)) in
      let seen : is_some (value s key) ≡ true =
        ap (λ o. is_some (read_in s.buffers o)) found ∙ ap is_some alive.holds in
      (
        ap (λ x. del_found x key s) found
            ∙ (rw (free_lem h.sound key found, loads))
            ∙ ap (λ x. ok (x, freed key b s)) (sym seen),
        record {
          sound = freed-IsSound h.sound key found;
          ordered = h.ordered;
          covered = λ on j i. ground (arith, h.covered on j, find-erase s.table key j);
          named = h.named;
        },
      )

  -- `del` answers whether the key was there, takes it and its memory out of the cache, and
  -- leaves every other key its value. The evictor is not told.
  pub del_lem :
      (s' : Impl S) × (del key s ≡ ok (is_some (value s key), s'))
      × IsValid P s' l
      × ((j : Key) → value s' j ≡ (if j == key then none else value s j))
      × (s'.current_mem + size_of s key ≡ s.current_mem)
      × (s'.my_evictor ≡ s.my_evictor)
  del_lem = elim (Option-cases (find s.table key)) [
    | inl absent ↦
        let (run, values) = del_absent absent in (s, run, h, values, rw absent (omega arith), refl)
    | inr (b, found) ↦
        let (run, valid) = del_present found in
        (
          freed key b s,
          run,
          valid,
          λ j. content-erase key j h.sound.owned found,
          rw found (omega (arith, size_le h.sound key found)),
          refl,
        )
  ]
