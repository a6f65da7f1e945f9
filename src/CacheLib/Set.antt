-- ===== src/CacheLib/Set.antt =====
-- `Cache::Impl::set`: what it does on each of its branches.
use cs389hw.Shared.{eq_refl}
use cs389hw.Shared.{
  ℕ, zero, suc, ◌+◌, ◌%◌, ◌≤◌, ◌≡◌, ◌≢◌, refl, sym, ap, subst, ◌∙◌, arith, true, false, ◌||◌, none,
  some, List, [], ◌∷◌, Key, Bytes, ok, bytes_eq, nat_eq, ◌==◌, contains, length, take, is_some,
  if◌then◌else◌, le→leb, Bool-cases, inl, inr,
}
use cs389hw.Shared.Int.{u32}
use cs389hw.Shared.Tables.{find, is_some-find}
use cs389hw.Memory.{Ptr, Lives}
use cs389hw.Evictor.{Evictor, IsPolicy}
use cs389hw.CacheLib.{Block, Impl, copy, free_found, store, touch}
use cs389hw.CacheLib.Blocks.{cons, addresses}
use cs389hw.CacheLib.Valid.{InOrder, IsSound, IsValid, value, size_of}
use cs389hw.CacheLib.Store.{touched_order, with_block, touch-IsValid, Cleared, free_found_lem}

-- Copying from a buffer that is long enough takes its first bytes.
pub copy-take : (size : ℕ) (val : Bytes) → size ≤ length val → copy size val ≡ ok (take size val)
unfolding copy
copy-take zero val h = refl
copy-take (suc n) [] h = absurd (omega arith)
copy-take (suc n) (c ∷ val) h = rw (copy-take n val (omega arith))

module _ {S : Type 0} {s : Impl S} {key : Key} {p : Ptr} {v : Bytes} where
  absent : {s' : Impl S} → Cleared s key p v s' → find s'.table key ≡ none
  absent c = ground (arith, c.entries key, eq_refl key)

  with_block-IsSound :
      (size : ℕ) {s' : Impl S}
      → Cleared s key p v s'
      → length v ≡ size
      → s.current_mem + size ≤ s.my_maxmem + size_of s key
      → IsSound (with_block key (record { address = p; size = size }) s')
  with_block-IsSound size {s'} c n fits = record {
    owned =
        cons v (sym (is_some-find s'.table key) ∙ ap is_some (absent c)) c.copied n c.outside
          c.sound.owned;
    accounted = omega (arith, c.sound.accounted);
    bounded = omega (arith, c.less, c.same_bound);
    loads = c.sound.loads;
    small = c.sound.small;
  }

module _ {S : Type 0} {ev : Evictor S} (P : IsPolicy ev) where
  store_run :
      {s s' : Impl S} {key : Key} {p : Ptr} {v : Bytes} (size : ℕ)
      → free_found (find s.table key) key s ≡ ok s'
      → Cleared s key p v s'
      → IsSound (with_block key (record { address = p; size = size }) s')
      → store ev key p size s
        ≡ touch ev s'.my_evictor key (with_block key (record { address = p; size = size }) s')
  unfolding store
  store_run {s' = s'} {key} size run c h =
      let wraps : (s'.current_mem + size) % u32 ≡ s'.current_mem + size =
        omega (arith, h.bounded, h.small) in
      let room = le→leb (s'.current_mem + size) s'.my_maxmem h.bounded in
      let loads = le→leb s'.table_load_factor s'.my_max_load_factor (omega (arith, h.loads)) in
      rw (run, absent c, wraps, loads, room)

  -- The end of `set`, from the state in which there is room, with the memory that is then in use.
  pub store_used :
      {s : Impl S} {l : List Key} (key : Key) (p : Ptr) (v : Bytes) (size : ℕ)
      → IsValid P s l
      → key ≢ []
      → Lives s.buffers p v
      → contains p (addresses s.table) ≡ false
      → length v ≡ size
      → s.current_mem + size ≤ s.my_maxmem + size_of s key
      → (s' : Impl S) × (store ev key p size s ≡ ok s')
        × IsValid P s' (touched_order P s.my_evictor key l)
        × ((j : Key) → value s' j ≡ (if j == key then some v else value s j))
        × (s'.current_mem + size_of s key ≡ s.current_mem + size)
  store_used {s} {l} key p v size h real alive out n fits =
      let (s₁, run, c) = free_found_lem h.sound key alive out in
      let sound₂ = with_block-IsSound size c n fits in
      let b : Block = record { address = p; size = size } in
      let order₁ : InOrder P s₁.my_evictor l =
        subst (λ o. InOrder P o l) (sym c.same_evictor) h.ordered in
      let covers : is_some s₁.my_evictor ≡ true
          → (j : Key) → is_some (find (with_block key b s₁).table j) ≡ true
          → ((j == key) || contains j l) ≡ true =
        λ on j i. ground (arith, c.entries j, h.covered (ap is_some (sym c.same_evictor) ∙ on) j) in
      let (o, run', valid) = touch-IsValid P key l sound₂ order₁ covers h.named real in
      (
        record (with_block key b s₁) { my_evictor = o },
        store_run size run c sound₂ ∙ run',
        subst
            (λ x.
              IsValid P (record (with_block key b s₁) { my_evictor = o }) (touched_order P x key l))
            c.same_evictor valid,
        λ j. elim (Bool-cases (j == key)) [
          | inl here ↦ rw here c.copied.holds
          | inr there ↦ ground (arith, c.values j)
        ],
        omega (arith, c.less),
      )

  pub store_lem :
      {s : Impl S} {l : List Key} (key : Key) (p : Ptr) (v : Bytes) (size : ℕ)
      → IsValid P s l
      → key ≢ []
      → Lives s.buffers p v
      → contains p (addresses s.table) ≡ false
      → length v ≡ size
      → s.current_mem + size ≤ s.my_maxmem + size_of s key
      → (s' : Impl S) × (store ev key p size s ≡ ok s')
        × IsValid P s' (touched_order P s.my_evictor key l)
        × ((j : Key) → value s' j ≡ (if j == key then some v else value s j))
  store_lem key p v size h real alive out n fits =
      let (s', run, valid, values, used) = store_used key p v size h real alive out n fits in
      (s', run, valid, values)
