-- ===== src/Server/Race.antt =====
-- `Cache::get` hands out a pointer into the cache and releases the mutex before it is used. What
-- another session's call does in between.
use cs389hw.CacheLib.Blocks.{read_in, Owned-block}
use cs389hw.CacheLib.Access.{get_hit, del_present}
use cs389hw.Shared.{
  length, Option-cases, inl, inr, is_some, ℕ, ◌≡◌, ◌≢◌, ap, sym, ◌∙◌, arith, none, some, true, List,
  [], Bytes, Key, ok, stop, bad_access, nat_eq, bytes_eq,
}
use cs389hw.Shared.Tables.{find}
use cs389hw.Memory.{Ptr, load, read-write_self}
use cs389hw.Evictor.{Evictor, IsPolicy}
use cs389hw.CacheLib.{Impl, get, del}
use cs389hw.CacheLib.Valid.{IsValid, value, freed}

module _ {S : Type 0} {ev : Evictor S} {P : IsPolicy ev} {s : Impl S} {l : List Key}
    (h : IsValid P s l) (key : Key) where
  -- A session gets the pointer to a value, another deletes the key, and the first reads through
  -- its pointer: the buffer is gone.
  pub get-del-load :
      {v : Bytes}
      → key ≢ []
      → value s key ≡ some v
      → (p : Ptr) × (s₁ s₂ : Impl S) × (get ev key s ≡ ok ((p, length v), s₁))
        × (del key s₁ ≡ ok (true, s₂))
        × (load s₂.buffers p ≡ stop bad_access)
  unfolding load
  get-del-load {v} real has = elim (Option-cases (find s.table key)) [
    | inl absent ↦ absurd (ground (arith, ap (read_in s.buffers) absent))
    | inr (b, found) ↦
        let (o, run, valid) = get_hit h key real found in
        let (w, alive, n) = Owned-block key h.sound.owned found in
        let same : w ≡ v = ground (arith, ap (read_in s.buffers) found, alive.holds) in
        let (run', valid') = del_present valid key found in
        (
          b.address,
          record s { my_evictor = o },
          freed key b (record s { my_evictor = o }),
          run
              ∙ ap (λ (x : ℕ). ok ((b.address, x), record s { my_evictor = o }))
                  (sym n ∙ ap length same),
          run' ∙ ap (λ o'. ok (is_some o', freed key b (record s { my_evictor = o }))) has,
          rw (read-write_self s.buffers b.address none) (ground arith),
        )
  ]
