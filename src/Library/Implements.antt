-- ===== src/Library/Implements.antt =====
-- cache_lib.cc with an evictor, held against the contract of cache.hh.
use cs389hw.Shared.Tables.{find}
use cs389hw.CacheLib.Blocks.{read_in}
use cs389hw.Shared.{
  eq_refl, ℕ, ◌≤◌, ◌<◌, ◌≡◌, ◌≢◌, refl, ap, ◌∙◌, arith, Bool, true, false, none, some, List, [],
  Key, Bytes, bytes_eq, nat_eq, ok, ◌==◌, if◌then◌else◌, length, is_some, take, take_all,
}
use cs389hw.Memory.{null, load, load_lem, Allocator}
use cs389hw.Evictor.{Evictor, IsPolicy}
use cs389hw.CacheLib
use cs389hw.CacheLib.{Impl}
use cs389hw.CacheLib.Valid.{IsValid, value}
use cs389hw.CacheLib.Config.{config, itself, beside, of_Has, set_Has, get_Has, del_Has, reset_Has}
use cs389hw.CacheLib.Outcomes.{set_stores}
use cs389hw.CacheLib.Access.{get-some, get-none, del_lem}
use cs389hw.CacheLib.Reset.{reset_lem}
use cs389hw.Cache.Contract.{View, Kept, Contract}
use cs389hw.Library.{Library, lock, unlock, read_answer, set, get, del, space_used, reset, library}

-- The rounds are above the lengths of the table and of the evictor's order.
abbrev pub Enough : {S : Type 0} {ev : Evictor S} → IsPolicy ev → (Impl S → ℕ) → Type 0
Enough {S} P rounds =
    (s : Impl S) (l : List Key)
    → IsValid P s l
    → (length s.table < rounds s) × (length l < rounds s)

-- The state between two calls: sound, and no thread has the mutex.
pub record IsReady {S : Type 0} {ev : Evictor S} (P : IsPolicy ev) (w : Library S) : Type 0 where
  pub order : List Key
  pub valid : IsValid P w.p_impl order
  pub on : is_some w.p_impl.my_evictor ≡ true
  pub unlocked : w.mutex ≡ false

-- Every key but the empty one, and every value.
abbrev pub view : {S : Type 0} {ev : Evictor S} → IsPolicy ev → View (Library S)
view P = record {
  Ready = IsReady P;
  content = λ w key. value w.p_impl key;
  capacity = λ w. w.p_impl.my_maxmem;
  used = λ w. w.p_impl.current_mem;
  IsKey = λ key. key ≢ [];
  IsValue = λ val. Unit;
}

module _ {S : Type 0} (w : Library S) (s : Impl S) where
  after_unlock :
      (j : Key) → value (unlock (record w { mutex = true; p_impl = s })).p_impl j ≡ value s j
  unfolding unlock
  after_unlock j = refl

  after_mem : (unlock (record w { mutex = true; p_impl = s })).p_impl.current_mem ≡ s.current_mem
  unfolding unlock
  after_mem = refl

module _ {S : Type 0} {ev : Evictor S} {P : IsPolicy ev} (alloc : Allocator Bytes)
    {rounds : Impl S → ℕ} (enough : Enough P rounds) where
  -- What a call leaves, by what it does to `Impl`.
  after_call :
      {w : Library S} (r : IsReady P w) {s : Impl S} {l : List Key}
      → IsValid P s l
      → config s ≡ config w.p_impl
      → Kept (view P) w (unlock (record w { mutex = true; p_impl = s }))
  unfolding unlock
  after_call r {s} {l} valid same = record {
    ready = record { order = l; valid = valid; on = ap (λ c. c.1) same ∙ r.on; unlocked = refl };
    same_capacity = ap (λ c. c.0) same;
  }

  set_ready :
      {w : Library S} (key : Key) (val : Bytes)
      → IsReady P w
      → key ≢ []
      → length val ≤ w.p_impl.my_maxmem
      → (w' : Library S) × (set ev alloc rounds key val (length val) w ≡ ok w')
        × Kept (view P) w w'
        × (value w'.p_impl key ≡ some val)
        × ((j : Key) (u : Bytes)
            → (j == key) ≡ false
            → value w'.p_impl j ≡ some u
            → value w.p_impl j ≡ some u)
  unfolding set lock
  set_ready {w} key val r real fits =
      let n = rounds w.p_impl in
      let (s, ran, stored) =
        set_stores alloc n key val (length val) r.valid (omega arith) real r.on fits
          (enough w.p_impl r.order r.valid).1 in
      let all : take (length val) val ≡ val = take_all val in
      (
        unlock (record w { mutex = true; p_impl = s }),
        rw (r.unlocked, ran) refl,
        after_call r stored.valid
            (of_Has itself _ _ (set_Has ev alloc n key val (length val) w.p_impl) ran),
        after_unlock w s key ∙ stored.values key ∙ rw (eq_refl key, all) refl,
        λ j u other e. ground (arith, after_unlock w s j, stored.values j, e, other),
      )

  get_ready :
      {w : Library S} (key : Key) {val : Bytes}
      → IsReady P w
      → key ≢ []
      → value w.p_impl key ≡ some val
      → (w' : Library S) × (get ev alloc rounds key w ≡ ok ((some val, length val), w'))
        × Kept (view P) w w'
        × ((j : Key) → value w'.p_impl j ≡ value w.p_impl j)
  unfolding get lock read_answer
  get_ready {w} key {val} r real found =
      let (p, o, ran, alive, holds, valid) = get-some r.valid key real found in
      let s = record w.p_impl { my_evictor = o } in
      let there : (p == null) ≡ false = ground (arith, alive) in
      let loaded : load w.p_impl.buffers p ≡ ok val =
        load_lem (record { ne_null = alive; holds = holds }) in
      (
        unlock (record w { mutex = true; p_impl = s }),
        rw (r.unlocked, ran, there, loaded) refl,
        after_call r valid (of_Has beside _ _ (get_Has ev key w.p_impl) ran),
        λ j. after_unlock w s j,
      )

  get_absent :
      {w : Library S} (key : Key)
      → IsReady P w
      → value w.p_impl key ≡ none
      → get ev alloc rounds key w ≡ ok ((none, 0), w)
  unfolding get lock unlock read_answer
  get_absent {w} key r absent = rw (r.unlocked, get-none r.valid key absent) refl

  del_ready :
      {w : Library S} (key : Key)
      → IsReady P w
      → (b : Bool) × (w' : Library S) × (del ev alloc rounds key w ≡ ok (b, w'))
        × Kept (view P) w w'
        × ((j : Key) → value w'.p_impl j ≡ (if j == key then none else value w.p_impl j))
  unfolding del lock
  del_ready {w} key r =
      let (s, ran, valid, values, mem, same) = del_lem r.valid key in
      (
        is_some (value w.p_impl key),
        unlock (record w { mutex = true; p_impl = s }),
        rw (r.unlocked, ran) refl,
        after_call r valid (of_Has beside _ _ (del_Has key w.p_impl) ran),
        λ j. after_unlock w s j ∙ values j,
      )

  reset_ready :
      {w : Library S}
      → IsReady P w
      → (w' : Library S) × (reset ev alloc rounds w ≡ ok w')
        × Kept (view P) w w'
        × ((j : Key) → value w'.p_impl j ≡ none)
        × (w'.p_impl.current_mem ≡ 0)
  unfolding reset lock
  reset_ready {w} r =
      let n = rounds w.p_impl in
      let (below, below') = enough w.p_impl r.order r.valid in
      let (s, ran, valid, empty, unused, freed) = reset_lem P n r.valid below below' in
      (
        unlock (record w { mutex = true; p_impl = s }),
        rw (r.unlocked, ran) refl,
        after_call r valid (of_Has itself _ _ (reset_Has ev n w.p_impl) ran),
        λ j. after_unlock w s j ∙ ap (λ t. read_in s.buffers (find t j)) empty,
        after_mem w s ∙ unused,
      )

  -- The library, with an evictor that keeps its own contract, keeps the laws of Cache/Contract on
  -- keys that are not empty, of values of at most the capacity; the loops have the rounds that they
  -- need. Nothing is said of larger values.
  pub library-Contract : Contract (library ev alloc rounds) (view P)
  unfolding library space_used lock unlock CacheLib.get_current_mem
  library-Contract = record {
    set_stores = λ key val r real any fits. set_ready key val r real fits;
    get_finds = λ key r real found. get_ready key r real found;
    get_misses = λ key r real absent. get_absent key r absent;
    del_removes = λ key r real. del_ready key r;
    space_used_reads = λ {w} r. rw r.unlocked refl;
    reset_empties = λ r. reset_ready r;
  }
