-- ===== src/Server/Answers.antt =====
-- What `handle_request` answers to the requests that it understands.
use cs389hw.CacheLib.Reset.{reset_lem}
use cs389hw.Shared.{
  refl, eq_iff, text, ℕ, ◌+◌, ◌%◌, ◌<◌, true, false, Option, some, none, List, [], ◌∷◌, ◌++◌, ◌≡◌,
  ◌≢◌, ap, ◌∙◌, subst, arith, Bytes, Key, Result, ok, ◌>>=◌, ◌==◌, nat_eq, bytes_eq, if◌then◌else◌,
  contains, length, length-append, take_all, take_append_self, drop_append_self, is_some, eq_refl,
}
use cs389hw.Shared.Int.{u32}
use cs389hw.Memory.{Allocator, null, load, load_lem}
use cs389hw.Evictor.{Evictor, IsPolicy}
use cs389hw.CacheLib.{Impl, set}
use cs389hw.CacheLib.Valid.{IsValid, value}
use cs389hw.CacheLib.Store.{touched_order}
use cs389hw.CacheLib.Outcomes.{Stored, set_stores}
use cs389hw.CacheLib.Access.{get-some, get-none, del_lem}
use cs389hw.Server.{
  Request, Response, default_response, not_found, set_header, slash, at_zero, answer_get, put_at,
  handle_request, dispatch, get, put, delete_, handle_get, handle_put, handle_post, post,
  handle_delete,
}
use cs389hw.Server.Targets.{put_target, key_target, find_char_append, until_nul_lem}

-- The answer to a request that the cache has carried out.
abbrev pub accepted : {S : Type 0} → Impl S → Response
accepted s = set_header s default_response 200

-- The bytes that the cache keeps for a value: a C string.
abbrev pub c_string : Bytes → Bytes
c_string value = value ++ 0 ∷ []

module _ {S : Type 0} (ev : Evictor S) (alloc : Allocator Bytes) (rounds : ℕ)
    (beast_version : Bytes) (dump : Bytes → Bytes → Result Bytes) where
  -- `PUT /key/value` stores the C string of the value under the key.
  put_splits :
      (req : Request) (key : Key) (val : Bytes) (s : Impl S)
      → req.target ≡ put_target key val
      → contains slash key ≡ false
      → handle_put ev alloc rounds beast_version dump req s ≡ (
          set ev alloc rounds key (c_string val) ((length val + 1) % u32) s >>= λ s.
          ok (accepted s, s))
  unfolding handle_put at_zero put_at
  put_splits req key val s e k = rw (
    e,
    eq_refl slash,
    find_char_append slash key val k,
    take_append_self key (slash ∷ val),
    drop_append_self key slash val,
  )

  module _ {P : IsPolicy ev} {s : Impl S} {l : List Key} (h : IsValid P s l) (req : Request)
      (key : Key) (real : key ≢ []) where
    pub put_stores :
        (val : Bytes)
        → req.target ≡ put_target key val
        → contains slash key ≡ false
        → is_some s.my_evictor ≡ true
        → length val < s.my_maxmem
        → length l < rounds
        → (s' : Impl S) × (handle_put ev alloc rounds beast_version dump req s
            ≡ ok (accepted s', s'))
          × Stored P s l key (c_string val) s'
    put_stores val e k on fits enough =
        let n : length (c_string val) ≡ length val + 1 =
          omega (arith, length-append val (0 ∷ [])) in
        let no_wrap : (length val + 1) % u32 ≡ length (c_string val) =
          omega (arith, n, h.sound.small) in
        let (s', run, r) =
          set_stores alloc rounds key (c_string val) (length (c_string val)) h (omega arith) real on
            (omega (arith, n)) enough in
        (
          s',
          put_splits req key val s e k
              ∙ ap (λ i. set ev alloc rounds key (c_string val) i s >>= λ s. ok (accepted s, s))
                  no_wrap
              ∙ ap (λ r. r >>= λ s. ok (accepted s, s)) run,
          subst (λ v. Stored P s l key v s') (take_all (c_string val)) r,
        )

    pub get_answers :
        (val : Bytes)
        → req.target ≡ key_target key
        → contains 0 val ≡ false
        → value s key ≡ some (c_string val)
        → (o : Option S) × (handle_get ev alloc rounds beast_version dump req s ≡ (
            dump key val >>= λ body.
            ok (record default_response { body = body }, record s { my_evictor = o })))
          × IsValid P (record s { my_evictor = o }) (touched_order P s.my_evictor key l)
    unfolding handle_get at_zero answer_get
    get_answers val e z has =
        let (p, o, run, alive, holds, valid) = get-some h key real has in
        let p0 : (p == null) ≡ false = ground (arith, alive) in
        let ld : load s.buffers p ≡ ok (c_string val) =
          load_lem (record { ne_null = alive; holds = holds }) in
        (o, rw (e, eq_refl slash, run, p0, ld, until_nul_lem val z), valid)

    pub get_misses :
        req.target ≡ key_target key
        → value s key ≡ none
        → handle_get ev alloc rounds beast_version dump req s
          ≡ ok (not_found beast_version req key, s)
    unfolding handle_get at_zero answer_get
    get_misses e absent = rw (e, eq_refl slash, get-none h key absent)

    pub delete_removes :
        req.target ≡ key_target key
        → (s' : Impl S) × (handle_delete ev alloc rounds beast_version dump req s
            ≡ ok (accepted s', s'))
          × IsValid P s' l
          × ((j : Key) → value s' j ≡ (if j == key then none else value s j))
    unfolding handle_delete at_zero
    delete_removes e =
        let (s', run, valid, values, mem, same) = del_lem h key in
        (s', rw (e, eq_refl slash, run), valid, values)

module _ {S : Type 0} {ev : Evictor S} (alloc : Allocator Bytes) (rounds : ℕ)
    (beast_version : Bytes) (dump : Bytes → Bytes → Result Bytes) {P : IsPolicy ev} {s : Impl S}
    {l : List Key} (h : IsValid P s l) (key : Key) (real : key ≢ []) where
  -- `PUT /key/value` and then `GET /key`: both are answered, and the second answer is the JSON
  -- text of the key and the value. The key is not empty and has no slash, the value has no NUL and
  -- a JSON text with the key, and with its terminator it fits into the cache, which is sound and
  -- has an evictor; the rounds are above the length of the order.
  pub put-get :
      (first second : Request) (val body : Bytes)
      → first.method ≡ put
      → first.target ≡ put_target key val
      → second.method ≡ get
      → second.target ≡ key_target key
      → contains slash key ≡ false
      → contains 0 val ≡ false
      → dump key val ≡ ok body
      → is_some s.my_evictor ≡ true
      → length val < s.my_maxmem
      → length l < rounds
      → (s₁ s₂ : Impl S) × (handle_request ev alloc rounds beast_version dump first s
          ≡ ok (accepted s₁, s₁))
        × (handle_request ev alloc rounds beast_version dump second s₁
            ≡ ok (record default_response { body = body }, s₂))
        × (value s₂ key ≡ some (c_string val))
  unfolding handle_request dispatch
  put-get first second val body m t m' t' k z json on fits enough =
      let (s₁, run, r) =
        put_stores ev alloc rounds beast_version dump h first key real val t k on fits enough in
      let has : value s₁ key ≡ some (c_string val) = rw (r.values key, eq_refl key) in
      let (o, answer, valid) =
        get_answers ev alloc rounds beast_version dump r.valid second key real val t' z has in
      (
        s₁,
        record s₁ { my_evictor = o },
        ap (λ v. dispatch ev alloc rounds beast_version dump v first s) m ∙ run,
        ap (λ v. dispatch ev alloc rounds beast_version dump v second s₁) m'
            ∙ answer
            ∙ ap
                (λ b. b >>= λ body.
                  ok (record default_response { body = body }, record s₁ { my_evictor = o }))
                json,
        has,
      )

  -- `DELETE /key` and then `GET /key`: the second answer is 404.
  pub delete-get :
      (first second : Request)
      → first.method ≡ delete_
      → first.target ≡ key_target key
      → second.method ≡ get
      → second.target ≡ key_target key
      → (s₁ : Impl S) × (handle_request ev alloc rounds beast_version dump first s
          ≡ ok (accepted s₁, s₁))
        × (handle_request ev alloc rounds beast_version dump second s₁
            ≡ ok (not_found beast_version second key, s₁))
  unfolding handle_request dispatch
  delete-get first second m t m' t' =
      let (s₁, run, valid, values) =
        delete_removes ev alloc rounds beast_version dump h first key real t in
      let gone : value s₁ key ≡ none = rw (values key, eq_refl key) in
      (
        s₁,
        ap (λ v. dispatch ev alloc rounds beast_version dump v first s) m ∙ run,
        ap (λ v. dispatch ev alloc rounds beast_version dump v second s₁) m'
            ∙ get_misses ev alloc rounds beast_version dump valid second key real t' gone,
      )

  -- `POST /reset` and then `GET` of any key: the second answer is 404. The rounds are above the
  -- number of entries and the length of the eviction order.
  pub reset-get :
      (first second : Request)
      → first.method ≡ post
      → first.target ≡ text "/reset"
      → second.method ≡ get
      → second.target ≡ key_target key
      → length s.table < rounds
      → length l < rounds
      → (s₁ : Impl S) × (handle_request ev alloc rounds beast_version dump first s
          ≡ ok (accepted s₁, s₁))
        × (handle_request ev alloc rounds beast_version dump second s₁
            ≡ ok (not_found beast_version second key, s₁))
        × (s₁.current_mem ≡ 0)
  unfolding handle_request dispatch handle_post
  reset-get first second m t m' t' enough enough' =
      let (s₁, ran, valid, empty, unused, freed) = reset_lem P rounds h enough enough' in
      let gone : value s₁ key ≡ none = rw empty refl in
      let here : (first.target == text "/reset") ≡ true =
        (eq_iff first.target (text "/reset")).1 t in
      (
        s₁,
        ap (λ v. dispatch ev alloc rounds beast_version dump v first s) m ∙ rw (here, ran) refl,
        ap (λ v. dispatch ev alloc rounds beast_version dump v second s₁) m'
            ∙ get_misses ev alloc rounds beast_version dump valid second key real t' gone,
        unused,
      )
