-- ===== src/Server/Exact.antt =====
-- `handle_request`, against the server over the specification of the cache.
use cs389hw.Shared.{
  ℕ, ◌+◌, ◌%◌, ◌<◌, ◌≡◌, ◌≢◌, refl, ap, subst, ◌∙◌, arith, false, none, some, [], ◌∷◌, Key, Bytes,
  Result, Ends, halted, replied_as, ok, uncaught, ◌>>=◌, ◌==◌, nat_eq, bytes_eq, length,
  length-append, take, drop, text, Bool-cases, Option-cases, inl, inr,
}
use cs389hw.Shared.Int.{u32}
use cs389hw.Memory.{Allocator, null, load, load_lem}
use cs389hw.Evictor.{Evictor, IsPolicy}
use cs389hw.Cache.Bounded.{Bounded}
use cs389hw.CacheLib
use cs389hw.CacheLib.{Impl}
use cs389hw.CacheLib.Access.{get-none}
use cs389hw.CacheLib.Agrees.{Agrees}
use cs389hw.CacheLib.Agrees.Calls.{get_hit, del_lem, reset_lem}
use cs389hw.CacheLib.Agrees.Sets.{Matches, agreed, failed, set_lem}
use cs389hw.Server.{
  Verb, get, put, delete_, head, post, other, Request, Response, slash, find_char, until_nul,
  bad_target, answer_get, put_at, handle_get, handle_put, handle_delete, handle_post, dispatch,
  handle_request,
}
use cs389hw.Server.Answers.{accepted, c_string}
use cs389hw.Server.Forms.{
  split_lem, carried_lem, bad_request_lem, not_found_lem, bodies, at_zero_lem, at_zero_empty,
}
use cs389hw.Server.Commands.{
  Command, command_of, put_command, split, Fine, carried_out, found, serve, get_key, put_value,
  bad_delimitation,
}

module _ {S : Type 0} {ev : Evictor S} {P : IsPolicy ev} (alloc : Allocator Bytes) (rounds : ℕ)
    (beast_version : Bytes) (dump : Bytes → Bytes → Result Bytes) {s : Impl S} {a : Bounded}
    (h : Agrees P s a) where
  carried_out_lem :
      {s' : Impl S} {b : Bounded}
      → Agrees P s' b
      → Ends (Agrees P) (ok (accepted s', s')) (ok (carried_out b.used, b))
  carried_out_lem {s'} h' = replied_as (carried_lem s' ∙ ap carried_out h'.sees.used) h'

  set_Ends :
      {r : Result (Impl S)} {q : Result Bounded}
      → Matches P r q
      → Ends (Agrees P) (r >>= λ s. ok (accepted s, s)) (q >>= λ b. ok (carried_out b.used, b))
  set_Ends (agreed h) = carried_out_lem h
  set_Ends (failed e) = halted e

  abbrev Served : Command → Request → Result (Response × Impl S) → Type 0
  Served c req r = Ends (Agrees P) r (serve beast_version dump P.touched c req a)

  bad_lem :
      (req : Request)
      → Served bad_delimitation req (bad_target ev alloc rounds beast_version dump req s)
  unfolding bad_target serve
  bad_lem req = replied_as (bad_request_lem beast_version dump req _) h

  get_none :
      (req : Request) (key : Key)
      → a.content key ≡ none
      → Ends
          (Agrees P)
          (CacheLib.get ev key s >>= λ ((p, n), s').
            answer_get ev alloc rounds beast_version dump req key p s')
          (serve beast_version dump P.touched (get_key key) req a)
  unfolding answer_get serve found
  get_none req key e =
      rw (get-none h.valid key (h.sees.values key ∙ e), e)
        (replied_as (not_found_lem beast_version dump req key) h)

  get_found :
      (req : Request) (key : Key) {v : Bytes}
      → key ≢ []
      → a.content key ≡ some v
      → Ends
          (Agrees P)
          (CacheLib.get ev key s >>= λ ((p, n), s').
            answer_get ev alloc rounds beast_version dump req key p s')
          (serve beast_version dump P.touched (get_key key) req a)
  unfolding answer_get serve found
  get_found req key {v} real e =
      let (p, s, run, alive, holds, agrees) = get_hit h key real e in
      let there : (p == null) ≡ false = ground (arith, alive) in
      let loaded : load s.buffers p ≡ ok v = load_lem (record { ne_null = alive; holds = holds }) in
      rw (run, there, loaded, e) (bodies (until_nul v) (dump key) _ _ agrees)

  get_lem :
      (req : Request) (t : Bytes)
      → req.target ≡ t
      → Fine (command_of get t)
      → Served (command_of get t) req (handle_get ev alloc rounds beast_version dump req s)
  unfolding handle_get serve
  get_lem req [] e fine = rw (at_zero_empty req.target e) (halted uncaught)
  get_lem req (c ∷ key) e fine = elim (Bool-cases (c == slash)) [
    | inr other_byte ↦ rw (at_zero_lem req.target c key e, other_byte) (bad_lem req)
    | inl slashed ↦
        let asked : command_of get (c ∷ key) ≡ get_key key = rw slashed in
        let real : key ≢ [] = subst Fine asked fine in
        rw (at_zero_lem req.target c key e, slashed, ap (drop 1) e)
          (elim (Option-cases (a.content key)) [
            | inl absent ↦ get_none req key absent
            | inr (v, there) ↦ get_found req key real there
          ])
  ]

  delete_lem :
      (req : Request) (t : Bytes)
      → req.target ≡ t
      → Served (command_of delete_ t) req (handle_delete ev alloc rounds beast_version dump req s)
  unfolding handle_delete serve
  delete_lem req [] e = rw (at_zero_empty req.target e) (halted uncaught)
  delete_lem req (c ∷ key) e = elim (Bool-cases (c == slash)) [
    | inr other_byte ↦ rw (at_zero_lem req.target c key e, other_byte) (bad_lem req)
    | inl slashed ↦
        let (s', run, agrees) = del_lem h key in
        rw (at_zero_lem req.target c key e, slashed, ap (drop 1) e, run) (carried_out_lem agrees)
  ]

  post_lem :
      (req : Request)
      → length s.table < rounds
      → length a.order < rounds
      → Served
          (command_of post req.target)
          req
          (handle_post ev alloc rounds beast_version dump req s)
  unfolding handle_post serve
  post_lem req below below' = elim (Bool-cases (req.target == text "/reset")) [
    | inr other_text ↦ rw other_text (bad_lem req)
    | inl reset_text ↦
        let (s', run, agrees) = reset_lem h rounds below below' in
        rw (reset_text, run) (carried_out_lem agrees)
  ]

  put_value_lem :
      (req : Request) (key : Key) (val : Bytes)
      → Fine (put_value key val)
      → length a.order < rounds
      → Served (put_value key val) req (
          CacheLib.set ev alloc rounds key (c_string val) ((length val + 1) % u32) s >>= λ s.
          ok (accepted s, s))
  unfolding serve
  put_value_lem req key val (real, int) below =
      let n : length (c_string val) ≡ length val + 1 = omega (arith, length-append val (0 ∷ [])) in
      let no_wrap : (length val + 1) % u32 ≡ length (c_string val) = omega (arith, n) in
      rw no_wrap
        (set_Ends (set_lem alloc rounds key (c_string val) h real (omega (arith, n)) below))

  put_at_lem :
      (req : Request) (t : Bytes)
      → Fine (put_command (split t))
      → length a.order < rounds
      → Served
          (put_command (split t))
          req
          (put_at ev alloc rounds beast_version dump (find_char slash t) t req s)
  unfolding put_at
  put_at_lem req t fine below = elim (split_lem t) [
    | inl (absent, whole) ↦ rw (absent, whole) (bad_lem req)
    | inr (i, at, parts) ↦
        let asked : put_command (split t) ≡ put_value (take i t) (drop (i + 1) t) = rw parts in
        rw (at, parts) (put_value_lem req (take i t) (drop (i + 1) t) (subst Fine asked fine) below)
  ]

  put_lem :
      (req : Request) (t : Bytes)
      → req.target ≡ t
      → Fine (command_of put t)
      → length a.order < rounds
      → Served (command_of put t) req (handle_put ev alloc rounds beast_version dump req s)
  unfolding handle_put serve
  put_lem req [] e fine below = rw (at_zero_empty req.target e) (halted uncaught)
  put_lem req (c ∷ t) e fine below = elim (Bool-cases (c == slash)) [
    | inr other_byte ↦ rw (at_zero_lem req.target c t e, other_byte) (bad_lem req)
    | inl slashed ↦
        let asked : command_of put (c ∷ t) ≡ put_command (split t) = rw slashed in
        rw (at_zero_lem req.target c t e, slashed, ap (drop 1) e)
          (put_at_lem req t (subst Fine asked fine) below)
  ]

  dispatch_lem :
      (v : Verb) (req : Request)
      → length s.table < rounds
      → length a.order < rounds
      → Fine (command_of v req.target)
      → Served (command_of v req.target) req (dispatch ev alloc rounds beast_version dump v req s)
  unfolding dispatch serve
  dispatch_lem get req below below' fine = get_lem req req.target refl fine
  dispatch_lem put req below below' fine = put_lem req req.target refl fine below'
  dispatch_lem delete_ req below below' fine = delete_lem req req.target refl
  dispatch_lem head req below below' fine = carried_out_lem h
  dispatch_lem post req below below' fine = post_lem req below below'
  dispatch_lem other req below below' fine = replied_as (bad_request_lem beast_version dump req _) h

  -- For every request but GET and PUT of the empty key, `handle_request` ends as the server over
  -- the specification does, which first reads off method and target what is asked for: with the
  -- same response and states that agree, or with the same failure. The size of the value is an
  -- `int`, the states agree before, and the rounds are above the number of entries and the length
  -- of the order.
  pub handle_request_lem :
      (req : Request)
      → length s.table < rounds
      → length a.order < rounds
      → Fine (command_of req.method req.target)
      → Ends
          (Agrees P)
          (handle_request ev alloc rounds beast_version dump req s)
          (serve beast_version dump P.touched (command_of req.method req.target) req a)
  unfolding handle_request
  handle_request_lem req below below' fine = dispatch_lem req.method req below below' fine
