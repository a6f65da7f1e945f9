-- ===== src/Session/Statuses.antt =====
-- The status of the answers of `handle_request`, and whether their length is announced.
use cs389hw.Shared.Int.{u32}
use cs389hw.Shared.{
  take, length, ◌+◌, ◌%◌, ◌++◌, ℕ, Bool, true, false, not, ◌&&◌, [], ◌∷◌, Option, none, some, ◌≡◌,
  refl, Bytes, Result, ok, stop, ◌>>=◌, if◌then◌else◌, leb, ◌==◌, nat_eq, bytes_eq, drop, text,
}
use cs389hw.Memory.{Allocator, null, load}
use cs389hw.Evictor.{Evictor}
use cs389hw.CacheLib
use cs389hw.CacheLib.{Impl}
use cs389hw.Server.{
  Verb, Request, Response, get, put, delete_, head, post, other, slash, at_zero, bad_request,
  bad_target, put_at, answer_get, handle_get, handle_put, handle_delete, handle_post, dispatch,
  handle_request, not_found, set_header, error_response, find_char, until_nul,
}

-- Not one of 1xx, 204 and 304.
abbrev pub with_body : ℕ → Bool
with_body status = leb 200 status && not (status == 204) && not (status == 304)

-- Such a status, and a length that is announced for a refusal and not for a success.
abbrev pub Fit : Response → Type 0
Fit r = (with_body r.status ≡ true) × (r.prepared ≡ not (r.status == 200))

-- A result, if there is one, is such a response.
abbrev pub HasBody : {W : Type 0} → Result (Response × W) → Type 0
HasBody (ok (r, w)) = Fit r
HasBody (stop e) = Unit

bind-HasBody :
    {A W : Type 0} (m : Result A) (f : A → Result (Response × W))
    → ((a : A) → HasBody (f a))
    → HasBody (m >>= f)
bind-HasBody (ok a) f h = h a
bind-HasBody (stop e) f h = tt

if-HasBody :
    {W : Type 0} (b : Bool) (m k : Result (Response × W))
    → HasBody m
    → HasBody k
    → HasBody (if b then m else k)
if-HasBody true m k h i = h
if-HasBody false m k h i = i

module _ {S : Type 0} (ev : Evictor S) (alloc : Allocator Bytes) (rounds : ℕ)
    (beast_version : Bytes) (dump : Bytes → Bytes → Result Bytes) where
  bad-HasBody :
      (req : Request) (s : Impl S) → HasBody (bad_target ev alloc rounds beast_version dump req s)
  unfolding bad_target bad_request error_response
  bad-HasBody req s = (refl, refl)

  get-HasBody :
      (req : Request) (s : Impl S) → HasBody (handle_get ev alloc rounds beast_version dump req s)
  unfolding handle_get answer_get not_found error_response
  get-HasBody req s = bind-HasBody (at_zero req.target) _ λ c.
      if-HasBody (not (c == slash)) _ _ (bad-HasBody req s) (
        bind-HasBody (CacheLib.get ev (drop 1 req.target) s) _ λ x.
          if-HasBody (x.0.0 == null) _ _ (refl, refl)
            (bind-HasBody (load x.1.buffers x.0.0) _ λ bytes.
              bind-HasBody (until_nul bytes) _
                λ value. bind-HasBody (dump (drop 1 req.target) value) _ λ body. (refl, refl)))

  put_at-HasBody :
      (o : Option ℕ) (kv : Bytes) (req : Request) (s : Impl S)
      → HasBody (put_at ev alloc rounds beast_version dump o kv req s)
  unfolding put_at set_header
  put_at-HasBody none kv req s = bad-HasBody req s
  put_at-HasBody (some i) kv req s =
      bind-HasBody
        (CacheLib.set ev alloc rounds (take i kv) (drop (i + 1) kv ++ 0 ∷ [])
          ((length (drop (i + 1) kv) + 1) % u32) s)
        _ λ s. (refl, refl)

  put-HasBody :
      (req : Request) (s : Impl S) → HasBody (handle_put ev alloc rounds beast_version dump req s)
  unfolding handle_put
  put-HasBody req s = bind-HasBody (at_zero req.target) _ λ c.
      if-HasBody (not (c == slash)) _ _ (bad-HasBody req s)
        (put_at-HasBody (find_char slash (drop 1 req.target)) (drop 1 req.target) req s)

  delete-HasBody :
      (req : Request) (s : Impl S)
      → HasBody (handle_delete ev alloc rounds beast_version dump req s)
  unfolding handle_delete set_header
  delete-HasBody req s = bind-HasBody (at_zero req.target) _ λ c.
      if-HasBody (not (c == slash)) _ _ (bad-HasBody req s)
        (bind-HasBody (CacheLib.del (drop 1 req.target) s) _ λ x. (refl, refl))

  post-HasBody :
      (req : Request) (s : Impl S) → HasBody (handle_post ev alloc rounds beast_version dump req s)
  unfolding handle_post set_header
  post-HasBody req s =
      if-HasBody (not (req.target == text "/reset")) _ _ (bad-HasBody req s)
        (bind-HasBody (CacheLib.reset ev rounds s) _ λ s. (refl, refl))

  dispatch-HasBody :
      (v : Verb) (req : Request) (s : Impl S)
      → HasBody (dispatch ev alloc rounds beast_version dump v req s)
  unfolding dispatch set_header bad_request error_response
  dispatch-HasBody get req s = get-HasBody req s
  dispatch-HasBody put req s = put-HasBody req s
  dispatch-HasBody delete_ req s = delete-HasBody req s
  dispatch-HasBody head req s = (refl, refl)
  dispatch-HasBody post req s = post-HasBody req s
  dispatch-HasBody other req s = (refl, refl)

  pub handle_request-HasBody :
      (req : Request) (s : Impl S)
      → HasBody (handle_request ev alloc rounds beast_version dump req s)
  unfolding handle_request
  handle_request-HasBody req s = dispatch-HasBody req.method req s
