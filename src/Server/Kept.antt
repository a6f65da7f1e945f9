-- ===== src/Server/Kept.antt =====
-- cache_server.cc: the capacity of the cache, and whether it has an evictor, across a request.
use cs389hw.Shared.Int.{u32}
use cs389hw.Shared.{
  ℕ, ◌+◌, ◌%◌, ◌++◌, not, [], ◌∷◌, Option, none, some, refl, Bytes, Key, Result, ◌==◌, nat_eq,
  bytes_eq, drop, take, length, text,
}
use cs389hw.Memory.{Allocator, Ptr, null, load}
use cs389hw.Evictor.{Evictor}
use cs389hw.CacheLib
use cs389hw.CacheLib.{Impl}
use cs389hw.CacheLib.Config.{
  config, Has, itself, beside, ok_Has, then_Has, after_Has, if_Has, set_Has, get_Has, del_Has,
  reset_Has,
}
use cs389hw.Server.{
  Verb, Request, get, put, delete_, head, post, other, slash, at_zero, bad_target, put_at,
  answer_get, handle_get, handle_put, handle_delete, handle_post, dispatch, handle_request,
  find_char, until_nul,
}

module _ {S : Type 0} (ev : Evictor S) (alloc : Allocator Bytes) (rounds : ℕ)
    (beast_version : Bytes) (dump : Bytes → Bytes → Result Bytes) where
  bad_Has :
      (req : Request) (s : Impl S)
      → Has beside (config s) (bad_target ev alloc rounds beast_version dump req s)
  unfolding bad_target
  bad_Has req s = ok_Has beside _ _ refl

  answer_Has :
      (req : Request) (key : Key) (p : Ptr) (s : Impl S)
      → Has beside (config s) (answer_get ev alloc rounds beast_version dump req key p s)
  unfolding answer_get
  answer_Has req key p s = if_Has beside _ (p == null) _ _ (ok_Has beside _ _ refl) (
      after_Has beside _ (load s.buffers p) _ λ bytes.
        after_Has beside _ (until_nul bytes) _
          λ value. after_Has beside _ (dump key value) _ λ body. ok_Has beside _ _ refl)

  get_request_Has :
      (req : Request) (s : Impl S)
      → Has beside (config s) (handle_get ev alloc rounds beast_version dump req s)
  unfolding handle_get
  get_request_Has req s = after_Has beside _ (at_zero req.target) _ λ c.
      if_Has beside _ (not (c == slash)) _ _ (bad_Has req s) (
        then_Has beside beside _ (CacheLib.get ev (drop 1 req.target) s) _
          (get_Has ev (drop 1 req.target) s) λ x. answer_Has req (drop 1 req.target) x.0.0 x.1)

  put_at-Has :
      (o : Option ℕ) (kv : Bytes) (req : Request) (s : Impl S)
      → Has beside (config s) (put_at ev alloc rounds beast_version dump o kv req s)
  unfolding put_at
  put_at-Has none kv req s = bad_Has req s
  put_at-Has (some i) kv req s =
      then_Has itself beside _
        (CacheLib.set ev alloc rounds (take i kv) (drop (i + 1) kv ++ 0 ∷ [])
          ((length (drop (i + 1) kv) + 1) % u32) s)
        _ (set_Has ev alloc rounds _ _ _ s) λ s. ok_Has beside _ _ refl

  put_request_Has :
      (req : Request) (s : Impl S)
      → Has beside (config s) (handle_put ev alloc rounds beast_version dump req s)
  unfolding handle_put
  put_request_Has req s = after_Has beside _ (at_zero req.target) _ λ c.
      if_Has beside _ (not (c == slash)) _ _ (bad_Has req s)
        (put_at-Has (find_char slash (drop 1 req.target)) (drop 1 req.target) req s)

  delete_request_Has :
      (req : Request) (s : Impl S)
      → Has beside (config s) (handle_delete ev alloc rounds beast_version dump req s)
  unfolding handle_delete
  delete_request_Has req s = after_Has beside _ (at_zero req.target) _ λ c.
      if_Has beside _ (not (c == slash)) _ _ (bad_Has req s) (
        then_Has beside beside _ (CacheLib.del (drop 1 req.target) s) _
          (del_Has (drop 1 req.target) s) λ x. ok_Has beside _ _ refl)

  post_request_Has :
      (req : Request) (s : Impl S)
      → Has beside (config s) (handle_post ev alloc rounds beast_version dump req s)
  unfolding handle_post
  post_request_Has req s = if_Has beside _ (not (req.target == text "/reset")) _ _ (bad_Has req s) (
      then_Has itself beside _ (CacheLib.reset ev rounds s) _ (reset_Has ev rounds s)
        λ s. ok_Has beside _ _ refl)

  dispatch-Has :
      (v : Verb) (req : Request) (s : Impl S)
      → Has beside (config s) (dispatch ev alloc rounds beast_version dump v req s)
  unfolding dispatch
  dispatch-Has get req s = get_request_Has req s
  dispatch-Has put req s = put_request_Has req s
  dispatch-Has delete_ req s = delete_request_Has req s
  dispatch-Has head req s = ok_Has beside _ _ refl
  dispatch-Has post req s = post_request_Has req s
  dispatch-Has other req s = ok_Has beside _ _ refl

  pub request_Has :
      (req : Request) (s : Impl S)
      → Has beside (config s) (handle_request ev alloc rounds beast_version dump req s)
  unfolding handle_request
  request_Has req s = dispatch-Has req.method req s
