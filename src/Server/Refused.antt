-- ===== src/Server/Refused.antt =====
-- Requests that `handle_request` refuses, and those that it does not survive.
use cs389hw.Shared.{
  Bool-cases, drop, ◌⊎◌, inl, inr, ℕ, Bool, true, false, ◌&&◌, [], ◌∷◌, ◌≡◌, refl, ap, arith, Bytes,
  Result, ok, ◌==◌, nat_eq, bytes_eq, contains, text,
}
use cs389hw.Memory.{Allocator}
use cs389hw.Evictor.{Evictor}
use cs389hw.CacheLib.{Impl}
use cs389hw.Server.{
  Verb, Request, get, put, delete_, head, post, other, slash, at_zero, bad_request, bad_target,
  put_at, handle_get, handle_put, handle_delete, handle_post, dispatch, handle_request,
}
use cs389hw.Server.Targets.{understood, begins_with, find_char_absent}

-- The requests that look at the first byte of a target that has none.
abbrev pub unguarded : Verb → Bytes → Bool
unguarded get [] = true
unguarded put [] = true
unguarded delete_ [] = true
unguarded v target = false

abbrev pub reason : Verb → Bytes
reason other = text "request method undefined"
reason v = text "bad target delimitation"

first_byte :
    (t : Bytes) → (t ≡ []) ⊎ ((c : ℕ) × (at_zero t ≡ ok c) × ((c == slash) ≡ begins_with slash t))
unfolding at_zero
first_byte [] = inl refl
first_byte (c ∷ t) = inr (c, refl, refl)

module _ {S : Type 0} (ev : Evictor S) (alloc : Allocator Bytes) (rounds : ℕ)
    (beast_version : Bytes) (dump : Bytes → Bytes → Result Bytes) where
  refused_get :
      (req : Request) (s : Impl S)
      → unguarded get req.target ≡ false
      → begins_with slash req.target ≡ false
      → handle_get ev alloc rounds beast_version dump req s
        ≡ bad_target ev alloc rounds beast_version dump req s
  unfolding handle_get
  refused_get req s g h = elim (first_byte req.target) [
    | inl e ↦ absurd (ground (arith, ap (unguarded get) e))
    | inr (c, first, same) ↦ rw (first, same, h)
  ]

  refused_delete :
      (req : Request) (s : Impl S)
      → unguarded delete_ req.target ≡ false
      → begins_with slash req.target ≡ false
      → handle_delete ev alloc rounds beast_version dump req s
        ≡ bad_target ev alloc rounds beast_version dump req s
  unfolding handle_delete
  refused_delete req s g h = elim (first_byte req.target) [
    | inl e ↦ absurd (ground (arith, ap (unguarded delete_) e))
    | inr (c, first, same) ↦ rw (first, same, h)
  ]

  refused_put :
      (req : Request) (s : Impl S)
      → unguarded put req.target ≡ false
      → (begins_with slash req.target && contains slash (drop 1 req.target)) ≡ false
      → handle_put ev alloc rounds beast_version dump req s
        ≡ bad_target ev alloc rounds beast_version dump req s
  unfolding handle_put put_at
  refused_put req s g h = elim (first_byte req.target) [
    | inl e ↦ absurd (ground (arith, ap (unguarded put) e))
    | inr (c, first, same) ↦ elim (Bool-cases (begins_with slash req.target)) [
      | inr bare ↦ rw (first, same, bare)
      | inl slashed ↦
          rw (first, same, slashed, find_char_absent slash (drop 1 req.target) (ground arith))
    ]
  ]

  refused_dispatch :
      (v : Verb) (req : Request) (s : Impl S)
      → unguarded v req.target ≡ false
      → understood v req.target ≡ false
      → dispatch ev alloc rounds beast_version dump v req s
        ≡ ok (bad_request beast_version req (reason v), s)
  unfolding dispatch bad_target handle_post
  refused_dispatch get req s g h = refused_get req s g h
  refused_dispatch put req s g h = refused_put req s g h
  refused_dispatch delete_ req s g h = refused_delete req s g h
  refused_dispatch head req s g h = cc
  refused_dispatch post req s g h = rw h
  refused_dispatch other req s g h = refl

  -- A request that is not understood, by its method and the delimiters of its target, is answered
  -- with status 400 and the reason, and leaves the cache as it is. The empty target is excepted
  -- for the methods that look at its first byte.
  pub refused :
      (req : Request) (s : Impl S)
      → unguarded req.method req.target ≡ false
      → understood req.method req.target ≡ false
      → handle_request ev alloc rounds beast_version dump req s
        ≡ ok (bad_request beast_version req (reason req.method), s)
  unfolding handle_request
  refused req s g h = refused_dispatch req.method req s g h
