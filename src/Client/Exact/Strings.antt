-- ===== src/Client/Exact/Strings.antt =====
-- C strings as values, across the operations of the specification.
use cs389hw.Shared.{
  ℕ, ◌≡◌, arith, subst, Bool, true, false, List, [], ◌∷◌, Key, Bytes, bytes_eq, nat_eq, Result, ok,
  stop, ◌>>=◌, ◌==◌, if◌then◌else◌, length, Bool-cases, inl, inr,
}
use cs389hw.Shared.{contains}
use cs389hw.Cache.Bounded
use cs389hw.Cache.Bounded.{Bounded, over, forget, refuse_value, put, length_of, get_in}
use cs389hw.Client.Implements.{CString}
use cs389hw.Client.Exact.{Strings}

-- A property of a state, if there is one.
abbrev pub Held : (Bounded → Type 0) → Result Bounded → Type 0
Held Q (ok b) = Q b
Held Q (stop e) = Unit

pub Strings-forget : (k : Key) (a : Bounded) → Strings a → Strings (forget k a)
Strings-forget k a h j u e = h j u (ground arith)

make_room-Strings :
    (key : Key) (size : ℕ) (l : List Key) (a : Bounded)
    → Strings a
    → Held Strings (Bounded.make_room key size l a)
unfolding Bounded.make_room
make_room-Strings key size [] a h = elim (Bool-cases (over key size a)) [
  | inl full ↦ rw full tt
  | inr room ↦ rw room h
]
make_room-Strings key size (v ∷ l) a h = elim (Bool-cases (over key size a)) [
  | inl full ↦ rw full (make_room-Strings key size l (forget v a) (Strings-forget v a h))
  | inr room ↦ rw room h
]

module _ (touched : Key → List Key → List Key) where
  Strings-put :
      (key : Key) (val : Bytes) (a : Bounded)
      → CString val
      → Strings a
      → Strings (put touched key val a)
  Strings-put key val a string h j u e = elim (Bool-cases (j == key)) [
    | inl here ↦ let same : val ≡ u = ground (arith, e, here) in subst CString same string
    | inr there ↦ h j u (ground (arith, e, there))
  ]

  made-Strings :
      (r : Result Bounded) (key : Key) (val : Bytes)
      → CString val
      → Held Strings r
      → Held Strings (r >>= λ b. ok (put touched key val b))
  made-Strings (ok b) key val string h = Strings-put key val b string h
  made-Strings (stop e) key val string h = tt

  refuse_value-Strings : (val : Bytes) (a : Bounded) → Strings a → Held Strings (refuse_value val a)
  refuse_value-Strings val a h = elim (Bool-cases (contains 0 val)) [
    | inl e ↦ rw e h
    | inr e ↦ rw e tt
  ]

  put_if-Strings :
      (guard : Bool) (key : Key) (val : Bytes) (a : Bounded)
      → CString val
      → Strings a
      → Held Strings (
          if guard
          then refuse_value val a
          else (Bounded.make_room key (length val) a.order a >>= λ b. ok (put touched key val b)))
  put_if-Strings true key val a string h = refuse_value-Strings val a h
  put_if-Strings false key val a string h =
      made-Strings (Bounded.make_room key (length val) a.order a) key val string
        (make_room-Strings key (length val) a.order a h)

  pub set-Strings :
      (key : Key) (val : Bytes) (a : Bounded)
      → CString val
      → Strings a
      → Held Strings (Bounded.set touched key val a)
  unfolding Bounded.set
  set-Strings key val a string h = put_if-Strings _ key val a string h
