-- ===== src/Server/Growth.antt =====
-- How much longer the order of eviction gets by one request.
use cs389hw.Shared.{
  ℕ, suc, ◌+◌, ◌≤◌, ◌≡◌, refl, arith, Bool, true, false, Option, none, some, List, [], ◌∷◌, ◌++◌,
  Key, Bytes, Result, ok, stop, ◌>>=◌, bytes_eq, if◌then◌else◌, length, Bool-cases, inl, inr,
}
use cs389hw.Shared.{contains, nat_eq}
use cs389hw.Cache.Bounded
use cs389hw.Cache.Bounded.{Bounded, over, forget, put, get_in, refuse_value, length_of}
use cs389hw.Server.{Request, Response}
use cs389hw.Server.Commands.{
  Command, put_value, get_key, delete_key, ask_space, reset_all, refuse, crash, serve, found,
  carried_out,
}

-- A state, if there is one, has an order of at most this length, and still evicts or does not.
abbrev pub Within : {A : Type 0} → (A → Bounded) → ℕ → Bool → Result A → Type 0
Within f n evicts (ok x) = (length (f x).order ≤ n) × ((f x).evicts ≡ evicts)
Within f n evicts (stop e) = Unit

abbrev here : Bounded → Bounded
here b = b

abbrev pub beside : Response × Bounded → Bounded
beside (r, b) = b

module _ {A : Type 0} (n m : ℕ) (e : Bool) where
  then_Within :
      (r : Result A) (f : A → Bounded) {B : Type 0} (g : B → Bounded) (k : A → Result B)
      → Within f n e r
      → ((x : A) → length (f x).order ≤ n → (f x).evicts ≡ e → Within g m e (k x))
      → Within g m e (r >>= k)
  then_Within (ok x) f g k h i = i x h.0 h.1
  then_Within (stop e) f g k h i = tt

after_Within :
    {A B : Type 0} (n : ℕ) (e : Bool) (r : Result A) (g : B → Bounded) (k : A → Result B)
    → ((x : A) → Within g n e (k x))
    → Within g n e (r >>= k)
after_Within n e (ok x) g k i = i x
after_Within n e (stop s) g k i = tt

Within-le :
    {A : Type 0} (f : A → Bounded) (n m : ℕ) (e : Bool) (r : Result A)
    → Within f n e r
    → n ≤ m
    → Within f m e r
Within-le f n m e (ok x) h le = (omega (arith, h.0, le), h.1)
Within-le f n m e (stop s) h le = tt

make_room-Within :
    (key : Key) (size : ℕ) (l : List Key) (a : Bounded)
    → Within here (length l) a.evicts (Bounded.make_room key size l a)
unfolding Bounded.make_room
make_room-Within key size [] a = elim (Bool-cases (over key size a)) [
  | inl full ↦ rw full tt
  | inr room ↦ rw room (omega arith, refl)
]
make_room-Within key size (v ∷ l) a = elim (Bool-cases (over key size a)) [
  | inl full ↦ rw full (
      Within-le here (length l) (suc (length l)) a.evicts _
        (make_room-Within key size l (forget v a)) (omega arith))
  | inr room ↦ rw room (omega arith, refl)
]

module _ (touched : Key → List Key → List Key)
    (grows : (k : Key) (l : List Key) → length (touched k l) ≤ length l + 1) where
  touched_if :
      (key : Key) (l : List Key) (b : Bool) → length (if b then touched key l else l) ≤ length l + 1
  touched_if key l true = grows key l
  touched_if key l false = omega arith

  refuse-Within :
      (val : Bytes) (a : Bounded) → Within here (length a.order + 1) a.evicts (refuse_value val a)
  refuse-Within val a = elim (Bool-cases (contains 0 val)) [
    | inl e ↦ rw e (omega arith, refl)
    | inr e ↦ rw e tt
  ]

  put_if :
      (guard : Bool) (key : Key) (val : Bytes) (a : Bounded)
      → Within here (length a.order + 1) a.evicts (
          if guard
          then refuse_value val a
          else (Bounded.make_room key (length val) a.order a >>= λ b. ok (put touched key val b)))
  put_if true key val a = refuse-Within val a
  put_if false key val a =
      then_Within (length a.order) (length a.order + 1) a.evicts
        (Bounded.make_room key (length val) a.order a) here here (λ b. ok (put touched key val b))
        (make_room-Within key (length val) a.order a)
        λ b n same. (let t = touched_if key b.order b.evicts in omega (arith, n, t), same)

  set_Within :
      (key : Key) (val : Bytes) (a : Bounded)
      → Within here (length a.order + 1) a.evicts (Bounded.set touched key val a)
  unfolding Bounded.set
  set_Within key val a = put_if _ key val a

  get_in-Within :
      (o : Option Bytes) (key : Key) (r : Response) (a : Bounded)
      → Within beside (length a.order + 1) a.evicts (ok (r, get_in touched o key a))
  get_in-Within none key r a = (omega arith, refl)
  get_in-Within (some v) key r a = (touched_if key a.order a.evicts, refl)

  -- A request makes the order longer by one key at most.
  pub serve-Within :
      (beast_version : Bytes) (dump : Bytes → Bytes → Result Bytes) (c : Command) (req : Request)
      (a : Bounded)
      → Within beside (length a.order + 1) a.evicts (serve beast_version dump touched c req a)
  unfolding serve
  serve-Within beast_version dump (put_value key value) req a =
      then_Within (length a.order + 1) (length a.order + 1) a.evicts
        (Bounded.set touched key (value ++ 0 ∷ []) a) here beside (λ b. ok (carried_out b.used, b))
        (set_Within key (value ++ 0 ∷ []) a) λ b n same. (n, same)
  serve-Within beast_version dump (get_key key) req a =
      after_Within (length a.order + 1) a.evicts (found beast_version dump (a.content key) key req)
        beside (λ r. ok (r, get_in touched (a.content key) key a))
        λ r. get_in-Within (a.content key) key r a
  serve-Within beast_version dump (delete_key key) req a = (omega arith, refl)
  serve-Within beast_version dump ask_space req a = (omega arith, refl)
  serve-Within beast_version dump reset_all req a = (omega arith, refl)
  serve-Within beast_version dump (refuse why) req a = (omega arith, refl)
  serve-Within beast_version dump crash req a = tt
