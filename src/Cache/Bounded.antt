-- ===== src/Cache/Bounded.antt =====
-- cache.hh as a specification that runs: a map within a bound, and the order in which keys leave.
--
-- `touched` is what an eviction policy does to the order when a key is set or got. Nothing is left
-- of tables, pointers, machine numbers and linked lists.
use cs389hw.Shared.{
  ℕ, ◌+◌, ◌-◌, Bool, not, ◌&&◌, Option, none, some, List, [], ◌∷◌, Key, Bytes, bytes_eq, Result, ok,
  stop, assert_failed, bad_access, contains, nat_eq, ◌>>=◌, ◌==◌, if◌then◌else◌, is_some, length,
  ltb, ◌||◌,
}
use cs389hw.Cache.{
  Call, set_call, get_call, del_call, space_call, reset_call, Reply, nothing, answer, deleted,
  space,
}

-- `evicts` says whether there is a policy; `order` has the key that leaves next first.
pub record Bounded : Type 0 where
  pub maxmem : ℕ
  pub used : ℕ
  pub content : Key → Option Bytes
  pub evicts : Bool
  pub order : List Key

abbrev pub length_of : Option Bytes → ℕ
length_of none = 0
length_of (some v) = length v

-- A value of this size would leave the bound, with the key's old value gone.
abbrev pub over : Key → ℕ → Bounded → Bool
over key size a = ltb (a.maxmem + length_of (a.content key)) (a.used + size)

abbrev pub forget : Key → Bounded → Bounded
forget k a = record a {
  used = a.used - length_of (a.content k);
  content = λ j. if j == k then none else a.content j;
}

-- Keys leave in their order until there is room. It is a failure if none is left.
unfoldable pub make_room : Key → ℕ → List Key → Bounded → Result Bounded
make_room key size [] a =
    if over key size a then stop assert_failed else ok (record a { order = [] })
make_room key size (v ∷ l) a =
    let rest = make_room key size l (forget v a) in
    if over key size a then rest else ok (record a { order = v ∷ l })

-- A value that is refused is printed as a C string, which a value with no NUL is not.
abbrev pub refuse_value : Bytes → Bounded → Result Bounded
refuse_value val a = if contains 0 val then ok a else stop bad_access

module _ (touched : Key → List Key → List Key) where
  abbrev pub put : Key → Bytes → Bounded → Bounded
  put key val a =
      let b = forget key a in
      record b {
        used = b.used + length val;
        content = λ j. if j == key then some val else b.content j;
        order = if b.evicts then touched key b.order else b.order;
      }

  -- A value that is too large for the whole cache is refused, and so is one for which there is no
  -- room if nothing is ever evicted.
  unfoldable pub set : Key → Bytes → Bounded → Result Bounded
  unfolding make_room
  set key val a =
      if ltb (a.maxmem + length_of (a.content key)) (length val)
        || (not a.evicts && over key (length val) a)
      then refuse_value val a
      else do b ← make_room key (length val) a.order a; ok (put key val b)

  abbrev pub get_in : Option Bytes → Key → Bounded → Bounded
  get_in none key a = a
  get_in (some v) key a = record a { order = if a.evicts then touched key a.order else a.order }

  unfoldable pub perform : Call → Bounded → Result (Reply × Bounded)
  unfolding set
  perform (set_call key val) a = do b ← set key val a; ok (nothing, b)
  perform (get_call key) a =
      ok (answer (a.content key, length_of (a.content key)), get_in (a.content key) key a)
  perform (del_call key) a = ok (deleted (is_some (a.content key)), forget key a)
  perform space_call a = ok (space a.used, a)
  perform reset_call a = ok (nothing, record a { used = 0; content = λ j. none; order = [] })

  -- The replies to calls, one after another, up to a failure.
  unfoldable pub replies : List Call → Bounded → Result (List Reply)
  unfolding perform
  replies [] a = ok []
  replies (call ∷ calls) a = do
    (reply, b) ← perform call a
    rest ← replies calls b
    ok (reply ∷ rest)
