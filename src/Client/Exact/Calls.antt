-- ===== src/Client/Exact/Calls.antt =====
-- One call of the client, against the specification.
use cs389hw.Shared.{
  ℕ, ◌+◌, ◌-◌, ◌%◌, ◌^◌, ◌<◌, ◌≡◌, refl, ap, sym, ◌∙◌, arith, subst, true, false, none, some, [],
  ◌∷◌, ◌++◌, Key, Bytes, bytes_eq, bytes_beq, nat_eq, Result, Ends, answered, halts, replied,
  halted, ok, stop, ◌>>=◌, ◌==◌, eq_iff, length, length-append, contains, take_append_self, leb,
  text, Option-cases, inl, inr,
}
use cs389hw.Shared.Int.{u32}
use cs389hw.Shared.Decimal.{to_text}
use cs389hw.Memory.{Allocator}
use cs389hw.Evictor.{Evictor, IsPolicy}
use cs389hw.Cache.{
  Call, set_call, get_call, del_call, space_call, reset_call, Reply, nothing, space, perform,
}
use cs389hw.Cache.Bounded
use cs389hw.Cache.Bounded.{Bounded, over, forget, put, length_of, get_in}
use cs389hw.CacheLib.{Impl}
use cs389hw.CacheLib.Agrees.{Agrees}
use cs389hw.Server.{Request, Response, slash, get, put as put_verb, delete_, head, post}
use cs389hw.Server.Answers.{c_string}
use cs389hw.Server.{default_response}
use cs389hw.Server.Targets.{until_nul_lem}
use cs389hw.Client.Parse.{json_text, parse_answer_lem}
use cs389hw.Client.Implements.Calls.{length_le}
use cs389hw.Server.Commands.{
  command_of, split, put_command, put_value, get_key, serve as spec, Fine, carried_out, found,
  refusal,
}
use cs389hw.Server.Exact.{handle_request_lem}
use cs389hw.Client
use cs389hw.Client.{request, get_value, parse_answer, string_of, get_current_mem}
use cs389hw.Client.Connection.{Connection, make_request, client}
use cs389hw.Client.EndToEnd.{Dumps, verbatim-unquoted, verbatim-no_nul}
use cs389hw.Client.Implements.{Clean, Name, CString, serve, to_server}
use cs389hw.Client.SpaceUsed.{Prints, read_space, read_space_lem}
use cs389hw.Library.Implements.{Enough}
use cs389hw.Client.Exact.{Strings, Shown, Sendable, unseen}
use cs389hw.Client.Exact.Strings.{Held, Strings-forget, set-Strings}

split-append :
    (key val : Bytes) → contains slash key ≡ false → split (key ++ slash ∷ val) ≡ some (key, val)
split-append [] val h = refl
split-append (c ∷ key) val h =
    let there : (c == slash) ≡ false = ground (arith, eq_iff c slash, eq_iff slash c) in
    rw (there, split-append key val (ground arith))

module _ {S : Type 0} {ev : Evictor S} {P : IsPolicy ev} (alloc : Allocator Bytes)
    {rounds : Impl S → ℕ} (enough : Enough P rounds) (beast_version : Bytes)
    {dump : Bytes → Bytes → Result Bytes} (dumps : Dumps dump) {print : Response → Bytes}
    (prints : Prints print) where
  -- The specification with the replies of a client.
  abbrev pub Replied : Call → Connection (Impl S) → Bounded → Type 0
  Replied call c a =
      Ends (Shown P) (perform (to_server ev alloc rounds beast_version dump print) call c)
        (Bounded.perform P.touched call a >>= λ (r, b). ok (unseen r, b))

  module _ {c : Connection (Impl S)} {a : Bounded} (h : Shown P c a) where
    served :
        (req : Request)
        → Fine (command_of req.method req.target)
        → Ends
            (Agrees P)
            (serve ev alloc rounds beast_version dump req c.remote)
            (spec beast_version dump P.touched (command_of req.method req.target) req a)
    served req fine =
        let (below, below') = enough c.remote a.order h.agrees.valid in
        handle_request_lem alloc (rounds c.remote) beast_version dump h.agrees req below below' fine

    abbrev kept : Response × Impl S → Result (Response × Connection (Impl S))
    kept (r, s) = ok (r, record c { connected = true; remote = s })

    abbrev quiet : Result Bounded → Result (Reply × Bounded)
    quiet q = q >>= λ b. ok (nothing, b)

    set_ends :
        {r : Result (Response × Impl S)} (q : Result Bounded)
        → Held Strings q
        → Ends (Agrees P) r (q >>= λ b. ok (carried_out b.used, b))
        → Ends
            (Shown P)
            (((r >>= kept) >>= λ x. ok x.1) >>= λ w. ok (nothing, w))
            (quiet q >>= λ x. ok (unseen x.0, x.1))
    set_ends (stop x) strings e = rw (halts x e refl) (halted x)
    set_ends (ok b) strings e =
        let (s, run, agrees) = answered e refl in
        rw run (replied nothing (record { connected = refl; agrees = agrees; strings = strings }))

    -- The target of `set` asks for what it is to ask for.
    put_asked :
        (key u : Bytes)
        → contains slash key ≡ false
        → command_of put_verb (slash ∷ key ++ slash ∷ u) ≡ put_value key u
    put_asked key u k = ap put_command (split-append key u k)

    set_lem :
        (key : Key) (u : Bytes)
        → Name key
        → Clean u
        → length (c_string u) < 2 ^ 31
        → Replied (set_call key (c_string u)) c a
    unfolding perform client Client.set string_of make_request Bounded.perform spec
    set_lem key u k clean small =
        let req = request c.host beast_version put_verb (slash ∷ key ++ slash ∷ u) in
        let n : length (c_string u) ≡ length u + 1 = omega (arith, length-append u (0 ∷ [])) in
        let size : (length (c_string u) + u32 - 1) % u32 ≡ length u = omega (arith, n, small) in
        let inside : leb (length u) (length (c_string u)) ≡ true = ground (arith, n) in
        rw (size, inside, take_append_self u (0 ∷ []), h.connected)
          (set_ends (Bounded.set P.touched key (c_string u) a)
            (set-Strings P.touched key (c_string u) a
              (record { body = u; clean = clean; terminated = refl }) h.strings)
            (subst
              (λ x.
                Ends (Agrees P) (serve ev alloc rounds beast_version dump req c.remote)
                  (spec beast_version dump P.touched x req a))
              (put_asked key u k.unslashed)
              (served req
                (subst Fine (sym (put_asked key u k.unslashed)) (k.real, omega (arith, n))))))

    get_absent : (key : Key) → Name key → a.content key ≡ none → Replied (get_call key) c a
    unfolding perform client get_value make_request parse_answer Bounded.perform spec found
    get_absent key k e =
        let req = request c.host beast_version get (slash ∷ key) in
        let why = text "The resource '" ++ (key ++ text "' was not found.") in
        let asked : spec beast_version dump P.touched (get_key key) req a
            ≡ ok (refusal beast_version dump 404 req why, a) =
          rw e refl in
        let (s, run, agrees) = answered (served req k.real) asked in
        rw (h.connected, run, e)
          (replied _ (record { connected = refl; agrees = agrees; strings = h.strings }))

    get_present :
        (key : Key) (u : Bytes)
        → Name key
        → Clean u
        → a.content key ≡ some (c_string u)
        → Replied (get_call key) c a
    unfolding perform client get_value make_request Bounded.perform spec found
    get_present key u k clean e =
        let req = request c.host beast_version get (slash ∷ key) in
        let b = get_in P.touched (some (c_string u)) key a in
        let json = dumps key u k.clean.printable clean.printable in
        let asked : spec beast_version dump P.touched (get_key key) req a
            ≡ ok (record default_response { body = json_text key u }, b) =
          rw (e, until_nul_lem u (verbatim-no_nul u clean.printable), json) refl in
        let (s, run, agrees) = answered (served req k.real) asked in
        let n : length (c_string u) ≡ length u + 1 = omega (arith, length-append u (0 ∷ [])) in
        let fits = length_le key h.agrees.valid.sound (h.agrees.sees.values key ∙ e) in
        let small : length u + 1 < 2 ^ 30 =
          omega (arith, n, fits, h.agrees.valid.sound.bounded, h.agrees.valid.sound.small) in
        let parsed =
          parse_answer_lem key u
            (record {
              unquoted = verbatim-unquoted key k.clean.printable;
              unclosed = k.clean.unclosed;
            })
            (record { unquoted = verbatim-unquoted u clean.printable; unclosed = clean.unclosed })
            (omega (arith, small, k.short)) in
        let size : (length u + 1) % u32 ≡ length (c_string u) = omega (arith, n, small) in
        rw (h.connected, run, parsed, size, e)
          (replied _ (record { connected = refl; agrees = agrees; strings = h.strings }))

    get_lem : (key : Key) → Name key → Replied (get_call key) c a
    get_lem key k = elim (Option-cases (a.content key)) [
      | inl absent ↦ get_absent key k absent
      | inr (v, there) ↦
          let string = h.strings key v there in
          get_present key string.body k string.clean (there ∙ ap some string.terminated)
    ]

    del_lem : (key : Key) → Name key → Replied (del_call key) c a
    unfolding perform client Client.del make_request Bounded.perform spec
    del_lem key k =
        let (s, run, agrees) =
          answered (served (request c.host beast_version delete_ (slash ∷ key)) tt) refl in
        rw (h.connected, run)
          (replied _ (record {
            connected = refl;
            agrees = agrees;
            strings = Strings-forget key a h.strings;
          }))

    space_lem : Replied space_call c a
    unfolding perform client get_current_mem make_request Bounded.perform spec
    space_lem =
        let (s, run, agrees) =
          answered (served (request c.host beast_version head (slash ∷ [])) tt) refl in
        let line = prints (carried_out a.used) (to_text a.used) refl refl refl in
        let small : a.used < 2 ^ 31 =
          omega
            (arith, h.agrees.sees.used, h.agrees.valid.sound.bounded, h.agrees.valid.sound.small) in
        let d = record c { connected = true; remote = s } in
        let read = ap (read_space d) line ∙ read_space_lem d a.used small in
        let told : (read_space d (print (carried_out a.used)) >>= λ (n, d). ok (space n, d))
            ≡ ok (space a.used, d) =
          ap (λ x. x >>= λ (n, d). ok (space n, d)) read in
        rw (h.connected, run)
          (subst (λ r. Ends (Shown P) r (ok (space a.used, a))) (sym told)
            (replied _ (record { connected = refl; agrees = agrees; strings = h.strings })))

    reset_lem : Replied reset_call c a
    unfolding perform client Client.reset make_request Bounded.perform spec bytes_beq
    reset_lem =
        let (s, run, agrees) =
          answered (served (request c.host beast_version post (text "/reset")) tt) refl in
        rw (h.connected, run)
          (replied _ (record { connected = refl; agrees = agrees; strings = λ j u e. cc }))

    set_string :
        (key : Key) (val : Bytes)
        → Name key
        → CString val
        → length val < 2 ^ 31
        → Replied (set_call key val) c a
    set_string key val k string small =
        subst (λ v. length v < 2 ^ 31 → Replied (set_call key v) c a) (sym string.terminated)
          (set_lem key string.body k string.clean) small

    pub perform_lem : (call : Call) → Sendable call → Replied call c a
    perform_lem (set_call key val) (k, string, small) = set_string key val k string small
    perform_lem (get_call key) k = get_lem key k
    perform_lem (del_call key) k = del_lem key k
    perform_lem space_call k = space_lem
    perform_lem reset_call k = reset_lem
