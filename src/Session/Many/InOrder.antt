-- ===== src/Session/Many/InOrder.antt =====
-- The sessions of one server, against the requests of the log, one after another.
use cs389hw.Shared.{
  ℕ, ◌+◌, ◌≤◌, ◌<◌, ◌≡◌, refl, sym, ap, subst, ◌∙◌, arith, Bool, true, false, List, [], ◌∷◌, Key,
  Bytes, Result, Ends, replied, halted, ok, ◌>>=◌, ◌==◌, nat_eq, eq_iff, length, Bool-cases, inl,
  inr,
}
use cs389hw.Memory.{Allocator}
use cs389hw.Evictor.{Evictor, IsPolicy}
use cs389hw.Cache.Bounded.{Bounded}
use cs389hw.CacheLib.{Impl}
use cs389hw.CacheLib.Agrees.{Agrees}
use cs389hw.CacheLib.Sized.{length-table_le}
use cs389hw.Server.{Response}
use cs389hw.Server.Exact.{handle_request_lem}
use cs389hw.Server.Growth.{Within, beside, serve-Within}
use cs389hw.Session.{
  writing, Session, ReadEnd, end_of_stream, read_failed, arrived, WriteEnd, write_failed, written,
  do_read, do_close, fail, send, on_read, on_write,
}
use cs389hw.Session.Many.{
  Sessions, Log, session, back, noted, Reach, begins, reads, writes, AllFine, served, Told,
}

-- Before a read ended, the log was what it is, or shorter by a request.
before_read : (i : ℕ) (e : ReadEnd) (log : Log) → AllFine (noted i e log) → AllFine log
before_read i end_of_stream log fine = fine
before_read i read_failed log fine = fine
before_read i (arrived req) log fine = fine.1

length-noted : (i : ℕ) (e : ReadEnd) (log : Log) → length log ≤ length (noted i e log)
length-noted i end_of_stream log = omega arith
length-noted i read_failed log = omega arith
length-noted i (arrived req) log = omega arith

ok_injective : {A : Type 0} {a b : A} → ok a ≡ ok b → a ≡ b
ok_injective e = cc

module _ {S : Type 0} {ev : Evictor S} {P : IsPolicy ev} (alloc : Allocator Bytes) (rounds : ℕ)
    (beast_version : Bytes) (dump : Bytes → Bytes → Result Bytes) (need_eof : Response → Bool)
    (grows : (k : Key) (l : List Key) → length (P.touched k l) ≤ length l + 1) where
  -- A request that has been answered was served.
  asked :
      {r : Result (Response × Impl S)} {q : Result (Response × Bounded)} (s : Session S)
      {s' : Session S}
      → Ends (Agrees P) r q
      → (r >>= λ (res, c). ok (send need_eof res (record s { cache = c }))) ≡ ok s'
      → (res : Response) × (b : Bounded) × (q ≡ ok (res, b))
        × Agrees P s'.cache b
        × (s'.answers ≡ res ∷ s.answers)
  unfolding send
  asked s {s'} (replied {a = c} {b = b} res h) e =
      let same : record s { cache = c; phase = writing (need_eof res); answers = res ∷ s.answers }
          ≡ s' =
        cc in
      (res, b, refl, subst (λ x. Agrees P x.cache b) same h, ap (λ x. x.answers) (sym same))
  asked s (halted x) e = cc

  -- The sessions, after a completion that no request comes with.
  Told-same :
      {a : Bounded} {w : Sessions S} {log : Log} (i : ℕ) (s : Session S)
      → Told P beast_version dump a w log
      → s.cache ≡ w.cache
      → s.answers ≡ w.answers i
      → Told P beast_version dump a (back i s w) log
  Told-same {w} i s t same_cache same_answers = record {
    responses = t.responses;
    now = t.now;
    ran = t.ran;
    agrees = subst (λ c. Agrees P c t.now) (sym same_cache) t.agrees;
    on = t.on;
    short = t.short;
    answered = λ j. elim (Bool-cases (j == i)) [
      | inl here ↦
          let p : i ≡ j = sym ((eq_iff j i).0 here) in
          rw here (same_answers ∙ ap w.answers p ∙ t.answered j)
      | inr there ↦ rw there (t.answered j)
    ];
  }

  Told-reads :
      {a : Bounded} {w : Sessions S} {log : Log} (i : ℕ) (e : ReadEnd) {s : Session S}
      → Told P beast_version dump a w log
      → AllFine (noted i e log)
      → length a.order + length log < rounds
      → on_read ev alloc rounds beast_version dump need_eof e (session i w) ≡ ok s
      → Told P beast_version dump a (back i s w) (noted i e log)
  unfolding on_read do_close fail served
  Told-reads {w} i end_of_stream {s} t fine enough run =
      Told-same i s t (ap (λ x. x.cache) (sym (ok_injective run)))
        (ap (λ x. x.answers) (sym (ok_injective run)))
  Told-reads i read_failed {s} t fine enough run =
      Told-same i s t (ap (λ x. x.cache) (sym (ok_injective run)))
        (ap (λ x. x.answers) (sym (ok_injective run)))
  Told-reads {a} {w} {log} i (arrived req) t (now, before) enough run =
      let table = length-table_le t.agrees.valid (t.agrees.sees.evicts ∙ t.on) in
      let (res, b, ran, agrees, same) =
        asked (session i w)
          (handle_request_lem alloc rounds beast_version dump t.agrees req
            (omega (arith, table, t.short, enough)) (omega (arith, t.short, enough)) now)
          run in
      let within : Within beside (length t.now.order + 1) t.now.evicts (ok (res, b)) =
        subst (Within beside (length t.now.order + 1) t.now.evicts) ran
          (serve-Within P.touched grows beast_version dump _ req t.now) in
      record {
        responses = (i, res) ∷ t.responses;
        now = b;
        ran = rw t.ran (ap (λ x. x >>= λ (r, c). ok ((i, r) ∷ t.responses, c)) ran);
        agrees = agrees;
        on = within.1 ∙ t.on;
        short = omega (arith, within.0, t.short);
        answered = λ j. elim (Bool-cases (j == i)) [
          | inl here ↦
              let p : i ≡ j = sym ((eq_iff j i).0 here) in
              rw here (same ∙ ap (λ rs. res ∷ rs) (ap w.answers p ∙ t.answered j))
          | inr there ↦ rw there (t.answered j)
        ];
      }

  Told-writes :
      {a : Bounded} {w : Sessions S} {log : Log} (i : ℕ) (close : Bool) (e : WriteEnd)
      → Told P beast_version dump a w log
      → Told P beast_version dump a (back i (on_write close e (session i w)) w) log
  unfolding on_write do_close do_read fail
  Told-writes {w} i close write_failed t = Told-same i (fail (session i w)) t refl refl
  Told-writes {w} i true written t = Told-same i (do_close (session i w)) t refl refl
  Told-writes {w} i false written t = Told-same i (do_read (session i w)) t refl refl

  -- With one thread, and in whatever order the reads and writes of the sessions end, the answers of
  -- each session are those that the specification gives to its requests when all requests are
  -- served one after another, in the order in which they were read; and the cache agrees with the
  -- specification. The cache has an evictor whose order gets longer by one key at most when a key
  -- is touched, keys of GET and PUT are not empty, sizes are of type `int`, and the rounds are
  -- above the length of the order with the number of requests.
  pub in_order :
      {a : Bounded} {cache : Impl S} {w : Sessions S} {log : Log}
      → Reach ev alloc rounds beast_version dump need_eof cache w log
      → Agrees P cache a
      → a.evicts ≡ true
      → AllFine log
      → length a.order + length log < rounds
      → Told P beast_version dump a w log
  unfolding served
  in_order {a} begins h on fine enough = record {
    responses = [];
    now = a;
    ran = refl;
    agrees = h;
    on = on;
    short = omega arith;
    answered = λ i. refl;
  }
  in_order (reads {log = log} i e r waits run) h on fine enough =
      let fewer = length-noted i e log in
      Told-reads i e (in_order r h on (before_read i e log fine) (omega (arith, fewer, enough)))
        fine (omega (arith, fewer, enough)) run
  in_order (writes {close = close} i e r waits) h on fine enough =
      Told-writes i close e (in_order r h on fine enough)
