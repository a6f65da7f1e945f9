-- ===== src/Listener.antt =====
-- cache_server.cc: `listener`, which opens an acceptor and starts a session for each connection.
--
-- The calls on the acceptor are parameters by their outcomes: whether each reports an error.
use cs389hw.Shared.{
  ℕ, suc, ◌+◌, ◌≡◌, refl, arith, Bool, true, false, not, ◌||◌, List, [], ◌∷◌, if◌then◌else◌,
}

-- How far the constructor has brought the acceptor.
pub data Acceptor : Type 0 where
  unopened opened reusable bound listening : Acceptor

-- What is printed by `fail`, by the operation.
pub data Failure : Type 0 where
  open_failed set_option_failed bind_failed listen_failed accept_failed : Failure

-- `sessions` counts the sessions that have been run; `accepting` says that an accept is pending.
pub record Listener : Type 0 where
  pub acceptor : Acceptor
  pub sessions : ℕ
  pub accepting : Bool
  pub failures : List Failure

-- Whether `open`, `set_option`, `bind` and `listen` report an error.
pub record Errors : Type 0 where
  pub open_error : Bool
  pub option_error : Bool
  pub bind_error : Bool
  pub listen_error : Bool

abbrev started_as : Acceptor → List Failure → Listener
started_as a fs = record { acceptor = a; sessions = 0; accepting = false; failures = fs }

-- the constructor: each call is followed by a return if it fails
unfoldable pub create : Errors → Listener
create e =
    if e.open_error
    then started_as unopened (open_failed ∷ [])
    else if e.option_error
    then started_as opened (set_option_failed ∷ [])
    else if e.bind_error
    then started_as reusable (bind_failed ∷ [])
    else if e.listen_error
    then started_as bound (listen_failed ∷ [])
    else started_as listening []

unfoldable pub do_accept : Listener → Listener
do_accept s = record s { accepting = true }

unfoldable pub run : Listener → Listener
unfolding do_accept
run s = do_accept s

-- `on_accept`, with an error or with a socket
unfoldable pub on_accept : Bool → Listener → Listener
unfolding do_accept
on_accept error s = do_accept (
    if error
    then record s { accepting = false; failures = accept_failed ∷ s.failures }
    else record s { accepting = false; sessions = suc s.sessions })

-- A series of completions, by whether each brings an error.
unfoldable pub accepts : List Bool → Listener → Listener
unfolding on_accept
accepts [] s = s
accepts (error ∷ es) s = accepts es (on_accept error s)

-- How many of the completions bring a socket, and how many an error.
abbrev pub sockets : List Bool → ℕ
sockets [] = 0
sockets (error ∷ es) = if error then sockets es else suc (sockets es)

abbrev pub errors : List Bool → ℕ
errors [] = 0
errors (error ∷ es) = if error then suc (errors es) else errors es

abbrev pub count : List Failure → ℕ
count [] = 0
count (f ∷ fs) = suc (count fs)

-- Whether all four calls of the constructor have gone well.
abbrev pub all_well : Errors → Bool
all_well e = not (e.open_error || e.option_error || e.bind_error || e.listen_error)

create_lem :
    (e : Errors)
    → ((create e).sessions ≡ 0) × (count (create e).failures ≡ (if all_well e then 0 else 1))
unfolding create
create_lem e = (ground arith, ground arith)

accepts_from :
    (es : List Bool) (s : Listener)
    → s.accepting ≡ true
    → ((accepts es s).accepting ≡ true)
      × ((accepts es s).sessions ≡ s.sessions + sockets es)
      × (count (accepts es s).failures ≡ count s.failures + errors es)
unfolding accepts on_accept do_accept
accepts_from [] s h = (h, omega arith, omega arith)
accepts_from (true ∷ es) s h =
    let (pending, ran, reported) = accepts_from es (on_accept true s) refl in
    (pending, ran, omega (arith, reported))
accepts_from (false ∷ es) s h =
    let (pending, ran, reported) = accepts_from es (on_accept false s) refl in
    (pending, omega (arith, ran), reported)

-- Whatever the constructor and the completions bring, an accept is pending after each, also when
-- the acceptor was never bound: the listener does not stop. It runs one session for each socket
-- and reports each error, with the constructor's at most once.
pub accepts_lem :
    (e : Errors) (es : List Bool)
    → ((accepts es (run (create e))).accepting ≡ true)
      × ((accepts es (run (create e))).sessions ≡ sockets es)
      × (count (accepts es (run (create e))).failures ≡ (if all_well e then 0 else 1) + errors es)
unfolding run do_accept
accepts_lem e es =
    let (pending, ran, reported) = accepts_from es (run (create e)) refl in
    let (none_yet, failed) = create_lem e in
    (pending, omega (arith, ran, none_yet), ground (arith, reported, failed))
