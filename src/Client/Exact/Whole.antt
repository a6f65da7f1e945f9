-- ===== src/Client/Exact/Whole.antt =====
-- The client in front of the server, over any sequence of calls, beside the library.
use cs389hw.Shared.{ℕ, [], ◌∷◌, ◌≡◌, ap, sym, ◌∙◌, List, Bytes, Result}
use cs389hw.Memory.{Allocator}
use cs389hw.Evictor.{Evictor, IsPolicy}
use cs389hw.Cache.{Call, set_call, get_call, del_call, space_call, reset_call, perform_all}
use cs389hw.Cache.Bounded
use cs389hw.Cache.Bounded.{Bounded}
use cs389hw.Cache.Simulation
use cs389hw.Cache.Simulation.{All, replies_of, seen_by}
use cs389hw.CacheLib.{Impl}
use cs389hw.Server.{Response}
use cs389hw.Client.Connection.{Connection}
use cs389hw.Client.EndToEnd.{Dumps}
use cs389hw.Client.Exact.{Shown, Sendable, AllSendable, unseen}
use cs389hw.Client.Exact.Calls
use cs389hw.Client.Implements.{to_server}
use cs389hw.Client.SpaceUsed.{Prints}
use cs389hw.Library.{Library, library}
use cs389hw.Library.Exact
use cs389hw.Library.Exact.{Fine, AllFine, Shows}
use cs389hw.Library.Implements.{Enough}

-- What the client can send, the library can take.
one-Fine : (call : Call) → Sendable call → Fine call
one-Fine (set_call key val) (k, string, small) = (k.real, small)
one-Fine (get_call key) k = k.real
one-Fine (del_call key) k = tt
one-Fine space_call k = tt
one-Fine reset_call k = tt

Sendable-Fine : (calls : List Call) → AllSendable calls → AllFine calls
Sendable-Fine [] fine = tt
Sendable-Fine (call ∷ calls) (now, later) = (one-Fine call now, Sendable-Fine calls later)

module _ {S : Type 0} {ev : Evictor S} {P : IsPolicy ev} (alloc : Allocator Bytes)
    {rounds : Impl S → ℕ} (enough : Enough P rounds) (beast_version : Bytes)
    {dump : Bytes → Bytes → Result Bytes} (dumps : Dumps dump) {print : Response → Bytes}
    (prints : Prints print) where
  client_replies :
      (calls : List Call) (c : Connection (Impl S)) (a : Bounded)
      → Shown P c a
      → AllSendable calls
      → replies_of (perform_all (to_server ev alloc rounds beast_version dump print) calls c)
        ≡ seen_by unseen (Bounded.replies P.touched calls a)
  client_replies calls c a h fine =
      Simulation.replies_lem (to_server ev alloc rounds beast_version dump print) (Shown P) Sendable
        unseen P.touched
        (λ call c a h fine. Calls.perform_lem alloc enough beast_version dumps prints h call fine)
        calls c a h fine

  -- The client in front of `handle_request`, with no session between, gives the same replies as the
  -- library, but that `del` always answers false, or stops with the same failure: over any sequence
  -- of calls, from states that show the same state of the specification. Keys and values are as for
  -- the contract of the client.
  pub client-library :
      (calls : List Call) (c : Connection (Impl S)) (w : Library S) (a : Bounded)
      → Shown P c a
      → Shows P w a
      → AllSendable calls
      → replies_of (perform_all (to_server ev alloc rounds beast_version dump print) calls c)
        ≡ seen_by unseen (replies_of (perform_all (library ev alloc rounds) calls w))
  client-library calls c w a h h' fine =
      client_replies calls c a h fine
      ∙ ap (seen_by unseen)
          (sym (Exact.replies_lem alloc enough calls w a h' (Sendable-Fine calls fine)))
