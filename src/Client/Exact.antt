-- ===== src/Client/Exact.antt =====
-- cache_client.cc in front of cache_server.cc: what a client shows of the specification.
pub mod Strings
pub mod Calls
pub mod Whole
use cs389hw.Shared.{◌^◌, ◌<◌, ◌≡◌, true, false, some, List, Key, Bytes, length}
use cs389hw.Evictor.{Evictor, IsPolicy}
use cs389hw.Cache.{Call, set_call, get_call, del_call, space_call, reset_call, Reply, deleted}
use cs389hw.Cache.Simulation.{All}
use cs389hw.Cache.Bounded.{Bounded}
use cs389hw.CacheLib.{Impl}
use cs389hw.CacheLib.Agrees.{Agrees}
use cs389hw.Client.Connection.{Connection}
use cs389hw.Client.Implements.{Name, CString}

-- Every value is a C string.
abbrev pub Strings : Bounded → Type 0
Strings a = (j : Key) (u : Bytes) → a.content j ≡ some u → CString u

-- The client between two calls, and the state of the specification that its server shows.
pub record Shown {S : Type 0} {ev : Evictor S} (P : IsPolicy ev) (c : Connection (Impl S))
    (a : Bounded) : Type 0 where
  pub connected : c.connected ≡ true
  pub agrees : Agrees P c.remote a
  pub strings : Strings a

-- The calls whose keys and values a target and a JSON text can carry.
abbrev pub Sendable : Call → Type 0
Sendable (set_call key val) = Name key × CString val × (length val < 2 ^ 31)
Sendable (get_call key) = Name key
Sendable (del_call key) = Name key
Sendable space_call = Unit
Sendable reset_call = Unit

abbrev pub AllSendable : List Call → Type 0
AllSendable = All Sendable

-- The client does not learn whether a key was deleted.
abbrev pub unseen : Reply → Reply
unseen (deleted b) = deleted false
unseen r = r
