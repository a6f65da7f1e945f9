-- ===== src/Client/Connection.antt =====
-- cache_client.cc: the connection that a client keeps, and the client as a `Cache`.
--
-- Name resolution and the socket are parameters: `resolve` and `connect` of the constructor, which
-- may throw, and `exchange`, which writes a request and reads the answer.
use cs389hw.Shared.{
  ℕ, Bool, true, false, not, Bytes, Result, ok, stop, assert_failed, uncaught, ◌>>=◌, if◌then◌else◌,
}
use cs389hw.Server.{Verb, Request, Response}
use cs389hw.Cache.{Cache}
use cs389hw.Client
use cs389hw.Client.{request, get_value}

-- The fields of `Impl`: `connected` is the state of `stream`, `remote` what is on the other side.
pub record Connection (W : Type 0) : Type 0 where
  pub host : Bytes
  pub port : Bytes
  pub connected : Bool
  pub remote : W

module _ {W E : Type 0} (resolve : Bytes → Bytes → Result E) (connect : E → W → Result W) where
  -- `Impl::Impl`
  unfoldable pub create : Bytes → Bytes → W → Result (Connection W)
  create h p w = do
    results ← resolve h p
    w ← connect results w
    ok (record { host = h; port = p; connected = true; remote = w })

  -- `Cache::Cache` for a host and a port
  unfoldable pub new_client : Bytes → Bytes → W → Result (Connection W)
  unfolding create
  new_client host port w = create host port w

module _ {W : Type 0} where
  -- `Cache::Cache` for a store, which the client does not have
  unfoldable pub new_store : ℕ → W → Result (Connection W)
  new_store maxmem w = stop assert_failed

  -- `Impl::~Impl`: an error of `shutdown` is ignored
  unfoldable pub close : Connection W → Connection W
  close c = record c { connected = false }

  -- `Cache::~Cache`: `pImpl_` goes
  unfoldable pub destroy : Connection W → Connection W
  unfolding close
  destroy c = close c

module _ {W : Type 0} (beast_version : Bytes) (exchange : Request → W → Result (Response × W)) where
  -- Writing to a socket that has been shut down throws.
  unfoldable pub make_request : Verb → Bytes → Connection W → Result (Response × Connection W)
  make_request verb target c = if not c.connected then stop uncaught else do
    (res, w) ← exchange (request c.host beast_version verb target) c.remote
    ok (res, record c { remote = w })

  -- The member functions, each a call of the one of `Impl`.
  unfoldable pub client : (Response → Bytes) → Cache (Connection W)
  unfolding make_request
  client print = record {
    set = Client.set make_request;
    get = get_value make_request;
    del = Client.del make_request;
    space_used = Client.get_current_mem make_request print;
    reset = Client.reset make_request;
  }
