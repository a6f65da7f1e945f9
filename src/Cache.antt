-- ===== src/Cache.antt =====
-- cache.hh: `class Cache`, the interface that the library and the client implement.
--
-- A value is a byte string and its size. What `get` answers is the value with its size, or nothing
-- with size 0 for a null pointer.
pub mod Contract
pub mod Bounded
pub mod Simulation
use cs389hw.Shared.{ℕ, Bool, Option, List, [], ◌∷◌, Key, Bytes, Result, ok, ◌>>=◌, length}

abbrev pub Answer : Type 0
Answer = Option Bytes × ℕ

-- The member functions, over the state of an implementation, which has the constructors and the
-- destructor. A cache is not copied.
pub record Cache (W : Type 0) : Type 0 where
  pub set : Key → Bytes → ℕ → W → Result W
  pub get : Key → W → Result (Answer × W)
  pub del : Key → W → Result (Bool × W)
  pub space_used : W → Result (ℕ × W)
  pub reset : W → Result W

-- A call of one of them, and what it returns. The size of a value is that of its bytes.
pub data Call : Type 0 where
  set_call : Key → Bytes → Call
  get_call del_call : Key → Call
  space_call reset_call : Call

pub data Reply : Type 0 where
  nothing : Reply
  answer : Answer → Reply
  deleted : Bool → Reply
  space : ℕ → Reply

module _ {W : Type 0} (c : Cache W) where
  unfoldable pub perform : Call → W → Result (Reply × W)
  perform (set_call key val) w = do w ← c.set key val (length val) w; ok (nothing, w)
  perform (get_call key) w = do (a, w) ← c.get key w; ok (answer a, w)
  perform (del_call key) w = do (b, w) ← c.del key w; ok (deleted b, w)
  perform space_call w = do (n, w) ← c.space_used w; ok (space n, w)
  perform reset_call w = do w ← c.reset w; ok (nothing, w)

  -- Calls, one after another.
  unfoldable pub perform_all : List Call → W → Result (List Reply × W)
  unfolding perform
  perform_all [] w = ok ([], w)
  perform_all (call ∷ calls) w = do
    (reply, w) ← perform call w
    (replies, w) ← perform_all calls w
    ok (reply ∷ replies, w)
