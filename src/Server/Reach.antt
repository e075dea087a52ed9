-- ===== src/Server/Reach.antt =====
-- in_process/mod.rs: the calls that clients, the harness and timers make on the server, in any
-- order and at any times; a coordinator is installed before the first of them.
use ruststream_fred.Common.{ℕ, ◌≡◌, Bool, true, false, List, Option, [], ◌∷◌, eqb, if◌then◌else◌}
use ruststream_fred.Common.Map.{Map}
use ruststream_fred.Server.Text.{Bytes}
use ruststream_fred.Server.State.{
  Server, StreamReader, Subscription, Duration, Fire, Fields, Reader, channel_reader,
}
use ruststream_fred.Server.Slots.{Command}
use ruststream_fred.Server.World.{
  World, apply, apply_all, close, attach_stream, attach_list, attach_pubsub, detach, fire,
  inject_stream, inject_list, inject_publish,
}

-- One call.
pub data Call : Type 0 where
  applies : Command → Call
  transacts : List Command → Call
  closes : Call
  attaches_stream : StreamReader → Call
  attaches_list : Bytes → Option (Bytes × Duration) → Call
  attaches_pubsub : Subscription → Call
  detaches : ℕ → Call
  fires : Fire → Call
  injects_stream : Bytes → Fields → Call
  injects_list : Bytes → Bytes → Call
  injects_publish : Bytes → Bytes → Bool → Call

-- What a call makes of the world, at the time that the server keeps.
unfoldable pub after : Server → Call → World → World
after server (applies c) w = (apply server c w).1
after server (transacts cs) w = (apply_all server cs w).1
after server closes w = close server w
after server (attaches_stream r) w = attach_stream server r w
after server (attaches_list key set) w = attach_list server key set w
after server (attaches_pubsub target) w = attach_pubsub server target w
after server (detaches id) w = detach server id w
after server (fires f) w = record w { state = fire server f w.state }
after server (injects_stream name fs) w = (inject_stream server name fs w).1
after server (injects_list name message) w = (inject_list server name message w).1
after server (injects_publish name message shard) w = (inject_publish server name message shard w).1

abbrev pub without_receiver : ℕ → ℕ → Reader → Reader
without_receiver id at (channel_reader target tx) =
    channel_reader target (if eqb id at then record tx { is_open = false } else tx)
without_receiver id at reader = reader

-- The readers, once the receiver of one of them was dropped: a send on its channel then fails.
unfoldable pub hung_up : ℕ → Map ℕ Reader → Map ℕ Reader
hung_up id [] = []
hung_up id ((at, reader) ∷ rs) = (at, without_receiver id at reader) ∷ hung_up id rs

-- A step: a call at some time, or a receiver of a channel that is dropped.
pub data Step (w : World) : World → Type 0 where
  calls : (server : Server) (c : Call) → server.has_coordinator ≡ true → Step w (after server c w)
  hangs_up :
      (id : ℕ)
      → Step w (record w { state = record w.state { readers = hung_up id w.state.readers } })

pub data Reach (w : World) : World → Type 0 where
  here : Reach w w
  next : {u v : World} → Reach w u → Step u v → Reach w v
