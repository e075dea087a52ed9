-- ===== src/Server/State.antt =====
-- The server's state: in_process/mod.rs, with the value types of keyspace.rs and streams.rs. The
-- calls that commands make on the harness (counts and timers) are kept in it as three fields.
-- An `Instant` and a `Duration` are nanoseconds.
use ruststream_fred.Common.{ℕ, ◌+◌, ◌-◌, ◌*◌, ◌/◌, Bool, List, ◌∷◌, Option, min, if◌then◌else◌}
use ruststream_fred.Common.Map.{Map, Set}
use ruststream_fred.Server.Text.{Bytes}
use ruststream_fred.Server.Text.Decimal.{u64_max}
use ruststream_fred.Server.Value.{Double, Doubles}

abbrev pub Instant : Type 0
Instant = ℕ

abbrev pub Duration : Type 0
Duration = ℕ

-- `Duration::from_millis` and `Duration::as_millis`
abbrev pub from_millis : ℕ → Duration
from_millis n = n * 1_000_000

abbrev pub as_millis : Duration → ℕ
as_millis d = d / 1_000_000

-- `struct Id`: milliseconds and sequence, ordered in that order.
abbrev pub EntryId : Type 0
EntryId = ℕ × ℕ

abbrev pub Fields : Type 0
Fields = List (Bytes × Bytes)

pub record Pending : Type 0 where
  pub consumer : Bytes
  pub at : Instant
  pub count : ℕ

pub record Group : Type 0 where
  pub cursor : EntryId
  pub pending : Map EntryId Pending
  pub consumers : Set Bytes

pub record Stream : Type 0 where
  pub entries : Map EntryId Fields
  pub last : EntryId
  pub groups : Map Bytes Group

-- `enum Data`
pub data Data : Type 0 where
  str : Bytes → Data
  list : List Bytes → Data
  hash : Map Bytes Bytes → Data
  set : Set Bytes → Data
  zset : Map Bytes Double → Data
  stream : Stream → Data

pub record Entry : Type 0 where
  pub value : Data
  pub expires : Option Instant

abbrev pub Keyspace : Type 0
Keyspace = Map Bytes Entry

pub data LinkKind : Type 0 where
  delay : LinkKind
  recovery : Duration → LinkKind

pub record Link : Type 0 where
  pub target : Bytes
  pub kind : LinkKind
  pub due : Set Bytes
  pub held : Set Bytes

pub data Write : Type 0 where
  fields : Fields → Write
  body : Bytes → Write

pub data Subscription : Type 0 where
  channel sharded pattern_of : Bytes → Subscription

-- A broadcast channel: whether its receiver lives, and what was sent on it.
pub record Sender : Type 0 where
  pub is_open : Bool
  pub sent : List (Bytes × Bytes)

pub record StreamReader : Type 0 where
  pub key : Bytes
  pub group : Bytes
  pub consumer : Bytes
  pub fresh : Bool
  pub claim : Option Duration
  pub delay : Option Bytes

-- `enum Reader`
pub data Reader : Type 0 where
  stream_reader : StreamReader → Reader
  list_reader : Bytes → Option Bytes → Reader
  channel_reader : Subscription → Sender → Reader

-- What a timer runs when it fires.
pub data Fire : Type 0 where
  prune_link : Bytes → Fire
  claim_came_due : Bytes → Bytes → EntryId → Instant → Fire
  link_due : Bytes → Bytes → Double → Fire

abbrev pub Slot : Type 0
Slot = Bytes × Bytes

-- `struct State`; the last three fields are the calls made on the harness: `enqueued`, `consumed`
-- and the timers scheduled, newest first.
pub record State : Type 0 where
  pub keys : Keyspace
  pub readers : Map ℕ Reader
  pub stream_owed : Map Slot (Set EntryId)
  pub claim_due : Map Slot (Set EntryId)
  pub list_owed : Map Bytes ℕ
  pub readd_holds : Map Bytes ℕ
  pub links : Map Bytes Link
  pub writes : Map Bytes (List Write)
  pub enqueued : ℕ
  pub consumed : ℕ
  pub timers : List (Duration × Fire)

-- `struct Server` without its state, as one command sees it: the clock holds still while a command
-- runs, as the test clock does. `keyslot` is `fred`'s hash slot.
pub record Server : Type 0 where
  pub now : Instant
  pub started : Instant
  pub epoch_ms : ℕ
  pub clustered : Bool
  pub has_coordinator : Bool
  pub doubles : Doubles
  pub keyslot : Bytes → ℕ

-- `Server::now_ms`
unfoldable pub now_ms : Server → ℕ
now_ms server =
    min (server.epoch_ms + min (as_millis (server.now - server.started)) u64_max) u64_max

-- `Server::owe`: one call of `enqueued` for each delivery, once a coordinator is installed.
unfoldable pub owe : Server → ℕ → State → State
owe server n s = if server.has_coordinator then record s { enqueued = s.enqueued + n } else s

-- `Server::released`
unfoldable pub released : Server → ℕ → State → State
released server n s = if server.has_coordinator then record s { consumed = s.consumed + n } else s

-- `Server::schedule`
unfoldable pub schedule : Duration → Fire → State → State
schedule wait fire s = record s { timers = (wait, fire) ∷ s.timers }
