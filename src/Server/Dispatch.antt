-- ===== src/Server/Dispatch.antt =====
-- in_process/keyspace.rs and mod.rs: `dispatch`, `run` and `transaction`.
use ruststream_fred.Common.{◌||◌, List, [], ◌∷◌, ◌++◌, Option, none, some, if◌then◌else◌}
use ruststream_fred.Common.Order.{◌==◌, bytes_ord}
use ruststream_fred.Server.Text.{Bytes, b, to_ascii_uppercase}
use ruststream_fred.Server.Value.{Value, array, null, of_list, Error, unknown_command}
use ruststream_fred.Server.State.{State, Server}
use ruststream_fred.Server.Exec.{Exec, Result, ok, err, ◌>>=◌, pure, refuse}
use ruststream_fred.Server.ServerCommands.{server_commands}
use ruststream_fred.Server.KeyCommands.{keys_and_strings}
use ruststream_fred.Server.Collections.{hash_commands, set_commands}
use ruststream_fred.Server.ListCommands.{list_commands}
use ruststream_fred.Server.ListReads.{list_read_commands}
use ruststream_fred.Server.SortedSetCommands.{sorted_set_commands}
use ruststream_fred.Server.StreamCommands.{xadd, xlen, xrange, xdel, xtrim}
use ruststream_fred.Server.GroupCommands.{xack, xgroup}
use ruststream_fred.Server.GroupReads.{xreadgroup}
use ruststream_fred.Server.AutoClaim.{xautoclaim}
use ruststream_fred.Server.Pendings.{xpending}
use ruststream_fred.Server.Slots.{Command, check_one_slot, check_transaction_slot}

-- The loop over the families: the first that knows the command answers it.
unfoldable pub first_of : List (Bytes → Exec (Option Value)) → Bytes → Exec Value → Exec Value
first_of [] name otherwise = otherwise
first_of (family ∷ families) name otherwise = family name >>= λ reply. elim reply [
  | some value ↦ pure value
  | none ↦ first_of families name otherwise
]

abbrev full_name : Bytes → Option Bytes → Bytes
full_name name none = name
full_name name (some sub) = name ++ b " " ++ sub

module _ (server : Server) where
  unfoldable pub group_commands : Bytes → Option Bytes → Exec Value
  group_commands name none = refuse (unknown_command name)
  group_commands name (some sub) =
      if name == b "XGROUP"
      then xgroup server sub
      else refuse (unknown_command (full_name name (some sub)))

  unfoldable pub stream_commands : Bytes → Option Bytes → Exec Value
  stream_commands name sub =
      if name == b "XADD"
      then xadd server
      else if name == b "XLEN"
      then xlen server
      else if name == b "XRANGE" || name == b "XREVRANGE"
      then xrange server (name == b "XREVRANGE")
      else if name == b "XDEL"
      then xdel server
      else if name == b "XTRIM"
      then xtrim server
      else if name == b "XACK"
      then xack server
      else if name == b "XREADGROUP"
      then xreadgroup server
      else if name == b "XAUTOCLAIM"
      then xautoclaim server
      else if name == b "XPENDING"
      then xpending server
      else group_commands name sub

  abbrev pub families : List (Bytes → Exec (Option Value))
  families =
      server_commands server
      ∷ keys_and_strings server
      ∷ hash_commands server
      ∷ set_commands server
      ∷ list_commands server
      ∷ list_read_commands server
      ∷ sorted_set_commands server
      ∷ []

  -- `State::dispatch`
  unfoldable pub dispatch : Bytes → Option Bytes → Exec Value
  dispatch name sub = first_of families name (stream_commands name sub)

  abbrev pub upper_of : Option Bytes → Option Bytes
  upper_of none = none
  upper_of (some sub) = some (to_ascii_uppercase sub)

  abbrev pub called : Bytes → Option Bytes → List Value → State → Result Value × State
  called name sub values s =
      let (reply, c) =
        dispatch name sub (record { state = s; args = record { command = name; rest = values } }) in
      (reply, c.state)

  abbrev pub after_check :
      Result (Unit {0}) → (State → Result Value × State) → State → Result Value × State
  after_check (ok u) body s = body s
  after_check (err e) body s = (err e, s)

  -- `State::run`
  unfoldable pub run : Command → State → Result Value × State
  run c s =
      let name = to_ascii_uppercase c.cmd in
      after_check (if server.clustered then check_one_slot server name c.arguments else ok tt)
        (called name (upper_of c.subcommand) c.arguments) s

  -- The loop of a transaction: its replies, the first refusal, and the state past it.
  pub record Replies : Type 0 where
    pub replies : List Value
    pub first_error : Option Error
    pub state : State

  abbrev pub noted : Result Value → Replies → Replies
  noted (ok reply) r = record r { replies = reply ∷ r.replies }
  noted (err e) r = record r { replies = null ∷ r.replies; first_error = some e }

  unfoldable pub run_all : List Command → State → Replies
  run_all [] s = record { replies = []; first_error = none; state = s }
  run_all (c ∷ cs) s = let (reply, s') = run c s in noted reply (run_all cs s')

  abbrev pub whole_reply : Replies → Result Value
  whole_reply r = elim r.first_error [ none ↦ ok (array (of_list r.replies)) | some e ↦ err e ]

  -- `State::transaction`
  unfoldable pub transaction : List Command → State → Result Value × State
  transaction commands s =
      after_check (if server.clustered then check_transaction_slot server commands else ok tt)
        (λ t. let r = run_all commands t in (whole_reply r, r.state)) s
