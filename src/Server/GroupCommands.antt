-- ===== src/Server/GroupCommands.antt =====
-- in_process/streams.rs: `xack` and `xgroup`, and the lookup of a group.
use ruststream_fred.Common.{
  false, List, [], ◌∷◌, Option, none, some, length, is_nil, is_some, if◌then◌else◌,
}
use ruststream_fred.Common.Order.{◌==◌, nat_ord, bytes_ord, pair_ord}
use ruststream_fred.Common.Map.{Map, get, insert, remove, contains_key}
use ruststream_fred.Server.Text.{Bytes, b}
use ruststream_fred.Server.Value.{Value, no_group, busy_group, key_must_exist, unknown_subcommand}
use ruststream_fred.Server.State.{EntryId, Pending, Group, Stream, State, Server}
use ruststream_fred.Server.Exec.{
  Exec, Result, ok, ◌>>=◌, ◌>>◌, pure, refuse, lift, change, required,
}
use ruststream_fred.Server.Args.{
  refuse_arity, done, word, next_bytes, next_text, next_int, rest, ok_reply, int,
}
use ruststream_fred.Server.Keyspace.{streams, write, store}
use ruststream_fred.Server.Counts.{recount_group}
use ruststream_fred.Server.Ids.{parse_id}
use ruststream_fred.Server.Streams.{parse_ids}
use ruststream_fred.Server.Groups.{group_of, owned_by, ack_ids, settle_entries}

-- A group written back into its stream.
abbrev pub with_group : Bytes → Group → Stream → Stream
with_group name g stream = record stream { groups = insert name g stream.groups }

module _ (server : Server) where
  -- A group of a stream that `stream_mut` found, or what `no_group` says.
  unfoldable pub find_group : Bytes → Bytes → Bytes → Exec (Stream × Group)
  find_group key group command = do
    held ← write streams key server.now false
    stream ← required held (no_group key group command)
    g ← required (get group stream.groups) (no_group key group command)
    pure (stream, g)

  unfoldable pub store_group : Bytes → Bytes → Stream → Group → Exec (Unit {0})
  store_group key name stream g =
      change (λ s. record s { keys = store streams key (with_group name g stream) s.keys })

  unfoldable pub acknowledge :
      Bytes → Bytes → List EntryId → Option Stream → Option Group → Exec Value
  acknowledge key name ids (some stream) (some g) = do
    let acked = ack_ids ids g.pending
    store_group key name stream (record g { pending = acked.1 })
    change (settle_entries server (key, name) acked.0)
    pure (int (length acked.0))
  acknowledge key name ids _ _ = pure (int 0)

  -- The write of `XACK`.
  unfoldable pub ack_entries : Bytes → Bytes → List EntryId → Exec Value
  ack_entries key name ids = do
    held ← write streams key server.now false
    acknowledge key name ids held (group_of name held)

  -- `State::xack`
  unfoldable pub xack : Exec Value
  xack = do
    key ← next_bytes server
    name ← next_bytes server
    texts ← rest server
    ids ← lift (parse_ids texts)
    if is_nil ids then refuse_arity else ack_entries key name ids

  abbrev pub position_of : Bytes → Stream → Result EntryId
  position_of text stream = if text == b "$" then ok stream.last else parse_id text

  unfoldable pub skip_entries_read : Exec (Unit {0})
  skip_entries_read = do
    counts ← word server "ENTRIESREAD"
    if counts then (next_int server >>= λ _. pure tt) else pure tt

  -- `XGROUP CREATE`
  unfoldable pub create_group : Bytes → Bytes → Exec Value
  create_group key name = do
    position ← next_text server
    create ← word server "MKSTREAM"
    skip_entries_read
    done
    held ← write streams key server.now create
    stream ← required held key_must_exist
    cursor ← lift (position_of position stream)
    if contains_key name stream.groups
        then refuse busy_group
        else (store_group key name stream (record { cursor = cursor; pending = []; consumers = [] })
            >>= λ _. pure ok_reply)

  -- `XGROUP SETID`
  unfoldable pub set_group_id : Bytes → Bytes → Exec Value
  set_group_id key name = do
    position ← next_text server
    skip_entries_read
    done
    held ← write streams key server.now false
    stream ← required held (no_group key name (b "XGROUP SETID"))
    cursor ← lift (position_of position stream)
    g ← required (get name stream.groups) (no_group key name (b "XGROUP SETID"))
    store_group key name stream (record g { cursor = cursor })
    pure ok_reply

  abbrev pub without_group : Bytes → Bytes → Option Stream → State → State
  without_group key name none s = s
  without_group key name (some stream) s = record s {
    keys = store streams key (record stream { groups = remove name stream.groups }) s.keys;
  }

  -- `XGROUP DESTROY`
  unfoldable pub destroy_group : Bytes → Bytes → Exec Value
  destroy_group key name = do
    held ← write streams key server.now false
    change (without_group key name held)
    change (λ s. record s { claim_due = remove (key, name) s.claim_due })
    pure (int (if is_some (group_of name held) then 1 else 0))

  -- `XGROUP CREATECONSUMER`
  unfoldable pub create_consumer : Bytes → Bytes → Exec Value
  create_consumer key name = do
    consumer ← next_bytes server
    found ← find_group key name (b "XGROUP")
    let g = found.1
    store_group key name found.0 (record g { consumers = insert consumer tt g.consumers })
    pure (int (if contains_key consumer g.consumers then 0 else 1))

  -- The pending entries of the other consumers.
  unfoldable pub not_owned_by : Bytes → Map EntryId Pending → Map EntryId Pending
  not_owned_by consumer [] = []
  not_owned_by consumer ((id, p) ∷ ps) =
      let others = not_owned_by consumer ps in
      if p.consumer == consumer then others else (id, p) ∷ others

  -- `XGROUP DELCONSUMER`
  unfoldable pub delete_consumer : Bytes → Bytes → Exec Value
  delete_consumer key name = do
    consumer ← next_bytes server
    found ← find_group key name (b "XGROUP")
    let g = found.1
    store_group key name found.0 (record g {
      consumers = remove consumer g.consumers;
      pending = not_owned_by consumer g.pending;
    })
    pure (int (length (owned_by consumer g.pending)))

  unfoldable pub dispatch_group : Bytes → Bytes → Bytes → Exec Value
  dispatch_group sub key name =
      if sub == b "CREATE"
      then create_group key name
      else if sub == b "SETID"
      then set_group_id key name
      else if sub == b "DESTROY"
      then destroy_group key name
      else if sub == b "CREATECONSUMER"
      then create_consumer key name
      else if sub == b "DELCONSUMER"
      then delete_consumer key name
      else refuse (unknown_subcommand sub)

  -- `State::xgroup`
  unfoldable pub xgroup : Bytes → Exec Value
  xgroup sub = do
    key ← next_bytes server
    name ← next_bytes server
    reply ← dispatch_group sub key name
    change (recount_group server key name)
    pure reply
