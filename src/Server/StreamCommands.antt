-- ===== src/Server/StreamCommands.antt =====
-- in_process/streams.rs: `xadd`, `xlen`, `xrange`, `xdel`, `xtrim`, and the trim they read.
use ruststream_fred.Common.{
  ℕ, ◌%◌, Bool, true, false, ◌&&◌, ◌||◌, not, List, [], ◌∷◌, Option, none, some, eqb, ltb, length,
  is_nil, if◌then◌else◌,
}
use ruststream_fred.Common.Order.{nat_ord, bytes_ord, pair_ord}
use ruststream_fred.Common.Map.{get, insert, contains_key}
use ruststream_fred.Server.Text.{Bytes}
use ruststream_fred.Server.Value.{Value, array, null, of_list, syntax, panic}
use ruststream_fred.Server.State.{EntryId, Stream, State, Server, fields, owe, now_ms}
use ruststream_fred.Server.Exec.{Exec, ◌>>=◌, ◌>>◌, pure, lift, reads, change, required}
use ruststream_fred.Server.Args.{
  refuse_arity, word, next_bytes, next_text, next_int, rest, int, to_usize,
}
use ruststream_fred.Server.Keyspace.{streams, read, write, store, exists}
use ruststream_fred.Server.Counts.{or_empty, group_names, group_readers, recount_group, log}
use ruststream_fred.Server.Links.{added_back}
use ruststream_fred.Server.Ids.{zero_id, max_id, id_text, parse_id, range_end}
use ruststream_fred.Server.Streams.{
  Trim, max_len, min_id, apply_trim, apply_if, new_id, pairs, append_entry, entries_of,
  usize_or_zero, pick_range, entry_values, parse_ids, remove_all,
}

module _ (server : Server) where
  parse_sign : Exec (Unit {0})
  parse_sign = do
    exact ← word server "="
    if exact then pure tt else (word server "~" >>= λ _. pure tt)

  parse_limit : Exec (Unit {0})
  parse_limit = do
    limit ← word server "LIMIT"
    if limit then (next_int server >>= λ _. pure tt) else pure tt

  parse_max_len : Exec (Option Trim)
  unfolding parse_sign parse_limit
  parse_max_len = do
    parse_sign
    count ← next_int server
    len ← required (to_usize count) syntax
    parse_limit
    pure (some (max_len len))

  parse_min_id : Exec (Option Trim)
  unfolding parse_sign parse_limit
  parse_min_id = do
    parse_sign
    text ← next_text server
    id ← lift (parse_id text)
    parse_limit
    pure (some (min_id id))

  -- `Trim::parse`
  unfoldable pub parse_trim : Exec (Option Trim)
  unfolding parse_max_len parse_min_id
  parse_trim = do
    by_len ← word server "MAXLEN"
    by_id ← if by_len then pure false else word server "MINID"
    if by_len then parse_max_len else if by_id then parse_min_id else pure none

  -- What one group's readers are owed for a new entry.
  unfoldable pub owe_entry : Bytes → EntryId → Bytes → State → State
  owe_entry key id group s =
      let owed = or_empty (get (key, group) s.stream_owed) in
      if (group_readers key group s).fresh
      then owe server (if contains_key id owed then 0 else 1)
          (record s { stream_owed = insert (key, group) (insert id tt owed) s.stream_owed })
      else s

  -- The loop of `XADD` over the groups.
  unfoldable pub count_entry : ℕ → Bytes → EntryId → List Bytes → State → State
  count_entry trimmed key id [] s = s
  count_entry trimmed key id (group ∷ groups) s =
      count_entry trimmed key id groups
        (if ltb 0 trimmed then recount_group server key group s else owe_entry key id group s)

  -- The write of `XADD`.
  unfoldable pub add_entry : Bytes → Option Trim → Bytes → List Bytes → Exec Value
  add_entry key trim requested values = do
    held ← write streams key server.now true
    stream ← required held panic
    id ← lift (new_id requested (now_ms server) stream.last)
    let entry = pairs values
    let trimmed = apply_if trim (append_entry id entry stream)
    change (λ s. record s { keys = store streams key trimmed.1 s.keys })
    change (log key (fields entry))
    change (count_entry trimmed.0 key id (group_names trimmed.1))
    change (added_back server key)
    pure (id_text id)

  -- `State::xadd`
  unfoldable pub xadd : Exec Value
  xadd = do
    key ← next_bytes server
    no_create ← word server "NOMKSTREAM"
    trim ← parse_trim
    requested ← next_text server
    values ← rest server
    present ← reads (λ s. exists key server.now s.keys)
    if is_nil values || not (eqb (length values % 2) 0)
        then refuse_arity
        else if no_create && not present
        then pure null
        else add_entry key trim requested values

  -- `State::xlen`
  unfoldable pub xlen : Exec Value
  xlen = do
    key ← next_bytes server
    found ← reads (λ s. read streams key server.now s.keys)
    held ← lift found
    pure (int (length (entries_of held)))

  unfoldable pub parse_bound : Exec (Option ℕ)
  parse_bound = do
    counts ← word server "COUNT"
    if counts
        then (next_int server >>= λ count. pure (some (usize_or_zero (to_usize count))))
        else pure none

  -- `State::xrange`
  unfoldable pub xrange : Bool → Exec Value
  unfolding parse_bound entry_values
  xrange reverse = do
    key ← next_bytes server
    first ← next_text server
    second ← next_text server
    start ← lift (range_end (if reverse then second else first) zero_id true)
    end ← lift (range_end (if reverse then first else second) max_id false)
    count ← parse_bound
    found ← reads (λ s. read streams key server.now s.keys)
    held ← lift found
    pure (array (of_list (entry_values (pick_range start end count reverse (entries_of held)))))

  -- `for group in stream.groups() { self.recount_group(..) }`
  unfoldable pub recount_groups : Bytes → List Bytes → State → State
  recount_groups key [] s = s
  recount_groups key (group ∷ groups) s =
      recount_groups key groups (recount_group server key group s)

  written_back : Bytes → ℕ → Stream → Exec Value
  written_back key n stream = do
    change (λ s. record s { keys = store streams key stream s.keys })
    change (recount_groups key (group_names stream))
    pure (int n)

  unfoldable pub delete_entries : Bytes → List EntryId → Option Stream → Exec Value
  unfolding written_back
  delete_entries key ids none = pure (int 0)
  delete_entries key ids (some stream) =
      let (n, es) = remove_all ids stream.entries in
      written_back key n (record stream { entries = es })

  -- `State::xdel`
  unfoldable pub xdel : Exec Value
  unfolding delete_entries
  xdel = do
    key ← next_bytes server
    texts ← rest server
    ids ← lift (parse_ids texts)
    held ← write streams key server.now false
    delete_entries key ids held

  unfoldable pub trim_stream : Bytes → Trim → Option Stream → Exec Value
  unfolding written_back
  trim_stream key trim none = pure (int 0)
  trim_stream key trim (some stream) =
      let (n, stream') = apply_trim trim stream in written_back key n stream'

  -- `State::xtrim`
  unfoldable pub xtrim : Exec Value
  unfolding trim_stream
  xtrim = do
    key ← next_bytes server
    parsed ← parse_trim
    trim ← required parsed syntax
    held ← write streams key server.now false
    trim_stream key trim held
