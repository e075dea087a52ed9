-- ===== src/Server/ListReads.antt =====
-- in_process/lists.rs: the commands that read or trim a list in place.
use ruststream_fred.Common.{
  ℕ, false, List, Option, none, some, map, length, get_elem?, if◌then◌else◌,
}
use ruststream_fred.Common.Int.{ℤ}
use ruststream_fred.Common.Order.{bytes_ord, ◌==◌}
use ruststream_fred.Server.Text.{Bytes, b}
use ruststream_fred.Server.Value.{Value, array, of_list}
use ruststream_fred.Server.State.{State, Server}
use ruststream_fred.Server.Exec.{Exec, ◌>>=◌, ◌>>◌, pure, lift, reads, change}
use ruststream_fred.Server.Args.{done, next_bytes, next_int, ok_reply, int, bulk, bulk_or_null}
use ruststream_fred.Server.Keyspace.{lists, read, write, store, drop_empty}
use ruststream_fred.Server.Counts.{recount_list}
use ruststream_fred.Server.Lists.{range, remove_values, list_or_nil, slice, trimmed_of}

module _ (server : Server) where
  -- `LLEN`
  unfoldable pub llen : Exec Value
  llen = do
    key ← next_bytes server
    found ← reads (λ s. read lists key server.now s.keys)
    held ← lift found
    pure (int (length (list_or_nil held)))

  -- `LRANGE`
  unfoldable pub lrange : Exec Value
  lrange = do
    key ← next_bytes server
    start ← next_int server
    stop ← next_int server
    found ← reads (λ s. read lists key server.now s.keys)
    held ← lift found
    let xs = list_or_nil held
    pure (array (of_list (map bulk (slice xs (range start stop (length xs))))))

  abbrev at_range : List Bytes → Option (ℕ × ℕ) → Option Bytes
  at_range xs none = none
  at_range xs (some (at, _)) = get_elem? xs at

  -- `LINDEX`
  unfoldable pub lindex : Exec Value
  lindex = do
    key ← next_bytes server
    index ← next_int server
    found ← reads (λ s. read lists key server.now s.keys)
    held ← lift found
    let xs = list_or_nil held
    pure (bulk_or_null (at_range xs (range index index (length xs))))

  -- What `LREM` and `LTRIM` leave behind: the list written back, dropped if empty, and recounted.
  unfoldable pub settle_list : Bytes → Option (List Bytes) → State → State
  settle_list key none s = recount_list server key (record s { keys = drop_empty key s.keys })
  settle_list key (some xs) s =
      recount_list server key (record s { keys = drop_empty key (store lists key xs s.keys) })

  abbrev removed_of : ℤ → Bytes → Option (List Bytes) → Option (ℕ × List Bytes)
  removed_of count value none = none
  removed_of count value (some xs) = some (remove_values count value xs)

  abbrev kept_of : Option (ℕ × List Bytes) → Option (List Bytes)
  kept_of none = none
  kept_of (some (_, xs)) = some xs

  abbrev number_of : Option (ℕ × List Bytes) → ℕ
  number_of none = 0
  number_of (some (n, _)) = n

  -- `LREM`
  unfoldable pub lrem : Exec Value
  lrem = do
    key ← next_bytes server
    count ← next_int server
    value ← next_bytes server
    done
    held ← write lists key server.now false
    let removed = removed_of count value held
    change (settle_list key (kept_of removed))
    pure (int (number_of removed))

  -- `LTRIM`
  unfoldable pub ltrim : Exec Value
  ltrim = do
    key ← next_bytes server
    start ← next_int server
    stop ← next_int server
    held ← write lists key server.now false
    change (settle_list key (trimmed_of start stop held))
    pure ok_reply

  -- `State::list_reads`
  unfoldable pub list_read_commands : Bytes → Exec (Option Value)
  list_read_commands name =
      let answer = λ (m : Exec Value). m >>= λ reply. pure (some reply) in
      if name == b "LLEN"
      then answer llen
      else if name == b "LRANGE"
      then answer lrange
      else if name == b "LINDEX"
      then answer lindex
      else if name == b "LREM"
      then answer lrem
      else if name == b "LTRIM"
      then answer ltrim
      else pure none
