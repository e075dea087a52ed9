-- ===== src/Server/Pendings.antt =====
-- in_process/streams.rs: `xpending`.
use ruststream_fred.Common.{
  ℕ, ◌+◌, ◌-◌, Bool, true, false, ◌&&◌, List, [], ◌∷◌, Option, none, some, eqb, leb, min, length,
  take, map, is_nil, if◌then◌else◌,
}
use ruststream_fred.Common.Int.{pos}
use ruststream_fred.Common.Order.{◌==◌, ◌<?◌, bytes_ord, nat_ord, pair_ord}
use ruststream_fred.Common.Map.{Map, get, insert, range_from, range_to}
use ruststream_fred.Server.Text.{Bytes, b}
use ruststream_fred.Server.Text.Decimal.{i64_max, print}
use ruststream_fred.Server.Value.{Value, integer, string, array, null, of_list, no_group}
use ruststream_fred.Server.State.{EntryId, Instant, Duration, Pending, Server, from_millis}
use ruststream_fred.Server.Exec.{Exec, ◌>>=◌, pure, lift, reads, required}
use ruststream_fred.Server.Args.{
  left, word, next_bytes, next_text, next_int, int, bulk, to_usize, unsigned_abs,
}
use ruststream_fred.Server.Keyspace.{streams, read}
use ruststream_fred.Server.Ids.{zero_id, max_id, id_text, range_end}
use ruststream_fred.Server.Streams.{usize_or_zero}
use ruststream_fred.Server.Groups.{millis, group_of}
use ruststream_fred.Server.Counts.{or_zero}

-- How many entries each consumer has pending.
unfoldable pub per_consumer : Map EntryId Pending → Map Bytes ℕ
per_consumer [] = []
per_consumer ((id, p) ∷ ps) =
    let counts = per_consumer ps in insert p.consumer (or_zero (get p.consumer counts) + 1) counts

unfoldable pub consumer_counts : Map Bytes ℕ → List Value
consumer_counts [] = []
consumer_counts ((consumer, n) ∷ rest) =
    array (of_list (bulk consumer ∷ string (print n) ∷ [])) ∷ consumer_counts rest

abbrev first_id : Map EntryId Pending → Value
first_id [] = null
first_id ((id, p) ∷ ps) = id_text id

unfoldable pub last_id : Map EntryId Pending → Value
last_id [] = null
last_id ((id, p) ∷ []) = id_text id
last_id ((id, p) ∷ q ∷ ps) = last_id (q ∷ ps)

-- The short form: the length of the list, its ends, and what each consumer has.
unfoldable pub pending_summary : Map EntryId Pending → Value
pending_summary ps =
    let counts = per_consumer ps in
    array (
      of_list (
        int (length ps)
        ∷ first_id ps
        ∷ last_id ps
        ∷ (if is_nil counts then null else array (of_list (consumer_counts counts)))
        ∷ []))

abbrev is_wanted : Option Bytes → Bytes → Bool
is_wanted none consumer = true
is_wanted (some name) consumer = consumer == name

-- The pending entries of a consumer, or of all, that have been idle for long enough.
unfoldable pub pending_of :
    Option Bytes → Instant → Duration → Map EntryId Pending → Map EntryId Pending
pending_of name now min_idle [] = []
pending_of name now min_idle ((id, p) ∷ ps) =
    let rest = pending_of name now min_idle ps in
    if is_wanted name p.consumer && leb min_idle (now - p.at) then (id, p) ∷ rest else rest

unfoldable pub pending_value : Instant → EntryId → Pending → Value
pending_value now id p = array (
    of_list (
      id_text id
      ∷ bulk p.consumer
      ∷ millis (now - p.at)
      ∷ integer (pos (min p.count i64_max))
      ∷ []))

-- The extended form.
unfoldable pub pending_range :
    Option Bytes
    → Instant
    → Duration
    → EntryId
    → EntryId
    → ℕ
    → Map EntryId Pending
    → Map EntryId Pending
pending_range name now min_idle start end count ps =
    if end <? start
    then []
    else take count (pending_of name now min_idle (range_to end (range_from start ps)))

module _ (server : Server) where
  unfoldable pub idle_option : Exec Duration
  idle_option = do
    idle ← word server "IDLE"
    if idle then (do n ← next_int server; pure (from_millis (unsigned_abs n))) else pure 0

  unfoldable pub consumer_option : Exec (Option Bytes)
  consumer_option = do
    n ← left
    if eqb n 0 then pure none else (do name ← next_bytes server; pure (some name))

  -- `State::xpending`
  unfoldable pub xpending : Exec Value
  xpending = do
    key ← next_bytes server
    name ← next_bytes server
    found ← reads (λ s. read streams key server.now s.keys)
    held ← lift found
    group ← required (group_of name held) (no_group key name (b "XPENDING"))
    n ← left
    if eqb n 0 then pure (pending_summary group.pending) else (do
      min_idle ← idle_option
      first ← next_text server
      start ← lift (range_end first zero_id true)
      second ← next_text server
      end ← lift (range_end second max_id false)
      many ← next_int server
      consumer ← consumer_option
      let entries =
          pending_range consumer server.now min_idle start end (usize_or_zero (to_usize many))
            group.pending
      pure (array (of_list (map (λ e. pending_value server.now e.0 e.1) entries))))
