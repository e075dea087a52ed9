-- ===== src/Server/GroupReads.antt =====
-- in_process/streams.rs: `xreadgroup`.
pub mod Fresh
use ruststream_fred.Common.{
  ℕ, zero, suc, ◌-◌, ◌/◌, ◌%◌, Bool, true, false, ◌||◌, not, List, [], ◌∷◌, ◌++◌, Option, none,
  some, map, eqb, length, take, drop, is_nil, is_some, if◌then◌else◌,
}
use ruststream_fred.Common.Order.{◌==◌, nat_ord, bytes_ord, pair_ord}
use ruststream_fred.Common.Map.{Map, get, insert, range_from, keys}
use ruststream_fred.Server.Text.{Bytes, b}
use ruststream_fred.Server.Value.{Value, array, null, of_list, syntax, unbalanced}
use ruststream_fred.Server.State.{EntryId, Duration, Fields, Group, Stream, Server, from_millis}
use ruststream_fred.Server.Exec.{Exec, ◌>>=◌, ◌>>◌, pure, refuse, lift, reads, change}
use ruststream_fred.Server.Args.{
  left, word, next_bytes, next_int, rest, bulk, to_usize, unsigned_abs,
}
use ruststream_fred.Server.Counts.{next_id, takes_new}
use ruststream_fred.Server.Ids.{parse_id}
use ruststream_fred.Server.Streams.{usize_or_zero, bounded_by}
use ruststream_fred.Server.Groups.{
  Handout, idle_entries, sort_idle, claim_stale, deliver_fresh, owned_by, history_value, handed_out,
}
use ruststream_fred.Server.GroupCommands.{find_group, store_group}

-- The options of one `XREADGROUP`; no `COUNT` is no bound.
pub record ReadOptions : Type 0 where
  pub count : Option ℕ
  pub noack : Bool
  pub claim : Option Duration

-- A consumer's own history: its pending entries past an id.
unfoldable pub history : Bytes → EntryId → Option ℕ → Stream → Group → List Value
history consumer after count stream g =
    map (λ e. history_value e.0 (get e.0 stream.entries))
      (bounded_by count (owned_by consumer (range_from (next_id after) g.pending)))

abbrev pub claim_now : Bytes → ℕ → ReadOptions → Stream → Group → Handout
claim_now consumer now options stream g = elim options.claim [
  | none ↦ record { group = g; replies = []; ids = [] }
  | some min_idle ↦
      claim_stale consumer now stream.entries
        (bounded_by options.count (sort_idle (idle_entries now min_idle g.pending))) g
]

abbrev room_left : Option ℕ → ℕ → Option ℕ
room_left none taken = none
room_left (some count) taken = some (count - taken)

-- The new entries a read takes: none, for a subscription that does not lead its group.
abbrev new_of : Bool → Option ℕ → ℕ → Stream → Group → Map EntryId Fields
new_of takes count taken stream g =
    if takes
    then bounded_by (room_left count taken) (range_from (next_id g.cursor) stream.entries)
    else []

-- A read of `>`: what was claimed, then what is new.
unfoldable pub read_new : Bytes → ℕ → Bool → ReadOptions → Stream → Group → Handout × Handout
read_new consumer now takes options stream g =
    let claimed = claim_now consumer now options stream g in
    let fresh = new_of takes options.count (length claimed.replies) stream claimed.group in
    (claimed, deliver_fresh consumer now options.noack (is_some options.claim) fresh claimed.group)

module _ (server : Server) where
  -- `State::read_group`
  unfoldable pub read_group : Bytes → Bytes → Bytes → Bytes → ReadOptions → Exec (List Value)
  read_group key name consumer id options = do
    takes ← reads (takes_new key name consumer)
    found ← find_group server key name (b "XREADGROUP")
    let g = record found.1 { consumers = insert consumer tt found.1.consumers }
    store_group server key name found.0 g
    if id == b ">"
        then (do
          let read = read_new consumer server.now takes options found.0 g
          store_group server key name found.0 read.1.group
          change (handed_out server key name consumer (read.0.ids ++ read.1.ids) options.noack)
          pure (read.0.replies ++ read.1.replies))
        else (do after ← lift (parse_id id); pure (history consumer after options.count found.0 g))

  -- The loop over the streams of one `XREADGROUP`.
  unfoldable pub read_groups :
      Bytes → Bytes → ReadOptions → List Bytes → List Bytes → Exec (List Value)
  read_groups name consumer options (key ∷ keys) (id ∷ ids) = do
    entries ← read_group key name consumer id options
    replies ← read_groups name consumer options keys ids
    pure (
        if is_nil entries
        then replies
        else array (of_list (bulk key ∷ array (of_list entries) ∷ [])) ∷ replies)
  read_groups name consumer options _ _ = pure []

  -- The loop over the options, with fuel for each argument left.
  unfoldable pub read_options : ℕ → ReadOptions → Exec ReadOptions
  read_options zero o = refuse syntax
  read_options (suc fuel) o = do
    counts ← word server "COUNT"
    if counts
        then (next_int server >>= λ n.
            read_options fuel (record o { count = some (usize_or_zero (to_usize n)) }))
        else (do
          blocks ← word server "BLOCK"
          if blocks then (next_int server >>= λ _. read_options fuel o) else (do
            noack ← word server "NOACK"
            if noack then read_options fuel (record o { noack = true }) else (do
              claims ← word server "CLAIM"
              if claims
                  then (next_int server >>= λ n.
                      read_options fuel (record o { claim = some (from_millis (unsigned_abs n)) }))
                  else (do ends ← word server "STREAMS"; if ends then pure o else refuse syntax))))

  -- `State::xreadgroup`
  unfoldable pub xreadgroup : Exec Value
  xreadgroup = do
    grouped ← word server "GROUP"
    if grouped then pure tt else refuse syntax
    name ← next_bytes server
    consumer ← next_bytes server
    n ← left
    options ← read_options (suc n) (record { count = none; noack = false; claim = none })
    words ← rest server
    if is_nil words || not (eqb (length words % 2) 0) then refuse unbalanced else pure tt
    let half = length words / 2
    replies ← read_groups name consumer options (take half words) (drop half words)
    pure (if is_nil replies then null else array (of_list replies))
