-- ===== src/Server/Counts.antt =====
-- in_process/mod.rs: what the subscriptions registered with the server are owed, and the counts
-- that the harness holds for them.
pub mod Sizes
pub mod Balance
use ruststream_fred.Common.{
  ℕ, zero, suc, ◌+◌, ◌-◌, Bool, true, false, ◌&&◌, ◌||◌, not, List, [], ◌∷◌, ◌++◌, Option, none,
  some, min, eqb, ltb, leb, length, is_some, if◌then◌else◌,
}
use ruststream_fred.Common.Order.{Ord, ◌==◌, nat_ord, bytes_ord, pair_ord}
use ruststream_fred.Common.Map.{Map, Set, get, insert, remove, range_from, contains_key, keys}
use ruststream_fred.Server.Text.{Bytes, lossy}
use ruststream_fred.Server.Text.Decimal.{u64_max}
use ruststream_fred.Server.Glob.{matches}
use ruststream_fred.Server.Value.{Double}
use ruststream_fred.Server.State.{
  Instant, Duration, EntryId, Pending, Group, Stream, Data, Keyspace, Link, LinkKind, delay,
  recovery, Write, body, Subscription, channel, sharded, pattern_of, Sender, StreamReader, Reader,
  stream_reader, list_reader, channel_reader, Slot, State, Server, owe, released,
}
use ruststream_fred.Server.Keyspace.{flat, read, lists, streams, list_len, zscore}

-- `Id::next`, at the end of the `u64` range too
unfoldable pub next_id : EntryId → EntryId
next_id (ms, seq) = if eqb seq u64_max then (min (ms + 1) u64_max, 0) else (ms, seq + 1)

-- `Stream::groups`
abbrev pub group_names : Stream → List Bytes
group_names s = keys s.groups

key_set : {V : Type 0} → Map EntryId V → Set EntryId
key_set [] = []
key_set ((id, v) ∷ es) = (id, tt) ∷ key_set es

ids_past : Stream → Option Group → Set EntryId
unfolding key_set
ids_past s none = []
ids_past s (some g) = key_set (range_from (next_id g.cursor) s.entries)

-- `Keyspace::new_entries`
unfoldable pub new_entries : Bytes → Bytes → Instant → Keyspace → Set EntryId
unfolding ids_past
new_entries key group now ks = elim (flat (read streams key now ks)) [
  | none ↦ []
  | some s ↦ ids_past s (get group s.groups)
]

-- `struct GroupReaders`
pub record GroupReaders : Type 0 where
  pub any : Bool
  pub fresh : Bool
  pub claim : Option Duration

abbrev min_claim : Option Duration → Option Duration → Option Duration
min_claim (some held) (some new) = some (min held new)
min_claim (some held) none = some held
min_claim none new = new

abbrev reads_group : Bytes → Bytes → StreamReader → Bool
reads_group key group r = r.key == key && r.group == group

add_reader : Bytes → Bytes → Reader → GroupReaders → GroupReaders
add_reader key group (stream_reader r) acc =
    if reads_group key group r
    then record { any = true; fresh = acc.fresh || r.fresh; claim = min_claim acc.claim r.claim }
    else acc
add_reader key group _ acc = acc

-- The loop of `State::group_readers`
gather : Bytes → Bytes → Map ℕ Reader → GroupReaders → GroupReaders
unfolding add_reader
gather key group [] acc = acc
gather key group ((_, r) ∷ rs) acc = gather key group rs (add_reader key group r acc)

-- `State::group_readers`
unfoldable pub group_readers : Bytes → Bytes → State → GroupReaders
unfolding gather
group_readers key group s =
    gather key group s.readers (record { any = false; fresh = false; claim = none })

fresh_consumer : Bytes → Bytes → Reader → Option Bytes
fresh_consumer key group (stream_reader r) =
    if reads_group key group r && r.fresh then some r.consumer else none
fresh_consumer key group _ = none

first_fresh : Bytes → Bytes → Map ℕ Reader → Option (ℕ × Bytes)
unfolding fresh_consumer
first_fresh key group [] = none
first_fresh key group ((id, r) ∷ rs) = elim (fresh_consumer key group r) [
  | some consumer ↦ some (id, consumer)
  | none ↦ first_fresh key group rs
]

-- `State::leader`: the map is in the order of registration.
unfoldable pub leader : Bytes → Bytes → State → Option (ℕ × Bytes)
unfolding first_fresh
leader key group s = first_fresh key group s.readers

-- `State::leads`
unfoldable pub leads : ℕ → Bytes → Bytes → State → Bool
leads reader key group s = elim (leader key group s) [ none ↦ false | some (id, _) ↦ eqb id reader ]

-- Some registered stream reader satisfies `p`.
unfoldable pub any_stream : (StreamReader → Bool) → Map ℕ Reader → Bool
any_stream p [] = false
any_stream p ((_, stream_reader r) ∷ rs) = p r || any_stream p rs
any_stream p ((_, list_reader _ _) ∷ rs) = any_stream p rs
any_stream p ((_, channel_reader _ _) ∷ rs) = any_stream p rs

-- `State::takes_new`
unfoldable pub takes_new : Bytes → Bytes → Bytes → State → Bool
takes_new key group consumer s =
    not (any_stream (λ r. reads_group key group r && (r.consumer == consumer && r.fresh)) s.readers)
    || elim (leader key group s) [ none ↦ true | some (_, name) ↦ name == consumer ]

-- `State::registered`
unfoldable pub registered : Bytes → Bytes → Bytes → State → Bool
registered key group consumer s =
    any_stream (λ r. reads_group key group r && r.consumer == consumer) s.readers

reads_list : Bytes → Map ℕ Reader → Bool
reads_list key [] = false
reads_list key ((_, list_reader read_key _) ∷ rs) = read_key == key || reads_list key rs
reads_list key ((_, stream_reader _) ∷ rs) = reads_list key rs
reads_list key ((_, channel_reader _ _) ∷ rs) = reads_list key rs

-- `State::list_read`
unfoldable pub list_read : Bytes → State → Bool
unfolding reads_list
list_read key s = reads_list key s.readers

-- `entry(..).or_default()`
abbrev pub or_empty : {K V : Type 0} → Option (Map K V) → Map K V
or_empty none = []
or_empty (some m) = m

abbrev pub or_zero : Option ℕ → ℕ
or_zero none = 0
or_zero (some n) = n

-- `BTreeSet::extend`
unfoldable pub extend : Set EntryId → Set EntryId → Set EntryId
extend acc [] = acc
extend acc ((id, _) ∷ ids) = extend (insert id tt acc) ids

-- `a.difference(&b).count()`
unfoldable pub count_missing : Set EntryId → Set EntryId → ℕ
count_missing [] ys = 0
count_missing ((id, _) ∷ xs) ys =
    if contains_key id ys then count_missing xs ys else suc (count_missing xs ys)

-- The entries that the readers of a group are owed now.
unfoldable pub desired_entries : Server → Bytes → Bytes → State → Set EntryId
desired_entries server key group s =
    let readers = group_readers key group s in
    let fresh = if readers.fresh then extend [] (new_entries key group server.now s.keys) else [] in
    if readers.any
    then (if is_some readers.claim
        then extend fresh (or_empty (get (key, group) s.claim_due))
        else fresh)
    else []

-- `State::recount_group`
unfoldable pub recount_group : Server → Bytes → Bytes → State → State
recount_group server key group s =
    let desired = desired_entries server key group s in
    let owed = or_empty (get (key, group) s.stream_owed) in
    owe server (count_missing desired owed) (
      released server (count_missing owed desired)
        (record s { stream_owed = insert (key, group) desired s.stream_owed }))

-- `State::recount_list`
unfoldable pub recount_list : Server → Bytes → State → State
recount_list server key s =
    let desired = if list_read key s then list_len key server.now s.keys else 0 in
    let owed = or_zero (get key s.list_owed) in
    let s' = record s { list_owed = insert key desired s.list_owed } in
    if ltb desired owed then released server (owed - desired) s' else owe server (desired - owed) s'

-- `State::list_changed`
unfoldable pub list_changed : Server → Bytes → ℕ → ℕ → State → State
list_changed server key pushed popped s =
    let owed = or_zero (get key s.list_owed) + pushed in
    let transferred = min popped owed in
    if list_read key s
    then owe server (popped - transferred)
        (owe server pushed (record s { list_owed = insert key (owed - transferred) s.list_owed }))
    else s

abbrev pub or_nil : Option (List Write) → List Write
or_nil none = []
or_nil (some ws) = ws

-- `State::log`
unfoldable pub log : Bytes → Write → State → State
log name write s = record s {
  writes = insert (lossy name) (or_nil (get (lossy name) s.writes) ++ write ∷ []) s.writes;
}

-- Whether a message on a channel is one that a subscription listens to.
unfoldable pub reaches : Bytes → Bool → Subscription → Bool
reaches name true (sharded target) = target == name
reaches name false (channel target) = target == name
reaches name false (pattern_of glob) = matches glob name
reaches name _ _ = false

deliver : Bytes → Bytes → Bool → Map ℕ Reader → ℕ × Map ℕ Reader
deliver name message shard [] = (0, [])
deliver name message shard ((id, channel_reader target tx) ∷ rs) =
    let (reached, rs') = deliver name message shard rs in
    if reaches name shard target && tx.is_open
    then (
      suc reached,
      (id, channel_reader target (record tx { sent = tx.sent ++ (name, message) ∷ [] })) ∷ rs',
    )
    else (reached, (id, channel_reader target tx) ∷ rs')
deliver name message shard (r ∷ rs) =
    let (reached, rs') = deliver name message shard rs in (reached, r ∷ rs')

-- `State::publish`
unfoldable pub publish : Server → Bytes → Bytes → Bool → State → ℕ × State
unfolding deliver
publish server name message shard s =
    let s' = log name (body message) s in
    let (reached, readers) = deliver name message shard s'.readers in
    (reached, owe server reached (record s' { readers = readers }))
