-- ===== src/Server/Groups.antt =====
-- in_process/streams.rs: consumer groups, their pending entries and what is handed out.
pub mod Pel
pub mod Reads
use ruststream_fred.Common.{
  ℕ, zero, suc, ◌+◌, ◌-◌, ◌%◌, ◌^◌, Bool, true, false, ◌&&◌, ◌||◌, not, List, [], ◌∷◌, ◌++◌, Option,
  none, some, map, min, eqb, leb, ltb, length, take, is_nil, is_some, if◌then◌else◌,
}
use ruststream_fred.Common.Int.{ℤ, pos}
use ruststream_fred.Common.Order.{Ord, ◌==◌, ◌<?◌, nat_ord, bytes_ord, pair_ord}
use ruststream_fred.Common.Map.{Map, Set, get, insert, remove, contains_key, range_from}
use ruststream_fred.Server.Text.{Bytes}
use ruststream_fred.Server.Text.Decimal.{i64_max}
use ruststream_fred.Server.Value.{Value, integer, array, null, of_list}
use ruststream_fred.Server.State.{
  EntryId, Instant, Duration, Fields, Pending, Group, Stream, State, Server, Fire, claim_came_due,
  Slot, owe, released, schedule, as_millis,
}
use ruststream_fred.Server.Args.{int}
use ruststream_fred.Server.Keyspace.{streams, read, flat}
use ruststream_fred.Server.Counts.{next_id, or_empty, group_readers, registered}
use ruststream_fred.Server.Ids.{id_text}
use ruststream_fred.Server.Streams.{entry_value}

-- `millis`
abbrev pub millis : Duration → Value
millis d = integer (pos (min (as_millis d) i64_max))

-- A reply of `XREADGROUP`, and the ids that it claimed or delivered.
pub record Handout : Type 0 where
  pub group : Group
  pub replies : List Value
  pub ids : List EntryId

-- A pending entry delivered once more, to a consumer of its group.
unfoldable pub redelivered : Bytes → Instant → Pending → Pending
redelivered consumer now p = record {
  consumer = consumer;
  at = now;
  count = (p.count + 1) % 2 ^ 64;
}

-- The pending entries idle for long enough, with their idle times.
unfoldable pub idle_entries : Instant → Duration → Map EntryId Pending → List (EntryId × Duration)
idle_entries now min_idle [] = []
idle_entries now min_idle ((id, p) ∷ ps) =
    let rest = idle_entries now min_idle ps in
    if leb min_idle (now - p.at) then (id, now - p.at) ∷ rest else rest

-- `sort_by`: the longest idle first, then the lower id.
abbrev comes_before : EntryId × Duration → EntryId × Duration → Bool
comes_before (id, idle) (id', idle') = ltb idle' idle || (eqb idle idle' && id <? id')

insert_idle : EntryId × Duration → List (EntryId × Duration) → List (EntryId × Duration)
insert_idle e [] = e ∷ []
insert_idle e (f ∷ es) =
    let rest = insert_idle e es in if comes_before f e then f ∷ rest else e ∷ f ∷ es

unfoldable pub sort_idle : List (EntryId × Duration) → List (EntryId × Duration)
unfolding insert_idle
sort_idle [] = []
sort_idle (e ∷ es) = insert_idle e (sort_idle es)

abbrev claim_reply : EntryId → Fields → Duration → Pending → Value
claim_reply id entry idle p =
    array
      (of_list (entry_value id entry ++ (millis idle ∷ integer (pos (min p.count i64_max)) ∷ [])))

-- The loop of a claiming read over the stale entries: a deleted one leaves the list.
unfoldable pub claim_stale :
    Bytes → Instant → Map EntryId Fields → List (EntryId × Duration) → Group → Handout
claim_stale consumer now entries [] g = record { group = g; replies = []; ids = [] }
claim_stale consumer now entries ((id, idle) ∷ stale) g =
    let dropped =
      claim_stale consumer now entries stale (record g { pending = remove id g.pending }) in
    -- a stale entry is pending, so the inner `none` is never met
    elim (get id entries) [
      | none ↦ dropped
      | some entry ↦ elim (get id g.pending) [
        | none ↦ dropped
        | some p ↦
            let next =
              claim_stale consumer now entries stale
                (record g { pending = insert id (redelivered consumer now p) g.pending }) in
            record {
              group = next.group;
              replies = claim_reply id entry idle p ∷ next.replies;
              ids = id ∷ next.ids;
            }
      ]
    ]

abbrev fresh_reply : Bool → EntryId → Fields → Value
fresh_reply claims id entry = array (
    of_list
      (entry_value id entry ++ (if claims then integer (pos 0) ∷ integer (pos 0) ∷ [] else [])))

-- A new entry handed to a consumer: the cursor moves, and the entry is pending unless `NOACK`.
unfoldable pub deliver_entry : Bytes → Instant → Bool → EntryId → Group → Group
deliver_entry consumer now noack id g =
    let p : Pending = record { consumer = consumer; at = now; count = 1 } in
    record g { cursor = id; pending = if noack then g.pending else insert id p g.pending }

-- The loop over the new entries.
unfoldable pub deliver_fresh : Bytes → Instant → Bool → Bool → Map EntryId Fields → Group → Handout
deliver_fresh consumer now noack claims [] g = record { group = g; replies = []; ids = [] }
deliver_fresh consumer now noack claims ((id, entry) ∷ fresh) g =
    let next =
      deliver_fresh consumer now noack claims fresh (deliver_entry consumer now noack id g) in
    record {
      group = next.group;
      replies = fresh_reply claims id entry ∷ next.replies;
      ids = id ∷ next.ids;
    }

-- The pending entries of one consumer.
unfoldable pub owned_by : Bytes → Map EntryId Pending → Map EntryId Pending
owned_by consumer [] = []
owned_by consumer ((id, p) ∷ ps) =
    let rest = owned_by consumer ps in if p.consumer == consumer then (id, p) ∷ rest else rest

-- An entry of a consumer's history: a deleted one has no fields.
abbrev pub history_value : EntryId → Option Fields → Value
history_value id none = array (of_list (id_text id ∷ null ∷ []))
history_value id (some entry) = array (of_list (entry_value id entry))

-- The settled entries leave the pending list: those that were in it.
unfoldable pub ack_ids : List EntryId → Map EntryId Pending → List EntryId × Map EntryId Pending
ack_ids [] ps = ([], ps)
ack_ids (id ∷ ids) ps =
    let (acked, ps') = ack_ids ids (remove id ps) in
    ((if contains_key id ps then id ∷ acked else acked), ps')

abbrev pub forget_due : Slot → EntryId → State → State
forget_due slot id s = elim (get slot s.claim_due) [
  | none ↦ s
  | some due ↦ record s { claim_due = insert slot (remove id due) s.claim_due }
]

abbrev pub forget_owed : Slot → EntryId → State → State
forget_owed slot id s = elim (get slot s.stream_owed) [
  | none ↦ s
  | some owed ↦ record s { stream_owed = insert slot (remove id owed) s.stream_owed }
]

-- Whether an entry is counted as owed.
abbrev pub is_owed : Slot → EntryId → State → Bool
is_owed slot id s = contains_key id (or_empty (get slot s.stream_owed))

abbrev pub group_of : Bytes → Option Stream → Option Group
group_of group none = none
group_of group (some stream) = get group stream.groups

abbrev pub pending_at : EntryId → Option Group → Option Instant
pending_at id none = none
pending_at id (some g) = elim (get id g.pending) [ none ↦ none | some p ↦ some p.at ]

abbrev pub is_instant : Instant → Option Instant → Bool
is_instant at none = false
is_instant at (some held) = eqb held at

abbrev pub pending_of : Option Group → Map EntryId Pending
pending_of none = []
pending_of (some g) = g.pending

module _ (server : Server) where
  -- What `XACK` does to the counts for one acknowledged entry.
  unfoldable pub settle_entry : Slot → EntryId → State → State
  settle_entry slot id s =
      released server (if is_owed slot id s then 1 else 0)
        (forget_owed slot id (forget_due slot id s))

  unfoldable pub settle_entries : Slot → List EntryId → State → State
  settle_entries slot [] s = s
  settle_entries slot (id ∷ ids) s = settle_entries slot ids (settle_entry slot id s)

  -- What a hand-out does to the counts for one entry.
  unfoldable pub hand_out_entry : Slot → Bool → EntryId → State → State
  hand_out_entry slot is_registered id s =
      let owed = is_owed slot id s in
      owe server (if not owed && is_registered then 1 else 0) (
        released server (if owed && not is_registered then 1 else 0)
          (forget_owed slot id (forget_due slot id s)))

  unfoldable pub hand_out_entries : Slot → Bool → List EntryId → State → State
  hand_out_entries slot is_registered [] s = s
  hand_out_entries slot is_registered (id ∷ ids) s =
      hand_out_entries slot is_registered ids (hand_out_entry slot is_registered id s)

  -- One timer for each entry, to come due after the idle threshold.
  unfoldable pub time_claims : Bytes → Bytes → Duration → List EntryId → State → State
  time_claims key group min_idle [] s = s
  time_claims key group min_idle (id ∷ ids) s =
      time_claims key group min_idle ids
        (schedule min_idle (claim_came_due key group id server.now) s)

  abbrev pub time_if : Bool → Bytes → Bytes → Option Duration → List EntryId → State → State
  time_if noack key group none ids s = s
  time_if noack key group (some min_idle) ids s =
      if noack then s else time_claims key group min_idle ids s

  -- `State::handed_out`, of the claimed and the delivered entries.
  unfoldable pub handed_out : Bytes → Bytes → Bytes → List EntryId → Bool → State → State
  handed_out key group consumer ids noack s =
      let s' = hand_out_entries (key, group) (registered key group consumer s) ids s in
      time_if noack key group (group_readers key group s').claim ids s'

  -- `State::claim_came_due`
  unfoldable pub came_due : Bytes → Bytes → EntryId → Instant → State → State
  came_due key group id at s =
      let g = group_of group (flat (read streams key server.now s.keys)) in
      let due = or_empty (get (key, group) s.claim_due) in
      let s' = record s { claim_due = insert (key, group) (insert id tt due) s.claim_due } in
      let owed = or_empty (get (key, group) s'.stream_owed) in
      let readers = group_readers key group s' in
      if is_instant at (pending_at id g)
      then (if readers.any && is_some readers.claim
          then owe server (if contains_key id owed then 0 else 1)
              (record s' { stream_owed = insert (key, group) (insert id tt owed) s'.stream_owed })
          else s')
      else s

  unfoldable pub arm_each : Bytes → Bytes → Duration → Map EntryId Pending → State → State
  arm_each key group min_idle [] s = s
  arm_each key group min_idle ((id, p) ∷ ps) s = arm_each key group min_idle ps (
      if leb min_idle (server.now - p.at)
      then came_due key group id p.at s
      else schedule (min_idle - (server.now - p.at)) (claim_came_due key group id p.at) s)

  -- `State::arm_claims`
  unfoldable pub arm_claims : Bytes → Bytes → Duration → State → State
  arm_claims key group min_idle s =
      arm_each key group min_idle
        (pending_of (group_of group (flat (read streams key server.now s.keys)))) s
