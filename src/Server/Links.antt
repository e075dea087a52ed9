-- ===== src/Server/Links.antt =====
-- in_process/mod.rs and keyspace.rs: linked sets, whose due members are owed to a target.
pub mod Balance
use ruststream_fred.Common.{
  ◌+◌, ◌-◌, Bool, false, ◌&&◌, ◌||◌, not, [], ◌∷◌, Option, none, some, ltb, length, is_some,
  if◌then◌else◌,
}
use ruststream_fred.Common.Order.{◌==◌, nat_ord, bytes_ord, pair_ord}
use ruststream_fred.Common.Map.{Set, get, insert, remove, contains_key}
use ruststream_fred.Server.Text.{Bytes}
use ruststream_fred.Server.Value.{Double}
use ruststream_fred.Server.State.{Link, LinkKind, delay, recovery, State, Server, owe, released}
use ruststream_fred.Server.Keyspace.{zscore}
use ruststream_fred.Server.Counts.{any_stream, list_read, or_zero}

-- A held member that leaves its set: a delay queue's count waits for the `XADD` of its sweep.
abbrev passed_on : Server → LinkKind → Bytes → State → State
passed_on server delay target s = record s {
  readd_holds = insert target (or_zero (get target s.readd_holds) + 1) s.readd_holds;
}
passed_on server (recovery _) target s = released server 1 s

abbrev pub unlinked : Server → Bytes → Bytes → Option Link → State → State
unlinked server zset member none s = s
unlinked server zset member (some link) s =
    let was_held = contains_key member link.held in
    let link' = record link { due = remove member link.due; held = remove member link.held } in
    let s' = record s { links = insert zset link' s.links } in
    if was_held then passed_on server link.kind link.target s' else s'

-- `State::link_removed`
unfoldable pub link_removed : Server → Bytes → Bytes → State → State
link_removed server zset member s = unlinked server zset member (get zset s.links) s

abbrev pub dropped : Server → Bytes → Option Link → State → State
dropped server zset none s = s
dropped server zset (some link) s =
    released server (length link.held)
      (record s { links = insert zset (record link { due = []; held = [] }) s.links })

-- `State::link_dropped`
unfoldable pub link_dropped : Server → Bytes → State → State
link_dropped server zset s = dropped server zset (get zset s.links) s

-- Members that are still in the set.
unfoldable pub keep_members : (Bytes → Bool) → Set Bytes → Set Bytes
keep_members p [] = []
keep_members p ((m, _) ∷ ms) = let rest = keep_members p ms in if p m then (m, tt) ∷ rest else rest

abbrev pub pruned : Server → Bytes → Option Link → State → State
pruned server zset none s = s
pruned server zset (some link) s =
    let kept = λ (member : Bytes). is_some (zscore zset member server.now s.keys) in
    let held = keep_members kept link.held in
    released server (length link.held - length held) (record s {
      links = insert zset (record link { due = keep_members kept link.due; held = held }) s.links;
    })

-- `State::prune_link`
unfoldable pub prune_link : Server → Bytes → State → State
unfolding keep_members
prune_link server zset s = pruned server zset (get zset s.links) s

-- `State::added_back`
unfoldable pub added_back : Server → Bytes → State → State
added_back server key s =
    let held = or_zero (get key s.readd_holds) in
    if ltb 0 held
    then released server 1 (record s { readd_holds = insert key (held - 1) s.readd_holds })
    else s

abbrev pub same_score : Server → Double → Option Double → Bool
same_score server score none = false
same_score server score (some held) = server.doubles.equal held score

abbrev pub marked_due : Server → Bytes → Bytes → Option Link → State → State
marked_due server zset member none s = s
marked_due server zset member (some link) s =
    let read =
      list_read link.target s || any_stream (λ r. r.key == link.target && r.fresh) s.readers in
    let counted = read && (server.has_coordinator && not (contains_key member link.held)) in
    let held = if read && server.has_coordinator then insert member tt link.held else link.held in
    owe server (if counted then 1 else 0) (record s {
      links = insert zset (record link { due = insert member tt link.due; held = held }) s.links;
    })

-- `State::link_due`
unfoldable pub link_due : Server → Bytes → Bytes → Double → State → State
link_due server zset member score s =
    if same_score server score (zscore zset member server.now s.keys)
    then marked_due server zset member (get zset s.links) s
    else s
