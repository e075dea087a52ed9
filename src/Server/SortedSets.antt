-- ===== src/Server/SortedSets.antt =====
-- in_process/keyspace.rs: sorted sets and the ends of a range of scores.
use ruststream_fred.Common.{
  ℕ, suc, Bool, true, false, ◌&&◌, ◌||◌, not, List, [], ◌∷◌, Option, none, some, eqb, ◌-◌,
  if◌then◌else◌,
}
use ruststream_fred.Common.Order.{◌<?◌, bytes_ord}
use ruststream_fred.Common.Map.{Map, get, insert, remove, contains_key}
use ruststream_fred.Server.Text.{Bytes}
use ruststream_fred.Server.Value.{Value, Double, Doubles, double, integer, bound_not_float}
use ruststream_fred.Server.State.{
  State, Server, Link, LinkKind, delay, recovery, now_ms, schedule, link_due, from_millis,
  as_millis,
}
use ruststream_fred.Server.Exec.{Result, ok, err}
use ruststream_fred.Server.Args.{float_text, bulk}
use ruststream_fred.Server.Links.{link_removed}

-- `struct Bound`
pub record Bound : Type 0 where
  pub score : Double
  pub exclusive : Bool

-- `score >= x` of doubles; false where either is no number.
abbrev pub at_least : Doubles → Double → Double → Bool
at_least doubles x y = doubles.less y x || doubles.equal x y

-- `Bound::below`: whether a score lies above this lower end.
unfoldable pub below : Doubles → Bound → Double → Bool
below doubles end score =
    if end.exclusive then doubles.less end.score score else at_least doubles score end.score

-- `Bound::above`
unfoldable pub above : Doubles → Bound → Double → Bool
above doubles end score =
    if end.exclusive then doubles.less score end.score else at_least doubles end.score score

-- `strip_prefix('(')`
abbrev pub opened : Bytes → Bool × Bytes
opened [] = (false, [])
opened (c ∷ cs) = if eqb c b'(' then (true, cs) else (false, c ∷ cs)

abbrev pub bound_of : Bool → Result Double → Result Bound
bound_of exclusive (ok score) = ok (record { score = score; exclusive = exclusive })
bound_of exclusive (err e) = err bound_not_float

-- `Args::peek`: whether the next argument is a number already.
abbrev pub is_number : List Value → Bool
is_number (double d ∷ vs) = true
is_number (integer n ∷ vs) = true
is_number _ = false

-- The members whose score lies between the ends.
unfoldable pub scored_within : Doubles → Bound → Bound → Map Bytes Double → Map Bytes Double
scored_within doubles min max [] = []
scored_within doubles min max ((m, score) ∷ ms) =
    let rest = scored_within doubles min max ms in
    if below doubles min score && above doubles max score then (m, score) ∷ rest else rest

-- The order of a range: by score, then by member.
abbrev precedes : Doubles → Bytes × Double → Bytes × Double → Bool
precedes doubles (m, x) (n, y) = doubles.total_less x y || (eqb x y && m <? n)

insert_scored : Doubles → Bytes × Double → List (Bytes × Double) → List (Bytes × Double)
insert_scored doubles e [] = e ∷ []
insert_scored doubles e (f ∷ es) =
    let rest = insert_scored doubles e es in if precedes doubles f e then f ∷ rest else e ∷ f ∷ es

unfoldable pub sort_scored : Doubles → List (Bytes × Double) → List (Bytes × Double)
unfolding insert_scored
sort_scored doubles [] = []
sort_scored doubles (e ∷ es) = insert_scored doubles e (sort_scored doubles es)

unfoldable pub scored_reply : Doubles → Bool → List (Bytes × Double) → List Value
scored_reply doubles scores [] = []
scored_reply doubles scores ((m, score) ∷ ms) =
    let rest = scored_reply doubles scores ms in
    bulk m ∷ (if scores then bulk (float_text doubles score) ∷ rest else rest)

-- The members that were there, taken out one by one.
unfoldable pub take_members : List Bytes → Map Bytes Double → List Bytes × Map Bytes Double
take_members [] set = ([], set)
take_members (m ∷ ms) set =
    let (gone, left_over) = take_members ms (remove m set) in
    ((if contains_key m set then m ∷ gone else gone), left_over)

pub record AddOptions : Type 0 where
  pub only_new : Bool
  pub only_old : Bool
  pub changed : Bool
  pub greater : Bool
  pub less : Bool

-- Whether `ZADD` writes a score over the one that a member holds, or to a new member.
unfoldable pub writes_score : Doubles → AddOptions → Double → Option Double → Bool
writes_score doubles o score none = not o.only_old
writes_score doubles o score (some held) =
    not o.only_new
    && not (doubles.equal held score)
    && (not o.greater || doubles.less held score)
    && (not o.less || doubles.less score held)

-- What the loop of `ZADD` adds up: new members, other members written, and all written in order.
pub record Added : Type 0 where
  pub set : Map Bytes Double
  pub added : ℕ
  pub updated : ℕ
  pub written : List (Bytes × Double)

unfoldable pub add_scored : Doubles → AddOptions → List (Double × Bytes) → Map Bytes Double → Added
add_scored doubles o [] set = record { set = set; added = 0; updated = 0; written = [] }
add_scored doubles o ((score, m) ∷ more) set =
    let held = get m set in
    let skipped = add_scored doubles o more set in
    let rest = add_scored doubles o more (insert m score set) in
    if writes_score doubles o score held
    then record {
      set = rest.set;
      added = if contains_key m set then rest.added else suc rest.added;
      updated = if contains_key m set then suc rest.updated else rest.updated;
      written = (m, score) ∷ rest.written;
    }
    else skipped

-- When a member of a linked set comes due, in epoch milliseconds.
abbrev due_ms : Server → LinkKind → Double → ℕ
due_ms server delay score = server.doubles.to_millis score
due_ms server (recovery min_idle) score =
    server.doubles.to_millis
      (server.doubles.plus score (server.doubles.of_millis (as_millis min_idle)))

abbrev pub armed : Server → Bytes → Bytes → Double → Option Link → State → State
armed server zset member score none s = s
armed server zset member score (some link) s =
    schedule (from_millis (due_ms server link.kind score - now_ms server))
      (link_due zset member score) s

-- `State::arm_link`
unfoldable pub arm_link : Server → Bytes → Bytes → Double → State → State
arm_link server zset member score s = armed server zset member score (get zset s.links) s

unfoldable pub arm_links : Server → Bytes → List (Bytes × Double) → State → State
arm_links server zset [] s = s
arm_links server zset ((m, score) ∷ ms) s =
    arm_links server zset ms (arm_link server zset m score s)

unfoldable pub remove_links : Server → Bytes → List Bytes → State → State
remove_links server zset [] s = s
remove_links server zset (m ∷ ms) s = remove_links server zset ms (link_removed server zset m s)
