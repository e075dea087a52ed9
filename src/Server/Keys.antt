-- ===== src/Server/Keys.antt =====
-- in_process/keyspace.rs: the commands on keys and on strings.
use ruststream_fred.Common.{
  ℕ, zero, suc, ◌+◌, ◌-◌, ◌*◌, ◌/◌, Bool, true, false, ◌&&◌, List, [], ◌∷◌, Option, none, some, leb,
  min, is_some, if◌then◌else◌,
}
use ruststream_fred.Common.Int.{ℤ, pos, negsuc, ◌+ℤ◌}
use ruststream_fred.Common.Order.{bytes_ord, pair_ord}
use ruststream_fred.Common.Map.{remove, keys, contains_key}
use ruststream_fred.Server.Text.{Bytes}
use ruststream_fred.Server.Text.Decimal.{i64_max, parse_i64}
use ruststream_fred.Server.Value.{Value, not_integer, invalid_expiry}
use ruststream_fred.Server.State.{
  Data, State, Server, Instant, from_millis, as_millis, schedule, prune_link,
}
use ruststream_fred.Server.Exec.{Exec, Result, ok, err, ◌>>=◌, ◌>>◌, pure, reads, change}
use ruststream_fred.Server.Args.{text_of, int, bulk}
use ruststream_fred.Server.Keyspace.{purge, take_out, exists, expiry, set_expires}
use ruststream_fred.Server.Counts.{group_names, recount_group, recount_list}
use ruststream_fred.Server.Links.{link_dropped}

-- `checked_add` and `checked_neg` of an `i64`, and `saturating_mul(1000)`
abbrev pub fits : ℤ → Option ℤ
fits (pos n) = if leb n i64_max then some (pos n) else none
fits (negsuc n) = if leb n i64_max then some (negsuc n) else none

abbrev pub checked_add : ℤ → ℤ → Option ℤ
checked_add a c = fits (a +ℤ c)

abbrev pub negated : ℤ → ℤ
negated (pos zero) = pos 0
negated (pos (suc n)) = negsuc n
negated (negsuc n) = pos (n + 1)

abbrev pub thousandfold : ℤ → ℤ
thousandfold (pos n) = pos (min (n * 1000) i64_max)
thousandfold (negsuc n) = negsuc (min ((n + 1) * 1000 - 1) i64_max)

-- What a value that is counted holds: the number in its text, or zero where there is none.
abbrev pub number_in : Server → Option Bytes → Result ℤ
number_in server none = ok (pos 0)
number_in server (some x) = elim (text_of server.doubles (bulk x)) [
  | err e ↦ err e
  | ok text ↦ elim (parse_i64 text) [ none ↦ err not_integer | some n ↦ ok n ]
]

-- A flag as a count.
abbrev pub flag : Bool → Value
flag is_set = int (if is_set then 1 else 0)

-- The groups of a stream that goes: what was claimable of them is forgotten, and what was owed
-- released.
unfoldable pub drop_groups : Server → Bytes → List Bytes → State → State
drop_groups server key [] s = s
drop_groups server key (group ∷ groups) s =
    drop_groups server key groups
      (recount_group server key group (record s { claim_due = remove (key, group) s.claim_due }))

abbrev pub forget_data : Server → Bytes → Data → State → State
forget_data server key (Data.list xs) s = recount_list server key s
forget_data server key (Data.zset m) s = link_dropped server key s
forget_data server key (Data.stream held) s = drop_groups server key (group_names held) s
forget_data server key _ s = s

abbrev pub forget_taken : Server → Bytes → Option Data → State → State
forget_taken server key none s = s
forget_taken server key (some d) s = forget_data server key d s

-- `delete`: whether there was a key, and what it leaves.
unfoldable pub delete : Server → Bytes → State → Bool × State
delete server key s =
    let (taken, kept) = take_out key server.now s.keys in
    (is_some taken, forget_taken server key taken (record s { keys = kept }))

unfoldable pub delete_all : Server → List Bytes → State → ℕ × State
delete_all server [] s = (0, s)
delete_all server (key ∷ keys) s =
    let (was, s') = delete server key s in
    let (n, s'') = delete_all server keys s' in ((if was then suc n else n), s'')

-- The part of `expire` for a positive time.
unfoldable pub arm_expiry : Server → Bytes → ℕ → State → Bool × State
arm_expiry server key millis s =
    let kept = purge key server.now s.keys in
    let armed = is_some (expiry key kept) in
    let wait = from_millis millis in
    let s' = record s { keys = set_expires key (some (server.now + wait)) kept } in
    (armed, if armed && contains_key key s.links then schedule wait (prune_link key) s' else s')

-- `expire`
unfoldable pub expire : Server → Bytes → ℤ → State → Bool × State
expire server key (pos (suc n)) s = arm_expiry server key (suc n) s
expire server key _ s = delete server key s

-- `positive_expiry`
abbrev pub positive_expiry : ℤ → Result ℕ
positive_expiry (pos (suc n)) = ok (suc n)
positive_expiry _ = err invalid_expiry

pub record SetOptions : Type 0 where
  pub only_new : Bool
  pub only_old : Bool
  pub answer_old : Bool
  pub keep_ttl : Bool
  pub expires : Option Instant

abbrev pub count_exists : Instant → List Bytes → State → ℕ
count_exists now [] s = 0
count_exists now (key ∷ keys) s =
    let n = count_exists now keys s in if exists key now s.keys then suc n else n

-- A change of the state that answers too.
unfoldable pub change_with : {A : Type 0} → (State → A × State) → Exec A
change_with f = do a ← reads (λ s. (f s).0); change (λ s. (f s).1); pure a

-- The milliseconds or seconds left of an expiry, `-1` of a key that has none, `-2` of no key.
abbrev pub time_left : Bool → Instant → Option (Option Instant) → ℤ
time_left seconds now none = negsuc 1
time_left seconds now (some none) = negsuc 0
time_left seconds now (some (some at)) =
    pos (min (if seconds then (at - now) / 1_000_000_000 else as_millis (at - now)) i64_max)

abbrev pub has_expiry : Option (Option Instant) → Bool
has_expiry (some (some at)) = true
has_expiry _ = false

abbrev pub expiry_or_none : Option (Option Instant) → Option Instant
expiry_or_none none = none
expiry_or_none (some at) = at

abbrev pub is_refused : {A : Type 0} → Result A → Bool
is_refused (ok a) = false
is_refused (err e) = true
