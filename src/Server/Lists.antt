-- ===== src/Server/Lists.antt =====
-- in_process/lists.rs: the ends of a list, ranges of it, and the removal of values.
pub mod Ends
pub mod Removal
pub mod Commands
use ruststream_fred.Common.{
  ℕ, zero, suc, ◌+◌, ◌-◌, Bool, true, false, ◌||◌, List, [], ◌∷◌, ◌++◌, Option, none, some, map,
  eqb, leb, ltb, length, take, drop, get_elem?, is_nil, if◌then◌else◌,
}
use ruststream_fred.Common.Int.{ℤ, pos, negsuc, ◌+ℤ◌, ltb_ℤ, leb_ℤ, pos_part}
use ruststream_fred.Common.Order.{Ord, ◌==◌, bytes_ord}
use ruststream_fred.Server.Text.{Bytes, b}
use ruststream_fred.Server.Text.Decimal.{i64_max}
use ruststream_fred.Server.Value.{Value, array, null, of_list, Error, syntax, not_integer, panic}
use ruststream_fred.Server.State.{State, Server, Write, body}
use ruststream_fred.Server.Exec.{Exec, ◌>>=◌, ◌>>◌, pure, refuse, lift, reads, change, required}
use ruststream_fred.Server.Args.{
  left, refuse_arity, done, word, next_bytes, next_int, next_float, rest, ok_reply, int, bulk,
  bulk_or_null, to_usize, unsigned_abs,
}
use ruststream_fred.Server.Keyspace.{lists, read, write, store, drop_empty}
use ruststream_fred.Server.Counts.{log, list_changed, recount_list}

-- `enum End`
pub data End : Type 0 where
  left_end right_end : End

-- `VecDeque::pop_back`
abbrev pub pop_back : List Bytes → Option (Bytes × List Bytes)
pop_back [] = none
pop_back (x ∷ xs) = elim (pop_back xs) [ none ↦ some (x, []) | some (y, ys) ↦ some (y, x ∷ ys) ]

-- `End::pop`
unfoldable pub pop : End → List Bytes → Option (Bytes × List Bytes)
pop left_end [] = none
pop left_end (x ∷ xs) = some (x, xs)
pop right_end xs = pop_back xs

-- `End::push`
unfoldable pub push : End → Bytes → List Bytes → List Bytes
push left_end value xs = value ∷ xs
push right_end value xs = xs ++ value ∷ []

unfoldable pub push_all : End → List Bytes → List Bytes → List Bytes
push_all end [] xs = xs
push_all end (v ∷ vs) xs = push_all end vs (push end v xs)

-- `from_fn(|| end.pop(list)).take(count)`: what was popped, in order, and what is left.
unfoldable pub pop_many : End → ℕ → List Bytes → List Bytes × List Bytes
pop_many end zero xs = ([], xs)
pop_many end (suc n) xs = elim (pop end xs) [
  | none ↦ ([], xs)
  | some (y, ys) ↦ (y ∷ (pop_many end n ys).0, (pop_many end n ys).1)
]

-- The first index of a range, and its last one before the clip.
unfoldable pub range_start : ℤ → ℕ → ℤ
range_start start len = if ltb_ℤ start (pos 0) then pos (pos_part (pos len +ℤ start)) else start

unfoldable pub range_stop : ℤ → ℕ → ℤ
range_stop stop len =
    let last = pos len +ℤ negsuc 0 in
    if ltb_ℤ stop (pos 0) then pos len +ℤ stop else if leb_ℤ stop last then stop else last

unfoldable pub clip : ℤ → ℤ → ℕ → Option (ℕ × ℕ)
clip start stop len =
    if ltb_ℤ stop start || (leb_ℤ (pos len) start || ltb_ℤ stop (pos 0))
    then none
    else some (pos_part start, pos_part stop)

-- `range`
unfoldable pub range : ℤ → ℤ → ℕ → Option (ℕ × ℕ)
range start stop len =
    if ltb i64_max len then none else clip (range_start start len) (range_stop stop len) len

-- The loop of `remove_values` from the head, with the removals still allowed.
unfoldable pub remove_front : ℕ → Bytes → List Bytes → ℕ × List Bytes
remove_front limit value [] = (0, [])
remove_front zero value (x ∷ xs) = (0, x ∷ xs)
remove_front (suc limit) value (x ∷ xs) =
    let (n, ys) = remove_front limit value xs in
    let (m, zs) = remove_front (suc limit) value xs in
    if x == value then (suc n, ys) else (m, x ∷ zs)

abbrev pub remove_at : ℕ → List Bytes → List Bytes
remove_at i [] = []
remove_at zero (x ∷ xs) = xs
remove_at (suc i) (x ∷ xs) = x ∷ remove_at i xs

abbrev pub is_at : ℕ → Bytes → List Bytes → Bool
is_at i value [] = false
is_at zero value (x ∷ xs) = x == value
is_at (suc i) value (x ∷ xs) = is_at i value xs

-- The loop from the tail: `at` falls, and so do the removals still allowed.
unfoldable pub remove_back : ℕ → ℕ → Bytes → List Bytes → ℕ × List Bytes
remove_back zero limit value xs = (0, xs)
remove_back (suc at) zero value xs = (0, xs)
remove_back (suc at) (suc limit) value xs =
    let (n, ys) = remove_back at limit value (remove_at at xs) in
    let (m, zs) = remove_back at (suc limit) value xs in
    if is_at at value xs then (suc n, ys) else (m, zs)

-- `remove_values`: no list is longer than `usize::MAX`, so with no limit its length is one.
unfoldable pub remove_values : ℤ → Bytes → List Bytes → ℕ × List Bytes
remove_values (pos zero) value xs = remove_front (length xs) value xs
remove_values (pos (suc n)) value xs = remove_front (suc n) value xs
remove_values (negsuc n) value xs = remove_back (length xs) (suc n) value xs

abbrev pub init : List Bytes → List Bytes
init [] = []
init (x ∷ []) = []
init (x ∷ y ∷ ys) = x ∷ init (y ∷ ys)

unfoldable pub log_all : Bytes → List Bytes → State → State
log_all key [] s = s
log_all key (v ∷ vs) s = log_all key vs (log key (body v) s)

abbrev pub list_or_nil : Option (List Bytes) → List Bytes
list_or_nil none = []
list_or_nil (some xs) = xs

abbrev pub slice : List Bytes → Option (ℕ × ℕ) → List Bytes
slice xs none = []
slice xs (some (from, to)) = take (to + 1 - from) (drop from xs)

-- `truncate(to + 1)`, then `drain(..from)`
abbrev pub trimmed : Option (ℕ × ℕ) → List Bytes → List Bytes
trimmed none xs = []
trimmed (some (from, to)) xs = drop from (take (to + 1) xs)

abbrev pub trimmed_of : ℤ → ℤ → Option (List Bytes) → Option (List Bytes)
trimmed_of start stop none = none
trimmed_of start stop (some xs) = some (trimmed (range start stop (length xs)) xs)
