-- ===== src/Server/Lists/Ends.antt =====
-- A list as a queue: what is pushed at an end and popped at an end; index ranges.
use ruststream_fred.Common.{
  ℕ, zero, suc, ◌+◌, ◌-◌, ◌≤◌, ◌<◌, ◌≡◌, refl, sym, ◌∙◌, List, [], ◌∷◌, ◌++◌, Option, none, some,
  arith, length, take, drop, length-append,
}
use mathlib.Core.Path.{subst}
use native.Mathlib.Nat.{zero-add}
use mathlib.Core.List.{reverse, append_assoc, reverse-append}
use ruststream_fred.Common.Int.{ℤ, pos, negsuc, pos_part, neg_part, ◌≤ℤ◌}
use ruststream_fred.Server.Text.{Bytes}
use ruststream_fred.Server.Text.Decimal.{i64_max}
use ruststream_fred.Server.Lists.{
  End, left_end, right_end, pop_back, pop, push, push_all, pop_many, range, range_start, range_stop,
  clip, slice, trimmed,
}

pop_back-append : (xs : List Bytes) (x : Bytes) → pop_back (xs ++ x ∷ []) ≡ some (x, xs)
pop_back-append [] x = refl
pop_back-append (y ∷ ys) x = rw (pop_back-append ys x)

-- A value pushed at an end of a list is the next one popped there, and the list is then as before.
pub pop-push : (end : End) (x : Bytes) (xs : List Bytes) → pop end (push end x xs) ≡ some (x, xs)
unfolding pop push
pop-push left_end x xs = refl
pop-push right_end x xs = pop_back-append xs x

push_all-left : (vs xs : List Bytes) → push_all left_end vs xs ≡ reverse vs ++ xs
unfolding push_all push
push_all-left [] xs = refl
push_all-left (v ∷ vs) xs =
    push_all-left vs (v ∷ xs) ∙ simp (reverse-append (v ∷ []) vs, append_assoc)

pop_many_step :
    (n : ℕ) (xs : List Bytes) (y : Bytes) (ys : List Bytes)
    → pop_back xs ≡ some (y, ys)
    → pop_many right_end (suc n) xs ≡ (y ∷ (pop_many right_end n ys).0, (pop_many right_end n ys).1)
unfolding pop_many pop
pop_many_step n xs y ys e = ground arith

-- Popping everything at the right gives the list from its tail.
pop_many-right : (xs : List Bytes) → pop_many right_end (length xs) (reverse xs) ≡ (xs, [])
unfolding pop_many pop
pop_many-right [] = refl
pop_many-right (x ∷ xs) = rw (reverse-append (x ∷ []) xs) (
    pop_many_step (length xs) (reverse xs ++ x ∷ []) x (reverse xs) (pop_back-append (reverse xs) x)
    ∙ rw (pop_many-right xs) refl)

-- First in, first out: popping everything at the right of a list after pushing values at its left
-- gives what stood in it, from the right, and then the values in the order of the push.
pub pop_many-push_all :
    (vs xs : List Bytes)
    → pop_many right_end (length xs + length vs) (push_all left_end vs (reverse xs))
      ≡ (xs ++ vs, [])
pop_many-push_all vs xs =
    rw (push_all-left vs (reverse xs))
      (rw (← reverse-append xs vs) (rw (← length-append xs vs) (pop_many-right (xs ++ vs))))

range_start_nonneg : (start : ℤ) (len : ℕ) → pos 0 ≤ℤ range_start start len
unfolding range_start
range_start_nonneg start len = ground arith

range_stop_lt :
    (stop : ℤ) (len : ℕ) → pos_part (range_stop stop len) < len + neg_part (range_stop stop len)
unfolding range_stop
range_stop_lt stop len = ground arith

clip_within :
    (start stop : ℤ) (len from to : ℕ)
    → pos 0 ≤ℤ start
    → pos_part stop < len + neg_part stop
    → clip start stop len ≡ some (from, to)
    → (from ≤ to) × (to < len)
unfolding clip
clip_within start stop len from to h k e = ground arith

-- A range over a list of `len` elements that is not empty has its first index at or below its last,
-- and its last within the list.
pub range_within :
    (start stop : ℤ) (len from to : ℕ)
    → range start stop len ≡ some (from, to)
    → (from ≤ to) × (to < len)
unfolding range
range_within start stop len from to h = ground (
  arith,
  clip_within (range_start start len) (range_stop stop len) len from to
      (range_start_nonneg start len) (range_stop_lt stop len),
)

-- The range from 0 to -1 is the whole list.
pub range_whole :
    (len : ℕ) → 0 < len → len ≤ i64_max → range (pos 0) (negsuc 0) len ≡ some (0, len - 1)
unfolding range range_start range_stop clip
range_whole len h k = ground arith

take_nil : (m : ℕ) → ◌≡◌ {A = List Bytes} [] (take m [])
take_nil zero = refl
take_nil (suc m) = refl

drop-take : (from n : ℕ) (xs : List Bytes) → drop from (take (from + n) xs) ≡ take n (drop from xs)
drop-take zero n xs = rw zero-add refl
drop-take (suc from) n [] = let e : suc from + n ≡ suc (from + n) = omega arith in rw e (take_nil n)
drop-take (suc from) n (x ∷ xs) =
    let e : suc from + n ≡ suc (from + n) = omega arith in rw e (drop-take from n xs)

same_slice :
    (o : Option (ℕ × ℕ)) (xs : List Bytes)
    → ((from to : ℕ) → o ≡ some (from, to) → from ≤ to)
    → trimmed o xs ≡ slice xs o
same_slice none xs h = refl
same_slice (some (from, to)) xs h =
    let le : from ≤ to = h from to refl in
    let e : to + 1 ≡ from + (to + 1 - from) = omega arith in
    subst (λ n. drop from (take n xs) ≡ take (to + 1 - from) (drop from xs)) (sym e)
      (drop-take from (to + 1 - from) xs)

-- `LTRIM` leaves of a list exactly what `LRANGE` with the same ends would have answered.
pub trimmed-eq-slice :
    (start stop : ℤ) (xs : List Bytes)
    → trimmed (range start stop (length xs)) xs ≡ slice xs (range start stop (length xs))
trimmed-eq-slice start stop xs =
    same_slice (range start stop (length xs)) xs
      (λ from to e. (range_within start stop (length xs) from to e).0)
