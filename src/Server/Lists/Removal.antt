-- ===== src/Server/Lists/Removal.antt =====
-- `LREM` against a count of occurrences.
use ruststream_fred.Common.{
  ℕ, zero, suc, ◌+◌, ◌≤◌, ◌≡◌, refl, ap, ◌∙◌, true, List, [], ◌∷◌, arith, length, min,
  if◌then◌else◌,
}
use ruststream_fred.Common.Int.{ℤ, pos, negsuc}
use ruststream_fred.Common.Order.{◌==◌, bytes_ord}
use ruststream_fred.Server.Text.{Bytes}
use ruststream_fred.Server.Lists.{remove_front, remove_back, remove_values, remove_at, is_at}

-- How often a value stands in a list.
abbrev pub occurrences : Bytes → List Bytes → ℕ
occurrences value [] = 0
occurrences value (x ∷ xs) = let n = occurrences value xs in if x == value then suc n else n

-- The other values, in their order.
abbrev pub others : Bytes → List Bytes → List Bytes
others value [] = []
others value (x ∷ xs) = let rest = others value xs in if x == value then rest else x ∷ rest

-- What a removal of at most `limit` occurrences promises.
pub record Removes (limit : ℕ) (value : Bytes) (xs : List Bytes) (r : ℕ × List Bytes) : Type 0 where
  pub as_many : r.0 ≡ min limit (occurrences value xs)
  pub fewer : occurrences value r.1 + r.0 ≡ occurrences value xs
  pub rest_kept : others value r.1 ≡ others value xs

remove_front-Removes :
    (limit : ℕ) (value : Bytes) (xs : List Bytes)
    → Removes limit value xs (remove_front limit value xs)
unfolding remove_front
remove_front-Removes limit value [] = ground arith
remove_front-Removes zero value (x ∷ xs) = ground arith
remove_front-Removes (suc limit) value (x ∷ xs) =
    ground (arith, remove_front-Removes limit value xs, remove_front-Removes (suc limit) value xs)

-- Removing a value at a place where it stands.
occurrences-remove_at :
    (i : ℕ) (value : Bytes) (xs : List Bytes)
    → is_at i value xs ≡ true
    → occurrences value (remove_at i xs) + 1 ≡ occurrences value xs
occurrences-remove_at i value [] h = cc
occurrences-remove_at zero value (x ∷ xs) h = ground arith
occurrences-remove_at (suc i) value (x ∷ xs) h = ground (arith, occurrences-remove_at i value xs h)

others-remove_at :
    (i : ℕ) (value : Bytes) (xs : List Bytes)
    → is_at i value xs ≡ true
    → others value (remove_at i xs) ≡ others value xs
others-remove_at i value [] h = cc
others-remove_at zero value (x ∷ xs) h = ground arith
others-remove_at (suc i) value (x ∷ xs) h = ground (arith, others-remove_at i value xs h)

-- The occurrences before an index.
abbrev before : ℕ → Bytes → List Bytes → ℕ
before i value [] = 0
before zero value (x ∷ xs) = 0
before (suc i) value (x ∷ xs) = let n = before i value xs in if x == value then suc n else n

before-suc :
    (i : ℕ) (value : Bytes) (xs : List Bytes)
    → before (suc i) value xs
      ≡ (if is_at i value xs then before i value xs + 1 else before i value xs)
before-suc i value [] = refl
before-suc zero value (x ∷ []) = ground arith
before-suc zero value (x ∷ y ∷ xs) = ground arith
before-suc (suc i) value (x ∷ xs) = ground (arith, before-suc i value xs)

before-remove_at :
    (i : ℕ) (value : Bytes) (xs : List Bytes) → before i value (remove_at i xs) ≡ before i value xs
before-remove_at i value [] = refl
before-remove_at zero value (x ∷ []) = refl
before-remove_at zero value (x ∷ y ∷ xs) = refl
before-remove_at (suc i) value (x ∷ xs) = ground (arith, before-remove_at i value xs)

before_all : (value : Bytes) (xs : List Bytes) → before (length xs) value xs ≡ occurrences value xs
before_all value [] = refl
before_all value (x ∷ xs) = ground (arith, before_all value xs)

remove_back_parts :
    (at limit : ℕ) (value : Bytes) (xs : List Bytes)
    → ((remove_back at limit value xs).0 ≡ min limit (before at value xs))
      × (occurrences value (remove_back at limit value xs).1 + (remove_back at limit value xs).0
          ≡ occurrences value xs)
      × (others value (remove_back at limit value xs).1 ≡ others value xs)
unfolding remove_back
remove_back_parts zero limit value [] = ground arith
remove_back_parts zero limit value (x ∷ xs) = ground arith
remove_back_parts (suc at) zero value xs = ground arith
remove_back_parts (suc at) (suc limit) value xs = ground (
  arith,
  remove_back_parts at limit value (remove_at at xs),
  remove_back_parts at (suc limit) value xs,
  before-suc at value xs,
  before-remove_at at value xs,
  occurrences-remove_at at value xs,
  others-remove_at at value xs,
)

-- The number of removals that a count allows, on a list of some length.
abbrev pub limit_of : ℤ → ℕ → ℕ
limit_of (pos zero) len = len
limit_of (pos (suc n)) len = suc n
limit_of (negsuc n) len = suc n

-- `LREM` removes as many occurrences of the value as there are, at most its count (every one for a
-- count of zero), answers how many it removed, and leaves all other values in their order.
pub remove_values-Removes :
    (count : ℤ) (value : Bytes) (xs : List Bytes)
    → Removes (limit_of count (length xs)) value xs (remove_values count value xs)
unfolding remove_values
remove_values-Removes (pos zero) value xs = remove_front-Removes (length xs) value xs
remove_values-Removes (pos (suc n)) value xs = remove_front-Removes (suc n) value xs
remove_values-Removes (negsuc n) value xs =
    let parts = remove_back_parts (length xs) (suc n) value xs in
    record {
      as_many = parts.0 ∙ ap (min (suc n)) (before_all value xs);
      fewer = parts.1;
      rest_kept = parts.2;
    }

occurrences-le-length : (value : Bytes) (xs : List Bytes) → occurrences value xs ≤ length xs
occurrences-le-length value [] = omega arith
occurrences-le-length value (x ∷ xs) = ground (arith, occurrences-le-length value xs)

-- With a count of zero `LREM` leaves no occurrence of the value.
pub remove_values_all :
    (value : Bytes) (xs : List Bytes) → occurrences value (remove_values (pos 0) value xs).1 ≡ 0
remove_values_all value xs =
    let r = remove_values-Removes (pos 0) value xs in
    omega (arith, r.as_many, r.fewer, occurrences-le-length value xs)
