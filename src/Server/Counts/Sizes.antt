-- ===== src/Server/Counts/Sizes.antt =====
-- Sizes of sets and of maps of sets: what a difference of two sets and an update count.
use ruststream_fred.Common.{
  ℕ, ◌+◌, ◌≡◌, refl, [], ◌∷◌, Option, none, some, arith, length, inl, inr, Bool-cases,
}
use ruststream_fred.Common.Order.{Ord, ◌==◌, pair_ord, nat_ord}
use ruststream_fred.Common.Map.{Map, Set, get, insert, remove, get-remove}
use ruststream_fred.Common.Map.Sorted.{
  IsSorted, Above-trans, get-Above, length-remove, remove-IsSorted, insert-IsSorted,
}
use mathlib.Core.Path.{subst}
use ruststream_fred.Server.State.{EntryId}
use ruststream_fred.Server.Counts.{count_missing, extend}

pub extend-IsSorted : (acc ids : Set EntryId) → IsSorted acc → IsSorted (extend acc ids)
unfolding extend
extend-IsSorted acc [] s = s
extend-IsSorted acc ((id, u) ∷ ids) s =
    extend-IsSorted (insert id tt acc) ids (insert-IsSorted id tt acc s)

-- An element outside `xs` plays no part in what is missing of `xs`.
count_missing-remove_right :
    (id : EntryId) (xs ys : Set EntryId)
    → get id xs ≡ none
    → count_missing xs (remove id ys) ≡ count_missing xs ys
unfolding count_missing get
count_missing-remove_right id [] ys h = refl
count_missing-remove_right id ((j, u) ∷ xs) ys h = ground (
  arith,
  count_missing-remove_right id xs ys,
  get-remove id j ys,
  (pair_ord {A = ℕ} {B = ℕ}).eq_of_cmp id j,
  (pair_ord {A = ℕ} {B = ℕ}).cmp_self j,
)

-- What is missing of a set with one more element is what is missing once that one is removed.
count_missing-cons_right :
    (id : EntryId) (xs ys : Set EntryId)
    → count_missing xs ((id, tt) ∷ ys) ≡ count_missing (remove id xs) ys
unfolding count_missing get remove
count_missing-cons_right id [] ys = refl
count_missing-cons_right id ((j, u) ∷ xs) ys = ground (
  arith,
  count_missing-cons_right id xs ys,
  (pair_ord {A = ℕ} {B = ℕ}).eq_of_cmp id j,
  (pair_ord {A = ℕ} {B = ℕ}).eq_of_cmp j id,
  (pair_ord {A = ℕ} {B = ℕ}).cmp_self j,
)

count_missing_nil : (xs : Set EntryId) → count_missing xs [] ≡ length xs
unfolding count_missing get
count_missing_nil [] = refl
count_missing_nil ((j, u) ∷ xs) = omega (arith, count_missing_nil xs)

-- Of two sets, the one and what it misses of the other are as many as the other and what that
-- misses of the one: both are the size of the union.
pub count_missing_union :
    (xs ys : Set EntryId)
    → IsSorted xs
    → IsSorted ys
    → length xs + count_missing ys xs ≡ length ys + count_missing xs ys
unfolding count_missing
count_missing_union [] ys s t = omega (arith, count_missing_nil ys)
count_missing_union ((id, u) ∷ xs) ys s t = rw (count_missing-cons_right id ys xs) (
    ground (
      arith,
      count_missing_union xs (remove id ys) s.1 (remove-IsSorted id ys t),
      count_missing-remove_right id xs ys (get-Above id xs s.0),
      length-remove id ys t,
    ))

-- A sum over the values of a map.
abbrev pub sum_by : {K V : Type 0} → (V → ℕ) → Map K V → ℕ
sum_by f [] = 0
sum_by f ((k, v) ∷ m) = f v + sum_by f m

abbrev pub measure : {V : Type 0} → (V → ℕ) → Option V → ℕ
measure f none = 0
measure f (some v) = f v

module _ {K V : Type 0} ⦃o : Ord K⦄ where
  -- An insertion takes the old value out of the sum and puts the new one in.
  pub sum_by-insert :
      (f : V → ℕ) (k : K) (v : V) (m : Map K V)
      → IsSorted m
      → sum_by f (insert k v m) + measure f (get k m) ≡ sum_by f m + f v
  unfolding insert get
  sum_by-insert f k v [] s = omega arith
  sum_by-insert f k v ((i, w) ∷ m) s = ground (
    arith,
    sum_by-insert f k v m s.1,
    o.cmp_swap k i,
    get-Above k m,
    Above-trans k i m,
    o.eq_of_cmp k i,
    o.eq_of_cmp i k,
  )

  -- Every value satisfies `P`.
  abbrev pub AllValues : (V → Type 0) → Map K V → Type 0
  AllValues P [] = Unit
  AllValues P ((k, v) ∷ m) = P v × AllValues P m

  pub AllValues-insert :
      (P : V → Type 0) (k : K) (v : V) (m : Map K V)
      → P v
      → AllValues P m
      → AllValues P (insert k v m)
  unfolding insert
  AllValues-insert P k v [] p a = (p, tt)
  AllValues-insert P k v ((i, w) ∷ m) p a = ground (arith, AllValues-insert P k v m p a.1)

  pub AllValues-remove :
      (P : V → Type 0) (k : K) (m : Map K V) → AllValues P m → AllValues P (remove k m)
  unfolding remove
  AllValues-remove P k [] a = tt
  AllValues-remove P k ((i, w) ∷ m) a = ground (arith, AllValues-remove P k m a.1)

  pub AllValues-get :
      (P : V → Type 0) (k : K) (m : Map K V) {v : V} → AllValues P m → get k m ≡ some v → P v
  unfolding get
  AllValues-get P k [] a h = cc
  AllValues-get P k ((i, w) ∷ m) a h = elim (Bool-cases (i == k)) [
    | inl e ↦ subst P (cc) a.0
    | inr e ↦ AllValues-get P k m a.1 (ground arith)
  ]
