-- ===== src/Common/Map.antt =====
-- `HashMap`, `BTreeMap` and `BTreeSet`: an association list in key order. A `HashMap` promises no
-- order of iteration, so the key order is one it may take.
pub mod Sorted
use Prim.Native.Nat.Ordering.{lt, eq, gt}
use mathlib.Core.Bool.{Bool, true, false, not}
use mathlib.Core.List.{List, [], ◌∷◌, map}
use mathlib.Core.Option.{Option, none, some}
use mathlib.Core.Path.{◌≡◌, refl}
use native.Mathlib.Omega.{arith}
use ruststream_fred.Common.Tests.{if◌then◌else◌, is_some}
use ruststream_fred.Common.Order.{Ord, ◌==◌, ◌<?◌}

abbrev pub Map : Type 0 → Type 0 → Type 0
Map K V = List (K × V)

-- A `BTreeSet`.
abbrev pub Set : Type 0 → Type 0
Set K = Map K (Unit {0})

module _ {K V : Type 0} ⦃o : Ord K⦄ where
  unfoldable pub get : K → Map K V → Option V
  get k [] = none
  get k ((j, w) ∷ m) = if j == k then some w else get k m

  abbrev pub contains_key : K → Map K V → Bool
  contains_key k m = is_some (get k m)

  unfoldable pub insert : K → V → Map K V → Map K V
  insert k v [] = (k, v) ∷ []
  insert k v ((j, w) ∷ m) = elim (o.cmp k j) [
    | lt ↦ (k, v) ∷ (j, w) ∷ m
    | eq ↦ (k, v) ∷ m
    | gt ↦ (j, w) ∷ insert k v m
  ]

  unfoldable pub remove : K → Map K V → Map K V
  remove k [] = []
  remove k ((j, w) ∷ m) = let rest = remove k m in if j == k then rest else (j, w) ∷ rest

  -- `range(k..)`
  unfoldable pub range_from : K → Map K V → Map K V
  range_from k [] = []
  range_from k ((j, w) ∷ m) = let rest = range_from k m in if j <? k then rest else (j, w) ∷ rest

  -- `range(..=k)`
  unfoldable pub range_to : K → Map K V → Map K V
  range_to k [] = []
  range_to k ((j, w) ∷ m) = let rest = range_to k m in if k <? j then rest else (j, w) ∷ rest

  abbrev pub keys : Map K V → List K
  keys [] = []
  keys ((j, w) ∷ m) = j ∷ keys m

  pub get-insert :
      (k j : K) (v : V) (m : Map K V) → get j (insert k v m) ≡ (if k == j then some v else get j m)
  unfolding get insert
  get-insert k j v [] = refl
  get-insert k j v ((i, w) ∷ m) = ground (
    arith,
    get-insert k j v m,
    o.eq_of_cmp k i,
    o.eq_of_cmp k j,
    o.eq_of_cmp i j,
    o.cmp_self j,
    o.cmp_swap k i,
  )

  pub get-remove : (k j : K) (m : Map K V) → get j (remove k m) ≡ (if k == j then none else get j m)
  unfolding get remove
  get-remove k j [] = ground arith
  get-remove k j ((i, w) ∷ m) =
      ground
        (arith, get-remove k j m, o.eq_of_cmp i k, o.eq_of_cmp k j, o.eq_of_cmp i j, o.cmp_self j)

  pub get-insert_self : (k : K) (v : V) (m : Map K V) → get k (insert k v m) ≡ some v
  get-insert_self k v m = simp (get-insert, o.cmp_self)

  pub get-remove_self : (k : K) (m : Map K V) → get k (remove k m) ≡ none
  get-remove_self k m = simp (get-remove, o.cmp_self)
