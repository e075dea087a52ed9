-- ===== src/Common/Map/Sorted.antt =====
-- The keys of an ordered map rise, so each stands once; sizes follow.
use ruststream_fred.Common.Map.{Map, get, insert, remove, contains_key}
use Prim.Native.Nat.{◌+◌}
use mathlib.Core.List.{[], ◌∷◌}
use mathlib.Core.Option.{none, some}
use mathlib.Core.Path.{◌≡◌, refl}
use native.Mathlib.Omega.{arith}
use ruststream_fred.Common.Tests.{if◌then◌else◌}
use ruststream_fred.Common.Lists.{length}
use ruststream_fred.Common.Order.{Ord, ◌≺◌}

module _ {K V : Type 0} ⦃o : Ord K⦄ where
  -- Every key of `m` lies above `k`.
  abbrev pub Above : K → Map K V → Type 0
  Above k [] = Unit
  Above k ((j, w) ∷ m) = (k ≺ j) × Above k m

  abbrev pub IsSorted : Map K V → Type 0
  IsSorted [] = Unit
  IsSorted ((j, w) ∷ m) = Above j m × IsSorted m

  pub Above-trans : (k j : K) (m : Map K V) → k ≺ j → Above j m → Above k m
  Above-trans k j [] h a = tt
  Above-trans k j ((i, w) ∷ m) h a = (o.cmp_trans k j i h a.0, Above-trans k j m h a.1)

  -- A key below every key is not in the map.
  pub get-Above : (k : K) (m : Map K V) → Above k m → get k m ≡ none
  unfolding get
  get-Above k [] a = refl
  get-Above k ((i, w) ∷ m) a = ground (arith, get-Above k m a.1, o.cmp_swap k i)

  Above-insert : (j k : K) (v : V) (m : Map K V) → j ≺ k → Above j m → Above j (insert k v m)
  unfolding insert
  Above-insert j k v [] h a = (h, tt)
  Above-insert j k v ((i, w) ∷ m) h a = ground (arith, Above-insert j k v m h a.1)

  pub Above-remove : (j k : K) (m : Map K V) → Above j m → Above j (remove k m)
  unfolding remove
  Above-remove j k [] a = tt
  Above-remove j k ((i, w) ∷ m) a = ground (arith, Above-remove j k m a.1)

  pub insert-IsSorted : (k : K) (v : V) (m : Map K V) → IsSorted m → IsSorted (insert k v m)
  unfolding insert
  insert-IsSorted k v [] s = (tt, tt)
  insert-IsSorted k v ((i, w) ∷ m) s = ground (
    arith,
    insert-IsSorted k v m s.1,
    Above-insert i k v m,
    Above-trans k i m,
    o.cmp_swap k i,
    o.eq_of_cmp k i,
  )

  pub remove-IsSorted : (k : K) (m : Map K V) → IsSorted m → IsSorted (remove k m)
  unfolding remove
  remove-IsSorted k [] s = tt
  remove-IsSorted k ((i, w) ∷ m) s = ground (arith, remove-IsSorted k m s.1, Above-remove i k m s.0)

  -- Removing an absent key changes nothing.
  pub remove_absent : (k : K) (m : Map K V) → get k m ≡ none → remove k m ≡ m
  unfolding get remove
  remove_absent k [] h = refl
  remove_absent k ((i, w) ∷ m) h = ground (arith, remove_absent k m)

  pub length-insert :
      (k : K) (v : V) (m : Map K V)
      → IsSorted m
      → length (insert k v m) ≡ (if contains_key k m then length m else length m + 1)
  unfolding get insert
  length-insert k v [] s = omega arith
  length-insert k v ((i, w) ∷ m) s = ground (
    arith,
    length-insert k v m s.1,
    o.cmp_swap k i,
    get-Above k m,
    Above-trans k i m,
    o.eq_of_cmp k i,
  )

  pub length-remove :
      (k : K) (m : Map K V)
      → IsSorted m
      → (if contains_key k m then length (remove k m) + 1 else length (remove k m)) ≡ length m
  unfolding get remove
  length-remove k [] s = refl
  length-remove k ((i, w) ∷ m) s =
      ground (arith, length-remove k m s.1, o.eq_of_cmp i k, get-Above i m s.0, remove_absent i m)

  -- The entry of the least key, and what is left.
  pub get_head : (k : K) (w : V) (m : Map K V) → get k ((k, w) ∷ m) ≡ some w
  unfolding get
  get_head k w m = rw o.cmp_self
