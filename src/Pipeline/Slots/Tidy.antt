-- ===== src/Pipeline/Slots/Tidy.antt =====
-- The slots while rounds queue only before their deliveries settle.
use ruststream_fred.Common.{
  ℕ, zero, suc, ◌<◌, ◌≡◌, refl, ◌∙◌, arith, false, List, [], ◌∷◌, Option, none, some, eqb, length,
  get_elem?,
}
use ruststream_fred.Pipeline.Slots.{set_elem, Slots}
use ruststream_fred.Pipeline.Slots.Laws.{IsSized}

abbrev pub NotIn : ℕ → List ℕ → Type 0
NotIn x [] = Unit
NotIn x (y ∷ ys) = (eqb x y ≡ false) × NotIn x ys

abbrev pub Distinct : List ℕ → Type 0
Distinct [] = Unit
Distinct (x ∷ xs) = NotIn x xs × Distinct xs

-- No delivery of these slots is unsettled, and they hold no segment.
abbrev pub AllIdle : {Seg : Type 0} → List ℕ → List (Option Seg) → List ℕ → Type 0
AllIdle members segments [] = Unit
AllIdle members segments (x ∷ xs) =
    (get_elem? members x ≡ some 0)
    × ((get_elem? segments x ≡ some none) × AllIdle members segments xs)

pub record IsTidy {Seg : Type 0} (s : Slots Seg) : Type 0 where
  pub sized : IsSized s
  pub distinct : Distinct s.free
  pub idle : AllIdle s.members s.segments s.free

pub get_elem?-set_elem_other :
    {A : Type 0} (i j : ℕ) (x : A) (xs : List A)
    → eqb i j ≡ false
    → get_elem? (set_elem i x xs) j ≡ get_elem? xs j
unfolding set_elem
get_elem?-set_elem_other i j x [] e = refl
get_elem?-set_elem_other zero zero x (y ∷ ys) e = ground (arith, e)
get_elem?-set_elem_other zero (suc j) x (y ∷ ys) e = refl
get_elem?-set_elem_other (suc i) zero x (y ∷ ys) e = refl
get_elem?-set_elem_other (suc i) (suc j) x (y ∷ ys) e =
    get_elem?-set_elem_other i j x ys (ground (arith, e))

pub get_elem?_below :
    {A : Type 0} (i : ℕ) (x : A) (xs : List A) → get_elem? xs i ≡ some x → i < length xs
get_elem?_below i x [] e = ground (arith, e)
get_elem?_below zero x (y ∷ ys) e = omega arith
get_elem?_below (suc i) x (y ∷ ys) e = omega (arith, get_elem?_below i x ys e)

other_slot :
    (slot x n : ℕ) (members : List ℕ)
    → get_elem? members slot ≡ some (suc n)
    → get_elem? members x ≡ some 0
    → eqb slot x ≡ false
other_slot slot x n members live none_left = grind (arith, live, none_left)

module _ {Seg : Type 0} where
  -- A slot with an unsettled delivery is not free.
  pub live_NotIn :
      (slot n : ℕ) (members : List ℕ) (segments : List (Option Seg)) (xs : List ℕ)
      → get_elem? members slot ≡ some (suc n)
      → AllIdle members segments xs
      → NotIn slot xs
  live_NotIn slot n members segments [] live h = tt
  live_NotIn slot n members segments (x ∷ xs) live (none_left, (empty, rest)) =
      (other_slot slot x n members live none_left, live_NotIn slot n members segments xs live rest)

  pub idle-members :
      (slot m : ℕ) (members : List ℕ) (segments : List (Option Seg)) (xs : List ℕ)
      → NotIn slot xs
      → AllIdle members segments xs
      → AllIdle (set_elem slot m members) segments xs
  idle-members slot m members segments [] away h = tt
  idle-members slot m members segments (x ∷ xs) (other, away) (none_left, (empty, rest)) = (
    get_elem?-set_elem_other slot x m members other ∙ none_left,
    (empty, idle-members slot m members segments xs away rest),
  )

  pub idle-segments :
      (slot : ℕ) (o : Option Seg) (members : List ℕ) (segments : List (Option Seg)) (xs : List ℕ)
      → NotIn slot xs
      → AllIdle members segments xs
      → AllIdle members (set_elem slot o segments) xs
  idle-segments slot o members segments [] away h = tt
  idle-segments slot o members segments (x ∷ xs) (other, away) (none_left, (empty, rest)) = (
    none_left,
    (
      get_elem?-set_elem_other slot x o segments other ∙ empty,
      idle-segments slot o members segments xs away rest,
    ),
  )
