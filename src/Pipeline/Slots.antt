-- ===== src/Pipeline/Slots.antt =====
-- pipeline/window.rs: the slots of a subscription's deliveries, and the segments that their
-- handlers queue into. A segment, which is fred's pipeline, is a parameter.
pub mod Laws
pub mod Tidy
pub mod Runs
pub mod Owners
use ruststream_fred.Common.{
  ℕ, zero, suc, ◌+◌, ◌-◌, ◌%◌, ◌^◌, Bool, true, false, ◌&&◌, List, [], ◌∷◌, ◌++◌, Option, none,
  some, eqb, ltb, length, get_elem?, if◌then◌else◌,
}

-- `xs[i] = x`; past the end, where the code panics, nothing.
unfoldable pub set_elem : {A : Type 0} → ℕ → A → List A → List A
set_elem i x [] = []
set_elem zero x (y ∷ ys) = x ∷ ys
set_elem (suc i) x (y ∷ ys) = y ∷ set_elem i x ys

abbrev pub value_or : {A : Type 0} → A → Option A → A
value_or d none = d
value_or d (some a) = a

-- `struct Slots`; `free` has the slot pushed last at its head, the one that `pop` takes.
pub record Slots (Seg : Type 0) : Type 0 where
  pub segments : List (Option Seg)
  pub members : List ℕ
  pub clean : List Bool
  pub generations : List ℕ
  pub free : List ℕ

-- `struct Closed`
pub record Closed (Seg : Type 0) : Type 0 where
  pub segment : Option Seg
  pub clean : Bool

-- What a round finds in its slot.
pub data Found (Seg : Type 0) : Type 0 where
  settled_round : Found Seg
  found : Option Seg → Found Seg

module _ {Seg : Type 0} where
  abbrev pub no_slots : Slots Seg
  no_slots = record { segments = []; members = []; clean = []; generations = []; free = [] }

  abbrev pub generation_at : ℕ → Slots Seg → ℕ
  generation_at slot s = value_or 0 (get_elem? s.generations slot)

  abbrev pub segment_at : ℕ → Slots Seg → Option Seg
  segment_at slot s = value_or none (get_elem? s.segments slot)

  -- The slot to open: the free one pushed last, or a new one behind the others.
  abbrev pub pick : List ℕ → Slots Seg → ℕ × Slots Seg
  pick (slot ∷ free) s = (slot, record s { free = free })
  pick [] s = (
    length s.segments,
    record s {
      segments = s.segments ++ none ∷ [];
      members = s.members ++ 0 ∷ [];
      clean = s.clean ++ true ∷ [];
      generations = s.generations ++ 0 ∷ [];
    },
  )

  abbrev pub open_picked : ℕ → ℕ × Slots Seg → (ℕ × ℕ) × Slots Seg
  open_picked members (slot, s) =
      let generation = (generation_at slot s + 1) % 2 ^ 32 in
      (
        (slot, generation),
        record s {
          members = set_elem slot members s.members;
          clean = set_elem slot true s.clean;
          generations = set_elem slot generation s.generations;
        },
      )

  -- `Segments::open`
  unfoldable pub open_slot : ℕ → Slots Seg → (ℕ × ℕ) × Slots Seg
  open_slot members s = open_picked members (pick s.free s)

  abbrev pub close_left : ℕ → ℕ → Bool → Slots Seg → Option (Closed Seg) × Slots Seg
  close_left slot left clean s =
      let s' = record s {
        members = set_elem slot left s.members;
        clean = set_elem slot clean s.clean;
      } in
      if ltb 0 left then (none, s') else (
        some (record { segment = segment_at slot s; clean = clean }),
        record s' { segments = set_elem slot none s.segments; free = slot ∷ s.free },
      )

  abbrev pub close_found :
      ℕ → Bool → Option ℕ → Slots Seg → Option (Option (Closed Seg) × Slots Seg)
  close_found slot acknowledged none s = none
  close_found slot acknowledged (some n) s =
      some (close_left slot (n - 1) (value_or true (get_elem? s.clean slot) && acknowledged) s)

  -- `Segments::close`: what the slot's last member takes, if this is the last one; none past the
  -- slots, where the code panics.
  unfoldable pub close_slot : ℕ → Bool → Slots Seg → Option (Option (Closed Seg) × Slots Seg)
  close_slot slot acknowledged s = close_found slot acknowledged (get_elem? s.members slot) s

  -- `Segments::existing`
  unfoldable pub existing : ℕ → ℕ → Slots Seg → Found Seg
  existing slot generation s =
      if eqb (generation_at slot s) generation then found (segment_at slot s) else settled_round

  abbrev pub or_new : Seg → Option Seg → Seg
  or_new new none = new
  or_new new (some segment) = segment

  abbrev pub get_or_insert : ℕ → Seg → Slots Seg → Option (Seg × Slots Seg)
  get_or_insert slot new s =
      let segment = or_new new (segment_at slot s) in
      some (segment, record s { segments = set_elem slot (some segment) s.segments })

  -- The end of `Segments::segment`: a new segment is put where there is none, unless the round has
  -- become one of the past meanwhile.
  unfoldable pub install : ℕ → ℕ → Seg → Slots Seg → Option (Seg × Slots Seg)
  install slot generation new s =
      if eqb (generation_at slot s) generation then get_or_insert slot new s else none

  abbrev pub segment_found :
      ℕ → ℕ → Option Seg → Found Seg → Slots Seg → Slots Seg → Option (Seg × Slots Seg)
  segment_found slot generation created settled_round before later = none
  segment_found slot generation created (found (some segment)) before later = some (segment, before)
  segment_found slot generation none (found none) before later = none
  segment_found slot generation (some new) (found none) before later =
      install slot generation new later

  -- `Segments::segment`: `before` is what it finds, `created` what the client answers, and `later`
  -- what the others have made of the slots while it waited; none is a refusal.
  unfoldable pub segment : ℕ → ℕ → Option Seg → Slots Seg → Slots Seg → Option (Seg × Slots Seg)
  segment slot generation created before later =
      segment_found slot generation created (existing slot generation before) before later
