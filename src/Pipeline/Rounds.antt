-- ===== src/Pipeline/Rounds.antt =====
-- pipeline/rounds.rs: the registry of the rounds that handlers are in. `current` is the task that
-- a call is made on, if any; a round is its slot and its generation, in a window that has a number.
pub mod Laws
use ruststream_fred.Common.{
  ℕ, ◌+◌, Bool, true, false, ◌&&◌, ◌||◌, not, List, [], ◌∷◌, ◌++◌, Option, none, some, eqb, length,
  keep, if◌then◌else◌,
}

-- `struct Round`
pub record Round : Type 0 where
  pub window : ℕ
  pub slot : ℕ
  pub generation : ℕ

-- `Round::same`
abbrev pub same : Round → Round → Bool
same r r' = eqb r.window r'.window && (eqb r.slot r'.slot && eqb r.generation r'.generation)

-- `struct Entry`
pub record Entry : Type 0 where
  pub task : ℕ
  pub round : Round
  pub bound : List ℕ

-- `struct Rounds`
pub record Rounds : Type 0 where
  pub open_rounds : ℕ
  pub entries : List Entry
  pub next_publisher : ℕ

unfoldable pub has_number : ℕ → List ℕ → Bool
has_number n [] = false
has_number n (x ∷ xs) = eqb x n || has_number n xs

-- `Rounds::publisher`
abbrev pub publisher : Rounds → ℕ × Rounds
publisher s = (s.next_publisher, record s { next_publisher = s.next_publisher + 1 })

-- `Rounds::with`
abbrev pub with_entries : List Entry → Rounds → Rounds
with_entries es s = record s { entries = es; open_rounds = length es }

abbrev pub also_bound : Option ℕ → List ℕ → List ℕ
also_bound none bound = bound
also_bound (some p) bound = if has_number p bound then bound else bound ++ p ∷ []

abbrev pub first_bound : Option ℕ → List ℕ
first_bound none = []
first_bound (some p) = p ∷ []

-- The entry of the round moves to the task; a round without one gets one.
unfoldable pub moved : ℕ → Round → Option ℕ → List Entry → List Entry
moved task round p [] = record { task = task; round = round; bound = first_bound p } ∷ []
moved task round p (e ∷ es) =
    let rest = moved task round p es in
    if same e.round round
    then record e { task = task; bound = also_bound p e.bound } ∷ es
    else e ∷ rest

abbrev pub moved_to : Option ℕ → Round → Option ℕ → Rounds → Rounds
moved_to none round p s = s
moved_to (some task) round p s = with_entries (moved task round p s.entries) s

-- `Rounds::enter`
unfoldable pub enter : Option ℕ → Round → Rounds → Rounds
enter current round s = moved_to current round none s

-- `Rounds::bind`
unfoldable pub bind : Option ℕ → Round → ℕ → Rounds → Rounds
bind current round p s = moved_to current round (some p) s

-- `Rounds::leave`
unfoldable pub leave : Round → Rounds → Rounds
leave round s =
    if eqb s.open_rounds 0
    then s
    else with_entries (keep (λ e. not (same e.round round)) s.entries) s

abbrev pub joins : ℕ → ℕ → Bool → Entry → Bool
joins task p reply e = eqb e.task task && (reply || has_number p e.bound)

unfoldable pub find_round : (Entry → Bool) → List Entry → Option Round
find_round test [] = none
find_round test (e ∷ es) = let rest = find_round test es in if test e then some e.round else rest

abbrev pub joined_on : Option ℕ → ℕ → Bool → List Entry → Option Round
joined_on none p reply es = none
joined_on (some task) p reply es = find_round (joins task p reply) es

-- `Rounds::joined`
unfoldable pub joined : Option ℕ → ℕ → Bool → Rounds → Option Round
joined current p reply s = if eqb s.open_rounds 0 then none else joined_on current p reply s.entries
