-- ===== src/Pipeline/Tests.antt =====
-- Two deliveries on the slots of a subscription, a window that settles them, and rounds registered.
use ruststream_fred.Common.{
  ℕ, ◌+◌, ◌≡◌, refl, arith, true, false, [], ◌∷◌, ◌++◌, none, some, length,
}
use ruststream_fred.Pipeline.Slots.{
  Slots, no_slots, Closed, settled_round, found, existing, open_slot, close_slot, set_elem, segment,
  install, generation_at, segment_at,
}
use ruststream_fred.Pipeline.Slots.Laws.{IsSized, existing-open_slot, late_round_joins, joined}
use ruststream_fred.Pipeline.Slots.Runs.{Run, here, next, opens, closes, queues}
use ruststream_fred.Pipeline.Slots.Owners.{IsOwn, segment-IsOwn}
use ruststream_fred.Pipeline.Window.{Owed, settled_ok, settle}
use ruststream_fred.Pipeline.Window.Laws.{adds, owed_size, flush_size, settle_size}
use ruststream_fred.Pipeline.Window.Commits.{settle_commits, sent_or_left, new_segment}
use ruststream_fred.Pipeline.Rounds.{Round, Rounds, leave}
use ruststream_fred.Pipeline.Rounds.Laws.{is_round, joined-leave}

-- A delivery whose handler queued into segment 7, and the slots once it settled.
abbrev one_open : Slots ℕ
one_open = record {
  segments = some 7 ∷ [];
  members = 1 ∷ [];
  clean = true ∷ [];
  generations = 1 ∷ [];
  free = [];
}

abbrev one_settled : Slots ℕ
one_settled = record {
  segments = none ∷ [];
  members = 0 ∷ [];
  clean = true ∷ [];
  generations = 1 ∷ [];
  free = 0 ∷ [];
}

one_settled-IsSized : IsSized one_settled
one_settled-IsSized = record {
  members_size = refl;
  clean_size = refl;
  generations_size = refl;
  free_below = (omega arith, tt);
}

existing-open_slot_example :
    existing
      (open_slot 1 one_settled).0.0
      (generation_at (open_slot 1 one_settled).0.0 one_settled)
      (open_slot 1 one_settled).1
    ≡ settled_round
existing-open_slot_example = existing-open_slot 1 one_settled one_settled-IsSized

late_round_joins_example :
    (segment 0 (generation_at 0 one_open) (some 8) one_settled one_settled
      ≡ some (8, joined 0 8 one_settled))
    × (((open_slot 1 (joined 0 8 one_settled)).0.0 ≡ 0)
        × (segment_at 0 (open_slot 1 (joined 0 8 one_settled)).1 ≡ some 8))
unfolding close_slot set_elem
late_round_joins_example =
    late_round_joins 0 1 true 8 one_open one_settled (record { segment = some 7; clean = true })
      (omega arith) refl

-- Segments of the first slot, each numbered by the generation it was made for.
abbrev made_for : ℕ → ℕ × ℕ
made_for generation = (0, generation)

abbrev first_queued : Slots ℕ
first_queued = record {
  segments = some 1 ∷ [];
  members = 1 ∷ [];
  clean = true ∷ [];
  generations = 1 ∷ [];
  free = [];
}

abbrev first_settled : Slots ℕ
first_settled = record {
  segments = none ∷ [];
  members = 0 ∷ [];
  clean = true ∷ [];
  generations = 1 ∷ [];
  free = 0 ∷ [];
}

abbrev second_opened : Slots ℕ
second_opened = (open_slot 1 first_settled).1

queued_once-Run : Run made_for no_slots first_queued
unfolding open_slot install set_elem
queued_once-Run = next (next here (opens 1)) (queues 0 0 1 1 1 first_queued refl refl refl)

opened_twice-Run : Run made_for no_slots second_opened
unfolding open_slot close_slot set_elem
opened_twice-Run =
    next
      (next queued_once-Run (
        closes 0 0 true (some (record { segment = some 1; clean = true })) first_settled refl refl))
      (opens 1)

-- A round that finds its slot, and is refused once the slot is another delivery's.
segment-IsOwn_example :
    IsOwn made_for (0, 1) (segment 0 1 (some 1) first_queued second_opened)
    × (existing
          (open_slot 2 second_opened).0.0
          (open_slot 2 second_opened).0.1
          (open_slot 2 second_opened).1
        ≡ found none)
segment-IsOwn_example = segment-IsOwn made_for queued_once-Run opened_twice-Run 0 1 (some 1) refl 2

-- A window with one delivery left, and a settle waiting.
abbrev last_left : Owed ℕ ℕ
last_left = record {
  outstanding = 1;
  settled = 1;
  capacity = 8;
  waiting = 0;
  committed = 5 ∷ [];
  ops = 1 ∷ [];
  scratch = [];
  staged = [];
  failed = false;
  held = 1;
  flushing = 0;
}

abbrev acked : Closed ℕ
acked = record { segment = some 7; clean = true }

settle_size_example :
    owed_size (settle 0 true (adds settled_ok (2 ∷ [])) none (some acked) last_left).1.1
      + flush_size (settle 0 true (adds settled_ok (2 ∷ [])) none (some acked) last_left).1.0
    ≡ owed_size last_left + length {A = ℕ} (2 ∷ [])
settle_size_example = settle_size 0 true settled_ok (2 ∷ []) (some acked) last_left

settle_commits_example :
    sent_or_left (settle 0 true (adds settled_ok (2 ∷ [])) none (some acked) last_left).1
    ≡ last_left.committed ++ new_segment true (some 7)
settle_commits_example = settle_commits 0 true settled_ok (2 ∷ []) acked last_left

abbrev round_of : ℕ → Round
round_of slot = record { window = 0; slot = slot; generation = 1 }

abbrev two_rounds : Rounds
two_rounds = record {
  open_rounds = 2;
  entries =
      record { task = 3; round = round_of 0; bound = 1 ∷ [] }
      ∷ record { task = 3; round = round_of 1; bound = [] }
      ∷ [];
  next_publisher = 2;
}

joined-leave_example :
    is_round
      (round_of 0)
      (ruststream_fred.Pipeline.Rounds.joined (some 3) 1 true (leave (round_of 0) two_rounds))
    ≡ false
joined-leave_example = joined-leave (some 3) 1 true (round_of 0) two_rounds
