-- ===== src/Pipeline/Window.antt =====
-- pipeline/window.rs: the window of a subscription. What a delivery settles with, the settles'
-- commands and the client's answers are parameters; the harness's held counts are numbered.
pub mod Laws
pub mod Commits
use ruststream_fred.Common.{
  ℕ, zero, suc, ◌+◌, ◌-◌, max, Bool, true, false, ◌&&◌, ◌||◌, not, List, [], ◌∷◌, ◌++◌, Option,
  none, some, eqb, leb, ltb, length, is_nil, if◌then◌else◌,
}
use ruststream_fred.Pipeline.Rounds.{Round, Rounds, leave}
use ruststream_fred.Pipeline.Slots.{Slots, Closed, close_slot, open_slot}

-- What a settle comes to: `Ok`, `Err(AckError::Unsupported)`, or another error.
pub data Answer : Type 0 where
  settled_ok : Answer
  unsupported : Answer
  broker_error : Answer

-- `struct Owed`
pub record Owed (Seg Op : Type 0) : Type 0 where
  pub outstanding : ℕ
  pub settled : ℕ
  pub capacity : ℕ
  pub waiting : ℕ
  pub committed : List Seg
  pub ops : List Op
  pub scratch : List Op
  pub staged : List (List Op)
  pub failed : Bool
  pub held : ℕ
  pub flushing : ℕ

-- `struct Flush`
pub record Flush (Seg Op : Type 0) : Type 0 where
  pub committed : List Seg
  pub ops : List Op

-- What a delivery's outcome adds to the settles, and its answer.
abbrev pub Settle : Type 0 → Type 0
Settle Op = List Op → Answer × List Op

-- `matches!(result, Ok(()) | Err(AckError::Unsupported))`
abbrev pub keeps : Answer → Bool
keeps broker_error = false
keeps _ = true

-- `close_atomic` of an atomic window: whether the client took the end of the transaction, and the
-- settles then.
abbrev pub Closing : Type 0 → Type 0 → Type 0
Closing Seg Op = Seg → List Op → Bool × List Op

module _ {Op : Type 0} where
  -- `resize_with(slot + 1, Vec::new)`, and the settle of that slot's
  unfoldable pub stage : ℕ → Settle Op → List (List Op) → Answer × List (List Op)
  stage zero settle [] = let (answer, ops) = settle [] in (answer, ops ∷ [])
  stage zero settle (xs ∷ staged) = let (answer, ops) = settle xs in (answer, ops ∷ staged)
  stage (suc slot) settle [] = let (answer, staged) = stage slot settle [] in (answer, [] ∷ staged)
  stage (suc slot) settle (xs ∷ staged) =
      let (answer, rest) = stage slot settle staged in (answer, xs ∷ rest)

  -- `append(staged)`: the slot's settles, and what is staged without them.
  unfoldable pub unstage : ℕ → List (List Op) → List Op × List (List Op)
  unstage slot [] = ([], [])
  unstage zero (xs ∷ staged) = (xs, [] ∷ staged)
  unstage (suc slot) (xs ∷ staged) = let (ops, rest) = unstage slot staged in (ops, xs ∷ rest)

  abbrev pub all_empty : List (List Op) → Bool
  all_empty [] = true
  all_empty (xs ∷ staged) = is_nil xs && all_empty staged

abbrev pub left_round : {Seg : Type 0} → Option (Closed Seg) → Round → Rounds → Rounds
left_round none round rounds = rounds
left_round (some c) round rounds = leave round rounds

module _ {Seg Op : Type 0} where
  -- `Window::new`
  abbrev pub new_owed : ℕ → Owed Seg Op
  new_owed capacity = record {
    outstanding = 0;
    settled = 0;
    capacity = max capacity 1;
    waiting = 0;
    committed = [];
    ops = [];
    scratch = [];
    staged = [];
    failed = false;
    held = 0;
    flushing = 0;
  }

  -- `fill_at`, `fetched`, `discarded`, `yielded`
  abbrev pub fill_at : ℕ → Owed Seg Op → Owed Seg Op
  fill_at capacity o = record o { capacity = max capacity 1 }

  abbrev pub fetched : ℕ → Owed Seg Op → Owed Seg Op
  fetched n o = record o { outstanding = o.outstanding + n }

  abbrev pub discarded : ℕ → Owed Seg Op → Owed Seg Op
  discarded n o = record o { outstanding = o.outstanding - n }

  abbrev pub yielded : ℕ → Owed Seg Op → Owed Seg Op
  yielded waiting o = record o { outstanding = o.outstanding + 1; waiting = waiting }

  -- `Window::take`
  abbrev pub take_flush : Owed Seg Op → Flush Seg Op × Owed Seg Op
  take_flush o = (
    record { committed = o.committed; ops = o.ops },
    record o { settled = 0; flushing = o.flushing + 1; committed = []; ops = [] },
  )

  -- The first part of `settle`, by what closing the slot gave: the answer, the segment to keep with
  -- its settles, and the window.
  abbrev pub into_scratch :
      Settle Op
      → Seg
      → List Op × List (List Op)
      → Owed Seg Op
      → Answer × (Option (Seg × List Op) × Owed Seg Op)
  into_scratch settle segment (taken, staged) o =
      let (answer, scratch) = settle (o.scratch ++ taken) in
      (answer, (some (segment, scratch), record o { scratch = []; staged = staged }))

  abbrev pub into_ops :
      Settle Op
      → List Op × List (List Op)
      → Owed Seg Op
      → Answer × (Option (Seg × List Op) × Owed Seg Op)
  into_ops settle (taken, staged) o =
      let (answer, ops) = settle (o.ops ++ taken) in
      (answer, (none, record o { ops = ops; staged = staged }))

  abbrev pub into_staged :
      Answer × List (List Op) → Owed Seg Op → Answer × (Option (Seg × List Op) × Owed Seg Op)
  into_staged (answer, staged) o = (answer, (none, record o { staged = staged }))

  unfoldable pub begin_settle :
      ℕ
      → Bool
      → Settle Op
      → Option (Closed Seg)
      → Owed Seg Op
      → Answer × (Option (Seg × List Op) × Owed Seg Op)
  begin_settle slot commit settle none o = into_staged (stage slot settle o.staged) o
  begin_settle slot commit settle (some c) o = elim c.segment [
    | none ↦ into_ops settle (unstage slot o.staged) o
    | some segment ↦
        if c.clean && commit
        then into_scratch settle segment (unstage slot o.staged) o
        else into_ops settle (unstage slot o.staged) o
  ]

  abbrev pub closed_with : Answer → Seg → Bool × List Op → Answer × Option (Option Seg × List Op)
  closed_with answer segment (true, ops) = (answer, some (some segment, ops))
  closed_with answer segment (false, ops) = (broker_error, some (none, ops))

  -- The segment that is kept, if it is, with the settles that go into the window.
  unfoldable pub keep_segment :
      Option (Closing Seg Op)
      → Answer
      → Option (Seg × List Op)
      → Answer × Option (Option Seg × List Op)
  keep_segment atomic answer none = (answer, none)
  keep_segment none answer (some (segment, scratch)) =
      (answer, some ((if keeps answer then some segment else none), scratch))
  keep_segment (some close) answer (some (segment, scratch)) =
      if keeps answer
      then closed_with answer segment (close segment scratch)
      else (answer, some (none, scratch))

  abbrev pub committed_with : Option (Option Seg × List Op) → Owed Seg Op → Owed Seg Op
  committed_with none o = o
  committed_with (some (none, ops)) o = record o { ops = o.ops ++ ops; scratch = [] }
  committed_with (some (some segment, ops)) o = record o {
    committed = o.committed ++ segment ∷ [];
    ops = o.ops ++ ops;
    scratch = [];
  }

  abbrev pub counted_down : Owed Seg Op → Owed Seg Op
  counted_down o = record o { outstanding = o.outstanding - 1; settled = o.settled + 1 }

  abbrev pub flush_if : Bool → Owed Seg Op → Option (Flush Seg Op) × Owed Seg Op
  flush_if false o = (none, o)
  flush_if true o = (some (take_flush o).0, (take_flush o).1)

  abbrev pub is_due : Owed Seg Op → Bool
  is_due o = (eqb o.outstanding 0 && eqb o.waiting 0) || leb o.capacity o.settled

  -- The last part of `settle`.
  unfoldable pub finish_settle :
      Option (Option Seg × List Op) → Owed Seg Op → Option (Flush Seg Op) × Owed Seg Op
  finish_settle kept o = let o' = counted_down (committed_with kept o) in flush_if (is_due o') o'

  abbrev pub settled_with :
      Option (Closing Seg Op)
      → Answer × (Option (Seg × List Op) × Owed Seg Op)
      → Answer × (Option (Flush Seg Op) × Owed Seg Op)
  settled_with atomic (answer, (closing, o)) =
      let (answer', kept) = keep_segment atomic answer closing in (answer', finish_settle kept o)

  -- `Window::settle` past the check of the connection and the closing of its slot: the answer, the flush that is due, the window.
  unfoldable pub settle :
      ℕ
      → Bool
      → Settle Op
      → Option (Closing Seg Op)
      → Option (Closed Seg)
      → Owed Seg Op
      → Answer × (Option (Flush Seg Op) × Owed Seg Op)
  settle slot commit outcome atomic closed o =
      settled_with atomic (begin_settle slot commit outcome closed o)

  abbrev pub settle_closed :
      Round
      → Bool
      → Settle Op
      → Option (Closing Seg Op)
      → Rounds
      → Owed Seg Op
      → Option (Option (Closed Seg) × Slots Seg)
      → Option (Answer × (Option (Flush Seg Op) × (Slots Seg × (Rounds × Owed Seg Op))))
  settle_closed round commit outcome atomic rounds o none = none
  settle_closed round commit outcome atomic rounds o (some (closed, s)) =
      let (answer, (flush, o')) = settle round.slot commit outcome atomic closed o in
      some (answer, (flush, (s, (left_round closed round rounds, o'))))

  -- `Window::settle`: a closed connection refuses it, and it is none past the slots, where the code
  -- panics.
  unfoldable pub settle_delivery :
      Bool
      → Round
      → Bool
      → Settle Op
      → Option (Closing Seg Op)
      → Slots Seg
      → Rounds
      → Owed Seg Op
      → Option (Answer × (Option (Flush Seg Op) × (Slots Seg × (Rounds × Owed Seg Op))))
  settle_delivery shut round commit outcome atomic s rounds o =
      if shut
      then some (broker_error, (none, (s, (rounds, o))))
      else settle_closed round commit outcome atomic rounds o (close_slot round.slot commit s)

  abbrev pub give_staged : List Op × List (List Op) → Owed Seg Op → Owed Seg Op
  give_staged (taken, staged) o = record o { ops = o.ops ++ taken; staged = staged }

  abbrev pub abandoned : ℕ → Option (Closed Seg) → Owed Seg Op → Owed Seg Op
  abandoned slot none o = o
  abandoned slot (some c) o = give_staged (unstage slot o.staged) o

  abbrev pub has_pending : Owed Seg Op → Bool
  has_pending o = not (is_nil o.committed) || not (is_nil o.ops)

  abbrev pub all_sent : Owed Seg Op → Bool
  all_sent o =
      eqb o.outstanding 0
      && (eqb o.flushing 0 && (is_nil o.ops && (is_nil o.committed && all_empty o.staged)))

  -- `release_if_sent`: how many held counts are released
  unfoldable pub release_if_sent : Owed Seg Op → ℕ × Owed Seg Op
  release_if_sent o = if all_sent o then (o.held, record o { held = 0 }) else (0, o)

  abbrev pub released_unless :
      Option (Flush Seg Op) × Owed Seg Op → ℕ × (Option (Flush Seg Op) × Owed Seg Op)
  released_unless (none, o) = let (n, o') = release_if_sent o in (n, (none, o'))
  released_unless (some flush, o) = (0, (some flush, o))

  -- `Window::abandon` past the closing of its slot: the counts released, the flush to spawn.
  unfoldable pub abandon :
      ℕ → Option (Closed Seg) → Owed Seg Op → ℕ × (Option (Flush Seg Op) × Owed Seg Op)
  abandon slot closed o =
      let o' = abandoned slot closed o in
      let left = record o' { outstanding = o'.outstanding - 1 } in
      released_unless
        (flush_if (has_pending left && (eqb left.outstanding 0 && eqb left.waiting 0)) left)

  -- `hold`, `drain` and `sent_one`
  abbrev pub hold : Owed Seg Op → Owed Seg Op
  hold o = record o { held = o.held + 1 }

  abbrev pub drain : Owed Seg Op → Flush Seg Op × Owed Seg Op
  drain o = take_flush o

  unfoldable pub sent_one : Bool → Owed Seg Op → ℕ × Owed Seg Op
  sent_one failure o =
      release_if_sent (record o { flushing = o.flushing - 1; failed = o.failed || failure })
