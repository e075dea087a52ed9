-- ===== src/Pipeline/Window/Laws.antt =====
-- What a window sends, and that it loses nothing it owes.
use ruststream_fred.Common.{
  ℕ, zero, suc, ◌+◌, ◌≡◌, refl, ap, ◌∙◌, arith, Bool, true, false, List, [], ◌∷◌, ◌++◌, Option,
  none, some, length, length-append, if◌then◌else◌,
}
use ruststream_fred.Pipeline.Slots.{Closed}
use ruststream_fred.Pipeline.Window.{
  Answer, Owed, Flush, Settle, stage, unstage, into_scratch, into_ops, begin_settle, keeps,
  keep_segment, committed_with, counted_down, flush_if, is_due, finish_settle, settle,
}

-- The settles that are staged.
abbrev pub staged_size : {Op : Type 0} → List (List Op) → ℕ
staged_size [] = 0
staged_size (xs ∷ staged) = length xs + staged_size staged

abbrev pub flush_size : {Seg Op : Type 0} → Option (Flush Seg Op) → ℕ
flush_size none = 0
flush_size (some flush) = length flush.ops

-- All the settles that a window owes.
abbrev pub owed_size : {Seg Op : Type 0} → Owed Seg Op → ℕ
owed_size o = length o.ops + length o.scratch + staged_size o.staged

-- An outcome that adds its settles to those before it.
abbrev pub adds : {Op : Type 0} → Answer → List Op → Settle Op
adds answer more ops = (answer, ops ++ more)

module _ {Op : Type 0} where
  length-stage :
      (slot : ℕ) (answer : Answer) (more : List Op) (staged : List (List Op))
      → staged_size (stage slot (adds answer more) staged).1 ≡ staged_size staged + length more
  unfolding stage
  length-stage zero answer more [] = omega arith
  length-stage zero answer more (xs ∷ staged) = omega (arith, length-append xs more)
  length-stage (suc slot) answer more [] = omega (arith, length-stage slot answer more [])
  length-stage (suc slot) answer more (xs ∷ staged) =
      omega (arith, length-stage slot answer more staged)

  length-unstage :
      (slot : ℕ) (staged : List (List Op))
      → length (unstage slot staged).0 + staged_size (unstage slot staged).1 ≡ staged_size staged
  unfolding unstage
  length-unstage slot [] = omega arith
  length-unstage zero (xs ∷ staged) = omega arith
  length-unstage (suc slot) (xs ∷ staged) = omega (arith, length-unstage slot staged)

abbrev closing_size : {Seg Op : Type 0} → Option (Seg × List Op) → ℕ
closing_size none = 0
closing_size (some (segment, ops)) = length ops

module _ {Seg Op : Type 0} where
  -- While settles are kept aside with a segment, none are in the scratch.
  abbrev IsAside : Option (Seg × List Op) → Owed Seg Op → Type 0
  IsAside none o = Unit
  IsAside (some closing) o = o.scratch ≡ []

  into_ops_size :
      (slot : ℕ) (answer : Answer) (more : List Op) (o : Owed Seg Op)
      → owed_size (into_ops (adds answer more) (unstage slot o.staged) o).1.1
        ≡ owed_size o + length more
  into_ops_size slot answer more o = omega (
    arith,
    length-unstage slot o.staged,
    length-append o.ops (unstage slot o.staged).0,
    length-append (o.ops ++ (unstage slot o.staged).0) more,
  )

  into_scratch_size :
      (slot : ℕ) (answer : Answer) (more : List Op) (segment : Seg) (o : Owed Seg Op)
      → owed_size (into_scratch (adds answer more) segment (unstage slot o.staged) o).1.1
          + closing_size (into_scratch (adds answer more) segment (unstage slot o.staged) o).1.0
        ≡ owed_size o + length more
  into_scratch_size slot answer more segment o = omega (
    arith,
    length-unstage slot o.staged,
    length-append o.scratch (unstage slot o.staged).0,
    length-append (o.scratch ++ (unstage slot o.staged).0) more,
  )

  begun_closed :
      (slot : ℕ) (commit : Bool) (answer : Answer) (more : List Op) (segment : Option Seg)
      (clean : Bool) (o : Owed Seg Op)
      → (owed_size
              (begin_settle slot commit
                (adds answer more)
                (some (record { segment = segment; clean = clean }))
                o).1.1
            + closing_size
                (begin_settle slot commit
                  (adds answer more)
                  (some (record { segment = segment; clean = clean }))
                  o).1.0
          ≡ owed_size o + length more)
        × IsAside
            (begin_settle slot commit
              (adds answer more)
              (some (record { segment = segment; clean = clean }))
              o).1.0
            (begin_settle slot commit
              (adds answer more)
              (some (record { segment = segment; clean = clean }))
              o).1.1
  unfolding begin_settle
  begun_closed slot commit answer more none clean o =
      (omega (arith, into_ops_size slot answer more o), tt)
  begun_closed slot true answer more (some segment) true o =
      (into_scratch_size slot answer more segment o, refl)
  begun_closed slot false answer more (some segment) true o =
      (omega (arith, into_ops_size slot answer more o), tt)
  begun_closed slot commit answer more (some segment) false o =
      (omega (arith, into_ops_size slot answer more o), tt)

  begun_size :
      (slot : ℕ) (commit : Bool) (answer : Answer) (more : List Op) (closed : Option (Closed Seg))
      (o : Owed Seg Op)
      → (owed_size (begin_settle slot commit (adds answer more) closed o).1.1
            + closing_size (begin_settle slot commit (adds answer more) closed o).1.0
          ≡ owed_size o + length more)
        × IsAside
            (begin_settle slot commit (adds answer more) closed o).1.0
            (begin_settle slot commit (adds answer more) closed o).1.1
  unfolding begin_settle
  begun_size slot commit answer more none o =
      (omega (arith, length-stage slot answer more o.staged), tt)
  begun_size slot commit answer more (some c) o =
      begun_closed slot commit answer more c.segment c.clean o

  flush_if_size :
      (due : Bool) (o : Owed Seg Op)
      → owed_size (flush_if due o).1 + flush_size (flush_if due o).0 ≡ owed_size o
  flush_if_size false o = omega arith
  flush_if_size true o = omega arith

  committed_size :
      (kept : Option Seg) (ops : List Op) (o : Owed Seg Op)
      → o.scratch ≡ []
      → owed_size (counted_down (committed_with (some (kept, ops)) o)) ≡ owed_size o + length ops
  committed_size none ops o aside = omega (arith, length-append o.ops ops, ap length aside)
  committed_size (some segment) ops o aside =
      omega (arith, length-append o.ops ops, ap length aside)

  finished_size :
      (answer : Answer) (closing : Option (Seg × List Op)) (o : Owed Seg Op)
      → IsAside closing o
      → owed_size (finish_settle (keep_segment none answer closing).1 o).1
          + flush_size (finish_settle (keep_segment none answer closing).1 o).0
        ≡ owed_size o + closing_size closing
  unfolding finish_settle keep_segment
  finished_size answer none o aside =
      omega (arith, flush_if_size (is_due (counted_down o)) (counted_down o))
  finished_size answer (some (segment, ops)) o aside =
      let kept = if keeps answer then some segment else none in
      let o' = counted_down (committed_with (some (kept, ops)) o) in
      flush_if_size (is_due o') o' ∙ committed_size kept ops o aside

  -- A settle whose outcome adds its commands to those before it loses none, in a window that is not
  -- atomic: the commands that the window owes afterwards and those of the flush that it makes due
  -- are as many as it owed before and the outcome's own, whether the slot is closed or not, its
  -- segment kept or dropped.
  pub settle_size :
      (slot : ℕ) (commit : Bool) (answer : Answer) (more : List Op) (closed : Option (Closed Seg))
      (o : Owed Seg Op)
      → owed_size (settle slot commit (adds answer more) none closed o).1.1
          + flush_size (settle slot commit (adds answer more) none closed o).1.0
        ≡ owed_size o + length more
  unfolding settle
  settle_size slot commit answer more closed o =
      let b = begin_settle slot commit (adds answer more) closed o in
      let (size, aside) = begun_size slot commit answer more closed o in
      finished_size b.0 b.1.0 b.1.1 aside ∙ size
