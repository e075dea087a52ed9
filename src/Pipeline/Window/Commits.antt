-- ===== src/Pipeline/Window/Commits.antt =====
-- Which segments a window commits, and when it is left with nothing to send.
use ruststream_fred.Common.{
  ℕ, ◌+◌, ◌-◌, ◌≡◌, refl, sym, ap, ◌∙◌, arith, Bool, true, false, ◌&&◌, List, [], ◌∷◌, ◌++◌, Option,
  none, some, eqb, length,
}
use ruststream_fred.Pipeline.Slots.{Closed}
use ruststream_fred.Pipeline.Window.Laws.{adds, staged_size}
use ruststream_fred.Pipeline.Window.{
  Answer, settled_ok, unsupported, broker_error, Owed, Flush, begin_settle, keeps, keep_segment,
  committed_with, counted_down, flush_if, is_due, finish_settle, settle, abandoned, has_pending,
  release_if_sent, released_unless, abandon,
}

append_nil : {Seg : Type 0} (xs : List Seg) → xs ++ [] ≡ xs
append_nil [] = refl
append_nil (x ∷ xs) = ap (λ t. x ∷ t) (append_nil xs)

abbrev pub new_segment : {Seg : Type 0} → Bool → Option Seg → List Seg
new_segment true (some segment) = segment ∷ []
new_segment _ _ = []

new_none : {Seg : Type 0} (kept : Bool) → new_segment {Seg = Seg} kept none ≡ []
new_none true = refl
new_none false = refl

-- The segment that a settle adds to those to be sent.
abbrev pub added_segment : {Seg : Type 0} → Bool → Answer → Option (Closed Seg) → List Seg
added_segment commit answer none = []
added_segment commit answer (some c) = new_segment (c.clean && commit && keeps answer) c.segment

module _ {Seg Op : Type 0} where
  -- No delivery is left whose settle would flush the window.
  abbrev pub is_idle : Owed Seg Op → Bool
  is_idle o = eqb o.outstanding 0 && eqb o.waiting 0

  nothing_released :
      (left : Owed Seg Op)
      → has_pending left ≡ false
      → has_pending (released_unless (none, left)).1.1 ≡ false
  unfolding release_if_sent
  nothing_released left e = ground (arith, e)

  due_flushed_released :
      (due : Bool) (left : Owed Seg Op)
      → is_idle left ≡ due
      → is_idle (released_unless (flush_if due left)).1.1 ≡ true
      → has_pending (released_unless (flush_if due left)).1.1 ≡ false
  unfolding release_if_sent
  due_flushed_released true left e idle = refl
  due_flushed_released false left e idle = ground (arith, e, idle)

  released_idle :
      (pending : Bool) (left : Owed Seg Op)
      → has_pending left ≡ pending
      → is_idle (released_unless (flush_if (pending && is_idle left) left)).1.1 ≡ true
      → has_pending (released_unless (flush_if (pending && is_idle left) left)).1.1 ≡ false
  released_idle true left e idle = due_flushed_released (is_idle left) left refl idle
  released_idle false left e idle = nothing_released left e

  -- abandon idle
  pub abandon_idle :
      (slot : ℕ) (closed : Option (Closed Seg)) (o : Owed Seg Op)
      → is_idle (abandon slot closed o).1.1 ≡ true
      → has_pending (abandon slot closed o).1.1 ≡ false
  unfolding abandon
  abandon_idle slot closed o idle =
      let o' = abandoned slot closed o in
      let left = record o' { outstanding = o'.outstanding - 1 } in
      released_idle (has_pending left) left refl idle

  -- The segments that were to be sent, in order: in the flush that took them, or in the window.
  abbrev pub sent_or_left : Option (Flush Seg Op) × Owed Seg Op → List Seg
  sent_or_left (none, o) = o.committed
  sent_or_left (some flush, o) = flush.committed ++ o.committed

  flush_if_left : (due : Bool) (o : Owed Seg Op) → sent_or_left (flush_if due o) ≡ o.committed
  flush_if_left false o = refl
  flush_if_left true o = append_nil o.committed

  finished_left :
      (kept : Option (Option Seg × List Op)) (o : Owed Seg Op)
      → sent_or_left (finish_settle kept o) ≡ (committed_with kept o).committed
  unfolding finish_settle
  finished_left kept o =
      let o' = counted_down (committed_with kept o) in flush_if_left (is_due o') o'

  begun_commits :
      (slot : ℕ) (commit : Bool) (answer : Answer) (more : List Op) (segment : Option Seg)
      (clean : Bool) (o : Owed Seg Op)
      → (let b =
            begin_settle slot commit
              (adds answer more)
              (some (record { segment = segment; clean = clean }))
              o in
          (committed_with (keep_segment none b.0 b.1.0).1 b.1.1).committed)
        ≡ o.committed ++ new_segment (clean && commit && keeps answer) segment
  unfolding begin_settle keep_segment
  begun_commits slot commit answer more none true o = sym (
      ap (λ t. o.committed ++ t) (new_none (true && commit && keeps answer))
      ∙ append_nil o.committed)
  begun_commits slot commit answer more none false o = sym (append_nil o.committed)
  begun_commits slot commit answer more (some segment) false o = sym (append_nil o.committed)
  begun_commits slot false answer more (some segment) true o = sym (append_nil o.committed)
  begun_commits slot true settled_ok more (some segment) true o = refl
  begun_commits slot true unsupported more (some segment) true o = refl
  begun_commits slot true broker_error more (some segment) true o = sym (append_nil o.committed)

  -- In a window that is not atomic, the settle of a slot's last member adds the slot's segment
  -- behind those to be sent, and only where each member acknowledged, this one too, and the form
  -- answered well, or that it settles nothing; in every other case the segment is dropped, and
  -- those to be sent are as they were.
  pub settle_commits :
      (slot : ℕ) (commit : Bool) (answer : Answer) (more : List Op) (c : Closed Seg)
      (o : Owed Seg Op)
      → sent_or_left (settle slot commit (adds answer more) none (some c) o).1
        ≡ o.committed ++ new_segment (c.clean && commit && keeps answer) c.segment
  unfolding settle
  settle_commits slot commit answer more c o =
      let b = begin_settle slot commit (adds answer more) (some c) o in
      finished_left (keep_segment none b.0 b.1.0).1 b.1.1
      ∙ begun_commits slot commit answer more c.segment c.clean o

  -- The segments and the number of commands that a flush takes.
  abbrev pub flushed : Option (Flush Seg Op) → List Seg
  flushed none = []
  flushed (some flush) = flush.committed

  -- The commands of the deliveries that are not all settled.
  abbrev pub aside_size : Owed Seg Op → ℕ
  aside_size o = length o.scratch + staged_size o.staged
