-- ===== src/Pipeline/Rounds/Laws.antt =====
-- Which round a publish joins.
use ruststream_fred.Common.{
  ℕ, ◌≡◌, refl, arith, Bool, true, false, not, List, [], ◌∷◌, Option, none, some, eqb, length, keep,
  if◌then◌else◌,
}
use ruststream_fred.Pipeline.Rounds.{
  Round, same, Entry, Rounds, with_entries, moved_to, enter, bind, leave, joins, find_round,
  joined_on, joined,
}

-- Whether a round is one that a publish may have joined.
abbrev pub is_round : Round → Option Round → Bool
is_round round none = false
is_round round (some r) = same r round

-- The fast path's count is that of the entries.
pub record IsCurrent (s : Rounds) : Type 0 where
  pub counted : s.open_rounds ≡ length s.entries

moved_to-IsCurrent :
    (current : Option ℕ) (round : Round) (p : Option ℕ) (s : Rounds)
    → IsCurrent s
    → IsCurrent (moved_to current round p s)
moved_to-IsCurrent none round p s h = h
moved_to-IsCurrent (some task) round p s h = record { counted = refl }

pub enter-IsCurrent :
    (current : Option ℕ) (round : Round) (s : Rounds)
    → IsCurrent s
    → IsCurrent (enter current round s)
unfolding enter
enter-IsCurrent current round s h = moved_to-IsCurrent current round none s h

pub bind-IsCurrent :
    (current : Option ℕ) (round : Round) (p : ℕ) (s : Rounds)
    → IsCurrent s
    → IsCurrent (bind current round p s)
unfolding bind
bind-IsCurrent current round p s h = moved_to-IsCurrent current round (some p) s h

left_open :
    (none_open : Bool) (es : List Entry) (s : Rounds)
    → IsCurrent s
    → IsCurrent (if none_open then s else with_entries es s)
left_open true es s h = h
left_open false es s h = record { counted = refl }

pub leave-IsCurrent : (round : Round) (s : Rounds) → IsCurrent s → IsCurrent (leave round s)
unfolding leave
leave-IsCurrent round s h = left_open (eqb s.open_rounds 0) _ s h

kept_away :
    (round : Round) (test : Entry → Bool) (es : List Entry)
    → is_round round (find_round test (keep (λ e. not (same e.round round)) es)) ≡ false
unfolding find_round
kept_away round test [] = refl
kept_away round test (e ∷ es) = ground (arith, kept_away round test es)

joined_kept :
    (current : Option ℕ) (p : ℕ) (reply : Bool) (round : Round) (es : List Entry)
    → is_round round (joined_on current p reply (keep (λ e. not (same e.round round)) es)) ≡ false
joined_kept none p reply round es = refl
joined_kept (some task) p reply round es = kept_away round (joins task p reply) es

-- Once a round left, no publish joins it, from any task.
pub joined-leave :
    (current : Option ℕ) (p : ℕ) (reply : Bool) (round : Round) (s : Rounds)
    → is_round round (joined current p reply (leave round s)) ≡ false
unfolding joined leave
joined-leave current p reply round s = ground (arith, joined_kept current p reply round s.entries)
