-- ===== src/Pipeline/Slots/Runs.antt =====
-- The slots over every run in which rounds queue only before their deliveries settle.
use ruststream_fred.Common.{
  ℕ, suc, ◌+◌, ◌-◌, ◌%◌, ◌^◌, ◌<◌, ◌≡◌, refl, sym, ap, ◌∙◌, arith, Bool, true, false, ◌&&◌, List,
  [], ◌∷◌, ◌++◌, Option, none, some, eqb, ltb, length, length-append, get_elem?, if◌then◌else◌,
}
use ruststream_fred.Pipeline.Slots.{
  set_elem, value_or, Slots, no_slots, Closed, found, generation_at, segment_at, pick, open_picked,
  open_slot, close_left, close_slot, existing, or_new, get_or_insert, install,
}
use ruststream_fred.Pipeline.Slots.Laws.{
  get_elem?-set_elem, length-set_elem, get_elem?_last, AllBelow, eqb_self, joined,
}
use ruststream_fred.Pipeline.Slots.Tidy.{
  IsTidy, get_elem?_below, live_NotIn, idle-members, idle-segments,
}

-- A delivery, or a batch, is yielded; a member of it settles; a round queues, of this delivery or of
-- one before it, with a segment made for that round.
pub data Step {Seg : Type 0} (made_for : Seg → ℕ × ℕ) (s : Slots Seg) : Slots Seg → Type 0 where
  opens : (members : ℕ) → Step made_for s (open_slot members s).1
  closes :
      (slot n : ℕ) (acknowledged : Bool) (o : Option (Closed Seg)) (s' : Slots Seg)
      → get_elem? s.members slot ≡ some (suc n)
      → close_slot slot acknowledged s ≡ some (o, s')
      → Step made_for s s'
  queues :
      (slot n generation : ℕ) (new segment : Seg) (s' : Slots Seg)
      → get_elem? s.members slot ≡ some (suc n)
      → made_for new ≡ (slot, generation)
      → install slot generation new s ≡ some (segment, s')
      → Step made_for s s'

pub data Run {Seg : Type 0} (made_for : Seg → ℕ × ℕ) (s : Slots Seg) : Slots Seg → Type 0 where
  here : Run made_for s s
  next : {u v : Slots Seg} → Run made_for s u → Step made_for u v → Run made_for s v

below_same : (n m : ℕ) (xs : List ℕ) → n ≡ m → AllBelow n xs → AllBelow m xs
below_same n m [] e h = tt
below_same n m (x ∷ xs) e (below, rest) = (omega (arith, e, below), below_same n m xs e rest)

module _ {Seg : Type 0} where
  pub no_slots-IsTidy : IsTidy (no_slots {Seg = Seg})
  no_slots-IsTidy = record {
    sized = record {
      members_size = refl;
      clean_size = refl;
      generations_size = refl;
      free_below = tt;
    };
    distinct = tt;
    idle = tt;
  }

  opened-IsTidy :
      (members : ℕ) (free : List ℕ) (s : Slots Seg)
      → s.free ≡ free
      → IsTidy (record s { free = free })
      → IsTidy (open_picked members (pick free s)).1
  opened-IsTidy members (slot ∷ free) s e tidy = record {
    sized = record {
      members_size = omega (arith, length-set_elem slot members s.members, tidy.sized.members_size);
      clean_size = omega (arith, length-set_elem slot true s.clean, tidy.sized.clean_size);
      generations_size = omega (
        arith,
        length-set_elem slot ((generation_at slot s + 1) % 2 ^ 32) s.generations,
        tidy.sized.generations_size,
      );
      free_below = tidy.sized.free_below.1;
    };
    distinct = tidy.distinct.1;
    idle = idle-members slot members s.members s.segments free tidy.distinct.0 tidy.idle.1.1;
  }
  opened-IsTidy members [] s e tidy =
      let slot = length s.segments in
      record {
        sized = record {
          members_size = omega (
            arith,
            length-set_elem slot members (s.members ++ 0 ∷ []),
            length-append s.members (0 ∷ []),
            length-append s.segments (none ∷ []),
            tidy.sized.members_size,
          );
          clean_size = omega (
            arith,
            length-set_elem slot true (s.clean ++ true ∷ []),
            length-append s.clean (true ∷ []),
            length-append s.segments (none ∷ []),
            tidy.sized.clean_size,
          );
          generations_size = omega (
            arith,
            length-set_elem slot ((generation_at slot (pick [] s).1 + 1) % 2 ^ 32)
                (s.generations ++ 0 ∷ []),
            length-append s.generations (0 ∷ []),
            length-append s.segments (none ∷ []),
            tidy.sized.generations_size,
          );
          free_below = rw e tt;
        };
        distinct = rw e tt;
        idle = rw e tt;
      }

  open_slot-IsTidy : (members : ℕ) (s : Slots Seg) → IsTidy s → IsTidy (open_slot members s).1
  unfolding open_slot
  open_slot-IsTidy members s tidy = opened-IsTidy members s.free s refl tidy

  closed-IsTidy :
      (last : Bool) (slot n : ℕ) (clean : Bool) (s : Slots Seg)
      → ltb 0 n ≡ last
      → get_elem? s.members slot ≡ some (suc n)
      → IsTidy s
      → IsTidy (close_left slot n clean s).1
  closed-IsTidy true slot n clean s e live tidy =
      let away = live_NotIn slot n s.members s.segments s.free live tidy.idle in
      rw e (record {
        sized = record {
          members_size = omega (arith, length-set_elem slot n s.members, tidy.sized.members_size);
          clean_size = omega (arith, length-set_elem slot clean s.clean, tidy.sized.clean_size);
          generations_size = tidy.sized.generations_size;
          free_below = tidy.sized.free_below;
        };
        distinct = tidy.distinct;
        idle = idle-members slot n s.members s.segments s.free away tidy.idle;
      })
  closed-IsTidy false slot n clean s e live tidy =
      let away = live_NotIn slot n s.members s.segments s.free live tidy.idle in
      let inside = get_elem?_below slot (suc n) s.members live in
      let in_segments : slot < length s.segments = omega (arith, inside, tidy.sized.members_size) in
      let none_left : n ≡ 0 = ground (arith, e) in
      let same_size = length-set_elem slot none s.segments in
      rw e (record {
        sized = record {
          members_size =
              omega (arith, length-set_elem slot n s.members, same_size, tidy.sized.members_size);
          clean_size =
              omega (arith, length-set_elem slot clean s.clean, same_size, tidy.sized.clean_size);
          generations_size = omega (arith, same_size, tidy.sized.generations_size);
          free_below = (
            omega (arith, in_segments, same_size),
            below_same _ _ s.free (sym same_size) tidy.sized.free_below,
          );
        };
        distinct = (away, tidy.distinct);
        idle = (
          get_elem?-set_elem slot n s.members inside ∙ ap some none_left,
          (
            get_elem?-set_elem slot none s.segments in_segments,
            idle-segments slot none (set_elem slot n s.members) s.segments s.free away
                (idle-members slot n s.members s.segments s.free away tidy.idle),
          ),
        );
      })

  close_slot-IsTidy :
      (slot n : ℕ) (acknowledged : Bool) (o : Option (Closed Seg)) (s s' : Slots Seg)
      → get_elem? s.members slot ≡ some (suc n)
      → close_slot slot acknowledged s ≡ some (o, s')
      → IsTidy s
      → IsTidy s'
  unfolding close_slot
  close_slot-IsTidy slot n acknowledged o s s' live e tidy =
      let pred : suc n - 1 ≡ n = omega arith in
      let clean = value_or true (get_elem? s.clean slot) && acknowledged in
      let closed = ap (value_or (o, s')) (rw (live, pred) at e) in
      rw (sym (ap (λ (p : Option (Closed Seg) × Slots Seg). p.1) closed))
        (closed-IsTidy (ltb 0 n) slot n clean s refl live tidy)

  joined-IsTidy :
      (slot n : ℕ) (new : Seg) (s : Slots Seg)
      → get_elem? s.members slot ≡ some (suc n)
      → IsTidy s
      → IsTidy (joined slot new s)
  joined-IsTidy slot n new s live tidy =
      let away = live_NotIn slot n s.members s.segments s.free live tidy.idle in
      let same_size = length-set_elem slot (some new) s.segments in
      record {
        sized = record {
          members_size = omega (arith, same_size, tidy.sized.members_size);
          clean_size = omega (arith, same_size, tidy.sized.clean_size);
          generations_size = omega (arith, same_size, tidy.sized.generations_size);
          free_below = below_same _ _ s.free (sym same_size) tidy.sized.free_below;
        };
        distinct = tidy.distinct;
        idle = idle-segments slot (some new) s.members s.segments s.free away tidy.idle;
      }

  pub installed :
      (current : Bool) (slot : ℕ) (new segment : Seg) (s s' : Slots Seg)
      → (if current then get_or_insert slot new s else none) ≡ some (segment, s')
      → joined slot (or_new new (segment_at slot s)) s ≡ s'
  installed true slot new segment s s' e =
      ap (λ (p : Seg × Slots Seg). p.1) (ap (value_or (segment, s')) e)
  installed false slot new segment s s' e = ground (arith, e)

  install-IsTidy :
      (slot n generation : ℕ) (new segment : Seg) (s s' : Slots Seg)
      → get_elem? s.members slot ≡ some (suc n)
      → install slot generation new s ≡ some (segment, s')
      → IsTidy s
      → IsTidy s'
  unfolding install
  install-IsTidy slot n generation new segment s s' live e tidy =
      rw (sym (installed (eqb (generation_at slot s) generation) slot new segment s s' e))
        (joined-IsTidy slot n (or_new new (segment_at slot s)) s live tidy)

  opened_empty :
      (members : ℕ) (free : List ℕ) (s : Slots Seg)
      → IsTidy (record s { free = free })
      → existing
          (open_picked members (pick free s)).0.0
          (open_picked members (pick free s)).0.1
          (open_picked members (pick free s)).1
        ≡ found none
  unfolding existing
  opened_empty members (slot ∷ free) s tidy =
      let inside : slot < length s.generations =
        omega (arith, tidy.sized.generations_size, tidy.sized.free_below.0) in
      rw
        (
          get_elem?-set_elem slot ((generation_at slot s + 1) % 2 ^ 32) s.generations inside,
          eqb_self ((generation_at slot s + 1) % 2 ^ 32),
          tidy.idle.1.0,
        )
        refl
  opened_empty members [] s tidy =
      let grown = s.generations ++ 0 ∷ [] in
      let last = length s.segments in
      let generation = (value_or 0 (get_elem? grown last) + 1) % 2 ^ 32 in
      let inside : last < length grown =
        omega (arith, tidy.sized.generations_size, length-append s.generations (0 ∷ [])) in
      rw
        (
          get_elem?-set_elem last generation grown inside,
          eqb_self generation,
          get_elem?_last none s.segments,
        )
        refl

  module _ (made_for : Seg → ℕ × ℕ) where
    Step-IsTidy : {s s' : Slots Seg} → Step made_for s s' → IsTidy s → IsTidy s'
    Step-IsTidy {s} (opens members) tidy = open_slot-IsTidy members s tidy
    Step-IsTidy {s} {s'} (closes slot n acknowledged o s'' live e) tidy =
        close_slot-IsTidy slot n acknowledged o s s'' live e tidy
    Step-IsTidy {s} (queues slot n generation new segment s'' live made e) tidy =
        install-IsTidy slot n generation new segment s s'' live e tidy

    -- tidy
    pub Run-IsTidy : {s s' : Slots Seg} → Run made_for s s' → IsTidy s → IsTidy s'
    Run-IsTidy here tidy = tidy
    Run-IsTidy (next run step) tidy = Step-IsTidy step (Run-IsTidy run tidy)

    -- A slot that is opened next in a run from no slots holds no segment.
    pub open_slot_empty :
        {s : Slots Seg}
        → Run made_for no_slots s
        → (members : ℕ)
        → existing (open_slot members s).0.0 (open_slot members s).0.1 (open_slot members s).1
          ≡ found none
    unfolding open_slot
    open_slot_empty {s} run members = opened_empty members s.free s (Run-IsTidy run no_slots-IsTidy)
