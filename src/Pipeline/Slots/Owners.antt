-- ===== src/Pipeline/Slots/Owners.antt =====
-- Whose segment a round is given, over every run.
use mathlib.Core.Path.{subst}
use ruststream_fred.Common.{
  ℕ, zero, suc, ◌-◌, ◌<◌, ◌≡◌, refl, sym, ap, ◌∙◌, arith, Bool, true, false, ◌&&◌, List, [], ◌∷◌,
  ◌++◌, Option, none, some, eqb, ltb, length, get_elem?, inl, inr, Bool-cases, if◌then◌else◌,
}
use ruststream_fred.Pipeline.Slots.{
  set_elem, value_or, Slots, no_slots, Closed, Found, settled_round, found, generation_at,
  segment_at, pick, open_picked, open_slot, close_left, close_slot, existing, or_new, get_or_insert,
  install, segment_found, segment,
}
use ruststream_fred.Pipeline.Slots.Laws.{get_elem?-set_elem, get_elem?_last}
use ruststream_fred.Pipeline.Slots.Tidy.{IsTidy, get_elem?-set_elem_other, get_elem?_below}
use ruststream_fred.Pipeline.Slots.Runs.{
  Step, opens, closes, queues, Run, here, next, no_slots-IsTidy, installed, Run-IsTidy,
  open_slot_empty,
}

padded :
    {A : Type 0} (d : A) (xs : List A) (i : ℕ)
    → value_or d (get_elem? (xs ++ d ∷ []) i) ≡ value_or d (get_elem? xs i)
padded d [] zero = refl
padded d [] (suc i) = refl
padded d (x ∷ xs) zero = refl
padded d (x ∷ xs) (suc i) = padded d xs i

eq_of_eqb : (i j : ℕ) → eqb i j ≡ true → i ≡ j
eq_of_eqb i j e = ground (arith, e)

module _ {Seg : Type 0} (made_for : Seg → ℕ × ℕ) where
  -- Each segment was made for its slot's round, the one of the slot's generation.
  abbrev AreOwn : List (Option Seg) → List ℕ → Type 0
  AreOwn segments generations =
      (i : ℕ) (seg : Seg)
      → value_or none (get_elem? segments i) ≡ some seg
      → made_for seg ≡ (i, value_or 0 (get_elem? generations i))

  no_slots-AreOwn : AreOwn [] []
  no_slots-AreOwn i seg e = ground (arith, e)

  -- A segment that is taken out, or a round's own that is put in.
  set_segment :
      (slot : ℕ) (o : Option Seg) (segments : List (Option Seg)) (generations : List ℕ)
      → slot < length segments
      → ((seg : Seg)
          → o ≡ some seg
          → made_for seg ≡ (slot, value_or 0 (get_elem? generations slot)))
      → AreOwn segments generations
      → AreOwn (set_elem slot o segments) generations
  set_segment slot o segments generations inside own h i seg e = elim (Bool-cases (eqb slot i)) [
    | inl t ↦
        let same = eq_of_eqb slot i t in
        let there =
          subst (λ j. value_or none (get_elem? (set_elem slot o segments) j) ≡ some seg) (sym same)
            e in
        subst (λ j. made_for seg ≡ (j, value_or 0 (get_elem? generations j))) same
          (own seg (sym (ap (value_or none) (get_elem?-set_elem slot o segments inside)) ∙ there))
    | inr f ↦ h i seg (sym (ap (value_or none) (get_elem?-set_elem_other slot i o segments f)) ∙ e)
  ]

  -- A generation that starts in a slot without a segment.
  set_generation :
      (slot g : ℕ) (segments : List (Option Seg)) (generations : List ℕ)
      → value_or none (get_elem? segments slot) ≡ none
      → AreOwn segments generations
      → AreOwn segments (set_elem slot g generations)
  set_generation slot g segments generations empty h i seg e = elim (Bool-cases (eqb slot i)) [
    | inl t ↦
        let there =
          subst (λ j. value_or none (get_elem? segments j) ≡ some seg) (sym (eq_of_eqb slot i t))
            e in
        let both : none ≡ some seg = sym empty ∙ there in ground (arith, both)
    | inr f ↦
        h i seg e
        ∙ sym (ap (λ t. (i, value_or 0 t)) (get_elem?-set_elem_other slot i g generations f))
  ]

  opened-AreOwn :
      (members : ℕ) (free : List ℕ) (s : Slots Seg)
      → IsTidy (record s { free = free })
      → AreOwn s.segments s.generations
      → AreOwn
          (open_picked members (pick free s)).1.segments
          (open_picked members (pick free s)).1.generations
  opened-AreOwn members (slot ∷ free) s tidy h =
      set_generation slot _ s.segments s.generations (ap (value_or none) tidy.idle.1.0) h
  opened-AreOwn members [] s tidy h =
      set_generation (length s.segments) _ (s.segments ++ none ∷ []) (s.generations ++ 0 ∷ [])
        (ap (value_or none) (get_elem?_last none s.segments))
        (λ i seg e.
          h i seg (sym (padded none s.segments i) ∙ e)
          ∙ sym (ap (λ t. (i, t)) (padded 0 s.generations i)))

  closed-AreOwn :
      (last : Bool) (slot n : ℕ) (clean : Bool) (s : Slots Seg)
      → ltb 0 n ≡ last
      → slot < length s.segments
      → AreOwn s.segments s.generations
      → AreOwn (close_left slot n clean s).1.segments (close_left slot n clean s).1.generations
  closed-AreOwn true slot n clean s e inside h = rw e h
  closed-AreOwn false slot n clean s e inside h =
      rw e
        (set_segment slot none s.segments s.generations inside (λ seg bad. ground (arith, bad)) h)

  live_inside :
      (slot n : ℕ) (s : Slots Seg)
      → get_elem? s.members slot ≡ some (suc n)
      → IsTidy s
      → slot < length s.segments
  live_inside slot n s live tidy =
      omega (arith, get_elem?_below slot (suc n) s.members live, tidy.sized.members_size)

  close_slot-AreOwn :
      (slot n : ℕ) (acknowledged : Bool) (o : Option (Closed Seg)) (s s' : Slots Seg)
      → get_elem? s.members slot ≡ some (suc n)
      → close_slot slot acknowledged s ≡ some (o, s')
      → IsTidy s
      → AreOwn s.segments s.generations
      → AreOwn s'.segments s'.generations
  unfolding close_slot
  close_slot-AreOwn slot n acknowledged o s s' live e tidy h =
      let pred : suc n - 1 ≡ n = omega arith in
      let clean = value_or true (get_elem? s.clean slot) && acknowledged in
      let closed = ap (value_or (o, s')) (rw (live, pred) at e) in
      let is_state = ap (λ (p : Option (Closed Seg) × Slots Seg). p.1) closed in
      subst (λ t. AreOwn t.segments t.generations) is_state
        (closed-AreOwn (ltb 0 n) slot n clean s refl (live_inside slot n s live tidy) h)

  -- The segment of a slot whose round asks for one.
  given_own :
      (slot generation : ℕ) (new : Seg) (s : Slots Seg) (o : Option Seg)
      → segment_at slot s ≡ o
      → generation_at slot s ≡ generation
      → made_for new ≡ (slot, generation)
      → AreOwn s.segments s.generations
      → made_for (or_new new o) ≡ (slot, generation)
  given_own slot generation new s none e current made h = made
  given_own slot generation new s (some old) e current made h =
      h slot old e ∙ ap (λ g. (slot, g)) current

  install-AreOwn :
      (slot n generation : ℕ) (new seg : Seg) (s s' : Slots Seg) (current : Bool)
      → eqb (generation_at slot s) generation ≡ current
      → get_elem? s.members slot ≡ some (suc n)
      → made_for new ≡ (slot, generation)
      → (if current then get_or_insert slot new s else none) ≡ some (seg, s')
      → IsTidy s
      → AreOwn s.segments s.generations
      → AreOwn s'.segments s'.generations
  install-AreOwn slot n generation new seg s s' false is_current live made e tidy h =
      ground (arith, e)
  install-AreOwn slot n generation new seg s s' true is_current live made e tidy h =
      let same = eq_of_eqb (generation_at slot s) generation is_current in
      let given = or_new new (segment_at slot s) in
      let own = given_own slot generation new s (segment_at slot s) refl same made h in
      subst (λ t. AreOwn t.segments t.generations) (installed true slot new seg s s' e)
        (set_segment slot (some given) s.segments s.generations (live_inside slot n s live tidy)
          (λ seg' is_given.
            ap made_for (sym (ap (value_or seg') is_given))
            ∙ (own ∙ ap (λ g. (slot, g)) (sym same)))
          h)

  Step-AreOwn :
      {s s' : Slots Seg}
      → Step made_for s s'
      → IsTidy s
      → AreOwn s.segments s.generations
      → AreOwn s'.segments s'.generations
  unfolding open_slot install
  Step-AreOwn {s} (opens members) tidy h = opened-AreOwn members s.free s tidy h
  Step-AreOwn {s} {s'} (closes slot n acknowledged o s'' live e) tidy h =
      close_slot-AreOwn slot n acknowledged o s s'' live e tidy h
  Step-AreOwn {s} (queues slot n generation new segment s'' live made e) tidy h =
      install-AreOwn slot n generation new segment s s'' _ refl live made e tidy h

  Run-AreOwn : {s : Slots Seg} → Run made_for no_slots s → AreOwn s.segments s.generations
  Run-AreOwn here = no_slots-AreOwn
  Run-AreOwn (next run step) =
      Step-AreOwn step (Run-IsTidy made_for run no_slots-IsTidy) (Run-AreOwn run)

  -- What a round is given, if it is not refused.
  abbrev pub IsOwn : ℕ × ℕ → Option (Seg × Slots Seg) → Type 0
  IsOwn round none = Unit
  IsOwn round (some (seg, s)) = made_for seg ≡ round

  abbrev pub IsFor : ℕ × ℕ → Option Seg → Type 0
  IsFor round none = Unit
  IsFor round (some new) = made_for new ≡ round

  existing-found :
      (slot generation : ℕ) (s : Slots Seg) (o : Option Seg)
      → existing slot generation s ≡ found o
      → (eqb (generation_at slot s) generation ≡ true) × (segment_at slot s ≡ o)
  unfolding existing
  existing-found slot generation s o e = ground (arith, e)

  install-IsOwn :
      (slot generation : ℕ) (new : Seg) (s : Slots Seg) (current : Bool)
      → eqb (generation_at slot s) generation ≡ current
      → made_for new ≡ (slot, generation)
      → AreOwn s.segments s.generations
      → IsOwn (slot, generation) (if current then get_or_insert slot new s else none)
  install-IsOwn slot generation new s false is_current made h = tt
  install-IsOwn slot generation new s true is_current made h =
      given_own slot generation new s (segment_at slot s) refl
        (eq_of_eqb (generation_at slot s) generation is_current) made h

  found-IsOwn :
      (slot generation : ℕ) (created : Option Seg) (f : Found Seg) (before later : Slots Seg)
      → existing slot generation before ≡ f
      → IsFor (slot, generation) created
      → AreOwn before.segments before.generations
      → AreOwn later.segments later.generations
      → IsOwn (slot, generation) (segment_found slot generation created f before later)
  unfolding install
  found-IsOwn slot generation created settled_round before later e made h k = tt
  found-IsOwn slot generation created (found (some seg)) before later e made h k =
      let (current, there) = existing-found slot generation before (some seg) e in
      h slot seg there
      ∙ ap (λ g. (slot, g)) (eq_of_eqb (generation_at slot before) generation current)
  found-IsOwn slot generation none (found none) before later e made h k = tt
  found-IsOwn slot generation (some new) (found none) before later e made h k =
      install-IsOwn slot generation new later _ refl made k

  -- In every run from no slots, of deliveries and batches opened, members that settle and rounds
  -- that queue, stale ones too, where a member settles and a round queues only while the slot has
  -- an unsettled delivery: a round that asks for its segment, and finds the slots of one such run
  -- and, once the client answered, those of another, is refused, or given a segment that was made
  -- for its own slot and generation; and a slot that is opened next holds no segment.
  pub segment-IsOwn :
      {before later : Slots Seg}
      → Run made_for no_slots before
      → Run made_for no_slots later
      → (slot generation : ℕ) (created : Option Seg) → IsFor (slot, generation) created
      → (members : ℕ)
      → IsOwn (slot, generation) (segment slot generation created before later)
        × (existing
              (open_slot members later).0.0
              (open_slot members later).0.1
              (open_slot members later).1
            ≡ found none)
  unfolding segment
  segment-IsOwn {before} {later} run run' slot generation created made members = (
    found-IsOwn slot generation created _ before later refl made (Run-AreOwn run) (Run-AreOwn run'),
    open_slot_empty made_for run' members,
  )
