-- ===== src/Pipeline/Slots/Laws.antt =====
-- What a round reaches, before and past the settle of its delivery.
use ruststream_fred.Common.{
  ℕ, zero, suc, ◌+◌, ◌-◌, ◌%◌, ◌^◌, ◌<◌, ◌≤◌, ◌≡◌, refl, sym, ap, arith, Bool, true, false, ◌&&◌,
  List, [], ◌∷◌, ◌++◌, Option, none, some, eqb, ltb, length, length-append, get_elem?,
  if◌then◌else◌,
}
use ruststream_fred.Pipeline.Slots.{
  set_elem, value_or, Slots, Closed, settled_round, generation_at, segment_at, pick, open_picked,
  open_slot, close_left, close_found, close_slot, existing, install, segment,
}

pub get_elem?-set_elem :
    {A : Type 0} (i : ℕ) (x : A) (xs : List A)
    → i < length xs
    → get_elem? (set_elem i x xs) i ≡ some x
unfolding set_elem
get_elem?-set_elem i x [] h = ground arith
get_elem?-set_elem zero x (y ∷ ys) h = refl
get_elem?-set_elem (suc i) x (y ∷ ys) h = get_elem?-set_elem i x ys (omega (arith, h))

pub length-set_elem :
    {A : Type 0} (i : ℕ) (x : A) (xs : List A) → length (set_elem i x xs) ≡ length xs
unfolding set_elem
length-set_elem i x [] = refl
length-set_elem zero x (y ∷ ys) = refl
length-set_elem (suc i) x (y ∷ ys) = omega (arith, length-set_elem i x ys)

get_elem?_past : {A : Type 0} (i : ℕ) (xs : List A) → length xs ≤ i → get_elem? xs i ≡ none
get_elem?_past i [] h = refl
get_elem?_past zero (x ∷ xs) h = ground arith
get_elem?_past (suc i) (x ∷ xs) h = get_elem?_past i xs (omega (arith, h))

pub get_elem?_last :
    {A : Type 0} (x : A) (xs : List A) → get_elem? (xs ++ x ∷ []) (length xs) ≡ some x
get_elem?_last x [] = refl
get_elem?_last x (y ∷ ys) = get_elem?_last x ys

-- Each list of the slots has a place for each slot, and the free slots are some of them.
abbrev pub AllBelow : ℕ → List ℕ → Type 0
AllBelow n [] = Unit
AllBelow n (x ∷ xs) = (x < n) × AllBelow n xs

pub record IsSized {Seg : Type 0} (s : Slots Seg) : Type 0 where
  pub members_size : length s.members ≡ length s.segments
  pub clean_size : length s.clean ≡ length s.segments
  pub generations_size : length s.generations ≡ length s.segments
  pub free_below : AllBelow (length s.segments) s.free

-- Past 2 ^ 32 generations they start again; the next one is another all the same.
next_generation : (g : ℕ) → eqb ((g + 1) % 2 ^ 32) g ≡ false
next_generation g = ground arith

pub eqb_self : (n : ℕ) → eqb n n ≡ true
eqb_self n = ground arith

module _ {Seg : Type 0} where
  opened_stale :
      (members slot : ℕ) (s : Slots Seg)
      → slot < length s.generations
      → existing slot (generation_at slot s) (open_picked members (slot, s)).1 ≡ settled_round
  unfolding existing
  opened_stale members slot s h =
      rw
        (
          get_elem?-set_elem slot ((generation_at slot s + 1) % 2 ^ 32) s.generations h,
          next_generation (generation_at slot s),
        )
        refl

  free_stale :
      (members : ℕ) (free : List ℕ) (s : Slots Seg)
      → IsSized s
      → AllBelow (length s.segments) free
      → existing
          (open_picked members (pick free s)).0.0
          (generation_at (open_picked members (pick free s)).0.0 s)
          (open_picked members (pick free s)).1
        ≡ settled_round
  unfolding existing
  free_stale members (slot ∷ free) s sized (below, rest) =
      opened_stale members slot (record s { free = free })
        (omega (arith, sized.generations_size, below))
  free_stale members [] s sized below =
      let grown = s.generations ++ 0 ∷ [] in
      rw
        (
          sym sized.generations_size,
          get_elem?-set_elem (length s.generations)
              ((value_or 0 (get_elem? grown (length s.generations)) + 1) % 2 ^ 32) grown
              (omega (arith, length-append s.generations (0 ∷ []))),
          get_elem?_last 0 s.generations,
          get_elem?_past (length s.generations) s.generations (omega arith),
        )
        refl

  -- Once a slot of a well-sized window is opened again, the round of the delivery before is refused
  -- there, also when the generations have gone round.
  pub existing-open_slot :
      (members : ℕ) (s : Slots Seg)
      → IsSized s
      → existing
          (open_slot members s).0.0
          (generation_at (open_slot members s).0.0 s)
          (open_slot members s).1
        ≡ settled_round
  unfolding open_slot
  existing-open_slot members s sized = free_stale members s.free s sized sized.free_below

  -- The slots past the last settle of one of them.
  abbrev given_back : ℕ → ℕ → Bool → Slots Seg → Slots Seg
  given_back slot left clean s = record s {
    members = set_elem slot left s.members;
    clean = set_elem slot clean s.clean;
    segments = set_elem slot none s.segments;
    free = slot ∷ s.free;
  }

  not_the_last :
      (more : Bool) (u v : Option (Closed Seg) × Slots Seg) (c : Closed Seg) (s' : Slots Seg)
      → u.0 ≡ none
      → (if more then u else v) ≡ (some c, s')
      → v ≡ (some c, s')
  not_the_last true u v c s' none_closed e = ground (arith, none_closed, e)
  not_the_last false u v c s' none_closed e = e

  last_closed :
      (slot left : ℕ) (clean : Bool) (s s' : Slots Seg) (c : Closed Seg)
      → close_left slot left clean s ≡ (some c, s')
      → given_back slot left clean s ≡ s'
  last_closed slot left clean s s' c e =
      ap (λ (p : Option (Closed Seg) × Slots Seg). p.1) (not_the_last (ltb 0 left) _ _ c s' refl e)

  record IsGivenBack (slot : ℕ) (s s' : Slots Seg) : Type 0 where
    left : ℕ
    clean : Bool
    is_state : given_back slot left clean s ≡ s'

  close_found-IsGivenBack :
      (slot : ℕ) (acknowledged : Bool) (o : Option ℕ) (s s' : Slots Seg) (c : Closed Seg)
      → close_found slot acknowledged o s ≡ some (some c, s')
      → IsGivenBack slot s s'
  close_found-IsGivenBack slot acknowledged none s s' c e = ground (arith, e)
  close_found-IsGivenBack slot acknowledged (some n) s s' c e = record {
    left = n - 1;
    clean = value_or true (get_elem? s.clean slot) && acknowledged;
    is_state =
        last_closed slot (n - 1) (value_or true (get_elem? s.clean slot) && acknowledged) s s' c
          (ap (value_or (some c, s')) e);
  }

  -- A segment put into a slot.
  abbrev pub joined : ℕ → Seg → Slots Seg → Slots Seg
  joined slot new s = record s { segments = set_elem slot (some new) s.segments }

  late_joins :
      (slot members left : ℕ) (clean : Bool) (new : Seg) (s : Slots Seg)
      → slot < length s.segments
      → (segment slot
            (generation_at slot s)
            (some new)
            (given_back slot left clean s)
            (given_back slot left clean s)
          ≡ some (new, joined slot new (given_back slot left clean s)))
        × (((open_slot members (joined slot new (given_back slot left clean s))).0.0 ≡ slot)
            × (segment_at slot
                  (open_slot members (joined slot new (given_back slot left clean s))).1
                ≡ some new))
  unfolding segment existing install open_slot
  late_joins slot members left clean new s below =
      let taken = get_elem?-set_elem slot none s.segments below in
      let still : slot < length (set_elem slot none s.segments) =
        omega (arith, below, length-set_elem slot none s.segments) in
      (
        rw (eqb_self (generation_at slot s), taken)
            (rw (eqb_self (generation_at slot s), taken) refl),
        (refl, rw (get_elem?-set_elem slot (some new) (set_elem slot none s.segments) still) refl),
      )

  -- A round that queues past the last settle of its delivery and before its slot is opened again is
  -- not refused: its segment is put into the free slot, and the next delivery to open takes that
  -- slot with the segment in it.
  pub late_round_joins :
      (slot members : ℕ) (acknowledged : Bool) (new : Seg) (s s' : Slots Seg) (c : Closed Seg)
      → slot < length s.segments
      → close_slot slot acknowledged s ≡ some (some c, s')
      → (segment slot (generation_at slot s) (some new) s' s' ≡ some (new, joined slot new s'))
        × (((open_slot members (joined slot new s')).0.0 ≡ slot)
            × (segment_at slot (open_slot members (joined slot new s')).1 ≡ some new))
  unfolding close_slot
  late_round_joins slot members acknowledged new s s' c below e =
      let g = close_found-IsGivenBack slot acknowledged (get_elem? s.members slot) s s' c e in
      rw (sym g.is_state) (late_joins slot members g.left g.clean new s below)
