-- ===== src/Broker/Calls.antt =====
-- How the broker calls its client (delay.rs, recovery.rs): a call answers or fails, and a failed
-- call ends the operation, as `?` does.
use ruststream_fred.Common.{◌≡◌, refl, ◌∙◌, arith, Bool, true, false}

-- What a call of the client answers, and the state it leaves.
pub data Reply (A : Type 0) : Type 0 where
  replied : A → Reply A
  failed : Reply A

abbrev pub went_through : {A : Type 0} → Reply A → Bool
went_through (replied a) = true
went_through failed = false

module _ {S : Type 0} where
  abbrev pub and_then : {A B : Type 0} → Reply A × S → (A → S → Reply B × S) → Reply B × S
  and_then (replied a, s) f = f a s
  and_then (failed, s) f = (failed, s)

  -- Two steps keep a count where each does.
  pub chained :
      {A B Count : Type 0} (total : S → Count) (r : Reply A × S) (rest : S → Reply B × S) (s : S)
      → (went_through r.0 ≡ true → total r.1 ≡ total s)
      → ((t : S) → went_through (rest t).0 ≡ true → total (rest t).1 ≡ total t)
      → went_through (and_then r (λ u t. rest t)).0 ≡ true
      → total (and_then r (λ u t. rest t)).1 ≡ total s
  chained total (replied u, t) rest s first later w = later t w ∙ first refl
  chained total (failed, t) rest s first later w = ground (arith, w)
