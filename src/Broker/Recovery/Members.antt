-- ===== src/Broker/Recovery/Members.antt =====
-- A claim's member in the recovery set.
use ruststream_fred.Common.{
  ℕ, ◌+◌, ◌*◌, ◌/◌, ◌%◌, ◌^◌, ◌<◌, ◌≡◌, refl, sym, ap, ◌∙◌, arith, [], ◌∷◌, ◌++◌, some, drop,
}
use ruststream_fred.Server.Text.{Bytes}
use ruststream_fred.Envelope.Wire.{from_be_bytes, u32_bytes}
use ruststream_fred.Broker.Recovery.{claim_member, value_from_member}

value_of_claim :
    (process_id n : ℕ) (value : Bytes)
    → value_from_member (claim_member process_id n value) ≡ some value
unfolding claim_member value_from_member u32_bytes
value_of_claim process_id n value = ground arith

-- The number that four bytes at the front make.
four : Bytes → ℕ
four (x ∷ y ∷ z ∷ u ∷ xs) = from_be_bytes 0 (x ∷ y ∷ z ∷ u ∷ [])
four _ = 0

four_of : (n : ℕ) (xs : Bytes) → n < 2 ^ 32 → four (u32_bytes n ++ xs) ≡ n
unfolding four u32_bytes
four_of n xs fits = omega (arith, fits)

drop_four : (n : ℕ) (xs : Bytes) → drop 4 (u32_bytes n ++ xs) ≡ xs
unfolding u32_bytes
drop_four n xs = refl

-- The number of a claim, read off its member.
claim_number : Bytes → ℕ
claim_number member = four (drop 4 member) * 2 ^ 32 + four (drop 8 member)

number_of_claim :
    (process_id n : ℕ) (value : Bytes)
    → n < 2 ^ 64
    → claim_number (claim_member process_id n value) ≡ n
unfolding claim_number claim_member four u32_bytes
number_of_claim process_id n value fits =
    let high = four_of (n / 2 ^ 32) value (omega (arith, fits)) in
    let low = four_of (n % 2 ^ 32) value (omega arith) in omega (arith, high, low)

-- A claim's member gives back the value that it was made of, and the members of two claims of one
-- process are equal only where their numbers are, whatever the values: for numbers of 64 bits.
pub value_from_member-claim_member :
    (process_id n n' : ℕ) (value value' : Bytes)
    → n < 2 ^ 64
    → n' < 2 ^ 64
    → (value_from_member (claim_member process_id n value) ≡ some value)
      × (claim_member process_id n value ≡ claim_member process_id n' value' → n ≡ n')
value_from_member-claim_member process_id n n' value value' fits fits' = (
  value_of_claim process_id n value,
  λ same.
      sym (number_of_claim process_id n value fits)
      ∙ ap claim_number same
      ∙ number_of_claim process_id n' value' fits',
)
