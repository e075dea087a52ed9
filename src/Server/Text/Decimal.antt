-- ===== src/Server/Text/Decimal.antt =====
-- Decimal numbers: `to_string` of an integer, and `parse` into `u64` and `i64`.
use ruststream_fred.Common.{
  ℕ, zero, suc, ◌+◌, ◌-◌, ◌*◌, ◌/◌, ◌%◌, ◌^◌, ◌≤◌, ◌<◌, ◌≡◌, refl, ap, ◌∙◌, Bool, false, ◌&&◌, List,
  [], ◌∷◌, Option, none, some, arith, leb, ltb, is_nil, if◌then◌else◌,
}
use ruststream_fred.Common.Int.{ℤ, pos, negsuc}

abbrev pub u64_max : ℕ
u64_max = 2 ^ 64 - 1

abbrev pub i64_max : ℕ
i64_max = 2 ^ 63 - 1

-- The digits of `n` in front of `acc`, with fuel for each digit.
digits : ℕ → ℕ → List ℕ → List ℕ
digits zero n acc = acc
digits (suc fuel) n acc =
    let rest = digits fuel (n / 10) ((b'0' + n % 10) ∷ acc) in
    if ltb n 10 then (b'0' + n) ∷ acc else rest

-- `to_string` of an unsigned number.
unfoldable pub print : ℕ → List ℕ
unfolding digits
print n = digits (suc n) n []

unfoldable pub print_int : ℤ → List ℕ
unfolding print
print_int (pos n) = print n
print_int (negsuc n) = b'-' ∷ print (suc n)

is_digit : ℕ → Bool
is_digit c = leb b'0' c && leb c b'9'

-- The value of a run of digits behind those that make `acc`, refused at an overflow of `limit`.
value : ℕ → ℕ → List ℕ → Option ℕ
unfolding is_digit
value limit acc [] = some acc
value limit acc (c ∷ cs) =
    let rest = value limit (acc * 10 + (c - b'0')) cs in
    if is_digit c && leb (acc * 10 + (c - b'0')) limit then rest else none

-- Digits, at least one.
number : ℕ → List ℕ → Option ℕ
unfolding value
number limit [] = none
number limit (c ∷ cs) = value limit 0 (c ∷ cs)

-- `parse::<u64>`: a sign `+` is allowed.
unfoldable pub parse_u64 : List ℕ → Option ℕ
unfolding number
parse_u64 [] = none
parse_u64 (c ∷ cs) = if leb c b'+' && leb b'+' c then number u64_max cs else number u64_max (c ∷ cs)

negated : Option ℕ → Option ℤ
negated none = none
negated (some zero) = some (pos 0)
negated (some (suc n)) = some (negsuc n)

positive : Option ℕ → Option ℤ
positive none = none
positive (some n) = some (pos n)

-- `parse::<i64>`
unfoldable pub parse_i64 : List ℕ → Option ℤ
unfolding number negated positive
parse_i64 [] = none
parse_i64 (c ∷ cs) =
    if leb c b'+' && leb b'+' c
    then positive (number i64_max cs)
    else if leb c b'-' && leb b'-' c
    then negated (number (i64_max + 1) cs)
    else positive (number i64_max (c ∷ cs))

-- Every byte is a digit.
abbrev pub AllDigits : List ℕ → Type 0
AllDigits [] = Unit
AllDigits (c ∷ cs) = (b'0' ≤ c) × (c ≤ b'9') × AllDigits cs

digits-AllDigits :
    (fuel n : ℕ) (acc : List ℕ) → n < fuel → AllDigits acc → AllDigits (digits fuel n acc)
unfolding digits
digits-AllDigits zero n acc h a = absurd (omega arith)
digits-AllDigits (suc fuel) n acc h a =
    ground (arith, digits-AllDigits fuel (n / 10) ((b'0' + n % 10) ∷ acc))

pub print-AllDigits : (n : ℕ) → AllDigits (print n)
unfolding print
print-AllDigits n = digits-AllDigits (suc n) n [] (omega arith) tt

digits_nonempty : (fuel n : ℕ) (acc : List ℕ) → n < fuel → is_nil (digits fuel n acc) ≡ false
unfolding digits
digits_nonempty zero n acc h = absurd (omega arith)
digits_nonempty (suc fuel) n acc h =
    ground (arith, digits_nonempty fuel (n / 10) ((b'0' + n % 10) ∷ acc))

-- Reading the digits of `n` in front of `acc` is reading `acc` behind the value `n`.
value-digits :
    (fuel n limit : ℕ) (acc : List ℕ)
    → n < fuel
    → n ≤ limit
    → value limit 0 (digits fuel n acc) ≡ value limit n acc
unfolding digits value
value-digits zero n limit acc h k = absurd (omega arith)
value-digits (suc fuel) n limit acc h k =
    ground (arith, value-digits fuel (n / 10) limit ((b'0' + n % 10) ∷ acc))

-- On digits alone, the signs play no part.
parse_u64_unsigned :
    (cs : List ℕ) → AllDigits cs → is_nil cs ≡ false → parse_u64 cs ≡ value u64_max 0 cs
unfolding parse_u64
parse_u64_unsigned [] a h = cc
parse_u64_unsigned (c ∷ cs) a h = ground arith

-- A number in range is read back from its digits.
pub parse_u64-print : (n : ℕ) → n ≤ u64_max → parse_u64 (print n) ≡ some n
unfolding print value
parse_u64-print n h =
    parse_u64_unsigned (print n) (print-AllDigits n) (digits_nonempty (suc n) n [] (omega arith))
    ∙ value-digits (suc n) n u64_max [] (omega arith) h

parse_i64_unsigned :
    (cs : List ℕ) → AllDigits cs → is_nil cs ≡ false → parse_i64 cs ≡ positive (value i64_max 0 cs)
unfolding parse_i64
parse_i64_unsigned [] a h = cc
parse_i64_unsigned (c ∷ cs) a h = ground arith

parse_i64_minus : (cs : List ℕ) → parse_i64 (b'-' ∷ cs) ≡ negated (number (i64_max + 1) cs)
unfolding parse_i64
parse_i64_minus cs = refl

number_lem : (limit : ℕ) (cs : List ℕ) → is_nil cs ≡ false → number limit cs ≡ value limit 0 cs
unfolding number
number_lem limit [] h = cc
number_lem limit (c ∷ cs) h = refl

-- The range of an `i64`.
abbrev pub IsI64 : ℤ → Type 0
IsI64 (pos n) = n ≤ i64_max
IsI64 (negsuc n) = n ≤ i64_max

-- An integer in range is read back from its digits and its sign.
pub parse_i64-print_int : (z : ℤ) → IsI64 z → parse_i64 (print_int z) ≡ some z
unfolding print_int value positive negated
parse_i64-print_int (pos n) h =
    parse_i64_unsigned (print n) (print-AllDigits n) (digits_nonempty (suc n) n [] (omega arith))
    ∙ ap positive (value-digits (suc n) n i64_max [] (omega arith) h)
parse_i64-print_int (negsuc n) h =
    parse_i64_minus (print (suc n))
    ∙ ap negated (
        number_lem (i64_max + 1) (print (suc n))
          (digits_nonempty (suc (suc n)) (suc n) [] (omega arith))
        ∙ value-digits (suc (suc n)) (suc n) (i64_max + 1) [] (omega arith) (omega arith))
