-- ===== src/Server/Glob/Plain.antt =====
-- What a pattern without special bytes matches, alone and before a star.
use ruststream_fred.Common.{
  ℕ, zero, suc, ◌+◌, ◌≤◌, ◌<◌, ◌≡◌, refl, Bool, true, false, ◌&&◌, ◌||◌, not, [], ◌∷◌, ◌++◌, eqb,
  length, arith,
}
use ruststream_fred.Server.Text.{Bytes}
use ruststream_fred.Server.Glob.{matches_from, matches, trim_stars}

-- No byte of a pattern is special.
abbrev pub is_plain : Bytes → Bool
is_plain [] = true
is_plain (c ∷ cs) = not (eqb c b'*' || eqb c b'?' || eqb c b'[' || eqb c b'\\') && is_plain cs

abbrev pub is_same : Bytes → Bytes → Bool
is_same [] [] = true
is_same [] (t ∷ ts) = false
is_same (c ∷ cs) [] = false
is_same (c ∷ cs) (t ∷ ts) = eqb t c && is_same cs ts

abbrev pub is_prefix : Bytes → Bytes → Bool
is_prefix [] text = true
is_prefix (c ∷ cs) [] = false
is_prefix (c ∷ cs) (t ∷ ts) = eqb t c && is_prefix cs ts

same_from :
    (fuel : ℕ) (p text : Bytes)
    → length p ≤ fuel
    → is_plain p ≡ true
    → matches_from fuel p text ≡ is_same p text
unfolding matches_from
same_from fuel [] [] h plain = refl
same_from fuel [] (t ∷ ts) h plain = refl
same_from zero (c ∷ cs) text h plain = ground arith
same_from (suc fuel) (c ∷ cs) [] h plain = ground arith
same_from (suc fuel) (c ∷ cs) (t ∷ ts) h plain = ground (arith, same_from fuel cs ts)

prefix_from :
    (fuel : ℕ) (p text : Bytes)
    → length p < fuel
    → is_plain p ≡ true
    → matches_from fuel (p ++ b'*' ∷ []) text ≡ is_prefix p text
unfolding matches_from trim_stars
prefix_from zero p text h plain = ground arith
prefix_from (suc fuel) [] [] h plain = refl
prefix_from (suc fuel) [] (t ∷ ts) h plain = refl
prefix_from (suc fuel) (c ∷ cs) [] h plain = ground arith
prefix_from (suc fuel) (c ∷ cs) (t ∷ ts) h plain = ground (arith, prefix_from fuel cs ts)

length_star : (p : Bytes) → length (p ++ b'*' ∷ []) ≡ length p + 1
length_star [] = refl
length_star (c ∷ cs) = omega (arith, length_star cs)

-- A pattern of bytes none of which is special matches exactly the text that is the same bytes.
pub matches-plain : (p text : Bytes) → is_plain p ≡ true → matches p text ≡ is_same p text
unfolding matches
matches-plain p text plain = same_from (length p) p text (omega arith) plain

-- A pattern of bytes none of which is special, followed by a star, matches a text exactly where
-- those bytes are a prefix of it.
pub matches-prefix :
    (p text : Bytes) → is_plain p ≡ true → matches (p ++ b'*' ∷ []) text ≡ is_prefix p text
unfolding matches
matches-prefix p text plain =
    prefix_from (length (p ++ b'*' ∷ [])) p text (omega (arith, length_star p)) plain
