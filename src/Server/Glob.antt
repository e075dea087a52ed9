-- ===== src/Server/Glob.antt =====
-- in_process/glob.rs: the glob of a `PSUBSCRIBE` pattern.
pub mod Plain
use ruststream_fred.Common.{
  ℕ, zero, suc, Bool, false, ◌&&◌, ◌||◌, not, [], ◌∷◌, eqb, leb, length, drop, min, max, is_nil,
  if◌then◌else◌,
}
use ruststream_fred.Server.Text.{Bytes}

-- `trim_stars`
unfoldable pub trim_stars : Bytes → Bytes
trim_stars [] = []
trim_stars (c ∷ cs) = let rest = trim_stars cs in if eqb c b'*' then rest else c ∷ cs

-- Some suffix of `text`, itself and the empty one included, satisfies `p`.
unfoldable pub any_suffix : (Bytes → Bool) → Bytes → Bool
any_suffix p [] = p []
any_suffix p (c ∷ cs) = p (c ∷ cs) || any_suffix p cs

-- The loop of `class`: whether the byte was hit, and the pattern past the class.
class_from : ℕ → Bool → Bytes → ℕ → Bool × Bytes
class_from zero hit cs byte = (hit, [])
class_from (suc fuel) hit [] byte = (hit, [])
class_from (suc fuel) hit (c ∷ []) byte = if eqb c b']' then (hit, []) else (hit || eqb c byte, [])
class_from (suc fuel) hit (c ∷ d ∷ []) byte =
    let escaped = class_from fuel (hit || eqb d byte) [] byte in
    let plain = class_from fuel (hit || eqb c byte) (d ∷ []) byte in
    if eqb c b']' then (hit, d ∷ []) else if eqb c b'\\' then escaped else plain
class_from (suc fuel) hit (c ∷ d ∷ e ∷ cs) byte =
    let escaped = class_from fuel (hit || eqb d byte) (e ∷ cs) byte in
    let range = class_from fuel (hit || (leb (min c e) byte && leb byte (max c e))) cs byte in
    let plain = class_from fuel (hit || eqb c byte) (d ∷ e ∷ cs) byte in
    if eqb c b']'
    then (hit, d ∷ e ∷ cs)
    else if eqb c b'\\'
    then escaped
    else if eqb d b'-' && not (eqb e b']')
    then range
    else plain

-- `class`: a `^` negates, and each round takes a byte at least.
class : Bytes → ℕ → Bool × Bytes
unfolding class_from
class [] byte = (false, [])
class (c ∷ cs) byte =
    let (hit, rest) = class_from (length cs) false cs byte in
    if eqb c b'^' then (not hit, rest) else class_from (suc (length cs)) false (c ∷ cs) byte

abbrev starts : Bytes → ℕ → Bool
starts [] x = false
starts (d ∷ ds) x = eqb x d

-- `matches`, with fuel for each byte of the pattern.
matches_from : ℕ → Bytes → Bytes → Bool
unfolding trim_stars any_suffix class
matches_from fuel [] text = is_nil text
matches_from zero (c ∷ cs) text = false
matches_from (suc fuel) (c ∷ cs) [] =
    let starred = matches_from fuel (trim_stars cs) [] in
    if eqb c b'*' then is_nil (trim_stars cs) || starred else false
matches_from (suc fuel) (c ∷ cs) (t ∷ text) =
    let starred = any_suffix (matches_from fuel (trim_stars cs)) (t ∷ text) in
    let one = matches_from fuel cs text in
    let (hit, past) = class cs t in
    let in_class = matches_from fuel past text in
    let escaped = matches_from fuel (drop 1 cs) text in
    if eqb c b'*'
    then is_nil (trim_stars cs) || starred
    else if eqb c b'?'
    then one
    else if eqb c b'['
    then hit && in_class
    else if eqb c b'\\' && not (is_nil cs)
    then starts cs t && escaped
    else eqb t c && one

unfoldable pub matches : Bytes → Bytes → Bool
unfolding matches_from
matches pattern text = matches_from (length pattern) pattern text
