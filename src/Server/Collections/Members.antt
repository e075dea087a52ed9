-- ===== src/Server/Collections/Members.antt =====
-- What adding members to a hash or a set and removing them does, and the counts they answer.
use ruststream_fred.Common.{
  ◌+◌, ◌≡◌, refl, Bool, false, List, [], ◌∷◌, none, arith, length, if◌then◌else◌, ◌||◌,
}
use ruststream_fred.Common.Order.{◌==◌, bytes_ord}
use ruststream_fred.Common.Map.{Map, get, remove, get-remove}
use ruststream_fred.Common.Map.Sorted.{IsSorted, length-remove, remove-IsSorted}
use ruststream_fred.Server.Text.{Bytes}
use ruststream_fred.Server.Collections.{remove_keys}

-- Whether a name is in a list.
abbrev pub is_named : Bytes → List Bytes → Bool
is_named k [] = false
is_named k (x ∷ xs) = x == k || is_named k xs

-- `HDEL` and `SREM` take each named field or member out of the map they remove from, and leave
-- every other as it was.
pub get-remove_keys :
    {V : Type 0} (k : Bytes) (names : List Bytes) (m : Map Bytes V)
    → get k (remove_keys names m).1 ≡ (if is_named k names then none else get k m)
unfolding remove_keys
get-remove_keys k [] m = refl
get-remove_keys k (x ∷ xs) m = ground (arith, get-remove_keys k xs (remove x m), get-remove x k m)

-- On a map sorted by key, the number that a removal of fields or members answers is as many as the
-- map lost: one named twice, or not there, is not counted again.
pub length-remove_keys :
    {V : Type 0} (names : List Bytes) (m : Map Bytes V)
    → IsSorted m
    → (remove_keys names m).0 + length (remove_keys names m).1 ≡ length m
unfolding remove_keys
length-remove_keys [] m s = omega arith
length-remove_keys (x ∷ xs) m s =
    ground (arith, length-remove_keys xs (remove x m) (remove-IsSorted x m s), length-remove x m s)
