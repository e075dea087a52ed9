-- ===== src/Server/Tests/Collected.antt =====
-- Removals from a concrete hash.
use ruststream_fred.Common.{[], ◌∷◌}
use ruststream_fred.Common.Order.{bytes_ord}
use ruststream_fred.Common.Map.{Map}
use ruststream_fred.Server.Text.{Bytes, b}

abbrev colours : Map Bytes Bytes
colours = (b "a", b "red") ∷ (b "b", b "blue") ∷ []
