-- ===== src/Server/Tests/Globbed.antt =====
-- Patterns without special bytes.
use ruststream_fred.Common.{◌≡◌, refl, true, [], ◌∷◌, ◌++◌}
use ruststream_fred.Server.Text.{b}
use ruststream_fred.Server.Glob.{matches}
use ruststream_fred.Server.Glob.Plain.{matches-prefix}

matches-prefix_example : matches (b "news." ++ b'*' ∷ []) (b "news.today") ≡ true
matches-prefix_example = matches-prefix (b "news.") (b "news.today") refl
