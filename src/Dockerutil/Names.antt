-- ===== src/Dockerutil/Names.antt =====
-- The names of dockerutil/strings.go. A text is cut by bytes, as in Go; a cut inside a character,
-- which Go would leave broken, drops the character here.
pub mod Laws
use Prim.Native.Char.{Char, code}
use Prim.Native.String
use Prim.Native.String.{len, slice}
use interchaintest.Base.{
  ℕ, ◌-◌, String, Bool, ◌&&◌, ◌||◌, ltb, leb, if◌then◌else◌, ◌==◌, cat, nat_eq,
}

-- `CondenseHostName`
unfoldable pub condense_host_name : String → String
condense_host_name name =
    if ltb (len name) 64
    then name
    else cat (slice name 0 30) (cat "_._" (slice name (len name - 30) (len name)))

-- The class `[a-zA-Z0-9_.-]`.
unfoldable pub is_valid_char : ℕ → Bool
is_valid_char c =
    (leb b'a' c && leb c b'z')
    || (leb b'A' c && leb c b'Z')
    || (leb b'0' c && leb c b'9')
    || c == b'_'
    || c == b'.'
    || c == b'-'

-- `ReplaceAllLiteralString` at one character.
unfoldable pub clean : Char → Char
unfolding is_valid_char
clean c = if is_valid_char (code c) then c else "_"

-- `SanitizeContainerName`
unfoldable pub sanitize_container_name : String → String
unfolding clean
sanitize_container_name String.[] = ""
sanitize_container_name (String.◌∷◌ c s) = String.◌∷◌ (clean c) (sanitize_container_name s)
