-- ===== src/Cosmos/Monikers.antt =====
-- `CondenseMoniker` of chain/cosmos/chain_node.go. A text is cut by bytes, as in Go; a cut inside a
-- character, which Go would leave broken, drops the character here.
use Prim.Native.String
use Prim.Native.String.{len, slice}
use interchaintest.Base.{ℕ, ◌-◌, String, ltb, leb, if◌then◌else◌, cat, ◌/◌, nat_eq, string_eq}
use interchaintest.Base.Actions.{Ended, done, panics}
use interchaintest.Cosmos.{Packages}
pub mod Laws

-- The text that is kept, at `keep` bytes from each end.
abbrev pub condensed : String → String → ℕ → String
condensed m suffix keep =
    cat (slice m 0 keep) (cat "..." (cat (slice m (len m - keep) (len m)) suffix))

-- A negative number of bytes to keep panics.
unfoldable pub condense_moniker : Packages → String → Ended String
condense_moniker packages m =
    let suffix = cat "-" (packages.hash_base36 m) in
    let want_len = packages.max_moniker_length - len suffix in
    if leb (len m) packages.max_moniker_length
    then done m
    else if ltb (want_len / 2) 2
    then panics
    else done (condensed m suffix (want_len / 2 - 2))
