-- ===== src/Cosmos/Modules/Tx.antt =====
-- What the transactions of the modules share.
use interchaintest.Base.{String, Bool, List, [], if◌then◌else◌, nat_eq, string_eq}
use interchaintest.Base.Actions.{Action, ◌>>◌, return}
use interchaintest.Dockerutil.{Host}

-- The error of a transaction, without its hash.
abbrev pub only : Action Host String → Action Host (Unit {0})
only m = do m; return tt

abbrev pub if_any : Bool → List String → List String
if_any b flags = if b then flags else []
