-- ===== src/Ibc/Transfer.antt =====
-- `GetTransferChannel` of ibc/relayer.go. What the relayer answers about the source chain is a
-- parameter: `none` is an error of the call.
use interchaintest.Base.{
  String, Bool, true, false, not, ◌&&◌, Option, none, some, List, [], ◌∷◌, if◌then◌else◌, ◌==◌,
  string_eq,
}
pub mod Search

-- `ClientOutput`, with the one field of its `ClientState`.
pub record ClientOutput : Type 0 where
  pub client_id : String
  pub chain_id : String

pub record ConnectionOutput : Type 0 where
  pub id : String
  pub client_id : String

pub record ChannelCounterparty : Type 0 where
  pub port_id : String
  pub channel_id : String

pub record ChannelOutput : Type 0 where
  pub state : String
  pub ordering : String
  pub counterparty : ChannelCounterparty
  pub connection_hops : List String
  pub version : String
  pub port_id : String
  pub channel_id : String

pub data TransferError : Type 0 where
  clients_failed no_clients many_clients no_client : TransferError
  connections_failed no_connections many_connections no_connection : TransferError
  channels_failed no_channels many_channels no_channel : TransferError

pub data Result {ℓ} (A : Type ℓ) : Type ℓ where
  ok : A → Result A
  err : TransferError → Result A

infixl 5 ◌>>=◌
abbrev pub ◌>>=◌ {ℓ κ} : {A : Type ℓ} {B : Type κ} → Result A → (A → Result B) → Result B
ok a >>= f = f a
err e >>= f = err e

-- An answer of the relayer, which must not be an error and must not be empty.
abbrev pub nonempty {ℓ} :
    {A : Type ℓ} → TransferError → TransferError → Option (List A) → Result (List A)
nonempty failed empty none = err failed
nonempty failed empty (some []) = err empty
nonempty failed empty (some (x ∷ xs)) = ok (x ∷ xs)

-- The loops over the clients and over the connections: "" says that none was found yet.
unfoldable pub scan_clients : String → String → List ClientOutput → Result String
scan_clients dst found [] = ok found
scan_clients dst found (c ∷ cs) =
    let rest = scan_clients dst (if c.chain_id == dst then c.client_id else found) cs in
    if c.chain_id == dst && not (found == "") then err many_clients else rest

unfoldable pub scan_connections : String → String → List ConnectionOutput → Result String
scan_connections client found [] = ok found
scan_connections client found (c ∷ cs) =
    let rest = scan_connections client (if c.client_id == client then c.id else found) cs in
    if c.client_id == client && not (found == "") then err many_connections else rest

abbrev pub hops_over : String → List String → Bool
hops_over conn (hop ∷ []) = hop == conn
hops_over conn _ = false

-- The test of the loop over the channels.
abbrev pub is_transfer : String → ChannelOutput → Bool
is_transfer conn ch = hops_over conn ch.connection_hops && ch.port_id == "transfer"

abbrev is_set : Option ChannelOutput → Bool
is_set none = false
is_set (some ch) = true

unfoldable pub scan_channels :
    String → Option ChannelOutput → List ChannelOutput → Result (Option ChannelOutput)
scan_channels conn found [] = ok found
scan_channels conn found (ch ∷ chs) =
    let rest = scan_channels conn (if is_transfer conn ch then some ch else found) chs in
    if is_transfer conn ch && is_set found then err many_channels else rest

-- `if id == "" { return … }`
abbrev pub found_id : TransferError → String → Result String
found_id e id = if id == "" then err e else ok id

abbrev pub found_channel : Option ChannelOutput → Result ChannelOutput
found_channel none = err no_channel
found_channel (some ch) = ok ch

module _ (get_clients : String → Option (List ClientOutput))
    (get_connections : String → Option (List ConnectionOutput))
    (get_channels : String → Option (List ChannelOutput)) where
  unfoldable pub get_transfer_channel : String → String → Result ChannelOutput
  unfolding scan_clients scan_connections scan_channels
  get_transfer_channel src dst = do
    clients ← nonempty clients_failed no_clients (get_clients src)
    client ← scan_clients dst "" clients
    client ← found_id no_client client
    connections ← nonempty connections_failed no_connections (get_connections src)
    conn ← scan_connections client "" connections
    conn ← found_id no_connection conn
    channels ← nonempty channels_failed no_channels (get_channels src)
    ch ← scan_channels conn none channels
    found_channel ch
