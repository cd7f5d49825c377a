-- ===== src/Tests/Ibc.antt =====
-- Packets, options, images, configurations and the search for a channel, at concrete values.
use interchaintest.Base.{
  String, ◌≡◌, refl, ◌≢◌, ◌↔◌, ◌⊎◌, Bool, true, not, Option, none, some, List, [], ◌∷◌, arith,
  eq_iff, ◌==◌, In, pos, subst, nat_eq, string_eq,
}
use interchaintest.Ibc.Image.{DockerImage}
use interchaintest.Ibc.Config.{
  ChainConfig, zero_config, merge_chain_spec_config, is_chain_configured, all_configured,
}
use interchaintest.Ibc.Config.Merging.{merge-IsConfigured}
use interchaintest.Ibc.Config.Overrides.{merge_all, overridden, merge_all-eq-overridden}
use interchaintest.Ibc.Packet.{
  Packet, PacketAcknowledgement, no_timeout, empty_acknowledgement, validate_packet, validate_ack,
  equal,
}
use interchaintest.Ibc.Packet.Laws.{Violates, validate_packet_iff, validate_ack_iff, equal_iff}
use interchaintest.Ibc.Channel.{
  default_channel_opts, ordered, unordered, validate_channel_opts, validate_channel_opts_iff,
}
use interchaintest.Ibc.Transfer.{
  ClientOutput, ConnectionOutput, ChannelOutput, get_transfer_channel, ok,
}
use interchaintest.Ibc.Transfer.Search.{
  HasIds, HasConnIds, select_channel, get_transfer_channel_lem,
}

abbrev pub image : DockerImage
image = record { repository = "ghcr.io/gaia"; version = ""; uid_gid = "1025:1025" }

abbrev pub gaia : ChainConfig
gaia = record zero_config {
  type = "cosmos";
  name = "gaia";
  chain_id = "gaia-1";
  images = image ∷ [];
  bin = "gaiad";
  bech32_prefix = "cosmos";
  denom = "uatom";
  gas_prices = "0.01uatom";
  trusting_period = "504h";
  env = "A=1" ∷ [];
}

abbrev pub override : ChainConfig
override = record zero_config { denom = "stake"; env = "B=2" ∷ []; coin_decimals = some (pos 6) }

merge_all-eq-overridden_example :
    merge_all gaia (override ∷ record zero_config { denom = "token" } ∷ [])
    ≡ overridden gaia (override ∷ record zero_config { denom = "token" } ∷ [])
merge_all-eq-overridden_example =
    merge_all-eq-overridden gaia (override ∷ record zero_config { denom = "token" } ∷ [])

gaia-IsConfigured : is_chain_configured gaia ≡ true
unfolding is_chain_configured
gaia-IsConfigured = refl

none_configured : all_configured [] ≡ true
unfolding all_configured
none_configured = refl

merge-IsConfigured_example : is_chain_configured (merge_chain_spec_config gaia override) ≡ true
merge-IsConfigured_example = merge-IsConfigured gaia override gaia-IsConfigured none_configured

abbrev pub packet : Packet
packet = record {
  sequence = 1;
  source_port = "transfer";
  source_channel = "channel-0";
  dest_port = "transfer";
  dest_channel = "channel-1";
  payload = some (7 ∷ []);
  timeout_height = "";
  timeout_timestamp = 0;
}

abbrev is_named : String → Bool
is_named s = not (s == "")

validate_packet_iff_example :
    In no_timeout (validate_packet is_named is_named packet)
    ↔ Violates is_named is_named packet no_timeout
validate_packet_iff_example = validate_packet_iff is_named is_named packet no_timeout

abbrev pub ack : PacketAcknowledgement
ack = record { packet = packet; acknowledgement = [] }

validate_ack_iff_example : In empty_acknowledgement (validate_ack is_named is_named ack) ↔ (
    ((empty_acknowledgement ≡ empty_acknowledgement) × (ack.acknowledgement ≡ []))
    ⊎ Violates is_named is_named packet empty_acknowledgement)
validate_ack_iff_example = validate_ack_iff is_named is_named ack empty_acknowledgement

-- A nil payload and an empty one.
equal_iff_example :
    (equal (record packet { payload = none }) (record packet { payload = some [] }) ≡ true)
    ↔ (record packet { payload = none } ≡ record packet { payload = some [] })
equal_iff_example =
    equal_iff (record packet { payload = none }) (record packet { payload = some [] })

validate_channel_opts_iff_example :
    (validate_channel_opts is_named is_named default_channel_opts ≡ none) ↔ (
      (is_named "transfer" ≡ true)
      × (is_named "transfer" ≡ true)
      × (default_channel_opts.version ≢ "")
      × ((default_channel_opts.order ≡ ordered) ⊎ (default_channel_opts.order ≡ unordered)))
validate_channel_opts_iff_example = validate_channel_opts_iff is_named is_named default_channel_opts

-- One client for each of two chains, two connections, and a transfer channel over the first.
abbrev clients : String → Option (List ClientOutput)
clients src = some (
    record { client_id = "07-tendermint-0"; chain_id = "osmosis-1" }
    ∷ record { client_id = "07-tendermint-1"; chain_id = "juno-1" }
    ∷ [])

abbrev connections : String → Option (List ConnectionOutput)
connections src = some (
    record { id = "connection-0"; client_id = "07-tendermint-0" }
    ∷ record { id = "connection-1"; client_id = "07-tendermint-1" }
    ∷ [])

abbrev transfer : ChannelOutput
transfer = record {
  state = "STATE_OPEN";
  ordering = "ORDER_UNORDERED";
  counterparty = record { port_id = "transfer"; channel_id = "channel-5" };
  connection_hops = "connection-1" ∷ [];
  version = "ics20-1";
  port_id = "transfer";
  channel_id = "channel-0";
}

abbrev channels : String → Option (List ChannelOutput)
channels src = some (transfer ∷ record transfer { port_id = "icahost" } ∷ [])

transfer_found : get_transfer_channel clients connections channels "gaia-1" "juno-1" ≡ ok transfer
unfolding get_transfer_channel
transfer_found = refl

some-injective {ℓ} : {A : Type ℓ} {a b : A} → some a ≡ some b → a ≡ b
some-injective h = cc

answered_clients : (cs : List ClientOutput) → clients "gaia-1" ≡ some cs → HasIds cs
answered_clients cs e =
    subst HasIds (some-injective e)
      (ground (arith, eq_iff "07-tendermint-0" "", eq_iff "07-tendermint-1" ""))

answered_connections : (cs : List ConnectionOutput) → connections "gaia-1" ≡ some cs → HasConnIds cs
answered_connections cs e =
    subst HasConnIds (some-injective e)
      (ground (arith, eq_iff "connection-0" "", eq_iff "connection-1" ""))

get_transfer_channel_lem_example :
    get_transfer_channel clients connections channels "gaia-1" "juno-1"
    ≡ select_channel clients connections channels "gaia-1" "juno-1"
get_transfer_channel_lem_example =
    get_transfer_channel_lem clients connections channels "gaia-1" "juno-1"
      (answered_clients, answered_connections)
