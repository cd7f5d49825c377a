-- ===== src/Tests/Linking.antt =====
-- A relayer that lists another client of the consumer before the provider's: the path gets it.
use interchaintest.Base.{
  zero, suc, String, ◌≡◌, refl, Bool, true, Option, none, some, List, [], ◌∷◌, ◌++◌, map, nat_eq,
  string_eq,
}
use interchaintest.Ibc.Config.{ChainConfig, zero_config}
use interchaintest.Ibc.Channel.{
  default_channel_opts, default_client_opts, validate_channel_opts, validate_client_opts,
}
use interchaintest.Ibc.Transfer.{ClientOutput}
use interchaintest.Interchain.{ChainRef, Link, Interchain, new_interchain}
use interchaintest.Interchain.Linking.{
  RelayerCall, get_clients, update_path, create_connections, create_channel, done, client_opts_of,
  channel_opts_of, find_client, ccv_channel, link_consumer, connect_consumer, find_provider,
  find_consumer, generate_paths, clients, ask,
}
use interchaintest.Interchain.Linking.Calls.{Follows, Completes}
use interchaintest.Interchain.Linking.Handshake.{
  handshake, link_consumer-Follows, link_consumer-Completes,
}
use interchaintest.Interchain.Linking.Paths.{
  link_plan, consumer_plan, attempt, generate_paths-eq-attempt,
}

abbrev config : ChainRef → ChainConfig
config zero = record zero_config { name = "provider"; chain_id = "provider-1" }
config (suc c) = record zero_config { name = "consumer"; chain_id = "consumer-1" }

abbrev no_errors : List RelayerCall → RelayerCall → Option String
no_errors calls c = none

abbrev no_errors_lem : (calls : List RelayerCall) (c : RelayerCall) → no_errors calls c ≡ none
no_errors_lem calls c = refl

abbrev both_clients : List ClientOutput
both_clients =
    record { client_id = "07-tendermint-0"; chain_id = "other-1" }
    ∷ record { client_id = "07-tendermint-1"; chain_id = "provider-1" }
    ∷ record { client_id = "07-tendermint-2"; chain_id = "consumer-1" }
    ∷ []

abbrev clients_of : List RelayerCall → RelayerCall → List ClientOutput
clients_of calls c = both_clients

abbrev valid : String → Bool
valid s = true

abbrev consumer_link : Link
consumer_link = record {
  first = 0;
  second = 1;
  create_client_opts = default_client_opts;
  create_channel_opts = default_channel_opts;
}

abbrev network : Interchain
network = record new_interchain {
  links = ((5, "transfer"), consumer_link) ∷ [];
  provider_consumer_links = ((5, "ics"), consumer_link) ∷ [];
}

updates_first :
    link_consumer config no_errors clients_of valid valid (5, "ics") consumer_link [] ≡ (
      get_clients 5 "consumer-1"
          ∷ get_clients 5 "provider-1"
          ∷ update_path 5 "ics" "07-tendermint-0" "07-tendermint-0"
          ∷ create_connections 5 "ics"
          ∷ create_channel 5 "ics" ccv_channel
          ∷ [],
      done tt,
    )
unfolding link_consumer connect_consumer find_provider find_consumer find_client clients ask
    client_opts_of channel_opts_of validate_channel_opts validate_client_opts
updates_first = refl

link_consumer-Follows_example :
    Follows []
      (handshake config no_errors clients_of (5, "ics") consumer_link [])
      (link_consumer config no_errors clients_of valid valid (5, "ics") consumer_link [])
link_consumer-Follows_example =
    link_consumer-Follows config no_errors clients_of valid valid (5, "ics") consumer_link []

link_consumer-Completes_example :
    Completes []
      (handshake config no_errors clients_of (5, "ics") consumer_link [])
      (link_consumer config no_errors clients_of valid valid (5, "ics") consumer_link [])
unfolding find_client validate_channel_opts validate_client_opts client_opts_of channel_opts_of
link_consumer-Completes_example =
    link_consumer-Completes config no_errors clients_of valid valid (5, "ics") consumer_link []
      (record { client_id = "07-tendermint-1"; chain_id = "provider-1" })
      (record { client_id = "07-tendermint-2"; chain_id = "consumer-1" }) refl refl no_errors_lem
      refl refl

-- The first call fails.
abbrev refuses : List RelayerCall → RelayerCall → Option String
refuses calls c = some "refused"

generate_paths-eq-attempt_example :
    generate_paths config refuses clients_of network []
    ≡ attempt config refuses clients_of
        (map (link_plan config refuses clients_of) network.links
          ++ map (consumer_plan config refuses clients_of) network.provider_consumer_links)
        []
generate_paths-eq-attempt_example = generate_paths-eq-attempt config refuses clients_of network []
