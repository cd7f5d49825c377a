-- ===== src/Interchain/Linking/Handshake.antt =====
-- The calls for a provider and its consumer, on every answer of the relayer.
use interchaintest.Base.{
  String, ◌≡◌, Bool, Option, none, some, List, [], ◌∷◌, ◌++◌, nat_eq, string_eq,
}
use interchaintest.Ibc.Config.{ChainConfig}
use interchaintest.Ibc.Channel.{validate_channel_opts, validate_client_opts}
use interchaintest.Ibc.Transfer.{ClientOutput}
use interchaintest.Interchain.{ChainRef, RelayerRef, RelayerPath, Link}
use interchaintest.Interchain.Linking.{
  RelayerCall, get_clients, update_path, create_connections, create_channel, LinkError,
  no_consumer_client, no_provider_client, Linking, ◌>>◌, check, client_opts_of, channel_opts_of,
  find_client, first_id, ccv_channel, id_of, ask, clients, require, connect_consumer, find_provider,
  find_consumer, link_consumer,
}
use interchaintest.Interchain.Linking.Calls.{
  Follows, Completes, check-Follows, check-Completes, require-Follows, require-Completes,
  ask-Follows, ask-Completes, last-Follows, last-Completes,
}

module _ (config : ChainRef → ChainConfig)
    (error_of : List RelayerCall → RelayerCall → Option String)
    (clients_of : List RelayerCall → RelayerCall → List ClientOutput) where
  -- What the relayer says of the clients of the consumer and then of the provider.
  abbrev pub consumer_clients : RelayerRef → Link → List RelayerCall → List ClientOutput
  consumer_clients r l before =
      clients_of before (get_clients r (id_of config error_of clients_of l.second))

  abbrev pub provider_clients : RelayerRef → Link → List RelayerCall → List ClientOutput
  provider_clients r l before =
      clients_of (before ++ get_clients r (id_of config error_of clients_of l.second) ∷ [])
        (get_clients r (id_of config error_of clients_of l.first))

  -- The calls for a provider and its consumer, in order.
  abbrev pub handshake : RelayerPath → Link → List RelayerCall → List RelayerCall
  handshake (r, path) l before =
      get_clients r (id_of config error_of clients_of l.second)
      ∷ get_clients r (id_of config error_of clients_of l.first)
      ∷ update_path r path (first_id (consumer_clients r l before))
          (first_id (provider_clients r l before))
      ∷ create_connections r path
      ∷ create_channel r path ccv_channel
      ∷ []

  module _ (r : RelayerRef) (path : String) (l : Link) where
    abbrev call : RelayerCall → Linking (Unit {0})
    call c = ask config error_of clients_of c tt

    abbrev require_client : LinkError → Option ClientOutput → Linking (Unit {0})
    require_client e o = require config error_of clients_of e o

    abbrev consumer_id : String
    consumer_id = id_of config error_of clients_of l.second

    abbrev provider_id : String
    provider_id = id_of config error_of clients_of l.first

    -- The last three calls.
    abbrev connection : List ClientOutput → List ClientOutput → List RelayerCall
    connection cs ps =
        update_path r path (first_id cs) (first_id ps)
        ∷ create_connections r path
        ∷ create_channel r path ccv_channel
        ∷ []

    abbrev connect : List ClientOutput → List ClientOutput → Linking (Unit {0})
    connect cs ps = connect_consumer config error_of clients_of (r, path) cs ps

    abbrev provide : List ClientOutput → Linking (Unit {0})
    provide cs = find_provider config error_of clients_of (r, path) l cs

    connect_consumer-Follows :
        (cs ps : List ClientOutput) (before : List RelayerCall)
        → Follows before (connection cs ps) (connect cs ps before)
    unfolding connect_consumer
    connect_consumer-Follows cs ps before =
        ask-Follows config error_of clients_of _ tt
          (λ u. call (create_connections r path) >> call (create_channel r path ccv_channel)) before
          _
          (ask-Follows config error_of clients_of _ tt
            (λ u. call (create_channel r path ccv_channel)) _ _
            (last-Follows config error_of clients_of _ _))

    find_provider-Follows :
        (cs : List ClientOutput) (before : List RelayerCall)
        → Follows before
            (get_clients r provider_id
              ∷ connection cs (clients_of before (get_clients r provider_id)))
            (provide cs before)
    unfolding find_provider clients
    find_provider-Follows cs before =
        let ps = clients_of before (get_clients r provider_id) in
        ask-Follows config error_of clients_of (get_clients r provider_id) ps
          (λ v. require_client no_provider_client (find_client consumer_id v) >> connect cs v)
          before _
          (require-Follows config error_of clients_of no_provider_client
            (find_client consumer_id ps) (connect cs ps) _ _ (connect_consumer-Follows cs ps _))

    find_consumer-Follows :
        (before : List RelayerCall)
        → Follows before
            (handshake (r, path) l before)
            (find_consumer config error_of clients_of (r, path) l before)
    unfolding find_consumer clients
    find_consumer-Follows before =
        let cs = clients_of before (get_clients r consumer_id) in
        ask-Follows config error_of clients_of (get_clients r consumer_id) cs
          (λ v. require_client no_consumer_client (find_client provider_id v) >> provide v) before _
          (require-Follows config error_of clients_of no_consumer_client
            (find_client provider_id cs) (provide cs) _ _ (find_provider-Follows cs _))

    module _ (ok : (calls : List RelayerCall) (c : RelayerCall) → error_of calls c ≡ none) where
      connect_consumer-Completes :
          (cs ps : List ClientOutput) (before : List RelayerCall)
          → Completes before (connection cs ps) (connect cs ps before)
      unfolding connect_consumer
      connect_consumer-Completes cs ps before =
          ask-Completes config error_of clients_of _ tt
            (λ u. call (create_connections r path) >> call (create_channel r path ccv_channel))
            before _ (ok _ _)
            (ask-Completes config error_of clients_of _ tt
              (λ u. call (create_channel r path ccv_channel)) _ _ (ok _ _)
              (last-Completes config error_of clients_of _ _ (ok _ _)))

      find_provider-Completes :
          (cs : List ClientOutput) (p : ClientOutput) (before : List RelayerCall)
          → find_client consumer_id (clients_of before (get_clients r provider_id)) ≡ some p
          → Completes before
              (get_clients r provider_id
                ∷ connection cs (clients_of before (get_clients r provider_id)))
              (provide cs before)
      unfolding find_provider clients
      find_provider-Completes cs p before q =
          let ps = clients_of before (get_clients r provider_id) in
          ask-Completes config error_of clients_of (get_clients r provider_id) ps
            (λ v. require_client no_provider_client (find_client consumer_id v) >> connect cs v)
            before _ (ok _ _)
            (require-Completes config error_of clients_of no_provider_client
              (find_client consumer_id ps) p (connect cs ps) _ _ q
              (connect_consumer-Completes cs ps _))

      find_consumer-Completes :
          (c p : ClientOutput) (before : List RelayerCall)
          → find_client provider_id (consumer_clients r l before) ≡ some c
          → find_client consumer_id (provider_clients r l before) ≡ some p
          → Completes before
              (handshake (r, path) l before)
              (find_consumer config error_of clients_of (r, path) l before)
      unfolding find_consumer clients
      find_consumer-Completes c p before found_c found_p =
          let cs = clients_of before (get_clients r consumer_id) in
          ask-Completes config error_of clients_of (get_clients r consumer_id) cs
            (λ v. require_client no_consumer_client (find_client provider_id v) >> provide v) before
            _ (ok _ _)
            (require-Completes config error_of clients_of no_consumer_client
              (find_client provider_id cs) c (provide cs) _ _ found_c
              (find_provider-Completes cs p _ found_p))

  module _ (valid_port is_duration : String → Bool) where
    -- Whatever the relayer answers, the calls for a provider and its consumer are a first part of the
    -- handshake: the clients of both are read, the path is updated, the connections are made and the
    -- channel is opened, in this order, and all of it was called if nil is returned.
    pub link_consumer-Follows :
        (key : RelayerPath) (l : Link) (before : List RelayerCall)
        → Follows before
            (handshake key l before)
            (link_consumer config error_of clients_of valid_port is_duration key l before)
    unfolding link_consumer
    link_consumer-Follows (r, path) l before =
        let rest = find_consumer config error_of clients_of (r, path) l in
        let o = validate_channel_opts valid_port is_duration (channel_opts_of l) in
        check-Follows (validate_client_opts valid_port is_duration (client_opts_of l))
          (check o >> rest) before _
          (check-Follows o rest before _ (find_consumer-Follows r path l before))

    -- With valid options, no failing call, and among the clients of each of the two chains one of the
    -- other chain, the whole handshake is called and nil returned: the path is updated with the first
    -- clients listed, whichever chains these are clients of.
    pub link_consumer-Completes :
        (key : RelayerPath) (l : Link) (before : List RelayerCall) (c p : ClientOutput)
        → validate_client_opts valid_port is_duration (client_opts_of l) ≡ none
        → validate_channel_opts valid_port is_duration (channel_opts_of l) ≡ none
        → ((calls : List RelayerCall) (call : RelayerCall) → error_of calls call ≡ none)
        → find_client (id_of config error_of clients_of l.first) (consumer_clients key.0 l before)
          ≡ some c
        → find_client (id_of config error_of clients_of l.second) (provider_clients key.0 l before)
          ≡ some p
        → Completes before
            (handshake key l before)
            (link_consumer config error_of clients_of valid_port is_duration key l before)
    unfolding link_consumer
    link_consumer-Completes (r, path) l before c p v w ok found_c found_p =
        let rest = find_consumer config error_of clients_of (r, path) l in
        let o = validate_channel_opts valid_port is_duration (channel_opts_of l) in
        check-Completes (validate_client_opts valid_port is_duration (client_opts_of l))
          (check o >> rest) before _ v
          (check-Completes o rest before _ w
            (find_consumer-Completes r path l ok c p before found_c found_p))
