-- ===== src/Interchain/Linking.antt =====
-- How Build of interchain.go makes the paths and links them: the loops that generate paths, and the
-- two functions that it runs for each link. A relayer's answer to a call may depend on the calls made
-- before; the calls made are collected in order.
use interchaintest.Base.{
  String, Bool, false, not, ◌&&◌, Option, none, some, List, [], ◌∷◌, ◌++◌, if◌then◌else◌, ◌==◌, ℤ,
  pos, negsuc, nat_eq, string_eq,
}
use interchaintest.Ibc.Config.{ChainConfig}
use interchaintest.Ibc.Channel.{
  ordered, CreateChannelOptions, CreateClientOptions, OptionsError, default_channel_opts,
  default_client_opts, validate_channel_opts, validate_client_opts,
}
use interchaintest.Ibc.Transfer.{ClientOutput}
use interchaintest.Interchain.{ChainRef, RelayerRef, RelayerPath, Link, Interchain}
pub mod Calls
pub mod Handshake
pub mod Paths

-- The calls of a relayer; `get_clients` names the chain by its ID.
pub data RelayerCall : Type 0 where
  generate_path : RelayerRef → String → String → String → RelayerCall
  get_clients : RelayerRef → String → RelayerCall
  update_path : RelayerRef → String → String → String → RelayerCall
  create_connections : RelayerRef → String → RelayerCall
  create_channel : RelayerRef → String → CreateChannelOptions → RelayerCall
  link_path : RelayerRef → String → CreateChannelOptions → CreateClientOptions → RelayerCall

pub data LinkError : Type 0 where
  relayer_error : RelayerCall → String → LinkError
  invalid_options : OptionsError → LinkError
  no_consumer_client no_provider_client : LinkError

pub data Linked (A : Type 0) : Type 0 where
  done : A → Linked A
  fails : LinkError → Linked A

-- Code that calls relayers: it takes the calls made before it.
abbrev pub Linking : Type 0 → Type 0
Linking A = List RelayerCall → List RelayerCall × Linked A

abbrev pub continue :
    {A : Type 0} {B : Type 0}
    → List RelayerCall × Linked A
    → (A → Linking B)
    → List RelayerCall × Linked B
continue (calls, done a) f = f a calls
continue (calls, fails e) f = (calls, fails e)

infixl 5 ◌>>=◌
abbrev pub ◌>>=◌ : {A : Type 0} {B : Type 0} → Linking A → (A → Linking B) → Linking B
◌>>=◌ m f calls = continue (m calls) f

infixl 5 ◌>>◌
abbrev pub ◌>>◌ : {A : Type 0} {B : Type 0} → Linking A → Linking B → Linking B
m >> f = m >>= (λ a. f)

abbrev pub return : {A : Type 0} → A → Linking A
return a calls = (calls, done a)

abbrev pub fail_with : {A : Type 0} → LinkError → Linking A
fail_with e calls = (calls, fails e)

abbrev pub check : Option OptionsError → Linking (Unit {0})
check none = return tt
check (some e) = fail_with (invalid_options e)

abbrev is_zero : ℤ → Bool
is_zero (pos n) = n == 0
is_zero (negsuc n) = false

-- `createClientOpts`, or the default where it is the zero value.
unfoldable pub client_opts_of : Link → CreateClientOptions
client_opts_of l =
    let o = l.create_client_opts in
    if o.trusting_period == ""
      && is_zero o.trusting_period_percentage
      && o.max_clock_drift == ""
      && not o.override
    then default_client_opts
    else o

-- `createChannelOpts`, or the default where it is the zero value.
unfoldable pub channel_opts_of : Link → CreateChannelOptions
channel_opts_of l =
    let o = l.create_channel_opts in
    if o.source_port_name == ""
      && o.dest_port_name == ""
      && is_zero o.order
      && o.version == ""
      && not o.override
    then default_channel_opts
    else o

-- The loop that looks for a client of a chain.
unfoldable pub find_client : String → List ClientOutput → Option ClientOutput
find_client chain_id [] = none
find_client chain_id (c ∷ cs) = if c.chain_id == chain_id then some c else find_client chain_id cs

-- `clients[0].ClientID`; the list is not empty where the program takes it.
abbrev pub first_id : List ClientOutput → String
first_id [] = ""
first_id (c ∷ cs) = c.client_id

-- The channel for updates of the validator set.
abbrev pub ccv_channel : CreateChannelOptions
ccv_channel = record {
  source_port_name = "consumer";
  dest_port_name = "provider";
  order = ordered;
  version = "1";
  override = false;
}

module _ (config : ChainRef → ChainConfig)
    (error_of : List RelayerCall → RelayerCall → Option String)
    (clients_of : List RelayerCall → RelayerCall → List ClientOutput) where
  abbrev pub id_of : ChainRef → String
  id_of c = (config c).chain_id

  -- A call that answers with an error or with what `answer` says.
  unfoldable pub ask : {A : Type 0} → RelayerCall → A → Linking A
  ask c answer calls = elim (error_of calls c) [
    | none ↦ (calls ++ c ∷ [], done answer)
    | some e ↦ (calls ++ c ∷ [], fails (relayer_error c e))
  ]

  unfoldable pub clients : RelayerRef → ChainRef → Linking (List ClientOutput)
  unfolding ask
  clients r c calls =
      ask (get_clients r (id_of c)) (clients_of calls (get_clients r (id_of c))) calls

  abbrev pub require : LinkError → Option ClientOutput → Linking (Unit {0})
  require e none = fail_with e
  require e (some c) = return tt

  -- The update of the path, the connections and the channel, for the clients of both chains.
  unfoldable pub connect_consumer :
      RelayerPath → List ClientOutput → List ClientOutput → Linking (Unit {0})
  unfolding ask
  connect_consumer (r, path) consumer_clients provider_clients = do
    ask (update_path r path (first_id consumer_clients) (first_id provider_clients)) tt
    ask (create_connections r path) tt
    ask (create_channel r path ccv_channel) tt

  -- The provider's clients, and what follows.
  unfoldable pub find_provider : RelayerPath → Link → List ClientOutput → Linking (Unit {0})
  unfolding clients find_client connect_consumer
  find_provider key l consumer_clients = do
    provider_clients ← clients key.0 l.first
    require no_provider_client (find_client (id_of l.second) provider_clients)
    connect_consumer key consumer_clients provider_clients

  -- The consumer's clients, and what follows.
  unfoldable pub find_consumer : RelayerPath → Link → Linking (Unit {0})
  unfolding clients find_client find_provider
  find_consumer key l = do
    consumer_clients ← clients key.0 l.second
    require no_consumer_client (find_client (id_of l.first) consumer_clients)
    find_provider key l consumer_clients

  module _ (valid_port is_duration : String → Bool) where
    -- The function that Build runs for a provider and its consumer.
    unfoldable pub link_consumer : RelayerPath → Link → Linking (Unit {0})
    unfolding client_opts_of channel_opts_of find_consumer
    link_consumer key l = do
      check (validate_client_opts valid_port is_duration (client_opts_of l))
      check (validate_channel_opts valid_port is_duration (channel_opts_of l))
      find_consumer key l

    -- The function that Build runs for a link.
    unfoldable pub link_chains : RelayerPath → Link → Linking (Unit {0})
    unfolding ask client_opts_of channel_opts_of
    link_chains (r, path) l = do
      check (validate_client_opts valid_port is_duration (client_opts_of l))
      check (validate_channel_opts valid_port is_duration (channel_opts_of l))
      ask (link_path r path (channel_opts_of l) (client_opts_of l)) tt

  -- The loops that generate the paths, of the links and then of the provider-consumer links.
  unfoldable pub link_paths : List (RelayerPath × Link) → Linking (Unit {0})
  unfolding ask
  link_paths [] = return tt
  link_paths (((r, path), l) ∷ rest) = do
    ask (generate_path r (id_of l.first) (id_of l.second) path) tt
    link_paths rest

  unfoldable pub consumer_paths : List (RelayerPath × Link) → Linking (Unit {0})
  unfolding ask
  consumer_paths [] = return tt
  consumer_paths (((r, path), l) ∷ rest) = do
    ask (generate_path r (id_of l.second) (id_of l.first) path) tt
    consumer_paths rest

  unfoldable pub generate_paths : Interchain → Linking (Unit {0})
  unfolding link_paths consumer_paths
  generate_paths ic = do link_paths ic.links; consumer_paths ic.provider_consumer_links
