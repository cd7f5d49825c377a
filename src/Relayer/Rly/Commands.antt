-- ===== src/Relayer/Rly/Commands.antt =====
-- The commands of the Go relayer that depend on their options (relayer/rly/cosmos_relayer.go).
use interchaintest.Base.{
  ◌+◌, String, Option, none, some, List, [], ◌∷◌, ◌++◌, if◌then◌else◌, ◌==◌, ℤ, cat, join, pos,
  negsuc, show_digits, nat_eq, string_eq,
}
use interchaintest.Ibc.Channel.{CreateChannelOptions, CreateClientOptions, order_string}
use interchaintest.Relayer.Types.{PathUpdateOptions}

-- `fmt.Sprint` of an int64.
abbrev pub show_int : ℤ → String
show_int (pos n) = show_digits 20 n ""
show_int (negsuc n) = cat "-" (show_digits 20 (n + 1) "")

abbrev pub flag : String → Option String → List String
flag name none = []
flag name (some v) = name ∷ v ∷ []

abbrev pub text_flag : String → String → List String
text_flag name v = if v == "" then [] else name ∷ v ∷ []

abbrev pub int_flag : String → ℤ → List String
int_flag name (pos n) = if n == 0 then [] else name ∷ show_int (pos n) ∷ []
int_flag name (negsuc n) = name ∷ show_int (negsuc n) ∷ []

abbrev pub home : String → List String
home dir = "--home" ∷ dir ∷ []

-- `createClientOptsHelper`
unfoldable pub create_client_opts_helper : CreateClientOptions → List String
unfolding show_digits
create_client_opts_helper o =
    text_flag "--client-tp" o.trusting_period
    ++ (int_flag "--client-tp-percentage" o.trusting_period_percentage
        ++ (text_flag "--max-clock-drift" o.max_clock_drift
            ++ (if o.override then "--override" ∷ [] else [])))

unfoldable pub create_channel : String → CreateChannelOptions → String → List String
unfolding order_string
create_channel path o dir =
    ("rly"
      ∷ "tx"
      ∷ "channel"
      ∷ path
      ∷ "--src-port"
      ∷ o.source_port_name
      ∷ "--dst-port"
      ∷ o.dest_port_name
      ∷ "--order"
      ∷ order_string o.order
      ∷ "--version"
      ∷ o.version
      ∷ home dir)
    ++ (if o.override then "--override" ∷ [] else [])

unfoldable pub create_clients : String → CreateClientOptions → String → List String
unfolding create_client_opts_helper
create_clients path o dir =
    ("rly" ∷ "tx" ∷ "clients" ∷ path ∷ home dir) ++ create_client_opts_helper o

unfoldable pub create_client : String → String → String → CreateClientOptions → String → List String
unfolding create_client_opts_helper
create_client src dst path o dir =
    ("rly" ∷ "tx" ∷ "client" ∷ src ∷ dst ∷ path ∷ home dir) ++ create_client_opts_helper o

unfoldable pub flush : String → String → String → List String
flush path channel dir =
    ("rly" ∷ "tx" ∷ "flush" ∷ [])
    ++ ((if path == "" then [] else if channel == "" then path ∷ [] else path ∷ channel ∷ [])
        ++ home dir)

abbrev pub filter_flags : Option (String × List String) → List String
filter_flags none = []
filter_flags (some (rule, channels)) =
    "--filter-rule" ∷ rule ∷ "--filter-channels" ∷ join "," channels ∷ []

unfoldable pub update_path : String → String → PathUpdateOptions → List String
unfolding join
update_path path dir o =
    ("rly" ∷ "paths" ∷ "update" ∷ path ∷ home dir)
    ++ (filter_flags o.channel_filter
        ++ (flag "--src-chain-id" o.src_chain_id
            ++ (flag "--dst-chain-id" o.dst_chain_id
                ++ (flag "--src-client-id" o.src_client_id
                    ++ (flag "--dst-client-id" o.dst_client_id
                        ++ (flag "--src-connection-id" o.src_conn_id
                            ++ flag "--dst-connection-id" o.dst_conn_id))))))

unfoldable pub link_path :
    String → String → CreateChannelOptions → CreateClientOptions → List String
unfolding order_string create_client_opts_helper
link_path path dir o clients =
    ("rly"
      ∷ "tx"
      ∷ "link"
      ∷ path
      ∷ "--src-port"
      ∷ o.source_port_name
      ∷ "--dst-port"
      ∷ o.dest_port_name
      ∷ "--order"
      ∷ order_string o.order
      ∷ "--version"
      ∷ o.version
      ∷ "--debug"
      ∷ home dir)
    ++ create_client_opts_helper clients
