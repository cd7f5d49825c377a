-- ===== src/Ibc/Channel.antt =====
-- The options of a channel and of a client (ibc/relayer.go). An Order is a Go int; the validator of
-- ibc-go's package `host` and `time.ParseDuration` are parameters, known by their verdicts.
use interchaintest.Base.{
  String, ◌≡◌, ◌≢◌, ◌↔◌, ◌⊎◌, Bool, true, false, not, ◌&&◌, ◌||◌, Option, none, some, arith, eq_iff,
  if◌then◌else◌, ◌==◌, ℤ, pos, negsuc, nat_eq, string_eq,
}

-- `Order`, with its constants.
abbrev pub Order : Type 0
Order = ℤ

abbrev pub invalid : Order
invalid = pos 0

abbrev pub ordered : Order
ordered = pos 1

abbrev pub unordered : Order
unordered = pos 2

-- `(Order).String`
unfoldable pub order_string : Order → String
order_string (pos n) = if n == 2 then "unordered" else if n == 1 then "ordered" else "invalid"
order_string (negsuc n) = "invalid"

-- `(Order).Validate() == nil`
unfoldable pub order_ok : Order → Bool
order_ok (pos n) = n == 1 || n == 2
order_ok (negsuc n) = false

pub record CreateChannelOptions : Type 0 where
  pub source_port_name : String
  pub dest_port_name : String
  pub order : Order
  pub version : String
  pub override : Bool

-- `DefaultChannelOpts`
abbrev pub default_channel_opts : CreateChannelOptions
default_channel_opts = record {
  source_port_name = "transfer";
  dest_port_name = "transfer";
  order = unordered;
  version = "ics20-1";
  override = false;
}

pub data OptionsError : Type 0 where
  invalid_port invalid_version invalid_ordering invalid_duration : OptionsError

pub record CreateClientOptions : Type 0 where
  pub trusting_period : String
  pub trusting_period_percentage : ℤ
  pub max_clock_drift : String
  pub override : Bool

-- `DefaultClientOpts`
abbrev pub default_client_opts : CreateClientOptions
default_client_opts = record {
  trusting_period = "";
  trusting_period_percentage = pos 0;
  max_clock_drift = "";
  override = false;
}

module _ (valid_port is_duration : String → Bool) where
  -- `(CreateChannelOptions).Validate`; `none` is nil
  unfoldable pub validate_channel_opts : CreateChannelOptions → Option OptionsError
  unfolding order_ok
  validate_channel_opts o =
      if not (valid_port o.source_port_name)
      then some invalid_port
      else if not (valid_port o.dest_port_name)
      then some invalid_port
      else if o.version == ""
      then some invalid_version
      else if not (order_ok o.order)
      then some invalid_ordering
      else none

  -- `(CreateClientOptions).Validate`
  unfoldable pub validate_client_opts : CreateClientOptions → Option OptionsError
  validate_client_opts o =
      if not (o.trusting_period == "") && not (is_duration o.trusting_period)
      then some invalid_duration
      else if not (o.max_clock_drift == "") && not (is_duration o.max_clock_drift)
      then some invalid_duration
      else none

  -- Channel options are accepted exactly when both ports are valid, a version is set and the order
  -- is one of the two orders.
  pub validate_channel_opts_iff :
      (o : CreateChannelOptions)
      → (validate_channel_opts o ≡ none) ↔ (
          (valid_port o.source_port_name ≡ true)
          × (valid_port o.dest_port_name ≡ true)
          × (o.version ≢ "")
          × ((o.order ≡ ordered) ⊎ (o.order ≡ unordered)))
  unfolding validate_channel_opts
  validate_channel_opts_iff o = ground (arith, eq_iff o.version "")
