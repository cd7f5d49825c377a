-- ===== src/Ibc/Packet.antt =====
-- Packets, their acknowledgements and timeouts (ibc/packet.go). The validators of ibc-go's package
-- `host` are parameters; an error of `multierr` is the list of the errors that were appended. The
-- payload tells a nil slice, `none`, from an empty one; of an acknowledgement only the length counts.
use interchaintest.Base.{
  ℕ, String, Bool, true, false, not, ◌&&◌, Option, none, some, List, [], ◌∷◌, ◌++◌, leb, ◌==◌,
  nat_eq, string_eq,
}
pub mod Laws

pub record Packet : Type 0 where
  pub sequence : ℕ
  pub source_port : String
  pub source_channel : String
  pub dest_port : String
  pub dest_channel : String
  pub payload : Option (List ℕ)
  pub timeout_height : String
  pub timeout_timestamp : ℕ

pub record PacketAcknowledgement : Type 0 where
  pub packet : Packet
  pub acknowledgement : List ℕ

pub record PacketTimeout : Type 0 where
  pub packet : Packet

pub data PacketError : Type 0 where
  zero_sequence bad_source_port bad_source_channel bad_dest_port bad_dest_channel : PacketError
  no_timeout empty_data empty_acknowledgement : PacketError

abbrev pub when : Bool → PacketError → List PacketError
when true e = e ∷ []
when false e = []

abbrev is_nil : List ℕ → Bool
is_nil [] = true
is_nil (b ∷ bs) = false

-- The bytes of a slice, which a nil slice has none of.
abbrev pub bytes_of : Option (List ℕ) → List ℕ
bytes_of none = []
bytes_of (some bs) = bs

module _ (valid_port valid_channel : String → Bool) where
  -- `(Packet).Validate`
  unfoldable pub validate_packet : Packet → List PacketError
  validate_packet p =
      when (p.sequence == 0) zero_sequence
      ++ when (not (valid_port p.source_port)) bad_source_port
      ++ when (not (valid_channel p.source_channel)) bad_source_channel
      ++ when (not (valid_port p.dest_port)) bad_dest_port
      ++ when (not (valid_channel p.dest_channel)) bad_dest_channel
      ++ when (p.timeout_height == "" && leb p.timeout_timestamp 0) no_timeout
      ++ when (is_nil (bytes_of p.payload)) empty_data

  -- `(PacketAcknowledgement).Validate`
  unfoldable pub validate_ack : PacketAcknowledgement → List PacketError
  validate_ack a = when (is_nil a.acknowledgement) empty_acknowledgement ++ validate_packet a.packet

  -- `(PacketTimeout).Validate`
  unfoldable pub validate_timeout : PacketTimeout → List PacketError
  validate_timeout t = validate_packet t.packet

abbrev pub bytes_eq : List ℕ → List ℕ → Bool
bytes_eq [] [] = true
bytes_eq [] (b ∷ bs) = false
bytes_eq (a ∷ l) [] = false
bytes_eq (a ∷ l) (b ∷ bs) = a == b && bytes_eq l bs

-- `reflect.DeepEqual` tells a nil slice from an empty one.
abbrev pub slice_eq : Option (List ℕ) → Option (List ℕ) → Bool
slice_eq none none = true
slice_eq none (some b) = false
slice_eq (some a) none = false
slice_eq (some a) (some b) = bytes_eq a b

-- `(Packet).Equal`: `reflect.DeepEqual` on the fields.
unfoldable pub equal : Packet → Packet → Bool
equal p q =
    p.sequence == q.sequence
    && p.source_port == q.source_port
    && p.source_channel == q.source_channel
    && p.dest_port == q.dest_port
    && p.dest_channel == q.dest_channel
    && slice_eq p.payload q.payload
    && p.timeout_height == q.timeout_height
    && p.timeout_timestamp == q.timeout_timestamp
