-- ===== src/Ibc/Packet/Laws.antt =====
-- What the validation of a packet reports, and the equality of packets.
use interchaintest.Base.{
  ℕ, String, ◌≡◌, ◌↔◌, ◌⊎◌, Bool, true, false, Option, none, some, List, [], ◌∷◌, arith, eq_iff, In,
  nat_eq, string_eq,
}
use interchaintest.Ibc.Packet.{
  Packet, PacketAcknowledgement, PacketError, zero_sequence, bad_source_port, bad_source_channel,
  bad_dest_port, bad_dest_channel, no_timeout, empty_data, empty_acknowledgement, validate_packet,
  validate_ack, equal, bytes_of, bytes_eq, slice_eq,
}

module _ (valid_port valid_channel : String → Bool) where
  -- What each error says of a packet.
  abbrev pub Violates : Packet → PacketError → Type 0
  Violates p zero_sequence = p.sequence ≡ 0
  Violates p bad_source_port = valid_port p.source_port ≡ false
  Violates p bad_source_channel = valid_channel p.source_channel ≡ false
  Violates p bad_dest_port = valid_port p.dest_port ≡ false
  Violates p bad_dest_channel = valid_channel p.dest_channel ≡ false
  Violates p no_timeout = (p.timeout_height ≡ "") × (p.timeout_timestamp ≡ 0)
  Violates p empty_data = bytes_of p.payload ≡ []
  Violates p empty_acknowledgement = ⊥

  -- An error is reported exactly when the packet violates what it says.
  pub validate_packet_iff :
      (p : Packet) (e : PacketError)
      → In e (validate_packet valid_port valid_channel p) ↔ Violates p e
  unfolding validate_packet
  validate_packet_iff p zero_sequence = ground arith
  validate_packet_iff p _ = ground (arith, eq_iff p.timeout_height "")

  -- An acknowledgement reports what its packet does, and its own emptiness.
  pub validate_ack_iff :
      (a : PacketAcknowledgement) (e : PacketError)
      → In e (validate_ack valid_port valid_channel a)
        ↔ (((e ≡ empty_acknowledgement) × (a.acknowledgement ≡ [])) ⊎ Violates a.packet e)
  unfolding validate_ack
  validate_ack_iff a e = ground (arith, validate_packet_iff a.packet e)

bytes_eq_iff : (a b : List ℕ) → (bytes_eq a b ≡ true) ↔ (a ≡ b)
bytes_eq_iff [] [] = ground arith
bytes_eq_iff [] (y ∷ b) = ground arith
bytes_eq_iff (x ∷ a) [] = ground arith
bytes_eq_iff (x ∷ a) (y ∷ b) = ground (arith, bytes_eq_iff a b)

slice_eq_iff : (a b : Option (List ℕ)) → (slice_eq a b ≡ true) ↔ (a ≡ b)
slice_eq_iff none none = ground arith
slice_eq_iff none (some b) = ground arith
slice_eq_iff (some a) none = ground arith
slice_eq_iff (some a) (some b) = ground (arith, bytes_eq_iff a b)

-- `Equal` holds exactly of equal packets: it compares every field, the payload byte by byte, where a
-- nil payload is not equal to an empty one.
pub equal_iff : (p q : Packet) → (equal p q ≡ true) ↔ (p ≡ q)
unfolding equal
equal_iff p q = ground (
  arith,
  slice_eq_iff p.payload q.payload,
  eq_iff p.source_port q.source_port,
  eq_iff p.source_channel q.source_channel,
  eq_iff p.dest_port q.dest_port,
  eq_iff p.dest_channel q.dest_channel,
  eq_iff p.timeout_height q.timeout_height,
)
