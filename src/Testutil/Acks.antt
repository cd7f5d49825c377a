-- ===== src/Testutil/Acks.antt =====
-- `PollForAck` and `PollForTimeout` of testutil/poll_for_state.go. `packetPollError` keeps what was
-- searched, in order; the dump of a packet is the packet itself.
pub mod Explained
use interchaintest.Base.{ℕ, List, [], ◌∷◌, ◌++◌, if◌then◌else◌, nat_eq}
use interchaintest.Ibc.Packet.{Packet, PacketAcknowledgement, PacketTimeout, equal}
use interchaintest.Testutil.Poll.{
  Answer, hit, miss, PollResult, found, not_found, running, do_poll, search_heights,
  search_heights-hit, search_heights-miss, Reaches, do_poll-eq-search, height_error, bad_range,
  Answer-cases,
}

-- An error of the chain, or `ErrNotFound`.
pub data PollError : Type 0 where
  chain_error : ℕ → PollError
  err_not_found : PollError

-- The loops over the acknowledgements and over the timeouts of a height differ in the packet's place
-- only: `packet_of` says where it is. The searched items are collected on the way.
module _ {A : Type 0} (packet_of : A → Packet) (packet : Packet) where
  unfoldable pub scan_items : List A → List A → Answer PollError A × List A
  scan_items [] searched = (miss err_not_found, searched)
  scan_items (a ∷ items) searched =
      let rest = scan_items items (searched ++ a ∷ []) in
      if equal (packet_of a) packet then (hit a, searched ++ a ∷ []) else rest

  module _ (items_at : ℕ → Answer PollError (List A)) where
    -- The closure that is polled.
    unfoldable pub poll_items : ℕ → List A → Answer PollError A × List A
    unfolding scan_items
    poll_items height searched = elim (items_at height) [
      | miss e ↦ (miss e, searched)
      | hit items ↦ scan_items items searched
    ]

    unfoldable pub poll_for : (ℕ → Answer PollError ℕ) → ℕ → ℕ → ℕ → PollResult PollError A × List A
    unfolding poll_items do_poll
    poll_for current_height fuel start_height max_height =
        do_poll current_height poll_items fuel start_height max_height []

module _ (current_height : ℕ → Answer PollError ℕ) where
  -- `PollForAck`
  unfoldable pub poll_for_ack :
      (ℕ → Answer PollError (List PacketAcknowledgement))
      → Packet
      → ℕ
      → ℕ
      → ℕ
      → PollResult PollError PacketAcknowledgement × List PacketAcknowledgement
  unfolding poll_for
  poll_for_ack acks packet = poll_for (λ a. a.packet) packet acks current_height

  -- `PollForTimeout`
  unfoldable pub poll_for_timeout :
      (ℕ → Answer PollError (List PacketTimeout))
      → Packet
      → ℕ
      → ℕ
      → ℕ
      → PollResult PollError PacketTimeout × List PacketTimeout
  unfolding poll_for
  poll_for_timeout timeouts packet = poll_for (λ t. t.packet) packet timeouts current_height
