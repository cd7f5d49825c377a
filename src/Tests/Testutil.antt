-- ===== src/Tests/Testutil.antt =====
-- A chain that makes a block every second question, and the waits on it.
use interchaintest.Base.{
  ℕ, suc, ◌-◌, ◌<◌, ◌≡◌, refl, ◌≢◌, ◌↔◌, Option, none, some, List, [], ◌∷◌, arith, if◌then◌else◌,
  ◌==◌, All, ◌/◌, nat_eq, string_eq,
}
use interchaintest.Ibc.Packet.{PacketAcknowledgement, PacketTimeout}
use interchaintest.Tests.Ibc.{packet, ack}
use interchaintest.Testutil.Poll.{
  Answer, hit, miss, Reaches, do_poll, search_heights, do_poll-eq-search,
}
use interchaintest.Testutil.Acks.{
  PollError, chain_error, err_not_found, poll_for_ack, poll_for_timeout,
}
use interchaintest.Testutil.Acks.Explained.{
  Explains, poll_for_ack-Explains, poll_for_timeout-Explains,
}
use interchaintest.Testutil.Wait
use interchaintest.Testutil.Wait.{
  fresh, wait_for_delta, nodes_in_sync, in_sync, wait_for_blocks_util,
}
use interchaintest.Testutil.Wait.Delta.{Grows, Returns, wait_for_delta-Returns}
use interchaintest.Testutil.Wait.Laws.{IsAtLeast, nodes_in_sync_iff, wait_for_blocks_util_lem}

abbrev heights : ℕ → Answer PollError ℕ
heights k = hit (k / 2)

reaches : Reaches heights 4 8
reaches = record { height = λ k. k / 2; answers = λ k. refl; reached = λ k h. omega arith }

-- The acknowledgement stands at height 3.
abbrev acks : ℕ → Answer PollError (List PacketAcknowledgement)
acks h = if h == 3 then hit (ack ∷ []) else hit []

abbrev poll_third : ℕ → ℕ → Answer PollError ℕ × ℕ
poll_third h polled = (if h == 3 then hit h else miss err_not_found, suc polled)

do_poll-eq-search_example :
    do_poll heights poll_third 20 2 4 0 ≡ search_heights poll_third (suc 4 - 2) 2 none 0
do_poll-eq-search_example =
    do_poll-eq-search heights poll_third 20 2 4 8 0 (omega arith) reaches (omega arith)

poll_for_ack-Explains_example :
    Explains (λ a. a.packet) packet acks (suc 4 - 2) 2 (poll_for_ack heights acks packet 20 2 4).0
poll_for_ack-Explains_example =
    poll_for_ack-Explains heights packet acks 20 2 4 8 (omega arith) reaches (omega arith)

abbrev timeouts : ℕ → Answer PollError (List PacketTimeout)
timeouts h = if h == 4 then hit (record { packet = packet } ∷ []) else miss (chain_error h)

poll_for_timeout-Explains_example :
    Explains
      (λ t. t.packet)
      packet
      timeouts
      (suc 4 - 2)
      2
      (poll_for_timeout heights timeouts packet 20 2 4).0
poll_for_timeout-Explains_example =
    poll_for_timeout-Explains heights packet timeouts 20 2 4 8 (omega arith) reaches (omega arith)

abbrev chain : ℕ → Wait.Answer
chain k = Wait.height (k / 2)

grows : Grows chain 3 2 8 1
grows = record {
  heights = λ k. k / 2;
  answers = λ k. refl;
  before = λ k h. omega arith;
  starts = refl;
  positive = omega arith;
  in_order = omega arith;
  grown = λ k h. omega arith;
}

wait_for_delta-Returns_example : Returns chain 3 1 (wait_for_delta chain 10 0 3 fresh)
wait_for_delta-Returns_example =
    wait_for_delta-Returns chain 3 10 2 8 1 grows (omega arith) (omega arith)

abbrev nodes : List Wait.Answer
nodes = Wait.height 5 ∷ Wait.height 4 ∷ []

nodes_in_sync_iff_example :
    (nodes_in_sync (Wait.height 4) nodes ≡ in_sync)
    ↔ ((c : ℕ) × (Wait.height 4 ≡ Wait.height c) × All (IsAtLeast c) nodes)
nodes_in_sync_iff_example = nodes_in_sync_iff (Wait.height 4) nodes

abbrev fn : ℕ → Option ℕ
fn i = if i == 2 then none else some i

wait_for_blocks_util_lem_example :
    ((e : ℕ)
      → (wait_for_blocks_util 4 fn ≡ some e)
        ↔ ((n : ℕ) × (◌≡◌ {A = ℕ} 4 (suc n)) × (fn n ≡ some e) × ((j : ℕ) → j < 4 → fn j ≢ none)))
    × ((j : ℕ) → j < 4 → fn j ≡ none → wait_for_blocks_util 4 fn ≡ none)
    × (◌≡◌ {A = ℕ} 4 0 → wait_for_blocks_util 4 fn ≡ none)
wait_for_blocks_util_lem_example = wait_for_blocks_util_lem fn 4
