-- ===== src/Testutil/Acks/Explained.antt =====
-- What the polls for an acknowledgement and for a timeout return.
use native.Mathlib.Decide.{ℕ_discrete}
use interchaintest.Base.{
  ℕ, zero, suc, ◌+◌, ◌-◌, ◌≤◌, ◌<◌, ◌≡◌, refl, sym, ap, ◌∙◌, ◌≢◌, ◌⊎◌, inl, inr, Option, none, some,
  List, [], ◌∷◌, ◌++◌, arith, In, All, subst, nat_eq,
}
use interchaintest.Ibc.Packet.{Packet, PacketAcknowledgement, PacketTimeout}
use interchaintest.Ibc.Packet.Laws.{equal_iff}
use interchaintest.Testutil.Poll.{
  Answer, hit, miss, PollResult, found, not_found, running, search_heights, search_heights-hit,
  search_heights-miss, Reaches, do_poll-eq-search, height_error, bad_range, Answer-cases,
}
use interchaintest.Testutil.Acks.{
  PollError, err_not_found, scan_items, poll_items, poll_for, poll_for_ack, poll_for_timeout,
}

module _ {A : Type 0} (packet_of : A → Packet) (packet : Packet) where
  scan_items-hit :
      (items searched : List A) (a : A)
      → (scan_items packet_of packet items searched).0 ≡ hit a
      → In a items × (packet_of a ≡ packet)
  unfolding scan_items
  scan_items-hit [] searched a h = cc
  scan_items-hit (b ∷ items) searched a h =
      ground (arith, scan_items-hit items (searched ++ b ∷ []) a, equal_iff (packet_of b) packet)

  scan_items-miss :
      (items searched : List A) (e : PollError)
      → (scan_items packet_of packet items searched).0 ≡ miss e
      → All (λ a. packet_of a ≢ packet) items
  unfolding scan_items
  scan_items-miss [] searched e h = tt
  scan_items-miss (b ∷ items) searched e h =
      ground (arith, scan_items-miss items (searched ++ b ∷ []) e, equal_iff (packet_of b) packet)

  scan_items-err :
      (items searched : List A) (e : PollError)
      → (scan_items packet_of packet items searched).0 ≡ miss e
      → e ≡ err_not_found
  unfolding scan_items
  scan_items-err [] searched e h = ground arith
  scan_items-err (b ∷ items) searched e h =
      ground (arith, scan_items-err items (searched ++ b ∷ []) e)

  module _ (items_at : ℕ → Answer PollError (List A)) where
    -- The error of a height that was looked at and has no item with the packet: the chain's own, or
    -- `ErrNotFound` if the chain gave its items.
    abbrev pub ErrorAt : ℕ → PollError → Type 0
    ErrorAt h e =
        (items_at h ≡ miss e) ⊎ ((items : List A) × (items_at h ≡ hit items) × (e ≡ err_not_found))

    -- What a result says of `n` heights from `cursor` on: a found item is one of a height of the range
    -- and holds the packet; if none is found, there is an error, the one of the last height, and no
    -- readable height of the range has such an item.
    abbrev pub Explains : ℕ → ℕ → PollResult PollError A → Type 0
    Explains n cursor (found a) =
        (h : ℕ) × (items : List A) × (cursor ≤ h)
        × (h < cursor + n)
        × (items_at h ≡ hit items)
        × In a items
        × (packet_of a ≡ packet)
    Explains n cursor (not_found e) =
        ((last : ℕ) × (err : PollError) × (suc last ≡ cursor + n)
          × (e ≡ some err)
          × ErrorAt last err)
        × ((h : ℕ) (items : List A)
            → cursor ≤ h
            → h < cursor + n
            → items_at h ≡ hit items
            → All (λ a. packet_of a ≢ packet) items)
    Explains n cursor (height_error e) = ⊥
    Explains n cursor bad_range = ⊥
    Explains n cursor running = ⊥

    poll_items-hit :
        (h : ℕ) (s : List A) (a : A)
        → (poll_items packet_of packet items_at h s).0 ≡ hit a
        → (items : List A) × (items_at h ≡ hit items) × In a items × (packet_of a ≡ packet)
    unfolding poll_items
    poll_items-hit h s a q = elim (Answer-cases (items_at h)) [
      | inl (e, p) ↦ ground arith
      | inr (items, p) ↦
          let (m, same) = scan_items-hit items s a (rw (p, poll_items) at q) in (items, p, m, same)
    ]

    poll_items-miss :
        (h : ℕ) (s : List A) (e : PollError) (items : List A)
        → (poll_items packet_of packet items_at h s).0 ≡ miss e
        → items_at h ≡ hit items
        → All (λ a. packet_of a ≢ packet) items
    unfolding poll_items
    poll_items-miss h s e items q p = scan_items-miss items s e (rw (p, poll_items) at q)

    same_error : {e e' : PollError} → ◌≡◌ {A = Answer PollError A} (miss e) (miss e') → e ≡ e'
    same_error q = cc

    poll_items-ErrorAt :
        (h : ℕ) (s : List A) (e : PollError)
        → (poll_items packet_of packet items_at h s).0 ≡ miss e
        → ErrorAt h e
    unfolding poll_items
    poll_items-ErrorAt h s e q = elim (Answer-cases (items_at h)) [
      | inl (e', p) ↦ inl (p ∙ ap (λ x. miss x) (same_error (rw (p, poll_items) at q)))
      | inr (items, p) ↦ inr (items, p, scan_items-err items s e (rw (p, poll_items) at q))
    ]

    Explains-later :
        (n cursor : ℕ) (r : PollResult PollError A)
        → ((items : List A) → items_at cursor ≡ hit items → All (λ a. packet_of a ≢ packet) items)
        → Explains n (suc cursor) r
        → Explains (suc n) cursor r
    Explains-later n cursor (found a) none_here (h, items, ge, lt, at, m, same) =
        (h, items, omega arith, omega arith, at, m, same)
    Explains-later n cursor (not_found e) none_here ((last, err, l, q, why), later) = (
      (last, err, omega arith, q, why),
      λ h items ge lt at. elim (ℕ_discrete cursor h) [
        | yes eq ↦ none_here items (rw eq at)
        | no ne ↦ later h items (omega arith) (omega arith) at
      ],
    )
    Explains-later n cursor (height_error e) none_here later = later
    Explains-later n cursor bad_range none_here later = later
    Explains-later n cursor running none_here later = later

    -- The only height of a range.
    Explains-last :
        (cursor : ℕ) (e : PollError)
        → ErrorAt cursor e
        → ((items : List A) → items_at cursor ≡ hit items → All (λ a. packet_of a ≢ packet) items)
        → Explains 1 cursor (not_found (some e))
    Explains-last cursor e why none_here = (
      (cursor, e, omega arith, refl, why),
      λ h items a b at. let q : h ≡ cursor = omega arith in none_here items (rw q at at),
    )

    found-Explains :
        (n cursor : ℕ) (e : Option PollError) (s : List A) (a : A)
        → (poll_items packet_of packet items_at cursor s).0 ≡ hit a
        → Explains
            (suc n)
            cursor
            (search_heights (poll_items packet_of packet items_at) (suc n) cursor e s).0
    found-Explains n cursor e s a q =
        let (items, p, m, same) = poll_items-hit cursor s a q in
        rw (search_heights-hit (poll_items packet_of packet items_at) n cursor e s q)
          (cursor, items, omega arith, omega arith, p, m, same)

    search-Explains :
        (n cursor : ℕ) (e : Option PollError) (s : List A)
        → Explains
            (suc n)
            cursor
            (search_heights (poll_items packet_of packet items_at) (suc n) cursor e s).0
    unfolding search_heights
    search-Explains zero cursor e s =
        elim (Answer-cases (poll_items packet_of packet items_at cursor s).0) [
          | inl (e', q) ↦
              rw (search_heights-miss (poll_items packet_of packet items_at) zero cursor e s q) (
                Explains-last cursor e' (poll_items-ErrorAt cursor s e' q)
                  (λ items p. poll_items-miss cursor s e' items q p))
          | inr (a, q) ↦ found-Explains zero cursor e s a q
        ]
    search-Explains (suc n) cursor e s =
        elim (Answer-cases (poll_items packet_of packet items_at cursor s).0) [
          | inl (e', q) ↦
              rw (search_heights-miss (poll_items packet_of packet items_at) (suc n) cursor e s q) (
                Explains-later (suc n) cursor _ (λ items p. poll_items-miss cursor s e' items q p)
                  (search-Explains n (suc cursor) (some e') _))
          | inr (a, q) ↦ found-Explains (suc n) cursor e s a q
        ]

    poll_for-Explains :
        (current_height : ℕ → Answer PollError ℕ) (fuel start_height max_height n : ℕ)
        → start_height ≤ max_height
        → Reaches current_height max_height n
        → n + (suc max_height - start_height) < fuel
        → Explains
            (suc max_height - start_height)
            start_height
            (poll_for packet_of packet items_at current_height fuel start_height max_height).0
    unfolding poll_for
    poll_for-Explains current_height fuel start max n le r lt =
        let size : suc max - start ≡ suc (max - start) = omega arith in
        rw
          (do_poll-eq-search current_height (poll_items packet_of packet items_at) fuel start max n
            [] le r lt)
          (subst
            (λ k.
              Explains k start
                (search_heights (poll_items packet_of packet items_at) k start none []).0)
            (sym size) (search-Explains (max - start) start none []))

module _ (current_height : ℕ → Answer PollError ℕ) (packet : Packet) where
  -- On a chain that answers and reaches the last height, and with enough fuel, PollForAck ends: with
  -- an acknowledgement of the packet that stands at a height of the range, or with an error, after
  -- which no height of the range whose acknowledgements could be read has one. The error is the last
  -- height's: the chain's own if its acknowledgements could not be read, else ErrNotFound.
  pub poll_for_ack-Explains :
      (acks : ℕ → Answer PollError (List PacketAcknowledgement))
      (fuel start_height max_height n : ℕ)
      → start_height ≤ max_height
      → Reaches current_height max_height n
      → n + (suc max_height - start_height) < fuel
      → Explains
          (λ a. a.packet)
          packet
          acks
          (suc max_height - start_height)
          start_height
          (poll_for_ack current_height acks packet fuel start_height max_height).0
  unfolding poll_for_ack
  poll_for_ack-Explains acks = poll_for-Explains (λ a. a.packet) packet acks current_height

  -- The same of PollForTimeout and the timeouts of the chain.
  pub poll_for_timeout-Explains :
      (timeouts : ℕ → Answer PollError (List PacketTimeout)) (fuel start_height max_height n : ℕ)
      → start_height ≤ max_height
      → Reaches current_height max_height n
      → n + (suc max_height - start_height) < fuel
      → Explains
          (λ t. t.packet)
          packet
          timeouts
          (suc max_height - start_height)
          start_height
          (poll_for_timeout current_height timeouts packet fuel start_height max_height).0
  unfolding poll_for_timeout
  poll_for_timeout-Explains timeouts =
      poll_for-Explains (λ t. t.packet) packet timeouts current_height
