-- ===== src/Interchain/Wallets.antt =====
-- `generateRelayerWallets` of interchain.go: a wallet for each chain of each relayer. What
-- BuildRelayerWallet of a chain answers for an account name is a parameter.
use interchaintest.Base.{
  String, ◌≡◌, refl, sym, ap, ◌∙◌, ◌⊎◌, inl, inr, true, Option, none, some, List, [], ◌∷◌,
  if◌then◌else◌, Bool-cases, ◌==◌, ==_refl, In, Map, lookup, has, assign, has-assign, subst,
  get_list, nat_eq, string_eq, pair_eq,
}
use interchaintest.Interchain.{ChainRef, RelayerRef, Wallet, Interchain}
use interchaintest.Interchain.Routes.{Routes, relayer_chains, Serves, relayer_chains_lem}

abbrev pub Wallets : Type 0
Wallets = Map (RelayerRef × ChainRef) Wallet

pub data WalletAnswer : Type 0 where
  built : Wallet → WalletAnswer
  fails : String → WalletAnswer

-- The wallets, and the error with which the loops stopped.
pub data Generated : Type 0 where
  generated : Wallets → Option String → Generated
  generated_twice : Generated

-- `ic.chains[c]`
abbrev pub account_name : Interchain → ChainRef → String
account_name ic c = elim (lookup c ic.chains) [ none ↦ "" | some id ↦ id ]

some-none : {e : String} → some e ≡ none → ⊥
some-none h = cc

module _ (build : ChainRef → String → WalletAnswer) (ic : Interchain) where
  unfoldable pub build_wallets : RelayerRef → List ChainRef → Wallets → Wallets × Option String
  build_wallets r [] w = (w, none)
  build_wallets r (c ∷ cs) w = elim (build c (account_name ic c)) [
    | built x ↦ build_wallets r cs (assign (r, c) x w)
    | fails e ↦ (w, some e)
  ]

  abbrev pub unless_failed :
      Wallets × Option String → (Wallets → Wallets × Option String) → Wallets × Option String
  unless_failed (w, none) f = f w
  unless_failed (w, some e) f = (w, some e)

  unfoldable pub build_all : Routes → Wallets → Wallets × Option String
  unfolding build_wallets
  build_all [] w = (w, none)
  build_all ((r, cs) ∷ rest) w = unless_failed (build_wallets r cs w) (build_all rest)

  abbrev generate_from : Option Wallets → Generated
  generate_from none =
      generated (build_all (relayer_chains ic) []).0 (build_all (relayer_chains ic) []).1
  generate_from (some w) = generated_twice

  -- `(*Interchain).generateRelayerWallets`
  unfoldable pub generate_relayer_wallets : Generated
  unfolding build_all
  generate_relayer_wallets = generate_from ic.relayer_wallets

  Answer-cases :
      (a : WalletAnswer) → ((x : Wallet) × (a ≡ built x)) ⊎ ((e : String) × (a ≡ fails e))
  Answer-cases (built x) = inl (x, refl)
  Answer-cases (fails e) = inr (e, refl)

  has-assign_other :
      (k j : RelayerRef × ChainRef) (x : Wallet) (w : Wallets)
      → has j w ≡ true
      → has j (assign k x w) ≡ true
  has-assign_other k j x w h =
      has-assign k j x w ∙ elim (Bool-cases (k == j)) [ inl e ↦ rw e refl | inr e ↦ rw e h ]

  has-assign_same :
      (k : RelayerRef × ChainRef) (x : Wallet) (w : Wallets) → has k (assign k x w) ≡ true
  has-assign_same k x w = has-assign k k x w ∙ ap (λ b. if b then true else has k w) (==_refl k)

  -- What the wallets become: none is lost.
  abbrev pub Grows : Wallets → Wallets → Type 0
  Grows w v = (j : RelayerRef × ChainRef) → has j w ≡ true → has j v ≡ true

  build_wallets-step :
      (r : RelayerRef) (c : ChainRef) (cs : List ChainRef) (w : Wallets)
      → (build_wallets r (c ∷ cs) w).1 ≡ none
      → (x : Wallet) × (build_wallets r (c ∷ cs) w ≡ build_wallets r cs (assign (r, c) x w))
  unfolding build_wallets
  build_wallets-step r c cs w h = elim (Answer-cases (build c (account_name ic c))) [
    | inl (x, e) ↦ (x, rw (e, build_wallets) refl)
    | inr (x, e) ↦ absurd (some-none (rw (e, build_wallets) at h))
  ]

  -- The loop over a relayer's chains, when it does not fail: each chain has its wallet.
  build_wallets_lem :
      (r : RelayerRef) (cs : List ChainRef) (w : Wallets)
      → (build_wallets r cs w).1 ≡ none
      → Grows w (build_wallets r cs w).0
        × ((c : ChainRef) → In c cs → has (r, c) (build_wallets r cs w).0 ≡ true)
  unfolding build_wallets
  build_wallets_lem r [] w h = (λ j k. k, λ c m. absurd m)
  build_wallets_lem r (c ∷ cs) w h =
      let (x, e) = build_wallets-step r c cs w h in
      let (grows, each) = build_wallets_lem r cs (assign (r, c) x w) (sym (ap (λ p. p.1) e) ∙ h) in
      subst
        (λ (p : Wallets × Option String).
          Grows w p.0 × ((d : ChainRef) → In d (c ∷ cs) → has (r, d) p.0 ≡ true))
        (sym e)
        (
          λ j k. grows j (has-assign_other (r, c) j x w k),
          λ d m. elim m [
            | inl q ↦ grows (r, d) (rw q (has-assign_same (r, c) x w))
            | inr q ↦ each d q
          ],
        )

  unless_failed-none :
      (p : Wallets × Option String) (f : Wallets → Wallets × Option String)
      → (unless_failed p f).1 ≡ none
      → (p.1 ≡ none) × (unless_failed p f ≡ f p.0)
  unless_failed-none (w, none) f h = (refl, refl)
  unless_failed-none (w, some e) f h = absurd (some-none h)

  build_all_lem :
      (m : Routes) (w : Wallets)
      → (build_all m w).1 ≡ none
      → Grows w (build_all m w).0
        × ((r : RelayerRef) (cs : List ChainRef) (c : ChainRef)
            → In (r, cs) m
            → In c cs
            → has (r, c) (build_all m w).0 ≡ true)
  unfolding build_all
  build_all_lem [] w h = (λ j k. k, λ r cs c m. absurd m)
  build_all_lem ((r, cs) ∷ m) w h =
      let (ok, e) = unless_failed-none (build_wallets r cs w) (build_all m) h in
      let (grows1, each1) = build_wallets_lem r cs w ok in
      let (grows2, each2) = build_all_lem m (build_wallets r cs w).0 (sym (ap (λ p. p.1) e) ∙ h) in
      subst
        (λ (p : Wallets × Option String).
          Grows w p.0
          × ((s : RelayerRef) (ds : List ChainRef) (c : ChainRef)
              → In (s, ds) ((r, cs) ∷ m)
              → In c ds
              → has (s, c) p.0 ≡ true))
        (sym e)
        (
          λ j k. grows2 j (grows1 j k),
          λ s ds c at i. elim at [
            | inl q ↦
                grows2 (s, c)
                  (rw (ap (λ p. p.0) q) (each1 c (subst (λ l. In c l) (ap (λ p. p.1) q) i)))
            | inr q ↦ each2 s ds c q i
          ],
        )

  get_list-cons :
      (r s : RelayerRef) (cs : List ChainRef) (m : Routes)
      → get_list r ((s, cs) ∷ m) ≡ (if s == r then cs else get_list r m)
  unfolding get_list lookup
  get_list-cons r s cs m = elim (Bool-cases (s == r)) [
    | inl e ↦ rw (e, get_list, lookup) refl
    | inr e ↦ rw (e, get_list, lookup) refl
  ]

  In-get_list :
      (r : RelayerRef) (c : ChainRef) (m : Routes)
      → In c (get_list r m)
      → (cs : List ChainRef) × In (r, cs) m × In c cs
  unfolding get_list lookup
  In-get_list r c [] h = absurd h
  In-get_list r c ((s, cs) ∷ m) h =
      let k : In c (if s == r then cs else get_list r m) =
        subst (λ l. In c l) (get_list-cons r s cs m) h in
      elim (Bool-cases (s == r)) [
        | inl e ↦ (
          cs,
          inl (λ d. (sym ((nat_eq.same_iff s r).0 e) d, cs)),
          subst (λ b. In c (if b then cs else get_list r m)) e k,
        )
        | inr e ↦
            let (ds, at, i) =
              In-get_list r c m (subst (λ b. In c (if b then cs else get_list r m)) e k) in
            (ds, inr at, i)
      ]

  generate_from-generated :
      (o : Option Wallets) (w : Wallets)
      → generate_from o ≡ generated w none
      → ((build_all (relayer_chains ic) []).1 ≡ none) × ((build_all (relayer_chains ic) []).0 ≡ w)
  generate_from-generated none w h = (cc, cc)
  generate_from-generated (some v) w h = cc

  -- BuildRelayerWallet of every chain answers with a wallet.
  abbrev pub Builds : Type 0
  Builds = (c : ChainRef) (n : String) → (x : Wallet) × (build c n ≡ built x)

  build_wallets-none :
      (r : RelayerRef) (cs : List ChainRef) (w : Wallets) → Builds → (build_wallets r cs w).1 ≡ none
  unfolding build_wallets
  build_wallets-none r [] w h = refl
  build_wallets-none r (c ∷ cs) w h =
      let (x, e) = h c (account_name ic c) in
      rw (e, build_wallets) (build_wallets-none r cs (assign (r, c) x w) h)

  unless_failed-step :
      (p : Wallets × Option String) (f : Wallets → Wallets × Option String)
      → p.1 ≡ none
      → (f p.0).1 ≡ none
      → (unless_failed p f).1 ≡ none
  unless_failed-step (w, none) f h k = k
  unless_failed-step (w, some e) f h k = absurd (some-none h)

  build_all-none : (m : Routes) (w : Wallets) → Builds → (build_all m w).1 ≡ none
  unfolding build_all
  build_all-none [] w h = refl
  build_all-none ((r, cs) ∷ m) w h =
      unless_failed-step (build_wallets r cs w) (build_all m) (build_wallets-none r cs w h)
        (build_all-none m (build_wallets r cs w).0 h)

  -- When generateRelayerWallets ends without an error, every chain at an end of a link of a relayer,
  -- of both kinds, has a wallet of that relayer.
  generate_relayer_wallets_lem :
      (w : Wallets) (r : RelayerRef) (c : ChainRef)
      → generate_relayer_wallets ≡ generated w none
      → Serves r c ic.links ⊎ Serves r c ic.provider_consumer_links
      → has (r, c) w ≡ true
  unfolding generate_relayer_wallets
  generate_relayer_wallets_lem w r c h serves =
      let (cs, at, i) =
        In-get_list r c (relayer_chains ic) (((relayer_chains_lem r ic).1 c).1 serves) in
      let (ok, same) = generate_from-generated ic.relayer_wallets w h in
      subst (λ v. has (r, c) v ≡ true) same
        ((build_all_lem (relayer_chains ic) [] ok).1 r cs c at i)

  -- The first generateRelayerWallets, on chains that all build a wallet, ends without an error, and
  -- then every chain at an end of a link of a relayer, of both kinds, has a wallet of that relayer.
  pub generate_relayer_wallets-has :
      Builds
      → ic.relayer_wallets ≡ none
      → (w : Wallets) × (generate_relayer_wallets ≡ generated w none)
        × ((r : RelayerRef) (c : ChainRef)
            → Serves r c ic.links ⊎ Serves r c ic.provider_consumer_links
            → has (r, c) w ≡ true)
  unfolding generate_relayer_wallets
  generate_relayer_wallets-has h first =
      let ok = build_all-none (relayer_chains ic) [] h in
      let w = (build_all (relayer_chains ic) []).0 in
      let e : generate_relayer_wallets ≡ generated w none =
        ap generate_from first ∙ ap (generated w) ok in
      (w, e, λ r c serves. generate_relayer_wallets_lem w r c e serves)
