-- ===== src/Relayer/Hermes/Stuck.antt =====
-- Flush of the hermes relayer, and the lock that it takes to read a path.
use interchaintest.Base.{
  ℕ, ◌+◌, String, ◌≡◌, sym, ap, ◌∙◌, ◌≢◌, Bool, true, false, not, ◌||◌, some, List, [], ◌∷◌,
  if◌then◌else◌, ◌==◌, lookup, arith, subst, cat, nat_eq, string_eq,
}
use interchaintest.Base.Actions.{
  Action, done, fails, blocks, continue, ◌>>◌, errorf, return, modify,
}
use interchaintest.Ibc.Transfer.{ChannelOutput}
use interchaintest.Dockerutil.{Docker}
use interchaintest.Relayer.Types.{RelayerCommander}
use interchaintest.Relayer.Docker.{get_channels}
use interchaintest.Relayer.Hermes.{
  PathConfiguration, Hermes, deferring, lock, unlock, r_unlock, found_path, get_and_lock_path,
}
use interchaintest.Relayer.Hermes.Methods.{
  Formats, run_hermes, port_of, clear_packets, flush_path, flush,
}
use interchaintest.Relayer.Hermes.Locks.{r_lock_free}

-- A reader keeps the writer out.
get_and_lock_read :
    (name : String) (h : Hermes) → h.readers ≢ 0 → (get_and_lock_path name h).0 ≡ blocks
unfolding get_and_lock_path lock
get_and_lock_read name h n =
    ap
      (λ b.
        (continue (if b then (blocks, h) else (done tt, record h { writer = true }))
          (λ u. deferring unlock (λ s. found_path name (lookup name s.paths) s))).0)
      (e h.writer h.readers n)
  where
    e : (w : Bool) (r : ℕ) → r ≢ 0 → (w || not (r == 0)) ≡ true
    e w r p = ground arith

module _ (docker : Docker) (c : RelayerCommander) (formats : Formats) where
  flush_step :
      (name id : String) (h : Hermes) (p : PathConfiguration) (channels : List ChannelOutput)
      → h.writer ≡ false
      → lookup name h.paths ≡ some p
      → (get_channels docker c p.chain_a.chain_id h.relayer).0 ≡ done channels
      → port_of docker c formats id channels ≡ ""
      → flush docker c formats name id h ≡ (
        fails (cat "channel " (cat id (cat " not found on chain " p.chain_a.chain_id))),
        record h {
          relayer = (get_channels docker c p.chain_a.chain_id h.relayer).1;
          readers = h.readers + 1;
        },
      )
  unfolding flush
  flush_step name id h p channels w e g q =
      let h1 : Hermes = record h { readers = h.readers + 1 } in
      let h2 : Hermes = record h1 {
        relayer = (get_channels docker c p.chain_a.chain_id h.relayer).1;
      } in
      let no_channel : Action Hermes (Unit {0}) =
        errorf (cat "channel " (cat id (cat " not found on chain " p.chain_a.chain_id))) in
      ap (λ x. continue x (λ u s. flush_path docker c formats id (lookup name s.paths) s))
        (r_lock_free h w)
      ∙ ap (λ o. flush_path docker c formats id o h1) e
      ∙ ap (λ x. continue (x, h2) (clear_packets docker c formats p id)) g
      ∙ ap
          (λ b. continue ((if b then no_channel else return tt) h2) (λ u. do
            modify r_unlock
            run_hermes docker c formats (
                "hermes"
                ∷ "clear"
                ∷ "packets"
                ∷ "--chain"
                ∷ p.chain_a.chain_id
                ∷ "--channel"
                ∷ id
                ∷ "--port"
                ∷ port_of docker c formats id channels
                ∷ [])
            return tt))
          (unnamed (port_of docker c formats id channels) q)
    where
      unnamed : (port : String) → port ≡ "" → (port == "") ≡ true
      unnamed port e = ap (λ s. s == "") e

  -- A flush of a channel that the chain of the path's first end does not list (or lists with no port)
  -- fails, and keeps the reader's lock: from then on, every call that locks a path, whichever path,
  -- waits for ever.
  pub flush-blocks :
      (name id other : String) (h : Hermes) (p : PathConfiguration) (channels : List ChannelOutput)
      → h.writer ≡ false
      → lookup name h.paths ≡ some p
      → (get_channels docker c p.chain_a.chain_id h.relayer).0 ≡ done channels
      → port_of docker c formats id channels ≡ ""
      → ((flush docker c formats name id h).0
          ≡ fails (cat "channel " (cat id (cat " not found on chain " p.chain_a.chain_id))))
        × ((get_and_lock_path other (flush docker c formats name id h).1).0 ≡ blocks)
  flush-blocks name id other h p channels w e g q =
      let step = flush_step name id h p channels w e g q in
      (
        ap (λ x. x.0) step,
        subst (λ x. (get_and_lock_path other x.1).0 ≡ blocks) (sym step)
            (get_and_lock_read other
              (record h {
                relayer = (get_channels docker c p.chain_a.chain_id h.relayer).1;
                readers = h.readers + 1;
              })
              (one_more h.readers)),
      )
    where
      one_more : (n : ℕ) → (n + 1) ≢ 0
      one_more n = omega arith
