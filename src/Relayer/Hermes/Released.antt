-- ===== src/Relayer/Hermes/Released.antt =====
-- The locks of the hermes relayer after a call of a method.
use interchaintest.Base.{
  ℕ, ◌+◌, ◌-◌, String, Bool, Option, none, ◌≡◌, refl, sym, true, false, some, List, if◌then◌else◌,
  ◌==◌, lookup, has, assign, arith, subst, cat, nat_eq, string_eq,
}
use interchaintest.Base.Actions.{
  Action, continue, ◌>>=◌, ◌>>◌, Returns, errorf, return, gets, modify,
}
use interchaintest.Ibc.Config.{ChainConfig}
use interchaintest.Ibc.Channel.{CreateChannelOptions, CreateClientOptions}
use interchaintest.Dockerutil.{Docker}
use interchaintest.Relayer.Types.{RelayerCommander, PathUpdateOptions}
use interchaintest.Relayer.Docker.{add_wallet}
use interchaintest.Relayer.Hermes.{
  parse_restore_key_output, PathConfiguration, ChainEntry, Hermes, r_unlock,
}
use interchaintest.Relayer.Hermes.Methods.{
  wallet_of, Formats, run_hermes, create_channel, create_connections, update_clients, new_client,
  create_clients, write_client, create_client, link_path, generate_path, update_found, update_path,
  with_chain, config_content, validate_config, add_chain_configuration, restore_key,
}
use interchaintest.Relayer.Hermes.Keeping.{
  locks_of, AreFree, KeepsLocks, >>=-KeepsLocks, >>-KeepsLocks, return-KeepsLocks, ended-KeepsLocks,
  wrapping-KeepsLocks, gets-KeepsLocks, on_docker-KeepsLocks, write_path-KeepsLocks,
}
use interchaintest.Relayer.Hermes.Locks.{r_lock_free}
use interchaintest.Relayer.Hermes.Freeing.{
  LeavesFree, KeepsLocks-LeavesFree, >>=-LeavesFree, >>-LeavesFree, wrapping-LeavesFree,
  locked-LeavesFree, assign-free, locked-KeepsLocks, with_path-LeavesFree,
}

-- A call of a method.
pub data Call : Type 0 where
  creates_channel : String → CreateChannelOptions → Call
  creates_connections : String → Call
  updates_clients : String → Call
  creates_clients : String → CreateClientOptions → Call
  creates_client : String → String → String → CreateClientOptions → Call
  links_path : String → CreateChannelOptions → CreateClientOptions → Call
  generates_path : String → String → String → Call
  updates_path : String → PathUpdateOptions → Call
  adds_chain : ChainEntry → Call
  restores_key : ChainConfig → String → String → Call

module _ (docker : Docker) (c : RelayerCommander) (formats : Formats) where
  abbrev pub serve : Call → Action Hermes (Unit {0})
  serve (creates_channel name o) = create_channel docker c formats name o
  serve (creates_connections name) = create_connections docker c formats name
  serve (updates_clients name) = update_clients docker c formats name
  serve (creates_clients name o) = create_clients docker c formats name o
  serve (creates_client src dst name o) = create_client docker c formats src dst name o
  serve (links_path name o1 o2) = link_path docker c formats name o1 o2
  serve (generates_path src dst name) = generate_path docker c formats src dst name
  serve (updates_path name o) = update_path docker c formats name o
  serve (adds_chain entry) = add_chain_configuration docker c formats entry
  serve (restores_key cfg name mnemonic) = restore_key docker c formats cfg name mnemonic

  run_hermes-KeepsLocks : (cmd : List String) → KeepsLocks (run_hermes docker c formats cmd)
  unfolding run_hermes
  run_hermes-KeepsLocks cmd = record { keeps = λ h. refl }

  pub new_client-KeepsLocks :
      (a b : String) (o : CreateClientOptions) → KeepsLocks (new_client docker c formats a b o)
  unfolding new_client
  new_client-KeepsLocks a b o = >>=-KeepsLocks (run_hermes-KeepsLocks _) (λ res. ended-KeepsLocks)

  create_channel-LeavesFree :
      (name : String) (o : CreateChannelOptions)
      → LeavesFree (create_channel docker c formats name o)
  unfolding create_channel
  create_channel-LeavesFree name o =
      with_path-LeavesFree name
        (λ p. >>-KeepsLocks (run_hermes-KeepsLocks _) (write_path-KeepsLocks _ _))

  create_connections-LeavesFree :
      (name : String) → LeavesFree (create_connections docker c formats name)
  unfolding create_connections
  create_connections-LeavesFree name = with_path-LeavesFree name (λ p.
      >>=-KeepsLocks (run_hermes-KeepsLocks _)
        (λ res. >>=-KeepsLocks ended-KeepsLocks (λ ids. (write_path-KeepsLocks _ _))))

  update_clients-LeavesFree : (name : String) → LeavesFree (update_clients docker c formats name)
  unfolding update_clients
  update_clients-LeavesFree name = with_path-LeavesFree name (λ p.
      >>-KeepsLocks (run_hermes-KeepsLocks _)
        (>>-KeepsLocks (run_hermes-KeepsLocks _) return-KeepsLocks))

  create_clients-LeavesFree :
      (name : String) (o : CreateClientOptions)
      → LeavesFree (create_clients docker c formats name o)
  unfolding create_clients
  create_clients-LeavesFree name o = with_path-LeavesFree name (λ p.
      >>=-KeepsLocks (new_client-KeepsLocks _ _ o) (λ a.
        >>-KeepsLocks (write_path-KeepsLocks _ _)
          (>>=-KeepsLocks (new_client-KeepsLocks _ _ o) (λ b. (write_path-KeepsLocks _ _)))))

  write_client-KeepsLocks :
      (name src : String) (p : PathConfiguration) (id : String)
      → KeepsLocks (write_client docker c formats name src p id)
  write_client-KeepsLocks name src p id = record { keeps = λ h. ground arith }

  pub create_client-LeavesFree :
      (src dst name : String) (o : CreateClientOptions)
      → LeavesFree (create_client docker c formats src dst name o)
  unfolding create_client
  create_client-LeavesFree src dst name o = with_path-LeavesFree name (λ p.
      >>=-KeepsLocks (new_client-KeepsLocks src dst o)
        (λ id. write_client-KeepsLocks name src p id))

  generate_path-LeavesFree :
      (src dst name : String) → LeavesFree (generate_path docker c formats src dst name)
  unfolding generate_path
  generate_path-LeavesFree src dst name = locked-KeepsLocks (write_path-KeepsLocks name _)

  update_found-keeps :
      (name : String) (o : PathUpdateOptions) (found : Option PathConfiguration) (h : Hermes)
      → locks_of (update_found docker c formats name o found h).1 ≡ locks_of h
  update_found-keeps name o none h = refl
  update_found-keeps name o (some p) h = refl

  update_path-LeavesFree :
      (name : String) (o : PathUpdateOptions) → LeavesFree (update_path docker c formats name o)
  unfolding update_path
  update_path-LeavesFree name o =
      locked-KeepsLocks {m = λ h. update_found docker c formats name o (lookup name h.paths) h}
        (record { keeps = λ h. update_found-keeps name o (lookup name h.paths) h })

  config_content-LeavesFree :
      (entry : ChainEntry) → LeavesFree (config_content docker c formats entry)
  unfolding config_content
  config_content-LeavesFree entry =
      locked-KeepsLocks {m = with_chain docker c formats entry} (record { keeps = λ h. refl })

  validate_config-KeepsLocks : KeepsLocks (validate_config docker c formats)
  unfolding validate_config
  validate_config-KeepsLocks =
      >>=-KeepsLocks {A = String} (gets-KeepsLocks (λ h. h.relayer.home_dir))
        (λ home. >>-KeepsLocks (run_hermes-KeepsLocks _) return-KeepsLocks)

  add_chain_configuration-LeavesFree :
      (entry : ChainEntry) → LeavesFree (add_chain_configuration docker c formats entry)
  unfolding add_chain_configuration
  add_chain_configuration-LeavesFree entry =
      >>=-LeavesFree (wrapping-LeavesFree _ (config_content-LeavesFree entry)) (λ content.
        >>-LeavesFree (wrapping-LeavesFree _ (KeepsLocks-LeavesFree (on_docker-KeepsLocks _))) (
          >>-LeavesFree (KeepsLocks-LeavesFree validate_config-KeepsLocks) (
            locked-LeavesFree
              (modify
                (λ h. record h { chain_locks = assign entry.cfg.chain_id false h.chain_locks }))
              (λ h f r. (
                refl,
                f.1,
                λ id v q. assign-free entry.cfg.chain_id id v h.chain_locks (f.2 id v) q,
              )))))

  check_path : String → Bool → Action Hermes (Unit {0})
  check_path name known = if known then return tt else errorf (cat "path " (cat name " not found"))

  found_then-LeavesFree :
      (name : String) (known : Bool) (m : Action Hermes (Unit {0}))
      → LeavesFree m
      → LeavesFree (check_path name known >> m)
  unfolding check_path
  found_then-LeavesFree name true m k = record { leaves = k.leaves }
  found_then-LeavesFree name false m k = record { leaves = λ h f r. f }

  readers_lem : (n : ℕ) → n ≡ 0 → (n + 1) - 1 ≡ 0
  readers_lem n e = omega arith

  link_path-LeavesFree :
      (name : String) (o1 : CreateChannelOptions) (o2 : CreateClientOptions)
      → LeavesFree (link_path docker c formats name o1 o2)
  unfolding link_path check_path
  link_path-LeavesFree name o1 o2 = record {
    leaves = λ h f.
        let rest : Action Hermes (Unit {0}) = (do
          create_clients docker c formats name o2
          create_connections docker c formats name
          create_channel docker c formats name o1) in
        let rest-free = >>-LeavesFree (create_clients-LeavesFree name o2) (
          >>-LeavesFree (create_connections-LeavesFree name) (create_channel-LeavesFree name o1)) in
        let after : Unit → Action Hermes (Unit {0}) = (λ u. do
          known ← gets (λ s. has name s.paths)
          modify r_unlock
          check_path name known
          rest) in
        subst (λ x. Returns (continue x after).0 → AreFree (locks_of (continue x after).1))
          (sym (r_lock_free h f.0))
          ((found_then-LeavesFree name (has name h.paths) rest rest-free).leaves
            (record h { readers = (h.readers + 1) - 1 }) (f.0, readers_lem h.readers f.1, f.2));
  }

  key_command-keeps :
      (b : Bool) (m k : Action Hermes (List String))
      → KeepsLocks m
      → KeepsLocks k
      → KeepsLocks (if b then m else k)
  key_command-keeps true m k p q = p
  key_command-keeps false m k p q = q

  restore_key-LeavesFree :
      (cfg : ChainConfig) (key_name mnemonic : String)
      → LeavesFree (restore_key docker c formats cfg key_name mnemonic)
  unfolding restore_key
  restore_key-LeavesFree cfg key_name mnemonic = KeepsLocks-LeavesFree (
      >>=-KeepsLocks
        (>>=-KeepsLocks {A = String} (gets-KeepsLocks (λ h. h.relayer.home_dir)) (λ home.
          key_command-keeps (cfg.type == "namada") _ _ return-KeepsLocks
            (>>-KeepsLocks (wrapping-KeepsLocks _ (on_docker-KeepsLocks _)) return-KeepsLocks)))
        (λ cmd. >>=-KeepsLocks (run_hermes-KeepsLocks cmd) (λ res.
          >>=-KeepsLocks {A = String} (ended-KeepsLocks {e = parse_restore_key_output res.stdout})
            (λ address.
              on_docker-KeepsLocks
                (add_wallet docker c cfg.chain_id (wallet_of cfg.chain_id address mnemonic))))))

  -- Any of these calls, once it returns, with a result or an error, has given back the locks that it
  -- took: where nobody holds a lock before, nobody holds one after.
  pub serve-AreFree :
      (call : Call) (h : Hermes)
      → AreFree (locks_of h)
      → Returns (serve call h).0
      → AreFree (locks_of (serve call h).1)
  serve-AreFree (creates_channel name o) = (create_channel-LeavesFree name o).leaves
  serve-AreFree (creates_connections name) = (create_connections-LeavesFree name).leaves
  serve-AreFree (updates_clients name) = (update_clients-LeavesFree name).leaves
  serve-AreFree (creates_clients name o) = (create_clients-LeavesFree name o).leaves
  serve-AreFree (creates_client src dst name o) = (create_client-LeavesFree src dst name o).leaves
  serve-AreFree (links_path name o1 o2) = (link_path-LeavesFree name o1 o2).leaves
  serve-AreFree (generates_path src dst name) = (generate_path-LeavesFree src dst name).leaves
  serve-AreFree (updates_path name o) = (update_path-LeavesFree name o).leaves
  serve-AreFree (adds_chain entry) = (add_chain_configuration-LeavesFree entry).leaves
  serve-AreFree (restores_key cfg name mnemonic) = (restore_key-LeavesFree cfg name mnemonic).leaves
