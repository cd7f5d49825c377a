-- ===== src/Cosmos/Included.antt =====
-- What stands behind the hash that `ExecTx` returns.
use interchaintest.Base.{
  zero, suc, String, ◌≡◌, refl, sym, ap, ◌∙◌, Option, none, some, List, [], ◌∷◌, ℤ, pos, negsuc,
  subst, nat_eq, string_eq,
}
use interchaintest.Base.Actions.{Ended, done, fails, panics, blocks, continue, check}
use interchaintest.Base.Keeping.{Delivers, continue-Delivers, result_of}
use interchaintest.Ibc.Config.{ChainConfig}
use interchaintest.Dockerutil.{DockerCall, run, Calls, Host, Docker}
use interchaintest.Testutil.Wait.{
  WaitResult, reached, height_error, running, Height, wait_for_delta, fresh,
}
use interchaintest.Cosmos.{CosmosTx, Packages, ChainNode, node_name}
use interchaintest.Cosmos.Commands.{bind, query_command, tx_command}
use interchaintest.Cosmos.Exec.{
  code_error, ExecOutput, image_name, exec, exec_ok, exec_query, waited, wait_for_blocks, exec_tx,
}

module _ (packages : Packages) (docker : Docker) (cfg : ChainConfig) (tn : ChainNode) where
  -- The container that runs a command of the node.
  abbrev pub command_call : List String → DockerCall
  command_call cmd = run (image_name tn.image) cmd cfg.env (bind packages cfg tn)

  -- The two commands of a transaction: it was accepted when it was sent, the chain then made two
  -- blocks, and the query by the hash of the first answer found it included with no error.
  pub record Included (key_name : String) (command : List String) (before : Calls) (hash : String)
      (after : Calls) : Type 0 where
    pub sent : CosmosTx
    pub included : CosmosTx
    pub height : Height
    pub query : DockerCall
    pub queries : query ≡ command_call (query_command packages cfg tn ("tx" ∷ sent.tx_hash ∷ []))
    pub order : after ≡ query ∷ command_call (tx_command packages cfg tn key_name command) ∷ before
    pub answers :
        packages.unmarshal_tx
          (docker.result before (command_call (tx_command packages cfg tn key_name command))).stdout
        ≡ done sent
    pub accepted : sent.code ≡ pos 0
    pub waits :
        wait_for_delta
          (packages.heights
            (node_name cfg tn)
            (command_call (tx_command packages cfg tn key_name command) ∷ before))
          packages.patience
          0
          2
          fresh
        ≡ reached height
    pub finds :
        packages.unmarshal_tx
          (docker.result
            (command_call (tx_command packages cfg tn key_name command) ∷ before)
            query).stdout
        ≡ done included
    pub executed : included.code ≡ pos 0
    pub returned : hash ≡ included.tx_hash

  -- A command that did not fail: its output, and the call.
  exec_ok-Delivers :
      (cmd : List String) (h : Host)
      → Delivers
          (λ (out : ExecOutput) (t : Host).
            (out.stdout ≡ (docker.result h.calls (command_call cmd)).stdout)
            × (t.calls ≡ command_call cmd ∷ h.calls))
          (exec_ok packages docker cfg tn cmd h)
  unfolding exec_ok exec
  exec_ok-Delivers cmd h = verdict (docker.fault h.calls (command_call cmd))
    where
      verdict :
          (o : Option String)
          → Delivers
              (λ (out : ExecOutput) (t : Host).
                (out.stdout ≡ (docker.result h.calls (command_call cmd)).stdout)
                × (t.calls ≡ command_call cmd ∷ h.calls))
              (continue (check o (record h { calls = command_call cmd ∷ h.calls })) (λ u s. (
                done (record {
                  stdout = (docker.result h.calls (command_call cmd)).stdout;
                  stderr = (docker.result h.calls (command_call cmd)).stderr;
                  err = docker.fault h.calls (command_call cmd);
                }),
                s,
              )))
      verdict none = (refl, refl)
      verdict (some e) = tt

  accepted-Delivers :
      (log : String) (c : ℤ) (h : Host)
      → Delivers (λ (u : Unit {0}) (t : Host). (c ≡ pos 0) × (t ≡ h)) (check (code_error log c) h)
  accepted-Delivers log (pos zero) h = (refl, refl)
  accepted-Delivers log (pos (suc n)) h = tt
  accepted-Delivers log (negsuc n) h = tt

  ended-Delivers :
      {A : Type 0} (x : Ended A) (h : Host)
      → Delivers (λ (a : A) (t : Host). (x ≡ done a) × (t ≡ h)) (x, h)
  ended-Delivers (done a) h = (refl, refl)
  ended-Delivers (fails e) h = tt
  ended-Delivers panics h = tt
  ended-Delivers blocks h = tt

  waited-Delivers :
      (r : WaitResult) (h : Host)
      → Delivers
          (λ (u : Unit {0}) (t : Host). ((height : Height) × (r ≡ reached height)) × (t ≡ h))
          (waited packages docker cfg r h)
  waited-Delivers (reached height) h = ((height, refl), refl)
  waited-Delivers (height_error e) h = tt
  waited-Delivers running h = tt

  exec_tx-Delivers :
      (key_name : String) (command : List String) (h : Host)
      → Delivers
          (λ (hash : String) (t : Host). Included key_name command h.calls hash t.calls)
          (exec_tx packages docker cfg tn key_name command h)
  unfolding exec_tx exec_query wait_for_blocks
  exec_tx-Delivers key_name command h =
      let P = λ (hash : String) (t : Host). Included key_name command h.calls hash t.calls in
      let cmd = tx_command packages cfg tn key_name command in
      continue-Delivers P _ (exec_ok packages docker cfg tn cmd h) _ (exec_ok-Delivers cmd h)
        (λ out h1 (o, c1).
          continue-Delivers P _ (packages.unmarshal_tx out.stdout, h1) _
            (ended-Delivers (packages.unmarshal_tx out.stdout) h1)
            (λ sent h2 (u, c2).
              continue-Delivers P _ (check (code_error sent.raw_log sent.code) h2) _
                (accepted-Delivers sent.raw_log sent.code h2)
                (λ _ h3 (ok, c3).
                  continue-Delivers P _ (wait_for_blocks packages docker cfg 2 tn h3) _
                    (waited-Delivers _ h3)
                    (λ _ h4 ((height, w), c4).
                      let query = query_command packages cfg tn ("tx" ∷ sent.tx_hash ∷ []) in
                      continue-Delivers P _ (exec_ok packages docker cfg tn query h4) _
                        (exec_ok-Delivers query h4)
                        (λ out' h5 (o', c5).
                          continue-Delivers P _ (packages.unmarshal_tx out'.stdout, h5) _
                            (ended-Delivers (packages.unmarshal_tx out'.stdout) h5)
                            (λ included h6 (u', c6).
                              continue-Delivers P _
                                (check (code_error included.raw_log included.code) h6) _
                                (accepted-Delivers included.raw_log included.code h6)
                                (λ _ h7 (ok', c7).
                                  let at : h4.calls ≡ command_call cmd ∷ h.calls =
                                    ap (λ (t : Host). t.calls) (c4 ∙ c3 ∙ c2) ∙ c1 in
                                  record {
                                    sent = sent;
                                    included = included;
                                    height = height;
                                    query = command_call query;
                                    queries = refl;
                                    order =
                                        ap (λ (t : Host). t.calls) (c7 ∙ c6)
                                        ∙ c5
                                        ∙ ap (λ l. command_call query ∷ l) at;
                                    answers = sym (ap packages.unmarshal_tx o) ∙ u;
                                    accepted = ok;
                                    waits =
                                        ap
                                          (λ l.
                                            wait_for_delta (packages.heights (node_name cfg tn) l)
                                              packages.patience 0 2 fresh)
                                          (sym (ap (λ (t : Host). t.calls) (c3 ∙ c2) ∙ c1))
                                        ∙ w;
                                    finds =
                                        ap
                                          (λ l.
                                            packages.unmarshal_tx
                                              (docker.result l (command_call query)).stdout)
                                          (sym at)
                                        ∙ sym (ap packages.unmarshal_tx o')
                                        ∙ u';
                                    executed = ok';
                                    returned = refl;
                                  })))))))

  -- When a transaction is executed and a hash returned, the calls were the command of the transaction
  -- and then one query for it; the first was answered with code 0, two blocks passed between them, the
  -- query's answer had code 0 as well, and the hash is the one in that answer.
  pub exec_tx-Included :
      (key_name : String) (command : List String) (h : Host) (hash : String)
      → (exec_tx packages docker cfg tn key_name command h).0 ≡ done hash
      → Included key_name command h.calls hash
          (exec_tx packages docker cfg tn key_name command h).1.calls
  exec_tx-Included key_name command h hash e =
      at_end (exec_tx packages docker cfg tn key_name command h)
        (exec_tx-Delivers key_name command h) e
    where
      at_end :
          (x : Ended String × Host)
          → Delivers (λ (a : String) (t : Host). Included key_name command h.calls a t.calls) x
          → x.0 ≡ done hash
          → Included key_name command h.calls hash x.1.calls
      at_end (done a, t) k q =
          subst (λ b. Included key_name command h.calls b t.calls) (result_of q) k
      at_end (fails x, t) k q = absurd (cc)
      at_end (panics, t) k q = absurd (cc)
      at_end (blocks, t) k q = absurd (cc)
