-- ===== src/Relayer/Hermes/Renamed.antt =====
-- CreateClient of the hermes relayer, and the locks of a path that is ready.
use interchaintest.Base.{
  Bool-cases, inl, inr, String, ◌≡◌, refl, sym, ap, ◌∙◌, Bool, true, false, Map, none, some,
  if◌then◌else◌, ◌==◌, lookup, assign, lookup-assign, subst, cat, nat_eq, string_eq,
}
use interchaintest.Base.Actions.{
  Ended, Action, done, fails, panics, blocks, continue, ◌>>=◌, ◌>>◌, Returns, errorf, return,
}
use interchaintest.Ibc.Channel.{CreateClientOptions}
use interchaintest.Dockerutil.{Docker}
use interchaintest.Relayer.Types.{RelayerCommander}
use interchaintest.Relayer.Hermes.{
  write_path, PathConfiguration, Hermes, finally, deferring, unlock, lock_chain, unlock_chains,
  lock_ends, found_path, get_and_lock_path, with_path,
}
use interchaintest.Relayer.Hermes.Methods.{
  set_a, set_b, Formats, new_client, write_client, create_client,
}
use interchaintest.Relayer.Hermes.Keeping.{locks_of, AreFree}
use interchaintest.Relayer.Hermes.Locks.{held, IsReady, with_path_step, get_and_lock_free}
use interchaintest.Relayer.Hermes.Released.{new_client-KeepsLocks, create_client-LeavesFree}

-- The chains of a ready path are locked.
lock_chain_free :
    (id : String) (h : Hermes)
    → lookup id h.chain_locks ≡ some false
    → lock_chain id h ≡ (done tt, record h { chain_locks = assign id true h.chain_locks })
unfolding lock_chain
lock_chain_free id h e = rw (e, lock_chain) refl

other_lock :
    (a b : String) (m : Map String Bool)
    → (a == b) ≡ false
    → lookup b m ≡ some false
    → lookup b (assign a true m) ≡ some false
other_lock a b m n e =
    lookup-assign a b true m ∙ ap (λ t. if t then some true else lookup b m) n ∙ e

lock_ends_free :
    (p : PathConfiguration) (h : Hermes)
    → IsReady p (locks_of h)
    → lock_ends p (record h { writer = true }) ≡ (done p, record (held p h) { writer = true })
lock_ends_free p h (w, r, n, a, b) =
    let h1 : Hermes = record h {
      writer = true;
      chain_locks = assign p.chain_a.chain_id true h.chain_locks;
    } in
    ap (λ x. continue x (λ u. lock_chain p.chain_b.chain_id >> return p))
      (lock_chain_free p.chain_a.chain_id (record h { writer = true }) a)
    ∙ ap (λ x. continue x (λ u. return p))
        (lock_chain_free p.chain_b.chain_id h1
          (other_lock p.chain_a.chain_id p.chain_b.chain_id h.chain_locks n b))

pub with_path-ready :
    {A : Type 0} (name : String) (body : PathConfiguration → Action Hermes A)
    (p : PathConfiguration) (h : Hermes)
    → AreFree (locks_of h)
    → lookup name h.paths ≡ some p
    → IsReady p (locks_of h)
    → with_path name body h ≡ finally (unlock_chains p) (body p (held p h))
with_path-ready {A} name body p h f e ready =
    let rest : PathConfiguration → Action Hermes A = λ q. deferring (unlock_chains q) (body q) in
    with_path_step name body h f
    ∙ ap (λ o. continue (finally unlock (found_path name o (record h { writer = true }))) rest) e
    ∙ ap (λ x. continue (finally unlock x) rest) (lock_ends_free p h ready)

differs :
    (a id : String) (m : Map String Bool)
    → lookup a m ≡ some false
    → lookup id m ≡ none
    → (a == id) ≡ false
differs a id m e n = elim (Bool-cases (a == id)) [
  | inl q ↦
      absurd
        (clash (sym (subst (λ x. lookup x m ≡ some false) ((string_eq.same_iff a id).0 q) e) ∙ n))
  | inr q ↦ q
]
  where
    clash : {v : Bool} → some v ≡ none → ⊥
    clash e = cc

lock_chain_unknown :
    (id : String) (h : Hermes) → lookup id h.chain_locks ≡ none → (lock_chain id h).0 ≡ panics
unfolding lock_chain
lock_chain_unknown id h e = rw (e, lock_chain) refl

nil_panics :
    (name : String) (h : Hermes) (p : PathConfiguration)
    → AreFree (locks_of h)
    → lookup name h.paths ≡ some p
    → lookup p.chain_a.chain_id h.chain_locks ≡ none
    → (get_and_lock_path name h).0 ≡ panics
nil_panics name h p f e n =
    ap (λ x. x.0) (get_and_lock_free name h f)
    ∙ ap (λ o. (finally unlock (found_path name o h1)).0) e
    ∙ panics_through (lock_ends p h1) (
        panics_first (lock_chain p.chain_a.chain_id h1) _
          (lock_chain_unknown p.chain_a.chain_id h1 n))
  where
    h1 : Hermes
    h1 = record h { writer = true }

    panics_through :
        (x : Ended PathConfiguration × Hermes) → x.0 ≡ panics → (finally unlock x).0 ≡ panics
    panics_through (done a, s) q = cc
    panics_through (fails m, s) q = cc
    panics_through (panics, s) q = refl
    panics_through (blocks, s) q = cc

    panics_first :
        {A B : Type 0} (x : Ended A × Hermes) (k : A → Action Hermes B)
        → x.0 ≡ panics
        → (continue x k).0 ≡ panics
    panics_first (done a, s) k q = cc
    panics_first (fails m, s) k q = cc
    panics_first (panics, s) k q = refl
    panics_first (blocks, s) k q = cc

pub assigned :
    (name : String) (p : PathConfiguration) (m : Map String PathConfiguration)
    → lookup name (assign name p m) ≡ some p
assigned name p m =
    lookup-assign name name p m
    ∙ ap (λ t. if t then some p else lookup name m) ((string_eq.same_iff name name).1 refl)

-- What the locks of two other chains are, does not make a chain known.
unknown_still :
    (a b id : String) (m : Map String Bool)
    → (a == id) ≡ false
    → (b == id) ≡ false
    → lookup id m ≡ none
    → lookup id (assign b false (assign a false (assign b true (assign a true m)))) ≡ none
unknown_still a b id m p q e = pass b false (assign a false (assign b true (assign a true m))) q (
    pass a false (assign b true (assign a true m)) p
      (pass b true (assign a true m) q (pass a true m p e)))
  where
    pass :
        (k : String) (v : Bool) (m : Map String Bool)
        → (k == id) ≡ false
        → lookup id m ≡ none
        → lookup id (assign k v m) ≡ none
    pass k v m q e = lookup-assign k id v m ∙ ap (λ t. if t then some v else lookup id m) q ∙ e

module _ (docker : Docker) (c : RelayerCommander) (formats : Formats) where
  create_client_step :
      (name dst id : String) (opts : CreateClientOptions) (p : PathConfiguration) (h : Hermes)
      → AreFree (locks_of h)
      → lookup name h.paths ≡ some p
      → IsReady p (locks_of h)
      → (new_client docker c formats p.chain_a.chain_id dst opts (held p h)).0 ≡ done id
      → let s : Hermes = (new_client docker c formats p.chain_a.chain_id dst opts (held p h)).1 in
        create_client docker c formats p.chain_a.chain_id dst name opts h ≡ (
          done tt,
          unlock_chains p (record s {
            paths = assign name (set_a (λ e. record e { chain_id = id }) p) s.paths;
          }),
        )
  unfolding create_client
  create_client_step name dst id opts p h f e ready made =
      let src = p.chain_a.chain_id in
      let s : Hermes = (new_client docker c formats src dst opts (held p h)).1 in
      with_path-ready name
        (λ q. new_client docker c formats src dst opts >>= write_client docker c formats name src q)
        p h f e ready
      ∙ ap
          (λ x.
            finally (unlock_chains p) (continue (x, s) (write_client docker c formats name src p)))
          made
      ∙ ap
          (λ t. finally (unlock_chains p) (
            (if t
                then write_path name (set_a (λ e. record e { chain_id = id }) p)
                else if p.chain_b.chain_id == src
                then write_path name (set_b (λ e. record e { chain_id = id }) p)
                else errorf (cat src " not found in path config"))
              s))
          ((string_eq.same_iff src src).1 refl)

  -- CreateClient on the first end of a path writes the ID of the new client over the ID of the chain:
  -- it succeeds, and where no chain of the relayer has the client's ID, the next call that locks the
  -- path dereferences a nil lock.
  pub create_client-panics :
      (name dst id : String) (opts : CreateClientOptions) (p : PathConfiguration) (h : Hermes)
      → AreFree (locks_of h)
      → lookup name h.paths ≡ some p
      → IsReady p (locks_of h)
      → (new_client docker c formats p.chain_a.chain_id dst opts (held p h)).0 ≡ done id
      → lookup id h.chain_locks ≡ none
      → ((create_client docker c formats p.chain_a.chain_id dst name opts h).0 ≡ done tt)
        × ((get_and_lock_path name
              (create_client docker c formats p.chain_a.chain_id dst name opts h).1).0
            ≡ panics)
  create_client-panics name dst id opts p h f e ready made unknown =
      let step = create_client_step name dst id opts p h f e ready made in
      let s : Hermes = (new_client docker c formats p.chain_a.chain_id dst opts (held p h)).1 in
      let renamed = set_a (λ e. record e { chain_id = id }) p in
      let after : Hermes = unlock_chains p (record s { paths = assign name renamed s.paths }) in
      let free : AreFree (locks_of after) =
        subst (λ x. AreFree (locks_of x.1)) step
          ((create_client-LeavesFree docker c formats p.chain_a.chain_id dst name opts).leaves h f
            (subst (λ x. Returns x.0) (sym step) tt)) in
      let nil_lock : lookup id after.chain_locks ≡ none =
        subst
          (λ m.
            lookup id (assign p.chain_b.chain_id false (assign p.chain_a.chain_id false m)) ≡ none)
          (sym (
            ap (λ l. l.2)
              ((new_client-KeepsLocks docker c formats p.chain_a.chain_id dst opts).keeps
                (held p h))))
          (unknown_still p.chain_a.chain_id p.chain_b.chain_id id h.chain_locks
            (differs p.chain_a.chain_id id h.chain_locks ready.3 unknown)
            (differs p.chain_b.chain_id id h.chain_locks ready.4 unknown) unknown) in
      (
        ap (λ x. x.0) step,
        subst (λ x. (get_and_lock_path name x.1).0 ≡ panics) (sym step)
            (nil_panics name after renamed free (assigned name renamed s.paths) nil_lock),
      )
