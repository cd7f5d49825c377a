-- ===== src/Interchain/Linking/Paths.antt =====
-- The calls that make the paths, on every answer of the relayers.
use interchaintest.Base.{
  String, ◌≡◌, refl, ◌∙◌, Option, none, some, List, [], ◌∷◌, ◌++◌, map, nat_eq, string_eq,
}
use interchaintest.Ibc.Config.{ChainConfig}
use interchaintest.Ibc.Transfer.{ClientOutput}
use interchaintest.Interchain.{ChainRef, RelayerPath, Link, Interchain}
use interchaintest.Interchain.Linking.{
  RelayerCall, generate_path, relayer_error, link_paths, consumer_paths, generate_paths, Linked,
  done, fails, Linking, continue, ◌>>◌, ask,
}

module _ (config : ChainRef → ChainConfig)
    (error_of : List RelayerCall → RelayerCall → Option String)
    (clients_of : List RelayerCall → RelayerCall → List ClientOutput) where
  -- The calls that make the paths: for a link from its first chain to its second, for a
  -- provider-consumer link from the consumer to the provider.
  abbrev pub link_plan : RelayerPath × Link → RelayerCall
  link_plan ((r, path), l) =
      generate_path r (config l.first).chain_id (config l.second).chain_id path

  abbrev pub consumer_plan : RelayerPath × Link → RelayerCall
  consumer_plan ((r, path), l) =
      generate_path r (config l.second).chain_id (config l.first).chain_id path

  -- What comes of a call with this error, if the calls after it give `rest`.
  abbrev attempted :
      RelayerCall
      → List RelayerCall
      → List RelayerCall × Linked (Unit {0})
      → Option String
      → List RelayerCall × Linked (Unit {0})
  attempted c calls rest none = rest
  attempted c calls rest (some e) = (calls, fails (relayer_error c e))

  -- Calls that are made in turn, up to the first that fails, whose error is returned.
  unfoldable pub attempt :
      List RelayerCall → List RelayerCall → List RelayerCall × Linked (Unit {0})
  attempt [] before = (before, done tt)
  attempt (c ∷ plan) before =
      attempted c (before ++ c ∷ []) (attempt plan (before ++ c ∷ [])) (error_of before c)

  ask-attempt :
      (c : RelayerCall) (f : Linking (Unit {0})) (plan before : List RelayerCall)
      → f (before ++ c ∷ []) ≡ attempt plan (before ++ c ∷ [])
      → (ask config error_of clients_of c tt >> f) before ≡ attempt (c ∷ plan) before
  unfolding ask attempt
  ask-attempt c f plan before h = asked (error_of before c)
    where
      asked :
          (o : Option String)
          → continue
              (elim o as (λ _. List RelayerCall × Linked (Unit {0})) [
                | none ↦ (before ++ c ∷ [], done tt)
                | some e ↦ (before ++ c ∷ [], fails (relayer_error c e))
              ])
              (λ u. f)
            ≡ attempted c (before ++ c ∷ []) (attempt plan (before ++ c ∷ [])) o
      asked none = h
      asked (some e) = refl

  attempted-append :
      (c : RelayerCall) (calls ys : List RelayerCall)
      (rest whole : List RelayerCall × Linked (Unit {0})) (o : Option String)
      → continue rest (λ u. attempt ys) ≡ whole
      → continue (attempted c calls rest o) (λ u. attempt ys) ≡ attempted c calls whole o
  attempted-append c calls ys rest whole none h = h
  attempted-append c calls ys rest whole (some e) h = refl

  attempt-append :
      (xs ys before : List RelayerCall)
      → continue (attempt xs before) (λ u. attempt ys) ≡ attempt (xs ++ ys) before
  unfolding attempt
  attempt-append [] ys before = refl
  attempt-append (c ∷ xs) ys before =
      attempted-append c (before ++ c ∷ []) ys (attempt xs (before ++ c ∷ [])) _ (error_of before c)
        (attempt-append xs ys (before ++ c ∷ []))

  link_paths-attempt :
      (m : List (RelayerPath × Link)) (before : List RelayerCall)
      → link_paths config error_of clients_of m before ≡ attempt (map link_plan m) before
  unfolding link_paths attempt
  link_paths-attempt [] before = refl
  link_paths-attempt (((r, path), l) ∷ m) before =
      ask-attempt _ (link_paths config error_of clients_of m) (map link_plan m) before
        (link_paths-attempt m _)

  consumer_paths-attempt :
      (m : List (RelayerPath × Link)) (before : List RelayerCall)
      → consumer_paths config error_of clients_of m before ≡ attempt (map consumer_plan m) before
  unfolding consumer_paths attempt
  consumer_paths-attempt [] before = refl
  consumer_paths-attempt (((r, path), l) ∷ m) before =
      ask-attempt _ (consumer_paths config error_of clients_of m) (map consumer_plan m) before
        (consumer_paths-attempt m _)

  -- Whatever the relayers answer, the calls and the result are those of generating the paths of the
  -- links in turn and then of the provider-consumer links, from the consumer to the provider, up to the
  -- first call that fails, whose error is returned, or nil if none fails.
  pub generate_paths-eq-attempt :
      (ic : Interchain) (before : List RelayerCall)
      → generate_paths config error_of clients_of ic before
        ≡ attempt (map link_plan ic.links ++ map consumer_plan ic.provider_consumer_links) before
  unfolding generate_paths
  generate_paths-eq-attempt ic before =
      (λ i.
        continue (link_paths-attempt ic.links before i)
          (λ u now. consumer_paths-attempt ic.provider_consumer_links now i))
      ∙ attempt-append (map link_plan ic.links) (map consumer_plan ic.provider_consumer_links)
          before
