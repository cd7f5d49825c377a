-- ===== src/Tests/ChainSet.antt =====
-- A set of a consumer, its provider and a third chain.
use interchaintest.Base.{
  ◌≡◌, refl, true, false, none, List, [], ◌∷◌, lookup, get_list, nat_eq, string_eq,
}
use interchaintest.ChainSet.{
  SetChain, start_provider, start_chain, start_consumer, Chains, group, call, start_call, start_one,
  start_if, start,
}
use interchaintest.ChainSet.Order.{ConsumersLast, start-ConsumersLast}

abbrev willing_chains : Chains
willing_chains = record { fault = λ calls c. none; address = λ calls c. "cosmos1" }

abbrev three : List SetChain
three =
    record {
      ref = 0;
      name = "neutron";
      is_cosmos = true;
      has_provider = true;
      has_consumers = false;
    }
    ∷ record {
      ref = 1;
      name = "gaia";
      is_cosmos = true;
      has_provider = false;
      has_consumers = true;
    }
    ∷ record {
      ref = 2;
      name = "penumbra";
      is_cosmos = false;
      has_provider = false;
      has_consumers = false;
    }
    ∷ []

no_wallets :
    (start willing_chains [] three []).1
    ≡ start_consumer 0 [] ∷ start_chain 2 [] ∷ start_provider 1 [] ∷ []
unfolding start group start_if start_one start_call call get_list lookup
no_wallets = refl

start-ConsumersLast_example :
    ConsumersLast willing_chains [] three (start willing_chains [] three []).1
start-ConsumersLast_example = start-ConsumersLast willing_chains [] three
