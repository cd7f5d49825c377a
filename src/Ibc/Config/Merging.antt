-- ===== src/Ibc/Config/Merging.antt =====
-- The laws of `MergeChainSpecConfig` of ibc/types.go.
use mathlib.Core.List.{append-nil}
use interchaintest.Base.{
  String, ◌≡◌, refl, Bool, true, not, ◌&&◌, List, [], ◌∷◌, arith, ◌==◌, string_eq,
}
use interchaintest.Ibc.Image.{DockerImage}
use interchaintest.Ibc.Config.{
  ChainConfig, merge_chain_spec_config, zero_config, or_text, or_list, is_chain_configured,
  all_configured, is_empty,
}

-- Merging with the zero configuration changes nothing.
merge-zero : (c : ChainConfig) → merge_chain_spec_config c zero_config ≡ c
unfolding merge_chain_spec_config
merge-zero c = simp append-nil

and_mono :
    {a a' b b' : Bool}
    → (a ≡ true → a' ≡ true)
    → (b ≡ true → b' ≡ true)
    → (a && b) ≡ true
    → (a' && b') ≡ true
and_mono {a} {a'} {b} {b'} f g h = ground (arith, f, g)

-- A text stays set under an override, and a set override is set.
or_text_set_old : (new old : String) → not (old == "") ≡ true → not (or_text new old == "") ≡ true
or_text_set_old new old h = ground arith

configured_or_list_old :
    (new old : List DockerImage)
    → all_configured new ≡ true
    → all_configured old ≡ true
    → all_configured (or_list new old) ≡ true
configured_or_list_old [] old h k = k
configured_or_list_old (i ∷ is) old h k = h

nonempty_or_list_old {ℓ} :
    {A : Type ℓ} (new old : List A)
    → not (is_empty old) ≡ true
    → not (is_empty (or_list new old)) ≡ true
nonempty_or_list_old [] old h = h
nonempty_or_list_old (x ∷ xs) old h = refl

-- A configured configuration stays configured under any override whose images are configured.
pub merge-IsConfigured :
    (c other : ChainConfig)
    → is_chain_configured c ≡ true
    → all_configured other.images ≡ true
    → is_chain_configured (merge_chain_spec_config c other) ≡ true
unfolding merge_chain_spec_config is_chain_configured
merge-IsConfigured c other h k =
    and_mono
      (and_mono
        (and_mono
          (and_mono
            (and_mono
              (and_mono
                (and_mono
                  (and_mono
                    (and_mono (configured_or_list_old other.images c.images k)
                      (or_text_set_old other.type c.type))
                    (λ e. e))
                  (or_text_set_old other.chain_id c.chain_id))
                (nonempty_or_list_old other.images c.images))
              (or_text_set_old other.bin c.bin))
            (or_text_set_old other.bech32_prefix c.bech32_prefix))
          (or_text_set_old other.denom c.denom))
        (or_text_set_old other.gas_prices c.gas_prices))
      (or_text_set_old other.trusting_period c.trusting_period) h
