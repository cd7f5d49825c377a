-- ===== src/Tests/Toml.antt =====
-- A configuration of two levels, and a change of one value in it.
use interchaintest.Base.{◌≡◌, refl, some, [], ◌∷◌, nat_eq, string_eq}
use interchaintest.Testutil.Toml.{
  scalar, toml, plain, Table, empty, entry, find, recursive_modify_toml,
}
use interchaintest.Testutil.Toml.Laws.{at_table, IsToml, Sets, Gives, recursive_modify_toml-Sets}
use interchaintest.Testutil.Toml.Plain.{IsPlain}
use interchaintest.Testutil.Toml.Frame.{Spares, recursive_modify_toml-Spares}

abbrev config : Table
config = entry "log_level" (scalar "\"debug\"") (
    entry "p2p"
      (plain (entry "laddr" (scalar "\"tcp://0.0.0.0\"") (entry "seeds" (scalar "\"\"") empty)))
      empty)

abbrev modifications : Table
modifications =
    entry "p2p" (toml (entry "seeds" (scalar "\"node\"") empty))
      (entry "fast_sync" (scalar "true") empty)

modifications-IsToml : IsToml modifications
unfolding IsToml find
modifications-IsToml = (refl, (refl, tt), (refl, tt))

recursive_modify_toml-Sets_example :
    Gives
      (recursive_modify_toml config modifications)
      (λ d. at_table d ("p2p" ∷ "seeds" ∷ []) ≡ some (scalar "\"node\""))
recursive_modify_toml-Sets_example =
    recursive_modify_toml-Sets config modifications-IsToml
      (Sets.within "p2p" _ (Sets.here "seeds" "\"node\"" empty))

config-IsPlain : IsPlain config
unfolding IsPlain
config-IsPlain = (tt, tt)

laddr-Spares : Spares modifications ("p2p" ∷ "laddr" ∷ [])
unfolding find
laddr-Spares =
    Spares.beside modifications (entry "seeds" (scalar "\"node\"") empty) "p2p" "laddr" [] refl
      (Spares.apart (entry "seeds" (scalar "\"node\"") empty) "laddr" [] refl)

recursive_modify_toml-Spares_example :
    Gives (recursive_modify_toml config modifications) (λ d.
      IsPlain d × (at_table d ("p2p" ∷ "laddr" ∷ []) ≡ at_table config ("p2p" ∷ "laddr" ∷ [])))
recursive_modify_toml-Spares_example =
    recursive_modify_toml-Spares config modifications-IsToml config-IsPlain laddr-Spares
