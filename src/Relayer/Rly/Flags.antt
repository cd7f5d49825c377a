-- ===== src/Relayer/Rly/Flags.antt =====
-- What the flags of a path's update say, read back.
use interchaintest.Base.{
  join, String, ◌≡◌, refl, sym, ap, ◌∙◌, inl, inr, Bool, true, false, not, ◌&&◌, Option, none, some,
  List, [], ◌∷◌, ◌++◌, arith, if◌then◌else◌, Bool-cases, ◌==◌, Map, lookup, has, subst, nat_eq,
  string_eq,
}
use interchaintest.Relayer.Types.{PathUpdateOptions}
use interchaintest.Relayer.Rly.Commands.{flag, filter_flags, update_path}

-- The words after the command and the path, as flags with their values.
unfoldable pub pairs_of : List String → Map String String
pairs_of (name ∷ value ∷ rest) = (name, value) ∷ pairs_of rest
pairs_of _ = []

abbrev pub flags_of : List String → Map String String
flags_of (a ∷ b ∷ c ∷ path ∷ rest) = pairs_of rest
flags_of _ = []

-- The options that are given a value.
unfoldable given : Map String (Option String) → Map String String
given [] = []
given ((n, none) ∷ l) = given l
given ((n, some v) ∷ l) = (n, v) ∷ given l

unfoldable words : Map String (Option String) → List String
words [] = []
words ((n, o) ∷ l) = flag n o ++ words l

unfoldable distinct : Map String (Option String) → Bool
unfolding has
distinct [] = true
distinct ((n, o) ∷ l) = not (has n l) && distinct l

abbrev flat : Option (Option String) → Option String
flat none = none
flat (some o) = o

pairs_of-words : (l : Map String (Option String)) → pairs_of (words l) ≡ given l
unfolding pairs_of words given
pairs_of-words [] = refl
pairs_of-words ((n, none) ∷ l) = pairs_of-words l
pairs_of-words ((n, some v) ∷ l) = ap (λ m. (n, v) ∷ m) (pairs_of-words l)

lookup_unless_has :
    (k : String) (l : Map String (Option String)) → has k l ≡ false → lookup k (given l) ≡ none
unfolding lookup has given
lookup_unless_has k [] h = refl
lookup_unless_has k ((n, none) ∷ l) h = ground (arith, lookup_unless_has k l)
lookup_unless_has k ((n, some v) ∷ l) h = ground (arith, lookup_unless_has k l)

unseen : (a b : Bool) → (not a && b) ≡ true → a ≡ false
unseen a b h = ground arith

rest : (a b : Bool) → (not a && b) ≡ true → b ≡ true
rest a b h = ground arith

lookup-given :
    (k : String) (l : Map String (Option String))
    → distinct l ≡ true
    → lookup k (given l) ≡ flat (lookup k l)
unfolding lookup given distinct
lookup-given k [] h = refl
lookup-given k ((n, none) ∷ l) h = elim (Bool-cases (n == k)) [
  | inl e ↦
      lookup_unless_has k l (
        subst (λ x. has x l ≡ false) ((string_eq.same_iff n k).0 e)
          (unseen (has n l) (distinct l) h))
      ∙ sym (ap (λ b. flat (if b then some none else lookup k l)) e)
  | inr e ↦
      lookup-given k l (rest (has n l) (distinct l) h)
      ∙ sym (ap (λ b. flat (if b then some none else lookup k l)) e)
]
lookup-given k ((n, some v) ∷ l) h = elim (Bool-cases (n == k)) [
  | inl e ↦
      ap (λ b. if b then some v else lookup k (given l)) e
      ∙ sym (ap (λ b. flat (if b then some (some v) else lookup k l)) e)
  | inr e ↦
      ap (λ b. if b then some v else lookup k (given l)) e
      ∙ (lookup-given k l (rest (has n l) (distinct l) h)
          ∙ sym (ap (λ b. flat (if b then some (some v) else lookup k l)) e))
]

-- The six names that an update of a path may change, read from the flags of a command.
unfoldable pub read_update_path : List String → PathUpdateOptions
unfolding lookup pairs_of
read_update_path cmd = record {
  channel_filter = none;
  src_chain_id = lookup "--src-chain-id" (flags_of cmd);
  dst_chain_id = lookup "--dst-chain-id" (flags_of cmd);
  src_client_id = lookup "--src-client-id" (flags_of cmd);
  dst_client_id = lookup "--dst-client-id" (flags_of cmd);
  src_conn_id = lookup "--src-connection-id" (flags_of cmd);
  dst_conn_id = lookup "--dst-connection-id" (flags_of cmd);
}

abbrev filter_options : Option (String × List String) → Map String (Option String)
filter_options none = []
filter_options (some (rule, channels)) =
    ("--filter-rule", some rule) ∷ ("--filter-channels", some (join "," channels)) ∷ []

abbrev options_of :
    String → Option (String × List String) → PathUpdateOptions → Map String (Option String)
options_of dir f o =
    ("--home", some dir)
    ∷ (filter_options f
        ++ (("--src-chain-id", o.src_chain_id)
            ∷ ("--dst-chain-id", o.dst_chain_id)
            ∷ ("--src-client-id", o.src_client_id)
            ∷ ("--dst-client-id", o.dst_client_id)
            ∷ ("--src-connection-id", o.src_conn_id)
            ∷ ("--dst-connection-id", o.dst_conn_id)
            ∷ []))

last_flag : (n : String) (o : Option String) → flag n o ++ [] ≡ flag n o
last_flag n none = refl
last_flag n (some v) = refl

abbrev ends_with : PathUpdateOptions → List String → List String
ends_with o end =
    flag "--src-chain-id" o.src_chain_id
    ++ (flag "--dst-chain-id" o.dst_chain_id
        ++ (flag "--src-client-id" o.src_client_id
            ++ (flag "--dst-client-id" o.dst_client_id
                ++ (flag "--src-connection-id" o.src_conn_id ++ end))))

words-options_of :
    (dir : String) (f : Option (String × List String)) (o : PathUpdateOptions)
    → words (options_of dir f o)
      ≡ "--home" ∷ dir ∷ (filter_flags f ++ ends_with o (flag "--dst-connection-id" o.dst_conn_id))
unfolding words
words-options_of dir none o =
    ap (λ t. "--home" ∷ dir ∷ ends_with o t) (last_flag "--dst-connection-id" o.dst_conn_id)
words-options_of dir (some f) o =
    ap (λ t. "--home" ∷ dir ∷ (filter_flags (some f) ++ ends_with o t))
      (last_flag "--dst-connection-id" o.dst_conn_id)

distinct-options_of :
    (dir : String) (f : Option (String × List String)) (o : PathUpdateOptions)
    → distinct (options_of dir f o) ≡ true
unfolding distinct has
distinct-options_of dir none o = refl
distinct-options_of dir (some f) o = refl

said :
    (path dir k : String) (f : Option (String × List String)) (o : PathUpdateOptions)
    → lookup k (flags_of (update_path path dir (record o { channel_filter = f })))
      ≡ flat (lookup k (options_of dir f o))
unfolding update_path
said path dir k f o =
    ap (lookup k)
      (sym (ap pairs_of (words-options_of dir f o)) ∙ pairs_of-words (options_of dir f o))
    ∙ lookup-given k (options_of dir f o) (distinct-options_of dir f o)

-- The command that updates a path says, for each of the chain, client and connection IDs of both
-- ends, the new value where there is one, and nothing where it is kept: read back, its flags give the
-- IDs of the options, whatever the filter of the channels is.
pub read_update_path_lem :
    (path dir : String) (o : PathUpdateOptions)
    → read_update_path (update_path path dir o) ≡ record o { channel_filter = none }
unfolding read_update_path lookup
read_update_path_lem path dir o = λ i. record {
  channel_filter = none;
  src_chain_id = (said path dir "--src-chain-id" o.channel_filter o ∙ src o.channel_filter) i;
  dst_chain_id = (said path dir "--dst-chain-id" o.channel_filter o ∙ dst o.channel_filter) i;
  src_client_id =
      (said path dir "--src-client-id" o.channel_filter o ∙ src_client o.channel_filter) i;
  dst_client_id =
      (said path dir "--dst-client-id" o.channel_filter o ∙ dst_client o.channel_filter) i;
  src_conn_id =
      (said path dir "--src-connection-id" o.channel_filter o ∙ src_conn o.channel_filter) i;
  dst_conn_id =
      (said path dir "--dst-connection-id" o.channel_filter o ∙ dst_conn o.channel_filter) i;
}
  where
    src :
        (f : Option (String × List String))
        → flat (lookup "--src-chain-id" (options_of dir f o)) ≡ o.src_chain_id
    src none = refl
    src (some f) = refl

    dst :
        (f : Option (String × List String))
        → flat (lookup "--dst-chain-id" (options_of dir f o)) ≡ o.dst_chain_id
    dst none = refl
    dst (some f) = refl

    src_client :
        (f : Option (String × List String))
        → flat (lookup "--src-client-id" (options_of dir f o)) ≡ o.src_client_id
    src_client none = refl
    src_client (some f) = refl

    dst_client :
        (f : Option (String × List String))
        → flat (lookup "--dst-client-id" (options_of dir f o)) ≡ o.dst_client_id
    dst_client none = refl
    dst_client (some f) = refl

    src_conn :
        (f : Option (String × List String))
        → flat (lookup "--src-connection-id" (options_of dir f o)) ≡ o.src_conn_id
    src_conn none = refl
    src_conn (some f) = refl

    dst_conn :
        (f : Option (String × List String))
        → flat (lookup "--dst-connection-id" (options_of dir f o)) ≡ o.dst_conn_id
    dst_conn none = refl
    dst_conn (some f) = refl
