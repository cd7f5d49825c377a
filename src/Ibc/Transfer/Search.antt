-- ===== src/Ibc/Transfer/Search.antt =====
-- The search of `GetTransferChannel` against a description of it by the matching answers.
use interchaintest.Base.{
  String, ◌≡◌, refl, sym, ap, ◌∙◌, ◌≢◌, Bool, Option, none, some, List, [], ◌∷◌, arith, eq_iff,
  if◌then◌else◌, ◌==◌, All, string_eq,
}
use interchaintest.Ibc.Transfer.{
  ClientOutput, ConnectionOutput, ChannelOutput, TransferError, many_clients, no_client,
  many_connections, no_connection, many_channels, no_channel, clients_failed, no_clients,
  connections_failed, no_connections, channels_failed, no_channels, Result, ok, err, ◌>>=◌,
  nonempty, scan_clients, scan_connections, is_transfer, scan_channels, found_id, found_channel,
  get_transfer_channel,
}

module _ {ℓ} {A : Type ℓ} where
  -- The members that pass a test.
  unfoldable pub matching : (A → Bool) → List A → List A
  matching p [] = []
  matching p (x ∷ xs) = if p x then x ∷ matching p xs else matching p xs

  -- The one member of a list.
  unfoldable pub the_one : TransferError → TransferError → List A → Result A
  the_one missing many [] = err missing
  the_one missing many (x ∷ []) = ok x
  the_one missing many (x ∷ y ∷ rest) = err many

-- A client that tracks the chain, and a connection that serves the client.
abbrev pub tracks : String → ClientOutput → Bool
tracks dst c = c.chain_id == dst

abbrev pub serves : String → ConnectionOutput → Bool
serves client c = c.client_id == client

abbrev pub HasIds : List ClientOutput → Type 0
HasIds = All (λ c. c.client_id ≢ "")

abbrev pub HasConnIds : List ConnectionOutput → Type 0
HasConnIds = All (λ c. c.id ≢ "")

scan_clients_found :
    (dst id : String) (cs : List ClientOutput)
    → id ≢ ""
    → scan_clients dst id cs
      ≡ (elim (matching (tracks dst) cs) [ [] ↦ ok id | x ∷ r ↦ err many_clients ])
unfolding scan_clients matching
scan_clients_found dst id [] h = refl
scan_clients_found dst id (c ∷ cs) h = ground (arith, scan_clients_found dst id cs h, eq_iff id "")

-- The search for a client finds the one that tracks the destination.
scan_clients_lem :
    (dst : String) (cs : List ClientOutput)
    → HasIds cs
    → (scan_clients dst "" cs >>= found_id no_client)
      ≡ (the_one no_client many_clients (matching (tracks dst) cs) >>= λ c. ok c.client_id)
unfolding scan_clients matching the_one
scan_clients_lem dst [] h = refl
scan_clients_lem dst (c ∷ cs) h = ground (
  arith,
  scan_clients_lem dst cs h.1,
  scan_clients_found dst c.client_id cs h.0,
  eq_iff c.client_id "",
)

scan_connections_found :
    (client id : String) (cs : List ConnectionOutput)
    → id ≢ ""
    → scan_connections client id cs
      ≡ (elim (matching (serves client) cs) [ [] ↦ ok id | x ∷ r ↦ err many_connections ])
unfolding scan_connections matching
scan_connections_found client id [] h = refl
scan_connections_found client id (c ∷ cs) h =
    ground (arith, scan_connections_found client id cs h, eq_iff id "")

scan_connections_lem :
    (client : String) (cs : List ConnectionOutput)
    → HasConnIds cs
    → (scan_connections client "" cs >>= found_id no_connection)
      ≡ (the_one no_connection many_connections (matching (serves client) cs) >>= λ c. ok c.id)
unfolding scan_connections matching the_one
scan_connections_lem client [] h = refl
scan_connections_lem client (c ∷ cs) h = ground (
  arith,
  scan_connections_lem client cs h.1,
  scan_connections_found client c.id cs h.0,
  eq_iff c.id "",
)

scan_channels_found :
    (conn : String) (ch : ChannelOutput) (chs : List ChannelOutput)
    → scan_channels conn (some ch) chs
      ≡ (elim (matching (is_transfer conn) chs) [ [] ↦ ok (some ch) | x ∷ r ↦ err many_channels ])
unfolding scan_channels matching
scan_channels_found conn ch [] = refl
scan_channels_found conn ch (c ∷ chs) = ground (arith, scan_channels_found conn ch chs)

scan_channels_lem :
    (conn : String) (chs : List ChannelOutput)
    → (scan_channels conn none chs >>= found_channel)
      ≡ the_one no_channel many_channels (matching (is_transfer conn) chs)
unfolding scan_channels matching the_one
scan_channels_lem conn [] = refl
scan_channels_lem conn (c ∷ chs) =
    ground (arith, scan_channels_lem conn chs, scan_channels_found conn c chs)

module _ {ℓ κ μ} {A : Type ℓ} {B : Type κ} {C : Type μ} where
  bind_assoc :
      (m : Result A) (f : A → Result B) (g : B → Result C)
      → (m >>= f >>= g) ≡ (m >>= λ a. f a >>= g)
  bind_assoc (ok a) f g = refl
  bind_assoc (err e) f g = refl

module _ {ℓ κ} {A : Type ℓ} {B : Type κ} where
  bind_cong : (m : Result A) (f g : A → Result B) → ((a : A) → f a ≡ g a) → (m >>= f) ≡ (m >>= g)
  bind_cong (ok a) f g h = h a
  bind_cong (err e) f g h = refl

  nonempty_cong :
      (failed empty : TransferError) (o : Option (List A)) (f g : List A → Result B)
      → ((xs : List A) → o ≡ some xs → f xs ≡ g xs)
      → (nonempty failed empty o >>= f) ≡ (nonempty failed empty o >>= g)
  nonempty_cong failed empty none f g h = refl
  nonempty_cong failed empty (some []) f g h = refl
  nonempty_cong failed empty (some (x ∷ xs)) f g h = h (x ∷ xs) refl

client_stage {ℓ} :
    {B : Type ℓ} (dst : String) (cs : List ClientOutput) (k : String → Result B)
    → HasIds cs
    → (scan_clients dst "" cs >>= λ id. found_id no_client id >>= k)
      ≡ (the_one no_client many_clients (matching (tracks dst) cs) >>= λ c. k c.client_id)
client_stage dst cs k h =
    sym (bind_assoc (scan_clients dst "" cs) (found_id no_client) k)
    ∙ ap (λ r. r >>= k) (scan_clients_lem dst cs h)
    ∙ bind_assoc (the_one no_client many_clients (matching (tracks dst) cs)) (λ c. ok c.client_id) k

connection_stage {ℓ} :
    {B : Type ℓ} (client : String) (cs : List ConnectionOutput) (k : String → Result B)
    → HasConnIds cs
    → (scan_connections client "" cs >>= λ id. found_id no_connection id >>= k)
      ≡ (the_one no_connection many_connections (matching (serves client) cs) >>= λ c. k c.id)
connection_stage client cs k h =
    sym (bind_assoc (scan_connections client "" cs) (found_id no_connection) k)
    ∙ ap (λ r. r >>= k) (scan_connections_lem client cs h)
    ∙ bind_assoc (the_one no_connection many_connections (matching (serves client) cs))
        (λ c. ok c.id) k

module _ (get_clients : String → Option (List ClientOutput))
    (get_connections : String → Option (List ConnectionOutput))
    (get_channels : String → Option (List ChannelOutput)) where
  -- The search, described by the answers that match.
  unfoldable pub select_channel : String → String → Result ChannelOutput
  unfolding matching the_one
  select_channel src dst = do
    clients ← nonempty clients_failed no_clients (get_clients src)
    client ← the_one no_client many_clients (matching (tracks dst) clients)
    connections ← nonempty connections_failed no_connections (get_connections src)
    conn ← the_one no_connection many_connections (matching (serves client.client_id) connections)
    channels ← nonempty channels_failed no_channels (get_channels src)
    the_one no_channel many_channels (matching (is_transfer conn.id) channels)

  abbrev pub AnswersHaveIds : String → Type 0
  AnswersHaveIds src =
      ((cs : List ClientOutput) → get_clients src ≡ some cs → HasIds cs)
      × ((cs : List ConnectionOutput) → get_connections src ≡ some cs → HasConnIds cs)

  pub get_transfer_channel_lem :
      (src dst : String)
      → AnswersHaveIds src
      → get_transfer_channel get_clients get_connections get_channels src dst
        ≡ select_channel src dst
  unfolding get_transfer_channel select_channel
  get_transfer_channel_lem src dst h =
      nonempty_cong clients_failed no_clients (get_clients src) _ _ λ cs e.
        client_stage dst cs _ (h.0 cs e)
        ∙ bind_cong (the_one no_client many_clients (matching (tracks dst) cs)) _ _ λ c.
          nonempty_cong connections_failed no_connections (get_connections src) _ _ λ conns f.
            connection_stage c.client_id conns _ (h.1 conns f)
            ∙ bind_cong
                (the_one no_connection many_connections (matching (serves c.client_id) conns)) _ _
                λ conn.
                  bind_cong (nonempty channels_failed no_channels (get_channels src)) _ _
                    λ chs. scan_channels_lem conn.id chs
