-- ===== src/Testreporter/Json.antt =====
-- How messages are written to a report and read back: the encoding that encoding/json derives from
-- the structs of testreporter/messages.go, and `UnmarshalJSON`. An object is its fields by name; a
-- time stands for its text.
use interchaintest.Base.{
  String, ◌≡◌, refl, sym, inl, inr, Bool, false, Option, none, some, List, [], ◌∷◌, eq_iff,
  if◌then◌else◌, Bool-cases, ◌==◌, Map, lookup, ℤ, pos, string_eq,
}
use interchaintest.Testreporter.Messages.{
  Time, Message, begin_suite, finish_suite, begin_test, finish_test, pause_test, continue_test,
  test_error, test_skip, relayer_exec, typ, WrappedMessage, json_message,
}

pub data JsonValue : Type 0 where
  text : String → JsonValue
  flag : Bool → JsonValue
  number : ℤ → JsonValue
  instant : Time → JsonValue
  texts : List String → JsonValue

abbrev pub JsonObject : Type 0
JsonObject = Map String JsonValue

-- A field with the option `omitempty`.
unfoldable omit_empty : String → String → JsonObject → JsonObject
omit_empty key s rest = if s == "" then rest else (key, text s) ∷ rest

-- `json.Marshal` of a message.
unfoldable pub marshal : Message → JsonObject
unfolding omit_empty
marshal (begin_suite m) = ("StartedAt", instant m.started_at) ∷ []
marshal (finish_suite m) = ("FinishedAt", instant m.finished_at) ∷ []
marshal (begin_test m) = ("Name", text m.name) ∷ ("StartedAt", instant m.started_at) ∷ []
marshal (finish_test m) =
    ("Name", text m.name)
    ∷ ("FinishedAt", instant m.finished_at)
    ∷ ("Failed", flag m.failed)
    ∷ ("Skipped", flag m.skipped)
    ∷ []
marshal (pause_test m) = ("Name", text m.name) ∷ ("When", instant m.at) ∷ []
marshal (continue_test m) = ("Name", text m.name) ∷ ("When", instant m.at) ∷ []
marshal (test_error m) =
    ("Name", text m.name) ∷ ("When", instant m.at) ∷ ("Message", text m.message) ∷ []
marshal (test_skip m) =
    ("Name", text m.name) ∷ ("When", instant m.at) ∷ ("Message", text m.message) ∷ []
marshal (relayer_exec m) =
    ("Name", text m.name)
    ∷ ("StartedAt", instant m.started_at)
    ∷ ("FinishedAt", instant m.finished_at)
    ∷ omit_empty "ContainerName" m.container_name (
        ("Command", texts m.command)
        ∷ ("Stdout", text m.stdout)
        ∷ ("Stderr", text m.stderr)
        ∷ ("ExitCode", number m.exit_code)
        ∷ omit_empty "Error" m.error [])

-- What a field of the report means for a struct's field of each type: a missing field leaves the
-- zero value, a value of another type is an error.
unfoldable text_of : Option JsonValue → Option String
text_of none = some ""
text_of (some (text s)) = some s
text_of (some v) = none

unfoldable flag_of : Option JsonValue → Option Bool
flag_of none = some false
flag_of (some (flag b)) = some b
flag_of (some v) = none

unfoldable number_of : Option JsonValue → Option ℤ
number_of none = some (pos 0)
number_of (some (number n)) = some n
number_of (some v) = none

unfoldable instant_of : Option JsonValue → Option Time
instant_of none = some (pos 0)
instant_of (some (instant t)) = some t
instant_of (some v) = none

unfoldable texts_of : Option JsonValue → Option (List String)
texts_of none = some []
texts_of (some (texts l)) = some l
texts_of (some v) = none

infixl 5 ◌>>=◌
abbrev pub ◌>>=◌ {ℓ κ} : {A : Type ℓ} {B : Type κ} → Option A → (A → Option B) → Option B
none >>= f = none
some a >>= f = f a

-- `json.Unmarshal` into each struct.
unfoldable pub read_begin_suite : JsonObject → Option Message
unfolding instant_of
read_begin_suite o = do
  t ← instant_of (lookup "StartedAt" o)
  some (begin_suite (record { started_at = t }))

unfoldable pub read_finish_suite : JsonObject → Option Message
unfolding instant_of
read_finish_suite o = do
  t ← instant_of (lookup "FinishedAt" o)
  some (finish_suite (record { finished_at = t }))

unfoldable pub read_begin_test : JsonObject → Option Message
unfolding instant_of text_of
read_begin_test o = do
  n ← text_of (lookup "Name" o)
  t ← instant_of (lookup "StartedAt" o)
  some (begin_test (record { name = n; started_at = t }))

unfoldable pub read_finish_test : JsonObject → Option Message
unfolding instant_of text_of flag_of
read_finish_test o = do
  n ← text_of (lookup "Name" o)
  t ← instant_of (lookup "FinishedAt" o)
  f ← flag_of (lookup "Failed" o)
  s ← flag_of (lookup "Skipped" o)
  some (finish_test (record { name = n; finished_at = t; failed = f; skipped = s }))

unfoldable pub read_pause_test : JsonObject → Option Message
unfolding instant_of text_of
read_pause_test o = do
  n ← text_of (lookup "Name" o)
  t ← instant_of (lookup "When" o)
  some (pause_test (record { name = n; at = t }))

unfoldable pub read_continue_test : JsonObject → Option Message
unfolding instant_of text_of
read_continue_test o = do
  n ← text_of (lookup "Name" o)
  t ← instant_of (lookup "When" o)
  some (continue_test (record { name = n; at = t }))

unfoldable pub read_test_error : JsonObject → Option Message
unfolding instant_of text_of
read_test_error o = do
  n ← text_of (lookup "Name" o)
  t ← instant_of (lookup "When" o)
  s ← text_of (lookup "Message" o)
  some (test_error (record { name = n; at = t; message = s }))

unfoldable pub read_test_skip : JsonObject → Option Message
unfolding instant_of text_of
read_test_skip o = do
  n ← text_of (lookup "Name" o)
  t ← instant_of (lookup "When" o)
  s ← text_of (lookup "Message" o)
  some (test_skip (record { name = n; at = t; message = s }))

unfoldable pub read_relayer_exec : JsonObject → Option Message
unfolding instant_of text_of texts_of number_of
read_relayer_exec o = do
  n ← text_of (lookup "Name" o)
  t ← instant_of (lookup "StartedAt" o)
  u ← instant_of (lookup "FinishedAt" o)
  k ← text_of (lookup "ContainerName" o)
  c ← texts_of (lookup "Command" o)
  out ← text_of (lookup "Stdout" o)
  err ← text_of (lookup "Stderr" o)
  x ← number_of (lookup "ExitCode" o)
  e ← text_of (lookup "Error" o)
  some (
      relayer_exec (record {
        name = n;
        started_at = t;
        finished_at = u;
        container_name = k;
        command = c;
        stdout = out;
        stderr = err;
        exit_code = x;
        error = e;
      }))

pub data Unmarshalled : Type 0 where
  read : WrappedMessage → Unmarshalled
  unknown_type failed_to_unmarshal : String → Unmarshalled

abbrev wrapped : String → Option Message → Unmarshalled
wrapped t none = failed_to_unmarshal t
wrapped t (some m) = read (record { type_name = t; message = m })

-- `(*WrappedMessage).UnmarshalJSON`, on the fields Type and Message of the outer object.
unfoldable pub unmarshal_json : String → JsonObject → Unmarshalled
unmarshal_json t raw =
    if t == "BeginSuite"
    then wrapped t (read_begin_suite raw)
    else if t == "FinishSuite"
    then wrapped t (read_finish_suite raw)
    else if t == "BeginTest"
    then wrapped t (read_begin_test raw)
    else if t == "FinishTest"
    then wrapped t (read_finish_test raw)
    else if t == "PauseTest"
    then wrapped t (read_pause_test raw)
    else if t == "ContinueTest"
    then wrapped t (read_continue_test raw)
    else if t == "TestError"
    then wrapped t (read_test_error raw)
    else if t == "TestSkip"
    then wrapped t (read_test_skip raw)
    else if t == "RelayerExec"
    then wrapped t (read_relayer_exec raw)
    else unknown_type t

-- Every message that a reporter writes under its type name is read back as it was.
pub unmarshal_json-marshal :
    (m : Message) → unmarshal_json (typ m) (marshal m) ≡ read (json_message m)
unfolding unmarshal_json typ marshal json_message lookup read_begin_suite read_finish_suite
    read_begin_test read_finish_test read_pause_test read_continue_test read_test_error
    read_test_skip read_relayer_exec omit_empty
unmarshal_json-marshal (begin_suite m) = refl
unmarshal_json-marshal (finish_suite m) = refl
unmarshal_json-marshal (begin_test m) = refl
unmarshal_json-marshal (finish_test m) = refl
unmarshal_json-marshal (pause_test m) = refl
unmarshal_json-marshal (continue_test m) = refl
unmarshal_json-marshal (test_error m) = refl
unmarshal_json-marshal (test_skip m) = refl
unmarshal_json-marshal (relayer_exec m) =
    let no_name = eq_iff m.container_name "" in
    let no_error = eq_iff m.error "" in
    elim (Bool-cases (m.container_name == "")) [
      | inl c ↦ elim (Bool-cases (m.error == "")) [
        | inl e ↦
            rw (c, e)
              (λ i. read (
                json_message (
                  relayer_exec (record m {
                    container_name = sym (no_name.0 c) i;
                    error = sym (no_error.0 e) i;
                  }))))
        | inr e ↦
            rw (c, e)
              (λ i.
                read
                  (json_message (relayer_exec (record m { container_name = sym (no_name.0 c) i }))))
      ]
      | inr c ↦ elim (Bool-cases (m.error == "")) [
        | inl e ↦
            rw (c, e)
              (λ i. read (json_message (relayer_exec (record m { error = sym (no_error.0 e) i }))))
        | inr e ↦ rw (c, e) refl
      ]
    ]
