-- ===== src/Tests/Dockerutil.antt =====
-- A daemon that answers every call, and a container of two ports.
use interchaintest.Base.{◌<◌, String, ◌≡◌, refl, ◌↔◌, false, none, some, List, [], ◌∷◌, ℤ, pos}
use Prim.Native.String.{len}
use interchaintest.Dockerutil.{Docker, Host}
use interchaintest.Dockerutil.Names.{condense_host_name, sanitize_container_name}
use interchaintest.Dockerutil.Names.Laws.{
  Replaces, AllAllowed, condense_host_name-lt, sanitize_container_name_lem,
}
use interchaintest.Dockerutil.Ports.{PortBinding, requested, generate_port_bindings}
use interchaintest.Dockerutil.Ports.Listeners.{Held, AreNumbers, generate_port_bindings-Held}
use interchaintest.Dockerutil.Ports.Listeners
use interchaintest.Dockerutil.Lifecycle.{parse_sdk_panic_from_text}

abbrev pub willing : Docker
willing = record {
  fault = λ calls c. none;
  is_not_found = λ e. false;
  new_id = λ calls c. "c0ffee";
  port = λ calls c. 4000;
  text = λ calls c. "";
  result = λ calls c. record { stdout = ""; stderr = ""; exit_code = pos 0 };
  inspected = λ calls c. record {
    name = "/rly";
    args = [];
    exit_code = pos 0;
    is_running = false;
    bound = ("26657/tcp", ("0.0.0.0", "40001") ∷ []) ∷ [];
  };
}

abbrev pub quiet : Host
quiet = record { calls = []; listening = 80 ∷ [] }

abbrev ports : List (String × List PortBinding)
ports = ("26657/tcp", []) ∷ ("9090/tcp", record { host_ip = ""; host_port = "9091" } ∷ []) ∷ []

numbers : AreNumbers willing ports
unfolding requested
numbers = (λ e. some-ne-none e, (λ e. some-ne-none e, tt))
  where
    some-ne-none : {z : ℤ} → some z ≡ none → ⊥
    some-ne-none e = cc

generate_port_bindings-Held_example :
    Held 4000 (Listeners.count 4000 quiet.listening) (generate_port_bindings willing ports quiet)
generate_port_bindings-Held_example = generate_port_bindings-Held willing 4000 ports quiet numbers

condense_host_name-lt_example :
    len (condense_host_name "TestLearn-rly-a-name-of-more-than-sixty-four-characters-for-a-host")
    < 64
condense_host_name-lt_example =
    condense_host_name-lt "TestLearn-rly-a-name-of-more-than-sixty-four-characters-for-a-host"

sanitize_container_name_lem_example :
    Replaces "TestLearn/rly" (sanitize_container_name "TestLearn/rly")
    × AllAllowed (sanitize_container_name "TestLearn/rly")
    × (AllAllowed "TestLearn/rly" ↔ (sanitize_container_name "TestLearn/rly" ≡ "TestLearn/rly"))
sanitize_container_name_lem_example = sanitize_container_name_lem "TestLearn/rly"

name_sanitized : sanitize_container_name "TestLearn/rly #2" ≡ "TestLearn_rly__2"
unfolding sanitize_container_name
name_sanitized = refl

panic_found :
    parse_sdk_panic_from_text "starting up\npanic: bad Duration \t\ngoroutine 1"
    ≡ some "panic: bad Duration"
unfolding parse_sdk_panic_from_text
panic_found = refl
