-- ===== src/Dockerutil/Ports.antt =====
-- dockerutil/ports.go: a binding for each port of a container, held by a listener until the
-- container starts.
pub mod Listeners
use Prim.Native.Char.{code}
use Prim.Native.String
use interchaintest.Base.{
  ℕ, zero, suc, ◌^◌, String, Option, none, some, List, [], ◌∷◌, ◌++◌, leb, if◌then◌else◌, ◌==◌, Map,
  assign, ℤ, parse_uint, pos, negsuc, show_digits, nat_eq, string_eq,
}
use interchaintest.Base.Actions.{
  Ended, Action, done, fails, panics, blocks, ◌>>=◌, ◌>>◌, return, modify,
}
use interchaintest.Dockerutil.{listen, Host, Docker, ask}

-- `nat.PortBinding`
pub record PortBinding : Type 0 where
  pub host_ip : String
  pub host_port : String

-- `nat.PortMap`
abbrev pub PortMap : Type 0
PortMap = Map String (List PortBinding)

abbrev pub Listeners : Type 0
Listeners = List ℕ

-- A negative number of this absolute value.
abbrev negative : ℕ → ℤ
negative zero = pos 0
negative (suc n) = negsuc n

abbrev negated : Option ℕ → Option ℤ
negated none = none
negated (some n) = if leb n (2 ^ 63) then some (negative n) else none

abbrev positive : Option ℕ → Option ℤ
positive none = none
positive (some n) = some (pos n)

-- `strconv.Atoi`: an optional sign, and decimal digits of a number that fits 64 bits.
unfoldable pub atoi : String → Option ℤ
unfolding parse_uint
atoi String.[] = none
atoi (String.◌∷◌ c s) =
    if code c == b'-'
    then negated (parse_uint 64 s)
    else if code c == b'+'
    then positive (parse_uint 63 s)
    else positive (parse_uint 63 (String.◌∷◌ c s))

-- The port that is asked for: any free one (0) where there is no binding.
unfoldable pub requested : List PortBinding → Option ℤ
unfolding atoi
requested [] = some (pos 0)
requested (b ∷ rest) = atoi b.host_port

-- `listener.Close()`
unfoldable pub close_one : ℕ → List ℕ → List ℕ
close_one p [] = []
close_one p (q ∷ l) = let rest = close_one p l in if q == p then l else q ∷ rest

-- `(Listeners).CloseAll`
unfoldable pub close_all : Listeners → Host → Host
unfolding close_one
close_all [] h = h
close_all (p ∷ ls) h = close_all ls (record h { listening = close_one p h.listening })

-- `fmt.Sprint` of a port.
abbrev pub show_port : ℕ → String
show_port n = show_digits 20 n ""

abbrev pub binding_of : ℕ → PortBinding
binding_of n = record { host_ip = "0.0.0.0"; host_port = show_port n }

module _ (docker : Docker) where
  -- `OpenListener`, and `GetPort` on it: a failed one leaves nothing open.
  unfoldable pub get_port : ℤ → Action Host ℕ
  unfolding ask
  get_port n = do
    p ← ask docker (listen n) docker.port
    modify (λ h. record h { listening = p ∷ h.listening })
    return p

  abbrev pub close_and_fail :
      {A : Type 0} → Listeners → Ended ℕ × Host → (ℕ → Action Host A) → Ended A × Host
  close_and_fail ls (done p, h) k = k p h
  close_and_fail ls (fails e, h) k = (fails e, close_all ls h)
  close_and_fail ls (panics, h) k = (panics, h)
  close_and_fail ls (blocks, h) k = (blocks, h)

  -- The loop of `GeneratePortBindings`, with the bindings and the listeners so far.
  unfoldable pub bind_ports :
      List (String × List PortBinding) → PortMap → Listeners → Action Host (PortMap × Listeners)
  unfolding get_port requested close_all
  bind_ports [] m ls h = (done (m, ls), h)
  bind_ports ((p, binds) ∷ rest) m ls h = elim (requested binds) [
    | none ↦ (fails "invalid syntax", h)
    | some n ↦
        close_and_fail ls (get_port n h)
          (λ q. bind_ports rest (assign p (binding_of q ∷ []) m) (ls ++ q ∷ []))
  ]

  -- `GeneratePortBindings`
  unfoldable pub generate_port_bindings :
      List (String × List PortBinding) → Action Host (PortMap × Listeners)
  unfolding bind_ports
  generate_port_bindings pairs = bind_ports pairs [] []
