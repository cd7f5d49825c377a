-- ===== src/Dockerutil/Ports/Listeners.antt =====
-- The listeners that hold the ports of a container's bindings.
use interchaintest.Base.{
  ℕ, ◌+◌, ◌-◌, String, ◌≡◌, refl, sym, ap, ◌∙◌, ◌≢◌, inl, inr, Option, none, some, List, [], ◌∷◌,
  ◌++◌, arith, if◌then◌else◌, Option-cases, ◌==◌, assign, ℤ, subst, nat_eq, string_eq,
}
use interchaintest.Base.Actions.{Ended, Action, done, fails, panics, blocks, continue}
use interchaintest.Dockerutil.{listen, ask, Host, Docker}
use interchaintest.Dockerutil.Ports.{
  PortBinding, PortMap, Listeners, requested, close_one, close_all, get_port, close_and_fail,
  binding_of, bind_ports, generate_port_bindings,
}

-- How often a port is listened on.
unfoldable pub count : ℕ → List ℕ → ℕ
count x [] = 0
count x (p ∷ l) = if p == x then 1 + count x l else count x l

count-close_one : (x p : ℕ) (l : List ℕ) → count x (close_one p l) ≡ count x l - count x (p ∷ [])
unfolding count close_one
count-close_one x p [] = ground arith
count-close_one x p (q ∷ l) = ground (arith, count-close_one x p l)

count-close_all :
    (x : ℕ) (ls : Listeners) (h : Host)
    → count x (close_all ls h).listening ≡ count x h.listening - count x ls
unfolding count close_all
count-close_all x [] h = omega arith
count-close_all x (p ∷ ls) h = ground (
  arith,
  count-close_all x ls (record h { listening = close_one p h.listening }),
  count-close_one x p h.listening,
)

count-++ : (x : ℕ) (a b : List ℕ) → count x (a ++ b) ≡ count x a + count x b
unfolding count
count-++ x [] b = omega arith
count-++ x (p ∷ a) b = ground (arith, count-++ x a b)

-- From n listeners on the port, the ones returned besides: none where there is an error.
abbrev pub Held : ℕ → ℕ → Ended (PortMap × Listeners) × Host → Type 0
Held x n (done (m, ls), h) = count x h.listening ≡ n + count x ls
Held x n (fails e, h) = count x h.listening ≡ n
Held x n (panics, h) = Unit
Held x n (blocks, h) = Unit

closed : (a n b r : ℕ) → a ≡ n + b → r ≡ a - b → r ≡ n
closed a n b r e f = omega arith

one_more :
    (x n q : ℕ) (ls l : List ℕ)
    → count x l ≡ n + count x ls
    → count x (q ∷ l) ≡ n + count x (ls ++ q ∷ [])
unfolding count
one_more x n q ls l c = ground (arith, count-++ x ls (q ∷ []))

module _ (docker : Docker) where
  abbrev ported : ℤ → Host → Option String → Ended ℕ × Host
  ported n h none = (
    done (docker.port h.calls (listen n)),
    record h {
      calls = listen n ∷ h.calls;
      listening = docker.port h.calls (listen n) ∷ h.listening;
    },
  )
  ported n h (some e) = (fails e, record h { calls = listen n ∷ h.calls })

  get_port_lem :
      (n : ℤ) (h : Host) → get_port docker n h ≡ ported n h (docker.fault h.calls (listen n))
  unfolding get_port ask
  get_port_lem n h = answer (docker.fault h.calls (listen n))
    where
      asked : Host
      asked = record h { calls = listen n ∷ h.calls }

      answer :
          (o : Option String)
          → continue
              (elim o [
                | none ↦ (done (docker.port h.calls (listen n)), asked)
                | some e ↦ (fails e, asked)
              ])
              (λ p s. (done p, record s { listening = p ∷ s.listening }))
            ≡ ported n h o
      answer none = refl
      answer (some e) = refl

  -- Every port that is asked for is a number.
  abbrev pub AreNumbers : List (String × List PortBinding) → Type 0
  AreNumbers [] = Unit
  AreNumbers ((p, binds) ∷ rest) = (requested binds ≢ none) × AreNumbers rest

  answered :
      (x n : ℕ) (z : ℤ) (ls : Listeners) (next : ℕ → Action Host (PortMap × Listeners)) (h : Host)
      → count x h.listening ≡ n + count x ls
      → ((q : ℕ) (s : Host)
          → count x s.listening ≡ n + count x (ls ++ q ∷ [])
          → Held x n (next q s))
      → (o : Option String) → Held x n (close_and_fail docker ls (ported z h o) next)
  unfolding count
  answered x n z ls next h c k none =
      let q = docker.port h.calls (listen z) in
      k q (ported z h none).1 (one_more x n q ls h.listening c)
  answered x n z ls next h c k (some e) =
      let s : Host = record h { calls = listen z ∷ h.calls } in
      closed (count x h.listening) n (count x ls) _ c (count-close_all x ls s)

  bind_ports-Held :
      (x n : ℕ) (pairs : List (String × List PortBinding)) (m : PortMap) (ls : Listeners) (h : Host)
      → AreNumbers pairs
      → count x h.listening ≡ n + count x ls
      → Held x n (bind_ports docker pairs m ls h)
  unfolding bind_ports count
  bind_ports-Held x n [] m ls h a c = c
  bind_ports-Held x n ((p, binds) ∷ rest) m ls h (a, more) c =
      elim (Option-cases (requested binds)) [
        | inl e ↦ absurd (a e)
        | inr (z, e) ↦
            let next : ℕ → Action Host (PortMap × Listeners) =
              λ q. bind_ports docker rest (assign p (binding_of q ∷ []) m) (ls ++ q ∷ []) in
            subst (Held x n)
              (sym (
                ap
                  (λ o. elim o [
                    | none ↦ (fails "invalid syntax", h)
                    | some z ↦ close_and_fail docker ls (get_port docker z h) next
                  ])
                  e
                ∙ ap (λ y. close_and_fail docker ls y next) (get_port_lem z h)))
              (answered x n z ls next h c
                (λ q h'.
                  bind_ports-Held x n rest (assign p (binding_of q ∷ []) m) (ls ++ q ∷ []) h' more)
                (docker.fault h.calls (listen z)))
      ]

  -- Where every port that is asked for is a number: after GeneratePortBindings fails, this process
  -- listens on each port as often as before, and after it succeeds, once more for each time that the
  -- port is among the listeners returned.
  pub generate_port_bindings-Held :
      (x : ℕ) (pairs : List (String × List PortBinding)) (h : Host)
      → AreNumbers pairs
      → Held x (count x h.listening) (generate_port_bindings docker pairs h)
  unfolding generate_port_bindings count
  generate_port_bindings-Held x pairs h a =
      bind_ports-Held x (count x h.listening) pairs [] [] h a (zero_more (count x h.listening))
    where
      zero_more : (n : ℕ) → n ≡ n + 0
      zero_more n = omega arith
