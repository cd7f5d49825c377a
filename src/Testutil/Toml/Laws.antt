-- ===== src/Testutil/Toml/Laws.antt =====
-- What a configuration says at a path after it is changed.
use interchaintest.Base.{
  String, ◌≡◌, refl, ap, ◌∙◌, false, Option, none, some, List, [], ◌∷◌, arith, if◌then◌else◌, ◌==◌,
  ==_refl, string_eq,
}
use interchaintest.Base.Actions.{Ended, done, fails, panics, blocks}
use interchaintest.Testutil.Toml.{
  Value, scalar, toml, plain, Table, empty, entry, find, put, section, and_then,
  recursive_modify_toml,
}

-- What stands at a path.
unfoldable pub at : Value → List String → Option Value
unfolding find
at v [] = some v
at (scalar s) (k ∷ p) = none
at (toml t) (k ∷ p) = elim (find k t) [ none ↦ none | some v ↦ at v p ]
at (plain t) (k ∷ p) = elim (find k t) [ none ↦ none | some v ↦ at v p ]

abbrev pub at_table : Table → List String → Option Value
at_table t p = at (plain t) p

-- The modifications are `Toml`s throughout, and have each key once.
unfoldable pub IsToml : Table → Type 0
unfolding find
IsToml empty = Unit
IsToml (entry k (scalar s) rest) = (find k rest ≡ none) × IsToml rest
IsToml (entry k (toml t) rest) = (find k rest ≡ none) × IsToml t × IsToml rest
IsToml (entry k (plain t) rest) = ⊥

-- The modifications set the value at a path.
pub data Sets : Table → List String → String → Type 0 where
  here : (k v : String) (rest : Table) → Sets (entry k (scalar v) rest) (k ∷ []) v
  within :
      (k : String) {t : Table} (rest : Table) {p : List String} {v : String}
      → Sets t p v
      → Sets (entry k (toml t) rest) (k ∷ p) v
  later :
      (k : String) (x : Value) {rest : Table} {p : List String} {v : String}
      → Sets rest p v
      → Sets (entry k x rest) p v

-- It succeeds, with a configuration of which this holds.
abbrev pub Gives : Ended Table → (Table → Type 0) → Type 0
Gives (done t) P = P t
Gives (fails e) P = ⊥
Gives panics P = ⊥
Gives blocks P = ⊥

pub and_then-Gives :
    {P : Table → Type 0} (Q : Table → Type 0) (x : Ended Table) (f : Table → Ended Table)
    → Gives x P
    → ((t : Table) → P t → Gives (f t) Q)
    → Gives (and_then x f) Q
and_then-Gives Q (done t) f g k = k t g
and_then-Gives Q (fails e) f g k = absurd g
and_then-Gives Q panics f g k = absurd g
and_then-Gives Q blocks f g k = absurd g

pub Gives-map :
    {P Q : Table → Type 0} (x : Ended Table) → Gives x P → ((t : Table) → P t → Q t) → Gives x Q
Gives-map (done t) g k = k t g
Gives-map (fails e) g k = absurd g
Gives-map panics g k = absurd g
Gives-map blocks g k = absurd g

find-put :
    (k j : String) (v : Value) (t : Table)
    → find k (put j v t) ≡ (if j == k then some v else find k t)
unfolding find put
find-put k j v empty = refl
find-put k j v (entry i w t) = ground (
  arith,
  find-put k j v t,
  string_eq.same_iff i j,
  string_eq.same_iff i k,
  string_eq.same_iff j k,
)

pub find_other :
    (k j : String) (v : Value) (t : Table) → (j == k) ≡ false → find k (put j v t) ≡ find k t
find_other k j v t n = find-put k j v t ∙ ap (λ b. if b then some v else find k t) n

pub find_same : (k : String) (v : Value) (t : Table) → find k (put k v t) ≡ some v
find_same k v t = find-put k k v t ∙ ap (λ b. if b then some v else find k t) (==_refl k)

other_key :
    (k j : String) (x : Value) (rest : Table)
    → find k (entry j x rest) ≡ none
    → ((j == k) ≡ false) × (find k rest ≡ none)
unfolding find
other_key k j x rest h = ground arith

-- The whole succeeds, and a key that is not among the modifications keeps its value.
pub recursive_modify_toml-find :
    (k : String) (m c : Table)
    → IsToml m
    → Gives (recursive_modify_toml c m) (λ d. find k m ≡ none → find k d ≡ find k c)
unfolding recursive_modify_toml IsToml
recursive_modify_toml-find k empty c h = λ n. refl
recursive_modify_toml-find k (entry j (scalar v) rest) c (a, h) =
    Gives-map (recursive_modify_toml (put j (scalar v) c) rest)
      (recursive_modify_toml-find k rest (put j (scalar v) c) h)
      (λ d q n.
        let (ne, n') = other_key k j (scalar v) rest n in q n' ∙ find_other k j (scalar v) c ne)
recursive_modify_toml-find k (entry j (toml t) rest) c (a, b, h) =
    and_then-Gives _ (recursive_modify_toml (section (find j c)) t) _
      (recursive_modify_toml-find k t (section (find j c)) b)
      (λ s _.
        Gives-map (recursive_modify_toml (put j (plain s) c) rest)
          (recursive_modify_toml-find k rest (put j (plain s) c) h)
          (λ d q n.
            let (ne, n') = other_key k j (toml t) rest n in q n' ∙ find_other k j (plain s) c ne))
recursive_modify_toml-find k (entry j (plain t) rest) c h = absurd h

at_found :
    (k : String) (x : Value) (p : List String) (t : Table)
    → find k t ≡ some x
    → at_table t (k ∷ p) ≡ at x p
unfolding at
at_found k x p t e = ap (λ o. elim o [ none ↦ none | some v ↦ at v p ]) e

at-Gives :
    (p : List String) (v k : String) (x : Value) (rest c : Table)
    → IsToml rest
    → find k rest ≡ none
    → at x p ≡ some (scalar v)
    → Gives (recursive_modify_toml (put k x c) rest) (λ d. at_table d (k ∷ p) ≡ some (scalar v))
at-Gives p v k x rest c h a e =
    Gives-map (recursive_modify_toml (put k x c) rest)
      (recursive_modify_toml-find k rest (put k x c) h)
      (λ d q. at_found k x p d (q a ∙ find_same k x c) ∙ e)

sets :
    {m : Table} {p : List String} {v : String} (c : Table)
    → Sets m p v
    → IsToml m
    → Gives (recursive_modify_toml c m) (λ d. at_table d p ≡ some (scalar v))
unfolding recursive_modify_toml IsToml at
sets c (here k v rest) (a, h) = at-Gives [] v k (scalar v) rest c h a refl
sets c (within k {t} rest {p} {v} s) (a, b, h) =
    and_then-Gives _ (recursive_modify_toml (section (find k c)) t) _
      (sets (section (find k c)) s b) (λ d e. at-Gives p v k (plain d) rest c h a e)
sets c (later k (scalar w) s) (a, h) = sets (put k (scalar w) c) s h
sets c (later k (toml t) s) (a, b, h) =
    and_then-Gives _ (recursive_modify_toml (section (find k c)) t) _
      (recursive_modify_toml-find k t (section (find k c)) b) (λ d e. sets (put k (plain d) c) s h)
sets c (later k (plain t) s) h = absurd h

-- A change of a configuration by modifications that are maps of type Toml at every depth, with each
-- key once, succeeds, and where they set a value at a path, the configuration has it there afterwards.
pub recursive_modify_toml-Sets :
    {m : Table} {p : List String} {v : String} (c : Table)
    → IsToml m
    → Sets m p v
    → Gives (recursive_modify_toml c m) (λ d. at_table d p ≡ some (scalar v))
recursive_modify_toml-Sets c h s = sets c s h
