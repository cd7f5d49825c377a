-- ===== src/Testutil/Toml/Frame.antt =====
-- What a configuration says at the paths that a change leaves alone.
use interchaintest.Base.{
  String, ◌≡◌, refl, sym, ap, ◌∙◌, ◌⊎◌, inl, inr, false, Option, none, some, List, ◌∷◌,
  if◌then◌else◌, Bool-cases, ◌==◌, subst, nat_eq, string_eq,
}
use interchaintest.Base.Actions.{Ended, done, fails, panics, blocks}
use interchaintest.Testutil.Toml.{
  Value, scalar, toml, plain, Table, empty, entry, find, put, section, recursive_modify_toml,
}
use interchaintest.Testutil.Toml.Plain.{
  IsPlain, either, section-IsPlain, recursive_modify_toml-IsPlain,
}
use interchaintest.Testutil.Toml.Laws.{
  at, at_table, IsToml, Gives, and_then-Gives, Gives-map, find_other, find_same,
  recursive_modify_toml-find,
}

-- The modifications reach neither a path nor what is above it.
pub data Spares : Table → List String → Type 0 where
  apart : (m : Table) (k : String) (p : List String) → find k m ≡ none → Spares m (k ∷ p)
  beside :
      (m t : Table) (k j : String) (p : List String)
      → find k m ≡ some (toml t)
      → Spares t (j ∷ p)
      → Spares m (k ∷ j ∷ p)

unfoldable below : Option Value → List String → Option Value
unfolding at
below none p = none
below (some v) p = at v p

at-section :
    (k j : String) (p : List String) (c : Table)
    → IsPlain c
    → at_table (section (find k c)) (j ∷ p) ≡ below (find k c) (j ∷ p)
unfolding find at below IsPlain
at-section k j p empty h = refl
at-section k j p (entry i (scalar s) c) h =
    either (λ o. at_table (section o) (j ∷ p) ≡ below o (j ∷ p)) (i == k) (some (scalar s))
      (find k c) refl (at-section k j p c h)
at-section k j p (entry i (toml u) c) h = absurd h
at-section k j p (entry i (plain u) c) (g, h) =
    either (λ o. at_table (section o) (j ∷ p) ≡ below o (j ∷ p)) (i == k) (some (plain u))
      (find k c) refl (at-section k j p c h)

at_table-below :
    (k : String) (p : List String) (c : Table) → at_table c (k ∷ p) ≡ below (find k c) p
unfolding at below
at_table-below k p c = cases (find k c)
  where
    cases : (o : Option Value) → (elim o [ none ↦ none | some v ↦ at v p ]) ≡ below o p
    cases none = refl
    cases (some v) = refl

abbrev table_of : Value → Table
table_of (scalar s) = empty
table_of (toml t) = t
table_of (plain t) = t

entry-cases :
    (k j : String) (x : Value) (t rest : Table)
    → find k (entry j x rest) ≡ some (toml t)
    → ((j ≡ k) × (x ≡ toml t)) ⊎ (((j == k) ≡ false) × (find k rest ≡ some (toml t)))
unfolding find
entry-cases k j x t rest e = elim (Bool-cases (j == k)) [
  | inl q ↦ inl (
    (string_eq.same_iff j k).0 q,
    some_injective (sym (ap (λ b. if b then some x else find k rest) q) ∙ e),
  )
  | inr q ↦ inr (q, sym (ap (λ b. if b then some x else find k rest) q) ∙ e)
]
  where
    some_injective : {x y : Value} → some x ≡ some y → x ≡ y
    some_injective {x} q = ap (λ o. elim o [ none ↦ x | some v ↦ v ]) q

not_scalar : (v : String) (t : Table) → scalar v ≡ toml t → ⊥
not_scalar v t e = cc

IsToml-find : (k : String) (t m : Table) → IsToml m → find k m ≡ some (toml t) → IsToml t
unfolding find IsToml
IsToml-find k t empty h e = absurd (nothing e)
  where
    nothing : none ≡ some (toml t) → ⊥
    nothing e = cc
IsToml-find k t (entry j (scalar v) rest) (a, h) e = elim (entry-cases k j (scalar v) t rest e) [
  | inl (q, x) ↦ absurd (not_scalar v t x)
  | inr (q, x) ↦ IsToml-find k t rest h x
]
IsToml-find k t (entry j (toml u) rest) (a, b, h) e = elim (entry-cases k j (toml u) t rest e) [
  | inl (q, x) ↦ subst IsToml (ap table_of x) b
  | inr (q, x) ↦ IsToml-find k t rest h x
]
IsToml-find k t (entry j (plain u) rest) h e = absurd h

module _ (P : Table → Type 0) (k : String) (t : Table) where
  -- It holds of the section, once it is changed as it alone would be.
  abbrev Changes : Table → Type 0
  Changes d = (s : Table) × P s × (find k d ≡ some (plain s))

  section_first :
      (rest c : Table)
      → IsToml rest
      → find k rest ≡ none
      → Gives (recursive_modify_toml (section (find k c)) t) P
      → Gives (recursive_modify_toml c (entry k (toml t) rest)) Changes
  unfolding recursive_modify_toml
  section_first rest c h n g =
      and_then-Gives _ (recursive_modify_toml (section (find k c)) t) _ g (λ s ps.
        Gives-map (recursive_modify_toml (put k (plain s) c) rest)
          (recursive_modify_toml-find k rest (put k (plain s) c) h)
          (λ d q. (s, ps, q n ∙ find_same k (plain s) c)))

  put-section :
      (j : String) (x : Value) (rest c : Table)
      → (j == k) ≡ false
      → (Gives (recursive_modify_toml (section (find k (put j x c))) t) P
          → Gives (recursive_modify_toml (put j x c) rest) Changes)
      → Gives (recursive_modify_toml (section (find k c)) t) P
      → Gives (recursive_modify_toml (put j x c) rest) Changes
  put-section j x rest c n =
      subst
        (λ o.
          Gives (recursive_modify_toml (section o) t) P
          → Gives (recursive_modify_toml (put j x c) rest) Changes)
        (find_other k j x c n)

  recursive_modify_toml-section :
      (m c : Table)
      → IsToml m
      → find k m ≡ some (toml t)
      → Gives (recursive_modify_toml (section (find k c)) t) P
      → Gives (recursive_modify_toml c m) Changes
  unfolding recursive_modify_toml IsToml find
  recursive_modify_toml-section empty c h e g = absurd (nothing e)
    where
      nothing : none ≡ some (toml t) → ⊥
      nothing e = cc
  recursive_modify_toml-section (entry j (scalar v) rest) c (a, h) e g =
      elim (entry-cases k j (scalar v) t rest e) [
        | inl (q, x) ↦ absurd (not_scalar v t x)
        | inr (q, x) ↦
            put-section j (scalar v) rest c q
              (recursive_modify_toml-section rest (put j (scalar v) c) h x) g
      ]
  recursive_modify_toml-section (entry j (toml u) rest) c (a, b, h) e g =
      elim (entry-cases k j (toml u) t rest e) [
        | inl (q, x) ↦
            subst
              (λ i.
                find i rest ≡ none
                → Gives (recursive_modify_toml c (entry i (toml u) rest)) Changes)
              (sym q)
              (λ n.
                subst (λ w. Gives (recursive_modify_toml c (entry k (toml w) rest)) Changes)
                  (sym (ap table_of x)) (section_first rest c h n g))
              a
        | inr (q, x) ↦
            and_then-Gives _ (recursive_modify_toml (section (find j c)) u) _
              (recursive_modify_toml-find k u (section (find j c)) b)
              (λ s _.
                put-section j (plain s) rest c q
                  (recursive_modify_toml-section rest (put j (plain s) c) h x) g)
      ]
  recursive_modify_toml-section (entry j (plain u) rest) c h e g = absurd h

spares :
    {m : Table} {p : List String} (c : Table)
    → Spares m p
    → IsToml m
    → IsPlain c
    → Gives (recursive_modify_toml c m) (λ d. at_table d p ≡ at_table c p)
unfolding below at
spares c (apart m k p n) h pl =
    Gives-map (recursive_modify_toml c m) (recursive_modify_toml-find k m c h)
      (λ d q. at_table-below k p d ∙ ap (λ o. below o p) (q n) ∙ sym (at_table-below k p c))
spares c (beside m t k j p e s) h pl =
    Gives-map (recursive_modify_toml c m)
      (recursive_modify_toml-section _ k t m c h e
        (spares (section (find k c)) s (IsToml-find k t m h e) (section-IsPlain k c pl)))
      (λ d (u, q, f).
        at_table-below k (j ∷ p) d
        ∙ ap (λ o. below o (j ∷ p)) f
        ∙ q
        ∙ at-section k j p c pl
        ∙ sym (at_table-below k (j ∷ p) c))

Gives-and :
    (P Q : Table → Type 0) (x : Ended Table) → Gives x P → Gives x Q → Gives x (λ d. P d × Q d)
Gives-and P Q (done t) p q = (p, q)
Gives-and P Q (fails e) p q = p
Gives-and P Q panics p q = p
Gives-and P Q blocks p q = p

-- A change of a configuration whose sections are plain maps, by modifications that are maps of type
-- Toml at every depth, with each key once, succeeds and gives such a configuration again. Where the
-- modifications reach neither a path nor what is above it, it has at that path what stood there before.
pub recursive_modify_toml-Spares :
    {m : Table} {p : List String} (c : Table)
    → IsToml m
    → IsPlain c
    → Spares m p
    → Gives (recursive_modify_toml c m) (λ d. IsPlain d × (at_table d p ≡ at_table c p))
recursive_modify_toml-Spares {m} c h pl s =
    Gives-and IsPlain _ (recursive_modify_toml c m) (recursive_modify_toml-IsPlain m c h pl)
      (spares c s h pl)
