-- ===== src/Testutil/Toml/Plain.antt =====
-- The configurations whose sections are plain maps, which a change keeps.
use interchaintest.Base.{
  String, inl, inr, Bool, true, false, Option, some, if◌then◌else◌, ◌==◌, Bool-cases, string_eq,
}
use interchaintest.Testutil.Toml.{
  Value, scalar, toml, plain, Table, empty, entry, find, put, section, recursive_modify_toml,
}
use interchaintest.Testutil.Toml.Laws.{IsToml, Gives, and_then-Gives}

-- Every section is a plain map, as decoding gives it.
unfoldable pub IsPlain : Table → Type 0
IsPlain empty = Unit
IsPlain (entry k (scalar s) t) = IsPlain t
IsPlain (entry k (toml u) t) = ⊥
IsPlain (entry k (plain u) t) = IsPlain u × IsPlain t

pub either :
    (P : Option Value → Type 0) (b : Bool) (x y : Option Value) → P x → P y → P (if b then x else y)
either P true x y p q = p
either P false x y p q = q

-- The section that is found in a plain configuration is plain, and what stands in it stands there.
pub section-IsPlain : (k : String) (c : Table) → IsPlain c → IsPlain (section (find k c))
unfolding find IsPlain
section-IsPlain k empty h = tt
section-IsPlain k (entry j (scalar s) c) h =
    either (λ o. IsPlain (section o)) (j == k) (some (scalar s)) (find k c) tt
      (section-IsPlain k c h)
section-IsPlain k (entry j (toml u) c) h = absurd h
section-IsPlain k (entry j (plain u) c) (g, h) =
    either (λ o. IsPlain (section o)) (j == k) (some (plain u)) (find k c) g (section-IsPlain k c h)

abbrev IsPlainValue : Value → Type 0
IsPlainValue (scalar s) = Unit
IsPlainValue (toml t) = ⊥
IsPlainValue (plain t) = IsPlain t

entry-IsPlain :
    (k : String) (v : Value) (t : Table) → IsPlainValue v → IsPlain t → IsPlain (entry k v t)
unfolding IsPlain
entry-IsPlain k (scalar s) t h g = g
entry-IsPlain k (toml u) t h g = h
entry-IsPlain k (plain u) t h g = (h, g)

entry_parts :
    (k : String) (v : Value) (t : Table) → IsPlain (entry k v t) → IsPlainValue v × IsPlain t
unfolding IsPlain
entry_parts k (scalar s) t h = (tt, h)
entry_parts k (toml u) t h = absurd h
entry_parts k (plain u) t h = h

put-IsPlain :
    (k : String) (v : Value) (c : Table) → IsPlainValue v → IsPlain c → IsPlain (put k v c)
unfolding put
put-IsPlain k v empty h g = entry-IsPlain k v empty h g
put-IsPlain k v (entry j w t) h g =
    let (a, b) = entry_parts j w t g in
    elim (Bool-cases (j == k)) [
      | inl e ↦ rw e (entry-IsPlain j v t h b)
      | inr e ↦ rw e (entry-IsPlain j w (put k v t) a (put-IsPlain k v t h b))
    ]

-- A change of a plain configuration gives a plain one.
pub recursive_modify_toml-IsPlain :
    (m c : Table) → IsToml m → IsPlain c → Gives (recursive_modify_toml c m) IsPlain
unfolding recursive_modify_toml IsToml
recursive_modify_toml-IsPlain empty c h g = g
recursive_modify_toml-IsPlain (entry k (scalar v) rest) c (a, h) g =
    recursive_modify_toml-IsPlain rest (put k (scalar v) c) h (put-IsPlain k (scalar v) c tt g)
recursive_modify_toml-IsPlain (entry k (toml t) rest) c (a, b, h) g =
    and_then-Gives IsPlain (recursive_modify_toml (section (find k c)) t) _
      (recursive_modify_toml-IsPlain t (section (find k c)) b (section-IsPlain k c g))
      (λ s p.
        recursive_modify_toml-IsPlain rest (put k (plain s) c) h (put-IsPlain k (plain s) c p g))
recursive_modify_toml-IsPlain (entry k (plain t) rest) c h g = absurd h
