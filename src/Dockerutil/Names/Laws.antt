-- ===== src/Dockerutil/Names/Laws.antt =====
-- The names that a container and a host are given, by their characters and their length.
use Prim.Native.Nat.{compare, Ordering}
use Prim.Native.Char.{Char, code, len_utf8}
use Prim.Native.String
use Prim.Native.String.{len, slice, count}
use text.Mathlib.TextPositions.{len-append}
use interchaintest.Base.{
  ℕ, zero, suc, ◌+◌, ◌-◌, ◌≤◌, ◌<◌, String, ◌≡◌, refl, sym, ap, ◌↔◌, ◌⊎◌, inl, inr, true, arith,
  ltb, if◌then◌else◌, ltb→lt, Bool-cases, cat, subst, nat_eq,
}
use interchaintest.Dockerutil.Names.{
  condense_host_name, is_valid_char, clean, sanitize_container_name,
}

len-slice_empty : (a b : ℕ) → len (slice "" a b) ≡ 0
len-slice_empty a b = ap len (λ j. String.slice.nil a b j)

slice_cons-zero :
    (c : Char) (s : String) (b : ℕ)
    → slice (String.◌∷◌ c s) zero b
      ≡ String.fits (compare (len_utf8 c) b) c (slice s zero (b - len_utf8 c))
slice_cons-zero c s b = λ j. String.slice.cons-zero c s b j

slice_cons-suc :
    (c : Char) (s : String) (a b : ℕ)
    → slice (String.◌∷◌ c s) (suc a) b ≡ slice s (suc a - len_utf8 c) (b - len_utf8 c)
slice_cons-suc c s a b = λ j. String.slice.cons-suc c s a b j

len_cons : (c : Char) (s : String) → len (String.◌∷◌ c s) ≡ len_utf8 c + len s
len_cons c s = λ j. String.len.cons c s j

-- A character stands at the end of the cut part only if it fits whole.
len-fits :
    (c : Char) (r : String) (b : ℕ) (o : Ordering)
    → compare (len_utf8 c) b ≡ o
    → len r ≤ b - len_utf8 c
    → len (String.fits o c r) ≤ b
len-fits c r b Ordering.lt e h = ground (arith, len_cons c r)
len-fits c r b Ordering.eq e h = ground (arith, len_cons c r)
len-fits c r b Ordering.gt e h = omega arith

len-slice-zero : (s : String) (b : ℕ) → len (slice s zero b) ≤ b
len-slice-zero String.[] b = omega (arith, len-slice_empty zero b)
len-slice-zero (String.◌∷◌ c s) b =
    subst (λ t. len t ≤ b) (sym (slice_cons-zero c s b))
      (len-fits c (slice s zero (b - len_utf8 c)) b (compare (len_utf8 c) b) refl
        (len-slice-zero s (b - len_utf8 c)))

pub len-slice : (s : String) (a b : ℕ) → len (slice s a b) ≤ b - a
len-slice s zero b = omega (arith, len-slice-zero s b)
len-slice String.[] (suc a) b = omega (arith, len-slice_empty (suc a) b)
len-slice (String.◌∷◌ c s) (suc a) b =
    omega
      (arith, ap len (slice_cons-suc c s a b), len-slice s (suc a - len_utf8 c) (b - len_utf8 c))

-- A host's name is below 64 bytes, whatever the name it is made of.
pub condense_host_name-lt : (name : String) → len (condense_host_name name) < 64
unfolding condense_host_name
condense_host_name-lt name = elim (Bool-cases (ltb (len name) 64)) [
  | inl e ↦ rw e (ltb→lt (len name) 64 e)
  | inr e ↦ rw e (
      omega (
        arith,
        len-append (slice name 0 30) (cat "_._" (slice name (len name - 30) (len name))),
        len-append "_._" (slice name (len name - 30) (len name)),
        len-slice name 0 30,
        len-slice name (len name - 30) (len name),
      ))
]

-- A letter, a digit, or one of `_`, `.` and `-`.
abbrev pub IsAllowed : ℕ → Type 0
IsAllowed c =
    ((b'a' ≤ c) × (c ≤ b'z'))
    ⊎ ((b'A' ≤ c) × (c ≤ b'Z'))
    ⊎ ((b'0' ≤ c) × (c ≤ b'9'))
    ⊎ (c ≡ b'_')
    ⊎ (c ≡ b'.')
    ⊎ (c ≡ b'-')

is_valid_char_iff : (c : ℕ) → (is_valid_char c ≡ true) ↔ IsAllowed c
unfolding is_valid_char
is_valid_char_iff c = ground arith

abbrev pub AllAllowed : String → Type 0
AllAllowed String.[] = Unit
AllAllowed (String.◌∷◌ c s) = IsAllowed (code c) × AllAllowed s

-- The second text has each allowed character of the first, and underscores for the others.
abbrev pub Replaces : String → String → Type 0
Replaces String.[] String.[] = Unit
Replaces String.[] (String.◌∷◌ d t) = ⊥
Replaces (String.◌∷◌ c s) String.[] = ⊥
Replaces (String.◌∷◌ c s) (String.◌∷◌ d t) =
    ((IsAllowed (code c) × (d ≡ c)) ⊎ (¬ IsAllowed (code c) × (d ≡ "_"))) × Replaces s t

clean_allowed : (c : Char) → IsAllowed (code c) → clean c ≡ c
unfolding clean
clean_allowed c h = ap (λ b. if b then c else "_") ((is_valid_char_iff (code c)).1 h)

clean_other : (c : Char) → ¬ IsAllowed (code c) → clean c ≡ "_"
unfolding clean
clean_other c n = elim (Bool-cases (is_valid_char (code c))) [
  | inl e ↦ absurd (n ((is_valid_char_iff (code c)).0 e))
  | inr e ↦ ap (λ b. if b then c else "_") e
]

IsAllowed-cases : (c : ℕ) → IsAllowed c ⊎ ¬ IsAllowed c
IsAllowed-cases c = elim (Bool-cases (is_valid_char c)) [
  | inl e ↦ inl ((is_valid_char_iff c).0 e)
  | inr e ↦ inr (λ h. ground (arith, (is_valid_char_iff c).1 h))
]

clean-IsAllowed : (c : Char) → IsAllowed (code (clean c))
unfolding is_valid_char
clean-IsAllowed c = elim (IsAllowed-cases (code c)) [
  | inl h ↦ subst (λ d. IsAllowed (code d)) (sym (clean_allowed c h)) h
  | inr n ↦
      subst (λ d. IsAllowed (code d)) (sym (clean_other c n))
        ((is_valid_char_iff (code "_")).0 refl)
]

sanitized :
    (name : String)
    → Replaces name (sanitize_container_name name)
      × AllAllowed (sanitize_container_name name)
      × (AllAllowed name → sanitize_container_name name ≡ name)
unfolding sanitize_container_name
sanitized String.[] = (tt, tt, λ h. refl)
sanitized (String.◌∷◌ c s) =
    let (r, v, same) = sanitized s in
    (
      (
        elim (IsAllowed-cases (code c)) [
          | inl h ↦ inl (h, clean_allowed c h)
          | inr n ↦ inr (n, clean_other c n)
        ],
        r,
      ),
      (clean-IsAllowed c, v),
      λ h. λ i. String.◌∷◌ (clean_allowed c h.0 i) (same h.1 i),
    )

-- A container's name keeps the letters, the digits and `_`, `.` and `-` of the name it is made of, and
-- has an underscore at the place of every other character. So it has allowed characters only, and a
-- name is left as it is exactly when all its characters are allowed.
pub sanitize_container_name_lem :
    (name : String)
    → Replaces name (sanitize_container_name name)
      × AllAllowed (sanitize_container_name name)
      × (AllAllowed name ↔ (sanitize_container_name name ≡ name))
sanitize_container_name_lem name =
    let (r, v, same) = sanitized name in (r, v, (same, λ e. subst AllAllowed e v))
