-- ===== src/Cosmos/Monikers/Laws.antt =====
-- The length of a condensed moniker.
use Prim.Native.String.{len, slice}
use text.Mathlib.TextPositions.{len-append}
use interchaintest.Base.{
  ℕ, ◌+◌, ◌-◌, ◌*◌, ◌≤◌, String, ◌≡◌, inl, inr, arith, ltb, leb, ltb→lt, leb→le, Bool-cases, cat,
  ◌/◌, nat_eq, string_eq,
}
use interchaintest.Base.Actions.{Ended, done, fails, panics, blocks}
use interchaintest.Dockerutil.Names.Laws.{len-slice}
use interchaintest.Cosmos.{Packages}
use interchaintest.Cosmos.Monikers.{condensed, condense_moniker}

-- It returns a text of at most 70 bytes.
abbrev pub Fits : Ended String → Type 0
Fits (done s) = len s ≤ 70
Fits (fails e) = ⊥
Fits panics = ⊥
Fits blocks = ⊥

condensed-le :
    (m suffix : String) (keep : ℕ)
    → 2 * keep + 3 + len suffix ≤ 70
    → len (condensed m suffix keep) ≤ 70
condensed-le m suffix keep h = omega (
  arith,
  len-append (slice m 0 keep) (cat "..." (cat (slice m (len m - keep) (len m)) suffix)),
  len-append "..." (cat (slice m (len m - keep) (len m)) suffix),
  len-append (slice m (len m - keep) (len m)) suffix,
  len-slice m 0 keep,
  len-slice m (len m - keep) (len m),
)

-- With the limit of 70 bytes and a hash of at most 7 digits, a moniker of any length is condensed to
-- at most 70 bytes, without a panic.
pub condense_moniker-le :
    (packages : Packages) (m : String)
    → packages.max_moniker_length ≡ 70
    → len (packages.hash_base36 m) ≤ 7
    → Fits (condense_moniker packages m)
unfolding condense_moniker
condense_moniker-le packages m e h =
    let suffix = cat "-" (packages.hash_base36 m) in
    let suffix_len = len-append "-" (packages.hash_base36 m) in
    let short : len suffix ≤ 8 = omega (arith, suffix_len) in
    rw e (elim (Bool-cases (leb (len m) 70)) [
      | inl f ↦ rw f (leb→le (len m) 70 f)
      | inr f ↦ rw f (elim (Bool-cases (ltb ((70 - len suffix) / 2) 2)) [
        | inl g ↦ absurd (omega (arith, short, ltb→lt ((70 - len suffix) / 2) 2 g))
        | inr g ↦ rw g (condensed-le m suffix ((70 - len suffix) / 2 - 2) (omega (arith, short)))
      ])
    ])
