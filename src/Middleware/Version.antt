-- ===== src/Middleware/Version.antt =====
-- The version that the proxy and a middleware agree on.
use greyproxy.Prelude.{
  ltb, leb, Bool-cases, inl, inr, ◌∙◌, ℕ, ◌≤◌, ◌≡◌, ◌&&◌, none, some, arith, int_eq, if◌then◌else◌,
  pos,
}
use greyproxy.Middleware.{negotiate_version, negotiate_range}

-- The greatest version that both speak.
pub record IsGreatest (proxy low high : ℕ) (v : ℕ) : Type 0 where
  pub spoken : v ≤ proxy
  pub declared : (low ≤ v) × (v ≤ high)
  pub greatest : (w : ℕ) → w ≤ proxy → w ≤ high → w ≤ v

lower : ℕ → ℕ → ℕ
lower a b = if ltb a b then a else b

negotiate-common :
    (proxy low high : ℕ)
    → 1 ≤ low
    → negotiate_version (pos proxy) (pos low) (pos high)
      ≡ (if leb low high && leb low proxy then some (pos (lower high proxy)) else none)
unfolding negotiate_version negotiate_range lower
negotiate-common proxy low high h = ground arith

-- For a middleware that declares versions from 1 on: if there is a common version the result is the
-- greatest one, and if there is none it is an error.
pub negotiate_version-IsGreatest :
    (proxy low high : ℕ)
    → 1 ≤ low
    → ((n : ℕ)
        → low ≤ n
        → n ≤ high
        → n ≤ proxy
        → (v : ℕ) × (negotiate_version (pos proxy) (pos low) (pos high) ≡ some (pos v))
          × IsGreatest proxy low high v)
      × (((n : ℕ) → low ≤ n → n ≤ high → ¬ (n ≤ proxy))
          → negotiate_version (pos proxy) (pos low) (pos high) ≡ none)
unfolding lower
negotiate_version-IsGreatest proxy low high h = (
  λ n a b c. (
    lower high proxy,
    negotiate-common proxy low high h ∙ ground (arith, a, b, c),
    record {
      spoken = ground arith;
      declared = (ground arith, ground arith);
      greatest = λ w d e. ground arith;
    },
  ),
  λ f. elim (Bool-cases (leb low high && leb low proxy)) [
    | inl q ↦ absurd (f low (omega arith) (ground arith) (ground arith))
    | inr q ↦ negotiate-common proxy low high h ∙ rw q
  ],
)
