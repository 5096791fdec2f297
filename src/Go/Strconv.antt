-- ===== src/Go/Strconv.antt =====
-- Package strconv: Atoi over 64-bit integers, and the decimal text of a number.
use greyproxy.Prelude.{
  ℕ, zero, suc, ◌+◌, ◌-◌, ◌*◌, ◌/◌, ◌%◌, ◌^◌, ◌<◌, ◌≡◌, refl, ap, ◌∙◌, Bool, true, false, ◌&&◌,
  Option, none, some, [], ◌∷◌, ◌++◌, arith, ltb, leb, ◌==◌, nat_eq, if◌then◌else◌, ℤ, pos, negsuc,
  Bool-cases, inl, inr, any,
}
use greyproxy.Go.Strings.{Str, any-append}

pub data NumError : Type 0 where
  syntax range : NumError

unfoldable pub is_digit : ℕ → Bool
is_digit c = leb b'0' c && leb c b'9'

-- `ParseUint`: an overflow ends the loop before the characters behind it are read.
unfoldable pub parse_uint : ℕ → Str → ℕ × Option NumError
unfolding is_digit
parse_uint n [] = (n, none)
parse_uint n (c ∷ s) =
    let n' = n * 10 + (c - b'0') in
    let rest = parse_uint n' s in
    if is_digit c
    then if ltb n' (2 ^ 64) then rest else (2 ^ 64 - 1, some range)
    else (0, some syntax)

-- The bounds of an int64, with the value that Go returns beside the error.
abbrev signed : Bool → ℕ × Option NumError → ℤ × Option NumError
signed neg (n, some syntax) = (pos 0, some syntax)
signed true (n, _) =
    if leb n (2 ^ 63)
    then (if n == 0 then pos 0 else negsuc (n - 1), none)
    else (negsuc (2 ^ 63 - 1), some range)
signed false (n, _) = if ltb n (2 ^ 63) then (pos n, none) else (pos (2 ^ 63 - 1), some range)

abbrev number : Bool → Str → ℤ × Option NumError
number neg [] = (pos 0, some syntax)
number neg (c ∷ s) = signed neg (parse_uint 0 (c ∷ s))

unfoldable pub atoi : Str → ℤ × Option NumError
unfolding parse_uint
atoi [] = (pos 0, some syntax)
atoi (c ∷ s) =
    if c == b'-' then number true s else if c == b'+' then number false s else number false (c ∷ s)

itoa_fuel : ℕ → ℕ → Str
itoa_fuel zero n = []
itoa_fuel (suc f) n = elim (ltb n 10) [
  | true ↦ (b'0' + n) ∷ []
  | false ↦ itoa_fuel f (n / 10) ++ (b'0' + n % 10) ∷ []
]

-- `fmt.Sprintf("%d", n)` of a number that is not negative.
unfoldable pub itoa : ℕ → Str
unfolding itoa_fuel
itoa n = itoa_fuel (suc n) n

parse_uint-snoc :
    (a m : ℕ) (s : Str) (d : ℕ)
    → parse_uint a s ≡ (m, none)
    → d < 10
    → m * 10 + d < 2 ^ 64
    → parse_uint a (s ++ (b'0' + d) ∷ []) ≡ (m * 10 + d, none)
unfolding parse_uint
parse_uint-snoc a m [] d h hd hm = ground arith
parse_uint-snoc a m (c ∷ s) d h hd hm = ground (arith, parse_uint-snoc (a * 10 + (c - b'0')) m s d)

itoa_fuel_small : (f n : ℕ) → ltb n 10 ≡ true → itoa_fuel (suc f) n ≡ (b'0' + n) ∷ []
unfolding itoa_fuel
itoa_fuel_small f n q = rw (q, itoa_fuel)

itoa_fuel_large :
    (f n : ℕ)
    → ltb n 10 ≡ false
    → itoa_fuel (suc f) n ≡ itoa_fuel f (n / 10) ++ (b'0' + n % 10) ∷ []
unfolding itoa_fuel
itoa_fuel_large f n q = rw (q, itoa_fuel)

parse_uint-itoa_fuel : (f n : ℕ) → n < f → n < 2 ^ 64 → parse_uint 0 (itoa_fuel f n) ≡ (n, none)
unfolding parse_uint itoa_fuel
parse_uint-itoa_fuel zero n h b = absurd (omega arith)
parse_uint-itoa_fuel (suc f) n h b = elim (Bool-cases (ltb n 10)) [
  | inl q ↦ rw (itoa_fuel_small f n q) (ground arith)
  | inr q ↦
      let m : n / 10 * 10 + n % 10 ≡ n = omega arith in
      rw (itoa_fuel_large f n q) (
        parse_uint-snoc 0 (n / 10) (itoa_fuel f (n / 10)) (n % 10)
          (parse_uint-itoa_fuel f (n / 10) (ground arith) (ground arith)) (omega arith)
          (omega arith)
        ∙ ap (λ (k : ℕ). (k, none)) m)
]

parse_uint-itoa : (n : ℕ) → n < 2 ^ 64 → parse_uint 0 (itoa n) ≡ (n, none)
unfolding itoa
parse_uint-itoa n b = parse_uint-itoa_fuel (suc n) n (omega arith) b

-- The text of a number: a digit first, and nothing but digits.
itoa_fuel-digit :
    (f n : ℕ) → n < f → (c : ℕ) × (s : Str) × (itoa_fuel f n ≡ c ∷ s) × (is_digit c ≡ true)
unfolding is_digit
itoa_fuel-digit zero n h = elim h [ ]
itoa_fuel-digit (suc f) n h = elim (Bool-cases (ltb n 10)) [
  | inl q ↦ (b'0' + n, [], itoa_fuel_small f n q, ground arith)
  | inr q ↦
      let (c, s, e, d) = itoa_fuel-digit f (n / 10) (ground arith) in
      (c, s ++ (b'0' + n % 10) ∷ [], rw (itoa_fuel_large f n q, e), d)
]

pub itoa-digit : (n : ℕ) → (c : ℕ) × (s : Str) × (itoa n ≡ c ∷ s) × (is_digit c ≡ true)
unfolding itoa
itoa-digit n = itoa_fuel-digit (suc n) n (omega arith)

-- A number below 2 ^ 63 is read back from its decimal text.
pub atoi-itoa : (n : ℕ) → n < 2 ^ 63 → atoi (itoa n) ≡ (pos n, none)
unfolding atoi is_digit
atoi-itoa n b =
    let (c, s, e, d) = itoa-digit n in
    let p = parse_uint-itoa n (omega arith) in rw e (ground (arith, rw e at p))

-- A test that fails on every digit fails on the decimal text.
module _ (f : ℕ → Bool) (off_digits : (c : ℕ) → is_digit c ≡ true → f c ≡ false) where
  itoa_fuel-any : (k n : ℕ) → any f (itoa_fuel k n) ≡ false
  unfolding any itoa_fuel
  itoa_fuel-any zero n = refl
  itoa_fuel-any (suc k) n = elim (Bool-cases (ltb n 10)) [
    | inl q ↦
        rw (itoa_fuel_small k n q)
          (ground (arith, off_digits (b'0' + n) (unfold is_digit in ground arith)))
    | inr q ↦
        rw (itoa_fuel_large k n q, any-append f, itoa_fuel-any k (n / 10))
          (ground (arith, off_digits (b'0' + n % 10) (unfold is_digit in ground arith)))
  ]

  pub any-itoa : (n : ℕ) → any f (itoa n) ≡ false
  unfolding itoa
  any-itoa n = itoa_fuel-any (suc n) n
