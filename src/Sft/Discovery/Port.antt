-- ===== src/Sft/Discovery/Port.antt =====
-- src/sft_discovery.c, `parse_port`: the port of a beacon.
use sysdvr_webos.Prelude.{
  ℕ, suc, ◌+◌, ◌-◌, ◌*◌, ◌^◌, ◌<◌, ◌≡◌, ap, ◌∙◌, true, false, ◌||◌, Option, none, some, List, [],
  ◌∷◌, arith, ltb, ◌==◌, if◌then◌else◌, length,
}
use native.Mathlib.Nat.{pow-suc, add-mul, mul_assoc}
use sysdvr_webos.Sft.Discovery.{
  is_space, skip_spaces, is_digit, read_digits, accept_number, after_spaces, parse_port,
}

-- A number by its decimal digits.
abbrev pub value : List ℕ → ℕ
value [] = 0
value (d ∷ ds) = d * 10 ^ length ds + value ds

abbrev pub AreDigits : List ℕ → Type 0
AreDigits [] = Unit {0}
AreDigits (d ∷ ds) = (d < 10) × AreDigits ds

abbrev pub text_of_digits : List ℕ → List ℕ
text_of_digits [] = []
text_of_digits (d ∷ ds) = (48 + d) ∷ text_of_digits ds

-- The ports that there are.
abbrev pub in_range : ℕ → Option ℕ
in_range n = if (n == 0) || ltb 65535 n then none else some n

horner : (b d p q v : ℕ) → q ≡ p * 10 → (b * 10 + (48 + d - 48)) * p + v ≡ b * q + (d * p + v)
horner b d p q v e =
    let digit : 48 + d - 48 ≡ d = omega arith in
    let both : (b * 10 + (48 + d - 48)) * p ≡ b * 10 * p + d * p =
      ap (λ t. (b * 10 + t) * p) digit ∙ add-mul (b * 10) d p in
    let left : b * 10 * p ≡ b * q = mul_assoc b 10 p ∙ ap (λ t. b * t) (omega (arith, e)) in
    omega (arith, both, left)

digit_read : (d : ℕ) → d < 10 → is_digit (48 + d) ≡ true
digit_read d h = ground arith

read_digits_lem :
    (before : ℕ) (ds : List ℕ)
    → AreDigits ds
    → read_digits before (text_of_digits ds) ≡ (before * 10 ^ length ds + value ds, (length ds, []))
unfolding read_digits
read_digits_lem before [] a =
    let same : before ≡ before * 1 + 0 = omega arith in λ i. (same i, (0, []))
read_digits_lem before (d ∷ ds) a =
    let rest = read_digits_lem (before * 10 + (48 + d - 48)) ds a.1 in
    let sum =
      horner before d (10 ^ length ds) (10 ^ suc (length ds)) (value ds) (pow-suc 10 (length ds)) in
    let count : length ds + 1 ≡ suc (length ds) = omega arith in
    rw (digit_read d a.0, rest) (λ i. (sum i, (count i, [])))

accept_number_lem : (n k : ℕ) → accept_number (n, (suc k, [])) ≡ in_range n
unfolding accept_number
accept_number_lem n k = ground arith

no_space : (d : ℕ) → d < 10 → is_space (48 + d) ≡ false
no_space d h = ground arith

no_sign : (d : ℕ) → d < 10 → ((48 + d == 45) ≡ false) × ((48 + d == 43) ≡ false)
no_sign d h = (ground arith, ground arith)

-- A port that is written in decimal, with or without leading zeros, is read as its value, if that is
-- between 1 and 65535; otherwise it is refused.
pub parse_port_lem :
    (d : ℕ) (ds : List ℕ)
    → AreDigits (d ∷ ds)
    → parse_port (text_of_digits (d ∷ ds)) ≡ in_range (value (d ∷ ds))
unfolding parse_port skip_spaces after_spaces
parse_port_lem d ds a =
    let signs = no_sign d a.0 in
    let read = read_digits_lem 0 (d ∷ ds) a in
    let total : 0 * 10 ^ length (d ∷ ds) + value (d ∷ ds) ≡ value (d ∷ ds) = omega arith in
    rw (no_space d a.0, signs.0, signs.1)
      (ap accept_number read
        ∙ ap (λ n. accept_number (n, (suc (length ds), []))) total
        ∙ accept_number_lem (value (d ∷ ds)) (length ds))
