-- ===== src/Prelude/Words/Bits.antt =====
-- What `&` and `|` are in arithmetic, for the masks that the program uses.
use Prim.Native.Nat.{
  ℕ, zero, suc, ◌+◌, ◌-◌, ◌*◌, ◌/◌, ◌%◌, ◌^◌, ◌≤◌, ◌<◌, min, max, bit_and, bit_or, digits,
  bit_and-bitwise, bit_or-bitwise,
}
use mathlib.Core.Path.{◌≡◌, refl, sym, ap, ap₂, ◌∙◌}
use mathlib.Core.Bool.{Bool, true, false}
use mathlib.Core.List.{List, [], ◌∷◌}
use native.Mathlib.Nat.{pow-suc, one-le-pow}
use native.Mathlib.Omega.{arith}

-- The native operations go through the binary digits of the first number, with fuel: `rest` is what
-- stands above its digits, and `join` joins two digits.
module _ (rest : ℕ → ℕ) (join : ℕ → ℕ → ℕ) where
  no_digits : (fuel y : ℕ) → digits rest join fuel 0 y ≡ rest y
  no_digits zero y = refl
  no_digits (suc fuel) y = refl

  any_fuel : (k l x y : ℕ) → x ≤ k → x ≤ l → digits rest join k x y ≡ digits rest join l x y
  any_fuel k l zero y hk hl = no_digits k y ∙ sym (no_digits l y)
  any_fuel zero l (suc x) y hk hl = absurd (omega arith)
  any_fuel (suc k) zero (suc x) y hk hl = absurd (omega arith)
  any_fuel (suc k) (suc l) (suc x) y hk hl =
      let half : suc x / 2 ≤ k = omega arith in
      let half' : suc x / 2 ≤ l = omega arith in
      omega (arith, any_fuel k l (suc x / 2) (y / 2) half half')

  -- The lowest digit, and the digits above it.
  lowest_digit :
      (x y : ℕ)
      → digits rest join (suc x) (suc x) y
        ≡ digits rest join (suc x / 2) (suc x / 2) (y / 2) * 2 + join (suc x % 2) (y % 2)
  lowest_digit x y =
      let half : suc x / 2 ≤ x = omega arith in
      omega (arith, any_fuel x (suc x / 2) (suc x / 2) (y / 2) half (omega arith))

pub bit_and_step : (a b : ℕ) → bit_and a b ≡ bit_and (a / 2) (b / 2) * 2 + min (a % 2) (b % 2)
bit_and_step zero b =
    let whole = bit_and-bitwise 0 b in
    let half = bit_and-bitwise 0 (b / 2) in omega (arith, whole, half)
bit_and_step (suc a) b =
    let whole = bit_and-bitwise (suc a) b in
    let half = bit_and-bitwise (suc a / 2) (b / 2) in
    omega (arith, whole, half, lowest_digit (λ y. zero) min a b)

no_common_digit : (k a : ℕ) → a ≤ k → digits (λ y. zero) min k a 0 ≡ 0
no_common_digit k zero h = no_digits (λ y. zero) min k 0
no_common_digit zero (suc a) h = absurd (omega arith)
no_common_digit (suc k) (suc a) h =
    let above = no_common_digit k (suc a / 2) (omega arith) in omega (arith, above)

pub bit_and-zero : (a : ℕ) → bit_and a 0 ≡ 0
bit_and-zero a = bit_and-bitwise a 0 ∙ no_common_digit a a (omega arith)

mod-double : (a p : ℕ) → 1 ≤ p → a % (p * 2) ≡ a / 2 % p * 2 + a % 2
mod-double a p h = grind arith

-- A mask of ones keeps the low digits.
bit_and-ones : (k a : ℕ) → bit_and a (2 ^ k - 1) ≡ a % 2 ^ k
bit_and-ones zero a = omega (arith, bit_and-zero a)
bit_and-ones (suc k) a =
    let double : 2 ^ suc k ≡ 2 ^ k * 2 = pow-suc 2 k in
    let positive : 1 ≤ 2 ^ k = one-le-pow k 2 (omega arith) in
    let half : (2 ^ suc k - 1) / 2 ≡ 2 ^ k - 1 = omega arith in
    omega (
      arith,
      bit_and_step a (2 ^ suc k - 1),
      ap (bit_and (a / 2)) half,
      bit_and-ones k (a / 2),
      mod-double a (2 ^ k) positive,
      ap (λ m. a % m) double,
    )

pub bit_or_step : (a b : ℕ) → bit_or a b ≡ bit_or (a / 2) (b / 2) * 2 + max (a % 2) (b % 2)
bit_or_step zero b =
    let whole = bit_or-bitwise 0 b in
    let half = bit_or-bitwise 0 (b / 2) in omega (arith, whole, half)
bit_or_step (suc a) b =
    let whole = bit_or-bitwise (suc a) b in
    let half = bit_or-bitwise (suc a / 2) (b / 2) in
    omega (arith, whole, half, lowest_digit (λ y. y) max a b)

zero_of_lt : (a : ℕ) → a < 1 → a ≡ 0
zero_of_lt a h = omega arith

-- Parts that share no digit add up.
pub bit_or_disjoint : (k a b : ℕ) → a < 2 ^ k → bit_or a (b * 2 ^ k) ≡ a + b * 2 ^ k
bit_or_disjoint zero a b h =
    omega (arith, ap (λ t. bit_or t (b * 1)) (zero_of_lt a h), bit_or-bitwise 0 (b * 1))
bit_or_disjoint (suc k) a b h =
    let double : b * 2 ^ suc k ≡ b * 2 ^ k * 2 = omega (arith, ap (λ t. b * t) (pow-suc 2 k)) in
    let half : b * 2 ^ suc k / 2 ≡ b * 2 ^ k = omega arith in
    omega (
      arith,
      pow-suc 2 k,
      bit_or_step a (b * 2 ^ suc k),
      ap (bit_or (a / 2)) half,
      bit_or_disjoint k (a / 2) b (omega (arith, pow-suc 2 k)),
    )

pub bit_and_low_byte : (a : ℕ) → bit_and a 0xff ≡ a % 256
bit_and_low_byte a = bit_and-ones 8 a

pub bit_and_nal : (a : ℕ) → bit_and a 0x1f ≡ a % 32
bit_and_nal a = bit_and-ones 5 a

pub bit_and_1 : (a : ℕ) → bit_and a 1 ≡ a % 2
bit_and_1 a = bit_and-ones 1 a

pub bit_and_2 : (a : ℕ) → bit_and a 0x02 ≡ a / 2 % 2 * 2
bit_and_2 a = omega (arith, bit_and_step a 2, bit_and_1 (a / 2))

pub bit_and_4 : (a : ℕ) → bit_and a 0x04 ≡ a / 4 % 2 * 4
bit_and_4 a = omega (arith, bit_and_step a 4, bit_and_2 (a / 2))

pub bit_and_8 : (a : ℕ) → bit_and a 0x08 ≡ a / 8 % 2 * 8
bit_and_8 a = omega (arith, bit_and_step a 8, bit_and_4 (a / 2))

pub bit_and_16 : (a : ℕ) → bit_and a 0x10 ≡ a / 16 % 2 * 16
bit_and_16 a = omega (arith, bit_and_step a 16, bit_and_8 (a / 2))

pub bit_and_32 : (a : ℕ) → bit_and a 0x20 ≡ a / 32 % 2 * 32
bit_and_32 a = omega (arith, bit_and_step a 32, bit_and_16 (a / 2))

pub bit_and_0x18 : (a : ℕ) → bit_and a 0x18 ≡ a / 8 % 2 * 8 + a / 16 % 2 * 16
bit_and_0x18 a = omega (
  arith,
  bit_and_step a 24,
  bit_and_step (a / 2) 12,
  bit_and_step (a / 2 / 2) 6,
  bit_and_step (a / 2 / 2 / 2) 3,
  bit_and_1 (a / 2 / 2 / 2 / 2),
)

abbrev digit : Bool → ℕ
digit true = 1
digit false = 0

-- A mask from its low digits, lowest first, and the number above them.
abbrev mask : List Bool → ℕ → ℕ
mask [] hi = hi
mask (b ∷ bs) hi = mask bs hi * 2 + digit b

abbrev pick : Bool → ℕ → ℕ
pick true x = x
pick false x = 0

pick-min : (b : Bool) (a : ℕ) → min (a % 2) (digit b) ≡ pick b (a % 2)
pick-min true a = omega arith
pick-min false a = omega arith

abbrev masked : List Bool → ℕ → ℕ → ℕ
masked [] hi a = bit_and a hi
masked (b ∷ bs) hi a = masked bs hi (a / 2) * 2 + pick b (a % 2)

bit_and-mask : (bs : List Bool) (hi a : ℕ) → bit_and a (mask bs hi) ≡ masked bs hi a
bit_and-mask [] hi a = refl
bit_and-mask (b ∷ bs) hi a =
    let upper : mask (b ∷ bs) hi / 2 ≡ mask bs hi = half b in
    let lower : mask (b ∷ bs) hi % 2 ≡ digit b = last b in
    bit_and_step a (mask (b ∷ bs) hi)
    ∙ ap₂ (λ u l. bit_and (a / 2) u * 2 + min (a % 2) l) upper lower
    ∙ ap₂ (λ u l. u * 2 + l) (bit_and-mask bs hi (a / 2)) (pick-min b a)
  where
    half : (b : Bool) → (mask bs hi * 2 + digit b) / 2 ≡ mask bs hi
    half true = omega arith
    half false = omega arith

    last : (b : Bool) → (mask bs hi * 2 + digit b) % 2 ≡ digit b
    last true = omega arith
    last false = omega arith

abbrev o : Bool
o = false

abbrev i : Bool
i = true

-- The complement of 0x7e, for a 16-bit word.
pub bit_and_0xffffff81 : (a : ℕ) → a < 2 ^ 16 → bit_and a 0xffffff81 ≡ a / 128 * 128 + a % 2
bit_and_0xffffff81 a h = omega (
  arith,
  bit_and-mask (i ∷ o ∷ o ∷ o ∷ o ∷ o ∷ o ∷ []) 0x1ffffff a,
  bit_and-ones 25 (a / 2 / 2 / 2 / 2 / 2 / 2 / 2),
)

-- The complement of 0x66, for a 16-bit word.
pub bit_and_0xffffff99 :
    (a : ℕ)
    → a < 2 ^ 16
    → bit_and a 0xffffff99 ≡ a / 128 * 128 + a / 16 % 2 * 16 + a / 8 % 2 * 8 + a % 2
bit_and_0xffffff99 a h = omega (
  arith,
  bit_and-mask (i ∷ o ∷ o ∷ i ∷ i ∷ o ∷ o ∷ []) 0x1ffffff a,
  bit_and-ones 25 (a / 2 / 2 / 2 / 2 / 2 / 2 / 2),
)

-- The complement of 0x80, as a 16-bit word.
pub bit_and_0xff7f : (a : ℕ) → bit_and a 0xff7f ≡ a % 128 + a / 256 % 256 * 256
bit_and_0xff7f a = omega (
  arith,
  bit_and-mask (i ∷ i ∷ i ∷ i ∷ i ∷ i ∷ i ∷ o ∷ []) 0xff a,
  bit_and-ones 8 (a / 2 / 2 / 2 / 2 / 2 / 2 / 2 / 2),
)
