-- ===== src/Prelude/Words.antt =====
-- Words of fixed width as native numbers: the casts, shifts and bit operations that the C sources
-- use, and the little-endian readers and writers that src/protocol.c and src/sft_protocol.c share.
pub mod Bits
pub mod Inverse
use Prim.Native.Nat.{ℕ, ◌+◌, ◌*◌, ◌/◌, ◌%◌, ◌^◌, ◌≤◌, ◌<◌, zero, suc, bit_and, bit_or}
use mathlib.Core.Path.{◌≡◌, refl, ap, ◌∙◌}
use mathlib.Core.Bool.{Bool}
use mathlib.Core.List.{List, [], ◌∷◌, ◌++◌}
use native.Mathlib.Omega.{arith}
use sysdvr_webos.Prelude.Tests.{◌!=◌}
use sysdvr_webos.Prelude.Lists.{get_or, drop}
use Bits.{bit_or_disjoint, bit_and_low_byte}

abbrev pub u8 : ℕ → ℕ
u8 n = n % 2 ^ 8

abbrev pub u16 : ℕ → ℕ
u16 n = n % 2 ^ 16

abbrev pub u32 : ℕ → ℕ
u32 n = n % 2 ^ 32

abbrev pub u64 : ℕ → ℕ
u64 n = n % 2 ^ 64

-- `x << k` and `x >> k`, before a cast.
infixl 75 ◌<<<◌ ◌>>>◌
abbrev pub ◌<<<◌ : ℕ → ℕ → ℕ
x <<< k = x * 2 ^ k

abbrev pub ◌>>>◌ : ℕ → ℕ → ℕ
x >>> k = x / 2 ^ k

-- `(flags & mask) != 0u`
unfoldable pub any_set : ℕ → ℕ → Bool
any_set flags mask = bit_and flags mask != 0

-- The byte of an array; an index out of range does not occur in the code.
abbrev pub at : List ℕ → ℕ → ℕ
at p i = get_or p i 0

unfoldable pub read_le16 : List ℕ → ℕ
read_le16 p = bit_or (at p 0) (u16 (at p 1 <<< 8))

unfoldable pub read_le32 : List ℕ → ℕ
read_le32 p =
    bit_or (bit_or (bit_or (at p 0) (u32 (at p 1 <<< 8))) (u32 (at p 2 <<< 16)))
      (u32 (at p 3 <<< 24))

unfoldable pub read_le64 : List ℕ → ℕ
unfolding read_le32
read_le64 p = let lo = read_le32 p in let hi = read_le32 (drop 4 p) in bit_or lo (u64 (hi <<< 32))

unfoldable pub write_le32 : ℕ → List ℕ
write_le32 v =
    u8 (bit_and v 0xff)
    ∷ u8 (bit_and (v >>> 8) 0xff)
    ∷ u8 (bit_and (v >>> 16) 0xff)
    ∷ u8 (bit_and (v >>> 24) 0xff)
    ∷ []

-- The bytes of a word, lowest first, by arithmetic.
abbrev pub le16 : ℕ → List ℕ
le16 v = v % 256 ∷ v / 256 % 256 ∷ []

abbrev pub le32 : ℕ → List ℕ
le32 v = v % 256 ∷ v / 256 % 256 ∷ v / 65536 % 256 ∷ v / 16777216 % 256 ∷ []

abbrev pub le64 : ℕ → List ℕ
le64 v = le32 (v % 2 ^ 32) ++ le32 (v / 2 ^ 32)

-- Every entry is a byte.
abbrev pub AreBytes : List ℕ → Type 0
AreBytes [] = Unit {0}
AreBytes (b ∷ bs) = (b < 256) × AreBytes bs

pub AreBytes-append : (xs ys : List ℕ) → AreBytes xs → AreBytes ys → AreBytes (xs ++ ys)
AreBytes-append [] ys hx hy = hy
AreBytes-append (x ∷ xs) ys hx hy = (hx.0, AreBytes-append xs ys hx.1 hy)

read_le16_sum :
    (a b : ℕ) (rest : List ℕ) → a < 256 → b < 256 → read_le16 (a ∷ b ∷ rest) ≡ a + b * 256
unfolding read_le16
read_le16_sum a b rest ha hb = ap (bit_or a) (omega arith) ∙ bit_or_disjoint 8 a b ha

pub read_le32_sum :
    (a b c d : ℕ) (rest : List ℕ)
    → a < 256
    → b < 256
    → c < 256
    → d < 256
    → read_le32 (a ∷ b ∷ c ∷ d ∷ rest) ≡ a + b * 256 + c * 65536 + d * 16777216
unfolding read_le32
read_le32_sum a b c d rest ha hb hc hd = rw (
  no_wrap b 256 (omega arith),
  no_wrap c 65536 (omega arith),
  no_wrap d 16777216 (omega arith),
  bit_or_disjoint 8 a b ha,
  bit_or_disjoint 16 (a + b * 256) c (omega arith),
  bit_or_disjoint 24 (a + b * 256 + c * 65536) d (omega arith),
)
  where
    no_wrap : (x k : ℕ) → x * k < 4294967296 → x * k % 4294967296 ≡ x * k
    no_wrap x k h = omega arith

-- A word written in little-endian order is read back.
pub read_le32-le32 : (v : ℕ) (rest : List ℕ) → v < 2 ^ 32 → read_le32 (le32 v ++ rest) ≡ v
read_le32-le32 v rest h = omega (
  arith,
  read_le32_sum (v % 256) (v / 256 % 256) (v / 65536 % 256) (v / 16777216 % 256) rest (omega arith)
      (omega arith) (omega arith) (omega arith),
)

pub read_le16-le16 : (v : ℕ) (rest : List ℕ) → v < 2 ^ 16 → read_le16 (le16 v ++ rest) ≡ v
read_le16-le16 v rest h =
    omega (arith, read_le16_sum (v % 256) (v / 256 % 256) rest (omega arith) (omega arith))

pub write_le32_lem : (v : ℕ) → write_le32 v ≡ le32 v
unfolding write_le32
write_le32_lem v = ground (
  arith,
  bit_and_low_byte v,
  bit_and_low_byte (v / 256),
  bit_and_low_byte (v / 65536),
  bit_and_low_byte (v / 16777216),
)

pub read_le64_sum :
    (lo hi : ℕ) (p : List ℕ)
    → lo < 2 ^ 32
    → hi < 2 ^ 32
    → read_le32 p ≡ lo
    → read_le32 (drop 4 p) ≡ hi
    → read_le64 p ≡ lo + hi * 2 ^ 32
unfolding read_le64
read_le64_sum lo hi p hlo hhi elo ehi =
    let no_wrap : hi * 4294967296 % 18446744073709551616 ≡ hi * 4294967296 = omega arith in
    rw (elo, ehi, no_wrap, bit_or_disjoint 32 lo hi hlo)

pub read_le64-le64 : (v : ℕ) (rest : List ℕ) → v < 2 ^ 64 → read_le64 (le64 v ++ rest) ≡ v
read_le64-le64 v rest h = omega (
  arith,
  read_le64_sum (v % 2 ^ 32) (v / 2 ^ 32) (le64 v ++ rest) (omega arith) (omega arith)
      (read_le32-le32 (v % 2 ^ 32) (le32 (v / 2 ^ 32) ++ rest) (omega arith))
      (read_le32-le32 (v / 2 ^ 32) rest (omega arith)),
)
