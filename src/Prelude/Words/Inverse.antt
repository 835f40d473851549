-- ===== src/Prelude/Words/Inverse.antt =====
-- The words that bytes make have those bytes: the readers of `Words` lose nothing.
use Prim.Native.Nat.{ℕ, zero, suc, ◌+◌, ◌/◌, ◌%◌, ◌^◌, ◌≤◌, ◌<◌}
use mathlib.Core.Path.{◌≡◌, refl, ap, ap₂, ◌∙◌}
use mathlib.Core.Bool.{Bool, true, ◌&&◌}
use sysdvr_webos.Prelude.Tests.{ltb}
use mathlib.Core.List.{List, [], ◌∷◌, ◌++◌}
use native.Mathlib.Omega.{arith}
use sysdvr_webos.Prelude.Lists.{length, take, drop, length-drop}
use sysdvr_webos.Prelude.Words.{
  AreBytes, le32, le64, read_le32, read_le64, read_le32_sum, read_le64_sum, at,
}

pub AreBytes-drop : (n : ℕ) (p : List ℕ) → AreBytes p → AreBytes (drop n p)
AreBytes-drop zero p h = h
AreBytes-drop (suc n) [] h = h
AreBytes-drop (suc n) (b ∷ p) h = AreBytes-drop n p h.1

pub AreBytes-take : (n : ℕ) (p : List ℕ) → AreBytes p → AreBytes (take n p)
AreBytes-take zero p h = tt
AreBytes-take (suc n) [] h = h
AreBytes-take (suc n) (b ∷ p) h = (h.0, AreBytes-take n p h.1)

pub AreBytes-front : (xs ys : List ℕ) → AreBytes (xs ++ ys) → AreBytes xs
AreBytes-front [] ys h = tt
AreBytes-front (x ∷ xs) ys h = (h.0, AreBytes-front xs ys h.1)

pub AreBytes-back : (xs ys : List ℕ) → AreBytes (xs ++ ys) → AreBytes ys
AreBytes-back [] ys h = h
AreBytes-back (x ∷ xs) ys h = AreBytes-back xs ys h.1

-- The first four bytes determine the word, and it them.
pub le32-read_le32 :
    (p : List ℕ)
    → AreBytes p
    → 4 ≤ length p
    → (le32 (read_le32 p) ≡ take 4 p) × (read_le32 p < 2 ^ 32)
le32-read_le32 [] h l = absurd (omega arith)
le32-read_le32 (a ∷ []) h l = absurd (omega arith)
le32-read_le32 (a ∷ b ∷ []) h l = absurd (omega arith)
le32-read_le32 (a ∷ b ∷ c ∷ []) h l = absurd (omega arith)
le32-read_le32 (a ∷ b ∷ c ∷ d ∷ rest) (ha, (hb, (hc, (hd, h)))) l =
    rw (read_le32_sum a b c d rest ha hb hc hd) (ground arith, omega arith)

take-four-four : (p : List ℕ) → take 4 p ++ take 4 (drop 4 p) ≡ take 8 p
take-four-four [] = refl
take-four-four (a ∷ []) = refl
take-four-four (a ∷ b ∷ []) = refl
take-four-four (a ∷ b ∷ c ∷ []) = refl
take-four-four (a ∷ b ∷ c ∷ d ∷ p) = refl

pub le64-read_le64 :
    (p : List ℕ)
    → AreBytes p
    → 8 ≤ length p
    → (le64 (read_le64 p) ≡ take 8 p) × (read_le64 p < 2 ^ 64)
le64-read_le64 p h l =
    let lo = le32-read_le32 p h (omega arith) in
    let hi = le32-read_le32 (drop 4 p) (AreBytes-drop 4 p h) (omega (arith, length-drop 4 p)) in
    let sum = read_le64_sum (read_le32 p) (read_le32 (drop 4 p)) p lo.1 hi.1 refl refl in
    let low : read_le64 p % 2 ^ 32 ≡ read_le32 p = omega (arith, sum, lo.1, hi.1) in
    let high : read_le64 p / 2 ^ 32 ≡ read_le32 (drop 4 p) = omega (arith, sum, lo.1, hi.1) in
    (
      ap₂ (λ a b. le32 a ++ le32 b) low high ∙ ap₂ ◌++◌ lo.0 hi.0 ∙ take-four-four p,
      omega (arith, sum, lo.1, hi.1),
    )

pub at-drop : (n i : ℕ) (p : List ℕ) → at (drop n p) i ≡ at p (n + i)
at-drop zero i p = ap (at p) (omega arith)
at-drop (suc n) i [] = refl
at-drop (suc n) i (b ∷ p) = at-drop n i p ∙ ap (at (b ∷ p)) step
  where
    step : suc (n + i) ≡ suc n + i
    step = omega arith

pub two_bytes : (p : List ℕ) → length p ≡ 2 → at p 0 ∷ at p 1 ∷ [] ≡ p
two_bytes [] e = absurd (omega arith)
two_bytes (a ∷ []) e = absurd (omega arith)
two_bytes (a ∷ b ∷ []) e = refl
two_bytes (a ∷ b ∷ c ∷ p) e = absurd (omega arith)

abbrev pub all_bytes : List ℕ → Bool
all_bytes [] = true
all_bytes (x ∷ xs) = ltb x 256 && all_bytes xs

pub all_bytes-AreBytes : (xs : List ℕ) → all_bytes xs ≡ true → AreBytes xs
all_bytes-AreBytes [] e = tt
all_bytes-AreBytes (x ∷ xs) e = (ground arith, all_bytes-AreBytes xs (ground arith))
