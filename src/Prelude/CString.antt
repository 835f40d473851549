-- ===== src/Prelude/CString.antt =====
-- C strings as the lists of their bytes before the NUL: `strcmp`, `snprintf(dst, size, "%s", s)`.
use Prim.Native.Nat.{ℕ, ◌-◌, ◌≤◌}
use Prim.Native.Char.{code}
use Prim.Native.String.{String}
use mathlib.Core.Path.{◌≡◌, refl}
use mathlib.Core.Logic.{◌↔◌}
use mathlib.Core.Bool.{Bool, true, false, ◌&&◌}
use mathlib.Core.List.{List, [], ◌∷◌}
use native.Mathlib.Omega.{arith}
use sysdvr_webos.Prelude.Tests.{◌==◌, if◌then◌else◌}
use sysdvr_webos.Prelude.Lists.{length, take, length-take, take_all}

-- The bytes of an ASCII text.
abbrev pub codes : String → List ℕ
codes String.[] = []
codes (String.◌∷◌ c s) = code c ∷ codes s

-- `strcmp(a, b) == 0`
unfoldable pub str_eq : List ℕ → List ℕ → Bool
str_eq [] [] = true
str_eq [] (b ∷ bs) = false
str_eq (a ∷ as') [] = false
str_eq (a ∷ as') (b ∷ bs) = (a == b) && str_eq as' bs

-- `s[0] == '\0'`
abbrev pub is_empty : List ℕ → Bool
is_empty [] = true
is_empty (a ∷ as') = false

-- The C string at the start of a buffer that ends in a NUL or is filled up with them.
unfoldable pub text_of : List ℕ → List ℕ
text_of [] = []
text_of (b ∷ bs) = let rest = text_of bs in if b == 0 then [] else b ∷ rest

-- What `snprintf` leaves in an array of `size` bytes.
abbrev pub copy_text : ℕ → List ℕ → List ℕ
copy_text size s = take (size - 1) s

pub str_eq_refl : (s : List ℕ) → str_eq s s ≡ true
unfolding str_eq
str_eq_refl [] = refl
str_eq_refl (a ∷ s) = ground (arith, str_eq_refl s)

pub str_eq→eq : (s t : List ℕ) → str_eq s t ≡ true → s ≡ t
unfolding str_eq
str_eq→eq [] [] h = refl
str_eq→eq [] (b ∷ t) h = cc
str_eq→eq (a ∷ s) [] h = cc
str_eq→eq (a ∷ s) (b ∷ t) h = ground (arith, str_eq→eq s t)

pub str_eq_iff : (s t : List ℕ) → (str_eq s t ≡ true) ↔ (s ≡ t)
str_eq_iff s t = (str_eq→eq s t, λ e. rw e (str_eq_refl t))

pub length-copy_text : (size : ℕ) (s : List ℕ) → length (copy_text size s) ≤ size - 1
length-copy_text size s = omega (arith, length-take (size - 1) s)

-- A text that fits is copied whole.
pub copy_text_fits : (size : ℕ) (s : List ℕ) → length s ≤ size - 1 → copy_text size s ≡ s
copy_text_fits size s h = take_all (size - 1) s h
