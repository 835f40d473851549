-- ===== src/Launch.antt =====
-- src/webos_main.c, `json_string`: a string among the launch parameters. A text is its bytes before
-- the NUL, and a pointer is not NULL.
pub mod Escape
pub mod Host
use sysdvr_webos.Prelude.{
  ℕ, zero, suc, ◌+◌, ◌-◌, ◌*◌, ◌/◌, ◌%◌, ◌^◌, ◌≤◌, ◌<◌, min, ◌≡◌, refl, sym, ap, ap₂, subst, ◌∙◌,
  ◌≢◌, ◌↔◌, ◌⊎◌, inl, inr, Bool, true, false, not, ◌&&◌, ◌||◌, Option, none, some, List, [], ◌∷◌,
  ◌++◌, map, append-nil, append_assoc, arith, ltb, leb, ◌==◌, ◌!=◌, if◌then◌else◌, ltb→lt, lt→ltb,
  ltb_false→le, le→ltb_false, leb→le, le→leb, leb_false→lt, lt→leb_false, ==_iff, Bool-cases,
  Option-cases, length, get_elem?, get_or, set, take, drop, replicate, length-append, length-take,
  length-drop, length-set, length-replicate, take_all, drop_all, take-append, drop-append,
  take-append_le, drop-append_le, take-append-drop, take_exact, drop_exact, drop-drop,
  drop-set_before, take-set_next, take_next, get_or-take,
}
use sysdvr_webos.Prelude.CString.{copy_text}
use sysdvr_webos.Sft.Discovery.{skip_spaces}

-- The array `needle`, and what `snprintf` leaves in it.
abbrev pub needle_size : ℕ
needle_size = 96

abbrev pub needle : List ℕ → List ℕ
needle key = copy_text needle_size (34 ∷ (key ++ (34 ∷ [])))

-- The text behind a prefix.
pub strip_prefix : List ℕ → List ℕ → Option (List ℕ)
strip_prefix [] text = some text
strip_prefix (p ∷ ps) [] = none
strip_prefix (p ∷ ps) (c ∷ cs) = let rest = strip_prefix ps cs in if p == c then rest else none

abbrev pub first_of : Option (List ℕ) → Option (List ℕ) → Option (List ℕ)
first_of none other = other
first_of (some text) other = some text

-- `strstr`, moved behind what it finds.
pub find_after : List ℕ → List ℕ → Option (List ℕ)
unfolding strip_prefix
find_after word [] = strip_prefix word []
find_after word (c ∷ cs) =
    let later = find_after word cs in first_of (strip_prefix word (c ∷ cs)) later

-- `if (*p++ != c) return false;`
abbrev pub expect : ℕ → List ℕ → Option (List ℕ)
expect c [] = none
expect c (d ∷ ds) = if d == c then some ds else none

abbrev pub push : ℕ → Option (List ℕ) → Option (List ℕ)
push c none = none
push c (some cs) = some (c ∷ cs)

-- The loop that copies the value; `room` is `out_size - 1 - n`. A backslash that is the last byte
-- stands for itself, and is then not followed by a quote.
pub read_value : ℕ → List ℕ → Option (List ℕ)
read_value room [] = none
read_value room (c ∷ []) = if c == 34 then some [] else none
read_value room (c ∷ (d ∷ cs)) =
    let escaped = push d (read_value (room - 1) cs) in
    let plain = push c (read_value (room - 1) (d ∷ cs)) in
    if c == 34 then some [] else if room == 0 then none else if c == 92 then escaped else plain

abbrev pub and_then : Option (List ℕ) → (List ℕ → Option (List ℕ)) → Option (List ℕ)
and_then none next = none
and_then (some text) next = next text

-- `none` is the result false.
pub json_string : List ℕ → List ℕ → ℕ → Option (List ℕ)
unfolding find_after skip_spaces read_value
json_string json key out_size =
    if out_size == 0
    then none
    else and_then (find_after (needle key) json) (λ p.
      and_then (expect 58 (skip_spaces p))
        (λ q. and_then (expect 34 (skip_spaces q)) (λ r. read_value (out_size - 1) r)))
