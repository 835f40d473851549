-- ===== src/Launch/Escape.antt =====
-- src/webos_main.c, `json_string`: a string that was written with escapes is read back.
use sysdvr_webos.Prelude.{
  ℕ, ◌-◌, ◌≤◌, ◌<◌, ◌≡◌, refl, sym, ap, ◌∙◌, inl, inr, true, false, ◌||◌, some, List, [], ◌∷◌, ◌++◌,
  arith, ◌==◌, if◌then◌else◌, Bool-cases, length, length-append,
}
use sysdvr_webos.Prelude.CString.{copy_text_fits}
use sysdvr_webos.Sft.Discovery.{skip_spaces}
use sysdvr_webos.Launch.{needle, strip_prefix, find_after, expect, push, read_value, json_string}

-- A quote and a backslash are written with a backslash before them.
abbrev pub escape : List ℕ → List ℕ
escape [] = []
escape (c ∷ cs) = if (c == 34) || (c == 92) then 92 ∷ (c ∷ escape cs) else c ∷ escape cs

read_end : (room : ℕ) (rest : List ℕ) → read_value room (34 ∷ rest) ≡ some []
unfolding read_value
read_end room [] = refl
read_end room (d ∷ ds) = refl

read_plain :
    (room c d : ℕ) (t ds v : List ℕ)
    → t ≡ d ∷ ds
    → (c == 34) ≡ false
    → (c == 92) ≡ false
    → 0 < room
    → read_value (room - 1) t ≡ some v
    → read_value room (c ∷ t) ≡ some (c ∷ v)
unfolding read_value
read_plain room c d t ds v e quote slash h r =
    let r' : read_value (room - 1) (d ∷ ds) ≡ some v = ap (read_value (room - 1)) (sym e) ∙ r in
    let some_room : (room == 0) ≡ false = ground arith in
    rw (e, quote, some_room, slash) (ap (push c) r')

read_escaped :
    (room c : ℕ) (t v : List ℕ)
    → 0 < room
    → read_value (room - 1) t ≡ some v
    → read_value room (92 ∷ (c ∷ t)) ≡ some (c ∷ v)
unfolding read_value
read_escaped room c t v h r =
    let some_room : (room == 0) ≡ false = ground arith in rw some_room (ap (push c) r)

-- A text with a quote behind it is not empty.
not_empty : (xs rest : List ℕ) → (d : ℕ) × (ds : List ℕ) × (xs ++ (34 ∷ rest) ≡ d ∷ ds)
not_empty [] rest = (34, rest, refl)
not_empty (x ∷ xs) rest = (x, xs ++ (34 ∷ rest), refl)

read_value-escape :
    (room : ℕ) (v rest : List ℕ)
    → length v ≤ room
    → read_value room (escape v ++ (34 ∷ rest)) ≡ some v
read_value-escape room [] rest h = read_end room rest
read_value-escape room (c ∷ v) rest h =
    let again = read_value-escape (room - 1) v rest (omega arith) in
    elim (Bool-cases ((c == 34) || (c == 92))) [
      | inl special ↦
          rw special (read_escaped room c (escape v ++ (34 ∷ rest)) v (omega arith) again)
      | inr plain ↦
          let (d, ds, e) = not_empty (escape v) rest in
          let quote : (c == 34) ≡ false = ground arith in
          let slash : (c == 92) ≡ false = ground arith in
          rw plain
            (read_plain room c d (escape v ++ (34 ∷ rest)) ds v e quote slash (omega arith) again)
    ]

strip_prefix-append : (word rest : List ℕ) → strip_prefix word (word ++ rest) ≡ some rest
unfolding strip_prefix
strip_prefix-append [] rest = refl
strip_prefix-append (c ∷ word) rest =
    let same : (c == c) ≡ true = ground arith in rw same (strip_prefix-append word rest)

-- `{`, the key, a colon and the value, each in quotes.
abbrev pub object : List ℕ → List ℕ → List ℕ → List ℕ
object key value rest =
    123 ∷ ((34 ∷ (key ++ (34 ∷ []))) ++ (58 ∷ (34 ∷ (escape value ++ (34 ∷ rest)))))

found : (word rest : List ℕ) → find_after (34 ∷ word) (123 ∷ ((34 ∷ word) ++ rest)) ≡ some rest
unfolding find_after strip_prefix
found word rest = rw (strip_prefix-append word rest) refl

json_steps :
    (json key p q r : List ℕ) (out_size : ℕ)
    → 0 < out_size
    → find_after (needle key) json ≡ some p
    → expect 58 (skip_spaces p) ≡ some q
    → expect 34 (skip_spaces q) ≡ some r
    → json_string json key out_size ≡ read_value (out_size - 1) r
unfolding json_string
json_steps json key p q r out_size h a b c =
    let some_room : (out_size == 0) ≡ false = ground arith in rw (some_room, a, b, c) refl

colon : (rest : List ℕ) → expect 58 (skip_spaces (58 ∷ rest)) ≡ some rest
unfolding skip_spaces
colon rest = refl

quote : (rest : List ℕ) → expect 34 (skip_spaces (34 ∷ rest)) ≡ some rest
unfolding skip_spaces
quote rest = refl

-- The first member of an object is read back, with its escapes undone, whatever the value and the
-- text behind it, when the key has at most 93 bytes and the value fits the array.
pub json_string-object :
    (key value rest : List ℕ) (out_size : ℕ)
    → length key ≤ 93
    → length value < out_size
    → json_string (object key value rest) key out_size ≡ some value
json_string-object key value rest out_size hk hv =
    let whole : needle key ≡ 34 ∷ (key ++ (34 ∷ [])) =
      copy_text_fits 96 (34 ∷ (key ++ (34 ∷ []))) (omega (arith, length-append key (34 ∷ []))) in
    let here = found (key ++ (34 ∷ [])) (58 ∷ (34 ∷ (escape value ++ (34 ∷ rest)))) in
    let copied = escape value ++ (34 ∷ rest) in
    let there = ap (λ n. find_after n (object key value rest)) whole ∙ here in
    json_steps (object key value rest) key (58 ∷ (34 ∷ copied)) (34 ∷ copied) copied out_size
      (omega arith) there (colon (34 ∷ copied)) (quote copied)
    ∙ read_value-escape (out_size - 1) value rest (omega arith)
