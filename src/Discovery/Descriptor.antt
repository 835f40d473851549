-- ===== src/Discovery/Descriptor.antt =====
-- src/discovery.c, `parse_descriptor`: the announcements it accepts.
use sysdvr_webos.Prelude.{
  ℕ, zero, suc, ◌-◌, ◌≤◌, ◌≡◌, refl, sym, ap, subst, ◌∙◌, ◌⊎◌, inl, inr, true, false, Option, some,
  List, [], ◌∷◌, ◌++◌, append-nil, arith, ◌==◌, Bool-cases, length, take, take-append,
}
use sysdvr_webos.Prelude.CString.{codes, str_eq, str_eq→eq, str_eq_refl, copy_text, text_of}
use sysdvr_webos.Device.{sysdvr, protocol_size}
use sysdvr_webos.Discovery.{supported_protocol, split_field, take_field, fields, parse_descriptor}

-- A text that does not hold a byte.
abbrev pub Free : ℕ → List ℕ → Type 0
Free c [] = Unit {0}
Free c (x ∷ xs) = ((x == c) ≡ false) × Free c xs

Free-append : (c : ℕ) (xs ys : List ℕ) → Free c xs → Free c ys → Free c (xs ++ ys)
Free-append c [] ys f g = g
Free-append c (x ∷ xs) ys f g = (f.0, Free-append c xs ys f.1 g)

-- Nothing, or a NUL and more.
abbrev pub Ends : List ℕ → Type 0
Ends [] = Unit {0}
Ends (x ∷ xs) = x ≡ 0

text_of-ended : (n : ℕ) (tail : List ℕ) → Ends tail → text_of (take n tail) ≡ []
unfolding text_of
text_of-ended zero tail e = refl
text_of-ended (suc n) [] e = refl
text_of-ended (suc n) (x ∷ xs) e = rw e refl

text_of-append : (xs ys : List ℕ) → Free 0 xs → text_of (xs ++ ys) ≡ xs ++ text_of ys
unfolding text_of
text_of-append [] ys f = refl
text_of-append (x ∷ xs) ys f = rw f.0 (ap (◌∷◌ x) (text_of-append xs ys f.1))

received :
    (text tail : List ℕ)
    → Free 0 text
    → Ends tail
    → length text ≤ 511
    → text_of (take 511 (text ++ tail)) ≡ text
received text tail f e h =
    ap text_of (take-append 511 text tail h)
    ∙ text_of-append text (take (511 - length text) tail) f
    ∙ ap (◌++◌ text) (text_of-ended (511 - length text) tail e)
    ∙ append-nil text

split_field-append :
    (field rest : List ℕ)
    → Free 124 field
    → split_field (field ++ (124 ∷ rest)) ≡ (field, some rest)
unfolding split_field
split_field-append [] rest f = refl
split_field-append (x ∷ field) rest f = rw (f.0, split_field-append field rest f.1) refl

take_field-append :
    (field rest : List ℕ)
    → Free 124 field
    → take_field (some (field ++ (124 ∷ rest))) ≡ (some field, some rest)
unfolding take_field split_field
take_field-append [] rest f = refl
take_field-append (x ∷ field) rest f = rw (f.0, split_field-append field rest f.1) refl

supported_cases : (p : List ℕ) → supported_protocol p ≡ true → (p ≡ codes "02") ⊎ (p ≡ codes "03")
unfolding supported_protocol
supported_cases p e = elim (Bool-cases (str_eq p (codes "02"))) [
  | inl two ↦ inl (str_eq→eq p (codes "02") two)
  | inr other ↦ inr (str_eq→eq p (codes "03") (rw other at e))
]

supported-Free :
    (c : ℕ) (p : List ℕ)
    → Free c (codes "02")
    → Free c (codes "03")
    → supported_protocol p ≡ true
    → Free c p
supported-Free c p two three e = elim (supported_cases p e) [
  | inl same ↦ subst (Free c) (sym same) two
  | inr same ↦ subst (Free c) (sym same) three
]

-- What the SysDVR sysmodule announces.
abbrev pub announcement : List ℕ → List ℕ → List ℕ → List ℕ
announcement version protocol serial =
    codes "SysDVR" ++ (124 ∷ (version ++ (124 ∷ (protocol ++ (124 ∷ serial)))))

announcement-Free :
    (version protocol serial : List ℕ)
    → Free 0 version
    → supported_protocol protocol ≡ true
    → Free 0 serial
    → Free 0 (announcement version protocol serial)
announcement-Free version protocol serial v p s =
    let proto = supported-Free 0 protocol (refl, (refl, tt)) (refl, (refl, tt)) p in
    Free-append 0 (codes "SysDVR") (124 ∷ (version ++ (124 ∷ (protocol ++ (124 ∷ serial)))))
      (refl, (refl, (refl, (refl, (refl, (refl, tt))))))
      (
        refl,
        Free-append 0 version (124 ∷ (protocol ++ (124 ∷ serial))) v
            (refl, Free-append 0 protocol (124 ∷ serial) proto (refl, s)),
      )

fields_steps :
    (text : List ℕ) (m v p c c' c'' : Option (List ℕ))
    → take_field (some text) ≡ (m, c)
    → take_field c ≡ (v, c')
    → take_field c' ≡ (p, c'')
    → fields text ≡ ((m, v), (p, c''))
unfolding fields
fields_steps text m v p c c' c'' first second third = rw (first, second, third) refl

positive : (n : ℕ) → (suc n == 0) ≡ false
positive n = ground arith

fields-announcement :
    (version protocol serial : List ℕ)
    → Free 124 version
    → Free 124 protocol
    → fields (announcement version protocol serial)
      ≡ ((some (codes "SysDVR"), some version), (some protocol, some serial))
fields-announcement version protocol serial v p =
    let first =
      take_field-append (codes "SysDVR") (version ++ (124 ∷ (protocol ++ (124 ∷ serial))))
        (refl, (refl, (refl, (refl, (refl, (refl, tt)))))) in
    let second = take_field-append version (protocol ++ (124 ∷ serial)) v in
    let third = take_field-append protocol serial p in
    fields_steps (announcement version protocol serial) (some (codes "SysDVR")) (some version)
      (some protocol) (some (version ++ (124 ∷ (protocol ++ (124 ∷ serial)))))
      (some (protocol ++ (124 ∷ serial))) (some serial) first second third

short_protocol : (p : List ℕ) → supported_protocol p ≡ true → copy_text protocol_size p ≡ p
short_protocol p e = elim (supported_cases p e) [
  | inl same ↦ rw same refl
  | inr same ↦ rw same refl
]

-- An announcement of a supported protocol, followed by nothing or by a NUL and more, is parsed back:
-- the device has the sender's address and the announced version, protocol and serial, the version
-- and the serial cut to 31 and 95 bytes. The version holds no separator, the version and the serial
-- hold no NUL, and all of it is at most 511 bytes.
pub parse_descriptor-announcement :
    (version protocol serial tail address : List ℕ)
    → Free 124 version
    → Free 0 version
    → supported_protocol protocol ≡ true
    → Free 0 serial
    → Ends tail
    → length (announcement version protocol serial) ≤ 511
    → parse_descriptor (announcement version protocol serial ++ tail) (some address)
      ≡ some (record {
        source = sysdvr;
        host = address;
        client_version = take 31 version;
        protocol = protocol;
        serial = take 95 serial;
      })
unfolding parse_descriptor
parse_descriptor-announcement version protocol serial tail address v v0 p s0 e h =
    let text =
      received (announcement version protocol serial) tail
        (announcement-Free version protocol serial v0 p s0) e h in
    let split =
      fields-announcement version protocol serial v
        (supported-Free 124 protocol (refl, (refl, tt)) (refl, (refl, tt)) p) in
    rw (text, split, p, short_protocol protocol p, str_eq_refl (codes "SysDVR"), positive) refl
