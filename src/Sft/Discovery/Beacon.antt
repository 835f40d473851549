-- ===== src/Sft/Discovery/Beacon.antt =====
-- src/sft_discovery.c, `parse_beacon`: the beacons it accepts.
use sysdvr_webos.Prelude.{
  ℕ, zero, suc, ◌≤◌, ◌≡◌, ◌≢◌, ◌⊎◌, refl, ap, ◌∙◌, true, false, ◌||◌, ◌==◌, ltb, if◌then◌else◌,
  Option, none, some, List, [], ◌∷◌, ◌++◌, length, take, take_all, arith,
}
use sysdvr_webos.Prelude.CString.{codes, str_eq_refl, copy_text}
use sysdvr_webos.Sft.Discovery.{
  parse_port, is_delimiter, skip_blanks, strip_line_end, or_default, skip_delimiters, split_token,
  strtok, label_of, fill, accept, parse_beacon,
}
use sysdvr_webos.Sft.Discovery.Port.{value, AreDigits, text_of_digits, in_range, parse_port_lem}

-- A word: not empty, and without a delimiter.
abbrev pub Plain : List ℕ → Type 0
Plain [] = Unit {0}
Plain (c ∷ cs) = (is_delimiter c ≡ false) × Plain cs

abbrev pub Word : List ℕ → Type 0
Word [] = ⊥
Word (c ∷ cs) = Plain (c ∷ cs)

split_token-append :
    (word rest : List ℕ) → Plain word → split_token (word ++ (32 ∷ rest)) ≡ (word, rest)
unfolding split_token
split_token-append [] rest p = refl
split_token-append (c ∷ word) rest p = rw (p.0, split_token-append word rest p.1) refl

strtok-append : (word rest : List ℕ) → Word word → strtok (word ++ (32 ∷ rest)) ≡ (some word, rest)
unfolding strtok skip_delimiters split_token
strtok-append [] rest p = absurd p
strtok-append (c ∷ word) rest p =
    let split = split_token-append word rest p.1 in rw (p.0, split, p.0) refl

parse_steps :
    (message : List ℕ) (magic ip port : Option (List ℕ)) (first second saved : List ℕ)
    (host : Option (List ℕ))
    → strtok (copy_text 256 message) ≡ (magic, first)
    → strtok first ≡ (ip, second)
    → strtok second ≡ (port, saved)
    → parse_beacon message host ≡ accept magic ip port saved host
unfolding parse_beacon
parse_steps message magic ip port first second saved host a b c = rw (a, b, c) refl

accept_magic :
    (ip port saved : List ℕ) (host : Option (List ℕ))
    → accept (some (codes "SFTAP1")) (some ip) (some port) saved host
      ≡ fill (parse_port port) host (label_of saved)
unfolding accept
accept_magic ip port saved host = rw (str_eq_refl (codes "SFTAP1")) refl

-- `SFTAP1`, the announced address, the port and the rest, separated by spaces.
abbrev pub beacon : List ℕ → List ℕ → List ℕ → List ℕ
beacon ip port rest = codes "SFTAP1" ++ (32 ∷ (ip ++ (32 ∷ (port ++ (32 ∷ rest)))))

-- What tokens and label make of a beacon.
tokens-beacon :
    (ip port rest : List ℕ) (host : Option (List ℕ))
    → Word ip
    → Word port
    → length (beacon ip port rest) ≤ 255
    → parse_beacon (beacon ip port rest) host ≡ fill (parse_port port) host (label_of rest)
tokens-beacon ip port rest host wi wp h =
    let whole = take_all 255 (beacon ip port rest) h in
    let first =
      strtok-append (codes "SFTAP1") (ip ++ (32 ∷ (port ++ (32 ∷ rest))))
        (refl, (refl, (refl, (refl, (refl, (refl, tt)))))) in
    let second = strtok-append ip (port ++ (32 ∷ rest)) wi in
    let third = strtok-append port rest wp in
    parse_steps (beacon ip port rest) (some (codes "SFTAP1")) (some ip) (some port)
      (ip ++ (32 ∷ (port ++ (32 ∷ rest)))) (port ++ (32 ∷ rest)) rest host (ap strtok whole ∙ first)
      second third
    ∙ accept_magic ip port rest host

-- The bytes that may stand before a label, in it, and behind it.
abbrev pub AreBlanks : List ℕ → Type 0
AreBlanks [] = Unit {0}
AreBlanks (c ∷ cs) = ((c ≡ 32) ⊎ (c ≡ 9)) × AreBlanks cs

abbrev pub AreLineEnds : List ℕ → Type 0
AreLineEnds [] = Unit {0}
AreLineEnds (c ∷ cs) = ((c ≡ 13) ⊎ (c ≡ 10)) × AreLineEnds cs

abbrev pub IsOneLine : List ℕ → Type 0
IsOneLine [] = Unit {0}
IsOneLine (c ∷ cs) = (c ≢ 13) × (c ≢ 10) × IsOneLine cs

-- No label, or one that does not begin with a blank.
abbrev pub IsLabel : List ℕ → Type 0
IsLabel [] = Unit {0}
IsLabel (c ∷ cs) = (c ≢ 32) × (c ≢ 9) × IsOneLine (c ∷ cs)

-- The label that is shown: at most 95 bytes, or the name for a console without one.
abbrev pub shown : List ℕ → List ℕ
shown [] = codes "Switch Frame Tap"
shown (c ∷ cs) = take 95 (c ∷ cs)

strip-ends : (n : ℕ) (ends : List ℕ) → AreLineEnds ends → strip_line_end (take n ends) ≡ []
unfolding strip_line_end
strip-ends zero ends h = refl
strip-ends (suc n) [] h = refl
strip-ends (suc n) (c ∷ cs) h =
    let is_end : (c == 13) || (c == 10) ≡ true = ground arith in
    rw (strip-ends n cs h.1) (rw is_end refl)

strip-line :
    (n : ℕ) (label ends : List ℕ)
    → IsOneLine label
    → AreLineEnds ends
    → strip_line_end (take n (label ++ ends)) ≡ take n label
unfolding strip_line_end
strip-line zero label ends l h = refl
strip-line (suc n) [] ends l h = strip-ends (suc n) ends h
strip-line (suc n) (c ∷ cs) ends l h =
    let other : (c == 13) || (c == 10) ≡ false = ground arith in
    let rest = strip-line n cs ends l.2 h in rw (rest, other) (ground arith)

skip_blanks-append :
    (blanks text : List ℕ) → AreBlanks blanks → skip_blanks (blanks ++ text) ≡ skip_blanks text
unfolding skip_blanks
skip_blanks-append [] text h = refl
skip_blanks-append (c ∷ blanks) text h =
    let blank : (c == 32) || (c == 9) ≡ true = ground arith in
    rw blank (skip_blanks-append blanks text h.1)

skip-ends : (ends : List ℕ) → AreLineEnds ends → skip_blanks ends ≡ ends
unfolding skip_blanks
skip-ends [] h = refl
skip-ends (c ∷ cs) h = let plain : (c == 32) || (c == 9) ≡ false = ground arith in rw plain refl

label_of-ends : (ends : List ℕ) → AreLineEnds ends → label_of ends ≡ codes "Switch Frame Tap"
unfolding label_of strip_line_end skip_blanks
label_of-ends [] h = refl
label_of-ends (c ∷ cs) h = rw (skip-ends (c ∷ cs) h) (ap or_default (strip-ends 95 (c ∷ cs) h))

label_of-line :
    (c : ℕ) (cs ends : List ℕ)
    → IsLabel (c ∷ cs)
    → AreLineEnds ends
    → label_of (c ∷ cs ++ ends) ≡ take 95 (c ∷ cs)
unfolding label_of skip_blanks
label_of-line c cs ends l h =
    let plain : (c == 32) || (c == 9) ≡ false = ground arith in
    rw plain (ap or_default (strip-line 95 (c ∷ cs) ends l.2 h))

label_of-shown :
    (blanks label ends : List ℕ)
    → AreBlanks blanks
    → IsLabel label
    → AreLineEnds ends
    → label_of (blanks ++ (label ++ ends)) ≡ shown label
label_of-shown blanks label ends b l h = past_blanks ∙ by_label label l
  where
    past_blanks : label_of (blanks ++ (label ++ ends)) ≡ label_of (label ++ ends)
    past_blanks =
        unfold label_of in
        ap (λ t. or_default (strip_line_end (copy_text 96 (or_default t))))
          (skip_blanks-append blanks (label ++ ends) b)

    by_label : (xs : List ℕ) → IsLabel xs → label_of (xs ++ ends) ≡ shown xs
    by_label [] l = label_of-ends ends h
    by_label (c ∷ cs) l = label_of-line c cs ends l h

digits-Plain : (ds : List ℕ) → AreDigits ds → Plain (text_of_digits ds)
digits-Plain [] h = tt
digits-Plain (d ∷ ds) h = (ground arith, digits-Plain ds h.1)

digits-Word : (d : ℕ) (ds : List ℕ) → AreDigits (d ∷ ds) → Word (text_of_digits (d ∷ ds))
digits-Word d ds h = digits-Plain (d ∷ ds) h

fill_in_range :
    (n : ℕ) (address label : List ℕ)
    → fill (in_range n) (some address) label ≡ (
        if (n == 0) || ltb 65535 n
        then none
        else some (record { host = address; port = n; label = label }))
unfolding fill
fill_in_range n address label = ground arith

-- A beacon gives the sender's address, the port that it writes in decimal, and its label: without the
-- blanks before it and the line ends behind it, cut to 95 bytes, and "Switch Frame Tap" if there is
-- none. If the port is 0 or above 65535 it gives nothing. The announced address is not used. The beacon
-- is at most 255 bytes, and its announced address is a word.
pub parse_beacon-beacon :
    (ip : List ℕ) (d : ℕ) (ds blanks label ends address : List ℕ)
    → Word ip
    → AreDigits (d ∷ ds)
    → AreBlanks blanks
    → IsLabel label
    → AreLineEnds ends
    → length (beacon ip (text_of_digits (d ∷ ds)) (blanks ++ (label ++ ends))) ≤ 255
    → parse_beacon (beacon ip (text_of_digits (d ∷ ds)) (blanks ++ (label ++ ends))) (some address)
      ≡ (if (value (d ∷ ds) == 0) || ltb 65535 (value (d ∷ ds))
          then none
          else some (record { host = address; port = value (d ∷ ds); label = shown label }))
parse_beacon-beacon ip d ds blanks label ends address wi digits b l e h =
    tokens-beacon ip (text_of_digits (d ∷ ds)) (blanks ++ (label ++ ends)) (some address) wi
      (digits-Word d ds digits) h
    ∙ ap (λ p. fill p (some address) (label_of (blanks ++ (label ++ ends))))
        (parse_port_lem d ds digits)
    ∙ ap (fill (in_range (value (d ∷ ds))) (some address)) (label_of-shown blanks label ends b l e)
    ∙ fill_in_range (value (d ∷ ds)) address (shown label)
