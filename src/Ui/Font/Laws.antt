-- ===== src/Ui/Font/Laws.antt =====
-- src/ui.c: the font that is found is a TrueType file.
use sysdvr_webos.Prelude.{
  ℕ, zero, suc, ◌+◌, ◌-◌, ◌≤◌, ◌<◌, ◌≡◌, refl, sym, ap, subst, ◌∙◌, ◌⊎◌, inl, inr, Bool, true,
  false, Option, none, some, List, [], ◌∷◌, ◌++◌, append_assoc, arith, leb, if◌then◌else◌, le→leb,
  leb_false→lt, Bool-cases, length, length-append, drop_exact, take, drop, take-append-drop,
  length-drop, ◌==◌, ◌||◌, ◌&&◌,
}
use sysdvr_webos.Prelude.CString.{codes, copy_text, copy_text_fits}
use sysdvr_webos.Prelude.Words.{at}
use sysdvr_webos.Prelude.Words.Inverse.{at-drop}
use sysdvr_webos.Ui.Font.{
  Node, file, folder, locked, unknown, Entries, no_entries, entry, ends_with_ttf, is_dots,
  path_size, or_later, find_first_ttf, find_in_entries, find_at, candidates, first_readable,
  font_path_size, find_system_font,
}

-- A path that ends in a name that ends in `.ttf`.
at-append : (xs ys : List ℕ) (i : ℕ) → at (xs ++ ys) (length xs + i) ≡ at ys i
at-append xs ys i = sym (at-drop (length xs) i (xs ++ ys)) ∙ ap (λ zs. at zs i) (drop_exact xs ys)

ends_with_ttf-at :
    (xs ys : List ℕ) (k : ℕ)
    → k ≤ 4
    → 4 ≤ length ys
    → at (xs ++ ys) (length (xs ++ ys) - k) ≡ at ys (length ys - k)
ends_with_ttf-at xs ys k h l =
    ap (at (xs ++ ys)) (omega (arith, length-append xs ys)) ∙ at-append xs ys (length ys - k)

long_enough : (ys : List ℕ) → ends_with_ttf ys ≡ true → 4 ≤ length ys
unfolding ends_with_ttf
long_enough ys h = ground arith

pub ends_with_ttf-append :
    (xs ys : List ℕ) → ends_with_ttf ys ≡ true → ends_with_ttf (xs ++ ys) ≡ true
unfolding ends_with_ttf
ends_with_ttf-append xs ys h =
    let l = long_enough ys h in
    let longer : leb 4 (length (xs ++ ys)) ≡ true =
      le→leb 4 (length (xs ++ ys)) (omega (arith, length-append xs ys)) in
    let enough : leb 4 (length ys) ≡ true = le→leb 4 (length ys) l in
    rw
      (
        longer,
        ends_with_ttf-at xs ys 4 (omega arith) l,
        ends_with_ttf-at xs ys 3 (omega arith) l,
        ends_with_ttf-at xs ys 2 (omega arith) l,
        ends_with_ttf-at xs ys 1 (omega arith) l,
      )
      (rw (← h) (rw enough refl))

-- A path, if there is one, has the property.
abbrev Each : (List ℕ → Type 0) → Option (List ℕ) → Type 0
Each P none = Unit {0}
Each P (some p) = P p

or_later-Each :
    (P : List ℕ → Type 0) (a b : Option (List ℕ)) → Each P a → Each P b → Each P (or_later a b)
or_later-Each P (some p) b h k = h
or_later-Each P none b h k = k

Each-map :
    (P Q : List ℕ → Type 0)
    → ((p : List ℕ) → P p → Q p)
    → (o : Option (List ℕ)) → Each P o
    → Each Q o
Each-map P Q f none h = tt
Each-map P Q f (some p) h = f p h

-- The whole paths of the files in a folder and in the folders below it.
pub data Holds : Entries → List ℕ → List ℕ → Type 0 where
  here :
      {directory name : List ℕ} {rest : Entries}
      → Holds (entry name file rest) directory (directory ++ b'/' ∷ name)
  below :
      {directory name p : List ℕ} {es rest : Entries}
      → Holds es (directory ++ b'/' ∷ name) p
      → Holds (entry name (folder es) rest) directory p
  later :
      {directory name p : List ℕ} {node : Node} {rest : Entries}
      → Holds rest directory p
      → Holds (entry name node rest) directory p

abbrev Found : Entries → List ℕ → List ℕ → Type 0
Found es directory p = (ends_with_ttf p ≡ true) × Holds es directory p

-- A file in a folder, whose path fits.
file-Found :
    (directory name : List ℕ) (rest : Entries)
    → length (directory ++ b'/' ∷ name) < path_size
    → Each (Found (entry name file rest) directory) (
        if ends_with_ttf name
        then some (copy_text font_path_size (directory ++ b'/' ∷ name))
        else none)
file-Found directory name rest h = elim (Bool-cases (ends_with_ttf name)) [
  | inr other ↦ rw other tt
  | inl ttf ↦
      let path = directory ++ b'/' ∷ name in
      let whole = copy_text_fits font_path_size path (omega arith) in
      let ends : ends_with_ttf path ≡ true =
        subst (λ p. ends_with_ttf p ≡ true) (append_assoc directory (b'/' ∷ []) name)
          (ends_with_ttf-append (directory ++ b'/' ∷ []) name ttf) in
      rw ttf (subst (Found (entry name file rest) directory) (sym whole) (ends, here))
]

guarded-Each :
    (P : List ℕ → Type 0) (dots long : Bool) (beyond found : Option (List ℕ))
    → Each P beyond
    → (long ≡ false → Each P found)
    → Each P (if dots then beyond else if long then beyond else found)
guarded-Each P true long beyond found h k = h
guarded-Each P false true beyond found h k = h
guarded-Each P false false beyond found h k = k refl

mutual
  unfolding find_first_ttf find_in_entries find_at

  find_in_entries-Found :
      (levels : ℕ) (directory : List ℕ) (es : Entries)
      → Each (Found es directory) (find_in_entries levels directory font_path_size es)
  find_in_entries-Found levels directory no_entries = tt
  find_in_entries-Found levels directory (entry name node rest) =
      let path = directory ++ b'/' ∷ name in
      let P = Found (entry name node rest) directory in
      let beyond =
        Each-map (Found rest directory) P (λ p (ends, held). (ends, later held)) _
          (find_in_entries-Found levels directory rest) in
      guarded-Each P (is_dots name) (leb path_size (length path)) _ _ beyond (λ short.
        or_later-Each P _ _
          (find_at-Found levels directory name rest (leb_false→lt path_size (length path) short)
            node)
          beyond)

  find_at-Found :
      (levels : ℕ) (directory name : List ℕ) (rest : Entries)
      → length (directory ++ b'/' ∷ name) < path_size
      → (node : Node)
      → Each
          (Found (entry name node rest) directory)
          (find_at levels (directory ++ b'/' ∷ name) name font_path_size node)
  find_at-Found levels directory name rest h file = file-Found directory name rest h
  find_at-Found zero directory name rest h (folder es) = tt
  find_at-Found (suc levels) directory name rest h (folder es) =
      Each-map (Found es (directory ++ b'/' ∷ name)) (Found (entry name (folder es) rest) directory)
        (λ p (ends, held). (ends, below held)) _
        (find_in_entries-Found levels (directory ++ b'/' ∷ name) es)
  find_at-Found levels directory name rest h locked = tt
  find_at-Found levels directory name rest h unknown = tt

-- A file below the folder `node`.
abbrev pub IsBelow : Node → List ℕ → List ℕ → Type 0
IsBelow node directory p = (es : Entries) × (node ≡ folder es) × Holds es directory p

find_first_ttf-IsBelow :
    (levels : ℕ) (directory : List ℕ) (node : Node)
    → Each
        (λ p. (ends_with_ttf p ≡ true) × IsBelow node directory p)
        (find_first_ttf levels directory font_path_size node)
unfolding find_first_ttf
find_first_ttf-IsBelow zero directory node = tt
find_first_ttf-IsBelow (suc levels) directory (folder es) =
    Each-map (Found es directory) _ (λ p (ends, held). (ends, (es, refl, held))) _
      (find_in_entries-Found levels directory es)
find_first_ttf-IsBelow (suc levels) directory file = tt
find_first_ttf-IsBelow (suc levels) directory locked = tt
find_first_ttf-IsBelow (suc levels) directory unknown = tt

abbrev pub Among : List ℕ → List (List ℕ) → Type 0
Among p [] = ⊥
Among p (q ∷ qs) = (p ≡ q) ⊎ Among p qs

abbrev AllTtf : List (List ℕ) → Type 0
AllTtf [] = Unit {0}
AllTtf (p ∷ ps) = (ends_with_ttf p ≡ true) × AllTtf ps

first_readable-Among :
    (readable : List ℕ → Bool) (ps : List (List ℕ))
    → AllTtf ps
    → Each
        (λ p. (ends_with_ttf p ≡ true) × (readable p ≡ true) × Among p ps)
        (first_readable readable ps)
unfolding first_readable
first_readable-Among readable [] h = tt
first_readable-Among readable (p ∷ ps) h = elim (Bool-cases (readable p)) [
  | inl found ↦ rw found (h.0, found, inl refl)
  | inr missing ↦ rw missing (
      Each-map (λ q. (ends_with_ttf q ≡ true) × (readable q ≡ true) × Among q ps) _
        (λ q (ends, can, among). (ends, can, inr among)) _ (first_readable-Among readable ps h.1))
]

candidates_ttf : AllTtf candidates
unfolding ends_with_ttf
candidates_ttf = (refl, (refl, (refl, (refl, (refl, (refl, tt))))))

-- The letters of the extension.
abbrev pub EndsInTtf : List ℕ → Type 0
EndsInTtf p =
    (stem : List ℕ) × (t : ℕ) × (u : ℕ) × (f : ℕ) × (p ≡ stem ++ b'.' ∷ t ∷ u ∷ f ∷ [])
    × ((t ≡ b't') ⊎ (t ≡ b'T'))
    × ((u ≡ b't') ⊎ (u ≡ b'T'))
    × ((f ≡ b'f') ⊎ (f ≡ b'F'))

-- A font that the interface may open.
abbrev pub IsFont : (List ℕ → Bool) → Node → List ℕ → Type 0
IsFont readable fonts p =
    EndsInTtf p
    × (((readable p ≡ true) × Among p candidates) ⊎ IsBelow fonts (codes "/usr/share/fonts") p)

letters :
    (w x y z : ℕ)
    → (w == b'.')
        && (((x == b't') || (x == b'T'))
            && (((y == b't') || (y == b'T')) && ((z == b'f') || (z == b'F'))))
      ≡ true
    → (w ≡ b'.') × ((x ≡ b't') ⊎ (x ≡ b'T')) × ((y ≡ b't') ⊎ (y ≡ b'T')) × ((z ≡ b'f') ⊎ (z ≡ b'F'))
letters w x y z h = (ground arith, ground arith, ground arith, ground arith)

four_left :
    (stem zs : List ℕ) → length zs ≡ 4 → ends_with_ttf (stem ++ zs) ≡ true → EndsInTtf (stem ++ zs)
unfolding ends_with_ttf
four_left stem (w ∷ x ∷ y ∷ z ∷ []) l h =
    let zs = w ∷ x ∷ y ∷ z ∷ [] in
    let size = length-append stem zs in
    let enough : leb 4 (length (stem ++ zs)) ≡ true =
      le→leb 4 (length (stem ++ zs)) (omega (arith, size)) in
    let (dot, first, second, third) = letters w x y z (
      sym (
        rw
          (
            enough,
            ends_with_ttf-at stem zs 4 (omega arith) (omega arith),
            ends_with_ttf-at stem zs 3 (omega arith) (omega arith),
            ends_with_ttf-at stem zs 2 (omega arith) (omega arith),
            ends_with_ttf-at stem zs 1 (omega arith) (omega arith),
          )
          refl)
      ∙ h) in
    (stem, x, y, z, ap (λ c. stem ++ c ∷ x ∷ y ∷ z ∷ []) dot, first, second, third)
four_left stem [] l h = absurd (omega arith)
four_left stem (w ∷ []) l h = absurd (omega arith)
four_left stem (w ∷ x ∷ []) l h = absurd (omega arith)
four_left stem (w ∷ x ∷ y ∷ []) l h = absurd (omega arith)
four_left stem (w ∷ x ∷ y ∷ z ∷ v ∷ vs) l h = absurd (omega arith)

ends_with_ttf-EndsInTtf : (p : List ℕ) → ends_with_ttf p ≡ true → EndsInTtf p
ends_with_ttf-EndsInTtf p h =
    let k = length p - 4 in
    let same = take-append-drop k p in
    subst EndsInTtf same (
      four_left (take k p) (drop k p) (omega (arith, length-drop k p, long_enough p h))
        (subst (λ q. ends_with_ttf q ≡ true) (sym same) h))

-- Whatever files the system has, a font that is found ends in `.ttf`, in any case, and it is one of the
-- known paths, which can be read, or the whole path of a file in /usr/share/fonts or in a folder below.
pub find_system_font-ttf :
    (readable : List ℕ → Bool) (fonts : Node) (p : List ℕ)
    → find_system_font readable fonts ≡ some p
    → IsFont readable fonts p
unfolding find_system_font
find_system_font-ttf readable fonts p e =
    let P = IsFont readable fonts in
    subst (Each P) e (
      or_later-Each P (first_readable readable candidates) _
        (Each-map _ P (λ q (ends, can, among). (ends_with_ttf-EndsInTtf q ends, inl (can, among))) _
          (first_readable-Among readable candidates candidates_ttf))
        (Each-map _ P (λ q (ends, held). (ends_with_ttf-EndsInTtf q ends, inr held)) _
          (find_first_ttf-IsBelow 5 (codes "/usr/share/fonts") fonts)))
