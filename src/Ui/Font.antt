-- ===== src/Ui/Font.antt =====
-- src/ui.c: the search for a font of the system, and the pictures of the program. The file system is an
-- argument: a tree of nodes, and the content of a file.
pub mod Laws
use sysdvr_webos.Prelude.{
  ℕ, zero, suc, ◌+◌, ◌-◌, ◌*◌, ◌/◌, ◌%◌, ◌^◌, ◌≤◌, ◌<◌, min, ◌≡◌, refl, sym, ap, ap₂, subst, ◌∙◌,
  ◌≢◌, ◌↔◌, ◌⊎◌, inl, inr, Bool, true, false, not, ◌&&◌, ◌||◌, Option, none, some, List, [], ◌∷◌,
  ◌++◌, map, append-nil, append_assoc, arith, ltb, leb, ◌==◌, ◌!=◌, if◌then◌else◌, ltb→lt, lt→ltb,
  ltb_false→le, le→ltb_false, leb→le, le→leb, leb_false→lt, lt→leb_false, ==_iff, Bool-cases,
  Option-cases, length, get_elem?, get_or, set, take, drop, replicate, length-append, length-take,
  length-drop, length-set, length-replicate, take_all, drop_all, take-append, drop-append,
  take-append_le, drop-append_le, take-append-drop, take_exact, drop_exact, drop-drop,
  drop-set_before, take-set_next, take_next, get_or-take,
}
use sysdvr_webos.Prelude.CString.{codes, copy_text, str_eq}
use sysdvr_webos.Prelude.Words.{at}

-- What `stat` says of a directory entry, with the entries of a folder as `readdir` gives them; a folder
-- that is locked cannot be opened, and `unknown` is a failure of `stat` or any other file.
mutual
  pub data Node : Type 0 where
    file : Node
    folder : Entries → Node
    locked : Node
    unknown : Node

  pub data Entries : Type 0 where
    no_entries : Entries
    entry : List ℕ → Node → Entries → Entries

abbrev letter : ℕ → ℕ → ℕ → Bool
letter lower upper c = (c == lower) || (c == upper)

unfoldable pub ends_with_ttf : List ℕ → Bool
ends_with_ttf name =
    let n = length name in
    leb 4 n
    && ((at name (n - 4) == b'.')
        && (letter b't' b'T' (at name (n - 3))
            && (letter b't' b'T' (at name (n - 2)) && letter b'f' b'F' (at name (n - 1)))))

abbrev pub is_dots : List ℕ → Bool
is_dots name = str_eq name (codes ".") || str_eq name (codes "..")

abbrev pub path_size : ℕ
path_size = 512

abbrev pub or_later : Option (List ℕ) → Option (List ℕ) → Option (List ℕ)
or_later (some path) later = some path
or_later none later = later

-- `find_first_ttf`; `levels` is `depth + 1`. The result is what is copied into `out`.
unfoldable mutual
  unfolding ends_with_ttf

  pub find_first_ttf : ℕ → List ℕ → ℕ → Node → Option (List ℕ)
  find_first_ttf zero directory out_size node = none
  find_first_ttf (suc levels) directory out_size (folder es) =
      find_in_entries levels directory out_size es
  find_first_ttf (suc levels) directory out_size file = none
  find_first_ttf (suc levels) directory out_size locked = none
  find_first_ttf (suc levels) directory out_size unknown = none

  -- The loop over the entries.
  pub find_in_entries : ℕ → List ℕ → ℕ → Entries → Option (List ℕ)
  find_in_entries levels directory out_size no_entries = none
  find_in_entries levels directory out_size (entry name node rest) =
      let path = directory ++ b'/' ∷ name in
      let later = find_in_entries levels directory out_size rest in
      let found = or_later (find_at levels path name out_size node) later in
      if is_dots name then later else if leb path_size (length path) then later else found

  -- One entry that is not skipped.
  pub find_at : ℕ → List ℕ → List ℕ → ℕ → Node → Option (List ℕ)
  find_at levels path name out_size file =
      if ends_with_ttf name then some (copy_text out_size path) else none
  find_at zero path name out_size (folder es) = none
  find_at (suc levels) path name out_size (folder es) = find_in_entries levels path out_size es
  find_at levels path name out_size locked = none
  find_at levels path name out_size unknown = none

abbrev pub candidates : List (List ℕ)
candidates =
    codes "/usr/share/fonts/LG_Display.ttf"
    ∷ codes "/usr/share/fonts/LG_Display_Light.ttf"
    ∷ codes "/usr/share/fonts/PreludeCondensed-Medium.ttf"
    ∷ codes "/usr/share/fonts/tt7268m_804.ttf"
    ∷ codes "/usr/share/fonts/TTF/LG_Display.ttf"
    ∷ codes "/usr/share/fonts/TTF/PreludeCondensed-Medium.ttf"
    ∷ []

-- The first path that `access` can read.
pub first_readable : (List ℕ → Bool) → List (List ℕ) → Option (List ℕ)
first_readable readable [] = none
first_readable readable (p ∷ ps) =
    let rest = first_readable readable ps in if readable p then some p else rest

-- The size of `font_path`.
abbrev pub font_path_size : ℕ
font_path_size = 512

-- `find_system_font`; the node is `/usr/share/fonts`.
unfoldable pub find_system_font : (List ℕ → Bool) → Node → Option (List ℕ)
unfolding first_readable
find_system_font readable fonts =
    or_later (first_readable readable candidates)
      (find_first_ttf 5 (codes "/usr/share/fonts") font_path_size fonts)

-- `load_rgba_asset` up to the texture: the bytes of the file, if the path fits and the file has exactly
-- the size of the picture.
unfoldable pub load_rgba_asset :
    (List ℕ → Option (List ℕ)) → List ℕ → List ℕ → ℕ → ℕ → Option (List ℕ)
load_rgba_asset files app_dir name width height =
    let path = app_dir ++ (codes "/assets/" ++ name) in
    let expected = width * height * 4 in
    if leb 768 (length path) then none else elim (files path) [
      | none ↦ none
      | some pixels ↦ if length pixels != expected then none else some pixels
    ]
