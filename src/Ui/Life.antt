-- ===== src/Ui/Life.antt =====
-- src/ui.c: `app_ui_init` and `app_ui_destroy`, with the fonts and pictures that they load and release.
pub mod Balance
use sysdvr_webos.Prelude.{
  ℕ, ◌∙◌, ◌≡◌, refl, inl, inr, Bool, true, false, not, ◌&&◌, Option, none, some, List, [], ◌∷◌,
  ◌++◌, arith, if◌then◌else◌, Bool-cases,
}
use sysdvr_webos.Resources.{
  library, font, texture, memory, open_file, surface, Resource, Call, acquires, releases,
  IsBalanced, held_after, release, any_thread, remove, same, is_thread,
}
use sysdvr_webos.Resources.Nesting.{no_threads}
use sysdvr_webos.Ui.{AppUi}

-- What the libraries answer: SDL_ttf starts, a font is found, and which of the four sizes and of the
-- three pictures can be loaded.
-- What `load_rgba_asset` meets: a file that is not there, no memory, a file of another size, no surface,
-- no texture, or a picture.
pub data Picture : Type 0 where
  missing no_memory wrong_size no_surface no_texture picture : Picture

abbrev pub is_picture : Picture → Bool
is_picture picture = true
is_picture missing = false
is_picture no_memory = false
is_picture wrong_size = false
is_picture no_surface = false
is_picture no_texture = false

pub record Environment : Type 0 where
  pub starts_ttf : Bool
  pub finds_font : Bool
  pub title : Bool
  pub body : Bool
  pub small : Bool
  pub button : Bool
  pub left : Picture
  pub ok : Picture
  pub gamepad : Picture

abbrev pub load : Bool → Resource → List Call → List Call
load true r rest = acquires r ∷ rest
load false r rest = rest

abbrev pub drop_loaded : Bool → Resource → List Call → List Call
drop_loaded true r rest = releases r ∷ rest
drop_loaded false r rest = rest

abbrev pub load_fonts : Environment → List Call → List Call
load_fonts e rest =
    load e.title (font, 40)
      (load e.body (font, 32) (load e.small (font, 24) (load e.button (font, 23) rest)))

abbrev pub close_fonts : Environment → List Call
close_fonts e =
    drop_loaded e.title (font, 40)
      (drop_loaded e.body (font, 32)
        (drop_loaded e.small (font, 24)
          (drop_loaded e.button (font, 23) (releases (library, 1) ∷ []))))

-- The calls of `load_rgba_asset`: the file, the pixels, the surface, and the texture that it returns.
abbrev pub load_picture : Picture → ℕ → List Call → List Call
load_picture missing i rest = rest
load_picture no_memory i rest = acquires (open_file, 0) ∷ releases (open_file, 0) ∷ rest
load_picture wrong_size i rest =
    acquires (open_file, 0)
    ∷ acquires (memory, 30)
    ∷ releases (open_file, 0)
    ∷ releases (memory, 30)
    ∷ rest
load_picture no_surface i rest =
    acquires (open_file, 0)
    ∷ acquires (memory, 30)
    ∷ releases (open_file, 0)
    ∷ releases (memory, 30)
    ∷ rest
load_picture no_texture i rest =
    acquires (open_file, 0)
    ∷ acquires (memory, 30)
    ∷ releases (open_file, 0)
    ∷ acquires (surface, 0)
    ∷ releases (surface, 0)
    ∷ releases (memory, 30)
    ∷ rest
load_picture picture i rest =
    acquires (open_file, 0)
    ∷ acquires (memory, 30)
    ∷ releases (open_file, 0)
    ∷ acquires (surface, 0)
    ∷ acquires (texture, i)
    ∷ releases (surface, 0)
    ∷ releases (memory, 30)
    ∷ rest

abbrev pub load_pictures : Environment → List Call → List Call
load_pictures e rest = load_picture e.left 0 (load_picture e.ok 1 (load_picture e.gamepad 2 rest))

-- `app_ui_init`; a font that fails leads to `app_ui_destroy`, when no picture is loaded yet.
unfoldable pub app_ui_init : Environment → Option AppUi × List Call
app_ui_init e =
    if not e.starts_ttf
    then (none, [])
    else if not e.finds_font
    then (none, acquires (library, 1) ∷ releases (library, 1) ∷ [])
    else if not (e.title && (e.body && (e.small && e.button)))
    then (none, acquires (library, 1) ∷ load_fonts e (close_fonts e))
    else (
      some (record {
        ready = true;
        has_left = is_picture e.left;
        has_ok = is_picture e.ok;
        has_gamepad = is_picture e.gamepad;
      }),
      acquires (library, 1) ∷ load_fonts e (load_pictures e []),
    )

-- `app_ui_destroy` of an interface that is ready: the pictures that are loaded, then the fonts.
unfoldable pub app_ui_destroy : AppUi → List Call
app_ui_destroy ui =
    drop_loaded ui.has_left (texture, 0)
      (drop_loaded ui.has_ok (texture, 1)
        (drop_loaded ui.has_gamepad (texture, 2)
          (releases (font, 40)
            ∷ releases (font, 32)
            ∷ releases (font, 24)
            ∷ releases (font, 23)
            ∷ releases (library, 1)
            ∷ [])))
