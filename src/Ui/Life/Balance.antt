-- ===== src/Ui/Life/Balance.antt =====
-- src/ui.c, `app_ui_init` and `app_ui_destroy`: what is loaded is released.
use sysdvr_webos.Prelude.{
  ℕ, ap, ◌∙◌, ◌≡◌, refl, inl, inr, Bool, true, false, ◌&&◌, Option, none, some, List, [], ◌∷◌, ◌++◌,
  arith, Bool-cases,
}
use sysdvr_webos.Resources.{
  library, font, texture, Resource, Call, acquires, releases, IsBalanced, held_after, release,
  any_thread, remove, same, is_thread,
}
use sysdvr_webos.Resources.Nesting.{no_threads}
use sysdvr_webos.Ui.{AppUi}
use sysdvr_webos.Ui.Life.{
  Picture, missing, no_memory, wrong_size, no_surface, no_texture, picture, is_picture, Environment,
  load, drop_loaded, load_fonts, close_fonts, load_picture, load_pictures, app_ui_init,
  app_ui_destroy,
}

-- The interface is opened and, if that succeeds, closed.
unfoldable pub life_of : Option AppUi × List Call → List Call
life_of (none, calls) = calls
life_of (some ui, calls) = calls ++ app_ui_destroy ui

fonts-IsBalanced :
    (t b s k : Bool)
    → IsBalanced (
        acquires (library, 1)
        ∷ load t
            (font, 40)
            (load b
              (font, 32)
              (load s
                (font, 24)
                (load k
                  (font, 23)
                  (drop_loaded t
                    (font, 40)
                    (drop_loaded b
                      (font, 32)
                      (drop_loaded s
                        (font, 24)
                        (drop_loaded k (font, 23) (releases (library, 1) ∷ [])))))))))
unfolding held_after release any_thread remove same
fonts-IsBalanced true true true true = refl
fonts-IsBalanced true true true false = refl
fonts-IsBalanced true true false true = refl
fonts-IsBalanced true true false false = refl
fonts-IsBalanced true false true true = refl
fonts-IsBalanced true false true false = refl
fonts-IsBalanced true false false true = refl
fonts-IsBalanced true false false false = refl
fonts-IsBalanced false true true true = refl
fonts-IsBalanced false true true false = refl
fonts-IsBalanced false true false true = refl
fonts-IsBalanced false true false false = refl
fonts-IsBalanced false false true true = refl
fonts-IsBalanced false false true false = refl
fonts-IsBalanced false false false true = refl
fonts-IsBalanced false false false false = refl

-- Two runs that leave the same, while no thread runs.
abbrev Same : List Call → List Call → Type 0
Same cs ds =
    (held : List Resource) → any_thread held ≡ false → held_after cs held ≡ held_after ds held

-- Loading a picture leaves the texture, if there is one.
load_picture-Same :
    (p : Picture) (i : ℕ) (cs ds : List Call)
    → Same cs ds
    → Same (load_picture p i cs) (load (is_picture p) (texture, i) ds)
unfolding held_after release any_thread remove same
load_picture-Same missing i cs ds h held quiet = h held quiet
load_picture-Same no_memory i cs ds h held quiet = rw quiet (h held quiet)
load_picture-Same wrong_size i cs ds h held quiet = rw quiet (rw quiet (h held quiet))
load_picture-Same no_surface i cs ds h held quiet = rw quiet (rw quiet (h held quiet))
load_picture-Same no_texture i cs ds h held quiet = rw quiet (rw quiet (rw quiet (h held quiet)))
load_picture-Same picture i cs ds h held quiet =
    rw quiet (rw quiet (rw quiet (h ((texture, i) ∷ held) quiet)))

load_picture-append :
    (p : Picture) (i : ℕ) (cs ds : List Call)
    → load_picture p i cs ++ ds ≡ load_picture p i (cs ++ ds)
load_picture-append missing i cs ds = refl
load_picture-append no_memory i cs ds = refl
load_picture-append wrong_size i cs ds = refl
load_picture-append no_surface i cs ds = refl
load_picture-append no_texture i cs ds = refl
load_picture-append picture i cs ds = refl

load_pictures-append :
    (e : Environment) (ds : List Call) → load_pictures e [] ++ ds ≡ load_pictures e ds
load_pictures-append e ds =
    load_picture-append e.left 0 (load_picture e.ok 1 (load_picture e.gamepad 2 [])) ds
    ∙ ap (load_picture e.left 0) (
        load_picture-append e.ok 1 (load_picture e.gamepad 2 []) ds
        ∙ ap (load_picture e.ok 1) (load_picture-append e.gamepad 2 [] ds))

-- The fonts and the library that are held when the pictures are loaded.
abbrev fonts_held : List Resource
fonts_held = (font, 23) ∷ (font, 24) ∷ (font, 32) ∷ (font, 40) ∷ (library, 1) ∷ []

fonts_quiet_held : any_thread fonts_held ≡ false
unfolding any_thread
fonts_quiet_held = refl

-- The pictures are given back, and then the fonts.
all_closes :
    (l o g : Bool)
    → held_after
        (load l
          (texture, 0)
          (load o
            (texture, 1)
            (load g
              (texture, 2)
              (app_ui_destroy
                (record { ready = true; has_left = l; has_ok = o; has_gamepad = g })))))
        fonts_held
      ≡ some []
unfolding app_ui_destroy held_after release any_thread remove same
all_closes true true true = refl
all_closes true true false = refl
all_closes true false true = refl
all_closes true false false = refl
all_closes false true true = refl
all_closes false true false = refl
all_closes false false true = refl
all_closes false false false = refl

pictures-close :
    (e : Environment) (ui : AppUi)
    → ui ≡ record {
      ready = true;
      has_left = is_picture e.left;
      has_ok = is_picture e.ok;
      has_gamepad = is_picture e.gamepad;
    }
    → held_after (load_pictures e [] ++ app_ui_destroy ui) fonts_held ≡ some []
pictures-close e ui same_ui =
    ap (λ cs. held_after cs fonts_held) (load_pictures-append e (app_ui_destroy ui))
    ∙ (load_picture-Same e.left 0 _ _
          (load_picture-Same e.ok 1 _ _ (
            load_picture-Same e.gamepad 2 (app_ui_destroy ui) (app_ui_destroy ui)
              (λ held quiet. refl)))
          fonts_held fonts_quiet_held
        ∙ (ap
              (λ x.
                held_after
                  (load (is_picture e.left) (texture, 0)
                    (load (is_picture e.ok) (texture, 1)
                      (load (is_picture e.gamepad) (texture, 2) (app_ui_destroy x))))
                  fonts_held)
              same_ui
            ∙ all_closes (is_picture e.left) (is_picture e.ok) (is_picture e.gamepad)))

-- Whichever fonts and pictures can be loaded, opening and closing the user interface releases each of
-- them, and SDL_ttf, exactly once; if opening fails, it has done so itself.
pub interface_life-IsBalanced : (e : Environment) → IsBalanced (life_of (app_ui_init e))
unfolding life_of app_ui_init held_after release any_thread remove same
interface_life-IsBalanced e = elim (Bool-cases e.starts_ttf) [
  | inr no_ttf ↦ rw no_ttf refl
  | inl starts ↦ elim (Bool-cases e.finds_font) [
    | inr no_font ↦ rw (starts, no_font) refl
    | inl finds ↦ elim (Bool-cases (e.title && (e.body && (e.small && e.button)))) [
      | inr lacking ↦ rw (starts, finds, lacking) (fonts-IsBalanced e.title e.body e.small e.button)
      | inl fonts ↦
          let t : e.title ≡ true = ground arith in
          let b : e.body ≡ true = ground arith in
          let s : e.small ≡ true = ground arith in
          let k : e.button ≡ true = ground arith in
          rw (starts, finds, t, b, s, k) (pictures-close e _ refl)
    ]
  ]
]

load-quiet :
    (b : Bool) (r : Resource) (rest : List Call)
    → is_thread r ≡ false
    → no_threads (load b r rest) ≡ no_threads rest
unfolding no_threads
load-quiet true r rest h = rw h refl
load-quiet false r rest h = refl

load_picture-quiet :
    (p : Picture) (i : ℕ) (rest : List Call) → no_threads (load_picture p i rest) ≡ no_threads rest
unfolding no_threads
load_picture-quiet missing i rest = refl
load_picture-quiet no_memory i rest = refl
load_picture-quiet wrong_size i rest = refl
load_picture-quiet no_surface i rest = refl
load_picture-quiet no_texture i rest = refl
load_picture-quiet picture i rest = refl

-- Opening the interface starts no thread.
pub app_ui_init-no_threads : (e : Environment) → no_threads (app_ui_init e).1 ≡ true
unfolding app_ui_init no_threads
app_ui_init-no_threads e = elim (Bool-cases e.starts_ttf) [
  | inr no_ttf ↦ rw no_ttf refl
  | inl starts ↦ elim (Bool-cases e.finds_font) [
    | inr no_font ↦ rw (starts, no_font) refl
    | inl finds ↦ elim (Bool-cases (e.title && (e.body && (e.small && e.button)))) [
      | inr lacking ↦ rw (starts, finds, lacking) (fonts_quiet e (close_fonts e) (closing_quiet e))
      | inl fonts ↦
          rw (starts, finds, fonts) (fonts_quiet e (load_pictures e []) (pictures_quiet e))
    ]
  ]
]
  where
    fonts_quiet :
        (e : Environment) (rest : List Call)
        → no_threads rest ≡ true
        → no_threads (load_fonts e rest) ≡ true
    fonts_quiet e rest h =
        load-quiet e.title (font, 40) _ refl
        ∙ (load-quiet e.body (font, 32) _ refl
            ∙ (load-quiet e.small (font, 24) _ refl
                ∙ (load-quiet e.button (font, 23) rest refl ∙ h)))

    pictures_quiet : (e : Environment) → no_threads (load_pictures e []) ≡ true
    pictures_quiet e =
        load_picture-quiet e.left 0 _
        ∙ (load_picture-quiet e.ok 1 _ ∙ load_picture-quiet e.gamepad 2 [])

    drop_quiet :
        (b : Bool) (r : Resource) (rest : List Call)
        → no_threads (drop_loaded b r rest) ≡ no_threads rest
    drop_quiet true r rest = refl
    drop_quiet false r rest = refl

    closing_quiet : (e : Environment) → no_threads (close_fonts e) ≡ true
    closing_quiet e =
        drop_quiet e.title (font, 40) _
        ∙ (drop_quiet e.body (font, 32) _
            ∙ (drop_quiet e.small (font, 24) _ ∙ drop_quiet e.button (font, 23) _))
