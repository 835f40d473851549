-- ===== src/Ui.antt =====
-- src/ui.c: the drawing of a page as the list of what is drawn, in order. The width of a text is a
-- parameter (SDL_ttf measures it), and so are the places of the spinner's dots (`cos` and `sin`). A
-- drawing that SDL refuses is left out; every rectangle stands more than 4 pixels from the edge.
pub mod Pages
pub mod Font
pub mod Life
use sysdvr_webos.Prelude.{
  ℕ, zero, suc, ◌+◌, ◌-◌, ◌*◌, ◌/◌, ◌%◌, ◌^◌, ◌≤◌, ◌<◌, min, ◌≡◌, refl, sym, ap, ap₂, subst, ◌∙◌,
  ◌≢◌, ◌↔◌, ◌⊎◌, inl, inr, Bool, true, false, not, ◌&&◌, ◌||◌, Option, none, some, List, [], ◌∷◌,
  ◌++◌, map, append-nil, append_assoc, arith, ltb, leb, ◌==◌, ◌!=◌, if◌then◌else◌, ltb→lt, lt→ltb,
  ltb_false→le, le→ltb_false, leb→le, le→leb, leb_false→lt, lt→leb_false, ==_iff, Bool-cases,
  Option-cases, length, get_elem?, get_or, set, take, drop, replicate, length-append, length-take,
  length-drop, length-set, length-replicate, take_all, drop_all, take-append, drop-append,
  take-append_le, drop-append_le, take-append-drop, take_exact, drop_exact, drop-drop,
  drop-set_before, take-set_next, take_next, get_or-take,
}
use sysdvr_webos.Prelude.CString.{codes, is_empty}
use sysdvr_webos.Prelude.Int.{ℤ, pos, negsuc, ◌+ℤ◌}

pub record Rect : Type 0 where
  pub x : ℕ
  pub y : ℕ
  pub w : ℕ
  pub h : ℕ

pub data Color : Type 0 where
  bg panel text_color muted line_color focus icon_color : Color
  shade : ℕ → Color

-- The fonts of 40, 32, 24 and 23 points.
pub data FontSize : Type 0 where
  title body small button : FontSize

pub data Icon : Type 0 where
  left_icon ok_icon gamepad_icon : Icon

pub data Draw : Type 0 where
  fills : Rect → Color → Draw
  frames : Rect → Color → Draw
  line : ℕ → ℕ → ℕ → ℕ → Color → Draw
  disc : ℤ → ℤ → ℕ → Color → Draw
  text : FontSize → List ℕ → ℤ → ℕ → Color → Draw
  picture : Icon → Rect → Draw
  clears presents : Draw

-- `app_ui`: whether it is ready, and which pictures are loaded.
pub record AppUi : Type 0 where
  pub ready : Bool
  pub has_left : Bool
  pub has_ok : Bool
  pub has_gamepad : Bool

-- What the libraries say: the width of a text, 0 if it cannot be measured, and where the dots are.
pub record Libraries : Type 0 where
  pub width : FontSize → List ℕ → ℕ
  pub spoke : ℕ → ℤ × ℤ

unfoldable pub draw_text : FontSize → List ℕ → ℤ → ℕ → Color → List Draw
draw_text font s x y color = if is_empty s then [] else text font s x y color ∷ []

-- `center_x - width / 2`
abbrev pub centered : ℕ → ℕ → ℤ
centered center width =
    if leb (width / 2) center then pos (center - width / 2) else negsuc (width / 2 - center - 1)

unfoldable pub draw_text_centered : Libraries → FontSize → List ℕ → ℕ → ℕ → Color → List Draw
unfolding draw_text
draw_text_centered lib font s center y color =
    draw_text font s (centered center (lib.width font s)) y color

-- The rounds of the loop from `i` on, of which `n` are left.
unfoldable pub stroke_from : ℕ → ℕ → Rect → Color → List Draw
stroke_from i zero r color = []
stroke_from i (suc n) r color =
    frames (record { x = r.x - i; y = r.y - i; w = r.w + i * 2; h = r.h + i * 2 }) color
    ∷ stroke_from (i + 1) n r color

unfoldable pub stroke_rect : Rect → Color → ℕ → List Draw
unfolding stroke_from
stroke_rect r color thickness = stroke_from 0 thickness r color

unfoldable pub draw_gamepad_fallback : ℕ → ℕ → List Draw
draw_gamepad_fallback x y =
    frames (record { x = x + 12; y = y + 18; w = 100; h = 46 }) icon_color
    ∷ line (x + 12) (y + 35) (x + 1) (y + 47) icon_color
    ∷ line (x + 1) (y + 47) (x + 9) (y + 68) icon_color
    ∷ line (x + 112) (y + 35) (x + 123) (y + 47) icon_color
    ∷ line (x + 123) (y + 47) (x + 115) (y + 68) icon_color
    ∷ line (x + 31) (y + 43) (x + 47) (y + 43) icon_color
    ∷ line (x + 39) (y + 35) (x + 39) (y + 51) icon_color
    ∷ disc (pos (x + 84)) (pos (y + 39)) 4 icon_color
    ∷ disc (pos (x + 95)) (pos (y + 50)) 4 icon_color
    ∷ []

unfoldable pub draw_gamepad_icon : AppUi → Rect → List Draw
unfolding draw_gamepad_fallback
draw_gamepad_icon ui r =
    if ui.has_gamepad then picture gamepad_icon r ∷ [] else draw_gamepad_fallback r.x r.y

unfoldable pub draw_left_fallback : Rect → List Draw
draw_left_fallback r =
    let cy = r.y + r.h / 2 in
    let left = r.x + 5 in
    let right = r.x + r.w - 5 in
    line right cy (left + 12) cy text_color
    ∷ line (left + 12) cy (left + 24) (cy - 10) text_color
    ∷ line (left + 12) cy (left + 24) (cy + 10) text_color
    ∷ []

unfoldable pub draw_ok_fallback : Rect → List Draw
unfolding stroke_rect draw_text
draw_ok_fallback r =
    stroke_rect r text_color 2
    ++ draw_text button (codes "OK") (pos (r.x + 10)) (r.y + 4) text_color

unfoldable pub draw_footer_action : AppUi → ℕ → ℕ → Bool → List ℕ → List Draw
unfolding draw_ok_fallback draw_left_fallback draw_text
draw_footer_action ui x y ok label =
    let ok_rect : Rect = record { x = x; y = y + 2; w = 58; h = 32 } in
    let left_rect : Rect = record { x = x; y = y + 3; w = 58; h = 29 } in
    if ok
    then (if ui.has_ok then picture ok_icon ok_rect ∷ [] else draw_ok_fallback ok_rect)
      ++ draw_text small label (pos (x + 74)) y text_color
    else (if ui.has_left then picture left_icon left_rect ∷ [] else draw_left_fallback left_rect)
      ++ draw_text small label (pos (x + 70)) y text_color

abbrev pub begin_page : List Draw
begin_page = fills (record { x = 0; y = 0; w = 1920; h = 1080 }) bg ∷ []

unfoldable pub draw_header : List Draw
unfolding draw_text
draw_header =
    draw_text title (codes "Choose a Nintendo Switch") (pos 76) 42 text_color
    ++ line 46 112 1874 112 line_color ∷ []

unfoldable pub draw_footer : AppUi → List ℕ → Bool → List Draw
unfolding draw_footer_action
draw_footer ui left_label can_connect =
    line 46 966 1874 966 line_color
      ∷ draw_footer_action ui (if can_connect then 1470 else 1630) 999 false left_label
    ++ (if can_connect then draw_footer_action ui 1688 999 true (codes "Connect") else [])

-- One dot of the spinner in the phase of the clock.
abbrev pub spinner_distance : ℕ → ℕ → ℕ
spinner_distance phase i = (i + 8 - phase) % 8

-- The dots from `i` on, of which `n` are left.
unfoldable pub spinner_from : Libraries → ℕ → ℕ → ℕ → ℕ → ℕ → List Draw
spinner_from lib phase center_x center_y i zero = []
spinner_from lib phase center_x center_y i (suc n) =
    let d = spinner_distance phase i in
    disc (pos center_x +ℤ (lib.spoke i).0) (pos center_y +ℤ (lib.spoke i).1)
      (if d == 0 then 7 else 5) (shade (245 - d * 22))
    ∷ spinner_from lib phase center_x center_y (i + 1) n

unfoldable pub draw_spinner : Libraries → ℕ → ℕ → ℕ → List Draw
unfolding spinner_from
draw_spinner lib ticks center_x center_y = spinner_from lib (ticks / 125 % 8) center_x center_y 0 8
