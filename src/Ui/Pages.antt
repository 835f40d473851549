-- ===== src/Ui/Pages.antt =====
-- src/ui.c: the pages: the selector with its cards, connecting, reconnecting and the error.
pub mod Cards
pub mod Text
use sysdvr_webos.Prelude.{
  ℕ, zero, suc, ◌+◌, ◌-◌, ◌*◌, ◌/◌, ◌%◌, ◌^◌, ◌≤◌, ◌<◌, min, ◌≡◌, refl, sym, ap, ap₂, subst, ◌∙◌,
  ◌≢◌, ◌↔◌, ◌⊎◌, inl, inr, Bool, true, false, not, ◌&&◌, ◌||◌, Option, none, some, List, [], ◌∷◌,
  ◌++◌, map, append-nil, append_assoc, arith, ltb, leb, ◌==◌, ◌!=◌, if◌then◌else◌, ltb→lt, lt→ltb,
  ltb_false→le, le→ltb_false, leb→le, le→leb, leb_false→lt, lt→leb_false, ==_iff, Bool-cases,
  Option-cases, length, get_elem?, get_or, set, take, drop, replicate, length-append, length-take,
  length-drop, length-set, length-replicate, take_all, drop_all, take-append, drop-append,
  take-append_le, drop-append_le, take-append-drop, take_exact, drop_exact, drop-drop,
  drop-set_before, take-set_next, take_next, get_or-take,
}
use sysdvr_webos.Prelude.CString.{codes, copy_text, is_empty}
use sysdvr_webos.Prelude.Int.{pos}
use sysdvr_webos.Device.{StreamSource, sysdvr, frametap}
use sysdvr_webos.Session.{SessionDevice, SessionManager, slot}
use sysdvr_webos.Ui.{
  Rect, Color, bg, panel, text_color, muted, focus, body, small, Draw, fills, clears, presents,
  AppUi, Libraries, draw_text, draw_text_centered, stroke_rect, draw_gamepad_icon, begin_page,
  draw_header, draw_footer, draw_spinner,
}

-- The digits of a number, the last one first, with fuel that is more than the number.
pub digits : ℕ → ℕ → List ℕ → List ℕ
digits zero n rest = rest
digits (suc fuel) n rest =
    let d = (n % 10 + 48) ∷ rest in
    let more = digits fuel (n / 10) d in if ltb n 10 then d else more

-- `%zu`
pub decimal : ℕ → List ℕ
unfolding digits
decimal n = digits (suc n) n []

abbrev pub bar : List ℕ
bar = codes "  |  "

-- The text before it is cut to the array.
pub secondary_text : SessionDevice → StreamSource → List ℕ
secondary_text d frametap = d.info.host ++ (codes "  |  Switch Frame Tap  |  SFTR v2")
secondary_text d sysdvr =
    let shown =
      d.info.host
      ++ (codes "  |  SysDVR "
          ++ (d.info.client_version ++ (codes "  |  Protocol " ++ d.info.protocol))) in
    if is_empty d.info.serial then shown else shown ++ (bar ++ d.info.serial)

pub device_text : SessionDevice → List ℕ
unfolding secondary_text
device_text d =
    if d.manual
    then d.info.host ++ codes "  |  Manual SysDVR address"
    else secondary_text d d.info.source

abbrev pub detail_size : ℕ
detail_size = 320

unfoldable pub device_secondary : SessionDevice → List ℕ
unfolding device_text
device_secondary d = copy_text detail_size (device_text d)

unfoldable pub draw_device_card : AppUi → SessionDevice → Rect → Bool → List Draw
unfolding stroke_rect draw_gamepad_icon draw_text device_secondary
draw_device_card ui d r selected =
    fills r (if selected then panel else bg)
      ∷ stroke_rect r (if selected then focus else muted) (if selected then 4 else 2)
    ++ (draw_gamepad_icon ui (record { x = r.x + 58; y = r.y + 31; w = 126; h = 94 })
        ++ (draw_text body (codes "Nintendo Switch") (pos (r.x + 245)) (r.y + 38) text_color
            ++ draw_text small (device_secondary d) (pos (r.x + 245)) (r.y + 91) muted))

abbrev pub visible : ℕ
visible = 4

-- The index of the first card.
unfoldable pub first_card : ℕ → ℕ
first_card selected = if leb visible selected then selected - visible + 1 else 0

pub record Card : Type 0 where
  pub device : SessionDevice
  pub rect : Rect
  pub selected : Bool

-- The rounds of the loop over the rows from `row` on, of which `n` are left.
unfoldable pub cards_from : ℕ → ℕ → ℕ → SessionManager → List Card
cards_from row zero start m = []
cards_from row (suc n) start m =
    let card : Card = record {
      device = slot m.devices (start + row);
      rect = record { x = 330; y = 205 + row * 172; w = 1260; h = 145 };
      selected = start + row == m.selected;
    } in
    let rest = cards_from (row + 1) n start m in
    if ltb (start + row) m.count then card ∷ rest else []

unfoldable pub cards : SessionManager → List Card
unfolding cards_from first_card
cards m = cards_from 0 visible (first_card m.selected) m

unfoldable pub draw_cards : AppUi → List Card → List Draw
unfolding draw_device_card
draw_cards ui [] = []
draw_cards ui (c ∷ cs) = draw_device_card ui c.device c.rect c.selected ++ draw_cards ui cs

-- `count_text`, an array of 96 bytes.
unfoldable pub count_text : ℕ → List ℕ
unfolding decimal
count_text n =
    copy_text 96
      (decimal n ++ (codes " console" ++ ((if n == 1 then [] else codes "s") ++ codes " found")))

unfoldable pub browser_body : Libraries → AppUi → SessionManager → Bool → ℕ → List Draw
unfolding draw_spinner draw_text_centered draw_text cards draw_cards count_text
browser_body lib ui m scanner_active ticks =
    if m.count == 0
    then draw_spinner lib ticks 960 435
      ++ (draw_text_centered lib body (codes "Searching for Nintendo Switches...") 960 520
            text_color
          ++ draw_text_centered lib small
              (if scanner_active
                then codes "Run SysDVR TCP Bridge or Switch Frame Tap Network mode."
                else codes "Discovery is unavailable.")
              960 573 muted)
    else draw_text small (codes "Select a console to connect.") (pos 330) 154 muted
      ++ (draw_cards ui (cards m) ++ draw_text small (count_text m.count) (pos 330) 908 muted)

-- `app_ui_render_browser`
unfoldable pub render_browser : Libraries → AppUi → SessionManager → Bool → ℕ → List Draw
unfolding draw_header browser_body draw_footer
render_browser lib ui m scanner_active ticks =
    if not ui.ready
    then []
    else begin_page
      ++ (draw_header
          ++ (browser_body lib ui m scanner_active ticks
              ++ (draw_footer ui (codes "Close") (ltb 0 m.count) ++ presents ∷ [])))

abbrev pub or_text : Option (List ℕ) → List ℕ → List ℕ
or_text none default = default
or_text (some s) default = s

abbrev pub host_line : Libraries → Option SessionDevice → List Draw
host_line lib none = []
host_line lib (some d) = draw_text_centered lib small d.info.host 960 555 muted

-- `app_ui_render_connecting`; `none` is a pointer that is NULL.
unfoldable pub render_connecting :
    Libraries → AppUi → Option SessionDevice → Option (List ℕ) → List Draw
unfolding draw_header draw_gamepad_icon draw_text_centered
render_connecting lib ui device message =
    if not ui.ready
    then []
    else begin_page
      ++ (draw_header
          ++ (draw_gamepad_icon ui (record { x = 860; y = 320; w = 200; h = 150 })
              ++ (draw_text_centered lib body (or_text message (codes "Connecting...")) 960 500
                    text_color
                  ++ (host_line lib device
                      ++ (draw_text_centered lib small
                            (codes "Video and audio will start automatically.") 960 625 muted
                          ++ presents ∷ [])))))

abbrev pub reconnect_size : ℕ
reconnect_size = 196

unfoldable pub reconnect_text : SessionManager → List ℕ
reconnect_text m =
    if is_empty m.preferred_serial
    then m.preferred_host
    else m.preferred_host ++ (bar ++ m.preferred_serial)

unfoldable pub reconnect_detail : SessionManager → List ℕ
unfolding reconnect_text
reconnect_detail m = copy_text reconnect_size (reconnect_text m)

-- `app_ui_render_reconnect`
unfoldable pub render_reconnect : Libraries → AppUi → SessionManager → ℕ → List Draw
unfolding draw_header draw_spinner draw_text_centered reconnect_detail draw_footer
render_reconnect lib ui m ticks =
    if not ui.ready
    then []
    else begin_page
      ++ (draw_header
          ++ (draw_spinner lib ticks 960 410
              ++ (draw_text_centered lib body (codes "Waiting for the selected Nintendo Switch...")
                    960 510 text_color
                  ++ ((if m.have_preferred
                        then draw_text_centered lib small (reconnect_detail m) 960 566 muted
                        else [])
                      ++ (draw_text_centered lib small
                            (codes "Wake the console to reconnect automatically.") 960 625 muted
                          ++ (draw_footer ui (codes "Cancel") false ++ presents ∷ []))))))

-- `app_ui_render_error`
unfoldable pub render_error : Libraries → AppUi → Option (List ℕ) → Option (List ℕ) → List Draw
unfolding draw_header draw_text_centered draw_footer
render_error lib ui heading detail =
    if not ui.ready
    then []
    else begin_page
      ++ (draw_header
          ++ (draw_text_centered lib body (or_text heading (codes "Connection failed")) 960 435
                text_color
              ++ (draw_text_centered lib small
                    (or_text detail (codes "Returning to console selection...")) 960 500 muted
                  ++ (draw_footer ui (codes "Return") false ++ presents ∷ []))))

-- `app_ui_clear_for_video`; the argument is whether there is a renderer.
unfoldable pub clear_for_video : Bool → List Draw
clear_for_video has_renderer = if has_renderer then clears ∷ presents ∷ [] else []
