-- ===== src/Ui/Pages/Cards.antt =====
-- src/ui.c, `app_ui_render_browser`: which cards are drawn.
use sysdvr_webos.Prelude.{
  ℕ, zero, suc, ◌+◌, ◌*◌, ◌≤◌, ◌<◌, ◌≡◌, refl, ap, ap₂, inl, inr, true, false, List, [], ◌∷◌, arith,
  ltb, ◌==◌, if◌then◌else◌, lt→ltb, ==_iff, Bool-cases,
}
use sysdvr_webos.Session.{SessionDevice, SessionManager, slot}
use sysdvr_webos.Session.Valid.{IsValid}
use sysdvr_webos.Ui.Pages.{visible, first_card, Card, cards_from, cards}

-- The devices of the cards that are drawn as selected.
pub highlighted : List Card → List SessionDevice
highlighted [] = []
highlighted (c ∷ cs) = let rest = highlighted cs in if c.selected then c.device ∷ rest else rest

-- The cards stand one below the other from `top` on, with a gap, and all end above `bottom`.
abbrev pub Stacked : ℕ → ℕ → List Card → Type 0
Stacked top bottom [] = Unit {0}
Stacked top bottom (c ∷ cs) =
    (top ≤ c.rect.y)
    × (c.rect.y + c.rect.h ≤ bottom)
    × (c.rect.x + c.rect.w ≤ 1920)
    × Stacked (c.rect.y + c.rect.h + 1) bottom cs

-- The selection is behind the rows that are left, or among them.
past_selection :
    (row n start : ℕ) (m : SessionManager)
    → m.selected < start + row
    → highlighted (cards_from row n start m) ≡ []
unfolding cards_from highlighted
past_selection row zero start m h = refl
past_selection row (suc n) start m h = elim (Bool-cases (ltb (start + row) m.count)) [
  | inr done ↦ rw done refl
  | inl more ↦
      let other : (start + row == m.selected) ≡ false = ground arith in
      rw (more, other) (past_selection (row + 1) n start m (omega arith))
]

at_selection :
    (row n start : ℕ) (m : SessionManager)
    → start + row ≤ m.selected
    → m.selected < start + row + n
    → m.selected < m.count
    → highlighted (cards_from row n start m) ≡ slot m.devices m.selected ∷ []
unfolding cards_from highlighted
at_selection row zero start m h k c = absurd (omega arith)
at_selection row (suc n) start m h k c =
    let more : ltb (start + row) m.count ≡ true = lt→ltb (start + row) m.count (omega arith) in
    elim (Bool-cases (start + row == m.selected)) [
      | inl here ↦
          rw (more, here)
            (ap₂ ◌∷◌ (ap (slot m.devices) ((==_iff (start + row) m.selected).0 here))
              (past_selection (row + 1) n start m (ground arith)))
      | inr later ↦
          rw (more, later) (at_selection (row + 1) n start m (ground arith) (omega arith) c)
    ]

cards_from-Stacked :
    (row n start top : ℕ) (m : SessionManager)
    → row + n ≤ 4
    → top ≤ 205 + row * 172
    → Stacked top 908 (cards_from row n start m)
unfolding cards_from
cards_from-Stacked row zero start top m h k = tt
cards_from-Stacked row (suc n) start top m h k = elim (Bool-cases (ltb (start + row) m.count)) [
  | inr done ↦ rw done tt
  | inl more ↦ rw more (
    k,
    omega arith,
    omega arith,
    cards_from-Stacked (row + 1) n start (205 + row * 172 + 145 + 1) m (omega arith) (omega arith),
  )
]

first_card_window : (s : ℕ) → (first_card s + 0 ≤ s) × (s < first_card s + 0 + visible)
unfolding first_card
first_card_window s = ground arith

-- With a valid registry that is not empty, exactly one card of the selector is drawn as selected, and it
-- is that of the console that is selected, however far down the list it is; the cards do not overlap,
-- and all stand on the screen above the line with the count.
pub cards_lem :
    (m : SessionManager)
    → IsValid m
    → 0 < m.count
    → (highlighted (cards m) ≡ slot m.devices m.selected ∷ []) × Stacked 205 908 (cards m)
unfolding cards
cards_lem m v many =
    let (low, high) = first_card_window m.selected in
    (
      at_selection 0 visible (first_card m.selected) m low high (omega (arith, v.in_range)),
      cards_from-Stacked 0 visible (first_card m.selected) 205 m (omega arith) (omega arith),
    )
