-- ===== src/Sft/Backend/Show.antt =====
-- src/frametap_backend.c: handing a frame to the decoder keeps the chain of frames.
use sysdvr_webos.Prelude.{
  ℕ, ◌<◌, ◌≡◌, refl, sym, ap, subst, ◌∙◌, ◌⊎◌, inl, inr, Bool, true, false, not, ◌&&◌, ◌||◌, List,
  arith, leb, ◌!=◌, Bool-cases,
}
use sysdvr_webos.Sft.Protocol.{Header}
use sysdvr_webos.Sft.Backend.{
  submit_rounds, after_submission, Submission, taken, rejected, stopped, unfinished, sub_u64,
  Worker, submit_video,
}
use sysdvr_webos.Sft.Backend.Video.{
  Output, Answers, skip, open_decoder, submit, after, show_frame, skip_or_show,
}
use sysdvr_webos.Sft.Backend.Chain.{
  Shown, Decodable, Chain, last_shown, Chain-append, last_shown-append, InStep, Seen,
}

-- What a step leaves: its frames could be decoded, and if the thread goes on it is in step.
abbrev pub Good : Shown → Bool × (Worker × List Output) → Type 0
Good p (goes_on, (w, os)) = Chain p os × (goes_on ≡ true → InStep (last_shown p os) w)

submission_keeps :
    (s : Submission) (w : Worker)
    → ((after_submission s w).1.have_sequence ≡ w.have_sequence)
      × ((after_submission s w).1.last_sequence ≡ w.last_sequence)
      × ((after_submission s w).1.decoder_w ≡ w.decoder_w)
      × ((after_submission s w).1.decoder_h ≡ w.decoder_h)
unfolding after_submission
submission_keeps (taken n) w = (refl, refl, refl, refl)
submission_keeps rejected w = (refl, refl, refl, refl)
submission_keeps stopped w = (refl, refl, refl, refl)
submission_keeps unfinished w = (refl, refl, refl, refl)

-- The decoder is open for the size of the frame.
abbrev Fits : Header → Worker → Type 0
Fits h w = (w.decoder_w ≡ h.width) × (w.decoder_h ≡ h.height)

open_decoder-Fits :
    (h : Header) (answers : Answers) (w : Worker)
    → (open_decoder h answers w).0 ≡ true
    → Fits h (open_decoder h answers w).1.0
unfolding open_decoder
open_decoder-Fits h answers w e = (ground arith, ground arith)

open_decoder-Seen :
    (h : Header) (answers : Answers) (w : Worker) → Seen h w → Seen h (open_decoder h answers w).1.0
unfolding open_decoder
open_decoder-Seen h answers w s = (ground arith, ground arith)

-- Outputs without a frame.
abbrev pub Quiet : List Output → Type 0
Quiet os = (p : Shown) → Chain p os × (last_shown p os ≡ p)

open_decoder-Quiet :
    (h : Header) (answers : Answers) (w : Worker) → Quiet (open_decoder h answers w).1.1
unfolding open_decoder
open_decoder-Quiet h answers w p =
    elim (Bool-cases
      (w.has_player && not ((h.width != w.decoder_w) || (h.height != w.decoder_h)))) [
        | inl shown ↦ rw shown (tt, refl)
        | inr shut ↦ elim (Bool-cases answers.ndl_opens) [
          | inl opens ↦ rw (shut, opens) (tt, refl)
          | inr fails ↦ rw (shut, fails) (tt, refl)
        ]
      ]

submit-Good :
    (p : Shown) (h : Header) (payload : List ℕ) (answers : Answers) (w : Worker)
    → 0 < h.width
    → Seen h w
    → Fits h w
    → Decodable p h payload
    → Good p (submit h payload answers w)
unfolding submit submit_video
submit-Good p h payload answers w wide seen fits d =
    let s = submit_rounds 0 answers.feeds in
    let w' = record w { waiting_key = false } in
    let kept = submission_keeps s w' in
    elim (Bool-cases (after_submission s w').0) [
      | inl ok ↦ rw ok (
        (d, tt),
        λ e. inr (kept.0 ∙ seen.0, kept.1 ∙ seen.1, kept.2 ∙ fits.0, kept.3 ∙ fits.1, wide),
      )
      | inr refused ↦ rw refused (tt, λ e. absurd cc)
    ]

pub Good-after :
    (p : Shown) (os : List Output) (r : Bool × (Worker × List Output))
    → Quiet os
    → Good p r
    → Good p (after os r)
Good-after p os (goes_on, (w, more)) quiet good =
    let (silent, same) = quiet p in
    (
      Chain-append p os more silent (rw same good.0),
      λ e.
          subst (λ q. InStep q w)
            (sym (last_shown-append p os more ∙ ap (λ q. last_shown q more) same)) (good.1 e),
    )

show_frame-Good :
    (p : Shown) (h : Header) (payload : List ℕ) (answers : Answers) (w : Worker)
    → 0 < h.width
    → Seen h w
    → Decodable p h payload
    → Good p (show_frame h payload answers w)
unfolding show_frame
show_frame-Good p h payload answers w wide seen d =
    let o = open_decoder h answers w in
    elim (Bool-cases o.0) [
      | inl on ↦ rw on (
          Good-after p o.1.1 (submit h payload answers o.1.0) (open_decoder-Quiet h answers w) (
            submit-Good p h payload answers o.1.0 wide (open_decoder-Seen h answers w seen)
              (open_decoder-Fits h answers w on) d))
      | inr off ↦ rw off ((open_decoder-Quiet h answers w p).0, λ e. absurd cc)
    ]

skip-Quiet : (now : ℕ) (w : Worker) → Quiet (skip now w).1
unfolding skip
skip-Quiet now w p = elim (Bool-cases (leb 1000000 (sub_u64 now w.last_key_request))) [
  | inl asks ↦ rw asks (tt, refl)
  | inr waits ↦ rw waits (tt, refl)
]

skip_waits : (now : ℕ) (w : Worker) → (skip now w).0.waiting_key ≡ w.waiting_key
unfolding skip
skip_waits now w = ground arith

pub skip_or_show-Good :
    (p : Shown) (h : Header) (payload : List ℕ) (key : Bool) (answers : Answers) (w : Worker)
    → 0 < h.width
    → Seen h w
    → ((w.waiting_key ≡ true) × (key ≡ false)) ⊎ Decodable p h payload
    → Good p (skip_or_show h payload key answers w)
unfolding skip_or_show
skip_or_show-Good p h payload key answers w wide seen d =
    elim (Bool-cases (w.waiting_key && not key)) [
      | inl skipped ↦
          let (quiet, same) = skip-Quiet answers.now w p in
          rw skipped (quiet, λ e. inl (skip_waits answers.now w ∙ ground arith))
      | inr shown ↦ rw shown (
          show_frame-Good p h payload answers w wide seen
            (elim d [ inl waits ↦ absurd (ground arith) | inr decodable ↦ decodable ]))
    ]
