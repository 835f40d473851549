-- ===== src/Sft/Backend/Requests.antt =====
-- src/frametap_backend.c: how often a keyframe is asked for.
use sysdvr_webos.Prelude.{
  ℕ, suc, ◌+◌, ◌^◌, ◌≤◌, ◌<◌, ◌≡◌, refl, ap, ◌∙◌, ◌⊎◌, inl, inr, Bool, false, not, ◌&&◌, List, [],
  ◌∷◌, ◌++◌, arith, Bool-cases, length,
}
use sysdvr_webos.Sft.Protocol.{Header, is_key}
use sysdvr_webos.Sft.Backend.{
  sub_u64, Worker, submit_video, submit_rounds, after_submission, taken, rejected, stopped,
  unfinished, Submission,
}
use sysdvr_webos.Sft.Backend.Video.{
  Output, requested, opened, submitted, Answers, count_video, count_key, on_gap, check_sequence,
  check_resolution, skip, open_decoder, submit, show_frame, skip_or_show, on_video,
}

-- A step sent no request, or one, 250 ms or more after the last one, and noted the time.
abbrev pub Asks : ℕ → Worker → Worker × List Output → Type 0
Asks now w (w', os) =
    ((os ≡ []) × (w'.last_key_request ≡ w.last_key_request))
    ⊎ ((os ≡ requested ∷ [])
        × (250000 ≤ sub_u64 now w.last_key_request)
        × (w'.last_key_request ≡ now))

on_gap-Asks : (h : Header) (key : Bool) (now : ℕ) (w : Worker) → Asks now w (on_gap h key now w)
unfolding on_gap
on_gap-Asks h key now w = ground arith

pub check_sequence-Asks :
    (h : Header) (key : Bool) (now : ℕ) (w : Worker) → Asks now w (check_sequence h key now w)
unfolding check_sequence
check_sequence-Asks h key now w = ground (arith, on_gap-Asks h key now w)

pub check_resolution-Asks :
    (h : Header) (key : Bool) (now : ℕ) (w : Worker) → Asks now w (check_resolution h key now w)
unfolding check_resolution
check_resolution-Asks h key now w = ground arith

pub skip-Asks : (now : ℕ) (w : Worker) → Asks now w (skip now w)
unfolding skip
skip-Asks now w = ground arith

-- The requests among some outputs.
abbrev pub requests : List Output → ℕ
requests [] = 0
requests (requested ∷ os) = suc (requests os)
requests (opened w h ∷ os) = requests os
requests (submitted h payload pts ∷ os) = requests os

requests-append : (os more : List Output) → requests (os ++ more) ≡ requests os + requests more
requests-append [] more = omega arith
requests-append (requested ∷ os) more = omega (arith, requests-append os more)
requests-append (opened w h ∷ os) more = requests-append os more
requests-append (submitted h payload pts ∷ os) more = requests-append os more

-- At most one request, and one only 250 ms or more after the last one.
abbrev pub Limited : ℕ → Worker → Worker × List Output → Type 0
Limited now w (w', os) =
    ((requests os ≡ 0) × (w'.last_key_request ≡ w.last_key_request))
    ⊎ ((requests os ≡ 1) × (250000 ≤ sub_u64 now w.last_key_request) × (w'.last_key_request ≡ now))

Asks-Limited : (now : ℕ) (w : Worker) (r : Worker × List Output) → Asks now w r → Limited now w r
Asks-Limited now w (w', os) (inl (none_sent, same)) = inl (ap requests none_sent, same)
Asks-Limited now w (w', os) (inr (one, old, noted)) = inr (ap requests one, old, noted)

pub no_time : (now : ℕ) → now < 2 ^ 64 → sub_u64 now now ≡ 0
no_time now small = omega arith

Limited-then :
    (now : ℕ) (w w' w'' : Worker) (os more : List Output)
    → now < 2 ^ 64
    → Limited now w (w', os)
    → Limited now w' (w'', more)
    → Limited now w (w'', os ++ more)
Limited-then now w w' w'' os more small (inl (z, same)) (inl (z', same')) =
    inl (omega (arith, requests-append os more), same' ∙ same)
Limited-then now w w' w'' os more small (inl (z, same)) (inr (one, old, noted)) =
    inr (omega (arith, requests-append os more), rw same at old, noted)
Limited-then now w w' w'' os more small (inr (one, old, noted)) (inl (z, same)) =
    inr (omega (arith, requests-append os more), old, same ∙ noted)
Limited-then now w w' w'' os more small (inr (one, old, noted)) (inr (one', old', noted')) =
    absurd (omega (arith, no_time now small, rw noted at old'))

submit_video_keeps :
    (s : Submission) (w : Worker) → (after_submission s w).1.last_key_request ≡ w.last_key_request
unfolding after_submission
submit_video_keeps (taken n) w = refl
submit_video_keeps rejected w = refl
submit_video_keeps stopped w = refl
submit_video_keeps unfinished w = refl

submit-Limited :
    (h : Header) (payload : List ℕ) (answers : Answers) (w : Worker)
    → Limited answers.now w (submit h payload answers w).1
unfolding submit submit_video
submit-Limited h payload answers w =
    ground
      (arith, submit_video_keeps (submit_rounds 0 answers.feeds) (record w { waiting_key = false }))

open_decoder-Limited :
    (h : Header) (answers : Answers) (w : Worker)
    → Limited answers.now w (open_decoder h answers w).1
unfolding open_decoder
open_decoder-Limited h answers w = ground arith

show_frame-Limited :
    (h : Header) (payload : List ℕ) (answers : Answers) (w : Worker)
    → answers.now < 2 ^ 64
    → Limited answers.now w (show_frame h payload answers w).1
unfolding show_frame
show_frame-Limited h payload answers w small = elim (Bool-cases (open_decoder h answers w).0) [
  | inl on ↦ rw on (
      Limited-then answers.now w (open_decoder h answers w).1.0
        (submit h payload answers (open_decoder h answers w).1.0).1.0 (open_decoder h answers w).1.1
        (submit h payload answers (open_decoder h answers w).1.0).1.1 small
        (open_decoder-Limited h answers w)
        (submit-Limited h payload answers (open_decoder h answers w).1.0))
  | inr off ↦ rw off (open_decoder-Limited h answers w)
]

skip_or_show-Limited :
    (h : Header) (payload : List ℕ) (key : Bool) (answers : Answers) (w : Worker)
    → answers.now < 2 ^ 64
    → Limited answers.now w (skip_or_show h payload key answers w).1
unfolding skip_or_show
skip_or_show-Limited h payload key answers w small = elim (Bool-cases (w.waiting_key && not key)) [
  | inl skipped ↦
      rw skipped (Asks-Limited answers.now w (skip answers.now w) (skip-Asks answers.now w))
  | inr shown ↦ rw shown (show_frame-Limited h payload answers w small)
]

counted_request :
    (h : Header) (key : Bool) (size now : ℕ) (w : Worker)
    → (count_key key (count_video h size now w)).last_key_request ≡ w.last_key_request
unfolding count_key count_video
counted_request h key size now w = ground arith

Limited-from :
    (now : ℕ) (w w' : Worker) (r : Worker × List Output)
    → w'.last_key_request ≡ w.last_key_request
    → Limited now w' r
    → Limited now w r
Limited-from now w w' (w'', os) same (inl (z, kept)) = inl (z, kept ∙ same)
Limited-from now w w' (w'', os) same (inr (one, old, noted)) = inr (one, rw same at old, noted)

-- A video packet makes the thread send at most one keyframe request, and only when 250 ms have gone
-- by since the last one; the time of a request is noted, and otherwise the old time is kept.
pub on_video-Limited :
    (h : Header) (payload : List ℕ) (answers : Answers) (w : Worker)
    → answers.now < 2 ^ 64
    → Limited answers.now w (on_video h payload answers w).1
unfolding on_video
on_video-Limited h payload answers w small =
    let key = is_key h payload in
    let now = answers.now in
    let counted = count_key key (count_video h (length payload) now w) in
    let s = check_sequence h key now counted in
    let r = check_resolution h key now s.0 in
    let both =
      Limited-then now counted s.0 r.0 s.1 r.1 small
        (Asks-Limited now counted s (check_sequence-Asks h key now counted))
        (Asks-Limited now s.0 r (check_resolution-Asks h key now s.0)) in
    let last = (skip_or_show h payload key answers r.0).1 in
    Limited-from now w counted (last.0, (s.1 ++ r.1) ++ last.1)
      (counted_request h key (length payload) now w)
      (Limited-then now counted r.0 last.0 (s.1 ++ r.1) last.1 small both
        (skip_or_show-Limited h payload key answers r.0 small))
