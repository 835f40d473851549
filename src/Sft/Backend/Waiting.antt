-- ===== src/Sft/Backend/Waiting.antt =====
-- src/frametap_backend.c: the requests for a key frame while the thread waits for one.
use sysdvr_webos.Prelude.{
  ℕ, ◌^◌, ◌<◌, ◌≡◌, refl, inl, inr, Bool, true, false, not, ◌&&◌, List, arith, leb, leb_false→lt,
  Bool-cases, length,
}
use sysdvr_webos.Sft.Protocol.{Header, is_key}
use sysdvr_webos.Sft.Backend.{
  sub_u64, Worker, Submission, taken, rejected, stopped, unfinished, submit_rounds,
  after_submission, submit_video,
}
use sysdvr_webos.Sft.Backend.Video.{
  Output, Answers, count_video, count_key, check_sequence, check_resolution, skip, open_decoder,
  submit, show_frame, skip_or_show, on_video,
}
use sysdvr_webos.Sft.Backend.Requests.{no_time}

-- If the thread goes on and waits for a key frame, its last request is less than a second old.
abbrev Asked : ℕ → Bool × (Worker × List Output) → Type 0
Asked now (goes_on, (w, os)) =
    goes_on ≡ true → w.waiting_key ≡ true → sub_u64 now w.last_key_request < 1000000

skip_asked :
    (now : ℕ) (w : Worker) → now < 2 ^ 64 → sub_u64 now (skip now w).0.last_key_request < 1000000
unfolding skip
skip_asked now w small = elim (Bool-cases (leb 1000000 (sub_u64 now w.last_key_request))) [
  | inl old ↦ rw old (omega (arith, no_time now small))
  | inr recent ↦ rw recent (leb_false→lt 1000000 (sub_u64 now w.last_key_request) recent)
]

submission_waits :
    (s : Submission) (w : Worker) → (after_submission s w).1.waiting_key ≡ w.waiting_key
unfolding after_submission
submission_waits (taken n) w = refl
submission_waits rejected w = refl
submission_waits stopped w = refl
submission_waits unfinished w = refl

not_waiting : (waits : Bool) (goal : Type 0) → waits ≡ false → waits ≡ true → goal
not_waiting waits goal f t = absurd (cc)

submit-Asked :
    (h : Header) (payload : List ℕ) (answers : Answers) (w : Worker) (now : ℕ)
    → Asked now (submit h payload answers w)
unfolding submit submit_video
submit-Asked h payload answers w now =
    let w' = record w { waiting_key = false } in
    let s = submit_rounds 0 answers.feeds in
    let shown = submission_waits s w' in
    elim (Bool-cases (after_submission s w').0) [
      | inl ok ↦ rw ok (λ e t. not_waiting (after_submission s w').1.waiting_key _ shown t)
      | inr bad ↦ rw bad (λ e t. not_waiting (after_submission s w').1.waiting_key _ shown t)
    ]

show_frame-Asked :
    (h : Header) (payload : List ℕ) (answers : Answers) (w : Worker) (now : ℕ)
    → Asked now (show_frame h payload answers w)
unfolding show_frame
show_frame-Asked h payload answers w now =
    let o = open_decoder h answers w in
    elim (Bool-cases o.0) [
      | inl on ↦ rw on (submit-Asked h payload answers o.1.0 now)
      | inr off ↦ rw off (λ e t. absurd cc)
    ]

skip_or_show-Asked :
    (h : Header) (payload : List ℕ) (key : Bool) (answers : Answers) (w : Worker)
    → answers.now < 2 ^ 64
    → Asked answers.now (skip_or_show h payload key answers w)
unfolding skip_or_show
skip_or_show-Asked h payload key answers w small = elim (Bool-cases (w.waiting_key && not key)) [
  | inl skipped ↦ rw skipped (λ e t. skip_asked answers.now w small)
  | inr shown ↦ rw shown (show_frame-Asked h payload answers w answers.now)
]

on_video-Asked :
    (h : Header) (payload : List ℕ) (answers : Answers) (w : Worker)
    → answers.now < 2 ^ 64
    → Asked answers.now (on_video h payload answers w)
unfolding on_video
on_video-Asked h payload answers w small =
    let key = is_key h payload in
    let counted = count_key key (count_video h (length payload) answers.now w) in
    let first = check_sequence h key answers.now counted in
    let second = check_resolution h key answers.now first.0 in
    skip_or_show-Asked h payload key answers second.0 small

-- After a video packet, if the thread goes on and waits for a key frame, then less than a second has
-- gone by since it last asked for one.
pub on_video_lem :
    (h : Header) (payload : List ℕ) (answers : Answers) (w : Worker)
    → answers.now < 2 ^ 64
    → (on_video h payload answers w).0 ≡ true
    → (on_video h payload answers w).1.0.waiting_key ≡ true
    → sub_u64 answers.now (on_video h payload answers w).1.0.last_key_request < 1000000
on_video_lem h payload answers w small on waits = on_video-Asked h payload answers w small on waits
