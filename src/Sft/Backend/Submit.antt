-- ===== src/Sft/Backend/Submit.antt =====
-- src/frametap_backend.c, `submit_video`: when a frame is taken, and that the retries end.
use sysdvr_webos.Prelude.{
  ℕ, zero, suc, ◌+◌, ◌≤◌, ◌<◌, ◌≡◌, refl, ap, subst, ◌∙◌, ◌≢◌, ◌↔◌, inl, inr, Bool, true, false,
  not, List, [], ◌∷◌, ◌++◌, arith, leb, if◌then◌else◌, leb_false→lt, lt→leb_false, Bool-cases,
  length, replicate,
}
use sysdvr_webos.Media.{feed_ok, feed_retry, feed_error}
use sysdvr_webos.Sft.Backend.{
  FeedRound, Submission, taken, rejected, stopped, unfinished, submit_rounds,
}

-- The decoder is busy `n` times and then takes the frame, while the stream runs.
abbrev pub TakesAfter : ℕ → List FeedRound → Type 0
TakesAfter n rs =
    (more : List FeedRound) × (rs ≡ replicate n (true, feed_retry) ++ ((true, feed_ok) ∷ more))

-- What is left of `n` retries when `done` of them are over.
abbrev Left : ℕ → ℕ → List FeedRound → Type 0
Left done n rs = (k : ℕ) × (n ≡ done + k) × (n ≤ 200) × TakesAfter k rs

if_taken :
    (running : Bool) (s : Submission) (n : ℕ)
    → (if running then s else stopped) ≡ taken n
    → (running ≡ true) × (s ≡ taken n)
if_taken true s n e = (refl, e)
if_taken false s n e = absurd cc

rejected_taken : (n : ℕ) → rejected ≡ taken n → ⊥
rejected_taken n e = cc

rejected_unfinished : rejected ≡ unfinished → ⊥
rejected_unfinished e = cc

stopped_unfinished : stopped ≡ unfinished → ⊥
stopped_unfinished e = cc

taken_inj : (m n : ℕ) → taken m ≡ taken n → m ≡ n
taken_inj m n e = cc

retry_taken :
    (running : Bool) (retries n : ℕ) (s : Submission)
    → (if not running then stopped else if leb 200 retries then rejected else s) ≡ taken n
    → (running ≡ true) × (retries < 200) × (s ≡ taken n)
retry_taken running retries n s e = (ground arith, ground arith, ground arith)

taken-Left :
    (done : ℕ) (rs : List FeedRound) (n : ℕ)
    → done ≤ 200
    → submit_rounds done rs ≡ taken n
    → Left done n rs
unfolding submit_rounds
taken-Left done [] n h e = absurd cc
taken-Left done ((running, feed_ok) ∷ rs) n h e =
    let (on, same) = if_taken running (taken done) n e in
    let count = taken_inj done n same in
    (0, omega (arith, count), omega (arith, count), (rs, rw on refl))
taken-Left done ((running, feed_error) ∷ rs) n h e =
    absurd (rejected_taken n (if_taken running rejected n e).1)
taken-Left done ((running, feed_retry) ∷ rs) n h e =
    let (on, few, rest) = retry_taken running done n (submit_rounds (done + 1) rs) e in
    let (k, count, bound, (more, cut)) = taken-Left (done + 1) rs n (omega arith) rest in
    (suc k, omega (arith, count), bound, (more, rw on (ap (◌∷◌ (true, feed_retry)) cut)))

Left-taken :
    (done k : ℕ) (more : List FeedRound)
    → done + k ≤ 200
    → submit_rounds done (replicate k (true, feed_retry) ++ ((true, feed_ok) ∷ more))
      ≡ taken (done + k)
unfolding submit_rounds
Left-taken done zero more h = ap taken (omega arith)
Left-taken done (suc k) more h =
    rw (lt→leb_false 200 done (omega arith))
      (Left-taken (done + 1) k more (omega arith) ∙ ap taken (omega arith))

-- A frame is taken after `n` retries exactly when the decoder answers busy `n` times, at most 200, and
-- then takes it, with the stream running all the while.
pub submit_rounds_iff :
    (rs : List FeedRound) (n : ℕ) → (submit_rounds 0 rs ≡ taken n) ↔ ((n ≤ 200) × TakesAfter n rs)
submit_rounds_iff rs n = (sound, complete)
  where
    sound : submit_rounds 0 rs ≡ taken n → (n ≤ 200) × TakesAfter n rs
    sound e =
        let (k, count, bound, t) = taken-Left 0 rs n (omega arith) e in
        (bound, subst (λ m. TakesAfter m rs) (omega (arith, count)) t)

    complete : (n ≤ 200) × TakesAfter n rs → submit_rounds 0 rs ≡ taken n
    complete (h, (more, cut)) =
        ap (submit_rounds 0) cut ∙ Left-taken 0 n more (omega (arith, h)) ∙ ap taken (omega arith)

ends_from :
    (done : ℕ) (rs : List FeedRound)
    → 200 < done + length rs
    → done ≤ 200
    → submit_rounds done rs ≢ unfinished
unfolding submit_rounds
ends_from done [] h few e = absurd (omega arith)
ends_from done ((running, feed_ok) ∷ rs) h few e = ground arith
ends_from done ((running, feed_error) ∷ rs) h few e = ground arith
ends_from done ((running, feed_retry) ∷ rs) h few e = elim (Bool-cases running) [
  | inl on ↦ elim (Bool-cases (leb 200 done)) [
    | inl many ↦ rejected_unfinished (rw (on, many) at e)
    | inr some_left ↦
        ends_from (done + 1) rs (omega arith) (omega (arith, leb_false→lt 200 done some_left))
          (rw (on, some_left) at e)
  ]
  | inr off ↦ stopped_unfinished (rw off at e)
]

-- However the decoder answers, `submit_video` has ended after 201 rounds.
pub submit_rounds_ends : (rs : List FeedRound) → 200 < length rs → submit_rounds 0 rs ≢ unfinished
submit_rounds_ends rs h = ends_from 0 rs (omega arith) (omega arith)
