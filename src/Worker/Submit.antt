-- ===== src/Worker/Submit.antt =====
-- src/webos_main.c, `submit_packet`: the retries end.
use sysdvr_webos.Prelude.{
  ℕ, ◌+◌, ◌≤◌, ◌<◌, ◌≢◌, inl, inr, Bool, true, false, not, List, [], ◌∷◌, arith, leb, ◌==◌,
  if◌then◌else◌, leb_false→lt, Bool-cases, length,
}
use sysdvr_webos.Media.{FeedResult, feed_ok, feed_retry, feed_error}
use sysdvr_webos.Worker.{FeedRound, Submission, rejected, stopped, unfinished, taken, submit_rounds}

taken_ends : (retries start clock : ℕ) → taken retries start clock ≢ unfinished
taken_ends retries start clock e = ground arith

rejected_ends : rejected ≢ unfinished
rejected_ends e = cc

stopped_ends : stopped ≢ unfinished
stopped_ends e = cc

-- One round, when the rounds after it end.
round_ends :
    (running : Bool) (result : FeedResult) (retries start clock : ℕ) (again : Submission)
    → (retries < 250 → again ≢ unfinished)
    → (if not running then stopped else elim result [
      | feed_ok ↦ taken retries start clock
      | feed_error ↦ rejected
      | feed_retry ↦ if leb 250 retries then rejected else again
    ])
      ≢ unfinished
round_ends false result retries start clock again h e = stopped_ends e
round_ends true feed_ok retries start clock again h e = taken_ends retries start clock e
round_ends true feed_error retries start clock again h e = rejected_ends e
round_ends true feed_retry retries start clock again h e = elim (Bool-cases (leb 250 retries)) [
  | inl many ↦ rejected_ends (rw many at e)
  | inr few ↦ h (leb_false→lt 250 retries few) (rw few at e)
]

ends_from :
    (retries start : ℕ) (rs : List FeedRound)
    → 250 < retries + length rs
    → retries ≤ 250
    → submit_rounds retries start rs ≢ unfinished
unfolding submit_rounds
ends_from retries start [] h few = absurd (omega arith)
ends_from retries start (r ∷ rs) h few =
    let start' = if retries == 0 then r.clock_us else start in
    round_ends r.running r.result retries start r.clock_us (submit_rounds (retries + 1) start' rs)
      (λ more. ends_from (retries + 1) start' rs (omega arith) (omega arith))

-- However the decoder answers, `submit_packet` has ended after 251 rounds.
pub submit_packet_ends : (rs : List FeedRound) → 250 < length rs → submit_rounds 0 0 rs ≢ unfinished
submit_packet_ends rs h = ends_from 0 0 rs (omega arith) (omega arith)
