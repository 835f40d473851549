-- ===== src/Sft/Protocol/Transport.antt =====
-- src/sft_protocol.c, `read_exact_interruptible` and `sft_read_packet`. A call of the first is given
-- the bytes that are to come, none of them being the end of the stream, and a list with what each
-- round of the loop sees. A pointer is not NULL, and the clocks that only a log reads are left out.
pub mod Laws
pub mod Accepted
use sysdvr_webos.Prelude.{
  ℕ, zero, suc, ◌+◌, ◌-◌, ◌*◌, ◌/◌, ◌%◌, ◌^◌, ◌≤◌, ◌<◌, min, ◌≡◌, refl, sym, ap, ap₂, subst, ◌∙◌,
  ◌≢◌, ◌↔◌, ◌⊎◌, inl, inr, Bool, true, false, not, ◌&&◌, ◌||◌, Option, none, some, List, [], ◌∷◌,
  ◌++◌, map, append-nil, append_assoc, arith, ltb, leb, ◌==◌, ◌!=◌, if◌then◌else◌, ltb→lt, lt→ltb,
  ltb_false→le, le→ltb_false, leb→le, le→leb, leb_false→lt, lt→leb_false, ==_iff, Bool-cases,
  Option-cases, length, get_elem?, get_or, set, take, drop, replicate, length-append, length-take,
  length-drop, length-set, length-replicate, take_all, drop_all, take-append, drop-append,
  take-append_le, drop-append_le, take-append-drop, take_exact, drop_exact, drop-drop,
  drop-set_before, take-set_next, take_next, get_or-take,
}
use sysdvr_webos.Sft.Protocol.{Header, header_size, parse_header, validate}

-- `select` times out, fails, or finds the socket readable; then `recv` hands over at most `suc k`
-- bytes, is to be tried again (EINTR, EAGAIN, EWOULDBLOCK), or fails.
pub data Event : Type 0 where
  not_ready select_failed try_again recv_failed : Event
  readable : ℕ → Event

-- The flag as a round loads it, and the three readings of the clock it makes.
pub record Clock : Type 0 where
  pub running : Bool
  pub armed_us : ℕ
  pub checked_us : ℕ
  pub after_us : ℕ

abbrev pub Rounds : Type 0
Rounds = List (Clock × Event)

-- `ended` is the result 0, `failed` is -1, and `unfinished` says that the rounds ran out.
pub data Outcome : Type 0 where
  complete : List ℕ → Outcome
  ended failed unfinished : Outcome

-- What was returned, the bytes that are left and the rounds that are left.
abbrev pub Transfer : Type 0
Transfer = Outcome × (List ℕ × Rounds)

abbrev pub stall_us : ℕ
stall_us = 3000000

-- Whether a deadline holds: `!idle_allowed || done > 0`.
abbrev pub timed : Bool → List ℕ → Bool
timed idle got = not idle || ltb 0 (length got)

-- `progress_deadline_us`, where 0 is unset, after the round has armed it.
unfoldable pub deadline_of : Bool → ℕ → Clock → ℕ
deadline_of t deadline c = if t && (deadline == 0) then c.armed_us + stall_us else deadline

-- What a round tests before it waits; `rest` is the round after the tests.
unfoldable pub guarded : Bool → ℕ → Clock → List ℕ → Rounds → Transfer → Transfer
guarded t deadline c bytes rs rest =
    if not c.running
    then (ended, (bytes, rs))
    else if t && leb (deadline_of t deadline c) c.checked_us
    then (failed, (bytes, rs))
    else rest

-- `got` is the buffer so far, and the number is `size - done`.
unfoldable pub read_rounds : Bool → ℕ → List ℕ → ℕ → List ℕ → Rounds → Transfer
unfolding guarded deadline_of
read_rounds idle deadline got zero bytes rs = (complete got, (bytes, rs))
read_rounds idle deadline got (suc n) bytes [] = (unfinished, (bytes, []))
read_rounds idle deadline got (suc n) bytes ((c, not_ready) ∷ rs) =
    let armed = deadline_of (timed idle got) deadline c in
    let again = read_rounds idle armed got (suc n) bytes rs in
    guarded (timed idle got) deadline c bytes rs again
read_rounds idle deadline got (suc n) bytes ((c, select_failed) ∷ rs) =
    guarded (timed idle got) deadline c bytes rs (failed, (bytes, rs))
read_rounds idle deadline got (suc n) bytes ((c, try_again) ∷ rs) =
    let armed = deadline_of (timed idle got) deadline c in
    let again = read_rounds idle armed got (suc n) bytes rs in
    guarded (timed idle got) deadline c bytes rs again
read_rounds idle deadline got (suc n) bytes ((c, recv_failed) ∷ rs) =
    guarded (timed idle got) deadline c bytes rs (failed, (bytes, rs))
read_rounds idle deadline got (suc n) [] ((c, readable k) ∷ rs) =
    guarded (timed idle got) deadline c [] rs
      (if length got == 0 then (ended, ([], rs)) else (failed, ([], rs)))
read_rounds idle deadline got (suc n) (b ∷ bytes) ((c, readable k) ∷ rs) =
    let count = min (min k n) (length bytes) in
    let more =
      read_rounds idle (c.after_us + stall_us) (got ++ (b ∷ take count bytes)) (n - count)
        (drop count bytes) rs in
    guarded (timed idle got) deadline c (b ∷ bytes) rs more

unfoldable pub read_exact_interruptible : ℕ → Bool → List ℕ → Rounds → Transfer
unfolding read_rounds
read_exact_interruptible size idle bytes rs = read_rounds idle 0 [] size bytes rs

-- `packet` is the result 1 with what it stores.
pub data PacketRead : Type 0 where
  packet : Header → List ℕ → PacketRead
  closed malformed pending : PacketRead

-- The result of reading the payload: anything but all of it is -1.
unfoldable pub whole_payload : Header → Transfer → PacketRead × (List ℕ × Rounds)
whole_payload h (complete payload, s) =
    if length payload == h.payload_length then (packet h payload, s) else (malformed, s)
whole_payload h (ended, s) = (malformed, s)
whole_payload h (failed, s) = (malformed, s)
whole_payload h (unfinished, s) = (pending, s)

unfoldable pub after_header : ℕ → Header → List ℕ × Rounds → PacketRead × (List ℕ × Rounds)
unfolding whole_payload
after_header capacity h (bytes, rs) =
    if not (validate h)
    then (malformed, (bytes, rs))
    else if ltb capacity h.payload_length
    then (malformed, (bytes, rs))
    else whole_payload h (read_exact_interruptible h.payload_length false bytes rs)

unfoldable pub got_header : ℕ → Transfer → PacketRead × (List ℕ × Rounds)
unfolding after_header
got_header capacity (complete raw, s) = after_header capacity (parse_header raw) s
got_header capacity (ended, s) = (closed, s)
got_header capacity (failed, s) = (malformed, s)
got_header capacity (unfinished, s) = (pending, s)

unfoldable pub read_packet : ℕ → List ℕ → Rounds → PacketRead × (List ℕ × Rounds)
unfolding got_header
read_packet capacity bytes rs =
    got_header capacity (read_exact_interruptible header_size true bytes rs)
