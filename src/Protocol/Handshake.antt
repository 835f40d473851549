-- ===== src/Protocol/Handshake.antt =====
-- src/protocol.c, `sysdvr_handshake`, split where the code returns early.
pub mod Laws
pub mod Sound
use sysdvr_webos.Prelude.{
  ℕ, zero, suc, ◌+◌, ◌-◌, ◌*◌, ◌/◌, ◌%◌, ◌^◌, ◌≤◌, ◌<◌, min, ◌≡◌, refl, sym, ap, ap₂, subst, ◌∙◌,
  ◌≢◌, ◌↔◌, ◌⊎◌, inl, inr, Bool, true, false, not, ◌&&◌, ◌||◌, Option, none, some, List, [], ◌∷◌,
  ◌++◌, map, append-nil, append_assoc, arith, ltb, leb, ◌==◌, ◌!=◌, if◌then◌else◌, ltb→lt, lt→ltb,
  ltb_false→le, le→ltb_false, leb→le, le→leb, leb_false→lt, lt→leb_false, ==_iff, Bool-cases,
  Option-cases, length, get_elem?, get_or, set, take, drop, replicate, length-append, length-take,
  length-drop, length-set, length-replicate, take_all, drop_all, take-append, drop-append,
  take-append_le, drop-append_le, take-append-drop, take_exact, drop_exact, drop-drop,
}
use sysdvr_webos.Prelude.CString.{codes, str_eq}
use sysdvr_webos.Prelude.Words.{at, read_le32, write_le32}
use sysdvr_webos.Net.{read_exact, write_all}
use sysdvr_webos.Protocol.{
  StreamKind, video, audio, other_kind, Conn, request_magic, max_audio_batching, hello_size,
  handshake_request_size, handshake_ok,
}

unfoldable pub protocol_supported : ℕ → ℕ → Bool
protocol_supported a b = (a == b'0') && ((b == b'2') || (b == b'3'))

-- `version` is what has been stored through `protocol_version_out`.
pub record HandshakeResult : Type 0 where
  pub success : Bool
  pub version : Option (ℕ × ℕ)
  pub conn : Conn

abbrev pub give_up : Option (ℕ × ℕ) → Conn → HandshakeResult
give_up v c = record { success = false; version = v; conn = c }

-- `request[6]` and `request[7]`
abbrev pub stream_meta : StreamKind → Option (ℕ × ℕ)
stream_meta video = some (0x01, 0x02)
stream_meta audio = some (0x02, 0x00)
stream_meta other_kind = none

abbrev pub request : ℕ → ℕ → ℕ × ℕ → ℕ → List ℕ
request v0 v1 m batching =
    write_le32 request_magic ++ v0 ∷ v1 ∷ m.0 ∷ m.1 ∷ batching ∷ 0 ∷ 0 ∷ 0 ∷ 0 ∷ 0 ∷ 0 ∷ 0 ∷ []

abbrev pub response_size : ℕ → ℕ
response_size v1 = if leb b'3' v1 then 72 else 4

pub check_response : ℕ → ℕ → Conn → Option (List ℕ) → HandshakeResult
check_response v0 v1 c none = give_up (some (v0, v1)) c
check_response v0 v1 c (some response) =
    if length response != response_size v1
    then give_up (some (v0, v1)) c
    else if read_le32 response != handshake_ok
    then give_up (some (v0, v1)) c
    else record { success = true; version = some (v0, v1); conn = c }

pub await_response : ℕ → ℕ → Conn → HandshakeResult
unfolding check_response
await_response v0 v1 c =
    let (r, s) = read_exact (response_size v1) c.incoming in
    check_response v0 v1 (record c { incoming = s }) r

abbrev pub sent_whole : Option ℕ → ℕ → Bool
sent_whole none n = false
sent_whole (some k) n = k == n

pub send_request : ℕ → ℕ → ℕ × ℕ → ℕ → Conn → HandshakeResult
unfolding await_response
send_request v0 v1 m batching c =
    let w = write_all (request v0 v1 m batching) c.outgoing in
    let c' : Conn = record c { outgoing = w.later; sent = c.sent ++ w.bytes } in
    if sent_whole w.count handshake_request_size
    then await_response v0 v1 c'
    else give_up (some (v0, v1)) c'

pub answer_hello : StreamKind → ℕ → Conn → Option (List ℕ) → HandshakeResult
unfolding send_request protocol_supported
answer_hello kind batching c none = give_up none c
answer_hello kind batching c (some hello) =
    if length hello != hello_size
    then give_up none c
    else if not (str_eq (take 7 hello) (codes "SysDVR|")) || (at hello 9 != 0)
    then give_up none c
    else if not (protocol_supported (at hello 7) (at hello 8))
    then give_up none c
    else elim (stream_meta kind) [
      | none ↦ give_up (some (at hello 7, at hello 8)) c
      | some m ↦ send_request (at hello 7) (at hello 8) m batching c
    ]

unfoldable pub handshake : Conn → StreamKind → ℕ → HandshakeResult
unfolding answer_hello
handshake c kind batching =
    if ltb max_audio_batching batching
    then give_up none c
    else (let (r, s) = read_exact hello_size c.incoming in
        answer_hello kind batching (record c { incoming = s }) r)
