-- ===== src/Protocol.antt =====
-- src/protocol.c and include/sysdvr/protocol.h: the SysDVR TCP bridge. `handshake` and `read_packet`
-- are `sysdvr_handshake` and `sysdvr_read_packet`, split where the code returns early.
pub mod Packets
pub mod Handshake
use Prim.Native.Nat.{bit_and}
use sysdvr_webos.Prelude.{
  ℕ, ◌+◌, ◌*◌, ◌^◌, Bool, true, false, not, ◌&&◌, ◌||◌, Option, none, some, List, [], ◌∷◌, ◌++◌,
  length, take, drop, replicate, ltb, leb, ◌==◌, ◌!=◌, if◌then◌else◌,
}
use sysdvr_webos.Prelude.CString.{codes, str_eq}
use sysdvr_webos.Prelude.Words.{at, any_set, read_le32, read_le64, write_le32}
use sysdvr_webos.Net.{Incoming, Outgoing, Written, read_exact, write_all}

abbrev pub hello_size : ℕ
hello_size = 10

abbrev pub handshake_request_size : ℕ
handshake_request_size = 16

abbrev pub packet_header_size : ℕ
packet_header_size = 18

abbrev pub request_magic : ℕ
request_magic = 0xAAAAAAAA

abbrev pub packet_magic : ℕ
packet_magic = 0xCCCCCCCC

abbrev pub max_payload : ℕ
max_payload = 0x54000

abbrev pub max_audio_batching : ℕ
max_audio_batching = 5

abbrev pub handshake_ok : ℕ
handshake_ok = 6

-- `other_kind` is a value of the enumeration's type that it does not name.
pub data StreamKind : Type 0 where
  video audio other_kind : StreamKind

abbrev pub packet_video : ℕ
packet_video = 0x01

abbrev pub packet_audio : ℕ
packet_audio = 0x02

abbrev pub packet_replay : ℕ
packet_replay = 0x08

abbrev pub packet_error : ℕ
packet_error = 0x20

pub record PacketHeader : Type 0 where
  pub magic : ℕ
  pub data_size : ℕ
  pub timestamp_us : ℕ
  pub metadata : ℕ
  pub replay_slot : ℕ

pub record ErrorPacket : Type 0 where
  pub error_type : ℕ
  pub error_code : ℕ
  pub context1 : ℕ
  pub context2 : ℕ
  pub context3 : ℕ

-- One connected socket, with all that has been sent on it.
pub record Conn : Type 0 where
  pub incoming : Incoming
  pub outgoing : Outgoing
  pub sent : List ℕ

-- `packet` is 1, `closed` is 0 and `malformed` is -1.
pub data PacketRead : Type 0 where
  packet : PacketHeader → List ℕ → PacketRead
  closed malformed : PacketRead

pub parse_header : List ℕ → PacketHeader
parse_header raw = record {
  magic = read_le32 raw;
  data_size = read_le32 (drop 4 raw);
  timestamp_us = read_le64 (drop 8 raw);
  metadata = at raw 16;
  replay_slot = at raw 17;
}

pub take_payload : PacketHeader → Option (List ℕ) × Incoming → PacketRead × Incoming
take_payload h (none, s) = (malformed, s)
take_payload h (some bytes, s) =
    if length bytes == h.data_size then (packet h bytes, s) else (malformed, s)

pub read_payload : PacketHeader → Incoming → PacketRead × Incoming
unfolding take_payload
read_payload h s =
    if ltb 0 h.data_size then take_payload h (read_exact h.data_size s) else (packet h [], s)

pub check_header : ℕ → PacketHeader → Incoming → PacketRead × Incoming
unfolding read_payload
check_header capacity h s =
    if h.magic != packet_magic
    then (malformed, s)
    else if ltb capacity h.data_size || ltb max_payload h.data_size
    then (malformed, s)
    else if any_set h.metadata packet_replay
    then (malformed, s)
    else read_payload h s

pub after_header : ℕ → Option (List ℕ) × Incoming → PacketRead × Incoming
unfolding check_header parse_header
after_header capacity (none, s) = (malformed, s)
after_header capacity (some raw, s) =
    if length raw == 0
    then (closed, s)
    else if length raw != packet_header_size
    then (malformed, s)
    else check_header capacity (parse_header raw) s

unfoldable pub read_packet : ℕ → Incoming → PacketRead × Incoming
unfolding after_header
read_packet capacity s = after_header capacity (read_exact packet_header_size s)

-- `payload` holds `payload_size` bytes.
unfoldable pub parse_error_packet : List ℕ → Option ErrorPacket
parse_error_packet payload =
    if ltb (length payload) 32
    then none
    else some (record {
      error_type = read_le32 payload;
      error_code = read_le32 (drop 4 payload);
      context1 = read_le64 (drop 8 payload);
      context2 = read_le64 (drop 16 payload);
      context3 = read_le64 (drop 24 payload);
    })
