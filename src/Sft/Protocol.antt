-- ===== src/Sft/Protocol.antt =====
-- src/sft_protocol.c and include/sft/protocol.h: the headers of SFTR v2, their validation, and the
-- search for a keyframe. A pointer argument is not NULL.
pub mod Flags
pub mod Validate
pub mod Idr
pub mod Transport
use sysdvr_webos.Prelude.{
  ℕ, zero, suc, ◌+◌, ◌-◌, ◌*◌, ◌/◌, ◌%◌, ◌^◌, ◌≤◌, ◌<◌, min, ◌≡◌, refl, sym, ap, ap₂, subst, ◌∙◌,
  ◌≢◌, ◌↔◌, ◌⊎◌, inl, inr, Bool, true, false, not, ◌&&◌, ◌||◌, Option, none, some, List, [], ◌∷◌,
  ◌++◌, map, append-nil, append_assoc, arith, ltb, leb, ◌==◌, ◌!=◌, if◌then◌else◌, ltb→lt, lt→ltb,
  ltb_false→le, le→ltb_false, leb→le, le→leb, leb_false→lt, lt→leb_false, ==_iff, Bool-cases,
  Option-cases, length, get_elem?, get_or, set, take, drop, replicate, length-append, length-take,
  length-drop, length-set, length-replicate, take_all, drop_all, take-append, drop-append,
  take-append_le, drop-append_le, take-append-drop, take_exact, drop_exact, drop-drop,
  drop-set_before, take-set_next, take_next, get_or-take,
}
use Prim.Native.Nat.{bit_and, bit_or}
use sysdvr_webos.Prelude.CString.{codes}
use sysdvr_webos.Prelude.Words.{at, any_set, read_le16, read_le32}
use sysdvr_webos.Net.{Outgoing, Written, write_all}

abbrev pub magic : ℕ
magic = 0x52544653

abbrev pub protocol_version : ℕ
protocol_version = 2

abbrev pub header_size : ℕ
header_size = 32

abbrev pub max_video : ℕ
max_video = 8 * 1024 * 1024

abbrev pub max_audio : ℕ
max_audio = 65536

abbrev pub max_status : ℕ
max_status = 4096

abbrev pub flag_video : ℕ
flag_video = 0x02

abbrev pub flag_key : ℕ
flag_key = 0x04

abbrev pub flag_audio : ℕ
flag_audio = 0x08

abbrev pub flag_status : ℕ
flag_status = 0x10

abbrev pub flag_crop : ℕ
flag_crop = 0x20

abbrev pub flag_crop_mid : ℕ
flag_crop_mid = 0x40

abbrev pub flag_input : ℕ
flag_input = 0x80

-- `SFT_FLAG_AUDIO | SFT_FLAG_STATUS`
abbrev pub audio_status : ℕ
audio_status = bit_or flag_audio flag_status

-- `~mask` as a 32-bit and as a 16-bit word
abbrev pub complement32 : ℕ → ℕ
complement32 mask = 2 ^ 32 - 1 - mask

abbrev pub complement16 : ℕ → ℕ
complement16 mask = 2 ^ 16 - 1 - mask

pub record Header : Type 0 where
  pub magic_word : ℕ
  pub version : ℕ
  pub flags : ℕ
  pub raw_flags : ℕ
  pub width : ℕ
  pub height : ℕ
  pub console_age_us : ℕ
  pub payload_length : ℕ
  pub block_height_log2 : ℕ
  pub sequence : ℕ

unfoldable pub parse_header : List ℕ → Header
parse_header raw = record {
  magic_word = read_le32 raw;
  version = read_le16 (drop 4 raw);
  raw_flags = read_le16 (drop 6 raw);
  flags = bit_and (read_le16 (drop 6 raw)) (complement16 flag_input);
  width = read_le32 (drop 8 raw);
  height = read_le32 (drop 12 raw);
  console_age_us = read_le32 (drop 16 raw);
  payload_length = read_le32 (drop 20 raw);
  block_height_log2 = read_le32 (drop 24 raw);
  sequence = read_le32 (drop 28 raw);
}

unfoldable pub is_status : Header → Bool
is_status h = any_set h.flags flag_status

unfoldable pub is_audio : Header → Bool
is_audio h = any_set h.flags flag_audio && not (any_set h.flags flag_status)

unfoldable pub is_video : Header → Bool
is_video h = any_set h.flags flag_video && not (any_set h.flags audio_status)

abbrev pub known_flags : ℕ
known_flags =
    bit_or flag_video (bit_or flag_key (bit_or audio_status (bit_or flag_crop flag_crop_mid)))

abbrev pub video_flags : ℕ
video_flags = bit_or flag_video (bit_or flag_key (bit_or flag_crop flag_crop_mid))

-- The three blocks of `sft_validate_header` that a header of each kind runs into.
unfoldable pub validate_status : Header → Bool
validate_status h =
    not ((h.flags != audio_status) || (ltb h.payload_length 8 || ltb max_status h.payload_length))

unfoldable pub validate_audio : Header → Bool
validate_audio h = not (
    (h.flags != flag_audio)
    || (h.width != 48000)
    || (h.height != 2)
    || (h.payload_length == 0)
    || ltb max_audio h.payload_length
    || (h.payload_length % 4 != 0))

unfoldable pub validate_video : Header → Bool
validate_video h =
    if any_set h.flags (complement32 video_flags)
    then false
    else not (
        ltb h.width 16
        || ltb 1920 h.width
        || ltb h.height 16
        || ltb 1088 h.height
        || (bit_and h.width 1 != 0)
        || (bit_and h.height 1 != 0)
        || (h.payload_length == 0)
        || ltb max_video h.payload_length)

-- `true` is the result 0, and `false` is -1.
unfoldable pub validate : Header → Bool
validate h =
    if (h.magic_word != magic) || (h.version != protocol_version)
    then false
    else if any_set h.flags (complement32 known_flags)
    then false
    else if is_status h
    then validate_status h
    else if is_audio h
    then validate_audio h
    else if is_video h
    then validate_video h
    else false

-- `remaining` is the length of the list.
unfoldable pub start_code_len : List ℕ → ℕ
start_code_len p =
    if leb 3 (length p) && ((at p 0 == 0) && (at p 1 == 0) && (at p 2 == 1))
    then 3
    else if leb 4 (length p) && ((at p 0 == 0) && (at p 1 == 0) && (at p 2 == 0) && (at p 3 == 1))
    then 4
    else 0

-- The loop `for (i = 0; i + 4 < size; ++i)`. The list is the payload from `i` on; `skip` counts the
-- increments of `i` that are still to come.
unfoldable pub scan_idr : ℕ → List ℕ → Bool
unfolding start_code_len
scan_idr skip [] = false
scan_idr (suc skip) (b ∷ p) = scan_idr skip p
scan_idr zero (b ∷ p) =
    let prefix = start_code_len (b ∷ p) in
    let next = scan_idr 0 p in
    let past_prefix = scan_idr (prefix - 1) p in
    if not (ltb 4 (length (b ∷ p)))
    then false
    else if (prefix == 0) || leb (length (b ∷ p)) prefix
    then next
    else if bit_and (at (b ∷ p) prefix) 0x1f == 5
    then true
    else past_prefix

unfoldable pub is_key : Header → List ℕ → Bool
unfolding scan_idr
is_key h payload =
    if not (is_video h)
    then false
    else if any_set h.flags flag_key
    then true
    else scan_idr 0 payload

-- `true` is the result 0, and `false` is -1.
pub request_keyframe : Outgoing → Bool × Written
request_keyframe out =
    let w = write_all (codes "SFTK") out in (elim w.count [ none ↦ false | some n ↦ n == 4 ], w)
