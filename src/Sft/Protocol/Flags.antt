-- ===== src/Sft/Protocol/Flags.antt =====
-- include/sft/protocol.h: what the flag tests of src/sft_protocol.c say of the bits.
use sysdvr_webos.Prelude.{
  ℕ, ◌+◌, ◌*◌, ◌/◌, ◌%◌, ◌^◌, ◌≤◌, ◌<◌, ◌≡◌, refl, ◌≢◌, ◌↔◌, true, false, arith, ◌!=◌,
}
use Prim.Native.Nat.{bit_and}
use sysdvr_webos.Prelude.Words.{any_set}
use sysdvr_webos.Sft.Protocol.{
  flag_video, flag_audio, flag_status, audio_status, complement32, known_flags, video_flags,
}
use sysdvr_webos.Prelude.Words.Bits.{
  bit_and_2, bit_and_8, bit_and_16, bit_and_0x18, bit_and_0xffffff81, bit_and_0xffffff99,
}

-- A tested bit is set.
set_iff : (x m k : ℕ) → bit_and x m ≡ k → (any_set x m ≡ true) ↔ (0 < k)
unfolding any_set
set_iff x m k e = rw e (ground arith)

-- VIDEO, and of the others only KEY, CROP and CROP_MID.
abbrev pub VideoFlags : ℕ → Type 0
VideoFlags f =
    (key : ℕ) × (crop : ℕ) × (mid : ℕ) × (key ≤ 1)
    × (crop ≤ 1)
    × (mid ≤ 1)
    × (f ≡ 2 + key * 4 + crop * 32 + mid * 64)

-- Every flag test of the validator, on the flags of a video packet.
pub video_flags_tests :
    (f : ℕ)
    → VideoFlags f
    → (any_set f flag_status ≡ false)
      × (any_set f flag_audio ≡ false)
      × (any_set f flag_video ≡ true)
      × (any_set f audio_status ≡ false)
      × (any_set f (complement32 known_flags) ≡ false)
      × (any_set f (complement32 video_flags) ≡ false)
unfolding any_set
video_flags_tests f (key, crop, mid, hk, hc, hm, e) =
    let small : f < 2 ^ 16 = omega arith in
    rw
      (
        bit_and_16 f,
        bit_and_8 f,
        bit_and_2 f,
        bit_and_0x18 f,
        bit_and_0xffffff81 f small,
        bit_and_0xffffff99 f small,
      )
      (ground arith, ground arith, ground arith, ground arith, ground arith, ground arith)

pub video_flags_form :
    (f : ℕ)
    → f < 2 ^ 16
    → any_set f flag_video ≡ true
    → any_set f (complement32 video_flags) ≡ false
    → VideoFlags f
unfolding any_set
video_flags_form f small video others =
    let v : (f / 2 % 2 * 2 != 0) ≡ true = rw (bit_and_2 f) at video in
    let o : (f / 128 * 128 + f / 16 % 2 * 16 + f / 8 % 2 * 8 + f % 2 != 0) ≡ false =
      rw (bit_and_0xffffff99 f small) at others in
    let high : f / 128 * 128 + f / 16 % 2 * 16 + f / 8 % 2 * 8 + f % 2 ≡ 0 = ground arith in
    let low : f / 2 % 2 * 2 ≢ 0 = ground arith in
    (f / 4 % 2, f / 32 % 2, f / 64 % 2, omega arith, omega arith, omega arith, omega arith)

-- An audio and a status packet, by the tests.
pub audio_flags_tests :
    (any_set flag_audio flag_status ≡ false)
    × (any_set flag_audio flag_audio ≡ true)
    × (any_set flag_audio (complement32 known_flags) ≡ false)
unfolding any_set
audio_flags_tests = (refl, refl, refl)

pub status_flags_tests :
    (any_set audio_status flag_status ≡ true)
    × (any_set audio_status (complement32 known_flags) ≡ false)
unfolding any_set
status_flags_tests = (refl, refl)
