-- ===== src/Sft/Protocol/Validate.antt =====
-- src/sft_protocol.c, `sft_validate_header`: exactly which headers pass, and how they are classified.
use sysdvr_webos.Prelude.{
  ◌%◌, ◌^◌, ◌≤◌, ◌<◌, ◌≡◌, refl, ap, ◌∙◌, ◌↔◌, ◌⊎◌, inl, inr, Bool, true, false, not, ◌&&◌, arith,
  if◌then◌else◌,
}
use sysdvr_webos.Prelude.Words.{any_set}
use sysdvr_webos.Sft.Protocol.{
  magic, protocol_version, flag_video, flag_audio, flag_status, audio_status, complement32, Header,
  is_status, is_audio, is_video, known_flags, video_flags, validate_status, validate_audio,
  validate_video, validate,
}
use sysdvr_webos.Prelude.Words.Bits.{bit_and_1}
use sysdvr_webos.Sft.Protocol.Flags.{VideoFlags, video_flags_tests, video_flags_form}

-- The headers of each kind, without a test of a bit.
abbrev pub Status : Header → Type 0
Status h = (h.flags ≡ 0x18) × (8 ≤ h.payload_length) × (h.payload_length ≤ 4096)

abbrev pub Audio : Header → Type 0
Audio h =
    (h.flags ≡ 0x08)
    × (h.width ≡ 48000)
    × (h.height ≡ 2)
    × (0 < h.payload_length)
    × (h.payload_length ≤ 65536)
    × (h.payload_length % 4 ≡ 0)

abbrev pub Video : Header → Type 0
Video h =
    VideoFlags h.flags
    × (16 ≤ h.width)
    × (h.width ≤ 1920)
    × (h.width % 2 ≡ 0)
    × (16 ≤ h.height)
    × (h.height ≤ 1088)
    × (h.height % 2 ≡ 0)
    × (0 < h.payload_length)
    × (h.payload_length ≤ 8388608)

abbrev pub WellFormed : Header → Type 0
WellFormed h = (h.magic_word ≡ 0x52544653) × (h.version ≡ 2) × (Status h ⊎ (Audio h ⊎ Video h))

validate_status_iff : (h : Header) → (validate_status h ≡ true) ↔ Status h
unfolding validate_status
validate_status_iff h = (λ e. ground arith, λ s. ground arith)

validate_audio_iff : (h : Header) → (validate_audio h ≡ true) ↔ Audio h
unfolding validate_audio
validate_audio_iff h = (λ e. ground arith, λ s. ground arith)

validate_video_sound :
    (h : Header)
    → h.flags < 2 ^ 16
    → any_set h.flags flag_video ≡ true
    → validate_video h ≡ true
    → Video h
unfolding validate_video
validate_video_sound h small video e =
    let e' = rw (bit_and_1 h.width, bit_and_1 h.height) at e in
    let others : any_set h.flags (complement32 video_flags) ≡ false = ground arith in
    (
      video_flags_form h.flags small video others,
      ground arith,
      ground arith,
      ground arith,
      ground arith,
      ground arith,
      ground arith,
      ground arith,
      ground arith,
    )

validate_video_complete : (h : Header) → Video h → validate_video h ≡ true
unfolding validate_video
validate_video_complete h v =
    let (_, _, _, _, _, others) = video_flags_tests h.flags v.0 in
    rw (others, bit_and_1 h.width, bit_and_1 h.height) (ground arith)

-- The kinds are told apart as the code tests them.
by_kind :
    (h : Header)
    → validate h ≡ true
    → (h.magic_word ≡ magic)
      × (h.version ≡ protocol_version)
      × ((validate_status h ≡ true)
          ⊎ ((validate_audio h ≡ true)
              ⊎ ((any_set h.flags flag_video ≡ true) × (validate_video h ≡ true))))
unfolding validate is_status is_audio is_video
by_kind h e = (ground arith, ground arith, ground arith)

-- The classification by the three predicates of the backend.
pub record Kind (h : Header) (status audio video : Bool) : Type 0 where
  pub known : any_set h.flags (complement32 known_flags) ≡ false
  pub status_is : is_status h ≡ status
  pub audio_is : is_audio h ≡ audio
  pub video_is : is_video h ≡ video

status_path : (h : Header) → h.flags ≡ 0x18 → Kind h true false false
unfolding is_status is_audio is_video any_set
status_path h e = record {
  known = ap (λ f. any_set f (complement32 known_flags)) e;
  status_is = ap (λ f. any_set f flag_status) e;
  audio_is = ap (λ f. any_set f flag_audio && not (any_set f flag_status)) e;
  video_is = ap (λ f. any_set f flag_video && not (any_set f audio_status)) e;
}

audio_path : (h : Header) → h.flags ≡ 0x08 → Kind h false true false
unfolding is_status is_audio is_video any_set
audio_path h e = record {
  known = ap (λ f. any_set f (complement32 known_flags)) e;
  status_is = ap (λ f. any_set f flag_status) e;
  audio_is = ap (λ f. any_set f flag_audio && not (any_set f flag_status)) e;
  video_is = ap (λ f. any_set f flag_video && not (any_set f audio_status)) e;
}

video_path : (h : Header) → VideoFlags h.flags → Kind h false false true
unfolding is_status is_audio is_video
video_path h f =
    let (status, audio, video, both, known, _) = video_flags_tests h.flags f in
    record {
      known = known;
      status_is = status;
      audio_is = rw audio refl;
      video_is = rw (video, both);
    }

-- A header that passes is of exactly one kind, and the predicates name it.
pub WellFormed-Kind :
    (h : Header)
    → WellFormed h
    → (Status h × Kind h true false false)
      ⊎ ((Audio h × Kind h false true false) ⊎ (Video h × Kind h false false true))
WellFormed-Kind h (m, v, inl s) = inl (s, status_path h s.0)
WellFormed-Kind h (m, v, inr (inl a)) = inr (inl (a, audio_path h a.0))
WellFormed-Kind h (m, v, inr (inr d)) = inr (inr (d, video_path h d.0))

validate_known :
    (h : Header)
    → h.magic_word ≡ magic
    → h.version ≡ protocol_version
    → any_set h.flags (complement32 known_flags) ≡ false
    → validate h ≡ (
        if is_status h
        then validate_status h
        else if is_audio h
        then validate_audio h
        else if is_video h
        then validate_video h
        else false)
unfolding validate
validate_known h m v k = rw k (ground arith)

complete : (h : Header) → WellFormed h → validate h ≡ true
complete h (m, v, inl s) =
    let k = status_path h s.0 in
    validate_known h m v k.known ∙ rw k.status_is ((validate_status_iff h).1 s)
complete h (m, v, inr (inl a)) =
    let k = audio_path h a.0 in
    validate_known h m v k.known ∙ rw (k.status_is, k.audio_is) ((validate_audio_iff h).1 a)
complete h (m, v, inr (inr d)) =
    let k = video_path h d.0 in
    validate_known h m v k.known
    ∙ rw (k.status_is, k.audio_is, k.video_is) (validate_video_complete h d)

-- With a 16-bit word of flags `sft_validate_header` accepts exactly the well-formed headers: the magic and version 2, and the
-- flags, sizes and shapes of a status, an audio or a video packet.
pub validate_iff : (h : Header) → h.flags < 2 ^ 16 → (validate h ≡ true) ↔ WellFormed h
validate_iff h small = (sound, complete h)
  where
    sound : validate h ≡ true → WellFormed h
    sound e = let (m, v, k) = by_kind h e in (m, v, kind k)
      where
        kind :
            (validate_status h ≡ true)
              ⊎ ((validate_audio h ≡ true)
                  ⊎ ((any_set h.flags flag_video ≡ true) × (validate_video h ≡ true)))
            → Status h ⊎ (Audio h ⊎ Video h)
        kind (inl s) = inl ((validate_status_iff h).0 s)
        kind (inr (inl a)) = inr (inl ((validate_audio_iff h).0 a))
        kind (inr (inr (v, d))) = inr (inr (validate_video_sound h small v d))
