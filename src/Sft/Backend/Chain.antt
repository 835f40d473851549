-- ===== src/Sft/Backend/Chain.antt =====
-- src/frametap_backend.c: the decoder is never handed a frame it cannot decode.
use sysdvr_webos.Prelude.{
  ℕ, ◌+◌, ◌%◌, ◌^◌, ◌<◌, ◌≡◌, refl, ◌⊎◌, inl, inr, Bool, true, false, ◌&&◌, ◌||◌, Option, none,
  some, List, [], ◌∷◌, ◌++◌, arith, ◌!=◌, Bool-cases,
}
use sysdvr_webos.Prelude.Words.{u32}
use sysdvr_webos.Sft.Protocol.{Header, is_key}
use sysdvr_webos.Sft.Backend.{Worker}
use sysdvr_webos.Sft.Backend.Video.{
  Output, requested, opened, submitted, count_video, count_key, on_gap, check_sequence,
  check_resolution,
}

-- The last frame that the decoder took, if one was.
abbrev pub Shown : Type 0
Shown = Option Header

-- A frame can be decoded: it is a key frame, or it directly follows the last frame that was taken,
-- at the same size.
abbrev pub Decodable : Shown → Header → List ℕ → Type 0
Decodable none h payload = is_key h payload ≡ true
Decodable (some p) h payload =
    (is_key h payload ≡ true)
    ⊎ ((h.sequence ≡ (p.sequence + 1) % 2 ^ 32) × (h.width ≡ p.width) × (h.height ≡ p.height))

-- All the frames that were taken could be decoded, in the order they were taken.
abbrev pub Chain : Shown → List Output → Type 0
Chain p [] = Unit {0}
Chain p (requested ∷ os) = Chain p os
Chain p (opened w h ∷ os) = Chain p os
Chain p (submitted h payload pts ∷ os) = Decodable p h payload × Chain (some h) os

abbrev pub last_shown : Shown → List Output → Shown
last_shown p [] = p
last_shown p (requested ∷ os) = last_shown p os
last_shown p (opened w h ∷ os) = last_shown p os
last_shown p (submitted h payload pts ∷ os) = last_shown (some h) os

pub Chain-append :
    (p : Shown) (os more : List Output)
    → Chain p os
    → Chain (last_shown p os) more
    → Chain p (os ++ more)
Chain-append p [] more c d = d
Chain-append p (requested ∷ os) more c d = Chain-append p os more c d
Chain-append p (opened w h ∷ os) more c d = Chain-append p os more c d
Chain-append p (submitted h payload pts ∷ os) more c d = (c.0, Chain-append (some h) os more c.1 d)

pub last_shown-append :
    (p : Shown) (os more : List Output)
    → last_shown p (os ++ more) ≡ last_shown (last_shown p os) more
last_shown-append p [] more = refl
last_shown-append p (requested ∷ os) more = last_shown-append p os more
last_shown-append p (opened w h ∷ os) more = last_shown-append p os more
last_shown-append p (submitted h payload pts ∷ os) more = last_shown-append (some h) os more

-- The frame that was taken last is the last video packet, unless the worker waits for a key.
abbrev pub Last : Shown → Worker → Type 0
Last none w = ⊥
Last (some p) w =
    (w.have_sequence ≡ true)
    × (w.last_sequence ≡ p.sequence)
    × (w.decoder_w ≡ p.width)
    × (w.decoder_h ≡ p.height)
    × (0 < p.width)

abbrev pub InStep : Shown → Worker → Type 0
InStep p w = (w.waiting_key ≡ true) ⊎ Last p w

-- The next frame may follow, by what the first two checks have found.
abbrev pub Next : Shown → Header → Worker → Type 0
Next none h w = ⊥
Next (some p) h w =
    (h.sequence ≡ (p.sequence + 1) % 2 ^ 32)
    × (w.decoder_w ≡ p.width)
    × (w.decoder_h ≡ p.height)
    × (0 < p.width)

-- The header is the one seen last.
abbrev pub Seen : Header → Worker → Type 0
Seen h w = (w.have_sequence ≡ true) × (w.last_sequence ≡ h.sequence)

pub counted_InStep :
    (p : Shown) (h : Header) (key : Bool) (size now : ℕ) (w : Worker)
    → InStep p w
    → InStep p (count_key key (count_video h size now w))
unfolding count_key count_video
counted_InStep p h true size now w (inl waits) = inl waits
counted_InStep p h false size now w (inl waits) = inl waits
counted_InStep (some p) h true size now w (inr last) = inr last
counted_InStep (some p) h false size now w (inr last) = inr last
counted_InStep none h key size now w (inr last) = absurd last

pub check_sequence-Seen :
    (h : Header) (key : Bool) (now : ℕ) (w : Worker) → Seen h (check_sequence h key now w).0
unfolding check_sequence
check_sequence-Seen h key now w = (refl, refl)

gap_waits : (h : Header) (now : ℕ) (w : Worker) → (on_gap h false now w).0.waiting_key ≡ true
unfolding on_gap
gap_waits h now w = ground arith

no_gap :
    (have : Bool) (sequence last previous : ℕ)
    → (have && (sequence != u32 (last + 1))) ≡ false
    → have ≡ true
    → last ≡ previous
    → sequence ≡ (previous + 1) % 2 ^ 32
no_gap have sequence last previous e known same = ground arith

pub check_sequence-Next :
    (p : Shown) (h : Header) (now : ℕ) (w : Worker)
    → InStep p w
    → ((check_sequence h false now w).0.waiting_key ≡ true)
      ⊎ Next p h (check_sequence h false now w).0
unfolding check_sequence
check_sequence-Next p h now w (inl waits) = inl (ground (arith, gap_waits h now w))
check_sequence-Next none h now w (inr last) = absurd last
check_sequence-Next (some p) h now w (inr last) =
    elim (Bool-cases (w.have_sequence && (h.sequence != u32 (w.last_sequence + 1)))) [
      | inl gap ↦ inl (rw gap (gap_waits h now w))
      | inr none_missing ↦ inr (
          rw none_missing (
            no_gap w.have_sequence h.sequence w.last_sequence p.sequence none_missing last.0 last.1,
            last.2,
            last.3,
            last.4,
          ))
    ]

pub check_resolution-Seen :
    (h : Header) (key : Bool) (now : ℕ) (w : Worker)
    → Seen h w
    → Seen h (check_resolution h key now w).0
unfolding check_resolution
check_resolution-Seen h key now w s = (ground arith, ground arith)

pub check_resolution-Decodable :
    (p : Shown) (h : Header) (payload : List ℕ) (now : ℕ) (w : Worker)
    → (w.waiting_key ≡ true) ⊎ Next p h w
    → ((check_resolution h false now w).0.waiting_key ≡ true) ⊎ Decodable p h payload
unfolding check_resolution
check_resolution-Decodable p h payload now w (inl waits) = inl (ground arith)
check_resolution-Decodable none h payload now w (inr next) = absurd next
check_resolution-Decodable (some p) h payload now w (inr next) =
    elim (Bool-cases
      ((w.decoder_w != 0) && ((h.width != w.decoder_w) || (h.height != w.decoder_h)))) [
        | inl changed ↦ inl (rw changed (ground arith))
        | inr same ↦ inr (inr (next.0, ground arith, ground arith))
      ]
