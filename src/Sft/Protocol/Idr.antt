-- ===== src/Sft/Protocol/Idr.antt =====
-- src/sft_protocol.c, `sft_packet_is_key`: the scan that skips over start codes against one that
-- tries every position.
use sysdvr_webos.Prelude.{
  ℕ, zero, suc, ◌-◌, ◌≤◌, ◌<◌, ◌≡◌, refl, sym, ◌∙◌, ◌↔◌, ◌⊎◌, inl, inr, Bool, true, false, ◌&&◌,
  ◌||◌, List, [], ◌∷◌, arith, ltb, ◌==◌, ◌!=◌, lt→ltb, le→ltb_false, Bool-cases, length, drop,
}
use mathlib.Core.Bool.{false≢true}
use Prim.Native.Nat.{bit_and}
use sysdvr_webos.Prelude.Words.{at, any_set}
use sysdvr_webos.Sft.Protocol.{flag_key, Header, is_video, start_code_len, scan_idr, is_key}

-- A start code stands here, with an IDR unit behind it, and more than four bytes are left.
pub idr_here : List ℕ → Bool
unfolding start_code_len
idr_here p =
    ltb 4 (length p) && ((start_code_len p != 0) && (bit_and (at p (start_code_len p)) 0x1f == 5))

pub scan_every : List ℕ → Bool
unfolding idr_here
scan_every [] = false
scan_every (b ∷ p) = idr_here (b ∷ p) || scan_every p

scan_every_short : (p : List ℕ) → length p ≤ 4 → scan_every p ≡ false
unfolding scan_every
scan_every_short [] h = refl
scan_every_short (b ∷ p) h =
    rw (scan_every_short p (omega arith), le→ltb_false 4 (suc (length p)) h)

no_idr : (p : List ℕ) → start_code_len p ≡ 0 → idr_here p ≡ false
unfolding idr_here
no_idr p e = rw e (ground arith)

no_start_at_1 : (p : List ℕ) → at p 0 ≡ 1 → start_code_len p ≡ 0
unfolding start_code_len
no_start_at_1 p e = rw e (ground arith)

no_start_before_1 : (p : List ℕ) → at p 1 ≡ 1 → start_code_len p ≡ 0
unfolding start_code_len
no_start_before_1 p e = rw e (ground arith)

-- The bytes that a start code consists of.
start_code_bytes :
    (p : List ℕ)
    → (start_code_len p ≡ 0)
      ⊎ ((start_code_len p ≡ 3) × (at p 0 ≡ 0) × (at p 1 ≡ 0) × (at p 2 ≡ 1))
      ⊎ ((start_code_len p ≡ 4) × (at p 0 ≡ 0) × (at p 1 ≡ 0) × (at p 2 ≡ 0) × (at p 3 ≡ 1))
unfolding start_code_len
start_code_bytes p = ground arith

start_code_3 :
    (p : List ℕ) → 3 ≤ length p → at p 0 ≡ 0 → at p 1 ≡ 0 → at p 2 ≡ 1 → start_code_len p ≡ 3
unfolding start_code_len
start_code_3 p l e0 e1 e2 = ground arith

scan_every_step :
    (b : ℕ) (p : List ℕ) → idr_here (b ∷ p) ≡ false → scan_every (b ∷ p) ≡ scan_every p
unfolding scan_every
scan_every_step b p e = rw e

module _ (b b1 b2 b3 b4 : ℕ) (p : List ℕ) where
  -- No other start code begins inside one of three bytes.
  after_3 : b1 ≡ 0 → b2 ≡ 1 → scan_every (b1 ∷ b2 ∷ b3 ∷ b4 ∷ p) ≡ scan_every (b3 ∷ b4 ∷ p)
  after_3 e1 e2 =
      scan_every_step b1 (b2 ∷ b3 ∷ b4 ∷ p)
        (no_idr (b1 ∷ b2 ∷ b3 ∷ b4 ∷ p) (no_start_before_1 (b1 ∷ b2 ∷ b3 ∷ b4 ∷ p) e2))
      ∙ scan_every_step b2 (b3 ∷ b4 ∷ p)
          (no_idr (b2 ∷ b3 ∷ b4 ∷ p) (no_start_at_1 (b2 ∷ b3 ∷ b4 ∷ p) e2))

  -- Inside one of four bytes there is one of three, with the same unit behind it.
  inner_start :
      b1 ≡ 0
      → b2 ≡ 0
      → b3 ≡ 1
      → (bit_and b4 0x1f == 5) ≡ false
      → idr_here (b1 ∷ b2 ∷ b3 ∷ b4 ∷ p) ≡ false
  unfolding idr_here
  inner_start e1 e2 e3 n =
      rw (start_code_3 (b1 ∷ b2 ∷ b3 ∷ b4 ∷ p) (omega arith) e1 e2 e3, n) (ground arith)

  after_4 :
      b1 ≡ 0
      → b2 ≡ 0
      → b3 ≡ 1
      → (bit_and b4 0x1f == 5) ≡ false
      → scan_every (b1 ∷ b2 ∷ b3 ∷ b4 ∷ p) ≡ scan_every (b4 ∷ p)
  after_4 e1 e2 e3 n =
      scan_every_step b1 (b2 ∷ b3 ∷ b4 ∷ p) (inner_start e1 e2 e3 n)
      ∙ scan_every_step b2 (b3 ∷ b4 ∷ p)
          (no_idr (b2 ∷ b3 ∷ b4 ∷ p) (no_start_before_1 (b2 ∷ b3 ∷ b4 ∷ p) e3))
      ∙ scan_every_step b3 (b4 ∷ p) (no_idr (b3 ∷ b4 ∷ p) (no_start_at_1 (b3 ∷ b4 ∷ p) e3))

scan_idr_short : (skip : ℕ) (p : List ℕ) → length p ≤ 4 → scan_idr skip p ≡ false
unfolding scan_idr
scan_idr_short skip [] h = refl
scan_idr_short zero (b ∷ p) h = rw (le→ltb_false 4 (suc (length p)) h)
scan_idr_short (suc skip) (b ∷ p) h = scan_idr_short skip p (omega arith)

-- One round of the loop with more than four bytes left.
scan_idr_no_code :
    (b : ℕ) (q : List ℕ)
    → 4 ≤ length q
    → start_code_len (b ∷ q) ≡ 0
    → scan_idr 0 (b ∷ q) ≡ scan_idr 0 q
unfolding scan_idr
scan_idr_no_code b q l e = rw (e, lt→ltb 4 (suc (length q)) (omega arith))

scan_idr_hit :
    (b n : ℕ) (q : List ℕ)
    → 4 ≤ length q
    → n < 4
    → start_code_len (b ∷ q) ≡ suc n
    → (bit_and (at q n) 0x1f == 5) ≡ true
    → (scan_idr 0 (b ∷ q) ≡ true) × (scan_every (b ∷ q) ≡ true)
unfolding scan_idr scan_every idr_here
scan_idr_hit b n q l h e idr =
    rw (e, lt→ltb 4 (suc (length q)) (omega arith), idr) (ground arith, ground arith)

and_false : (x : Bool) → (x && false) ≡ false
and_false true = refl
and_false false = refl

idr_here_miss :
    (b n : ℕ) (q : List ℕ)
    → start_code_len (b ∷ q) ≡ suc n
    → (bit_and (at q n) 0x1f == 5) ≡ false
    → idr_here (b ∷ q) ≡ false
unfolding idr_here
idr_here_miss b n q e idr = rw (e, idr, and_false (suc n != 0)) (and_false (ltb 4 (suc (length q))))

scan_idr_miss :
    (b n : ℕ) (q : List ℕ)
    → 4 ≤ length q
    → n < 4
    → start_code_len (b ∷ q) ≡ suc n
    → (bit_and (at q n) 0x1f == 5) ≡ false
    → (scan_idr 0 (b ∷ q) ≡ scan_idr n q) × (scan_every (b ∷ q) ≡ scan_every q)
unfolding scan_idr
scan_idr_miss b n q l h e idr =
    let one_less : suc n - 1 ≡ n = omega arith in
    (
      rw (e, lt→ltb 4 (suc (length q)) (omega arith), idr, one_less) (ground arith),
      scan_every_step b q (idr_here_miss b n q e idr),
    )

scan_idr_round :
    (b b1 b2 b3 b4 : ℕ) (p : List ℕ)
    → let q = b1 ∷ b2 ∷ b3 ∷ b4 ∷ p in
      ((k : ℕ) → scan_idr k q ≡ scan_every (drop k q)) → scan_idr 0 (b ∷ q) ≡ scan_every (b ∷ q)
scan_idr_round b b1 b2 b3 b4 p ih =
    let q = b1 ∷ b2 ∷ b3 ∷ b4 ∷ p in
    let long : 4 ≤ length q = omega arith in
    elim (start_code_bytes (b ∷ q)) [
      | inl no_code ↦
          scan_idr_no_code b q long no_code
          ∙ ih 0
          ∙ sym (scan_every_step b q (no_idr (b ∷ q) no_code))
      | inr (inl (code, e0, e1, e2)) ↦ elim (Bool-cases (bit_and b3 0x1f == 5)) [
        | inl idr ↦
            let (found, spec) = scan_idr_hit b 2 q long (omega arith) code idr in found ∙ sym spec
        | inr not_idr ↦
            let (skips, spec) = scan_idr_miss b 2 q long (omega arith) code not_idr in
            skips ∙ ih 2 ∙ sym (spec ∙ after_3 b b1 b2 b3 b4 p e1 e2)
      ]
      | inr (inr (code, e0, e1, e2, e3)) ↦ elim (Bool-cases (bit_and b4 0x1f == 5)) [
        | inl idr ↦
            let (found, spec) = scan_idr_hit b 3 q long (omega arith) code idr in found ∙ sym spec
        | inr not_idr ↦
            let (skips, spec) = scan_idr_miss b 3 q long (omega arith) code not_idr in
            skips ∙ ih 3 ∙ sym (spec ∙ after_4 b b1 b2 b3 b4 p e1 e2 e3 not_idr)
      ]
    ]

both_short : (p : List ℕ) → length p ≤ 4 → scan_idr 0 p ≡ scan_every p
both_short p h = scan_idr_short 0 p h ∙ sym (scan_every_short p h)

-- The skips of the scan lose no IDR unit: it finds one exactly when a scan of every position does.
pub scan_idr-scan_every : (k : ℕ) (p : List ℕ) → scan_idr k p ≡ scan_every (drop k p)
unfolding scan_idr scan_every
scan_idr-scan_every zero [] = refl
scan_idr-scan_every (suc k) [] = refl
scan_idr-scan_every (suc k) (b ∷ p) = scan_idr-scan_every k p
scan_idr-scan_every zero (b ∷ []) = both_short (b ∷ []) (omega arith)
scan_idr-scan_every zero (b ∷ b1 ∷ []) = both_short (b ∷ b1 ∷ []) (omega arith)
scan_idr-scan_every zero (b ∷ b1 ∷ b2 ∷ []) = both_short (b ∷ b1 ∷ b2 ∷ []) (omega arith)
scan_idr-scan_every zero (b ∷ b1 ∷ b2 ∷ b3 ∷ []) = both_short (b ∷ b1 ∷ b2 ∷ b3 ∷ []) (omega arith)
scan_idr-scan_every zero (b ∷ b1 ∷ b2 ∷ b3 ∷ b4 ∷ p) =
    scan_idr_round b b1 b2 b3 b4 p (λ k. scan_idr-scan_every k (b1 ∷ b2 ∷ b3 ∷ b4 ∷ p))

-- The position at which a scan of every position stops.
scan_every_at : (p : List ℕ) → scan_every p ≡ true → (i : ℕ) × (idr_here (drop i p) ≡ true)
unfolding scan_every
scan_every_at [] e = absurd (cc)
scan_every_at (b ∷ p) e = elim (Bool-cases (idr_here (b ∷ p))) [
  | inl here ↦ (0, here)
  | inr later ↦ let (i, found) = scan_every_at p (rw later at e) in (suc i, found)
]

idr_here_nil : idr_here [] ≡ false
unfolding idr_here start_code_len
idr_here_nil = refl

scan_every_of : (p : List ℕ) (i : ℕ) → idr_here (drop i p) ≡ true → scan_every p ≡ true
unfolding scan_every
scan_every_of [] zero e = absurd (false≢true (sym idr_here_nil ∙ e))
scan_every_of [] (suc i) e = absurd (false≢true (sym idr_here_nil ∙ e))
scan_every_of (b ∷ p) zero e = rw e
scan_every_of (b ∷ p) (suc i) e = elim (Bool-cases (idr_here (b ∷ p))) [
  | inl here ↦ rw here
  | inr later ↦ rw later (scan_every_of p i e)
]

-- Without the KEY flag a video packet is a keyframe exactly when, at some position with more than
-- four bytes left, a start code has an IDR unit behind it.
pub is_key_iff :
    (h : Header) (payload : List ℕ)
    → is_video h ≡ true
    → any_set h.flags flag_key ≡ false
    → (is_key h payload ≡ true) ↔ ((i : ℕ) × (idr_here (drop i payload) ≡ true))
unfolding is_key
is_key_iff h payload video no_flag =
    rw (video, no_flag, scan_idr-scan_every 0 payload)
      (scan_every_at payload, λ (i, e). scan_every_of payload i e)
