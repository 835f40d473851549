-- ===== src/Sft/Audio/Tail.antt =====
-- src/sft_audio.c: which part of a packet is queued.
use sysdvr_webos.Prelude.{
  ℕ, ◌+◌, ◌-◌, ◌%◌, ◌≤◌, min, ◌≡◌, refl, sym, ap, ◌∙◌, inl, inr, List, ◌++◌, arith, ltb, ltb→lt,
  ltb_false→le, Bool-cases, length, take, drop, length-take, length-drop, take-append,
  take-append-drop,
}
use sysdvr_webos.Sft.Audio.{trim}

take_add :
    (m n : ℕ) (xs : List ℕ) → m ≤ length xs → take (m + n) xs ≡ take m xs ++ take n (drop m xs)
take_add m n xs h =
    let front : length (take m xs) ≡ m = omega (arith, length-take m xs) in
    ap (take (m + n)) (sym (take-append-drop m xs))
    ∙ take-append (m + n) (take m xs) (drop m xs) (omega (arith, front))
    ∙ ap (λ k. take m xs ++ take k (drop m xs)) (omega (arith, front))

cut_tail :
    (bytes : List ℕ) (keep dropped : ℕ)
    → dropped ≤ keep
    → keep ≤ length bytes
    → (take keep bytes ≡ take dropped bytes ++ take (keep - dropped) (drop dropped bytes))
      × (length (take (keep - dropped) (drop dropped bytes)) ≡ keep - dropped)
cut_tail bytes keep dropped h fits = (
  ap (λ k. take k bytes) both ∙ take_add dropped (keep - dropped) bytes (omega arith),
  omega (arith, length-take (keep - dropped) (drop dropped bytes), length-drop dropped bytes),
)
  where
    both : keep ≡ dropped + (keep - dropped)
    both = omega arith

-- What is queued of a packet is the end of its whole frames, all of them up to 80 ms (15360 bytes)
-- and else the newest 80 ms; the second part counts the bytes before it.
pub trim_lem :
    (bytes : List ℕ)
    → (take (length bytes - length bytes % 4) bytes ≡ take (trim bytes).1 bytes ++ (trim bytes).0)
      × (length (trim bytes).0 ≡ min (length bytes - length bytes % 4) 15360)
unfolding trim
trim_lem bytes = elim (Bool-cases (ltb 15360 (length bytes - length bytes % 4))) [
  | inl long ↦
      let more = ltb→lt 15360 (length bytes - length bytes % 4) long in
      let keep = length bytes - length bytes % 4 in
      let cut =
        cut_tail bytes keep (keep - 15360 - (keep - 15360) % 4) (omega arith) (omega arith) in
      rw long (cut.0, cut.1 ∙ omega (arith, more))
  | inr short ↦ rw short (
    refl,
    omega (arith, ltb_false→le 15360 _ short, length-take (length bytes - length bytes % 4) bytes),
  )
]
