-- ===== src/Net/Sending.antt =====
-- What `sysdvr_write_all` of src/net.c sends, whatever `send` takes at a time.
use sysdvr_webos.Prelude.{
  ℕ, suc, ◌+◌, ◌<◌, ◌≡◌, refl, sym, ap, ◌∙◌, ◌⊎◌, inl, inr, none, some, List, [], ◌∷◌, ◌++◌,
  append_assoc, arith, Bool-cases, length, take, drop, length-take, length-drop, take-append-drop,
}
use sysdvr_webos.Net.{
  is_eintr, accepts, takes_none, refused, Outgoing, Written, write_loop, write_all,
}

-- All of the buffer went out and its size is returned, or -1 is and a proper part of it went out.
abbrev pub Sends : ℕ → List ℕ → Written → Type 0
Sends total buffer w =
    ((w.count ≡ some (total + length buffer)) × (w.bytes ≡ buffer))
    ⊎ ((w.count ≡ none) × ((rest : List ℕ) × (0 < length rest) × (buffer ≡ w.bytes ++ rest)))

Sends-after :
    (total b k : ℕ) (bs : List ℕ) (w : Written)
    → Sends (total + suc (length (take k bs))) (drop k bs) w
    → Sends total (b ∷ bs) (record w { bytes = b ∷ take k bs ++ w.bytes })
Sends-after total b k bs w (inl (count, bytes)) = inl (
  rw count (ap some (omega (arith, length-drop k bs, length-take k bs))),
  rw bytes (ap (◌∷◌ b) (take-append-drop k bs)),
)
Sends-after total b k bs w (inr (count, (rest, some_left, bytes))) = inr (
  count,
  (
    rest,
    some_left,
    ap (◌∷◌ b) (
        sym (take-append-drop k bs)
        ∙ ap (◌++◌ (take k bs)) bytes
        ∙ sym (append_assoc (take k bs) w.bytes rest)),
  ),
)

write_loop-Sends :
    (total : ℕ) (buffer : List ℕ) (es : Outgoing) → Sends total buffer (write_loop total buffer es)
unfolding write_loop
write_loop-Sends total [] es = inl (ap some (omega arith), refl)
write_loop-Sends total (b ∷ bs) [] = inl (refl, refl)
write_loop-Sends total (b ∷ bs) (accepts k ∷ es) =
    Sends-after total b k bs (write_loop (total + suc (length (take k bs))) (drop k bs) es)
      (write_loop-Sends (total + suc (length (take k bs))) (drop k bs) es)
write_loop-Sends total (b ∷ bs) (takes_none ∷ es) = inr (refl, (b ∷ bs, omega arith, refl))
write_loop-Sends total (b ∷ bs) (refused e ∷ es) = elim (Bool-cases (is_eintr e)) [
  | inl again ↦ rw again (write_loop-Sends total (b ∷ bs) es)
  | inr fatal ↦ rw fatal (inr (refl, (b ∷ bs, omega arith, refl)))
]

-- `sysdvr_write_all` returns the size of the buffer after sending all of it, in order; if it
-- returns -1, a proper part at the front of the buffer has gone out.
pub write_all-Sends : (buffer : List ℕ) (es : Outgoing) → Sends 0 buffer (write_all buffer es)
unfolding write_all
write_all-Sends buffer es = write_loop-Sends 0 buffer es
