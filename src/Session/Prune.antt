-- ===== src/Session/Prune.antt =====
-- src/session_manager.c, `session_manager_prune`: the compaction in place is a filter, and the
-- selection stays on its device.
use sysdvr_webos.Prelude.{
  ℕ, zero, suc, ◌+◌, ◌≤◌, ◌<◌, ◌≡◌, refl, sym, ap, ap₂, ◌∙◌, inl, inr, true, false, ◌&&◌, Option,
  none, some, List, [], ◌∷◌, ◌++◌, append-nil, append_assoc, arith, ◌!=◌, if◌then◌else◌, Bool-cases,
  length, set, take, drop, length-set, drop-set_before, take-set_next, take_next,
}
use sysdvr_webos.Session.{
  SessionDevice, SessionManager, blank, slot, find_same, keep, compact, compacted, has_selection,
  selected_info, reselect, prune,
}
use native.Mathlib.Decide.{ℕ_discrete}
use sysdvr_webos.Session.Entries.{entries, take-drop-cons}

-- The entries that are not stale, in order.
unfoldable pub fresh : ℕ → List SessionDevice → List SessionDevice
fresh now_ms [] = []
fresh now_ms (x ∷ xs) = if keep now_ms x then x ∷ fresh now_ms xs else fresh now_ms xs

-- The array and `write_index` when the loop is done.
abbrev Compacted : ℕ → List SessionDevice → ℕ → ℕ → ℕ → List SessionDevice × ℕ → Type 0
Compacted now_ms devices w i n r =
    (take r.1 r.0 ≡ take w devices ++ fresh now_ms (take n (drop i devices)))
    × (length r.0 ≡ length devices)
    × (r.1 ≤ w + n)

compact_step :
    (now_ms : ℕ) (devices devices' : List SessionDevice) (w w' i n : ℕ) (r : List SessionDevice × ℕ)
    → i < length devices
    → length devices' ≡ length devices
    → w' ≤ w + 1
    → take w' devices' ≡ take w devices ++ fresh now_ms (slot devices i ∷ [])
    → drop (i + 1) devices' ≡ drop (i + 1) devices
    → Compacted now_ms devices' w' (i + 1) n r
    → Compacted now_ms devices w i (suc n) r
unfolding fresh
compact_step now_ms devices devices' w w' i n r inside l lw front back (t, l', c) = (
  t
      ∙ ap₂ (λ a b. a ++ fresh now_ms (take n b)) front back
      ∙ append_assoc (take w devices) (fresh now_ms (slot devices i ∷ []))
          (fresh now_ms (take n (drop (i + 1) devices)))
      ∙ ap (◌++◌ (take w devices)) (
          head_first (slot devices i) (take n (drop (i + 1) devices))
          ∙ ap (fresh now_ms) (sym (take-drop-cons devices i n inside))),
  l' ∙ l,
  omega arith,
)
  where
    head_first :
        (x : SessionDevice) (xs : List SessionDevice)
        → fresh now_ms (x ∷ []) ++ fresh now_ms xs ≡ fresh now_ms (x ∷ xs)
    head_first x xs = ground arith

-- One round of the loop.
abbrev moved : ℕ → List SessionDevice → ℕ → ℕ → List SessionDevice
moved now_ms devices w i =
    if keep now_ms (slot devices i) && (w != i) then set devices w (slot devices i) else devices

abbrev advanced : ℕ → List SessionDevice → ℕ → ℕ → ℕ
advanced now_ms devices w i = if keep now_ms (slot devices i) then w + 1 else w

record Round (now_ms : ℕ) (devices : List SessionDevice) (w i : ℕ) : Type 0 where
  same_length : length (moved now_ms devices w i) ≡ length devices
  one_more : advanced now_ms devices w i ≤ w + 1
  front :
      take (advanced now_ms devices w i) (moved now_ms devices w i)
      ≡ take w devices ++ fresh now_ms (slot devices i ∷ [])
  back : drop (i + 1) (moved now_ms devices w i) ≡ drop (i + 1) devices

in_place :
    (now_ms : ℕ) (devices : List SessionDevice) (i : ℕ)
    → keep now_ms (slot devices i) ≡ true
    → suc i ≤ length devices
    → take (i + 1) devices ≡ take i devices ++ fresh now_ms (slot devices i ∷ [])
unfolding fresh
in_place now_ms devices i kept inside =
    let next : i + 1 ≡ suc i = omega arith in rw (next, kept) (take_next devices i blank inside)

shifted :
    (now_ms : ℕ) (devices : List SessionDevice) (w i : ℕ)
    → keep now_ms (slot devices i) ≡ true
    → suc w ≤ length devices
    → take (w + 1) (set devices w (slot devices i))
      ≡ take w devices ++ fresh now_ms (slot devices i ∷ [])
unfolding fresh
shifted now_ms devices w i kept inside =
    let next : w + 1 ≡ suc w = omega arith in
    rw (next, kept) (take-set_next devices w (slot devices i) inside)

skipped :
    (now_ms : ℕ) (devices : List SessionDevice) (w i : ℕ)
    → keep now_ms (slot devices i) ≡ false
    → take w devices ≡ take w devices ++ fresh now_ms (slot devices i ∷ [])
unfolding fresh
skipped now_ms devices w i stale = rw stale (sym (append-nil (take w devices)))

round_lem :
    (now_ms : ℕ) (devices : List SessionDevice) (w i : ℕ)
    → w ≤ i
    → i < length devices
    → Round now_ms devices w i
round_lem now_ms devices w i wi inside = elim (Bool-cases (keep now_ms (slot devices i))) [
  | inr stale ↦ ground (arith, skipped now_ms devices w i stale)
  | inl kept ↦ elim (ℕ_discrete w i) [
    | yes here ↦ ground (arith, in_place now_ms devices i kept inside)
    | no behind ↦ ground (
      arith,
      shifted now_ms devices w i kept,
      length-set devices w (slot devices i),
      drop-set_before devices w (i + 1) (slot devices i),
    )
  ]
]

compact-Compacted :
    (now_ms : ℕ) (devices : List SessionDevice) (w i n : ℕ)
    → w ≤ i
    → i + n ≤ length devices
    → Compacted now_ms devices w i n (compact now_ms devices w i n)
unfolding compact fresh
compact-Compacted now_ms devices w i zero wi l =
    (sym (append-nil (take w devices)), refl, omega arith)
compact-Compacted now_ms devices w i (suc n) wi l =
    let r = round_lem now_ms devices w i wi (omega arith) in
    compact_step now_ms devices (moved now_ms devices w i) w (advanced now_ms devices w i) i n _
      (omega arith) r.same_length r.one_more r.front r.back
      (compact-Compacted now_ms (moved now_ms devices w i) (advanced now_ms devices w i) (i + 1) n
        (omega (arith, r.one_more)) (omega (arith, r.same_length)))

pub entries-compacted :
    (m : SessionManager) (now_ms : ℕ)
    → m.count ≤ length m.devices
    → (entries (compacted m now_ms) ≡ fresh now_ms (entries m))
      × (length (compacted m now_ms).devices ≡ length m.devices)
      × ((compacted m now_ms).count ≤ m.count)
unfolding compacted
entries-compacted m now_ms h =
    let (front, same, fewer) =
      compact-Compacted now_ms m.devices 0 0 m.count (omega arith) (omega arith) in
    (front, same, omega arith)

reselect-selected :
    (m : SessionManager) (o : Option ℕ)
    → reselect m o ≡ record m { selected = (reselect m o).selected }
unfolding reselect
reselect-selected m (some i) = refl
reselect-selected m none = ground arith

-- `session_manager_prune` changes the selection only, after the loop.
pub prune-compacted :
    (m : SessionManager) (now_ms : ℕ)
    → prune m now_ms ≡ record (compacted m now_ms) { selected = (prune m now_ms).selected }
unfolding prune
prune-compacted m now_ms = ground (
  arith,
  reselect-selected (compacted m now_ms) (
      if has_selection m
      then find_same (compacted m now_ms).devices (selected_info m) 0 (compacted m now_ms).count
      else none),
)

-- `session_manager_prune` drops the stale entries and keeps the others in order, when the count is
-- within the array.
pub entries-prune :
    (m : SessionManager) (now_ms : ℕ)
    → m.count ≤ length m.devices
    → entries (prune m now_ms) ≡ fresh now_ms (entries m)
entries-prune m now_ms h = ap entries (prune-compacted m now_ms) ∙ (entries-compacted m now_ms h).0
