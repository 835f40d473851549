-- ===== src/Net/Transfer.antt =====
-- What the transfers of src/net.c do, whatever the sizes in which the kernel hands bytes over.
use sysdvr_webos.Prelude.{
  ℕ, zero, suc, ◌-◌, ◌≤◌, ◌<◌, ◌≡◌, refl, ap, ◌∙◌, Bool, true, false, Option, none, some, List, [],
  ◌∷◌, ◌++◌, length, take, drop, leb, if◌then◌else◌, arith, append-nil, append_assoc, inl, inr,
  Bool-cases, ap₂, take_all, take_exact, drop_exact, take-append-drop, sym, leb→le, leb_false→lt,
  take-append, drop-append, take-append_le, drop-append_le, length-append,
}
use sysdvr_webos.Net.{arrived, raised, Incoming, is_eintr, requeue, read_loop, read_exact}

-- The bytes that arrive before the peer closes or the connection fails.
abbrev pub content : Incoming → List ℕ
content [] = []
content (arrived b bs ∷ s) = b ∷ bs ++ content s
content (raised e ∷ s) = if is_eintr e then content s else []

-- Whether the bytes end by the peer's closing.
abbrev pub closes : Incoming → Bool
closes [] = true
closes (arrived b bs ∷ s) = closes s
closes (raised e ∷ s) = if is_eintr e then closes s else false

-- What a read of `size` bytes gives, by the bytes that arrive and how they end.
unfoldable pub expected_read : ℕ → List ℕ → Bool → Option (List ℕ)
expected_read size bytes closed =
    if leb size (length bytes) then some (take size bytes) else if closed then some bytes else none

pub expected_read_full :
    (size : ℕ) (bytes : List ℕ) (closed : Bool)
    → size ≤ length bytes
    → expected_read size bytes closed ≡ some (take size bytes)
unfolding expected_read
expected_read_full size bytes closed h = ground arith

pub expected_read_short :
    (size : ℕ) (bytes : List ℕ) (closed : Bool)
    → length bytes < size
    → expected_read size bytes closed ≡ (if closed then some bytes else none)
unfolding expected_read
expected_read_short size bytes closed h = ground arith

abbrev prepend : List ℕ → Option (List ℕ) → Option (List ℕ)
prepend got none = none
prepend got (some xs) = some (got ++ xs)

-- A chunk that is wanted whole can be taken first.
expected_read-append :
    (got chunk bytes : List ℕ) (n : ℕ) (closed : Bool)
    → length chunk ≤ n
    → prepend got (expected_read n (chunk ++ bytes) closed)
      ≡ prepend (got ++ chunk) (expected_read (n - length chunk) bytes closed)
unfolding expected_read
expected_read-append got chunk bytes n closed h = ground (
  arith,
  length-append chunk bytes,
  take-append n chunk bytes h,
  append_assoc got chunk bytes,
  append_assoc got chunk (take (n - length chunk) bytes),
)

-- The chunk holds more than was asked for.
beyond : (n : ℕ) (bs : List ℕ) → leb (suc (length bs)) (suc n) ≡ false → n ≤ length bs
beyond n bs part = omega (arith, leb_false→lt (suc (length bs)) (suc n) part)

read_loop_result :
    (got : List ℕ) (n : ℕ) (s : Incoming)
    → (read_loop got n s).0 ≡ prepend got (expected_read n (content s) (closes s))
unfolding read_loop
read_loop_result got zero s =
    rw (expected_read_full 0 (content s) (closes s) (omega arith)) (ap some (sym (append-nil got)))
read_loop_result got (suc n) [] =
    rw (expected_read_short (suc n) [] true (omega arith)) (ap some (sym (append-nil got)))
read_loop_result got (suc n) (raised e ∷ s) = elim (Bool-cases (is_eintr e)) [
  | inl again ↦ rw again (read_loop_result got (suc n) s)
  | inr fatal ↦ rw (fatal, expected_read_short (suc n) [] false (omega arith))
]
read_loop_result got (suc n) (arrived b bs ∷ s) =
    elim (Bool-cases (leb (suc (length bs)) (suc n))) [
      | inl whole ↦ rw whole (
          read_loop_result (got ++ b ∷ bs) (suc n - suc (length bs)) s
          ∙ sym
              (expected_read-append got (b ∷ bs) (content s) (suc n) (closes s) (leb→le _ _ whole)))
      | inr part ↦ rw part (
          ap (λ t. some (got ++ b ∷ t)) (sym (take-append_le n bs (content s) (beyond n bs part)))
          ∙ ap (prepend got) (
              sym (
                expected_read_full (suc n) (b ∷ bs ++ content s) (closes s)
                  (omega (arith, beyond n bs part, length-append bs (content s))))))
    ]

content-requeue : (bs : List ℕ) (s : Incoming) → content (requeue bs s) ≡ bs ++ content s
content-requeue [] s = refl
content-requeue (b ∷ bs) s = refl

closes-requeue : (bs : List ℕ) (s : Incoming) → closes (requeue bs s) ≡ closes s
closes-requeue [] s = refl
closes-requeue (b ∷ bs) s = refl

-- What is left to read after `n` of the bytes are gone.
abbrev pub Leaves : ℕ → Incoming → Incoming → Type 0
Leaves n s s' = (content s' ≡ drop n (content s)) × (closes s' ≡ closes s)

read_loop-Leaves :
    (got : List ℕ) (n : ℕ) (s : Incoming) (x : List ℕ)
    → (read_loop got n s).0 ≡ some x
    → Leaves n s (read_loop got n s).1
unfolding read_loop
read_loop-Leaves got zero s x e = (refl, refl)
read_loop-Leaves got (suc n) [] x e = (refl, refl)
read_loop-Leaves got (suc n) (raised e ∷ s) x h = elim (Bool-cases (is_eintr e)) [
  | inl again ↦ rw again (read_loop-Leaves got (suc n) s x (rw again at h))
  | inr fatal ↦ absurd (fatal_none (rw fatal at h))
]
  where
    fatal_none : ◌≡◌ {A = Option (List ℕ)} none (some x) → ⊥
    fatal_none p = cc
read_loop-Leaves got (suc n) (arrived b bs ∷ s) x h =
    elim (Bool-cases (leb (suc (length bs)) (suc n))) [
      | inl whole ↦
          let rest =
            read_loop-Leaves (got ++ b ∷ bs) (suc n - suc (length bs)) s x (rw whole at h) in
          rw whole (
            rest.0
                ∙ ap (λ k. drop k (content s)) count
                ∙ sym (drop-append n bs (content s) (omega (arith, leb→le _ _ whole))),
            rest.1,
          )
      | inr part ↦ rw part (
        content-requeue (drop n bs) s ∙ sym (drop-append_le n bs (content s) (beyond n bs part)),
        closes-requeue (drop n bs) s,
      )
    ]
  where
    count : suc n - suc (length bs) ≡ n - length bs
    count = omega arith

-- However the kernel cuts the stream, `sysdvr_read_exact` gives the first `n` bytes that arrive if
-- there are so many; else all of them if the peer closes, and -1 if the connection fails.
pub read_exact_lem :
    (n : ℕ) (s : Incoming) → (read_exact n s).0 ≡ expected_read n (content s) (closes s)
unfolding read_exact
read_exact_lem n s = read_loop_result [] n s ∙ prepend-nil (expected_read n (content s) (closes s))
  where
    prepend-nil : (o : Option (List ℕ)) → prepend [] o ≡ o
    prepend-nil none = refl
    prepend-nil (some xs) = refl

-- A `sysdvr_read_exact` of `n` bytes that does not fail leaves what comes after the first `n` bytes,
-- and the way the stream ends, to the next read.
pub read_exact-Leaves :
    (n : ℕ) (s : Incoming) (x : List ℕ)
    → (read_exact n s).0 ≡ some x
    → Leaves n s (read_exact n s).1
unfolding read_exact
read_exact-Leaves n s x e = read_loop-Leaves [] n s x e

pub read_exact_full :
    (n : ℕ) (s : Incoming) → n ≤ length (content s) → (read_exact n s).0 ≡ some (take n (content s))
read_exact_full n s h = read_exact_lem n s ∙ expected_read_full n (content s) (closes s) h

expected_read-take :
    (n : ℕ) (bytes : List ℕ) (closed : Bool) (x : List ℕ)
    → expected_read n bytes closed ≡ some x
    → take n bytes ≡ x
unfolding expected_read
expected_read-take n bytes closed x e = ground (arith, take_all n bytes)

-- What a read took stands in front of what is left.
pub read_exact_took :
    (n : ℕ) (s : Incoming) (x : List ℕ)
    → (read_exact n s).0 ≡ some x
    → (content s ≡ x ++ content (read_exact n s).1) × (closes (read_exact n s).1 ≡ closes s)
read_exact_took n s x e =
    let left = read_exact-Leaves n s x e in
    let front = expected_read-take n (content s) (closes s) x (sym (read_exact_lem n s) ∙ e) in
    (sym (take-append-drop n (content s)) ∙ ap₂ ◌++◌ front (sym left.0), left.1)

-- A read of bytes that are on their way gives them, and leaves the others.
pub read_exact_prefix :
    (n : ℕ) (xs rest : List ℕ) (s : Incoming)
    → n ≡ length xs
    → content s ≡ xs ++ rest
    → (s' : Incoming) × (read_exact n s ≡ (some xs, s'))
      × (content s' ≡ rest)
      × (closes s' ≡ closes s)
read_exact_prefix n xs rest s count e =
    let fits : n ≤ length (content s) = omega (arith, ap length e, length-append xs rest) in
    let front : take n (content s) ≡ xs = ap₂ take count e ∙ take_exact xs rest in
    let took = read_exact_full n s fits ∙ ap some front in
    let left = read_exact-Leaves n s xs took in
    (
      (read_exact n s).1,
      λ i. (took i, (read_exact n s).1),
      left.0 ∙ ap₂ drop count e ∙ drop_exact xs rest,
      left.1,
    )

-- At the end of the bytes a read gives none if the peer closed, and fails if the connection did.
pub read_exact_empty :
    (n : ℕ) (s : Incoming)
    → 0 < n
    → content s ≡ []
    → (read_exact n s).0 ≡ (if closes s then some [] else none)
read_exact_empty n s h e = read_exact_lem n s ∙ rw e (expected_read_short n [] (closes s) h)
