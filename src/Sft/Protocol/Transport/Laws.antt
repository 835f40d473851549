-- ===== src/Sft/Protocol/Transport/Laws.antt =====
-- src/sft_protocol.c: a read takes exactly its bytes from the stream, and does not stall for ever.
use sysdvr_webos.Prelude.{
  ℕ, zero, suc, ◌+◌, ◌-◌, ◌≤◌, ◌<◌, min, ◌≡◌, refl, sym, ap, ◌∙◌, ◌⊎◌, inl, inr, Bool, true, false,
  List, [], ◌∷◌, ◌++◌, append-nil, append_assoc, arith, ◌==◌, if◌then◌else◌, length, set, take,
  drop, length-append, length-take, take-append-drop,
}
use sysdvr_webos.Sft.Protocol.Transport.{
  Event, not_ready, select_failed, try_again, recv_failed, readable, Clock, Rounds, Outcome,
  complete, ended, failed, Transfer, stall_us, timed, deadline_of, guarded, read_rounds,
  read_exact_interruptible,
}

guarded-complete :
    (t : Bool) (d : ℕ) (c : Clock) (bytes : List ℕ) (rs : Rounds) (rest : Transfer) (x : List ℕ)
    (s : List ℕ × Rounds)
    → guarded t d c bytes rs rest ≡ (complete x, s)
    → rest ≡ (complete x, s)
unfolding guarded
guarded-complete t d c bytes rs rest x s e = ground arith

-- The buffer was extended by the bytes that left the stream.
abbrev Took : List ℕ → ℕ → List ℕ → List ℕ → List ℕ → Type 0
Took got need bytes x left =
    (taken : List ℕ) × (x ≡ got ++ taken) × (bytes ≡ taken ++ left) × (length taken ≡ need)

Took-more :
    (got : List ℕ) (b n count : ℕ) (bytes x left : List ℕ)
    → count ≤ n
    → count ≤ length bytes
    → Took (got ++ (b ∷ take count bytes)) (n - count) (drop count bytes) x left
    → Took got (suc n) (b ∷ bytes) x left
Took-more got b n count bytes x left h fits (taken, ext, cut, size) = (
  b ∷ take count bytes ++ taken,
  ext ∙ append_assoc got (b ∷ take count bytes) taken,
  ap (◌∷◌ b) (
      sym (take-append-drop count bytes)
      ∙ ap (◌++◌ (take count bytes)) cut
      ∙ sym (append_assoc (take count bytes) taken left)),
  omega (arith, length-append (take count bytes) taken, length-take count bytes),
)

failed_complete :
    (x : List ℕ) (s s' : List ℕ × Rounds) → ◌≡◌ {A = Transfer} (failed, s) (complete x, s') → ⊥
failed_complete x s s' e = cc

abbrev closing : Bool → List ℕ × Rounds → Transfer
closing z s = if z then (ended, s) else (failed, s)

closing-complete :
    (z : Bool) (x : List ℕ) (s s' : List ℕ × Rounds) → closing z s ≡ (complete x, s') → ⊥
closing-complete true x s s' e = absurd cc
closing-complete false x s s' e = absurd cc

read_rounds-Took :
    (idle : Bool) (d : ℕ) (got : List ℕ) (need : ℕ) (bytes : List ℕ) (rs : Rounds) (x left : List ℕ)
    (rs' : Rounds)
    → read_rounds idle d got need bytes rs ≡ (complete x, (left, rs'))
    → Took got need bytes x left
unfolding read_rounds
read_rounds-Took idle d got zero bytes rs x left rs' e = ([], same ∙ sym (append-nil got), cc, refl)
  where
    same : x ≡ got
    same = cc
read_rounds-Took idle d got (suc n) bytes [] x left rs' e = absurd cc
read_rounds-Took idle d got (suc n) bytes ((c, not_ready) ∷ rs) x left rs' e =
    read_rounds-Took idle (deadline_of (timed idle got) d c) got (suc n) bytes rs x left rs'
      (guarded-complete (timed idle got) d c bytes rs _ x (left, rs') e)
read_rounds-Took idle d got (suc n) bytes ((c, try_again) ∷ rs) x left rs' e =
    read_rounds-Took idle (deadline_of (timed idle got) d c) got (suc n) bytes rs x left rs'
      (guarded-complete (timed idle got) d c bytes rs _ x (left, rs') e)
read_rounds-Took idle d got (suc n) bytes ((c, select_failed) ∷ rs) x left rs' e = absurd (
    failed_complete x (bytes, rs) (left, rs')
      (guarded-complete (timed idle got) d c bytes rs _ x (left, rs') e))
read_rounds-Took idle d got (suc n) bytes ((c, recv_failed) ∷ rs) x left rs' e = absurd (
    failed_complete x (bytes, rs) (left, rs')
      (guarded-complete (timed idle got) d c bytes rs _ x (left, rs') e))
read_rounds-Took idle d got (suc n) [] ((c, readable k) ∷ rs) x left rs' e = absurd (
    closing-complete (length got == 0) x ([], rs) (left, rs')
      (guarded-complete (timed idle got) d c [] rs _ x (left, rs') e))
read_rounds-Took idle d got (suc n) (b ∷ bytes) ((c, readable k) ∷ rs) x left rs' e =
    Took-more got b n (min (min k n) (length bytes)) bytes x left (omega arith) (omega arith) (
      read_rounds-Took idle (c.after_us + stall_us)
        (got ++ (b ∷ take (min (min k n) (length bytes)) bytes)) (n - min (min k n) (length bytes))
        (drop (min (min k n) (length bytes)) bytes) rs x left rs'
        (guarded-complete (timed idle got) d c (b ∷ bytes) rs _ x (left, rs') e))

-- A completed read hands over exactly the next `size` bytes of the stream, in order, and leaves the
-- others.
pub read_exact_interruptible_lem :
    (size : ℕ) (idle : Bool) (bytes : List ℕ) (rs : Rounds) (x left : List ℕ) (rs' : Rounds)
    → read_exact_interruptible size idle bytes rs ≡ (complete x, (left, rs'))
    → (bytes ≡ x ++ left) × (length x ≡ size)
unfolding read_exact_interruptible
read_exact_interruptible_lem size idle bytes rs x left rs' e =
    let (taken, ext, cut, sized) = read_rounds-Took idle 0 [] size bytes rs x left rs' e in
    (cut ∙ ap (λ t. t ++ left) (sym ext), ap length ext ∙ sized)

-- Rounds that bring no byte.
abbrev pub Silent : Event → Type 0
Silent not_ready = Unit {0}
Silent try_again = Unit {0}
Silent _ = ⊥

abbrev pub AllSilent : Rounds → Type 0
AllSilent [] = Unit {0}
AllSilent ((c, e) ∷ rs) = Silent e × AllSilent rs

-- Some round looks at the clock when `d` is reached.
abbrev pub Reaches : ℕ → Rounds → Type 0
Reaches d [] = ⊥
Reaches d ((c, e) ∷ rs) = (d ≤ c.checked_us) ⊎ Reaches d rs

-- The read was given up.
abbrev pub GivenUp : Outcome → Type 0
GivenUp o = (o ≡ failed) ⊎ (o ≡ ended)

guarded-GivenUp :
    (t : Bool) (d : ℕ) (c : Clock) (bytes : List ℕ) (rs : Rounds) (rest : Transfer)
    → t ≡ true
    → (deadline_of t d c ≤ c.checked_us) ⊎ GivenUp rest.0
    → GivenUp (guarded t d c bytes rs rest).0
unfolding guarded
guarded-GivenUp t d c bytes rs rest timed h = ground arith

deadline_set : (t : Bool) (d : ℕ) (c : Clock) → 0 < d → deadline_of t d c ≡ d
unfolding deadline_of
deadline_set t d c h = ground arith

silent-GivenUp :
    (got : List ℕ) (idle : Bool) (d n : ℕ) (bytes : List ℕ) (rs : Rounds)
    → 0 < d
    → timed idle got ≡ true
    → AllSilent rs
    → Reaches d rs
    → GivenUp (read_rounds idle d got (suc n) bytes rs).0
unfolding read_rounds
silent-GivenUp got idle d n bytes [] set t s z = absurd z
silent-GivenUp got idle d n bytes ((c, not_ready) ∷ rs) set t s z =
    guarded-GivenUp (timed idle got) d c bytes rs _ t (
      rw (deadline_set (timed idle got) d c set) (elim z [
        | inl now ↦ inl now
        | inr later ↦ inr (silent-GivenUp got idle d n bytes rs set t s.1 later)
      ]))
silent-GivenUp got idle d n bytes ((c, try_again) ∷ rs) set t s z =
    guarded-GivenUp (timed idle got) d c bytes rs _ t (
      rw (deadline_set (timed idle got) d c set) (elim z [
        | inl now ↦ inl now
        | inr later ↦ inr (silent-GivenUp got idle d n bytes rs set t s.1 later)
      ]))
silent-GivenUp got idle d n bytes ((c, select_failed) ∷ rs) set t s z = absurd s.0
silent-GivenUp got idle d n bytes ((c, recv_failed) ∷ rs) set t s z = absurd s.0
silent-GivenUp got idle d n bytes ((c, readable k) ∷ rs) set t s z = absurd s.0

-- The deadline is armed by the first round, three seconds after it.
first_deadline : (c : Clock) → deadline_of true 0 c ≡ c.armed_us + 3000000
unfolding deadline_of
first_deadline c = refl

-- No byte is read yet and the read may not idle: the first round waits in vain, and the time runs from it.
abbrev pub StallsAtStart : Bool → ℕ → Clock → Event → Rounds → Type 0
StallsAtStart idle deadline c e rs =
    (idle ≡ false) × (deadline ≡ 0) × Silent e × Reaches (c.armed_us + 3000000) rs

-- The first round takes bytes, but not the last one that is needed, and the time runs from it.
abbrev pub StallsAfter : ℕ → List ℕ → Clock → Event → Rounds → Type 0
StallsAfter n bytes c (readable k) rs =
    ((k < n) ⊎ (length bytes ≤ n)) × Reaches (c.after_us + 3000000) rs
StallsAfter n bytes c _ rs = ⊥

guarded_end :
    (t : Bool) (d : ℕ) (c : Clock) (bytes : List ℕ) (rs : Rounds) (rest : Transfer)
    → GivenUp rest.0
    → GivenUp (guarded t d c bytes rs rest).0
unfolding guarded
guarded_end t d c bytes rs rest h = ground arith

start-GivenUp :
    (idle : Bool) (n : ℕ) (bytes : List ℕ) (c : Clock) (e : Event) (rs : Rounds)
    → idle ≡ false
    → Silent e
    → AllSilent rs
    → Reaches (c.armed_us + 3000000) rs
    → GivenUp (read_rounds idle 0 [] (suc n) bytes ((c, e) ∷ rs)).0
unfolding read_rounds
start-GivenUp true n bytes c e rs i s all z = absurd cc
start-GivenUp false n bytes c not_ready rs i s all z = guarded-GivenUp true 0 c bytes rs _ refl (
    rw (first_deadline c)
      (inr (silent-GivenUp [] false (c.armed_us + 3000000) n bytes rs (omega arith) refl all z)))
start-GivenUp false n bytes c try_again rs i s all z = guarded-GivenUp true 0 c bytes rs _ refl (
    rw (first_deadline c)
      (inr (silent-GivenUp [] false (c.armed_us + 3000000) n bytes rs (omega arith) refl all z)))
start-GivenUp false n bytes c select_failed rs i s all z = absurd s
start-GivenUp false n bytes c recv_failed rs i s all z = absurd s
start-GivenUp false n bytes c (readable k) rs i s all z = absurd s

-- More bytes are needed, and one is there, so that the deadline holds.
missing-GivenUp :
    (idle : Bool) (d : ℕ) (got : List ℕ) (b : ℕ) (taken : List ℕ) (need : ℕ) (bytes : List ℕ)
    (rs : Rounds)
    → 0 < d
    → 0 < need
    → AllSilent rs
    → Reaches d rs
    → GivenUp (read_rounds idle d (got ++ (b ∷ taken)) need bytes rs).0
missing-GivenUp idle d got b taken zero bytes rs set need all z = absurd (omega arith)
missing-GivenUp idle d got b taken (suc n) bytes rs set need all z =
    silent-GivenUp (got ++ (b ∷ taken)) idle d n bytes rs set
      (ground (arith, length-append got (b ∷ taken))) all z

after-GivenUp :
    (idle : Bool) (d : ℕ) (got : List ℕ) (n k : ℕ) (bytes : List ℕ) (c : Clock) (rs : Rounds)
    → (k < n) ⊎ (length bytes ≤ n)
    → AllSilent rs
    → Reaches (c.after_us + 3000000) rs
    → GivenUp (read_rounds idle d got (suc n) bytes ((c, readable k) ∷ rs)).0
unfolding read_rounds
after-GivenUp idle d got n k [] c rs more all z =
    guarded_end (timed idle got) d c [] rs _ (ground arith)
after-GivenUp idle d got n k (b ∷ bytes) c rs more all z =
    let count = min (min k n) (length bytes) in
    guarded_end (timed idle got) d c (b ∷ bytes) rs _ (
      missing-GivenUp idle (c.after_us + 3000000) got b (take count bytes) (n - count)
        (drop count bytes) rs (omega arith) (omega arith) all z)

-- A read ends, by -1 or by 0, when no byte comes for three seconds: either none has come at all and the
-- read may not idle, or some have come, but not all. In the first case the time runs from the first
-- round, which like each later one does not find the socket readable or is to be tried again; in the
-- second case it runs from the last round that took bytes, whatever has been read before it. Each case
-- lasts until the clock that some round checks is three seconds on.
pub stalled-GivenUp :
    (idle : Bool) (deadline : ℕ) (got : List ℕ) (n : ℕ) (bytes : List ℕ) (c : Clock) (e : Event)
    (rs : Rounds)
    → ((got ≡ []) × StallsAtStart idle deadline c e rs) ⊎ StallsAfter n bytes c e rs
    → AllSilent rs
    → GivenUp (read_rounds idle deadline got (suc n) bytes ((c, e) ∷ rs)).0
stalled-GivenUp idle deadline got n bytes c e rs (inl (none_yet, (may_not, unset, silent, z))) all =
    rw (none_yet, unset) (start-GivenUp idle n bytes c e rs may_not silent all z)
stalled-GivenUp idle deadline got n bytes c (readable k) rs (inr (more, z)) all =
    after-GivenUp idle deadline got n k bytes c rs more all z
stalled-GivenUp idle deadline got n bytes c not_ready rs (inr z) all = absurd z
stalled-GivenUp idle deadline got n bytes c try_again rs (inr z) all = absurd z
stalled-GivenUp idle deadline got n bytes c select_failed rs (inr z) all = absurd z
stalled-GivenUp idle deadline got n bytes c recv_failed rs (inr z) all = absurd z
