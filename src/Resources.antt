-- ===== src/Resources.antt =====
-- What the program acquires from the system and gives back: a run of the code as the list of these
-- calls, and the check that each thing is given back once, and nothing that a thread may use is given
-- back while the thread runs.
pub mod Nesting
use mathlib.Core.Option
use sysdvr_webos.Prelude.{
  ℕ, ◌≡◌, refl, ap, inl, inr, Bool, true, false, not, ◌&&◌, ◌||◌, Option, none, some, List, [], ◌∷◌,
  ◌++◌, arith, ◌==◌, if◌then◌else◌, Option-cases,
}

pub data Kind : Type 0 where
  socket addresses thread lock memory library player font texture open_file surface : Kind

abbrev rank : Kind → ℕ
rank socket = 0
rank addresses = 1
rank thread = 2
rank lock = 3
rank memory = 4
rank library = 5
rank player = 6
rank font = 7
rank texture = 8
rank open_file = 9
rank surface = 10

abbrev pub Resource : Type 0
Resource = Kind × ℕ

unfoldable pub same : Resource → Resource → Bool
same (k, i) (l, j) = (rank k == rank l) && (i == j)

abbrev pub is_thread : Resource → Bool
is_thread (k, i) = rank k == 2

pub data Call : Type 0 where
  acquires releases : Resource → Call

-- The list without the first occurrence; `none` if there is none.
unfoldable pub remove : Resource → List Resource → Option (List Resource)
remove r [] = none
remove r (h ∷ hs) =
    let rest = Option.map (λ left. h ∷ left) (remove r hs) in if same r h then some hs else rest

unfoldable pub any_thread : List Resource → Bool
any_thread [] = false
any_thread (h ∷ hs) = is_thread h || any_thread hs

-- Only a thread is given back, by `pthread_join`, while a thread runs.
unfoldable pub release : Resource → List Resource → Option (List Resource)
release r held = if any_thread held && not (is_thread r) then none else remove r held

-- What is held after the calls; `none` if a call is not allowed.
unfoldable pub held_after : List Call → List Resource → Option (List Resource)
held_after [] held = some held
held_after (acquires r ∷ cs) held = held_after cs (r ∷ held)
held_after (releases r ∷ cs) held = elim (release r held) [
  | none ↦ none
  | some left ↦ held_after cs left
]

-- All calls are allowed, and at the end nothing is held.
abbrev pub IsBalanced : List Call → Type 0
IsBalanced cs = held_after cs [] ≡ some []

pub same_refl : (r : Resource) → same r r ≡ true
unfolding same
same_refl (k, i) = ground arith

pub held_after-append :
    (cs ds : List Call) (held left : List Resource)
    → held_after cs held ≡ some left
    → held_after (cs ++ ds) held ≡ held_after ds left
unfolding held_after
held_after-append [] ds held left h = ap (held_after ds) (cc)
held_after-append (acquires r ∷ cs) ds held left h = held_after-append cs ds (r ∷ held) left h
held_after-append (releases r ∷ cs) ds held left h = elim (Option-cases (release r held)) [
  | inl e ↦ absurd (cc (bad e))
  | inr (x, e) ↦ rw (e, held_after) (held_after-append cs ds x left (ok x e))
]
  where
    bad : release r held ≡ none → none ≡ some left
    bad e = rw (← h) (rw (e, held_after) refl)

    ok : (x : List Resource) → release r held ≡ some x → held_after cs x ≡ some left
    ok x e = rw (← h) (rw (e, held_after) refl)

-- Giving back at once what was acquired last.
pub held_after-acquire_release :
    (r : Resource) (cs : List Call) (held : List Resource)
    → any_thread held ≡ false
    → is_thread r ≡ false
    → held_after (acquires r ∷ releases r ∷ cs) held ≡ held_after cs held
unfolding held_after release any_thread remove
held_after-acquire_release (k, i) cs held quiet plain = ground (arith, same_refl (k, i))
