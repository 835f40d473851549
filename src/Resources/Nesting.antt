-- ===== src/Resources/Nesting.antt =====
-- Runs inside runs: what is acquired around a balanced run is still there after it.
use mathlib.Core.Option
use sysdvr_webos.Prelude.{
  ◌≡◌, refl, ap, ◌∙◌, inl, inr, Bool, true, false, not, ◌&&◌, none, some, List, [], ◌∷◌, ◌++◌,
  arith, Bool-cases, Option-cases,
}
use sysdvr_webos.Resources.{
  Resource, Call, acquires, releases, same, is_thread, remove, any_thread, release, held_after,
  IsBalanced, held_after-append,
}

remove-append :
    (r : Resource) (k h left : List Resource)
    → remove r k ≡ some left
    → remove r (k ++ h) ≡ some (left ++ h)
unfolding remove
remove-append r [] h left e = absurd (cc)
remove-append r (x ∷ k) h left e = elim (Bool-cases (same r x)) [
  | inl here ↦ rw here (ap (λ l. some (l ++ h)) (first_removed here))
  | inr there ↦ elim (Option-cases (remove r k)) [
    | inl nothing ↦ absurd (cc (lost there nothing))
    | inr (l, found) ↦
        rw (there, remove-append r k h l found)
          (ap (λ y. some (y ++ h)) (rest_removed there l found))
  ]
]
  where
    some_eq : (a b : List Resource) → some a ≡ some b → a ≡ b
    some_eq a b p = cc

    first_removed : same r x ≡ true → k ≡ left
    first_removed here = some_eq k left (rw (← e) (rw here refl))

    lost : same r x ≡ false → remove r k ≡ none → none ≡ some left
    lost there nothing = rw (← e) (rw (there, nothing) refl)

    rest_removed : same r x ≡ false → (l : List Resource) → remove r k ≡ some l → x ∷ l ≡ left
    rest_removed there l found = some_eq (x ∷ l) left (rw (← e) (rw (there, found) refl))

any_thread-append :
    (k h : List Resource) → any_thread h ≡ false → any_thread (k ++ h) ≡ any_thread k
unfolding any_thread
any_thread-append [] h quiet = quiet
any_thread-append (x ∷ k) h quiet = rw (any_thread-append k h quiet) refl

release-append :
    (r : Resource) (k h left : List Resource)
    → any_thread h ≡ false
    → release r k ≡ some left
    → release r (k ++ h) ≡ some (left ++ h)
unfolding release
release-append r k h left quiet e = elim (Bool-cases (any_thread k && not (is_thread r))) [
  | inl refused ↦ absurd (cc (no_release refused))
  | inr allowed ↦
      rw (any_thread-append k h quiet, allowed) (remove-append r k h left (removed allowed))
]
  where
    no_release : (any_thread k && not (is_thread r)) ≡ true → none ≡ some left
    no_release refused = rw (← e) (rw refused refl)

    removed : (any_thread k && not (is_thread r)) ≡ false → remove r k ≡ some left
    removed allowed = rw (← e) (rw allowed refl)

-- The frame rule: what is held besides, and is no thread, does not matter.
pub held_after_frame :
    (cs : List Call) (k h left : List Resource)
    → any_thread h ≡ false
    → held_after cs k ≡ some left
    → held_after cs (k ++ h) ≡ some (left ++ h)
unfolding held_after
held_after_frame [] k h left quiet e = ap (Option.map (λ l. l ++ h)) e
held_after_frame (acquires r ∷ cs) k h left quiet e = held_after_frame cs (r ∷ k) h left quiet e
held_after_frame (releases r ∷ cs) k h left quiet e = elim (Option-cases (release r k)) [
  | inl refused ↦ absurd (cc (no_run refused))
  | inr (l, allowed) ↦
      rw (release-append r k h l quiet allowed, held_after)
        (held_after_frame cs l h left quiet (runs l allowed))
]
  where
    no_run : release r k ≡ none → none ≡ some left
    no_run refused = rw (← e) (rw (refused, held_after) refl)

    runs : (l : List Resource) → release r k ≡ some l → held_after cs l ≡ some left
    runs l allowed = rw (← e) (rw (allowed, held_after) refl)

-- A run that can be continued is itself allowed.
held_after_front :
    (cs ds : List Call) (h left : List Resource)
    → held_after (cs ++ ds) h ≡ some left
    → (mid : List Resource) × (held_after cs h ≡ some mid) × (held_after ds mid ≡ some left)
unfolding held_after
held_after_front [] ds h left e = (h, refl, e)
held_after_front (acquires r ∷ cs) ds h left e = held_after_front cs ds (r ∷ h) left e
held_after_front (releases r ∷ cs) ds h left e = elim (Option-cases (release r h)) [
  | inl refused ↦ absurd (cc (no_run refused))
  | inr (l, allowed) ↦
      let (mid, first, second) = held_after_front cs ds l left (runs l allowed) in
      (mid, rw (allowed, held_after) first, second)
]
  where
    no_run : release r h ≡ none → none ≡ some left
    no_run refused = rw (← e) (rw (refused, held_after) refl)

    runs : (l : List Resource) → release r h ≡ some l → held_after (cs ++ ds) l ≡ some left
    runs l allowed = rw (← e) (rw (allowed, held_after) refl)

-- No thread is started.
unfoldable pub no_threads : List Call → Bool
no_threads [] = true
no_threads (acquires r ∷ cs) = not (is_thread r) && no_threads cs
no_threads (releases r ∷ cs) = no_threads cs

any_thread-remove :
    (r : Resource) (h left : List Resource)
    → any_thread h ≡ false
    → remove r h ≡ some left
    → any_thread left ≡ false
unfolding any_thread remove
any_thread-remove r [] left quiet e = absurd (cc)
any_thread-remove r (x ∷ h) left quiet e = elim (Option-cases (remove r h)) [
  | inl nothing ↦ ground (arith)
  | inr (l, found) ↦ ground (arith, any_thread-remove r h l)
]

any_thread-held_after :
    (cs : List Call) (h left : List Resource)
    → any_thread h ≡ false
    → no_threads cs ≡ true
    → held_after cs h ≡ some left
    → any_thread left ≡ false
unfolding held_after no_threads release any_thread
any_thread-held_after [] h left quiet plain e = ground arith
any_thread-held_after (acquires r ∷ cs) h left quiet plain e =
    any_thread-held_after cs (r ∷ h) left (ground arith) (ground arith) e
any_thread-held_after (releases r ∷ cs) h left quiet plain e = elim (Option-cases (remove r h)) [
  | inl nothing ↦ absurd (cc (no_run nothing))
  | inr (l, found) ↦
      any_thread-held_after cs l left (any_thread-remove r h l quiet found) plain (runs l found)
]
  where
    no_run : remove r h ≡ none → none ≡ some left
    no_run nothing = rw (← e) (rw (quiet, nothing, held_after) refl)

    runs : (l : List Resource) → remove r h ≡ some l → held_after cs l ≡ some left
    runs l found = rw (← e) (rw (quiet, found, held_after) refl)

-- A balanced run may stand inside another one, if no thread has been started around it.
pub IsBalanced-nest :
    (before inside after : List Call)
    → IsBalanced (before ++ after)
    → no_threads before ≡ true
    → IsBalanced inside
    → IsBalanced (before ++ (inside ++ after))
IsBalanced-nest before inside after around plain balanced =
    let (mid, opened, closed) = held_after_front before after [] [] around in
    let quiet = any_thread-held_after before [] mid none_held plain opened in
    held_after-append before (inside ++ after) [] mid opened
    ∙ (held_after-append inside after mid mid (held_after_frame inside [] mid [] quiet balanced)
        ∙ closed)
  where
    none_held : any_thread [] ≡ false
    none_held = unfold any_thread in refl

pub IsBalanced-append : (cs ds : List Call) → IsBalanced cs → IsBalanced ds → IsBalanced (cs ++ ds)
IsBalanced-append cs ds h k = held_after-append cs ds [] [] h ∙ k
