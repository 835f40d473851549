-- ===== src/Net/Connect/Laws.antt =====
-- src/net.c: what `sysdvr_tcp_connect_timeout` gives, and that it keeps nothing else.
use sysdvr_webos.Prelude.{
  ℕ, ◌≡◌, refl, ◌∙◌, ◌⊎◌, ◌↔◌, sym, inl, inr, Bool, true, false, Option, none, some, List, [], ◌∷◌,
  ◌++◌, arith, Bool-cases,
}
use sysdvr_webos.Resources.{
  socket, addresses, Resource, releases, held_after, any_thread, release, remove, same,
  held_after-append, held_after-acquire_release,
}
use sysdvr_webos.Net.Connect.{
  ConnectCall, connected, in_progress, refused, SelectCall, writable, timed_out, failed, Attempt,
  after_select, after_connect, connect_one_timeout, Candidate, Connected, try_socket, connect_loop,
  tcp_connect_timeout,
}

-- What the kernel must answer for one address to give a connection: the flags can be read, set and
-- restored, and `connect` succeeds at once, or is in progress and then the socket becomes writable
-- without an error.
abbrev pub Connects : Attempt → Type 0
Connects a =
    (a.gets_flags ≡ true)
    × (a.sets_flags ≡ true)
    × (a.restores ≡ true)
    × ((a.connect ≡ connected)
        ⊎ ((a.connect ≡ in_progress) × (a.select ≡ writable) × (a.clear ≡ true)))

after_select_lem :
    (a : Attempt) (s : SelectCall)
    → ((after_select a s).success ≡ true)
      ↔ ((a.restores ≡ true) × (s ≡ writable) × (a.clear ≡ true))
unfolding after_select
after_select_lem a writable = ground arith
after_select_lem a timed_out = (λ h. absurd cc, λ (r, w, c). absurd cc)
after_select_lem a failed = (λ h. absurd cc, λ (r, w, c). absurd cc)

after_connect_lem :
    (a : Attempt) (c : ConnectCall)
    → ((after_connect a c).success ≡ true) ↔ (
        (a.restores ≡ true)
        × ((c ≡ connected) ⊎ ((c ≡ in_progress) × (a.select ≡ writable) × (a.clear ≡ true))))
unfolding after_connect
after_connect_lem a connected = (λ h. (h, inl refl), λ (r, _). r)
after_connect_lem a in_progress = (
  λ h. let (r, w, c) = (after_select_lem a a.select).0 h in (r, inr (refl, w, c)),
  λ (r, how). elim how [
    | inl bad ↦ absurd cc
    | inr (_, w, c) ↦ (after_select_lem a a.select).1 (r, w, c)
  ],
)
after_connect_lem a refused =
    (λ h. absurd cc, λ (r, how). elim how [ inl bad ↦ absurd cc | inr (bad, _, _) ↦ absurd cc ])

-- `connect_one_timeout` succeeds exactly where the kernel's answers are those of a connection.
connect_one_timeout-Connects : (a : Attempt) → ((connect_one_timeout a).success ≡ true) ↔ Connects a
unfolding connect_one_timeout
connect_one_timeout-Connects a = elim (Bool-cases a.gets_flags) [
  | inr bad ↦ (rw bad (λ h. absurd cc), λ (g, _, _, _). absurd cc)
  | inl gets ↦ elim (Bool-cases a.sets_flags) [
    | inr bad ↦ (rw (gets, bad) (λ h. absurd cc), λ (_, s, _, _). absurd cc)
    | inl sets ↦ (
      λ h.
          let (r, how) = (after_connect_lem a a.connect).0 (sym (rw (gets, sets) refl) ∙ h) in
          (gets, sets, r, how),
      λ (_, _, r, how). rw (gets, sets) ((after_connect_lem a a.connect).1 (r, how)),
    )
  ]
]

Connects-blocks : (a : Attempt) → Connects a → (connect_one_timeout a).nonblocking ≡ false
unfolding connect_one_timeout after_connect after_select
Connects-blocks a (g, s, r, how) = elim how [
  | inl at_once ↦ rw (g, s, at_once) (rw r refl)
  | inr (waits, w, c) ↦ rw (g, s, waits, w, c) (rw r refl)
]

-- No connection: no socket, or the kernel's answers are not those of a connection.
abbrev pub Refuses : Candidate → Type 0
Refuses c = (c.fd ≡ none) ⊎ (Connects c.attempt → ⊥)

-- The first address that connects has the socket `fd`, which blocks as it did before.
abbrev pub Offers : ℕ → List Candidate → Type 0
Offers fd [] = ⊥
Offers fd (c ∷ cs) =
    ((c.fd ≡ some fd) × Connects c.attempt × ((connect_one_timeout c.attempt).nonblocking ≡ false))
    ⊎ (Refuses c × Offers fd cs)

-- No address connects.
abbrev pub Refuse : List Candidate → Type 0
Refuse [] = Unit {0}
Refuse (c ∷ cs) = Refuses c × Refuse cs

abbrev pub Answers : Option ℕ → List Candidate → Type 0
Answers none cs = Refuse cs
Answers (some fd) cs = Offers fd cs

abbrev pub opened : Option ℕ → List Resource
opened none = []
opened (some fd) = (socket, fd) ∷ []

abbrev pub AnswersOf : Option ℕ → Option (List Candidate) → Type 0
AnswersOf r none = r ≡ none
AnswersOf r (some cs) = Answers r cs

-- The result of a loop: right, and of the sockets only that of the result is still held.
abbrev Kept : List Candidate → Connected → Type 0
Kept cs (r, calls) =
    Answers r cs
    × ((held : List Resource)
        → any_thread held ≡ false
        → held_after calls held ≡ some (opened r ++ held))

Offers-later :
    (c : Candidate) (cs : List Candidate) (r : Option ℕ)
    → Refuses c
    → Answers r cs
    → Answers r (c ∷ cs)
Offers-later c cs none h k = (h, k)
Offers-later c cs (some fd) h k = inr (h, k)

not_both : (b : Bool) → b ≡ false → b ≡ true → ⊥
not_both b h k = cc

failed-Refuses : (c : Candidate) → (connect_one_timeout c.attempt).success ≡ false → Refuses c
failed-Refuses c bad =
    let same = connect_one_timeout-Connects c.attempt in
    inr (λ h. not_both (connect_one_timeout c.attempt).success bad (same.1 h))

try_socket-Kept :
    (c : Candidate) (cs : List Candidate) (o : Option ℕ) (later : Connected)
    → c.fd ≡ o
    → Kept cs later
    → Kept (c ∷ cs) (try_socket o c.attempt later)
unfolding try_socket held_after
try_socket-Kept c cs none (r, calls) e k = (Offers-later c cs r (inl e) k.0, k.1)
try_socket-Kept c cs (some fd) (r, calls) e k =
    elim (Bool-cases (connect_one_timeout c.attempt).success) [
      | inl ok ↦
          let how = (connect_one_timeout-Connects c.attempt).0 ok in
          rw ok (inl (e, how, Connects-blocks c.attempt how), λ held quiet. refl)
      | inr bad ↦ rw bad (
        Offers-later c cs r (failed-Refuses c bad) k.0,
        λ held quiet.
            held_after-acquire_release (socket, fd) calls held quiet refl ∙ k.1 held quiet,
      )
    ]

connect_loop-Kept : (cs : List Candidate) → Kept cs (connect_loop cs)
unfolding connect_loop held_after
connect_loop-Kept [] = (tt, λ held quiet. refl)
connect_loop-Kept (c ∷ cs) = try_socket-Kept c cs c.fd (connect_loop cs) refl (connect_loop-Kept cs)

drop_addresses :
    (r : Option ℕ)
    → held_after (releases (addresses, 0) ∷ []) (opened r ++ (addresses, 0) ∷ []) ≡ some (opened r)
unfolding held_after release any_thread remove same
drop_addresses none = refl
drop_addresses (some fd) = refl

-- Connecting gives the socket of the first address of the resolver that has a socket and connects: its
-- flags can be read, set and restored, and `connect` succeeds at once, or is in progress and the socket
-- then becomes writable without an error. That socket blocks again. It gives none exactly if there is
-- no such address or the resolver fails. Whatever fails on the way, every other socket and the list of
-- addresses are given back.
pub tcp_connect_timeout_lem :
    (r : Option (List Candidate))
    → AnswersOf (tcp_connect_timeout r).0 r
      × (held_after (tcp_connect_timeout r).1 [] ≡ some (opened (tcp_connect_timeout r).0))
unfolding tcp_connect_timeout held_after any_thread
tcp_connect_timeout_lem none = (refl, refl)
tcp_connect_timeout_lem (some cs) =
    let (right, kept) = connect_loop-Kept cs in
    let o = (connect_loop cs).0 in
    (
      right,
      held_after-append (connect_loop cs).1 (releases (addresses, 0) ∷ []) ((addresses, 0) ∷ [])
            (opened o ++ (addresses, 0) ∷ []) (kept ((addresses, 0) ∷ []) refl)
          ∙ drop_addresses o,
    )
