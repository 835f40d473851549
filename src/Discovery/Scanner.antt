-- ===== src/Discovery/Scanner.antt =====
-- src/discovery.c and src/sft_discovery.c: opening and closing the two scanners. What the allocator and
-- the kernel answer is an argument.
use sysdvr_webos.Prelude.{
  ℕ, ◌≡◌, refl, inl, inr, Bool, true, false, not, Option, none, some, List, [], ◌∷◌, ◌++◌,
  if◌then◌else◌, Bool-cases,
}
use sysdvr_webos.Resources.{
  socket, memory, Call, acquires, releases, IsBalanced, held_after, release, any_thread, remove,
  same,
}
use sysdvr_webos.Resources.Nesting.{no_threads}

-- Which scanner a socket and a block of memory belong to.
abbrev pub sysdvr_scanner : ℕ
sysdvr_scanner = 10

abbrev pub sft_scanner : ℕ
sft_scanner = 11

-- `sysdvr_discovery` and `sft_discovery`: the descriptor, and whether reading from it blocks.
pub record Scanner : Type 0 where
  pub owner : ℕ
  pub fd : ℕ
  pub blocks : Bool

abbrev pub Opened : Type 0
Opened = Option Scanner × List Call

abbrev open_with_socket : ℕ → Option ℕ → Bool → Bool → Opened
open_with_socket owner none binds blocks =
    (none, acquires (memory, owner) ∷ releases (memory, owner) ∷ [])
open_with_socket owner (some fd) false blocks = (
  none,
  acquires (memory, owner)
      ∷ acquires (socket, owner)
      ∷ releases (socket, owner)
      ∷ releases (memory, owner)
      ∷ [],
)
open_with_socket owner (some fd) true blocks = (
  some (record { owner = owner; fd = fd; blocks = blocks }),
  acquires (memory, owner) ∷ acquires (socket, owner) ∷ [],
)

-- What the allocator, `socket` and `bind` answer, and whether `fcntl` reads the flags and sets
-- O_NONBLOCK, which only the scanner for SysDVR asks for, and does not check.
pub record Answers : Type 0 where
  pub allocates : Bool
  pub fd : Option ℕ
  pub binds : Bool
  pub sets_nonblocking : Bool

unfoldable pub sysdvr_discovery_open : Answers → Opened
sysdvr_discovery_open a =
    if not a.allocates
    then (none, [])
    else open_with_socket sysdvr_scanner a.fd a.binds (not a.sets_nonblocking)

unfoldable pub sft_discovery_open : Answers → Opened
sft_discovery_open a =
    if not a.allocates then (none, []) else open_with_socket sft_scanner a.fd a.binds true

-- `sysdvr_discovery_close` and `sft_discovery_close`; the scanner may be NULL.
unfoldable pub close_scanner : Option Scanner → List Call
close_scanner none = []
close_scanner (some s) = releases (socket, s.owner) ∷ releases (memory, s.owner) ∷ []

-- Both scanners, opened and closed in the order of `main`.
pub open_scanners : Opened → Opened → List Call
open_scanners a b = a.1 ++ b.1

pub close_scanners : Opened → Opened → List Call
unfolding close_scanner
close_scanners a b = close_scanner a.0 ++ close_scanner b.0

-- How opening can end.
pub data Ends (owner : ℕ) : Opened → Type 0 where
  no_memory : Ends owner (none, [])
  no_socket : Ends owner (none, acquires (memory, owner) ∷ releases (memory, owner) ∷ [])
  not_bound : Ends owner (
    none,
    acquires (memory, owner)
        ∷ acquires (socket, owner)
        ∷ releases (socket, owner)
        ∷ releases (memory, owner)
        ∷ [],
  )
  is_open :
      (fd : ℕ) (blocks : Bool)
      → Ends owner (
        some (record { owner = owner; fd = fd; blocks = blocks }),
        acquires (memory, owner) ∷ acquires (socket, owner) ∷ [],
      )

socket-Ends :
    (owner : ℕ) (fd : Option ℕ) (binds blocks : Bool)
    → Ends owner (open_with_socket owner fd binds blocks)
socket-Ends owner none binds blocks = no_socket
socket-Ends owner (some fd) false blocks = not_bound
socket-Ends owner (some fd) true blocks = is_open fd blocks

pub sysdvr_discovery_open-Ends : (a : Answers) → Ends sysdvr_scanner (sysdvr_discovery_open a)
unfolding sysdvr_discovery_open
sysdvr_discovery_open-Ends a = elim (Bool-cases a.allocates) [
  | inr nothing ↦ rw nothing no_memory
  | inl there ↦ rw there (socket-Ends sysdvr_scanner a.fd a.binds (not a.sets_nonblocking))
]

pub sft_discovery_open-Ends : (a : Answers) → Ends sft_scanner (sft_discovery_open a)
unfolding sft_discovery_open
sft_discovery_open-Ends a = elim (Bool-cases a.allocates) [
  | inr nothing ↦ rw nothing no_memory
  | inl there ↦ rw there (socket-Ends sft_scanner a.fd a.binds true)
]

-- The two scanners with nothing in between.
abbrev pub Quiet : List Call → List Call → Type 0
Quiet before after = IsBalanced (before ++ after) × (no_threads before ≡ true)

pub scanners-Quiet :
    {a b : Opened}
    → Ends sysdvr_scanner a
    → Ends sft_scanner b
    → Quiet (open_scanners a b) (close_scanners a b)
unfolding open_scanners close_scanners held_after release any_thread remove same no_threads
scanners-Quiet no_memory no_memory = (refl, refl)
scanners-Quiet no_memory no_socket = (refl, refl)
scanners-Quiet no_memory not_bound = (refl, refl)
scanners-Quiet no_memory (is_open fd' blocks') = (refl, refl)
scanners-Quiet no_socket no_memory = (refl, refl)
scanners-Quiet no_socket no_socket = (refl, refl)
scanners-Quiet no_socket not_bound = (refl, refl)
scanners-Quiet no_socket (is_open fd' blocks') = (refl, refl)
scanners-Quiet not_bound no_memory = (refl, refl)
scanners-Quiet not_bound no_socket = (refl, refl)
scanners-Quiet not_bound not_bound = (refl, refl)
scanners-Quiet not_bound (is_open fd' blocks') = (refl, refl)
scanners-Quiet (is_open fd blocks) no_memory = (refl, refl)
scanners-Quiet (is_open fd blocks) no_socket = (refl, refl)
scanners-Quiet (is_open fd blocks) not_bound = (refl, refl)
scanners-Quiet (is_open fd blocks) (is_open fd' blocks') = (refl, refl)
