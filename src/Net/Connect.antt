-- ===== src/Net/Connect.antt =====
-- src/net.c: `sysdvr_tcp_connect_timeout` and the options of a socket. What the resolver and the kernel
-- answer is an argument; `errno`, which the callers only print, is left out.
pub mod Laws
use sysdvr_webos.Prelude.{
  ℕ, zero, suc, ◌+◌, ◌-◌, ◌*◌, ◌/◌, ◌%◌, ◌^◌, ◌≤◌, ◌<◌, min, ◌≡◌, refl, sym, ap, ap₂, subst, ◌∙◌,
  ◌≢◌, ◌↔◌, ◌⊎◌, inl, inr, Bool, true, false, not, ◌&&◌, ◌||◌, Option, none, some, List, [], ◌∷◌,
  ◌++◌, map, append-nil, append_assoc, arith, ltb, leb, ◌==◌, ◌!=◌, if◌then◌else◌, ltb→lt, lt→ltb,
  ltb_false→le, le→ltb_false, leb→le, le→leb, leb_false→lt, lt→leb_false, ==_iff, Bool-cases,
  Option-cases, length, get_elem?, get_or, set, take, drop, replicate, length-append, length-take,
  length-drop, length-set, length-replicate, take_all, drop_all, take-append, drop-append,
  take-append_le, drop-append_le, take-append-drop, take_exact, drop_exact, drop-drop,
  drop-set_before, take-set_next, take_next, get_or-take,
}
use sysdvr_webos.Prelude.Int.{ℤ, pos, negsuc}
use sysdvr_webos.Resources.{socket, addresses, Call, acquires, releases}

pub data ConnectCall : Type 0 where
  connected in_progress refused : ConnectCall

pub data SelectCall : Type 0 where
  writable timed_out failed : SelectCall

-- What the kernel answers while one address is tried: `fcntl` reads the flags, sets O_NONBLOCK and
-- restores the flags; `clear` is a `getsockopt` that works and finds no error.
pub record Attempt : Type 0 where
  pub gets_flags : Bool
  pub sets_flags : Bool
  pub connect : ConnectCall
  pub select : SelectCall
  pub clear : Bool
  pub restores : Bool

-- The result, and whether O_NONBLOCK is set when the function returns.
pub record Attempted : Type 0 where
  pub success : Bool
  pub nonblocking : Bool

abbrev pub give_up : Attempt → Attempted
give_up a = record { success = false; nonblocking = not a.restores }

abbrev pub finish : Attempt → Attempted
finish a = record { success = a.restores; nonblocking = not a.restores }

pub after_select : Attempt → SelectCall → Attempted
after_select a writable = if a.clear then finish a else give_up a
after_select a timed_out = give_up a
after_select a failed = give_up a

pub after_connect : Attempt → ConnectCall → Attempted
unfolding after_select
after_connect a connected = finish a
after_connect a in_progress = after_select a a.select
after_connect a refused = give_up a

unfoldable pub connect_one_timeout : Attempt → Attempted
unfolding after_connect
connect_one_timeout a =
    if not a.gets_flags
    then record { success = false; nonblocking = false }
    else if not a.sets_flags
    then record { success = false; nonblocking = false }
    else after_connect a a.connect

-- One address of the resolver: the descriptor that `socket` gives, if any.
pub record Candidate : Type 0 where
  pub fd : Option ℕ
  pub attempt : Attempt

-- The connected descriptor, and what was acquired and given back.
abbrev pub Connected : Type 0
Connected = Option ℕ × List Call

pub try_socket : Option ℕ → Attempt → Connected → Connected
unfolding connect_one_timeout
try_socket none a (result, calls) = (result, calls)
try_socket (some fd) a (result, calls) =
    if (connect_one_timeout a).success
    then (some fd, acquires (socket, fd) ∷ [])
    else (result, acquires (socket, fd) ∷ releases (socket, fd) ∷ calls)

unfoldable pub connect_loop : List Candidate → Connected
unfolding try_socket
connect_loop [] = (none, [])
connect_loop (c ∷ cs) = try_socket c.fd c.attempt (connect_loop cs)

-- `none` is a resolver that fails. The list of addresses is freed before the function returns.
unfoldable pub tcp_connect_timeout : Option (List Candidate) → Connected
tcp_connect_timeout none = (none, [])
tcp_connect_timeout (some cs) =
    let (result, calls) = connect_loop cs in
    (result, acquires (addresses, 0) ∷ calls ++ releases (addresses, 0) ∷ [])

-- The `struct timeval` of a time in milliseconds: seconds and microseconds.
abbrev pub timeval : ℕ → ℕ × ℕ
timeval ms = (ms / 1000, ms % 1000 * 1000)

-- The timeout that the connection is given: one that is not positive means five seconds.
unfoldable pub connect_timeout_ms : ℤ → ℕ
connect_timeout_ms (pos ms) = if ms == 0 then 5000 else ms
connect_timeout_ms (negsuc k) = 5000

-- The option that is set; `none` is the result -1.
unfoldable pub set_receive_timeout : ℤ → Bool → Option (ℕ × ℕ)
set_receive_timeout (pos ms) sets =
    if ms == 0 then none else if sets then some (timeval ms) else none
set_receive_timeout (negsuc k) sets = none

-- The effective size; `none` is the result -1.
unfoldable pub set_receive_buffer : Bool → Option ℕ → Option ℕ
set_receive_buffer sets effective = if sets then effective else none
