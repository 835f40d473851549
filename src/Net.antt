-- ===== src/Net.antt =====
-- src/net.c: the blocking transfers `sysdvr_read_exact` and `sysdvr_write_all` over one socket.
-- What the kernel does is a list of events, one for each call of `recv` or `send`.
pub mod Transfer
pub mod Sending
pub mod Connect
use sysdvr_webos.Prelude.{
  ℕ, zero, suc, ◌+◌, ◌-◌, Bool, true, false, Option, none, some, List, [], ◌∷◌, ◌++◌, length, take,
  drop, leb, if◌then◌else◌,
}

pub data Errno : Type 0 where
  eintr eagain etimedout other : Errno

-- One call of `recv`: it hands over at least one byte, or it fails. Bytes that the call did not ask
-- for stay queued. At the end of the list the peer has closed, and `recv` returns 0.
pub data RecvEvent : Type 0 where
  arrived : ℕ → List ℕ → RecvEvent
  raised : Errno → RecvEvent

abbrev pub Incoming : Type 0
Incoming = List RecvEvent

-- One call of `send`: it takes at most `suc k` bytes, takes none, or fails. At the end of the list
-- every call takes all that it is given.
pub data SendEvent : Type 0 where
  accepts : ℕ → SendEvent
  takes_none : SendEvent
  refused : Errno → SendEvent

abbrev pub Outgoing : Type 0
Outgoing = List SendEvent

abbrev pub is_eintr : Errno → Bool
is_eintr eintr = true
is_eintr _ = false

-- The rest of a queued chunk.
abbrev pub requeue : List ℕ → Incoming → Incoming
requeue [] s = s
requeue (b ∷ bs) s = arrived b bs ∷ s

-- `got` is the buffer so far and `need` is `size - total`. The result is `-1`, or the bytes whose
-- number is returned.
pub read_loop : List ℕ → ℕ → Incoming → Option (List ℕ) × Incoming
read_loop got zero s = (some got, s)
read_loop got (suc n) [] = (some got, [])
read_loop got (suc n) (raised e ∷ s) =
    let again = read_loop got (suc n) s in if is_eintr e then again else (none, s)
read_loop got (suc n) (arrived b bs ∷ s) =
    let chunk = b ∷ bs in
    let more = read_loop (got ++ chunk) (suc n - length chunk) s in
    if leb (length chunk) (suc n)
    then more
    else (some (got ++ take (suc n) chunk), requeue (drop (suc n) chunk) s)

unfoldable pub read_exact : ℕ → Incoming → Option (List ℕ) × Incoming
unfolding read_loop
read_exact size s = read_loop [] size s

-- `total` bytes are sent; the list is what is left. The result is `-1` or the count, with the bytes
-- that went out.
pub record Written : Type 0 where
  pub count : Option ℕ
  pub bytes : List ℕ
  pub later : Outgoing

pub write_loop : ℕ → List ℕ → Outgoing → Written
write_loop total [] es = record { count = some total; bytes = []; later = es }
write_loop total (b ∷ bs) [] = record {
  count = some (total + length (b ∷ bs));
  bytes = b ∷ bs;
  later = [];
}
write_loop total (b ∷ bs) (accepts k ∷ es) =
    let sent = b ∷ take k bs in
    let more = write_loop (total + length sent) (drop k bs) es in
    record more { bytes = sent ++ more.bytes }
write_loop total (b ∷ bs) (takes_none ∷ es) = record { count = none; bytes = []; later = es }
write_loop total (b ∷ bs) (refused e ∷ es) =
    let again = write_loop total (b ∷ bs) es in
    if is_eintr e then again else record { count = none; bytes = []; later = es }

unfoldable pub write_all : List ℕ → Outgoing → Written
unfolding write_loop
write_all buffer es = write_loop 0 buffer es
