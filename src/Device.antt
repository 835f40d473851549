-- ===== src/Device.antt =====
-- include/sysdvr/discovery.h: the device that both discovery scanners report. A character array is
-- the list of its bytes before the NUL.
use sysdvr_webos.Prelude.{ℕ, Bool, true, false, List, []}

pub data StreamSource : Type 0 where
  sysdvr frametap : StreamSource

pub record Device : Type 0 where
  pub source : StreamSource
  pub host : List ℕ
  pub client_version : List ℕ
  pub protocol : List ℕ
  pub serial : List ℕ

abbrev pub host_size : ℕ
host_size = 64

abbrev pub client_version_size : ℕ
client_version_size = 32

abbrev pub protocol_size : ℕ
protocol_size = 8

abbrev pub serial_size : ℕ
serial_size = 96

-- After `memset(out, 0, sizeof(*out))`.
abbrev pub zeroed : Device
zeroed = record { source = sysdvr; host = []; client_version = []; protocol = []; serial = [] }

abbrev pub source_eq : StreamSource → StreamSource → Bool
source_eq sysdvr sysdvr = true
source_eq sysdvr frametap = false
source_eq frametap sysdvr = false
source_eq frametap frametap = true
