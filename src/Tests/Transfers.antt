-- ===== src/Tests/Transfers.antt =====
-- Runs of the transfers of src/net.c and of an announcement of src/discovery.c.
use sysdvr_webos.Sft.Discovery.{parse_beacon}
use sysdvr_webos.Sft.Discovery.Beacon.{parse_beacon-beacon}
use sysdvr_webos.Prelude.{◌≡◌, refl, inl, inr, true, some, [], ◌∷◌, ◌++◌, arith}
use sysdvr_webos.Prelude.CString.{codes, str_eq}
use sysdvr_webos.Device.{sysdvr}
use sysdvr_webos.Net.{
  arrived, raised, Incoming, read_exact, accepts, refused, Outgoing, write_all, eintr,
}
use sysdvr_webos.Net.Transfer.{content, closes, expected_read, read_exact_lem}
use sysdvr_webos.Net.Sending.{Sends, write_all-Sends}
use sysdvr_webos.Discovery.{supported_protocol, parse_descriptor}
use sysdvr_webos.Discovery.Descriptor.{announcement, parse_descriptor-announcement}

abbrev cut_stream : Incoming
cut_stream = arrived 1 (2 ∷ 3 ∷ []) ∷ raised eintr ∷ arrived 4 [] ∷ []

abbrev slow_socket : Outgoing
slow_socket = accepts 0 ∷ refused eintr ∷ accepts 5 ∷ []

read_exact_lem_example :
    (read_exact 4 cut_stream).0 ≡ expected_read 4 (content cut_stream) (closes cut_stream)
read_exact_lem_example = read_exact_lem 4 cut_stream

two_read : (read_exact 2 cut_stream).0 ≡ some (1 ∷ 2 ∷ [])
unfolding read_exact
two_read = refl

write_all-Sends_example : Sends 0 (7 ∷ 8 ∷ 9 ∷ []) (write_all (7 ∷ 8 ∷ 9 ∷ []) slow_socket)
write_all-Sends_example = write_all-Sends (7 ∷ 8 ∷ 9 ∷ []) slow_socket

three_supported : supported_protocol (codes "03") ≡ true
unfolding supported_protocol str_eq
three_supported = refl

parse_descriptor-announcement_example :
    parse_descriptor
      (announcement (codes "6.2") (codes "03") (codes "XAW1") ++ (0 ∷ 5 ∷ []))
      (some (codes "10.0.0.7"))
    ≡ some (record {
      source = sysdvr;
      host = codes "10.0.0.7";
      client_version = codes "6.2";
      protocol = codes "03";
      serial = codes "XAW1";
    })
parse_descriptor-announcement_example =
    parse_descriptor-announcement (codes "6.2") (codes "03") (codes "XAW1") (0 ∷ 5 ∷ [])
      (codes "10.0.0.7") (refl, (refl, (refl, tt))) (refl, (refl, (refl, tt))) three_supported
      (refl, (refl, (refl, (refl, tt)))) refl (omega arith)

parse_beacon-beacon_example :
    parse_beacon (codes "SFTAP1 10.9 9950  Switch" ++ 10 ∷ []) (some (codes "10.0.0.7"))
    ≡ some (record { host = codes "10.0.0.7"; port = 9950; label = codes "Switch" })
parse_beacon-beacon_example =
    parse_beacon-beacon (codes "10.9") 9 (9 ∷ 5 ∷ 0 ∷ []) (32 ∷ []) (codes "Switch") (10 ∷ [])
      (codes "10.0.0.7") (refl, (refl, (refl, (refl, tt)))) (ground arith) (inl refl, tt)
      (ground arith) (inr refl, tt) (omega arith)
