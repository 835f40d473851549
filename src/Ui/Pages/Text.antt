-- ===== src/Ui/Pages/Text.antt =====
-- src/ui.c: the texts about a console fit their arrays.
use sysdvr_webos.Prelude.{◌≤◌, ◌<◌, ◌≡◌, inl, inr, ◌++◌, arith, Bool-cases, length, length-append}
use sysdvr_webos.Prelude.CString.{codes, copy_text_fits}
use sysdvr_webos.Device.{
  StreamSource, sysdvr, frametap, Device, host_size, client_version_size, protocol_size,
  serial_size,
}
use sysdvr_webos.Session.{SessionDevice, SessionManager}
use sysdvr_webos.Prelude.CString.{is_empty}
use sysdvr_webos.Ui.Pages.{
  bar, secondary_text, device_text, detail_size, device_secondary, reconnect_size, reconnect_text,
  reconnect_detail,
}

-- Every text of a device fits its array with the NUL.
pub record Fits (d : Device) : Type 0 where
  pub host : length d.host < host_size
  pub client_version : length d.client_version < client_version_size
  pub protocol : length d.protocol < protocol_size
  pub serial : length d.serial < serial_size

secondary_text-lt :
    (d : SessionDevice) (s : StreamSource) → Fits d.info → length (secondary_text d s) < detail_size
unfolding secondary_text
secondary_text-lt d frametap f =
    omega (arith, f.host, length-append d.info.host (codes "  |  Switch Frame Tap  |  SFTR v2"))
secondary_text-lt d sysdvr f =
    let protocol = codes "  |  Protocol " ++ d.info.protocol in
    let version = d.info.client_version ++ protocol in
    let shown = d.info.host ++ (codes "  |  SysDVR " ++ version) in
    let short : length shown ≤ 128 = omega (
      arith,
      f.host,
      f.client_version,
      f.protocol,
      length-append d.info.host (codes "  |  SysDVR " ++ version),
      length-append d.info.client_version protocol,
    ) in
    elim (Bool-cases (is_empty d.info.serial)) [
      | inl no_serial ↦ rw no_serial (omega (arith, short))
      | inr some_serial ↦
          rw some_serial
            (omega (arith, short, f.serial, length-append shown (bar ++ d.info.serial)))
    ]

device_text-lt : (d : SessionDevice) → Fits d.info → length (device_text d) < detail_size
unfolding device_text
device_text-lt d f = elim (Bool-cases d.manual) [
  | inl manual ↦
      rw manual
        (omega (arith, f.host, length-append d.info.host (codes "  |  Manual SysDVR address")))
  | inr seen ↦ rw seen (secondary_text-lt d d.info.source f)
]

reconnect_text-lt :
    (m : SessionManager)
    → length m.preferred_host < host_size
    → length m.preferred_serial < serial_size
    → length (reconnect_text m) < reconnect_size
unfolding reconnect_text
reconnect_text-lt m h s = elim (Bool-cases (is_empty m.preferred_serial)) [
  | inl no_serial ↦ rw no_serial (omega arith)
  | inr some_serial ↦
      rw some_serial (omega (arith, length-append m.preferred_host (bar ++ m.preferred_serial)))
]

-- If the texts of a console and of the preference fit their own arrays, then the line under a console's
-- card and the line on the reconnect page hold the whole text: nothing is cut off.
pub texts_whole :
    (d : SessionDevice) (m : SessionManager)
    → Fits d.info
    → length m.preferred_host < host_size
    → length m.preferred_serial < serial_size
    → (device_secondary d ≡ device_text d) × (reconnect_detail m ≡ reconnect_text m)
unfolding device_secondary reconnect_detail
texts_whole d m f h s = (
  copy_text_fits detail_size (device_text d) (omega (arith, device_text-lt d f)),
  copy_text_fits reconnect_size (reconnect_text m) (omega (arith, reconnect_text-lt m h s)),
)
