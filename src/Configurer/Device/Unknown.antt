-- ===== src/Configurer/Device/Unknown.antt =====
-- RemoveAllowedIP of go/iface/configurer/usp.go, for a peer that the device does not list.
use Prim.Native.String.{◌++◌ as append}
use netbird_minimal.Common.{String, ◌≡◌, refl, false, some, List, [], ◌∷◌, arith, All, str_eq}
use netbird_minimal.Common.Outcome.{err}
use netbird_minimal.Common.Split.{split_on, trim_space}
use netbird_minimal.Configurer.WgEnv.{Key, WgEnv}
use netbird_minimal.Configurer.Device.{
  allowed_ip_not_found, no_scan, scan_line, scan_lines, remove_allowed_ip,
}

module _ (env : WgEnv) where
  -- The line is not the key of the peer.
  abbrev pub IsOther : String → String → Type 0
  IsOther hex_key line = str_eq (trim_space line) (append "public_key=" hex_key) ≡ false

  scan_line-other :
      (hex_key ip line : String)
      → str_eq line (append "public_key=" hex_key) ≡ false
      → scan_line env hex_key ip line (no_scan env) ≡ some (no_scan env)
  unfolding scan_line
  scan_line-other hex_key ip line h = ground (arith, h)

  scan_lines-other :
      (hex_key ip : String) (ls : List String)
      → All (IsOther hex_key) ls
      → scan_lines env hex_key ip ls (no_scan env) ≡ some (no_scan env)
  unfolding scan_lines
  scan_lines-other hex_key ip [] h = refl
  scan_lines-other hex_key ip (l ∷ ls) (h, k) =
      ground (arith, scan_line-other hex_key ip (trim_space l) h, scan_lines-other hex_key ip ls k)

  -- Where no line of what the device reports is the key of the peer, RemoveAllowedIP returns
  -- ErrAllowedIPNotFound and leaves the device alone, whatever the other lines are.
  pub remove_allowed_ip-unknown :
      (k ipc : String) (key : Key) (ip : env.Prefix) (w : env.World)
      → env.ipc_get w ≡ some ipc
      → env.parse_key k ≡ some key
      → All (IsOther (env.hex_encode key)) (split_on b'\n' ipc)
      → remove_allowed_ip env k ip w ≡ (err allowed_ip_not_found, w)
  unfolding remove_allowed_ip
  remove_allowed_ip-unknown k ipc key ip w q r h = ground (
    arith,
    q,
    r,
    scan_lines-other (env.hex_encode key) (env.prefix_string ip) (split_on b'\n' ipc) h,
  )
