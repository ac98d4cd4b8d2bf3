-- ===== src/Configurer/Status/Endpoint.antt =====
-- The endpoint of an IPv4 address in parseStatus of go/iface/configurer/usp.go.
use Prim.Native.String.{◌++◌ as append}
use netbird_minimal.Common.{ℕ, String, ◌≡◌, ap, ◌∙◌, Bool, true, ◌||◌, ◌&&◌, some, arith, ◌==◌}
use netbird_minimal.Common.Split.{lacks, trim, trim-lacks}
use netbird_minimal.Common.Lines.{lacks-append, lacks-weaken}
use netbird_minimal.Configurer.WgEnv.{IsInt64, is_mark, UdpAddr, WgEnv, WgLaws}
use netbird_minimal.Configurer.Status.{read_endpoint}

abbrev is_bracket : ℕ → Bool
is_bracket c = c == b'[' || c == b']'

module _ (env : WgEnv) (laws : WgLaws env) where
  open env use {Ip, udp_string, ip_string, format_int}

  plain-lacks : (s : String) → lacks is_mark s ≡ true → lacks is_bracket s ≡ true
  plain-lacks s h = lacks-weaken is_mark is_bracket (λ c k. ground arith) s h

  behind :
      (s t : String)
      → lacks is_bracket s ≡ true
      → lacks is_bracket t ≡ true
      → (lacks is_bracket s && lacks is_bracket (String.◌∷◌ ":" t)) ≡ true
  unfolding lacks
  behind s t h k = ground (arith, h, k)

  -- parseStatus reads the endpoint of an IPv4 address that is printed.
  pub read_endpoint-v4 :
      (e : UdpAddr Ip)
      → env.is_v4 e.ip ≡ true
      → IsInt64 e.port
      → read_endpoint env (udp_string e) ≡ some e
  read_endpoint-v4 e v n =
      unfold read_endpoint in
      ground (
        arith,
        same,
        laws.split_lem (ip_string e.ip) (format_int e.port) (laws.v4_plain e.ip v)
            (laws.int_plain e.port),
        laws.int_lem e.port n,
        laws.parse_v4 e.ip v,
      )
    where
      text : String
      text = append (ip_string e.ip) (String.◌∷◌ ":" (format_int e.port))

      bare : lacks is_bracket text ≡ true
      bare =
          lacks-append is_bracket (ip_string e.ip) (String.◌∷◌ ":" (format_int e.port))
          ∙ behind (ip_string e.ip) (format_int e.port)
              (plain-lacks (ip_string e.ip) (laws.v4_plain e.ip v))
              (plain-lacks (format_int e.port) (laws.int_plain e.port))

      same : trim is_bracket (udp_string e) ≡ text
      same = ap (trim is_bracket) (laws.udp_v4 e v) ∙ trim-lacks is_bracket text bare
