-- ===== src/Configurer/Transfers.antt =====
-- The transfer counters that the device reports: parseTransfers and GetStats of
-- go/iface/configurer/usp.go.
use netbird_minimal.Common.{String, Option, none, some, List, [], ◌∷◌, if◌then◌else◌, str_eq}
use netbird_minimal.Common.Dict.{Dict, insert}
use netbird_minimal.Common.Split.{split_once, split_on, trim_space, behind_prefix}
use netbird_minimal.Configurer.WgEnv.{pos, WgEnv}
use netbird_minimal.Configurer.Status.{WgStats, to_last_handshake}

abbrev pub no_stats : WgStats
no_stats = record { last_handshake = none; tx_bytes = pos 0; rx_bytes = pos 0 }

-- The state of the loop: without a peer there is no current key.
pub record Transfers : Type 0 where
  pub stats : Dict WgStats
  pub current : Option (String × WgStats)

module _ (env : WgEnv) where
  -- the current statistics, changed and stored under the current key
  abbrev pub store : String → WgStats → Transfers → Transfers
  store k x t = record { stats = insert k x t.stats; current = some (k, x) }

  -- the switch of parseTransfers, `none` for an error
  unfoldable pub transfer_entry : String → String → String → WgStats → Transfers → Option Transfers
  unfolding to_last_handshake
  transfer_entry key val k x t =
      if str_eq key "last_handshake_time_sec"
      then (elim (to_last_handshake env val) [
        | none ↦ none
        | some hs ↦ some (store k (record x { last_handshake = hs }) t)
      ])
      else (if str_eq key "rx_bytes"
          then (elim (env.parse_int val) [
            | none ↦ none
            | some n ↦ some (store k (record x { rx_bytes = n }) t)
          ])
          else (if str_eq key "tx_bytes"
              then (elim (env.parse_int val) [
                | none ↦ none
                | some n ↦ some (store k (record x { tx_bytes = n }) t)
              ])
              else some t))

  -- the body of the loop
  unfoldable pub transfer_line : String → Transfers → Option Transfers
  unfolding transfer_entry
  transfer_line line t = elim (behind_prefix "public_key=" line) [
    | some peer_id ↦ elim (env.hex_decode peer_id) [
      | none ↦ none
      | some h ↦ some (store (env.base64 h) no_stats t)
    ]
    | none ↦ elim t.current [
      | none ↦ some t
      | some (k, x) ↦ elim (split_once b'=' line) [
        | none ↦ some t
        | some (key, val) ↦ transfer_entry key val k x t
      ]
    ]
  ]

  unfoldable pub transfer_lines : List String → Transfers → Option Transfers
  unfolding transfer_line
  transfer_lines [] t = some t
  transfer_lines (l ∷ ls) t = elim (transfer_line (trim_space l) t) [
    | none ↦ none
    | some t' ↦ transfer_lines ls t'
  ]

  -- parseTransfers
  unfoldable pub parse_transfers : String → Option (Dict WgStats)
  unfolding transfer_lines
  parse_transfers ipc =
      elim (transfer_lines (split_on b'\n' ipc) (record { stats = []; current = none })) [
        | none ↦ none
        | some t ↦ some t.stats
      ]

  -- GetStats
  unfoldable pub get_stats : env.World → Option (Dict WgStats)
  unfolding parse_transfers
  get_stats w = elim (env.ipc_get w) [ none ↦ none | some ipc ↦ parse_transfers ipc ]
