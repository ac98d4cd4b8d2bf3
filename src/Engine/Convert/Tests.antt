-- ===== src/Engine/Convert/Tests.antt =====
-- A DNS configuration with a name server whose address does not parse, and the theorems there.
use netbird_minimal.Common.{◌≡◌, ◌↔◌, true, false, [], ◌∷◌, is_some, All}
use netbird_minimal.Engine.Messages.{NameServerMessage, DnsConfigMessage}
use netbird_minimal.Engine.SyncSample.{sample}
use netbird_minimal.Engine.Convert.{to_dns_config}
use netbird_minimal.Engine.Convert.Dns.{HasAddr, to_dns_config-HasAddr}

abbrev bad_server : NameServerMessage
bad_server = record { ip = "bad"; ns_type = 1; port = 53 }

abbrev bad_message : DnsConfigMessage
bad_message = record {
  service_enable = true;
  name_server_groups =
      record {
        name_servers = bad_server ∷ [];
        primary = true;
        domains = [];
        search_domains_enabled = false;
      }
      ∷ [];
  custom_zones = [];
  forwarder_port = 0;
}

to_dns_config-HasAddr_example :
    (is_some (to_dns_config sample bad_message "100.64.0.0/10") ≡ true)
    ↔ All (λ g. All (HasAddr sample) g.name_servers) bad_message.name_server_groups
to_dns_config-HasAddr_example = to_dns_config-HasAddr sample bad_message "100.64.0.0/10"
