-- ===== src/Configurer/Kernel/Tests.antt =====
-- A device of the kernel with one peer, which is found.
use netbird_minimal.Common.{ℕ, ◌≡◌, refl, false, none, some, List, [], ◌∷◌}
use netbird_minimal.Common.Outcome.{ok}
use netbird_minimal.Configurer.WgEnv.{pos}
use netbird_minimal.Configurer.Sample.{sample_wg, encode}
use netbird_minimal.Configurer.Kernel.{KernelEnv, WgPeer, peer_at, get_peer}

abbrev one_peer : WgPeer (List ℕ) ℕ
one_peer = record {
  public_key = 3 ∷ [];
  preshared_key = 0 ∷ [];
  endpoint = none;
  allowed_ips = (10 ∷ []) ∷ (11 ∷ []) ∷ [];
  transmit_bytes = pos 0;
  receive_bytes = pos 0;
  last_handshake_time = none;
}

abbrev sample_kernel : KernelEnv sample_wg
sample_kernel = record {
  new_client = λ w. (false, w);
  close_client = λ w. w;
  device = λ w. some (record {
    name = "wt0";
    public_key = 4 ∷ [];
    listen_port = pos 0;
    firewall_mark = pos 0;
    peers = one_peer ∷ [];
  });
  configure_device = λ c w. (false, "configured" ∷ w);
}

peer_run : get_peer sample_wg sample_kernel (encode (3 ∷ [])) [] ≡ (ok one_peer, [])
unfolding get_peer peer_at encode
peer_run = refl
