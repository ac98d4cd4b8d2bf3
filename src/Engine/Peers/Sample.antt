-- ===== src/Engine/Peers/Sample.antt =====
-- A small instance of what the peer handling calls, on which it can be run: the store is a list of
-- connections, a connection is its configuration, and a text is its own prefix.
use netbird_minimal.Common.{
  String, ◌≡◌, refl, true, false, not, ◌&&◌, none, some, List, [], ◌∷◌, arith, if◌then◌else◌,
  is_some, str_eq, str_eq_iff, contains, keep,
}
use netbird_minimal.Common.Dict.{
  Dict, lookup, insert, erase, keys, lookup-insert, lookup-erase, contains-keys,
}
use netbird_minimal.Engine.Netip.{Netip}
use netbird_minimal.Engine.PeerEnv.{RemotePeerConfig, ConnConfig, PeerEnv, PeerLaws}
use netbird_minimal.Engine.Peers.{PeerConfig}

-- "bad" is the one text that is no prefix.
abbrev pub sample_net : Netip
sample_net = record {
  Prefix = String;
  parse_prefix = λ s. if str_eq s "bad" then none else some s;
  prefix_string = λ p. p;
  addr_string = λ p. p;
}

abbrev pub SampleConn : Type 0
SampleConn = ConnConfig String (Unit {0})

abbrev pub sample_env : PeerEnv sample_net
sample_env = record {
  World = Dict SampleConn;
  Conn = SampleConn;
  IceConfig = Unit {0};
  peer_conn = λ w k. lookup k w;
  peers_pub_key = λ w. keys w;
  stored_ips = λ w k. elim (lookup k w) [ none ↦ none | some c ↦ some c.allowed_ips ];
  agent_version_string = λ c. c.agent_version;
  set_on_connected = λ c. c;
  set_on_disconnected = λ c. c;
  close_conn = λ c w. w;
  new_conn = λ cfg w. some cfg;
  intn = λ n w. (0, w);
  create_ice_config = λ w. tt;
  add_peer_conn = λ k c w. if is_some (lookup k w) then (true, w) else (false, insert k c w);
  remove_peer_conn = λ k w. erase k w;
  status_add_peer = λ k f a w. w;
  status_remove_peer = λ k w. w;
  status_update_fqdn = λ k f w. w;
  slice_diff = λ xs ys. keep (λ x. not (contains x ys)) xs;
}

slice_diff_sample :
    (k : String) (xs ys : List String)
    → contains k (keep (λ x. not (contains x ys)) xs) ≡ (contains k xs && not (contains k ys))
unfolding contains
slice_diff_sample k [] ys = refl
slice_diff_sample k (x ∷ xs) ys = ground (arith, slice_diff_sample k xs ys, str_eq_iff x k)

stored_ips_sample :
    (w : Dict SampleConn) (k : String) {c : SampleConn}
    → lookup k w ≡ some c
    → sample_env.stored_ips w k ≡ some c.allowed_ips
stored_ips_sample w k e = ground arith

add_exists_sample :
    (k : String) (c : SampleConn) (w : Dict SampleConn)
    → (sample_env.add_peer_conn k c w).0 ≡ is_some (lookup k w)
add_exists_sample k c w = ground arith

add_conn_sample :
    (k : String) (c : SampleConn) (w : Dict SampleConn) (j : String)
    → lookup k w ≡ none
    → lookup j (sample_env.add_peer_conn k c w).1 ≡ (if str_eq k j then some c else lookup j w)
add_conn_sample k c w j h = rw h (lookup-insert k j c w)

pub sample_laws : PeerLaws sample_env
sample_laws = record {
  conn_version = λ c. c.agent_version;
  conn_ips = λ c. c.allowed_ips;
  peers_pub_key_lem = λ w k. contains-keys k w;
  stored_ips_lem = stored_ips_sample;
  agent_version_string_lem = λ c. refl;
  new_conn_version = λ cfg w e. ground arith;
  new_conn_ips = λ cfg w e. ground arith;
  on_connected_version = λ c. refl;
  on_connected_ips = λ c. refl;
  on_disconnected_version = λ c. refl;
  on_disconnected_ips = λ c. refl;
  intn_lt = λ n w h. h;
  intn_keeps = λ n w k. refl;
  add_exists = add_exists_sample;
  add_conn = add_conn_sample;
  remove_conn = λ k w j. lookup-erase k j w;
  status_add_keeps = λ k f a w j. refl;
  status_remove_keeps = λ k w j. refl;
  status_fqdn_keeps = λ k f w j. refl;
  slice_diff_lem = slice_diff_sample;
}

abbrev pub sample_config : PeerConfig
sample_config = record {
  wg_port = 51820;
  local_key = "me";
  pre_shared_key = none;
  rosenpass_permissive = false;
  rp_manager = none;
}

abbrev pub peer_a : RemotePeerConfig
peer_a = record {
  wg_pub_key = "a";
  allowed_ips = "10.0.0.1/32" ∷ [];
  fqdn = "a.nb";
  agent_version = "1";
}

abbrev pub peer_a_new : RemotePeerConfig
peer_a_new = record {
  wg_pub_key = "a";
  allowed_ips = "10.0.0.9/32" ∷ [];
  fqdn = "a.nb";
  agent_version = "1";
}

abbrev pub peer_b : RemotePeerConfig
peer_b = record {
  wg_pub_key = "b";
  allowed_ips = "10.0.0.2/32" ∷ [];
  fqdn = "b.nb";
  agent_version = "2";
}

-- A peer with no allowed IP.
abbrev pub peer_bare : RemotePeerConfig
peer_bare = record { wg_pub_key = "c"; allowed_ips = []; fqdn = "c.nb"; agent_version = "2" }
