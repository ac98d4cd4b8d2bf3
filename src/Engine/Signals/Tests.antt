-- ===== src/Engine/Signals/Tests.antt =====
-- An offer between two clients of a signal service that seals one message only.
use netbird_minimal.Common.{
  ℕ, String, ◌≡◌, refl, sym, ap, Bool, true, false, ◌&&◌, Option, none, some, List, [], ◌∷◌, arith,
  if◌then◌else◌, ◌==◌, str_eq, str_eq_iff,
}
use netbird_minimal.Common.Split.{split_on, lacks}
use netbird_minimal.Common.Outcome.{ok, err}
use netbird_minimal.Signal.Messages.{
  BodyType, offer, answer, RosenpassConfig, Body, Message, Credential,
}
use netbird_minimal.Signal.Credentials.{un_marshal_credential, Sender, marshal_credential}
use netbird_minimal.Signal.Client.{SignalEnv, idle, delivered, decrypt_message, encrypt_message}
use netbird_minimal.Signal.Client.Sealed.{SignalLaws}
use netbird_minimal.Engine.Signals.{
  OfferAnswer, SignalsEnv, wrongly_addressed, bad_credential, handle_signal,
}
use netbird_minimal.Engine.Signals.Offers.{offer_of, handle_signal-marshal}

abbrev alice : Sender
alice = record {
  public_key = "alice";
  version = "0.50.0";
  port = 51820;
  rosenpass_pub_key = none;
  rosenpass_addr = "";
  relay_srv_address = "rels://relay.netbird.io";
  session_id = none;
}

abbrev credential : Credential
credential = record { u_frag = "ufrag"; pwd = "secret" }

abbrev offered : Body
offered = record {
  body_type = offer;
  payload = "ufrag:secret";
  wg_listen_port = 51820;
  net_bird_version = "0.50.0";
  rosenpass_config = some (record { rosenpass_pub_key = none; rosenpass_server_addr = "" });
  relay_server_address = "rels://relay.netbird.io";
  session_id = none;
}

abbrev type_is : BodyType → Bool
type_is offer = true
type_is _ = false

abbrev config_is : Option RosenpassConfig → Bool
config_is none = false
config_is (some c) = elim c.rosenpass_pub_key [
  | none ↦ str_eq c.rosenpass_server_addr ""
  | some _ ↦ false
]

abbrev session_is : Option (List ℕ) → Bool
session_is none = true
session_is (some _) = false

type_is-lem : (t : BodyType) → type_is t ≡ true → t ≡ offer
type_is-lem t h = ground arith

config_is-lem :
    (c : Option RosenpassConfig)
    → config_is c ≡ true
    → c ≡ some (record { rosenpass_pub_key = none; rosenpass_server_addr = "" })
config_is-lem none h = absurd (ground arith)
config_is-lem (some c) h = split c c.rosenpass_pub_key refl h
  where
    split :
        (c : RosenpassConfig) (o : Option (List ℕ))
        → c.rosenpass_pub_key ≡ o
        → config_is (some c) ≡ true
        → some c ≡ some (record { rosenpass_pub_key = none; rosenpass_server_addr = "" })
    split c none q h =
        let s = (str_eq_iff c.rosenpass_server_addr "").0 (ground arith) in
        λ i. some (record { rosenpass_pub_key = q i; rosenpass_server_addr = s i })
    split c (some x) q h = absurd (ground arith)

session_is-lem : (c : Option (List ℕ)) → session_is c ≡ true → c ≡ none
session_is-lem c h = ground arith

abbrev is_offered : Body → Bool
is_offered m =
    type_is m.body_type
    && str_eq m.payload "ufrag:secret"
    && m.wg_listen_port == 51820
    && str_eq m.net_bird_version "0.50.0"
    && config_is m.rosenpass_config
    && str_eq m.relay_server_address "rels://relay.netbird.io"
    && session_is m.session_id

is_offered-lem : (m : Body) → is_offered m ≡ true → m ≡ offered
is_offered-lem m h =
    let t = type_is-lem m.body_type (ground arith) in
    let p = (str_eq_iff m.payload "ufrag:secret").0 (ground arith) in
    let n : m.wg_listen_port ≡ 51820 = ground arith in
    let v = (str_eq_iff m.net_bird_version "0.50.0").0 (ground arith) in
    let c = config_is-lem m.rosenpass_config (ground arith) in
    let r = (str_eq_iff m.relay_server_address "rels://relay.netbird.io").0 (ground arith) in
    let s = session_is-lem m.session_id (ground arith) in
    λ i. record {
      body_type = t i;
      payload = p i;
      wg_listen_port = n i;
      net_bird_version = v i;
      rosenpass_config = c i;
      relay_server_address = r i;
      session_id = s i;
    }

abbrev sealing : SignalEnv
sealing = record {
  Key = String;
  parse_key = λ k. some k;
  key_string = λ k. k;
  public_of = λ k. k;
  encrypt = λ to from m. if is_offered m then some (7 ∷ []) else none;
  decrypt = λ from to xs. some offered;
  World = Unit {0};
  get_state = λ w. idle;
  connect_timeout = 10;
  send_once = λ t m w. (delivered, w);
  probe = λ w. (false, w);
  notify_connected = λ w. w;
  notify_disconnected = λ w. w;
}

sealing_laws : SignalLaws sealing
sealing_laws = record { parse_lem = λ k. refl; decrypt_lem = λ a b m {xs} h. ap some (opened m h) }
  where
    opened :
        (m : Body) {xs : List ℕ}
        → (if is_offered m then some (7 ∷ []) else none) ≡ some xs
        → offered ≡ m
    opened m {xs} h = let q : is_offered m ≡ true = ground arith in sym (is_offered-lem m q)

-- A store that knows the one peer, and keeps what its connection is told.
abbrev store : SignalsEnv
store = record {
  SessionId = ℕ;
  session_id_from_bytes = λ bs. none;
  World = List (OfferAnswer ℕ);
  Conn = Unit {0};
  peer_conn = λ w k. if str_eq k "alice" then some tt else none;
  activate_peer = λ c w. w;
  deactivate_peer = λ c w. w;
  on_remote_offer = λ c o w. o ∷ w;
  on_remote_answer = λ c o w. o ∷ w;
  Candidate = String;
  unmarshal_candidate = λ s. some s;
  on_remote_candidate = λ c d w. w;
}

handle_signal-marshal_example :
    (m : Message) × (decrypt_message sealing "bob"
        (record { key = "alice"; remote_key = "bob"; body = 7 ∷ [] })
      ≡ some m)
    × (offer ≡ offer → handle_signal store m [] ≡ (ok tt, offer_of store alice credential ∷ []))
    × (offer ≡ answer → handle_signal store m [] ≡ (ok tt, offer_of store alice credential ∷ []))
unfolding lacks
handle_signal-marshal_example =
    handle_signal-marshal store sealing sealing_laws "alice" "bob" alice credential offer [] refl
      (omega arith) (refl, refl) sent refl
  where
    sent :
        encrypt_message sealing "alice" (marshal_credential alice "bob" credential offer)
        ≡ some (record { key = "alice"; remote_key = "bob"; body = 7 ∷ [] })
    sent = unfold encrypt_message in unfold marshal_credential in refl

-- A message of a peer that is not known.
abbrev from_carol : Message
from_carol = record { key = "carol"; remote_key = "bob"; body = offered }

stranger : handle_signal store from_carol [] ≡ (err wrongly_addressed, [])
unfolding handle_signal
stranger = refl

-- Credentials without a colon.
abbrev no_colon : Message
no_colon = record { key = "alice"; remote_key = "bob"; body = record offered { payload = "ufrag" } }

refused : handle_signal store no_colon [] ≡ (err bad_credential, [])
unfolding handle_signal un_marshal_credential split_on
refused = refl
