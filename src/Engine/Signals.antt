-- ===== src/Engine/Signals.antt =====
-- Messages of other peers: convertToOfferAnswer and the handler of receiveSignalEvents of
-- go/internal/engine.go, over the messages of the signal client. The handler holds syncMsgMux.
pub mod Offers
mod Tests
use netbird_minimal.Common.{ℕ, String, Bool, true, false, Option, none, some, List, if◌then◌else◌}
use netbird_minimal.Common.Outcome.{Outcome, ok, err, panic}
use netbird_minimal.Signal.Messages.{
  BodyType, offer, answer, candidate, mode, go_idle, RosenpassConfig, Body, Message, Credential,
}
use netbird_minimal.Signal.Credentials.{un_marshal_credential}

-- peer.OfferAnswer
pub record OfferAnswer (SessionId : Type 0) : Type 0 where
  pub ice_credentials : Credential
  pub wg_listen_port : ℕ
  pub version : String
  pub rosenpass_pub_key : Option (List ℕ)
  pub rosenpass_addr : String
  pub relay_srv_address : String
  pub session_id : Option SessionId

-- The peer store, the connections and the connection manager.
pub record SignalsEnv : Type 1 where
  -- peer.ICESessionIDFromBytes
  pub SessionId : Type 0
  pub session_id_from_bytes : List ℕ → Option SessionId
  pub World : Type 0
  pub Conn : Type 0
  pub peer_conn : World → String → Option Conn
  pub activate_peer : Conn → World → World
  pub deactivate_peer : Conn → World → World
  pub on_remote_offer : Conn → OfferAnswer SessionId → World → World
  pub on_remote_answer : Conn → OfferAnswer SessionId → World → World
  -- ice.UnmarshalCandidate, and OnRemoteCandidate as it is started
  pub Candidate : Type 0
  pub unmarshal_candidate : String → Option Candidate
  pub on_remote_candidate : Conn → Candidate → World → World

pub data SignalError : Type 0 where
  wrongly_addressed bad_credential bad_candidate : SignalError

module _ (env : SignalsEnv) where
  open env use {SessionId, World, Conn}

  -- the optional session id: one that does not convert is nil
  unfoldable pub session_id_of : Option (List ℕ) → Option SessionId
  session_id_of none = none
  session_id_of (some bytes) = env.session_id_from_bytes bytes

  -- convertToOfferAnswer, `none` for its error
  unfoldable pub convert_to_offer_answer : Message → Option (OfferAnswer SessionId)
  unfolding session_id_of
  convert_to_offer_answer msg = elim (un_marshal_credential msg) [
    | none ↦ none
    | some remote_cred ↦ some (record {
      ice_credentials = remote_cred;
      wg_listen_port = msg.body.wg_listen_port;
      version = msg.body.net_bird_version;
      rosenpass_pub_key = elim msg.body.rosenpass_config [
        | none ↦ none
        | some c ↦ c.rosenpass_pub_key
      ];
      rosenpass_addr = elim msg.body.rosenpass_config [
        | none ↦ ""
        | some c ↦ c.rosenpass_server_addr
      ];
      relay_srv_address = msg.body.relay_server_address;
      session_id = session_id_of msg.body.session_id;
    })
  ]

  -- the switch of the handler
  unfoldable pub dispatch : Message → Conn → World → Outcome SignalError (Unit {0}) × World
  unfolding convert_to_offer_answer
  dispatch msg conn w = elim msg.body.body_type [
    | offer ↦ elim (convert_to_offer_answer msg) [
      | none ↦ (err bad_credential, w)
      | some o ↦ (ok tt, env.on_remote_offer conn o w)
    ]
    | answer ↦ elim (convert_to_offer_answer msg) [
      | none ↦ (err bad_credential, w)
      | some o ↦ (ok tt, env.on_remote_answer conn o w)
    ]
    | candidate ↦ elim (env.unmarshal_candidate msg.body.payload) [
      | none ↦ (err bad_candidate, w)
      | some c ↦ (ok tt, env.on_remote_candidate conn c w)
    ]
    | mode ↦ (ok tt, w)
    | go_idle ↦ (ok tt, env.deactivate_peer conn w)
  ]

  abbrev pub is_go_idle : BodyType → Bool
  is_go_idle go_idle = true
  is_go_idle _ = false

  -- the handler
  unfoldable pub handle_signal : Message → World → Outcome SignalError (Unit {0}) × World
  unfolding dispatch
  handle_signal msg w = elim (env.peer_conn w msg.key) [
    | none ↦ (err wrongly_addressed, w)
    | some conn ↦
        dispatch msg conn (if is_go_idle msg.body.body_type then w else env.activate_peer conn w)
  ]
