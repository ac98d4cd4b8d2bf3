-- ===== src/Signal/Messages.antt =====
-- The messages of the signal service, with the fields of
-- go/proto/signal/proto/signalexchange.pb.go that the client reads or sets.
use netbird_minimal.Common.{ℕ, String, Option, List}

-- Body_Type
pub data BodyType : Type 0 where
  offer answer candidate mode go_idle : BodyType

-- RosenpassConfig; its key is nil or bytes
pub record RosenpassConfig : Type 0 where
  pub rosenpass_pub_key : Option (List ℕ)
  pub rosenpass_server_addr : String

pub record Body : Type 0 where
  pub body_type : BodyType
  pub payload : String
  pub wg_listen_port : ℕ
  pub net_bird_version : String
  pub rosenpass_config : Option RosenpassConfig
  pub relay_server_address : String
  pub session_id : Option (List ℕ)

-- Message of a body that is not nil
pub record Message : Type 0 where
  pub key : String
  pub remote_key : String
  pub body : Body

pub record EncryptedMessage : Type 0 where
  pub key : String
  pub remote_key : String
  pub body : List ℕ

-- Credential of client.go
pub record Credential : Type 0 where
  pub u_frag : String
  pub pwd : String
