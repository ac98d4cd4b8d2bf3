-- ===== src/Signal/Credentials.antt =====
-- The credentials in a message: MarshalCredential and UnMarshalCredential of
-- go/signal/client/client.go.
pub mod RoundTrip
mod Tests
use Prim.Native.String.{◌++◌ as append}
use netbird_minimal.Common.{ℕ, ◌%◌, ◌^◌, String, Option, none, some, List, [], ◌∷◌}
use netbird_minimal.Common.Split.{split_on}
use netbird_minimal.Signal.Messages.{BodyType, RosenpassConfig, Body, Message, Credential}

-- UnMarshalCredential, `none` for its error
unfoldable pub un_marshal_credential : Message → Option Credential
un_marshal_credential msg = elim (split_on b':' msg.body.payload) [
  | [] ↦ none
  | u ∷ us ↦ elim us [
    | [] ↦ none
    | p ∷ ps ↦ elim ps [ [] ↦ some (record { u_frag = u; pwd = p }) | _ ∷ _ ↦ none ]
  ]
]

-- What a message is made of: the text of the public key of the sender, and version.NetbirdVersion().
pub record Sender : Type 0 where
  pub public_key : String
  pub version : String
  pub port : ℕ
  pub rosenpass_pub_key : Option (List ℕ)
  pub rosenpass_addr : String
  pub relay_srv_address : String
  pub session_id : Option (List ℕ)

-- MarshalCredential, for a port that is not negative
unfoldable pub marshal_credential : Sender → String → Credential → BodyType → Message
marshal_credential s remote_key c t = record {
  key = s.public_key;
  remote_key = remote_key;
  body = record {
    body_type = t;
    payload = append c.u_frag (append ":" c.pwd);
    wg_listen_port = s.port % 2 ^ 32;
    net_bird_version = s.version;
    rosenpass_config = some (record {
      rosenpass_pub_key = s.rosenpass_pub_key;
      rosenpass_server_addr = s.rosenpass_addr;
    });
    relay_server_address = s.relay_srv_address;
    session_id = s.session_id;
  };
}
