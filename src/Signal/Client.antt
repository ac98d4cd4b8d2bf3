-- ===== src/Signal/Client.antt =====
-- Sending over the signal service: encryptMessage, decryptMessage, Ready, IsHealthy and Send of
-- go/signal/client/grpc.go.
pub mod Sealed
pub mod Retries
mod Tests
use netbird_minimal.Common.{
  ℕ, zero, suc, ◌+◌, ◌*◌, String, Bool, true, false, not, ◌||◌, Option, none, some, List,
  if◌then◌else◌, ltb, ◌==◌,
}
use netbird_minimal.Common.Outcome.{Outcome, ok, err, panic}
use netbird_minimal.Signal.Messages.{Body, Message, EncryptedMessage}

-- connectivity.State
pub data ConnState : Type 0 where
  idle connecting ready transient_failure shutdown : ConnState

-- how a call of realClient.Send ends: without an error, with the status Canceled, or with another
pub data Reply : Type 0 where
  delivered canceled refused : Reply

pub record SignalEnv : Type 1 where
  pub Key : Type 0
  -- wgtypes: ParseKey, Key.String and Key.PublicKey
  pub parse_key : String → Option Key
  pub key_string : Key → String
  pub public_of : Key → Key
  -- encryption: EncryptMessage and DecryptMessage of a remote public key and a private key
  pub encrypt : Key → Key → Body → Option (List ℕ)
  pub decrypt : Key → Key → List ℕ → Option Body
  -- the connection: its state, and a call with a timeout in seconds
  pub World : Type 0
  pub get_state : World → ConnState
  pub connect_timeout : ℕ
  pub send_once : ℕ → EncryptedMessage → World → Reply × World
  -- the call of IsHealthy, and connStateCallback
  pub probe : World → Bool × World
  pub notify_connected : World → World
  pub notify_disconnected : World → World

pub data SendError : Type 0 where
  no_connection not_encrypted send_canceled send_refused : SendError

module _ (env : SignalEnv) where
  open env use {Key, World}

  -- decryptMessage of the client with this private key, `none` for an error
  unfoldable pub decrypt_message : Key → EncryptedMessage → Option Message
  decrypt_message key msg = elim (env.parse_key msg.key) [
    | none ↦ none
    | some remote ↦ elim (env.decrypt remote key msg.body) [
      | none ↦ none
      | some b ↦ some (record { key = msg.key; remote_key = msg.remote_key; body = b })
    ]
  ]

  -- encryptMessage
  unfoldable pub encrypt_message : Key → Message → Option EncryptedMessage
  encrypt_message key msg = elim (env.parse_key msg.remote_key) [
    | none ↦ none
    | some remote ↦ elim (env.encrypt remote key msg.body) [
      | none ↦ none
      | some b ↦ some (record { key = msg.key; remote_key = msg.remote_key; body = b })
    ]
  ]

  -- Ready
  unfoldable pub is_ready : World → Bool
  is_ready w = elim (env.get_state w) [ ready ↦ true | idle ↦ true | _ ↦ false ]

  -- IsHealthy; the Boolean of the probe says that it failed
  unfoldable pub is_healthy : World → Bool × World
  is_healthy w =
      let (failed, w1) = env.probe w in
      let probed =
        if failed then (false, env.notify_disconnected w1) else (true, env.notify_connected w1) in
      elim (env.get_state w) [
        | transient_failure ↦ (false, w)
        | connecting ↦ (true, w)
        | shutdown ↦ (true, w)
        | idle ↦ probed
        | ready ↦ probed
      ]

  -- the timeout of an attempt, in seconds
  unfoldable pub attempt_timeout : ℕ → ℕ
  attempt_timeout attempt = if ltb 1 attempt then attempt * 5 else env.connect_timeout

  -- the loop of Send, with the attempts that are left, the number of this one, and the last error
  unfoldable pub send_attempts :
      ℕ
      → ℕ
      → Outcome SendError (Unit {0})
      → EncryptedMessage
      → World
      → Outcome SendError (Unit {0}) × World
  unfolding attempt_timeout
  send_attempts zero attempt last msg w = (last, w)
  send_attempts (suc left) attempt last msg w =
      let (reply, w1) = env.send_once (attempt_timeout attempt) msg w in
      elim reply [
        | delivered ↦ (ok tt, w1)
        | canceled ↦ (err send_canceled, w1)
        | refused ↦ send_attempts left (attempt + 1) (err send_refused) msg w1
      ]

  -- Send of the client with this private key
  unfoldable pub send : Key → Message → World → Outcome SendError (Unit {0}) × World
  unfolding is_ready encrypt_message send_attempts
  send key msg w =
      if not (is_ready w) then (err no_connection, w) else (elim (encrypt_message key msg) [
        | none ↦ (err not_encrypted, w)
        | some e ↦ send_attempts 4 0 (ok tt) e w
      ])
