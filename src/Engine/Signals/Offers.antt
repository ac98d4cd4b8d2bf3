-- ===== src/Engine/Signals/Offers.antt =====
-- An offer or an answer from the sender to the connection of the receiver: MarshalCredential and
-- encryptMessage there, decryptMessage and the handler of receiveSignalEvents here.
use netbird_minimal.Common.{◌%◌, ◌^◌, ◌<◌, String, ◌≡◌, refl, ap, ◌∙◌, none, some, arith}
use netbird_minimal.Common.Outcome.{ok}
use netbird_minimal.Signal.Messages.{BodyType, offer, answer, Message, EncryptedMessage, Credential}
use netbird_minimal.Signal.Credentials.{un_marshal_credential, Sender, marshal_credential}
use netbird_minimal.Signal.Credentials.RoundTrip.{IsPlain, un_marshal_credential_roundtrip}
use netbird_minimal.Signal.Client.{SignalEnv, decrypt_message, encrypt_message}
use netbird_minimal.Signal.Client.Sealed.{SignalLaws, decrypt_message-encrypt}
use netbird_minimal.Engine.Signals.{
  OfferAnswer, SignalsEnv, session_id_of, convert_to_offer_answer, dispatch, handle_signal,
}

module _ (env : SignalsEnv) where
  -- What the sender says, as an offer or an answer.
  abbrev pub offer_of : Sender → Credential → OfferAnswer env.SessionId
  offer_of s c = record {
    ice_credentials = c;
    wg_listen_port = s.port;
    version = s.version;
    rosenpass_pub_key = s.rosenpass_pub_key;
    rosenpass_addr = s.rosenpass_addr;
    relay_srv_address = s.relay_srv_address;
    session_id = session_id_of env s.session_id;
  }

  -- What a message of these credentials converts to.
  abbrev offer_in : Message → Credential → OfferAnswer env.SessionId
  offer_in m c = record {
    ice_credentials = c;
    wg_listen_port = m.body.wg_listen_port;
    version = m.body.net_bird_version;
    rosenpass_pub_key = elim m.body.rosenpass_config [ none ↦ none | some r ↦ r.rosenpass_pub_key ];
    rosenpass_addr = elim m.body.rosenpass_config [ none ↦ "" | some r ↦ r.rosenpass_server_addr ];
    relay_srv_address = m.body.relay_server_address;
    session_id = session_id_of env m.body.session_id;
  }

  convert-read :
      (m : Message) (c : Credential)
      → un_marshal_credential m ≡ some c
      → convert_to_offer_answer env m ≡ some (offer_in m c)
  unfolding convert_to_offer_answer
  convert-read m c h = ground (arith, h)

  convert-marshal :
      (s : Sender) (k : String) (c : Credential) (t : BodyType)
      → s.port < 2 ^ 32
      → IsPlain c.u_frag × IsPlain c.pwd
      → convert_to_offer_answer env (marshal_credential s k c t) ≡ some (offer_of s c)
  unfolding marshal_credential
  convert-marshal s k c t l h =
      let port : s.port % 2 ^ 32 ≡ s.port = omega arith in
      convert-read (marshal_credential s k c t) c ((un_marshal_credential_roundtrip s k c t).0 h)
      ∙ ap (λ n. some (record (offer_of s c) { wg_listen_port = n })) port

  module _ (signal : SignalEnv) (laws : SignalLaws signal) where
    -- An offer or an answer with credentials without a colon and a port, which one client encrypts
    -- for another: the other decrypts it, and where it knows the sender its handler activates the
    -- connection and gives it exactly what the sender said.
    pub handle_signal-marshal :
        (a b : signal.Key) (s : Sender) (c : Credential) (t : BodyType) (w : env.World)
        {e : EncryptedMessage} {conn : env.Conn}
        → s.public_key ≡ signal.key_string (signal.public_of a)
        → s.port < 2 ^ 32
        → IsPlain c.u_frag × IsPlain c.pwd
        → encrypt_message signal a
            (marshal_credential s (signal.key_string (signal.public_of b)) c t)
          ≡ some e
        → env.peer_conn w s.public_key ≡ some conn
        → (m : Message) × (decrypt_message signal b e ≡ some m)
          × (t ≡ offer
              → handle_signal env m w
                ≡ (ok tt, env.on_remote_offer conn (offer_of s c) (env.activate_peer conn w)))
          × (t ≡ answer
              → handle_signal env m w
                ≡ (ok tt, env.on_remote_answer conn (offer_of s c) (env.activate_peer conn w)))
    handle_signal-marshal a b s c t w {conn = conn} k l h q p =
        let m = marshal_credential s (signal.key_string (signal.public_of b)) c t in
        let made = convert-marshal s (signal.key_string (signal.public_of b)) c t l h in
        (
          m,
          decrypt_message-encrypt signal laws a b m (sent t) q,
          (handled t made).0,
          (handled t made).1,
        )
      where
        sent :
            (t : BodyType)
            → let m = marshal_credential s (signal.key_string (signal.public_of b)) c t in
              (m.key ≡ signal.key_string (signal.public_of a))
              × (m.remote_key ≡ signal.key_string (signal.public_of b))
        sent t = unfold marshal_credential in (k, refl)

        handled :
            (t : BodyType)
            → let m = marshal_credential s (signal.key_string (signal.public_of b)) c t in
              convert_to_offer_answer env m ≡ some (offer_of s c)
              → (t ≡ offer
                  → handle_signal env m w
                    ≡ (ok tt, env.on_remote_offer conn (offer_of s c) (env.activate_peer conn w)))
                × (t ≡ answer
                    → handle_signal env m w ≡ (
                      ok tt,
                      env.on_remote_answer conn (offer_of s c) (env.activate_peer conn w),
                    ))
        handled t made = (
          λ z.
              unfold handle_signal in
              unfold dispatch in unfold marshal_credential in ground (arith, p, made, z),
          λ z.
              unfold handle_signal in
              unfold dispatch in unfold marshal_credential in ground (arith, p, made, z),
        )
