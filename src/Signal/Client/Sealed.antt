-- ===== src/Signal/Client/Sealed.antt =====
-- What one client encrypts, the other decrypts: encryptMessage and decryptMessage of
-- go/signal/client/grpc.go.
use netbird_minimal.Common.{ℕ, List, ◌≡◌, refl, ap, ◌∙◌, Option, none, some, arith}
use netbird_minimal.Signal.Messages.{Body, Message, EncryptedMessage}
use netbird_minimal.Signal.Client.{SignalEnv, decrypt_message, encrypt_message}

-- A printed key parses to itself, and what is encrypted between two keys is decrypted between them.
pub record SignalLaws (env : SignalEnv) : Type 0 where
  pub parse_lem : (k : env.Key) → env.parse_key (env.key_string k) ≡ some k
  pub decrypt_lem :
      (a b : env.Key) (m : Body) {xs : List ℕ}
      → env.encrypt (env.public_of b) a m ≡ some xs
      → env.decrypt (env.public_of a) b xs ≡ some m

module _ (env : SignalEnv) (laws : SignalLaws env) where
  -- The message is from the one client to the other.
  abbrev pub IsBetween : env.Key → env.Key → Message → Type 0
  IsBetween a b m =
      (m.key ≡ env.key_string (env.public_of a)) × (m.remote_key ≡ env.key_string (env.public_of b))

  -- A message that one client encrypts for another, which is its receiver, the other decrypts to the
  -- same message.
  pub decrypt_message-encrypt :
      (a b : env.Key) (m : Message) {e : EncryptedMessage}
      → IsBetween a b m
      → encrypt_message env a m ≡ some e
      → decrypt_message env b e ≡ some m
  unfolding encrypt_message decrypt_message
  decrypt_message-encrypt a b m {e} (k, r) h =
      let to : env.parse_key m.remote_key ≡ some (env.public_of b) =
        ap env.parse_key r ∙ laws.parse_lem (env.public_of b) in
      let from : env.parse_key m.key ≡ some (env.public_of a) =
        ap env.parse_key k ∙ laws.parse_lem (env.public_of a) in
      split (env.encrypt (env.public_of b) a m.body) refl to from h
    where
      split :
          (o : Option (List ℕ))
          → env.encrypt (env.public_of b) a m.body ≡ o
          → env.parse_key m.remote_key ≡ some (env.public_of b)
          → env.parse_key m.key ≡ some (env.public_of a)
          → encrypt_message env a m ≡ some e
          → decrypt_message env b e ≡ some m
      split none q to from h = absurd (ground arith)
      split (some xs) q to from h = ground (arith, laws.decrypt_lem a b m.body q)
