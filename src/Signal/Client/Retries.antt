-- ===== src/Signal/Client/Retries.antt =====
-- The attempts of Send of go/signal/client/grpc.go.
use netbird_minimal.Common.{ℕ, zero, suc, ◌+◌, ◌<◌, ◌≡◌, ◌↔◌, refl, sym, ap, ◌∙◌, true, some, arith}
use netbird_minimal.Common.Outcome.{Outcome, ok, err}
use netbird_minimal.Signal.Messages.{Message, EncryptedMessage}
use netbird_minimal.Signal.Client.{
  Reply, delivered, canceled, refused, SignalEnv, SendError, is_ready, encrypt_message,
  attempt_timeout, send_attempts, send,
}

module _ (env : SignalEnv) (msg : EncryptedMessage) where
  open env use {World}

  -- The world behind so many refused attempts, from the number of an attempt on.
  pub data Refused : ℕ → ℕ → World → World → Type 0 where
    none_yet : {attempt : ℕ} {w : World} → Refused 0 attempt w w
    again :
        {n attempt : ℕ} {w w1 w2 : World}
        → env.send_once (attempt_timeout env attempt) msg w ≡ (refused, w1)
        → Refused n (attempt + 1) w1 w2
        → Refused (suc n) attempt w w2

  attempts-delivered :
      (n left attempt : ℕ) (last : Outcome SendError (Unit {0})) {w w1 w2 : World}
      → n < left
      → Refused n attempt w w1
      → env.send_once (attempt_timeout env (attempt + n)) msg w1 ≡ (delivered, w2)
      → send_attempts env left attempt last msg w ≡ (ok tt, w2)
  unfolding send_attempts
  attempts-delivered n zero attempt last l r h = absurd (omega arith)
  attempts-delivered n (suc left) attempt last {w = v} {w2 = w2} l none_yet h =
      let q : env.send_once (attempt_timeout env attempt) msg v ≡ (delivered, w2) =
        ap (λ k. env.send_once (attempt_timeout env k) msg v) (omega arith) ∙ h in
      ground (arith, q)
  attempts-delivered (suc n) (suc left) attempt last {w2 = w2} l (again {w1 = w1} {w2 = v} q r) h =
      let e =
        attempts-delivered n left (attempt + 1) (err SendError.send_refused) {w2 = w2} (omega arith)
          r (ap (λ k. env.send_once (attempt_timeout env k) msg v) (omega arith) ∙ h) in
      ground (arith, q, e)

  -- The attempt that was delivered, behind refused ones.
  pub record Delivered (left attempt : ℕ) (w w2 : World) : Type 0 where
    pub tried : ℕ
    pub last_world : World
    pub few : tried < left
    pub before : Refused tried attempt w last_world
    pub reply :
        env.send_once (attempt_timeout env (attempt + tried)) msg last_world ≡ (delivered, w2)

  attempts-Delivered :
      (left attempt : ℕ) (last : Outcome SendError (Unit {0})) {w w2 : World}
      → (last ≡ ok tt → 0 < left)
      → send_attempts env left attempt last msg w ≡ (ok tt, w2)
      → Delivered left attempt w w2
  unfolding send_attempts
  attempts-Delivered zero attempt last l h = absurd (omega (arith, l (ap (λ r. r.0) h)))
  attempts-Delivered (suc left) attempt last {w = w} {w2 = w2} l h =
      split (env.send_once (attempt_timeout env attempt) msg w) refl h (λ w1.
        attempts-Delivered left (attempt + 1) (err SendError.send_refused) {w = w1} {w2 = w2}
          (λ q. absurd (ground arith)))
    where
      split :
          (r : Reply × World)
          → env.send_once (attempt_timeout env attempt) msg w ≡ r
          → (let out : Outcome SendError (Unit {0}) × World = elim r.0 [
            | delivered ↦ (ok tt, r.1)
            | canceled ↦ (err SendError.send_canceled, r.1)
            | refused ↦ send_attempts env left (attempt + 1) (err SendError.send_refused) msg r.1
          ] in
              out)
            ≡ (ok tt, w2)
          → ((w1 : World)
              → send_attempts env left (attempt + 1) (err SendError.send_refused) msg w1
                ≡ (ok tt, w2)
              → Delivered left (attempt + 1) w1 w2)
          → Delivered (suc left) attempt w w2
      split (delivered, w1) q e ih = record {
        tried = 0;
        last_world = w;
        few = omega arith;
        before = none_yet;
        reply =
            ap (λ k. env.send_once (attempt_timeout env k) msg w) (omega arith)
            ∙ q
            ∙ ap (λ v. (delivered, v)) (ap (λ r. r.1) e);
      }
      split (canceled, w1) q e ih = absurd (ground arith)
      split (refused, w1) q e ih =
          let d = ih w1 e in
          record {
            tried = suc d.tried;
            last_world = d.last_world;
            few = omega (arith, d.few);
            before = again q d.before;
            reply =
                ap (λ k. env.send_once (attempt_timeout env k) msg d.last_world) (omega arith)
                ∙ d.reply;
          }

-- Send of a message that encrypts, over a connection that is ready, returns nil exactly if one of the
-- first four attempts is delivered and the ones before it are refused, none of them canceled.
pub send-Delivered :
    (env : SignalEnv) (key : env.Key) (m : Message) (e : EncryptedMessage) (w w2 : env.World)
    → is_ready env w ≡ true
    → encrypt_message env key m ≡ some e
    → (send env key m w ≡ (ok tt, w2)) ↔ Delivered env e 4 0 w w2
send-Delivered env key m e w w2 h q = (
  λ r. attempts-Delivered env e 4 0 (ok tt) (λ _. omega arith) (sym tries ∙ r),
  λ d. tries ∙ attempts-delivered env e d.tried 4 0 (ok tt) d.few d.before d.reply,
)
  where
    tries : send env key m w ≡ send_attempts env 4 0 (ok tt) e w
    tries = unfold send in ground (arith, h, q)
