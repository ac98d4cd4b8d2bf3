-- ===== src/Signal/Client/Tests.antt =====
-- A connection whose first two attempts are refused.
use netbird_minimal.Common.{String, zero, suc, ◌≡◌, ◌↔◌, refl, false, none, some, [], ℕ}
use netbird_minimal.Common.Outcome.{ok}
use netbird_minimal.Signal.Messages.{go_idle, Message, EncryptedMessage}
use netbird_minimal.Signal.Client.{
  SignalEnv, idle, delivered, refused, is_ready, encrypt_message, send,
}
use netbird_minimal.Signal.Client.Retries.{Delivered, send-Delivered}

abbrev idle_message : Message
idle_message = record {
  key = "alice";
  remote_key = "bob";
  body = record {
    body_type = go_idle;
    payload = "";
    wg_listen_port = 0;
    net_bird_version = "";
    rosenpass_config = none;
    relay_server_address = "";
    session_id = none;
  };
}

abbrev sealed : EncryptedMessage
sealed = record { key = "alice"; remote_key = "bob"; body = [] }

abbrev failing : SignalEnv
failing = record {
  Key = String;
  parse_key = λ k. some k;
  key_string = λ k. k;
  public_of = λ k. k;
  encrypt = λ to from m. some [];
  decrypt = λ from to xs. some idle_message.body;
  World = ℕ;
  get_state = λ w. idle;
  connect_timeout = 10;
  send_once = λ t m w. elim w [ zero ↦ (delivered, zero) | suc n ↦ (refused, n) ];
  probe = λ w. (false, w);
  notify_connected = λ w. w;
  notify_disconnected = λ w. w;
}

send-Delivered_example :
    (send failing "alice" idle_message 2 ≡ (ok tt, 0)) ↔ Delivered failing sealed 4 0 2 0
unfolding is_ready encrypt_message
send-Delivered_example = send-Delivered failing "alice" idle_message sealed 2 0 refl refl

delivered_third : send failing "alice" idle_message 2 ≡ (ok tt, 0)
unfolding send
delivered_third = refl
