-- ===== src/Signal/Credentials/Tests.antt =====
-- Credentials without and with a colon.
use netbird_minimal.Common.{◌≡◌, refl, none, some}
use netbird_minimal.Common.Split.{lacks}
use netbird_minimal.Signal.Messages.{answer, Credential}
use netbird_minimal.Signal.Credentials.{un_marshal_credential, Sender, marshal_credential}
use netbird_minimal.Signal.Credentials.RoundTrip.{IsPlain, un_marshal_credential_roundtrip}

abbrev sender : Sender
sender = record {
  public_key = "alice";
  version = "0.50.0";
  port = 51820;
  rosenpass_pub_key = none;
  rosenpass_addr = "";
  relay_srv_address = "";
  session_id = none;
}

abbrev clean : Credential
clean = record { u_frag = "kTuL"; pwd = "s3cret" }

un_marshal_credential_roundtrip_example :
    (IsPlain clean.u_frag × IsPlain clean.pwd
      → un_marshal_credential (marshal_credential sender "bob" clean answer) ≡ some clean)
    × (¬ (IsPlain clean.u_frag × IsPlain clean.pwd)
        → un_marshal_credential (marshal_credential sender "bob" clean answer) ≡ none)
un_marshal_credential_roundtrip_example = un_marshal_credential_roundtrip sender "bob" clean answer

plain : IsPlain clean.u_frag × IsPlain clean.pwd
unfolding lacks
plain = (refl, refl)

-- A password with a colon.
with_colon :
    un_marshal_credential
      (marshal_credential sender "bob" (record clean { pwd = "s3:cret" }) answer)
    ≡ none
unfolding un_marshal_credential marshal_credential netbird_minimal.Common.Split.split_on
with_colon = refl
