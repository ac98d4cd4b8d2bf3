-- ===== src/Signal/Credentials/RoundTrip.antt =====
-- UnMarshalCredential of go/signal/client/client.go reads what MarshalCredential writes, where no
-- part has a colon.
use Prim.Native.Char.{Char, code}
use Prim.Native.String.{◌++◌ as append}
use text.Mathlib.TextLemmas.{nil-append, cons-append}
use netbird_minimal.Common.{
  ℕ, suc, ◌+◌, String, ◌≡◌, ◌↔◌, refl, sym, ap, ◌∙◌, true, Option, none, some, [], ◌∷◌, arith,
  if◌then◌else◌, ◌==◌, length,
}
use netbird_minimal.Common.Split.{split_on, lacks, split_on-lacks, split_on-append}
use netbird_minimal.Signal.Messages.{BodyType, Message, Credential}
use netbird_minimal.Signal.Credentials.{un_marshal_credential, Sender, marshal_credential}

abbrev colon : Char
colon = ":"

-- How often a character stands in a text.
unfoldable pub occurs : ℕ → String → ℕ
occurs n String.[] = 0
occurs n (String.◌∷◌ c s) = let rest = occurs n s in if code c == n then suc rest else rest

occurs-append : (n : ℕ) (s t : String) → occurs n (append s t) ≡ occurs n s + occurs n t
unfolding occurs
occurs-append n String.[] t = ap (occurs n) (nil-append t) ∙ omega arith
occurs-append n (String.◌∷◌ c s) t = rw (cons-append c s t) (ground (arith, occurs-append n s t))

occurs-lacks : (n : ℕ) (s : String) → (lacks (λ x. x == n) s ≡ true) ↔ (occurs n s ≡ 0)
unfolding occurs lacks
occurs-lacks n String.[] = (λ h. refl, λ h. refl)
occurs-lacks n (String.◌∷◌ c s) =
    let ih = occurs-lacks n s in (λ h. ground (arith, ih.0), λ h. ground (arith, ih.1))

split_on-length : (n : ℕ) (s : String) → length (split_on n s) ≡ suc (occurs n s)
unfolding split_on occurs
split_on-length n String.[] = refl
split_on-length n (String.◌∷◌ c s) = ground (arith, split_on-length n s)

joined : (u p : String) → append u (append ":" p) ≡ append u (String.◌∷◌ colon p)
joined u p = ap (append u) (cons-append colon "" p ∙ ap (λ s. String.◌∷◌ colon s) (nil-append p))

parts-length :
    (u p : String)
    → length (split_on b':' (append u (append ":" p))) ≡ 2 + (occurs b':' u + occurs b':' p)
parts-length u p =
    split_on-length b':' (append u (append ":" p))
    ∙ ap suc (ap (occurs b':') (joined u p) ∙ occurs-append b':' u (String.◌∷◌ colon p))
    ∙ (unfold occurs in omega arith)

-- A text without a colon.
abbrev pub IsPlain : String → Type 0
IsPlain s = lacks (λ x. x == b':') s ≡ true

read-two :
    (m : Message) {c : Credential}
    → un_marshal_credential m ≡ some c
    → length (split_on b':' m.body.payload) ≡ 2
unfolding un_marshal_credential
read-two m h = ground arith

-- What MarshalCredential writes, UnMarshalCredential reads back exactly if neither the user fragment
-- nor the password has a colon; otherwise it returns an error.
pub un_marshal_credential_roundtrip :
    (s : Sender) (k : String) (c : Credential) (t : BodyType)
    → (IsPlain c.u_frag × IsPlain c.pwd
        → un_marshal_credential (marshal_credential s k c t) ≡ some c)
      × (¬ (IsPlain c.u_frag × IsPlain c.pwd)
          → un_marshal_credential (marshal_credential s k c t) ≡ none)
unfolding marshal_credential
un_marshal_credential_roundtrip s k c t = (
  λ h. read (
      ap (split_on b':') (joined c.u_frag c.pwd)
      ∙ split_on-append colon c.u_frag c.pwd h.0
      ∙ ap (λ xs. c.u_frag ∷ xs) (split_on-lacks b':' c.pwd h.1)),
  λ n. refused n (un_marshal_credential (marshal_credential s k c t)) refl,
)
  where
    read :
        split_on b':' (append c.u_frag (append ":" c.pwd)) ≡ c.u_frag ∷ c.pwd ∷ []
        → un_marshal_credential (marshal_credential s k c t) ≡ some c
    read q = unfold un_marshal_credential in ground (arith, q)

    refused :
        ¬ (IsPlain c.u_frag × IsPlain c.pwd)
        → (o : Option Credential) → un_marshal_credential (marshal_credential s k c t) ≡ o
        → o ≡ none
    refused n none q = refl
    refused n (some d) q =
        let two = sym (parts-length c.u_frag c.pwd) ∙ read-two (marshal_credential s k c t) q in
        absurd (
          n (
            (occurs-lacks b':' c.u_frag).1 (omega (arith, two)),
            (occurs-lacks b':' c.pwd).1 (omega (arith, two)),
          ))
