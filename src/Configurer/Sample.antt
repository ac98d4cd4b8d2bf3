-- ===== src/Configurer/Sample.antt =====
-- A small instance of what the configurer calls: a list of numbers is written in ones, and the device
-- keeps the texts that it was given.
use Prim.Native.Char.{code}
use Prim.Native.String.{◌++◌ as append}
use netbird_minimal.Common.{
  ℕ, zero, suc, String, ◌≡◌, refl, ◌∙◌, Bool, true, false, Option, none, some, List, [], ◌∷◌, arith,
  if◌then◌else◌, ◌==◌,
}
use netbird_minimal.Common.Split.{is_space, lacks, split_once, split_once-append}
use netbird_minimal.Common.Lines.{lacks-append, lacks-weaken}
use netbird_minimal.Configurer.WgEnv.{ℤ, pos, negsuc, is_mark, WgEnv, WgLaws}

unfoldable pub ones : ℕ → String → String
ones zero s = String.◌∷◌ "b" s
ones (suc n) s = String.◌∷◌ "a" (ones n s)

unfoldable pub encode : List ℕ → String
unfolding ones
encode [] = ""
encode (n ∷ ns) = ones n (encode ns)

unfoldable pub decode : String → Option (List ℕ)
decode String.[] = some []
decode (String.◌∷◌ c s) =
    let rest = decode s in
    if code c == b'b'
    then (elim rest [ none ↦ none | some ns ↦ some (zero ∷ ns) ])
    else (elim rest [ none ↦ none | some ns ↦ elim ns [ [] ↦ none | m ∷ ms ↦ some (suc m ∷ ms) ] ])

decode-ones :
    (n : ℕ) (s : String) {ns : List ℕ} → decode s ≡ some ns → decode (ones n s) ≡ some (n ∷ ns)
unfolding decode ones
decode-ones zero s h = ground (arith, h)
decode-ones (suc n) s h = ground (arith, decode-ones n s h)

decode-encode : (ns : List ℕ) → decode (encode ns) ≡ some ns
unfolding decode encode
decode-encode [] = refl
decode-encode (n ∷ ns) = decode-ones n (encode ns) (decode-encode ns)

-- The letters that a list is written with are none of these.
abbrev IsFree : (ℕ → Bool) → Type 0
IsFree p = (p b'a' ≡ false) × (p b'b' ≡ false)

ones-lacks :
    (p : ℕ → Bool) → IsFree p → (n : ℕ) (s : String) → lacks p s ≡ true → lacks p (ones n s) ≡ true
unfolding lacks ones
ones-lacks p f zero s h = ground (arith, f.1, h)
ones-lacks p f (suc n) s h = ground (arith, f.0, ones-lacks p f n s h)

encode-lacks : (p : ℕ → Bool) → IsFree p → (ns : List ℕ) → lacks p (encode ns) ≡ true
unfolding lacks encode
encode-lacks p f [] = refl
encode-lacks p f (n ∷ ns) = ones-lacks p f n (encode ns) (encode-lacks p f ns)

abbrev pub int_codes : ℤ → List ℕ
int_codes (pos n) = 0 ∷ n ∷ []
int_codes (negsuc n) = 1 ∷ n ∷ []

abbrev pub int_of : List ℕ → Option ℤ
int_of (zero ∷ (n ∷ [])) = some (pos n)
int_of (suc k ∷ (n ∷ [])) = some (negsuc n)
int_of _ = none

abbrev pub parse_sample_int : String → Option ℤ
parse_sample_int s = elim (decode s) [ none ↦ none | some ns ↦ int_of ns ]

abbrev pub first : List ℕ → ℕ
first [] = 0
first (n ∷ ns) = n

abbrev pub sample_wg : WgEnv
sample_wg = record {
  parse_int = parse_sample_int;
  format_int = λ n. encode (int_codes n);
  hex_decode = decode;
  hex_encode = encode;
  base64 = encode;
  parse_key = decode;
  public_of = λ k. k;
  IpNet = List ℕ;
  parse_cidr = decode;
  ip_net_string = encode;
  Prefix = List ℕ;
  prefix_string = encode;
  to_ip_net = λ p. p;
  Ip = ℕ;
  no_ip = 0;
  parse_ip = λ s. elim (decode s) [ none ↦ 0 | some ns ↦ first ns ];
  is_v4 = λ a. true;
  ip_string = λ a. encode (a ∷ []);
  split_host_port = λ s. split_once b':' s;
  udp_string = λ a. append (encode (a.ip ∷ [])) (String.◌∷◌ ":" (encode (int_codes a.port)));
  Addr = ℕ;
  parse_addr = λ a. some a;
  advanced_routing = true;
  control_plane_mark = pos 5;
  World = List String;
  ipc_get = λ w. elim w [ [] ↦ none | s ∷ ss ↦ some s ];
  ipc_set = λ s w. (false, s ∷ w);
  upsert_address = λ k a p w. w;
  remove_activity = λ k w. w;
}

sample_int : (n : ℤ) → parse_sample_int (encode (int_codes n)) ≡ some n
sample_int (pos n) = ground (arith, decode-encode (0 ∷ n ∷ []))
sample_int (negsuc n) = ground (arith, decode-encode (1 ∷ n ∷ []))

space : IsFree is_space
space = (refl, refl)

mark : IsFree is_mark
mark = (refl, refl)

pub sample_wg_laws : WgLaws sample_wg
sample_wg_laws = record {
  int_lem = λ n h. sample_int n;
  hex_lem = λ k h. decode-encode k;
  int_lacks = λ n. encode-lacks is_space space (int_codes n);
  hex_lacks = encode-lacks is_space space;
  ip_net_lacks = encode-lacks is_space space;
  udp_lacks = λ a. udp a.ip a.port;
  int_plain = λ n. encode-lacks is_mark mark (int_codes n);
  v4_plain = λ a h. encode-lacks is_mark mark (a ∷ []);
  parse_v4 = λ a h. ground (arith, decode-encode (a ∷ []));
  udp_v4 = λ a h. refl;
  split_lem = λ host port h k.
      split_once-append ":" host port
        (lacks-weaken is_mark (λ x. x == b':') (λ c q. ground arith) host h);
}
  where
    udp :
        (ip : ℕ) (port : ℤ)
        → lacks is_space (append (encode (ip ∷ [])) (String.◌∷◌ ":" (encode (int_codes port))))
          ≡ true
    udp ip port =
        lacks-append is_space (encode (ip ∷ [])) (String.◌∷◌ ":" (encode (int_codes port)))
        ∙ (unfold lacks in
            ground (
              arith,
              encode-lacks is_space space (ip ∷ []),
              encode-lacks is_space space (int_codes port),
            ))
