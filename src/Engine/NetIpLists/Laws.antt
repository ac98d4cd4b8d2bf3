-- ===== src/Engine/NetIpLists/Laws.antt =====
-- compareNetIPLists decides whether the two lists hold the same networks, each as often.
use netbird_minimal.Common.{
  ℕ, suc, ◌+◌, ◌-◌, ◌≤◌, ◌<◌, String, ◌≡◌, refl, sym, ap, ◌∙◌, ◌↔◌, true, false, Option, none, some,
  List, [], ◌∷◌, map, arith, if◌then◌else◌, length, count, contains, Distinct, inl, inr, str_eq,
  str_eq_iff, str_eq_self, Option-cases, length-map,
}
use mathlib.Core.Path.{subst}
use mathlib.Core.Option.{some-injective}
use netbird_minimal.Common.Counting.{SameTexts, SameTexts-length}
use netbird_minimal.Common.Dict.{
  Dict, lookup, insert, keys, lookup-insert, contains-keys, insert-IsMap,
}
use netbird_minimal.Engine.Netip.{Netip}
use netbird_minimal.Engine.NetIpLists.{freq_of, all_zero, tally, spend, compare_net_ip_lists}

freq_of-insert :
    (k j : String) (n : ℕ) (m : Dict ℕ)
    → freq_of (insert k n m) j ≡ (if str_eq k j then n else freq_of m j)
unfolding freq_of
freq_of-insert k j n m = ground (arith, lookup-insert k j n m)

-- A map whose every count is 0 answers 0 for every key.
freq_of-all_zero : (m : Dict ℕ) (k : String) → all_zero m ≡ true → freq_of m k ≡ 0
unfolding all_zero freq_of lookup
freq_of-all_zero [] k h = refl
freq_of-all_zero ((j, n) ∷ m) k h = ground (arith, freq_of-all_zero m k)

freq_of-nil : (k : String) → freq_of [] k ≡ 0
freq_of-nil k = freq_of-all_zero [] k (unfold all_zero in refl)

-- And back, where no key is listed twice.
all_zero_of_freq :
    (m : Dict ℕ) → Distinct (keys m) → ((k : String) → freq_of m k ≡ 0) → all_zero m ≡ true
unfolding all_zero freq_of lookup
all_zero_of_freq [] d h = refl
all_zero_of_freq ((j, n) ∷ m) d h =
    let here : n ≡ 0 = ground (arith, h j, str_eq_self j) in
    let there : (k : String) → freq_of m k ≡ 0 = λ k. tail_freq m j n k d.0 (h k) in
    ground (arith, all_zero_of_freq m d.1 there)
  where
    tail_freq :
        (m' : Dict ℕ) (i : String) (c : ℕ) (k : String)
        → contains i (keys m') ≡ false
        → freq_of ((i, c) ∷ m') k ≡ 0
        → freq_of m' k ≡ 0
    tail_freq m' i c k d' e = ground (arith, str_eq_iff i k, contains-keys i m')

module _ (net : Netip) where
  open net use {Prefix, parse_prefix, prefix_string}

  -- The networks of a list of texts in their printed form; `none` if a text does not parse.
  unfoldable pub canonical : List String → Option (List String)
  canonical [] = some []
  canonical (s ∷ ss) = elim (parse_prefix s) [
    | none ↦ none
    | some p ↦ elim (canonical ss) [ none ↦ none | some ks ↦ some (prefix_string p ∷ ks) ]
  ]

  tally-freq :
      (ps : List Prefix) (m : Dict ℕ) (k : String)
      → freq_of (tally net ps m) k ≡ freq_of m k + count k (map prefix_string ps)
  unfolding tally count
  tally-freq [] m k = omega arith
  tally-freq (p ∷ ps) m k = ground (
    arith,
    tally-freq ps (insert (prefix_string p) (suc (freq_of m (prefix_string p))) m) k,
    freq_of-insert (prefix_string p) k (suc (freq_of m (prefix_string p))) m,
    str_eq_iff (prefix_string p) k,
  )

  tally-Distinct :
      (ps : List Prefix) (m : Dict ℕ) → Distinct (keys m) → Distinct (keys (tally net ps m))
  unfolding tally
  tally-Distinct [] m d = d
  tally-Distinct (p ∷ ps) m d =
      tally-Distinct ps (insert (prefix_string p) (suc (freq_of m (prefix_string p))) m)
        (insert-IsMap (prefix_string p) (suc (freq_of m (prefix_string p))) m d)

  -- What is spent is what the texts print as.
  abbrev Spent : List String → Dict ℕ → Dict ℕ → Type 0
  Spent ss m m' =
      (ks : List String) × (canonical ss ≡ some ks)
      × ((k : String) → freq_of m k ≡ freq_of m' k + count k ks)
      × (Distinct (keys m) → Distinct (keys m'))

  -- One round of the loop over `list2` that did not return.
  spend-cons :
      (s : String) (ss : List String) (m : Dict ℕ) {m' : Dict ℕ}
      → spend net (s ∷ ss) m ≡ some m'
      → (p : Prefix) × (parse_prefix s ≡ some p)
        × (0 < freq_of m (prefix_string p))
        × (spend net ss (insert (prefix_string p) (freq_of m (prefix_string p) - 1) m) ≡ some m')
  unfolding spend
  spend-cons s ss m h = elim (Option-cases (parse_prefix s)) [
    | inl bad ↦ absurd (ground arith)
    | inr (p, e) ↦ (p, e, ground arith, ground arith)
  ]

  canonical-cons :
      (s : String) (ss : List String) {p : Prefix} {ks : List String}
      → parse_prefix s ≡ some p
      → canonical ss ≡ some ks
      → canonical (s ∷ ss) ≡ some (prefix_string p ∷ ks)
  unfolding canonical
  canonical-cons s ss e f = ground arith

  spend-nil : (m : Dict ℕ) {m' : Dict ℕ} → spend net [] m ≡ some m' → m ≡ m'
  unfolding spend
  spend-nil m h = some-injective _ _ h

  Spent-nothing : (m : Dict ℕ) → Spent [] m m
  unfolding canonical count
  Spent-nothing m = ([], refl, λ k. omega arith, λ d. d)

  spend-step :
      (s : String) (ss : List String) (m : Dict ℕ) {p : Prefix}
      → parse_prefix s ≡ some p
      → 0 < freq_of m (prefix_string p)
      → spend net (s ∷ ss) m
        ≡ spend net ss (insert (prefix_string p) (freq_of m (prefix_string p) - 1) m)
  unfolding spend
  spend-step s ss m e pos = ground arith

  spend_sound :
      (ss : List String) (m : Dict ℕ) {m' : Dict ℕ} → spend net ss m ≡ some m' → Spent ss m m'
  unfolding count
  spend_sound [] m h = subst (λ x. Spent [] m x) (spend-nil m h) (Spent-nothing m)
  spend_sound (s ∷ ss) m {m'} h =
      let (p, e, pos, rest) = spend-cons s ss m h in
      let (ks, c, fr, di) =
        spend_sound ss (insert (prefix_string p) (freq_of m (prefix_string p) - 1) m) rest in
      (
        prefix_string p ∷ ks,
        canonical-cons s ss e c,
        λ k. ground (
          arith,
          fr k,
          freq_of-insert (prefix_string p) k (freq_of m (prefix_string p) - 1) m,
          str_eq_iff (prefix_string p) k,
        ),
        λ d. di (insert-IsMap (prefix_string p) (freq_of m (prefix_string p) - 1) m d),
      )

  canonical-uncons :
      (s : String) (ss : List String) {ks : List String}
      → canonical (s ∷ ss) ≡ some ks
      → (p : Prefix) × (js : List String) × (parse_prefix s ≡ some p)
        × (canonical ss ≡ some js)
        × (ks ≡ prefix_string p ∷ js)
  unfolding canonical
  canonical-uncons s ss h = elim (Option-cases (parse_prefix s)) [
    | inl bad ↦ absurd (ground arith)
    | inr (p, e) ↦ elim (Option-cases (canonical ss)) [
      | inl bad ↦ absurd (ground arith)
      | inr (js, f) ↦ (p, js, e, f, ground arith)
    ]
  ]

  -- With every printed text affordable the loop gets to its end.
  spend_total :
      (ss ks : List String) (m : Dict ℕ)
      → canonical ss ≡ some ks
      → ((k : String) → count k ks ≤ freq_of m k)
      → (m' : Dict ℕ) × (spend net ss m ≡ some m')
  unfolding count
  spend_total [] ks m c h = (m, unfold spend in refl)
  spend_total (s ∷ ss) ks m c h =
      let (p, js, e, f, g) = canonical-uncons s ss c in
      let (m', q) =
        spend_total ss js (insert (prefix_string p) (freq_of m (prefix_string p) - 1) m) f
          (λ k. step p js g k) in
      (m', spend-step s ss m e (afford p js g) ∙ q)
    where
      afford :
          (p : Prefix) (js : List String)
          → ks ≡ prefix_string p ∷ js
          → 0 < freq_of m (prefix_string p)
      afford p js g = ground (arith, h (prefix_string p), str_eq_self (prefix_string p))

      step :
          (p : Prefix) (js : List String)
          → ks ≡ prefix_string p ∷ js
          → (k : String)
          → count k js ≤ freq_of (insert (prefix_string p) (freq_of m (prefix_string p) - 1) m) k
      step p js g k = ground (
        arith,
        h k,
        freq_of-insert (prefix_string p) k (freq_of m (prefix_string p) - 1) m,
        str_eq_iff (prefix_string p) k,
      )

  -- The two lists hold the same networks, each as often, and every text of the second parses.
  abbrev pub SameNets : List Prefix → List String → Type 0
  SameNets list1 list2 =
      (ks : List String) × (canonical list2 ≡ some ks) × SameTexts (map prefix_string list1) ks

  canonical-length :
      (ss : List String) {ks : List String} → canonical ss ≡ some ks → length ks ≡ length ss
  canonical-length [] c = unfold canonical in ground arith
  canonical-length (s ∷ ss) c =
      let (p, js, e, f, g) = canonical-uncons s ss c in rw g (ap suc (canonical-length ss f))

  compare-ran :
      (list1 : List Prefix) (list2 : List String)
      → compare_net_ip_lists net list1 list2 ≡ true
      → (m' : Dict ℕ) × (spend net list2 (tally net list1 []) ≡ some m') × (all_zero m' ≡ true)
  unfolding compare_net_ip_lists
  compare-ran list1 list2 h = elim (Option-cases (spend net list2 (tally net list1 []))) [
    | inl stopped ↦ absurd (ground arith)
    | inr (m', q) ↦ (m', q, ground arith)
  ]

  compare_sound :
      (list1 : List Prefix) (list2 : List String)
      → compare_net_ip_lists net list1 list2 ≡ true
      → SameNets list1 list2
  compare_sound list1 list2 h =
      let (m', q, z) = compare-ran list1 list2 h in
      let (ks, c, fr, di) = spend_sound list2 (tally net list1 []) q in
      (
        ks,
        c,
        λ k. omega (arith, fr k, tally-freq list1 [] k, freq_of-all_zero m' k z, freq_of-nil k),
      )

  compare-run :
      (list1 : List Prefix) (list2 : List String) {m' : Dict ℕ}
      → length list1 ≡ length list2
      → spend net list2 (tally net list1 []) ≡ some m'
      → compare_net_ip_lists net list1 list2 ≡ all_zero m'
  unfolding compare_net_ip_lists
  compare-run list1 list2 e q = ground arith

  compare_complete :
      (list1 : List Prefix) (list2 : List String)
      → SameNets list1 list2
      → compare_net_ip_lists net list1 list2 ≡ true
  compare_complete list1 list2 (ks, c, same) =
      let (m', q) =
        spend_total list2 ks (tally net list1 []) c
          (λ k. omega (arith, tally-freq list1 [] k, same k)) in
      compare-run list1 list2
        (omega (
          arith,
          length-map prefix_string list1,
          SameTexts-length (map prefix_string list1) ks same,
          canonical-length list2 c,
        ))
        q
      ∙ finish m' (spend_sound list2 (tally net list1 []) q)
    where
      finish : (m' : Dict ℕ) → Spent list2 (tally net list1 []) m' → all_zero m' ≡ true
      finish m' (ks', c', fr, di) =
          let e : ks' ≡ ks = some-injective _ _ (sym c' ∙ c) in
          all_zero_of_freq m' (di (tally-Distinct list1 [] tt))
            (λ k. omega (arith, fr k, tally-freq list1 [] k, same k, ap (count k) e, freq_of-nil k))

  -- compareNetIPLists answers true exactly when every text of the second list parses and the two
  -- lists print the same networks, each as often.
  pub compare_net_ip_lists_iff :
      (list1 : List Prefix) (list2 : List String)
      → (compare_net_ip_lists net list1 list2 ≡ true) ↔ SameNets list1 list2
  compare_net_ip_lists_iff list1 list2 = (compare_sound list1 list2, compare_complete list1 list2)
