-- ===== src/Configurer/Device/Report.antt =====
-- What parseStatus of go/iface/configurer/usp.go takes from the report of a device: for every peer
-- its key, then its other lines in any order. The lines for tx_bytes, rx_bytes, protocol_version and
-- the like stand among them.
use mathlib.Core.List.{append-nil, append_assoc}
use netbird_minimal.Common.{
  String, ◌≡◌, refl, sym, ap, ◌∙◌, Bool, true, false, Option, none, some, List, [], ◌∷◌, ◌++◌, map,
  arith, All, str_eq, if◌then◌else◌,
}
use netbird_minimal.Common.Split.{lacks}
use netbird_minimal.Configurer.WgEnv.{ℤ, Key, IsKey32, WgEnv, WgLaws}
use netbird_minimal.Configurer.Config.Printed.{Entry, printed}
use netbird_minimal.Configurer.Config.Solid.{IsEntry}
use netbird_minimal.Configurer.Status.{
  Peer, Status, new_peer, on_peer, save_peer, hex_to_wireguard_key, peer_line, status_entry,
  parse_status,
}
use netbird_minimal.Configurer.Status.Reading.{status_entries, start, parse-entries, key-read}

-- A line of a peer: an allowed IP, or another entry.
pub data Line (IpNet : Type 0) : Type 0 where
  allowed : IpNet → Line IpNet
  another : Entry → Line IpNet

pub record Reported (IpNet : Type 0) : Type 0 where
  pub key : Key
  pub lines : List (Line IpNet)

abbrev pub allowed_of : {IpNet : Type 0} → List (Line IpNet) → List IpNet
allowed_of [] = []
allowed_of (allowed n ∷ ls) = n ∷ allowed_of ls
allowed_of (another e ∷ ls) = allowed_of ls

-- An entry that is neither the key of a peer nor an allowed IP.
abbrev pub IsAnother : Entry → Type 0
IsAnother e = IsEntry e × (str_eq e.0 "public_key" ≡ false) × (str_eq e.0 "allowed_ip" ≡ false)

map_append : {A B : Type 0} (f : A → B) (xs ys : List A) → map f (xs ++ ys) ≡ map f xs ++ map f ys
map_append f [] ys = refl
map_append f (x ∷ xs) ys = ap (λ zs. f x ∷ zs) (map_append f xs ys)

module _ (env : WgEnv) (laws : WgLaws env) where
  open env use {IpNet, Ip, hex_encode, ip_net_string, parse_cidr, base64}

  abbrev line_entry : Line IpNet → Entry
  line_entry (allowed n) = ("allowed_ip", ip_net_string n)
  line_entry (another e) = e

  -- An allowed IP is a network.
  abbrev pub IsLine : Line IpNet → Type 0
  IsLine (allowed n) = parse_cidr (ip_net_string n) ≡ some n
  IsLine (another e) = IsAnother e

  abbrev pub IsReported : Reported IpNet → Type 0
  IsReported p = IsKey32 p.key × All IsLine p.lines

  peer_lines : List (Reported IpNet) → List Entry
  peer_lines [] = []
  peer_lines (p ∷ ps) = ("public_key", hex_encode p.key) ∷ (map line_entry p.lines ++ peer_lines ps)

  -- The text of a report, whose first lines are those of the device itself.
  pub report : List Entry → List (Reported IpNet) → String
  report head ps = printed (head ++ peer_lines ps)

  -- What is followed of a peer.
  abbrev pub View : Type 0
  View = String × List IpNet

  abbrev pub view : Peer IpNet Ip → View
  view p = (p.public_key, p.allowed_ips)

  -- The state has these peers, and this current one.
  abbrev IsAt : List View → Option View → Status env → Type 0
  IsAt vs c s =
      (map view s.stats.peers ≡ vs)
      × ((elim s.current_peer [ none ↦ none | some p ↦ some (view p) ]) ≡ c)

  line-view :
      (k v : String) (p : Peer IpNet Ip)
      → str_eq k "allowed_ip" ≡ false
      → (elim (peer_line env k v) [ none ↦ view p | some f ↦ view (f p) ]) ≡ view p
  unfolding peer_line
  line-view k v p h = ground (arith, h)

  abbrev view_of : Option (Peer IpNet Ip) → Option View
  view_of none = none
  view_of (some p) = some (view p)

  -- The switch of parseStatus over the answers to its tests.
  abbrev switch :
      Bool
      → Bool
      → Bool
      → Bool
      → Option Key
      → Status env
      → Option ℤ
      → Option (Peer IpNet Ip → Peer IpNet Ip)
      → Status env
      → Status env
  switch private public port mark key next number line s =
      if private
      then (elim key [
        | none ↦ s
        | some k ↦ record s { stats = record s.stats { public_key = base64 (env.public_of k) } }
      ])
      else (if public
          then next
          else (if port
              then (elim number [
                | none ↦ s
                | some n ↦ record s { stats = record s.stats { listen_port = n } }
              ])
              else (if mark
                  then (elim number [
                    | none ↦ s
                    | some n ↦ record s { stats = record s.stats { fw_mark = n } }
                  ])
                  else (elim line [ none ↦ s | some f ↦ on_peer env f s ]))))

  -- The peers and what is followed of the current one stay.
  abbrev Stays : Status env → Status env → Type 0
  Stays s t = (t.stats.peers ≡ s.stats.peers) × (view_of t.current_peer ≡ view_of s.current_peer)

  on_peer-Stays :
      (f : Peer IpNet Ip → Peer IpNet Ip) (s : Status env)
      → ((p : Peer IpNet Ip) → view (f p) ≡ view p)
      → Stays s (on_peer env f s)
  on_peer-Stays f s h = split s.current_peer
    where
      split :
          (o : Option (Peer IpNet Ip))
          → let t : Status env = record s { current_peer = o } in Stays t (on_peer env f t)
      split none = (refl, refl)
      split (some p) = (refl, ap some (h p))

  switch-Stays :
      (private public port mark : Bool) (key : Option Key) (next : Status env) (number : Option ℤ)
      (line : Option (Peer IpNet Ip → Peer IpNet Ip)) (s : Status env)
      → public ≡ false
      → ((p : Peer IpNet Ip) → (elim line [ none ↦ view p | some f ↦ view (f p) ]) ≡ view p)
      → Stays s (switch private public port mark key next number line s)
  switch-Stays true public port mark none next number line s h k = (refl, refl)
  switch-Stays true public port mark (some _) next number line s h k = (refl, refl)
  switch-Stays false true port mark key next number line s h k = absurd (ground arith)
  switch-Stays false false true mark key next none line s h k = (refl, refl)
  switch-Stays false false true mark key next (some n) line s h k = (refl, refl)
  switch-Stays false false false true key next none line s h k = (refl, refl)
  switch-Stays false false false true key next (some n) line s h k = (refl, refl)
  switch-Stays false false false false key next number none s h k = (refl, refl)
  switch-Stays false false false false key next number (some f) s h k = on_peer-Stays f s k

  another-Stays :
      (k v : String) (s : Status env)
      → str_eq k "public_key" ≡ false
      → str_eq k "allowed_ip" ≡ false
      → Stays s (status_entry env k v s)
  unfolding status_entry
  another-Stays k v s h n =
      switch-Stays (str_eq k "private_key") (str_eq k "public_key") (str_eq k "listen_port")
        (str_eq k "fwmark") (hex_to_wireguard_key env v)
        (elim (hex_to_wireguard_key env v) [
          | none ↦ record s { stats = save_peer env s }
          | some x ↦ record { stats = save_peer env s; current_peer = some (new_peer env x) }
        ])
        (env.parse_int v) (peer_line env k v) s h (λ p. line-view k v p n)

  -- The views of the peers that are saved at the end.
  abbrev saved : List View → Option View → List View
  saved vs none = vs
  saved vs (some x) = vs ++ (x ∷ [])

  save_peer-view :
      (s : Status env)
      → map view (save_peer env s).peers ≡ saved (map view s.stats.peers) (view_of s.current_peer)
  save_peer-view s = split s.current_peer
    where
      split :
          (o : Option (Peer IpNet Ip))
          → map view (save_peer env (record s { current_peer = o })).peers
            ≡ saved (map view s.stats.peers) (view_of o)
      split none = refl
      split (some p) = map_append view s.stats.peers (p ∷ [])

  -- The lines of the device itself.
  head-IsAt :
      (head : List Entry) (s : Status env)
      → All IsAnother head
      → (es : List Entry)
      → (t : Status env) × (status_entries env laws (head ++ es) s ≡ status_entries env laws es t)
        × Stays s t
  unfolding status_entries
  head-IsAt [] s h es = (s, refl, (refl, refl))
  head-IsAt ((k, v) ∷ head) s ((e, a, b), h) es =
      let one = another-Stays k v s a b in
      let (t, q, (c, d)) = head-IsAt head (status_entry env k v s) h es in
      (t, q, (c ∙ one.0, d ∙ one.1))

  allowed-run :
      (n : IpNet) (s : Status env)
      → parse_cidr (ip_net_string n) ≡ some n
      → status_entry env "allowed_ip" (ip_net_string n) s
        ≡ on_peer env (λ p. record p { allowed_ips = p.allowed_ips ++ (n ∷ []) }) s
  unfolding status_entry peer_line
  allowed-run n s h = ground (arith, h)

  allowed-view :
      (n : IpNet) (s : Status env) (x : View)
      → view_of s.current_peer ≡ some x
      → let t = on_peer env (λ p. record p { allowed_ips = p.allowed_ips ++ (n ∷ []) }) s in
        (t.stats.peers ≡ s.stats.peers) × (view_of t.current_peer ≡ some (x.0, x.1 ++ (n ∷ [])))
  allowed-view n s x q = split s.current_peer q
    where
      split :
          (o : Option (Peer IpNet Ip))
          → view_of o ≡ some x
          → let u : Status env = record s { current_peer = o } in
            let t = on_peer env (λ p. record p { allowed_ips = p.allowed_ips ++ (n ∷ []) }) u in
            (t.stats.peers ≡ s.stats.peers) × (view_of t.current_peer ≡ some (x.0, x.1 ++ (n ∷ [])))
      split none q = absurd (ground arith)
      split (some p) q =
          (refl, ap (λ o. elim o [ none ↦ none | some y ↦ some (y.0, y.1 ++ (n ∷ [])) ]) q)

  -- The lines of a peer, behind its key.
  lines-read :
      (ls : List (Line IpNet)) (s : Status env) (x : View)
      → All IsLine ls
      → view_of s.current_peer ≡ some x
      → (es : List Entry)
      → (t : Status env) × (status_entries env laws (map line_entry ls ++ es) s
          ≡ status_entries env laws es t)
        × (t.stats.peers ≡ s.stats.peers)
        × (view_of t.current_peer ≡ some (x.0, x.1 ++ allowed_of ls))
  unfolding status_entries
  lines-read [] s x h q es = (s, refl, refl, q ∙ ap (λ ns. some (x.0, ns)) (sym (append-nil x.1)))
  lines-read (allowed n ∷ ls) s x (h, k) q es =
      let f : Peer IpNet Ip → Peer IpNet Ip =
        λ p. record p { allowed_ips = p.allowed_ips ++ (n ∷ []) } in
      let (same, grown) = allowed-view n s x q in
      let (t, r, p, w) = lines-read ls (on_peer env f s) (x.0, x.1 ++ (n ∷ [])) k grown es in
      (
        t,
        ap (status_entries env laws (map line_entry ls ++ es)) (allowed-run n s h) ∙ r,
        p ∙ same,
        w ∙ ap (λ ns. some (x.0, ns)) (append_assoc x.1 (n ∷ []) (allowed_of ls)),
      )
  lines-read (another (c, v) ∷ ls) s x ((e, a, b), k) q es =
      let one = another-Stays c v s a b in
      let (t, r, p, w) = lines-read ls (status_entry env c v s) x k (one.1 ∙ q) es in
      (t, r, p ∙ one.0, w)

  key-run :
      (k : Key) (s : Status env)
      → IsKey32 k
      → status_entry env "public_key" (hex_encode k) s
        ≡ record { stats = save_peer env s; current_peer = some (new_peer env k) }
  unfolding status_entry
  key-run k s h = ground (arith, key-read env laws k h)

  abbrev pub reported : Reported IpNet → View
  reported p = (base64 p.key, allowed_of p.lines)

  peers-view :
      (ps : List (Reported IpNet)) (s : Status env)
      → All IsReported ps
      → map view (save_peer env (status_entries env laws (peer_lines ps) s)).peers
        ≡ saved (map view s.stats.peers) (view_of s.current_peer) ++ map reported ps
  unfolding peer_lines status_entries
  peers-view [] s h = save_peer-view s ∙ sym (append-nil _)
  peers-view (p ∷ ps) s ((k, l), h) =
      let s1 : Status env = record {
        stats = save_peer env s;
        current_peer = some (new_peer env p.key);
      } in
      let (t, r, same, c) = lines-read p.lines s1 (base64 p.key, []) l refl (peer_lines ps) in
      ap
        (λ u.
          map view
            (save_peer env
              (status_entries env laws (map line_entry p.lines ++ peer_lines ps) u)).peers)
        (key-run p.key s k)
      ∙ ap (λ u. map view (save_peer env u).peers) r
      ∙ peers-view ps t h
      ∙ ap (λ o. saved (map view t.stats.peers) o ++ map reported ps) c
      ∙ ap (λ vs. (map view vs ++ (reported p ∷ [])) ++ map reported ps) same
      ∙ ap (λ vs. (vs ++ (reported p ∷ [])) ++ map reported ps) (save_peer-view s)
      ∙ append_assoc (saved (map view s.stats.peers) (view_of s.current_peer)) (reported p ∷ [])
          (map reported ps)

  line-IsEntry : (l : Line IpNet) → IsLine l → IsEntry (line_entry l)
  unfolding lacks
  line-IsEntry (allowed n) h = ((refl, refl), laws.ip_net_lacks n)
  line-IsEntry (another e) h = h.0

  lines-IsEntry :
      (ls : List (Line IpNet)) (es : List Entry)
      → All IsLine ls
      → All IsEntry es
      → All IsEntry (map line_entry ls ++ es)
  lines-IsEntry [] es h k = k
  lines-IsEntry (l ∷ ls) es (h, t) k = (line-IsEntry l h, lines-IsEntry ls es t k)

  peers-IsEntry : (ps : List (Reported IpNet)) → All IsReported ps → All IsEntry (peer_lines ps)
  unfolding peer_lines lacks
  peers-IsEntry [] h = tt
  peers-IsEntry (p ∷ ps) ((k, l), h) = (
    ((refl, refl), laws.hex_lacks p.key),
    lines-IsEntry p.lines (peer_lines ps) l (peers-IsEntry ps h),
  )

  head-IsEntry :
      (head es : List Entry) → All IsAnother head → All IsEntry es → All IsEntry (head ++ es)
  head-IsEntry [] es h k = k
  head-IsEntry (e ∷ head) es (h, t) k = (h.0, head-IsEntry head es t k)

  -- Of a report parseStatus takes the peers, in their order, with their keys and their allowed IPs,
  -- whatever other lines there are.
  pub report-read :
      (d : String) (head : List Entry) (ps : List (Reported IpNet))
      → All IsAnother head
      → All IsReported ps
      → map view (parse_status env d (report head ps)).peers ≡ map reported ps
  unfolding report
  report-read d head ps h k =
      let (t, r, (a, b)) = head-IsAt head (start env laws d) h (peer_lines ps) in
      ap (λ st. map view st.peers)
        (parse-entries env laws d (head ++ peer_lines ps)
          (head-IsEntry head (peer_lines ps) h (peers-IsEntry ps k)))
      ∙ ap (λ u. map view (save_peer env u).peers) r
      ∙ peers-view ps t k
      ∙ ap (λ o. saved (map view t.stats.peers) o ++ map reported ps) (b ∙ nobody d)
      ∙ ap (λ vs. map view vs ++ map reported ps) (a ∙ nothing d)
    where
      nobody : (d : String) → view_of (start env laws d).current_peer ≡ none
      nobody d = unfold start in refl

      nothing : (d : String) → (start env laws d).stats.peers ≡ []
      nothing d = unfold start in refl
