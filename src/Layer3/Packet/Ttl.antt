-- ===== src/Layer3/Packet/Ttl.antt =====
-- What a packet that is forwarded looks like, and that a packet for another router is forwarded.
use networking_protocol_deve.Base.{
  ℕ, zero, suc, ◌+◌, ◌%◌, ◌<◌, ◌≤◌, ◌≡◌, ◌≢◌, refl, sym, ap, ◌∙◌, Bool, true, false, Option, none,
  some, List, [], ◌∷◌, ◌==◌, arith, length, get_or, set, get_elem?, if◌then◌else◌, Bool-cases, inl,
  inr,
}
use networking_protocol_deve.Base.CString.{Chars}
use networking_protocol_deve.Layer2.Frame.{Frame}
use networking_protocol_deve.Layer2.Arp.Message.{get_ethernet_hdr_payload}
use networking_protocol_deve.Layer3.Nexthops.{Nexthop}
use networking_protocol_deve.Layer3.Nexthops.Sorted.{packed}
use networking_protocol_deve.Layer3.RtTable.{
  Route, RtTable, l3_route_get_active_nexthop, l3rib_lookup_lpm,
}
use networking_protocol_deve.Layer3.RtTable.Active.{active_nexthop_turns}
use networking_protocol_deve.Layer3.Packet.{
  NfHook, nf_ip_pre_routing, nf_ip_forward, nf_ip_post_routing, L3Node, L3Action, demoted, ttl_of,
  dst_ip_of, decrement_ttl, forward_via, l3_forward, l3_deliver, l3_route_packet,
  layer3_ip_pkt_recv_from_layer2, next_hop_of,
}

get_or-set_ne : (xs : List ℕ) (i j v : ℕ) → i ≢ j → get_or (set xs i v) j 0 ≡ get_or xs j 0
get_or-set_ne [] i j v n = refl
get_or-set_ne (x ∷ xs) zero zero v n = absurd (n refl)
get_or-set_ne (x ∷ xs) zero (suc j) v n = refl
get_or-set_ne (x ∷ xs) (suc i) zero v n = refl
get_or-set_ne (x ∷ xs) (suc i) (suc j) v n = get_or-set_ne xs i j v (λ e. n (ap suc e))

get_or-set_self : (xs : List ℕ) (i v : ℕ) → 1 ≤ get_or xs i 0 → get_or (set xs i v) i 0 ≡ v
get_or-set_self [] i v h = absurd (omega arith)
get_or-set_self (x ∷ xs) zero v h = refl
get_or-set_self (x ∷ xs) (suc i) v h = get_or-set_self xs i v h

decrement-ttl :
    (ip : List ℕ) → 1 ≤ ttl_of ip → ttl_of ip < 256 → ttl_of (decrement_ttl ip) + 1 ≡ ttl_of ip
unfolding decrement_ttl
decrement-ttl ip lo hi = omega (arith, get_or-set_self ip 8 ((ttl_of ip + 255) % 256) lo)

decrement-dst_ip : (ip : List ℕ) → dst_ip_of (decrement_ttl ip) ≡ dst_ip_of ip
unfolding decrement_ttl
decrement-dst_ip ip =
    let v = (ttl_of ip + 255) % 256 in
    omega (
      arith,
      get_or-set_ne ip 8 16 v (omega arith),
      get_or-set_ne ip 8 17 v (omega arith),
      get_or-set_ne ip 8 18 v (omega arith),
      get_or-set_ne ip 8 19 v (omega arith),
    )

if_false : {A : Type 0} (b : Bool) (x y : A) → b ≡ false → (if b then x else y) ≡ y
if_false b x y e = rw e refl

abbrev action : RtTable × L3Action → L3Action
action x = x.1

-- a packet that is handed to layer 2 with an interface
abbrev sent_out : ℕ → Chars → List ℕ → ℕ → L3Action
sent_out hop name p s = demoted hop (some name) p s

module _ (nf_accepts : NfHook → List ℕ → Bool) (unset : ℕ) (n : L3Node) where
  via_sent :
      (r : Route) (ip : List ℕ) (size : ℕ) (a : Option Nexthop × Route) (t : RtTable) (hop : ℕ)
      (name : Chars) (p : List ℕ) (s : ℕ)
      → forward_via nf_accepts unset n r ip size a ≡ (t, sent_out hop name p s)
      → (p ≡ ip) × (s ≡ size)
  unfolding forward_via
  via_sent r ip size (none, r') t hop name p s e = absurd (ground arith)
  via_sent r ip size (some nh, r') t hop name p s e = ground arith

  forward_sent :
      (r : Route) (ip : List ℕ) (size : ℕ) (t : RtTable) (hop : ℕ) (name : Chars) (p : List ℕ)
      (s : ℕ)
      → l3_forward nf_accepts unset n r ip size ≡ (t, sent_out hop name p s)
      → (p ≡ decrement_ttl ip) × (s ≡ size) × (ttl_of (decrement_ttl ip) ≢ 0)
  unfolding l3_forward
  forward_sent r ip size t hop name p s e = elim (Bool-cases (ttl_of (decrement_ttl ip) == 0)) [
    | inl z ↦ absurd (ground arith)
    | inr z ↦
        let via =
          via_sent r (decrement_ttl ip) size (l3_route_get_active_nexthop r) t hop name p s
            (sym (if_false _ _ _ z) ∙ e) in
        (via.0, via.1, ground arith)
  ]

  routed_sent :
      (o : Option Route) (ip : List ℕ) (size : ℕ) (t : RtTable) (hop : ℕ) (name : Chars)
      (p : List ℕ) (s : ℕ)
      → l3_route_packet nf_accepts unset n ip size o ≡ (t, sent_out hop name p s)
      → (p ≡ decrement_ttl ip) × (s ≡ size) × (ttl_of (decrement_ttl ip) ≢ 0)
  unfolding l3_route_packet l3_deliver
  routed_sent none ip size t hop name p s e = absurd (ground arith)
  routed_sent (some r) ip size t hop name p s e = elim (Bool-cases r.is_direct) [
    | inl d ↦ absurd (ground arith)
    | inr d ↦ forward_sent r ip size t hop name p s (sym (if_false r.is_direct _ _ d) ∙ e)
  ]

  -- A packet that layer 3 sends on to another router out of an interface has its TTL less by one, and not
  -- 0, its destination, and the size of the frame that came in. It came with a TTL from 1 to 255.
  pub forwarded_ttl :
      (shift_32 : ℕ → ℕ) (f : Frame) (size : ℕ) (t : RtTable) (hop : ℕ) (name : Chars) (p : List ℕ)
      (s : ℕ)
      → 1 ≤ ttl_of (get_ethernet_hdr_payload f)
      → ttl_of (get_ethernet_hdr_payload f) < 256
      → layer3_ip_pkt_recv_from_layer2 nf_accepts unset shift_32 n f size
        ≡ (t, demoted hop (some name) p s)
      → (ttl_of p + 1 ≡ ttl_of (get_ethernet_hdr_payload f))
        × (1 ≤ ttl_of p)
        × (dst_ip_of p ≡ dst_ip_of (get_ethernet_hdr_payload f))
        × (s ≡ size)
  unfolding layer3_ip_pkt_recv_from_layer2
  forwarded_ttl shift_32 f size t hop name p s lo hi e =
      elim (Bool-cases (nf_accepts nf_ip_pre_routing (get_ethernet_hdr_payload f))) [
        | inr k ↦ absurd (ground arith)
        | inl k ↦
            let ip = get_ethernet_hdr_payload f in
            let sent =
              routed_sent (l3rib_lookup_lpm shift_32 n.rt_table (dst_ip_of ip)) ip size t hop name p
                s (rw (k, layer3_ip_pkt_recv_from_layer2) at e) in
            rw (sent.0) (decrement-ttl ip lo hi, omega (arith, sent.2), decrement-dst_ip ip, sent.1)
      ]

  received_routed :
      (shift_32 : ℕ → ℕ) (f : Frame) (size : ℕ) (r : Route)
      → nf_accepts nf_ip_pre_routing (get_ethernet_hdr_payload f) ≡ true
      → l3rib_lookup_lpm shift_32 n.rt_table (dst_ip_of (get_ethernet_hdr_payload f)) ≡ some r
      → layer3_ip_pkt_recv_from_layer2 nf_accepts unset shift_32 n f size
        ≡ l3_route_packet nf_accepts unset n (get_ethernet_hdr_payload f) size (some r)
  unfolding layer3_ip_pkt_recv_from_layer2
  received_routed shift_32 f size r pre found = rw (pre, found) refl

  via_some :
      (r : Route) (ip : List ℕ) (size : ℕ) (a : Option Nexthop × Route) (nh : Nexthop)
      → ((h : NfHook) (p : List ℕ) → nf_accepts h p ≡ true)
      → a.0 ≡ some nh
      → (forward_via nf_accepts unset n r ip size a).1
        ≡ demoted (next_hop_of unset nh.gw_ip) (some (n.if_name nh.oif)) ip size
  unfolding forward_via
  via_some r ip size (none, r') nh accepts e = absurd (ground arith)
  via_some r ip size (some x, r') nh accepts e =
      let same : x ≡ nh = ground arith in
      rw (accepts nf_ip_forward ip, accepts nf_ip_post_routing ip)
        (ap (λ y. demoted (next_hop_of unset y.gw_ip) (some (n.if_name y.oif)) ip size) same)

  -- A packet with a TTL of at least 2, whose longest match is a route with nexthops and which the hooks
  -- accept, is handed to layer 2 for the interface of the route's nexthop in turn and its gateway.
  pub transit_sent :
      (shift_32 : ℕ → ℕ) (f : Frame) (size : ℕ) (r : Route) (l : List Nexthop) (nh : Nexthop)
      → ((h : NfHook) (p : List ℕ) → nf_accepts h p ≡ true)
      → l3rib_lookup_lpm shift_32 n.rt_table (dst_ip_of (get_ethernet_hdr_payload f)) ≡ some r
      → r.is_direct ≡ false
      → r.nexthops ≡ packed l
      → length l ≤ 4
      → get_elem? l r.nxthop_idx ≡ some nh
      → r.nxthop_idx < length l
      → 2 ≤ ttl_of (get_ethernet_hdr_payload f)
      → ttl_of (get_ethernet_hdr_payload f) < 256
      → (layer3_ip_pkt_recv_from_layer2 nf_accepts unset shift_32 n f size).1
        ≡ demoted
            (next_hop_of unset nh.gw_ip)
            (some (n.if_name nh.oif))
            (decrement_ttl (get_ethernet_hdr_payload f))
            size
  unfolding l3_route_packet l3_forward
  transit_sent shift_32 f size r l nh accepts found d e len at i lo hi =
      let ip = get_ethernet_hdr_payload f in
      let dec = decrement-ttl ip (omega arith) hi in
      let alive : (ttl_of (decrement_ttl ip) == 0) ≡ false = ground arith in
      let turn : (l3_route_get_active_nexthop r).0 ≡ some nh =
        (active_nexthop_turns r l d e len i).0 ∙ at in
      let routed = received_routed shift_32 f size r (accepts nf_ip_pre_routing ip) found in
      ap action
        (routed ∙ if_false r.is_direct _ _ d ∙ if_false (ttl_of (decrement_ttl ip) == 0) _ _ alive)
      ∙ via_some r (decrement_ttl ip) size (l3_route_get_active_nexthop r) nh accepts turn
