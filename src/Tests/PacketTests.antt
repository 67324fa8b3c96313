-- ===== src/Tests/PacketTests.antt =====
-- A packet to 10.1.2.3 with a TTL of 64, through a router with one route by a gateway.
use networking_protocol_deve.Base.{
  ℕ, ◌+◌, ◌≤◌, ◌<◌, ◌≡◌, refl, ap, Bool, true, false, some, List, [], ◌∷◌, arith, length, take,
  drop,
}
use networking_protocol_deve.Base.CString.{strncmp_eq, prefix}
use networking_protocol_deve.Net.Ip.{
  octet_chars, tcp_ip_covert_ip_n_to_p, tcp_ip_covert_ip_p_to_n, inet_pton, pton_loop, pton_step,
  pton_digit, apply_mask, mask_bits,
}
use networking_protocol_deve.Layer2.Frame.{Frame, is_pkt_vlan_tagged}
use networking_protocol_deve.Layer2.Arp.Message.{get_ethernet_hdr_payload}
use networking_protocol_deve.Layer3.Nexthops.{Nexthop}
use networking_protocol_deve.Layer3.Nexthops.Sorted.{packed}
use networking_protocol_deve.Layer3.RtTable.{
  Route, RtTable, l3_route_get_active_nexthop, l3rib_lookup_lpm, lpm_loop, lpm_round, lpm_match,
}
use networking_protocol_deve.Layer3.Packet.{
  NfHook, L3Node, demoted, ttl_of, ihl_of, protocol_of, dst_ip_of, decrement_ttl,
  layer3_ip_pkt_recv_from_layer2, next_hop_of,
}
use networking_protocol_deve.Layer3.Demote.{demote_packet_to_layer3, total_len_in_bytes}
use networking_protocol_deve.Layer3.Demote.Datagram.{demote_packet-sent}
use networking_protocol_deve.Layer3.Packet.Ttl.{forwarded_ttl, transit_sent}

abbrev shift_keeps : ℕ → ℕ
shift_keeps x = x

abbrev accepts_all : NfHook → List ℕ → Bool
accepts_all h p = true

abbrev gateway : Nexthop
gateway = record {
  gw_ip = tcp_ip_covert_ip_n_to_p 167772162;
  oif = 1;
  ref_count = 1;
  ifindex = 0;
  hit_count = 0;
}

abbrev route : Route
route = record {
  dest = tcp_ip_covert_ip_n_to_p 167837696;
  mask = 16;
  is_direct = false;
  nexthops = packed (gateway ∷ []);
  spf_metric = 1;
  nxthop_idx = 0;
}

abbrev node : L3Node
node = record {
  intf = [];
  lo_addr = tcp_ip_covert_ip_n_to_p 1;
  if_name = λ k. k ∷ [];
  rt_table = record { routes = route ∷ []; notices = [] };
}

-- version and length, TTL 64, protocol 1, source 10.0.0.1, destination 10.1.2.3
abbrev header : List ℕ
header =
    84 ∷ 0 ∷ 5 ∷ 0 ∷ 0 ∷ 0 ∷ 2 ∷ 0 ∷ 64 ∷ 1 ∷ 0 ∷ 0 ∷ 1 ∷ 0 ∷ 0 ∷ 10 ∷ 3 ∷ 2 ∷ 1 ∷ 10 ∷ 0 ∷ 0 ∷ 0
    ∷ 0 ∷ []

abbrev frame : Frame
frame = record { dst_mac = []; src_mac = []; type = 2048; rest = header }

ttl_is : ttl_of (get_ethernet_hdr_payload frame) ≡ 64
unfolding get_ethernet_hdr_payload is_pkt_vlan_tagged
ttl_is = refl

abbrev size : ℕ
size = 38

lookup_runs :
    l3rib_lookup_lpm shift_keeps node.rt_table (dst_ip_of (get_ethernet_hdr_payload frame))
    ≡ some route
unfolding l3rib_lookup_lpm lpm_loop lpm_round lpm_match get_ethernet_hdr_payload is_pkt_vlan_tagged
    apply_mask mask_bits tcp_ip_covert_ip_n_to_p tcp_ip_covert_ip_p_to_n inet_pton octet_chars
    pton_loop pton_step pton_digit strncmp_eq prefix
lookup_runs = refl

transit_runs :
    (layer3_ip_pkt_recv_from_layer2 accepts_all 0 shift_keeps node frame 38).1
    ≡ demoted
        (next_hop_of 0 gateway.gw_ip)
        (some (1 ∷ []))
        (decrement_ttl (get_ethernet_hdr_payload frame))
        38
transit_runs =
    transit_sent accepts_all 0 node shift_keeps frame 38 route (gateway ∷ []) gateway (λ h p. refl)
      lookup_runs refl refl (omega arith) refl (omega arith) (omega (arith, ttl_is))
      (omega (arith, ttl_is))

abbrev table_after : RtTable
table_after = (layer3_ip_pkt_recv_from_layer2 accepts_all 0 shift_keeps node frame 38).0

forwarded_ttl_example :
    (ttl_of (decrement_ttl (get_ethernet_hdr_payload frame)) + 1
      ≡ ttl_of (get_ethernet_hdr_payload frame))
    × (1 ≤ ttl_of (decrement_ttl (get_ethernet_hdr_payload frame)))
    × (dst_ip_of (decrement_ttl (get_ethernet_hdr_payload frame))
        ≡ dst_ip_of (get_ethernet_hdr_payload frame))
    × (size ≡ size)
forwarded_ttl_example =
    forwarded_ttl accepts_all 0 node shift_keeps frame 38 table_after (next_hop_of 0 gateway.gw_ip)
      (1 ∷ []) (decrement_ttl (get_ethernet_hdr_payload frame)) 38 (omega (arith, ttl_is))
      (omega (arith, ttl_is)) (ap (λ a. (table_after, a)) transit_runs)

abbrev payload : List ℕ
payload = 1 ∷ 2 ∷ 3 ∷ []

route_of_host : l3rib_lookup_lpm shift_keeps node.rt_table 167838211 ≡ some route
unfolding l3rib_lookup_lpm lpm_loop lpm_round lpm_match apply_mask mask_bits tcp_ip_covert_ip_n_to_p
    tcp_ip_covert_ip_p_to_n inet_pton octet_chars pton_loop pton_step pton_digit strncmp_eq prefix
route_of_host = refl

active_gateway : l3_route_get_active_nexthop route ≡ (some gateway, route)
unfolding l3_route_get_active_nexthop
active_gateway = refl

gateway_text : inet_pton gateway.gw_ip ≡ some 167772162
unfolding tcp_ip_covert_ip_n_to_p inet_pton octet_chars pton_loop pton_step pton_digit
gateway_text = refl

demote_packet-sent_example :
    (new_pkt : List ℕ) × ((demote_packet_to_layer3 accepts_all 0 shift_keeps node payload 1
        167838211).1
      ≡ demoted 167772162 (some (1 ∷ [])) new_pkt (length new_pkt))
    × (length new_pkt < 248)
    × (ihl_of new_pkt ≡ 5)
    × (ttl_of new_pkt ≡ 64)
    × (protocol_of new_pkt ≡ 1)
    × (dst_ip_of new_pkt ≡ 167838211)
    × (length new_pkt ≡ total_len_in_bytes new_pkt)
    × (take 3 (drop 20 new_pkt) ≡ payload)
demote_packet-sent_example =
    demote_packet-sent accepts_all 0 shift_keeps node payload 1 167838211 route route gateway
      167772162 (omega arith) (omega arith) (omega arith) route_of_host refl active_gateway
      gateway_text (λ q. refl)
