-- ===== src/Layer3/Packet.antt =====
-- Layer3/layer3.c: an IP packet on its way through layer 3. The verdicts of the netfilter hooks, which
-- applications register, are a parameter; an IP header is the bytes of a packed `ip_hdr_t`.
use networking_protocol_deve.Base.{
  ℕ, ◌+◌, ◌-◌, ◌*◌, ◌%◌, ◌/◌, ◌^◌, Bool, true, false, ◌&&◌, ◌||◌, not, Option, none, some, List, [],
  ◌∷◌, ◌==◌, if◌then◌else◌, get_or, set, drop, ltb,
}
use networking_protocol_deve.Base.CString.{Chars, strncmp_eq}
use networking_protocol_deve.Net.{Interface, Slots}
use networking_protocol_deve.Net.Ip.{tcp_ip_covert_ip_n_to_p, inet_pton}
use networking_protocol_deve.Layer2.Frame.{Frame}
use networking_protocol_deve.Layer2.Arp.Message.{get_ethernet_hdr_payload, long_at}
use networking_protocol_deve.Layer3.Nexthops.{Nexthop}
use networking_protocol_deve.Layer3.RtTable.{
  Route, RtTable, update_route, l3_route_get_active_nexthop, l3rib_lookup_lpm,
}
pub mod Ttl

-- the hooks that this code calls
pub data NfHook : Type 0 where
  nf_ip_pre_routing nf_ip_forward nf_ip_post_routing nf_ip_local_out : NfHook

-- MTCP, ICMP_PRO and IP_IN_IP
abbrev pub mtcp : ℕ
mtcp = 20

abbrev pub ip_in_ip : ℕ
ip_in_ip = 4

-- what the functions read of the node; `if_name` names the interfaces that nexthops point to
pub record L3Node : Type 0 where
  pub intf : Slots
  pub lo_addr : Chars
  pub if_name : ℕ → Chars
  pub rt_table : RtTable

-- What becomes of a packet: dropped, delivered on this node (to layer 4 as well, or not), taken out of the
-- tunnel that ends here and received again, or handed to layer 2 with a next hop, an interface,
-- the bytes from the IP header on and the size.
pub data L3Action : Type 0 where
  dropped : L3Action
  delivered : Bool → L3Action
  received_again : List ℕ → ℕ → L3Action
  demoted : ℕ → Option Chars → List ℕ → ℕ → L3Action

-- The loop of `is_layer3_local_delivery` over the interfaces; it ends at the first free slot.
unfoldable pub is_local_from : Slots → Chars → Bool
is_local_from [] dest_ip_str = false
is_local_from (none ∷ slots) dest_ip_str = false
is_local_from (some i ∷ slots) dest_ip_str =
    (i.is_ipadd_config && strncmp_eq 16 i.ip_add dest_ip_str) || is_local_from slots dest_ip_str

-- `is_layer3_local_delivery`
unfoldable pub is_layer3_local_delivery : L3Node → ℕ → Bool
is_layer3_local_delivery n dst_ip =
    let dest_ip_str = tcp_ip_covert_ip_n_to_p dst_ip in
    strncmp_eq 16 n.lo_addr dest_ip_str || is_local_from n.intf dest_ip_str

-- fields of the IP header
abbrev pub ihl_of : List ℕ → ℕ
ihl_of ip = get_or ip 0 0 / 16

-- a signed `short`, taken to 32 bits
abbrev pub total_length_of : List ℕ → ℕ
total_length_of ip =
    let w = get_or ip 2 0 + 256 * get_or ip 3 0 in if ltb w (2 ^ 15) then w else w + 2 ^ 32 - 2 ^ 16

abbrev pub ttl_of : List ℕ → ℕ
ttl_of ip = get_or ip 8 0

abbrev pub protocol_of : List ℕ → ℕ
protocol_of ip = get_or ip 9 0

abbrev pub dst_ip_of : List ℕ → ℕ
dst_ip_of ip = long_at ip 16

-- `ttl--` on a byte
unfoldable pub decrement_ttl : List ℕ → List ℕ
decrement_ttl ip = set ip 8 ((ttl_of ip + 255) % 256)

-- the route changed in place; a table has at most one route for a key
abbrev pub store_route : RtTable → Route → Route → RtTable
store_route t old new = record t { routes = update_route t.routes old.dest old.mask (λ _. new) }

-- the hit of a nexthop, counted in the array of its route
abbrev pub count_hit : ℕ → Nexthop → Route → Route
count_hit i nh r = record r {
  nexthops = set r.nexthops i (some (record nh { hit_count = nh.hit_count + 1 }));
}

-- case 1: the packet is for this node
unfoldable pub l3_deliver : List ℕ → L3Action
l3_deliver ip =
    if protocol_of ip == mtcp
    then delivered true
    else if protocol_of ip == ip_in_ip
    then received_again (drop (ihl_of ip * 4) ip)
        ((total_length_of ip * 4 + 2 ^ 32 - ihl_of ip * 4) % 2 ^ 32)
    else delivered false

-- a variable that `inet_pton` writes, or not
abbrev pub written_or : ℕ → Option ℕ → ℕ
written_or unset none = unset
written_or unset (some n) = n

-- The gateway as a number. What `inet_pton` does not accept leaves `next_hop_ip` as it was, without a
-- value: `unset` stands for what is read.
unfoldable pub next_hop_of : ℕ → Chars → ℕ
next_hop_of unset gw_ip = written_or unset (inet_pton gw_ip)

module _ (nf_accepts : NfHook → List ℕ → Bool) (unset : ℕ) where
  -- Case 3 behind the TTL: the nexthop and its hooks.
  unfoldable pub forward_via :
      L3Node → Route → List ℕ → ℕ → Option Nexthop × Route → RtTable × L3Action
  forward_via n r ip pkt_size (none, r') = (n.rt_table, dropped)
  forward_via n r ip pkt_size (some nexthop, r') =
      if nf_accepts nf_ip_forward ip && nf_accepts nf_ip_post_routing ip
      then (
        store_route n.rt_table r (count_hit r.nxthop_idx nexthop r'),
        demoted (next_hop_of unset nexthop.gw_ip) (some (n.if_name nexthop.oif)) ip pkt_size,
      )
      else (store_route n.rt_table r r', dropped)

  -- case 3: the packet goes to the next router
  unfoldable pub l3_forward : L3Node → Route → List ℕ → ℕ → RtTable × L3Action
  l3_forward n r ip_hdr pkt_size =
      let ip = decrement_ttl ip_hdr in
      if ttl_of ip == 0
      then (n.rt_table, dropped)
      else forward_via n r ip pkt_size (l3_route_get_active_nexthop r)

  -- `layer3_ip_pkt_recv_from_layer2` behind the lookup
  unfoldable pub l3_route_packet : L3Node → List ℕ → ℕ → Option Route → RtTable × L3Action
  l3_route_packet n ip pkt_size none = (n.rt_table, dropped)
  l3_route_packet n ip pkt_size (some r) =
      if r.is_direct
      then (
        n.rt_table,
        if is_layer3_local_delivery n (dst_ip_of ip)
            then l3_deliver ip
            else demoted 0 none ip pkt_size,
      )
      else l3_forward n r ip pkt_size

  -- `layer3_ip_pkt_recv_from_layer2`
  unfoldable pub layer3_ip_pkt_recv_from_layer2 : (ℕ → ℕ) → L3Node → Frame → ℕ → RtTable × L3Action
  layer3_ip_pkt_recv_from_layer2 shift_32 n f pkt_size =
      let ip = get_ethernet_hdr_payload f in
      if not (nf_accepts nf_ip_pre_routing ip)
      then (n.rt_table, dropped)
      else l3_route_packet n ip pkt_size (l3rib_lookup_lpm shift_32 n.rt_table (dst_ip_of ip))
