-- ===== src/Layer3/Demote.antt =====
-- Layer3/layer3.c: a payload of layer 4 or 5 on its way down through layer 3.
use networking_protocol_deve.Base.{
  ℕ, ◌+◌, ◌-◌, ◌*◌, ◌%◌, ◌/◌, ◌^◌, Bool, true, false, Option, none, some, List, [], ◌∷◌, ◌++◌, ◌==◌,
  if◌then◌else◌, length, ltb, drop, replicate,
}
use networking_protocol_deve.Base.CString.{Chars}
use networking_protocol_deve.Net.Ip.{tcp_ip_covert_ip_p_to_n}
use networking_protocol_deve.Layer2.Arp.Message.{bytes_of_long}
use networking_protocol_deve.Layer3.Nexthops.{Nexthop}
use networking_protocol_deve.Layer3.RtTable.{
  Route, RtTable, l3_route_get_active_nexthop, l3rib_lookup_lpm,
}
use networking_protocol_deve.Layer3.Packet.{
  L3Node, L3Action, dropped, demoted, store_route, count_hit, total_length_of, NfHook, next_hop_of,
  nf_ip_local_out,
}
pub mod Datagram

-- IP_HDR_COMPUTE_DEFAULT_TOTAL_LEN, as the 16 bits that a `short` keeps
unfoldable pub compute_default_total_len : ℕ → ℕ
compute_default_total_len size = (5 + size / 4 + (if size % 4 == 0 then 0 else 1)) % 2 ^ 16

-- `initialize_ip_hdr` and the assignments that follow it, as bytes
unfoldable pub ip_header : ℕ → ℕ → ℕ → ℕ → List ℕ
unfolding compute_default_total_len
ip_header protocol_number src_ip dst_ip size =
    let total_length = compute_default_total_len size in
    84
    ∷ 0
    ∷ total_length % 256
    ∷ total_length / 256
    ∷ 0
    ∷ 0
    ∷ 2
    ∷ 0
    ∷ 64
    ∷ protocol_number % 256
    ∷ 0
    ∷ 0
    ∷ (bytes_of_long src_ip ++ bytes_of_long dst_ip)

-- IP_HDR_TOTAL_LEN_IN_BYTES
unfoldable pub total_len_in_bytes : List ℕ → ℕ
total_len_in_bytes iphdr = total_length_of iphdr * 4 % 2 ^ 32

-- The packet: the header, the payload, and the rest of the buffer that `calloc` filled with 0.
unfoldable pub build_packet : L3Node → List ℕ → ℕ → ℕ → List ℕ
build_packet n pkt protocol_number dest_ip_address =
    let iphdr =
      ip_header protocol_number (tcp_ip_covert_ip_p_to_n n.lo_addr) dest_ip_address (length pkt) in
    iphdr ++ pkt ++ replicate (total_len_in_bytes iphdr - 20 - length pkt) 0

module _ (nf_accepts : NfHook → List ℕ → Bool) (unset : ℕ) where
  -- the part behind the choice of a nexthop
  unfoldable pub demote_via :
      L3Node → Route → List ℕ → ℕ → Option Nexthop × Route → RtTable × L3Action
  demote_via n r new_pkt new_pkt_size (none, r') = (n.rt_table, dropped)
  demote_via n r new_pkt new_pkt_size (some nexthop, r') =
      if nf_accepts nf_ip_local_out new_pkt
      then (
        store_route n.rt_table r (count_hit r.nxthop_idx nexthop r'),
        demoted (next_hop_of unset nexthop.gw_ip) (some (n.if_name nexthop.oif)) new_pkt
            new_pkt_size,
      )
      else (store_route n.rt_table r r', dropped)

  -- the part behind the lookup
  unfoldable pub demote_routed : L3Node → List ℕ → ℕ → ℕ → Option Route → RtTable × L3Action
  demote_routed n new_pkt new_pkt_size dest_ip_address none = (n.rt_table, dropped)
  demote_routed n new_pkt new_pkt_size dest_ip_address (some r) =
      if r.is_direct
      then (
        n.rt_table,
        if nf_accepts nf_ip_local_out new_pkt
            then demoted dest_ip_address none new_pkt new_pkt_size
            else dropped,
      )
      else demote_via n r new_pkt new_pkt_size (l3_route_get_active_nexthop r)

  -- `demote_packet_to_layer3`; a payload that is NULL has no bytes
  unfoldable pub demote_packet_to_layer3 : (ℕ → ℕ) → L3Node → List ℕ → ℕ → ℕ → RtTable × L3Action
  demote_packet_to_layer3 shift_32 n pkt protocol_number dest_ip_address =
      let new_pkt = build_packet n pkt protocol_number dest_ip_address in
      demote_routed n new_pkt (total_len_in_bytes new_pkt) dest_ip_address
        (l3rib_lookup_lpm shift_32 n.rt_table dest_ip_address)
