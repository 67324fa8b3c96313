-- ===== src/Layer2/Forward.antt =====
-- Layer2/layer2.c: IP packets that layer 3 hands down, from `demote_pkt_to_layer2` to the frame sent, the
-- ARP request made, or the packet handed back.
use networking_protocol_deve.Base.{
  ℕ, ◌+◌, Bool, true, false, ◌||◌, not, Option, none, some, List, [], ◌∷◌, ◌++◌, ◌==◌, ltb,
  if◌then◌else◌, length,
}
use networking_protocol_deve.Base.CString.{Chars, strncmp_eq}
use networking_protocol_deve.Net.{Interface, Slots, node_get_intf_by_name}
use networking_protocol_deve.Net.Ip.{tcp_ip_covert_ip_n_to_p}
use networking_protocol_deve.Layer2.Frame.{
  Frame, set_common_eth_fcs, sub32, u32, eth_hdr_size_excl_payload,
}
use networking_protocol_deve.Layer2.Arp.{
  ArpEntry, ArpPending, ArpTable, arp_table_lookup, update_arp_entry,
}
use networking_protocol_deve.Layer2.Arp.Resolve.{create_arp_sane_entry}
use networking_protocol_deve.Layer2.Arp.Message.{
  ArpSent, node_get_matching_subnet_interface, send_arp_broadcast_request,
}
pub mod Paths

-- What becomes of a packet: it waits while a request is sent, leaves by a slot, is handed to the node
-- itself or to its layer 3, or is
-- dropped.
pub data L2Forward : Type 0 where
  waits : List ArpSent → L2Forward
  leaves : ℕ → Frame → ℕ → L2Forward
  to_self : ℕ → Frame → ℕ → L2Forward
  to_layer3 : Frame → ℕ → L2Forward
  no_subnet : L2Forward
  other_protocol : L2Forward

-- what the functions read of the node
pub record L2Node : Type 0 where
  pub intf : Slots
  pub lo_addr : Chars
  pub arp_table : ArpTable

abbrev pub no_mac : Chars
no_mac = 0 ∷ 0 ∷ 0 ∷ 0 ∷ 0 ∷ 0 ∷ []

abbrev pub hit : ArpEntry → ArpEntry
hit e = record e { hit_count = e.hit_count + 1 }

-- the frame with its addresses, and the FCS cleared
unfoldable pub addressed : Chars → Chars → Frame → ℕ → Frame
unfolding set_common_eth_fcs
addressed dst_mac src_mac f pkt_size =
    set_common_eth_fcs (record f { dst_mac = dst_mac; src_mac = src_mac })
      (sub32 pkt_size eth_hdr_size_excl_payload)

-- the label `l2_frame_prepare`
unfoldable pub l2_frame_prepare :
    ArpTable → Chars → ArpEntry → ℕ → Interface → Frame → ℕ → ArpTable × L2Forward
l2_frame_prepare t ip e k oif f pkt_size =
    (update_arp_entry t ip hit, leaves k (addressed e.mac_addr oif.mac_add f pkt_size) pkt_size)

-- the packet is queued, and the address asked for
unfoldable pub resolve_out :
    (ℕ → ℕ) → L2Node → Chars → ℕ → Interface → Frame → ℕ → Option (ArpTable × L2Forward)
resolve_out shift_32 n ip k oif f pkt_size =
    elim (create_arp_sane_entry n.arp_table ip (record { pkt = f; pkt_size = pkt_size })) [
      | none ↦ none
      | some t ↦ some (t, waits (send_arp_broadcast_request shift_32 n.intf (some (k, oif)) ip))
    ]

-- `l2_forward_ip_packet` with an interface that layer 3 chose; it has to exist
unfoldable pub forward_out :
    (ℕ → ℕ) → L2Node → Chars → Chars → Frame → ℕ → Option (ArpTable × L2Forward)
unfolding resolve_out l2_frame_prepare
forward_out shift_32 n ip outgoing_intf f pkt_size =
    elim (node_get_intf_by_name n.intf outgoing_intf) [
      | none ↦ none
      | some (k, oif) ↦ elim (arp_table_lookup n.arp_table ip) [
        | none ↦ resolve_out shift_32 n ip k oif f pkt_size
        | some e ↦ some (l2_frame_prepare n.arp_table ip e k oif f pkt_size)
      ]
    ]

-- `l2_forward_ip_packet` without one, once the subnet's interface has been found
unfoldable pub forward_subnet :
    (ℕ → ℕ) → L2Node → Chars → ℕ → Interface → Frame → ℕ → Option (ArpTable × L2Forward)
unfolding resolve_out l2_frame_prepare
forward_subnet shift_32 n ip k oif f pkt_size =
    if strncmp_eq 16 oif.ip_add ip
    then some (n.arp_table, to_self k (addressed no_mac no_mac f pkt_size) pkt_size)
    else if strncmp_eq 16 ip n.lo_addr
    then some (n.arp_table, to_layer3 f pkt_size)
    else elim (arp_table_lookup n.arp_table ip) [
      | none ↦ resolve_out shift_32 n ip k oif f pkt_size
      | some e ↦
          if e.is_sane
          then resolve_out shift_32 n ip k oif f pkt_size
          else some (l2_frame_prepare n.arp_table ip e k oif f pkt_size)
    ]

-- `l2_forward_ip_packet`; a failed assertion is `none`
unfoldable pub l2_forward_ip_packet :
    (ℕ → ℕ) → L2Node → ℕ → Option Chars → Frame → ℕ → Option (ArpTable × L2Forward)
unfolding forward_out forward_subnet
l2_forward_ip_packet shift_32 n next_hop_ip (some outgoing_intf) f pkt_size =
    forward_out shift_32 n (tcp_ip_covert_ip_n_to_p next_hop_ip) outgoing_intf f pkt_size
l2_forward_ip_packet shift_32 n next_hop_ip none f pkt_size =
    let ip = tcp_ip_covert_ip_n_to_p next_hop_ip in
    elim (node_get_matching_subnet_interface shift_32 n.intf ip) [
      | none ↦
          if strncmp_eq 16 ip n.lo_addr
          then some (n.arp_table, to_layer3 f pkt_size)
          else some (n.arp_table, no_subnet)
      | some (k, oif) ↦ forward_subnet shift_32 n ip k oif f pkt_size
    ]

abbrev pub eth_ip : ℕ
eth_ip = 0x0800

-- TCP_IP_EXPAND_BUFFER_ETH_HDR: zeros before the packet, and behind it the FCS
unfoldable pub tcp_ip_expand_buffer_eth_hdr : List ℕ → Frame
unfolding set_common_eth_fcs
tcp_ip_expand_buffer_eth_hdr pkt =
    set_common_eth_fcs
      (record { dst_mac = no_mac; src_mac = no_mac; type = 0; rest = pkt ++ (0 ∷ 0 ∷ 0 ∷ 0 ∷ []) })
      (length pkt)

-- `demote_pkt_to_layer2`: a packet that does not fit the payload of a frame fails its assertion.
unfoldable pub demote_pkt_to_layer2 :
    (ℕ → ℕ) → L2Node → ℕ → Option Chars → List ℕ → ℕ → Option (ArpTable × L2Forward)
unfolding tcp_ip_expand_buffer_eth_hdr
demote_pkt_to_layer2 shift_32 n next_hop_ip outgoing_intf pkt protocol_number =
    if not (ltb (length pkt) 248)
    then none
    else if protocol_number == eth_ip
    then l2_forward_ip_packet shift_32 n next_hop_ip outgoing_intf
        (record (tcp_ip_expand_buffer_eth_hdr pkt) { type = eth_ip })
        (length pkt + eth_hdr_size_excl_payload)
    else some (n.arp_table, other_protocol)
