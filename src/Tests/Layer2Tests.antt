-- ===== src/Tests/Layer2Tests.antt =====
-- A switch with an access port of VLAN 10, a trunk, an access port of VLAN 11 and one more access
-- port of VLAN 10.
use networking_protocol_deve.Base.{
  ℕ, ◌≡◌, ◌≢◌, ◌↔◌, refl, true, false, none, some, List, [], ◌∷◌, All, arith,
}
use networking_protocol_deve.Base.CString.{strncmp_eq, prefix}
use networking_protocol_deve.Net.{
  L2Mode, access, trunk, Interface, Slots, get_access_intf_operating_vlan_id,
  is_trunk_interface_vlan_enabled,
}
use networking_protocol_deve.Layer2.Frame.{
  Frame, is_pkt_vlan_tagged, get_802_1q_vlan_id, tag_pkt_with_vlan_id, untag_pkt_with_vlan_id,
}
use networking_protocol_deve.Layer2.Frame.Tag.{IsUntagged, clear_fcs, untag-tag}
use networking_protocol_deve.Layer2.Qualify.{
  is_mac_broadcast_addr, l2_frame_recv_qualify_on_interface,
}
use networking_protocol_deve.Layer2.Qualify.Accepts.{Accepts, verdict, qualify_iff}
use networking_protocol_deve.Layer2.MacTable.{
  MacEntry, mac_size, mac_table_lookup, mac_table_entry_add, l2_switch_perform_mac_learning,
}
use networking_protocol_deve.Layer2.MacTable.Learning.{Unique, add-Unique, lookup-learning}
use networking_protocol_deve.Layer2.Switch.{
  Sent, switched, l2_switch_send_pkt_out, flood_from, layer2_frame_recv, recv_qualified,
  l2_switch_recv_frame, l2_switch_forward_frame,
}
use networking_protocol_deve.Layer2.Switch.Send.{Sends, send_iff}
use networking_protocol_deve.Layer2.Switch.Isolation.{Within, recv_isolates}
use networking_protocol_deve.Layer2.Switch.Total.{recv_total}

abbrev port : ℕ → L2Mode → List ℕ → Interface
port name mode vlans = record {
  if_name = name ∷ [];
  is_up = true;
  ifindex = name;
  mac_add = 1 ∷ 2 ∷ 3 ∷ 4 ∷ 5 ∷ name ∷ [];
  intf_l2_mode = mode;
  vlans = vlans;
  is_ipadd_config = false;
  is_ipadd_config_backup = false;
  ip_add = [];
  mask = 0;
}

abbrev one_vlan : ℕ → List ℕ
one_vlan v = v ∷ 0 ∷ 0 ∷ 0 ∷ 0 ∷ 0 ∷ 0 ∷ 0 ∷ 0 ∷ 0 ∷ []

abbrev port_a : Interface
port_a = port b'a' access (one_vlan 10)

abbrev port_b : Interface
port_b = port b'b' trunk (11 ∷ 10 ∷ 0 ∷ 0 ∷ 0 ∷ 0 ∷ 0 ∷ 0 ∷ 0 ∷ 0 ∷ [])

abbrev port_c : Interface
port_c = port b'c' access (one_vlan 11)

abbrev port_d : Interface
port_d = port b'd' access (one_vlan 10)

abbrev slots : Slots
slots = some port_a ∷ some port_b ∷ some port_c ∷ some port_d ∷ none ∷ []

-- an IP frame with two bytes of payload
abbrev frame : Frame
frame = record {
  dst_mac = 7 ∷ 7 ∷ 7 ∷ 7 ∷ 7 ∷ 7 ∷ [];
  src_mac = 8 ∷ 8 ∷ 8 ∷ 8 ∷ 8 ∷ 8 ∷ [];
  type = 0x0800;
  rest = 1 ∷ 2 ∷ 0 ∷ 0 ∷ 0 ∷ 0 ∷ [];
}

frame-IsUntagged : IsUntagged frame 20
unfolding is_pkt_vlan_tagged
frame-IsUntagged = record {
  plain = refl;
  type_fits = omega arith;
  size_fits = omega arith;
  header_fits = omega arith;
}

abbrev tagged_10 : Frame
tagged_10 = record frame { type = 0x8100; rest = 160 ∷ 0 ∷ 0 ∷ 8 ∷ 1 ∷ 2 ∷ 0 ∷ 0 ∷ 0 ∷ 0 ∷ [] }

tagging_runs : tag_pkt_with_vlan_id frame 20 10 ≡ (tagged_10, 24)
unfolding tag_pkt_with_vlan_id
tagging_runs = refl

-- a frame of VLAN 10 is flooded to the trunk and to the other port of its VLAN
flood_runs :
    layer2_frame_recv slots [] 0 port_a frame 20
    ≡ some (
        switched (record { mac = frame.src_mac; oif_name = b'a' ∷ [] } ∷ []) (
          record { port = 1; frame = tagged_10; size = 24 }
          ∷ record { port = 3; frame = frame; size = 20 }
          ∷ []))
unfolding layer2_frame_recv recv_qualified l2_switch_recv_frame l2_switch_forward_frame
    l2_frame_recv_qualify_on_interface is_mac_broadcast_addr mac_table_lookup
    l2_switch_perform_mac_learning tag_pkt_with_vlan_id untag_pkt_with_vlan_id
    l2_switch_send_pkt_out get_access_intf_operating_vlan_id is_trunk_interface_vlan_enabled
    get_802_1q_vlan_id strncmp_eq
flood_runs = refl

untag-tag_example :
    (let (g, n) = tag_pkt_with_vlan_id frame 20 10 in untag_pkt_with_vlan_id g n)
    ≡ (clear_fcs frame 20, 20)
untag-tag_example = untag-tag 10 frame-IsUntagged

qualify_iff_example :
    (l2_frame_recv_qualify_on_interface port_a frame ≢ none)
    × ((l2_frame_recv_qualify_on_interface port_a frame ≡ some (verdict 10))
        ↔ Accepts port_a frame 10)
qualify_iff_example = qualify_iff port_a frame 10

add-Unique_example :
    Unique (mac_table_entry_add [] (record { mac = 1 ∷ []; oif_name = b'a' ∷ [] })).0
add-Unique_example = add-Unique [] (record { mac = 1 ∷ []; oif_name = b'a' ∷ [] }) tt

lookup-learning_example :
    let t = l2_switch_perform_mac_learning [] (8 ∷ 9 ∷ []) (b'a' ∷ []) in
    (strncmp_eq mac_size (8 ∷ 9 ∷ []) (8 ∷ 9 ∷ []) ≡ true
      → (e : MacEntry) × (mac_table_lookup t (8 ∷ 9 ∷ []) ≡ some e)
        × (strncmp_eq 16 e.oif_name (prefix 15 (b'a' ∷ [])) ≡ true))
    × (strncmp_eq mac_size (8 ∷ 9 ∷ []) (8 ∷ 9 ∷ []) ≡ false
        → mac_table_lookup t (8 ∷ 9 ∷ []) ≡ mac_table_lookup [] (8 ∷ 9 ∷ []))
lookup-learning_example = lookup-learning [] (8 ∷ 9 ∷ []) (b'a' ∷ []) (8 ∷ 9 ∷ [])

send_iff_example :
    (l2_switch_send_pkt_out tagged_10 24 port_d ≢ none)
    × ((l2_switch_send_pkt_out tagged_10 24 port_d ≡ some (some (frame, 20)))
        ↔ Sends port_d tagged_10 24 frame 20)
send_iff_example = send_iff port_d tagged_10 24 refl frame 20

abbrev flooded : List Sent
flooded =
    record { port = 1; frame = tagged_10; size = 24 }
    ∷ record { port = 3; frame = frame; size = 20 }
    ∷ []

tagged_flood : flood_from 0 slots 0 tagged_10 24 ≡ some flooded
unfolding flood_from l2_switch_send_pkt_out get_access_intf_operating_vlan_id
    is_trunk_interface_vlan_enabled get_802_1q_vlan_id untag_pkt_with_vlan_id
tagged_flood = refl

recv_isolates_example : All (Within 10 slots frame 20) flooded
recv_isolates_example =
    recv_isolates slots [] 0 port_a 10 refl refl refl (omega arith) (omega arith) frame-IsUntagged
      flood_runs

recv_total_example : layer2_frame_recv slots [] 0 port_a frame 20 ≢ none
recv_total_example =
    recv_total slots [] 0 port_a frame 20 (refl, (refl, (refl, (refl, tt)))) (omega arith)
