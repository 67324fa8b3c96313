-- ===== src/Layer2/Switch.antt =====
-- Layer2/l2switch.c and `layer2_frame_recv` of Layer2/layer2.c: the frames that a switch sends.
-- `none` is a failed assertion. `send_pkt_out` is the output: a port (a slot of the node), the
-- frame and its size. What the code prints is left out.
use networking_protocol_deve.Base.{
  ℕ, ◌+◌, Bool, true, false, ◌&&◌, ◌||◌, not, Option, none, some, List, [], ◌∷◌, ◌++◌, ◌==◌,
  if◌then◌else◌,
}
use networking_protocol_deve.Base.CString.{Chars}
use networking_protocol_deve.Net.{
  access, trunk, l2_mode_unknown, Interface, Slots, is_l2_mode, node_get_intf_by_name,
  get_access_intf_operating_vlan_id, is_trunk_interface_vlan_enabled,
}
use networking_protocol_deve.Layer2.Frame.{
  Frame, is_pkt_vlan_tagged, get_802_1q_vlan_id, tag_pkt_with_vlan_id, untag_pkt_with_vlan_id,
}
use networking_protocol_deve.Layer2.Qualify.{
  Verdict, is_mac_broadcast_addr, l2_frame_recv_qualify_on_interface,
}
use networking_protocol_deve.Layer2.MacTable.{
  MacTable, MacEntry, mac_table_lookup, l2_switch_perform_mac_learning,
}
pub mod Send
pub mod Isolation
pub mod Total

-- what `send_pkt_out` is given beside the interface
abbrev pub Sending : Type 0
Sending = Option (Frame × ℕ)

-- the cases of ACCESS mode, given the VLAN of the interface
unfoldable pub send_access : ℕ → Frame → ℕ → Sending
send_access intf_vlan_id f pkt_size =
    if (intf_vlan_id == 0) && not (is_pkt_vlan_tagged f)
    then some (f, pkt_size)
    else if not (intf_vlan_id == 0) && not (is_pkt_vlan_tagged f)
    then none
    else if is_pkt_vlan_tagged f && intf_vlan_id == get_802_1q_vlan_id f
    then some (untag_pkt_with_vlan_id f pkt_size)
    else none

-- the cases of TRUNK mode
unfoldable pub send_trunk : Interface → Frame → ℕ → Option Sending
send_trunk oif f pkt_size =
    let pkt_vlan_id : ℕ = if is_pkt_vlan_tagged f then get_802_1q_vlan_id f else 0 in
    if pkt_vlan_id == 0 then some none else elim (is_trunk_interface_vlan_enabled oif pkt_vlan_id) [
      | none ↦ none
      | some enabled ↦ some (if enabled then some (f, pkt_size) else none)
    ]

-- `l2_switch_send_pkt_out`: what is sent, if anything
unfoldable pub l2_switch_send_pkt_out : Frame → ℕ → Interface → Option Sending
unfolding send_access send_trunk
l2_switch_send_pkt_out f pkt_size oif =
    if oif.is_ipadd_config then none else elim oif.intf_l2_mode [
      | l2_mode_unknown ↦ some none
      | access ↦ elim (get_access_intf_operating_vlan_id oif) [
        | none ↦ none
        | some intf_vlan_id ↦ some (send_access intf_vlan_id f pkt_size)
      ]
      | trunk ↦ send_trunk oif f pkt_size
    ]

-- a frame out of a port
pub record Sent : Type 0 where
  pub port : ℕ
  pub frame : Frame
  pub size : ℕ

-- what one call of `l2_switch_send_pkt_out` on port `k` puts before the later outputs
unfoldable pub emit : ℕ → Option Sending → Option (List Sent) → Option (List Sent)
emit k none later = none
emit k (some s) none = none
emit k (some none) (some outs) = some outs
emit k (some (some (g, n))) (some outs) = some (record { port = k; frame = g; size = n } ∷ outs)

-- the call that the loop of `l2_switch_flood_pkt_out` makes for slot `k`
unfoldable pub flood_port : ℕ → Frame → ℕ → ℕ → Option Interface → Option Sending
flood_port exempted f pkt_size k none = some none
flood_port exempted f pkt_size k (some oif) =
    if k == exempted
    then some none
    else if not (is_l2_mode oif.intf_l2_mode)
    then some none
    else l2_switch_send_pkt_out f pkt_size oif

-- `l2_switch_flood_pkt_out` from slot `k` on; each port is given a fresh copy of the frame.
unfoldable pub flood_from : ℕ → Slots → ℕ → Frame → ℕ → Option (List Sent)
unfolding emit flood_port
flood_from k [] exempted f pkt_size = some []
flood_from k (s ∷ slots) exempted f pkt_size =
    emit k (flood_port exempted f pkt_size k s) (flood_from (k + 1) slots exempted f pkt_size)

-- the interface that a table entry names, and the frame sent out of it
unfoldable pub forward_to : Slots → MacEntry → Frame → ℕ → Option (List Sent)
unfolding emit
forward_to slots e f pkt_size = elim (node_get_intf_by_name slots e.oif_name) [
  | none ↦ some []
  | some (k, oif) ↦ emit k (l2_switch_send_pkt_out f pkt_size oif) (some [])
]

-- `l2_switch_forward_frame`
unfoldable pub l2_switch_forward_frame : Slots → MacTable → ℕ → Frame → ℕ → Option (List Sent)
unfolding flood_from forward_to
l2_switch_forward_frame slots t recv_intf f pkt_size =
    if is_mac_broadcast_addr f.dst_mac
    then flood_from 0 slots recv_intf f pkt_size
    else elim (mac_table_lookup t f.dst_mac) [
      | none ↦ flood_from 0 slots recv_intf f pkt_size
      | some e ↦ forward_to slots e f pkt_size
    ]

-- What becomes of a frame: dropped, handed to the layers above, or switched with a new MAC table.
pub data Outcome : Type 0 where
  dropped : Outcome
  promoted : Frame → ℕ → Outcome
  switched : MacTable → List Sent → Outcome

-- `l2_switch_recv_frame` on the interface `iif`, in slot `k`
unfoldable pub l2_switch_recv_frame : Slots → MacTable → ℕ → Interface → Frame → ℕ → Option Outcome
l2_switch_recv_frame slots t k iif f pkt_size =
    let t' = l2_switch_perform_mac_learning t f.src_mac iif.if_name in
    elim (l2_switch_forward_frame slots t' k f pkt_size) [
      | none ↦ none
      | some outs ↦ some (switched t' outs)
    ]

-- `layer2_frame_recv` once the frame qualifies, with the VLAN to tag it with
unfoldable pub recv_qualified : Slots → MacTable → ℕ → Interface → Frame → ℕ → ℕ → Option Outcome
recv_qualified slots t k iif f pkt_size vlan_id_to_tag =
    if iif.is_ipadd_config
    then some (promoted f pkt_size)
    else if not (is_l2_mode iif.intf_l2_mode)
    then some dropped
    else if vlan_id_to_tag == 0
    then l2_switch_recv_frame slots t k iif f pkt_size
    else (let (g, new_pkt_size) = tag_pkt_with_vlan_id f pkt_size vlan_id_to_tag in
        if new_pkt_size == pkt_size
        then none
        else l2_switch_recv_frame slots t k iif g new_pkt_size)

-- `layer2_frame_recv` on the interface `iif`, in slot `k`
unfoldable pub layer2_frame_recv : Slots → MacTable → ℕ → Interface → Frame → ℕ → Option Outcome
layer2_frame_recv slots t k iif f pkt_size = elim (l2_frame_recv_qualify_on_interface iif f) [
  | none ↦ none
  | some v ↦
      if v.accepted then recv_qualified slots t k iif f pkt_size v.output_vlan_id else some dropped
]
