-- ===== src/Layer2/Qualify.antt =====
-- Layer2/layer2.h: `l2_frame_recv_qualify_on_interface`, which frames an interface accepts.
use networking_protocol_deve.Base.{
  ℕ, Bool, true, false, ◌&&◌, not, Option, none, some, List, [], ◌∷◌, ◌==◌, if◌then◌else◌, get_or,
}
use networking_protocol_deve.Base.CString.{Chars}
use networking_protocol_deve.Net.{
  L2Mode, access, trunk, l2_mode_unknown, Interface, is_access, is_trunk,
  get_access_intf_operating_vlan_id, is_trunk_interface_vlan_enabled,
}
use networking_protocol_deve.Layer2.Frame.{Frame, is_pkt_vlan_tagged, get_802_1q_vlan_id}
pub mod Accepts

-- `memcmp (a, b, 6) == 0` on two addresses
unfoldable pub same_mac : Chars → Chars → Bool
same_mac [] [] = true
same_mac [] (_ ∷ _) = false
same_mac (_ ∷ _) [] = false
same_mac (x ∷ xs) (y ∷ ys) = if x == y then same_mac xs ys else false

-- IS_MAC_BROADCAST_ADDR
unfoldable pub is_mac_broadcast_addr : Chars → Bool
is_mac_broadcast_addr mac =
    (get_or mac 0 0 == 0xFF)
    && (get_or mac 1 0 == 0xFF)
    && (get_or mac 2 0 == 0xFF)
    && (get_or mac 3 0 == 0xFF)
    && (get_or mac 4 0 == 0xFF)
    && (get_or mac 5 0 == 0xFF)

-- The verdict and `*output_vlan_id`.
pub record Verdict : Type 0 where
  pub accepted : Bool
  pub output_vlan_id : ℕ

abbrev pub reject : Verdict
reject = record { accepted = false; output_vlan_id = 0 }

abbrev pub accept : Verdict
accept = record { accepted = true; output_vlan_id = 0 }

abbrev pub accept_and_tag : ℕ → Verdict
accept_and_tag vlan_id = record { accepted = true; output_vlan_id = vlan_id }

-- the tests from the one on TRUNK on; `none` is a failed assertion
unfoldable pub qualify_trunk_or_l3 : Interface → Frame → Option Verdict
qualify_trunk_or_l3 i f =
    if is_trunk i.intf_l2_mode && not (is_pkt_vlan_tagged f)
    then some reject
    else if is_trunk i.intf_l2_mode && is_pkt_vlan_tagged f
    then elim (is_trunk_interface_vlan_enabled i (get_802_1q_vlan_id f)) [
      | none ↦ none
      | some enabled ↦ some (if enabled then accept else reject)
    ]
    else if i.is_ipadd_config && is_pkt_vlan_tagged f
    then some reject
    else if i.is_ipadd_config && same_mac i.mac_add f.dst_mac
    then some accept
    else if i.is_ipadd_config && is_mac_broadcast_addr f.dst_mac
    then some accept
    else some reject

-- the tests in ACCESS mode, given the VLAN of the interface
unfoldable pub qualify_access : ℕ → Frame → Verdict
qualify_access intf_vlan_id f =
    if intf_vlan_id == 0
    then (if is_pkt_vlan_tagged f then reject else accept)
    else if not (is_pkt_vlan_tagged f) && not (intf_vlan_id == 0)
    then accept_and_tag intf_vlan_id
    else if not (is_pkt_vlan_tagged f) && intf_vlan_id == 0
    then accept
    else if get_802_1q_vlan_id f == intf_vlan_id
    then accept
    else reject

abbrev is_unknown : L2Mode → Bool
is_unknown access = false
is_unknown trunk = false
is_unknown l2_mode_unknown = true

-- `l2_frame_recv_qualify_on_interface`; `none` is a failed assertion.
unfoldable pub l2_frame_recv_qualify_on_interface : Interface → Frame → Option Verdict
unfolding qualify_trunk_or_l3 qualify_access
l2_frame_recv_qualify_on_interface i f =
    if not i.is_ipadd_config && is_unknown i.intf_l2_mode
    then some reject
    else if is_access i.intf_l2_mode
    then elim (get_access_intf_operating_vlan_id i) [
      | none ↦ none
      | some intf_vlan_id ↦ some (qualify_access intf_vlan_id f)
    ]
    else qualify_trunk_or_l3 i f
