-- ===== src/Layer2/Qualify/Accepts.antt =====
-- The cases of the acceptance rule as a relation, and that the code decides it.
use networking_protocol_deve.Base.{
  ℕ, ◌≡◌, ◌≢◌, ◌↔◌, ◌⊎◌, inl, inr, true, false, none, some, arith, get_or, ◌==◌, Bool-cases,
}
use networking_protocol_deve.Net.{
  access, trunk, l2_mode_unknown, L2Mode-cases, Interface, has_vlan,
  get_access_intf_operating_vlan_id, is_trunk_interface_vlan_enabled,
}
use networking_protocol_deve.Layer2.Frame.{Frame, is_pkt_vlan_tagged, get_802_1q_vlan_id}
use networking_protocol_deve.Layer2.Qualify.{
  same_mac, is_mac_broadcast_addr, Verdict, l2_frame_recv_qualify_on_interface,
}

-- An interface accepts a frame, and with which VLAN the frame is to be tagged (0 for none). The
-- numbers are those of the cases in the source. An interface that has both an address and an L2 mode
-- goes by its mode, though the source says that an address makes it work in L3 mode.
pub data Accepts (i : Interface) (f : Frame) (tag : ℕ) : Type 0 where
  -- 3: access without a VLAN takes untagged frames
  plain :
      i.intf_l2_mode ≡ access
      → get_or i.vlans 0 0 ≡ 0
      → is_pkt_vlan_tagged f ≡ false
      → tag ≡ 0
      → Accepts i f tag
  -- 6: access in a VLAN takes untagged frames into that VLAN
  enter :
      i.intf_l2_mode ≡ access
      → get_or i.vlans 0 0 ≢ 0
      → is_pkt_vlan_tagged f ≡ false
      → tag ≡ get_or i.vlans 0 0
      → Accepts i f tag
  -- 5: access in a VLAN takes the frames of that VLAN
  member :
      i.intf_l2_mode ≡ access
      → get_or i.vlans 0 0 ≢ 0
      → is_pkt_vlan_tagged f ≡ true
      → get_802_1q_vlan_id f ≡ get_or i.vlans 0 0
      → tag ≡ 0
      → Accepts i f tag
  -- 9: a trunk takes the frames of its VLANs
  carried :
      i.intf_l2_mode ≡ trunk
      → is_pkt_vlan_tagged f ≡ true
      → get_802_1q_vlan_id f ≢ 0
      → has_vlan i.vlans (get_802_1q_vlan_id f) ≡ true
      → tag ≡ 0
      → Accepts i f tag
  -- A trunk with a free slot, which holds 0, takes frames tagged with VLAN 0, in which it does not
  -- operate; the source means to take only the frames of the trunk's VLANs.
  stray :
      i.intf_l2_mode ≡ trunk
      → is_pkt_vlan_tagged f ≡ true
      → get_802_1q_vlan_id f ≡ 0
      → has_vlan i.vlans 0 ≡ true
      → tag ≡ 0
      → Accepts i f tag
  -- 1: a routed interface takes untagged frames for its own address and broadcasts
  routed :
      i.intf_l2_mode ≡ l2_mode_unknown
      → i.is_ipadd_config ≡ true
      → is_pkt_vlan_tagged f ≡ false
      → (same_mac i.mac_add f.dst_mac ≡ true) ⊎ (is_mac_broadcast_addr f.dst_mac ≡ true)
      → tag ≡ 0
      → Accepts i f tag

abbrev pub verdict : ℕ → Verdict
verdict tag = record { accepted = true; output_vlan_id = tag }

module _ (i : Interface) (f : Frame) where
  qualify_sound :
      (tag : ℕ) → l2_frame_recv_qualify_on_interface i f ≡ some (verdict tag) → Accepts i f tag
  unfolding l2_frame_recv_qualify_on_interface get_access_intf_operating_vlan_id
      is_trunk_interface_vlan_enabled
  qualify_sound tag e = elim (L2Mode-cases i.intf_l2_mode) [
    | inl m ↦ elim (Bool-cases (get_or i.vlans 0 0 == 0)) [
      | inl v ↦ plain m (ground arith) (ground arith) (ground arith)
      | inr v ↦ elim (Bool-cases (is_pkt_vlan_tagged f)) [
        | inl t ↦ member m (ground arith) t (ground arith) (ground arith)
        | inr t ↦ enter m (ground arith) t (ground arith)
      ]
    ]
    | inr (inl m) ↦ elim (Bool-cases (get_802_1q_vlan_id f == 0)) [
      | inl z ↦ stray m (ground arith) (ground (arith, z)) (ground (arith, z)) (ground arith)
      | inr z ↦ carried m (ground arith) (ground (arith, z)) (ground arith) (ground arith)
    ]
    | inr (inr m) ↦ routed m (ground arith) (ground arith) (ground arith) (ground arith)
  ]

  pub qualify_complete :
      (tag : ℕ) → Accepts i f tag → l2_frame_recv_qualify_on_interface i f ≡ some (verdict tag)
  unfolding l2_frame_recv_qualify_on_interface get_access_intf_operating_vlan_id
      is_trunk_interface_vlan_enabled
  qualify_complete tag (plain m v t z) = ground arith
  qualify_complete tag (enter m v t z) = ground arith
  qualify_complete tag (member m v t g z) = ground arith
  qualify_complete tag (carried m t n h z) = ground arith
  qualify_complete tag (stray m t n h z) = ground arith
  qualify_complete tag (routed m l t (inl d) z) = ground arith
  qualify_complete tag (routed m l t (inr d) z) = ground arith

  pub qualify-ne-none : l2_frame_recv_qualify_on_interface i f ≢ none
  unfolding l2_frame_recv_qualify_on_interface get_access_intf_operating_vlan_id
      is_trunk_interface_vlan_enabled
  qualify-ne-none e = ground arith

-- No assertion fails while a frame is qualified, and the code accepts a frame, with a VLAN to tag
-- it with, exactly in the cases of `Accepts`: by the L2 mode of the interface, whether or not it has
-- an address, and by its address where it has no mode. Among them is one that the source does not
-- mean: a trunk with a free slot takes frames tagged with VLAN 0.
pub qualify_iff :
    (i : Interface) (f : Frame) (tag : ℕ)
    → (l2_frame_recv_qualify_on_interface i f ≢ none)
      × ((l2_frame_recv_qualify_on_interface i f ≡ some (verdict tag)) ↔ Accepts i f tag)
qualify_iff i f tag = (qualify-ne-none i f, (qualify_sound i f tag, qualify_complete i f tag))

-- Only untagged frames are given a VLAN to be tagged with.
pub tag_untagged :
    (i : Interface) (f : Frame) (v : Verdict)
    → l2_frame_recv_qualify_on_interface i f ≡ some v
    → v.output_vlan_id ≢ 0
    → is_pkt_vlan_tagged f ≡ false
unfolding l2_frame_recv_qualify_on_interface get_access_intf_operating_vlan_id
    is_trunk_interface_vlan_enabled
tag_untagged i f v e n = ground arith
