-- ===== src/Layer2/Switch/Total.antt =====
-- The assertions of the switch, and VLAN numbers that it does not carry.
use networking_protocol_deve.Base.{
  ℕ, zero, suc, ◌+◌, ◌^◌, ◌≤◌, ◌<◌, ◌≡◌, ◌≢◌, refl, inl, inr, false, Option, none, some, List, [],
  ◌∷◌, arith, get_or, Bool-cases, Option-cases,
}
use networking_protocol_deve.Net.{
  access, get_access_intf_operating_vlan_id, Interface, Slots, slot_at, get_intf_sound,
  node_get_intf_by_name,
}
use networking_protocol_deve.Layer2.Frame.{Frame, is_pkt_vlan_tagged, tag_pkt_with_vlan_id}
use networking_protocol_deve.Layer2.Frame.Tag.{IsUntagged, vlan_id-tag}
use networking_protocol_deve.Layer2.Qualify.{
  is_mac_broadcast_addr, l2_frame_recv_qualify_on_interface,
}
use networking_protocol_deve.Layer2.Qualify.Accepts.{qualify-ne-none, tag_untagged}
use networking_protocol_deve.Layer2.MacTable.{
  MacTable, MacEntry, mac_table_lookup, l2_switch_perform_mac_learning,
}
use networking_protocol_deve.Layer2.Switch.{
  Sending, Sent, l2_switch_send_pkt_out, emit, flood_port, flood_from, forward_to,
  l2_switch_forward_frame, l2_switch_recv_frame, recv_qualified, layer2_frame_recv,
}
use networking_protocol_deve.Layer2.Switch.Send.{send-ne-none}

-- The interfaces of a node that only switches have no address.
abbrev pub OnlyL2 : Slots → Type 0
OnlyL2 [] = Unit
OnlyL2 (none ∷ slots) = OnlyL2 slots
OnlyL2 (some i ∷ slots) = (i.is_ipadd_config ≡ false) × OnlyL2 slots

OnlyL2-at :
    (slots : Slots) (p : ℕ) {i : Interface}
    → OnlyL2 slots
    → slot_at slots p ≡ some i
    → i.is_ipadd_config ≡ false
OnlyL2-at [] p h e = cc
OnlyL2-at (none ∷ slots) zero h e = cc
OnlyL2-at (some j ∷ slots) zero h e = ground arith
OnlyL2-at (none ∷ slots) (suc p) h e = OnlyL2-at slots p h e
OnlyL2-at (some j ∷ slots) (suc p) h e = OnlyL2-at slots p h.1 e

emit-ne-none :
    (k : ℕ) (now : Option Sending) (later : Option (List Sent))
    → now ≢ none
    → later ≢ none
    → emit k now later ≢ none
unfolding emit
emit-ne-none k none later a b = absurd (a refl)
emit-ne-none k (some s) none a b = absurd (b refl)
emit-ne-none k (some none) (some outs) a b = λ e. cc
emit-ne-none k (some (some (g, n))) (some outs) a b = λ e. cc

module _ (f : Frame) (size : ℕ) where
  port_total :
      (exempted k : ℕ) (i : Interface)
      → i.is_ipadd_config ≡ false
      → flood_port exempted f size k (some i) ≢ none
  unfolding flood_port
  port_total exempted k i h e = ground (arith, send-ne-none i f size h)

  flood_total :
      (exempted k : ℕ) (slots : Slots) → OnlyL2 slots → flood_from k slots exempted f size ≢ none
  unfolding flood_from
  flood_total exempted k [] h = λ e. cc
  flood_total exempted k (none ∷ slots) h =
      emit-ne-none k (flood_port exempted f size k none) (flood_from (k + 1) slots exempted f size)
        (unfold flood_port in λ e. cc) (flood_total exempted (k + 1) slots h)
  flood_total exempted k (some i ∷ slots) h =
      emit-ne-none k (flood_port exempted f size k (some i))
        (flood_from (k + 1) slots exempted f size) (port_total exempted k i h.0)
        (flood_total exempted (k + 1) slots h.1)

  forward_total : (slots : Slots) (e : MacEntry) → OnlyL2 slots → forward_to slots e f size ≢ none
  unfolding forward_to
  forward_total slots e h = elim (Option-cases (node_get_intf_by_name slots e.oif_name)) [
    | inl q ↦ λ x. cc (rw (q, forward_to) at x)
    | inr ((p, i), q) ↦ λ x.
        emit-ne-none p (l2_switch_send_pkt_out f size i) (some [])
          (send-ne-none i f size (OnlyL2-at slots p h (get_intf_sound slots e.oif_name q)))
          (λ y. cc) (rw (q, forward_to) at x)
  ]

  frame_total :
      (slots : Slots) (t : MacTable) (k : ℕ)
      → OnlyL2 slots
      → l2_switch_forward_frame slots t k f size ≢ none
  unfolding l2_switch_forward_frame
  frame_total slots t k h x = elim (Bool-cases (is_mac_broadcast_addr f.dst_mac)) [
    | inl b ↦ flood_total k 0 slots h (rw b at x)
    | inr b ↦ elim (Option-cases (mac_table_lookup t f.dst_mac)) [
      | inl e ↦ flood_total k 0 slots h (rw (b, e, l2_switch_forward_frame) at x)
      | inr (y, e) ↦ forward_total slots y h (rw (b, e, l2_switch_forward_frame) at x)
    ]
  ]

  switch_total :
      (slots : Slots) (t : MacTable) (k : ℕ) (iif : Interface)
      → OnlyL2 slots
      → l2_switch_recv_frame slots t k iif f size ≢ none
  unfolding l2_switch_recv_frame
  switch_total slots t k iif h e =
      ground (arith, frame_total slots (l2_switch_perform_mac_learning t f.src_mac iif.if_name) k h)

tag_size :
    (f : Frame) (size vid : ℕ)
    → is_pkt_vlan_tagged f ≡ false
    → size < 2 ^ 32
    → (tag_pkt_with_vlan_id f size vid).1 ≢ size
unfolding tag_pkt_with_vlan_id
tag_size f size vid t small e = ground arith

qualified_total :
    (slots : Slots) (t : MacTable) (k : ℕ) (iif : Interface) (f : Frame) (size vid : ℕ)
    → OnlyL2 slots
    → size < 2 ^ 32
    → (vid ≢ 0 → is_pkt_vlan_tagged f ≡ false)
    → recv_qualified slots t k iif f size vid ≢ none
unfolding recv_qualified
qualified_total slots t k iif f size vid h small u e =
    let (g, n) = tag_pkt_with_vlan_id f size vid in
    ground (
      arith,
      tag_size f size vid,
      switch_total f size slots t k iif h,
      switch_total g n slots t k iif h,
    )

-- On a node none of whose interfaces has an address, no assertion fails while a frame is received,
-- whatever the frame, the MAC table and the VLANs.
pub recv_total :
    (slots : Slots) (t : MacTable) (k : ℕ) (iif : Interface) (f : Frame) (size : ℕ)
    → OnlyL2 slots
    → size < 2 ^ 32
    → layer2_frame_recv slots t k iif f size ≢ none
unfolding layer2_frame_recv
recv_total slots t k iif f size h small e =
    elim (Option-cases (l2_frame_recv_qualify_on_interface iif f)) [
      | inl q ↦ qualify-ne-none iif f q
      | inr (v, q) ↦ elim (Bool-cases v.accepted) [
        | inl a ↦
            qualified_total slots t k iif f size v.output_vlan_id h small (tag_untagged iif f v q)
              (rw (q, a, layer2_frame_recv) at e)
        | inr a ↦ cc (rw (q, a, layer2_frame_recv) at e)
      ]
    ]

-- A frame tagged with a VLAN from 2048 on is not sent on the access ports of that VLAN.
pub large_vlan_lost :
    (oif : Interface) {f : Frame} {size : ℕ} (vid : ℕ)
    → oif.intf_l2_mode ≡ access
    → oif.is_ipadd_config ≡ false
    → get_or oif.vlans 0 0 ≡ vid
    → 2048 ≤ vid
    → vid < 4096
    → IsUntagged f size
    → let (g, n) = tag_pkt_with_vlan_id f size vid in l2_switch_send_pkt_out g n oif ≡ some none
unfolding l2_switch_send_pkt_out get_access_intf_operating_vlan_id
large_vlan_lost oif {f} {size} vid m l2 v low high u = ground (arith, vlan_id-tag vid u high)
