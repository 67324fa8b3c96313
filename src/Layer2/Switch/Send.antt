-- ===== src/Layer2/Switch/Send.antt =====
-- Which frames leave a port, and which ports a flooded frame reaches.
use networking_protocol_deve.Base.{
  ℕ, zero, suc, ◌+◌, ◌<◌, ◌≡◌, ◌≢◌, refl, ◌↔◌, inl, inr, true, false, Option, none, some, List, [],
  ◌∷◌, ◌==◌, arith, get_or, Bool-cases, if◌then◌else◌,
}
use native.Mathlib.Nat.{add-zero, zero-add}
use networking_protocol_deve.Net.{
  access, trunk, Interface, Slots, slot_at, L2Mode-cases, has_vlan,
  get_access_intf_operating_vlan_id, is_trunk_interface_vlan_enabled,
}
use networking_protocol_deve.Layer2.Frame.{
  Frame, is_pkt_vlan_tagged, get_802_1q_vlan_id, untag_pkt_with_vlan_id,
}
use networking_protocol_deve.Layer2.Switch.{
  Sending, Sent, l2_switch_send_pkt_out, emit, flood_port, flood_from,
}

-- An L2 interface sends a frame, as `g` of size `n`.
pub data Sends (oif : Interface) (f : Frame) (size : ℕ) (g : Frame) (n : ℕ) : Type 0 where
  -- access without a VLAN: untagged frames, as they are
  plain :
      oif.intf_l2_mode ≡ access
      → get_or oif.vlans 0 0 ≡ 0
      → is_pkt_vlan_tagged f ≡ false
      → g ≡ f
      → n ≡ size
      → Sends oif f size g n
  -- access in a VLAN: frames of that VLAN, without their tag
  leave :
      oif.intf_l2_mode ≡ access
      → get_or oif.vlans 0 0 ≢ 0
      → is_pkt_vlan_tagged f ≡ true
      → get_802_1q_vlan_id f ≡ get_or oif.vlans 0 0
      → (g, n) ≡ untag_pkt_with_vlan_id f size
      → Sends oif f size g n
  -- access without a VLAN: frames tagged with VLAN 0, without their tag; the source means to drop
  -- what is tagged there
  stray :
      oif.intf_l2_mode ≡ access
      → get_or oif.vlans 0 0 ≡ 0
      → is_pkt_vlan_tagged f ≡ true
      → get_802_1q_vlan_id f ≡ 0
      → (g, n) ≡ untag_pkt_with_vlan_id f size
      → Sends oif f size g n
  -- trunk: frames of the VLANs that it carries, as they are
  carried :
      oif.intf_l2_mode ≡ trunk
      → is_pkt_vlan_tagged f ≡ true
      → get_802_1q_vlan_id f ≢ 0
      → has_vlan oif.vlans (get_802_1q_vlan_id f) ≡ true
      → g ≡ f
      → n ≡ size
      → Sends oif f size g n

module _ (oif : Interface) (f : Frame) (size : ℕ) (l2 : oif.is_ipadd_config ≡ false) where
  pub send_sound :
      (g : Frame) (n : ℕ)
      → l2_switch_send_pkt_out f size oif ≡ some (some (g, n))
      → Sends oif f size g n
  unfolding l2_switch_send_pkt_out get_access_intf_operating_vlan_id is_trunk_interface_vlan_enabled
  send_sound g n e = elim (L2Mode-cases oif.intf_l2_mode) [
    | inl m ↦ elim (Bool-cases (is_pkt_vlan_tagged f)) [
      | inl t ↦ elim (Bool-cases (get_or oif.vlans 0 0 == 0)) [
        | inl v ↦ stray m (ground (arith, v)) t (ground arith) (ground arith)
        | inr v ↦ leave m (ground (arith, v)) t (ground arith) (ground arith)
      ]
      | inr t ↦ plain m (ground arith) t (ground arith) (ground arith)
    ]
    | inr (inl m) ↦
        carried m (ground arith) (ground arith) (ground arith) (ground arith) (ground arith)
    | inr (inr m) ↦ absurd (ground arith)
  ]

  send_complete :
      (g : Frame) (n : ℕ)
      → Sends oif f size g n
      → l2_switch_send_pkt_out f size oif ≡ some (some (g, n))
  unfolding l2_switch_send_pkt_out get_access_intf_operating_vlan_id is_trunk_interface_vlan_enabled
  send_complete g n (plain m v t a b) = ground arith
  send_complete g n (leave m k t v a) = ground arith
  send_complete g n (stray m k t v a) = ground arith
  send_complete g n (carried m t z v a b) = ground arith

  pub send-ne-none : l2_switch_send_pkt_out f size oif ≢ none
  unfolding l2_switch_send_pkt_out get_access_intf_operating_vlan_id is_trunk_interface_vlan_enabled
  send-ne-none e = ground arith

  -- On an interface without an address no assertion of `l2_switch_send_pkt_out` fails, and it sends
  -- a frame, as `g` of size `n`, exactly in the cases of `Sends`: on an access port untagged frames
  -- where it has no VLAN and the frames of its VLAN without their tag, on a trunk the frames of its
  -- VLANs; and, which the source means to drop, on an access port without a VLAN the frames tagged
  -- with VLAN 0, without their tag.
  pub send_iff :
      (g : Frame) (n : ℕ)
      → (l2_switch_send_pkt_out f size oif ≢ none)
        × ((l2_switch_send_pkt_out f size oif ≡ some (some (g, n))) ↔ Sends oif f size g n)
  send_iff g n = (send-ne-none, (send_sound g n, send_complete g n))

-- the outputs of a call before the later ones
abbrev pub put : ℕ → Sending → List Sent → List Sent
put k none outs = outs
put k (some (g, n)) outs = record { port = k; frame = g; size = n } ∷ outs

pub emit-some :
    (k : ℕ) (now : Option Sending) (later : Option (List Sent)) {outs : List Sent}
    → emit k now later ≡ some outs
    → (s : Sending) × (outs' : List Sent) × (now ≡ some s)
      × (later ≡ some outs')
      × (outs ≡ put k s outs')
unfolding emit
emit-some k none later e = cc
emit-some k (some s) none e = cc
emit-some k (some none) (some outs') e = (none, outs', refl, refl, ground arith)
emit-some k (some (some (g, n))) (some outs') e = (some (g, n), outs', refl, refl, ground arith)

-- the first output on a port
abbrev pub sent_on : ℕ → List Sent → Sending
sent_on p [] = none
sent_on p (s ∷ outs) = if s.port == p then some (s.frame, s.size) else sent_on p outs

sent_on-put_ne :
    (p k : ℕ) (s : Sending) (outs : List Sent) → k ≢ p → sent_on p (put k s outs) ≡ sent_on p outs
sent_on-put_ne p k none outs n = refl
sent_on-put_ne p k (some (g, m)) outs n = ground arith

sent_on-put_self :
    (k : ℕ) (s : Sending) (outs : List Sent) → sent_on k outs ≡ none → sent_on k (put k s outs) ≡ s
sent_on-put_self k none outs n = n
sent_on-put_self k (some (g, m)) outs n = ground arith

module _ (exempted : ℕ) (f : Frame) (size : ℕ) where
  -- the outputs of the loop from slot `k` on are on ports from `k` on
  flood_below :
      (k : ℕ) (slots : Slots) (p : ℕ) {outs : List Sent}
      → flood_from k slots exempted f size ≡ some outs
      → p < k
      → sent_on p outs ≡ none
  unfolding flood_from
  flood_below k [] p e lt = ground arith
  flood_below k (s ∷ slots) p e lt =
      let (x, outs', now, later, same) =
        emit-some k (flood_port exempted f size k s) (flood_from (k + 1) slots exempted f size) e in
      rw (same, sent_on-put_ne p k x outs' (omega arith))
        (flood_below (k + 1) slots p later (omega arith))

  flood_on :
      (k : ℕ) (slots : Slots) (d : ℕ) {outs : List Sent}
      → flood_from k slots exempted f size ≡ some outs
      → flood_port exempted f size (k + d) (slot_at slots d) ≡ some (sent_on (k + d) outs)
  unfolding flood_from
  flood_on k [] d e = unfold flood_port in ground arith
  flood_on k (s ∷ slots) zero e =
      let (x, outs', now, later, same) =
        emit-some k (flood_port exempted f size k s) (flood_from (k + 1) slots exempted f size) e in
      rw
        (
          add-zero,
          same,
          sent_on-put_self k x outs' (flood_below (k + 1) slots k later (omega arith)),
        )
        now
  flood_on k (s ∷ slots) (suc d) e =
      let (x, outs', now, later, same) =
        emit-some k (flood_port exempted f size k s) (flood_from (k + 1) slots exempted f size) e in
      let shift : k + suc d ≡ k + 1 + d = omega arith in
      rw (same, sent_on-put_ne (k + suc d) k x outs' (omega arith), shift)
        (flood_on (k + 1) slots d later)

  -- Flooding sends on each port what `l2_switch_send_pkt_out` sends there, and nothing on the port
  -- that the frame came in by, on free slots and on interfaces that are not in an L2 mode.
  pub flood_lem :
      (slots : Slots) (p : ℕ) {outs : List Sent}
      → flood_from 0 slots exempted f size ≡ some outs
      → flood_port exempted f size p (slot_at slots p) ≡ some (sent_on p outs)
  flood_lem slots p {outs} e = rw zero-add at (flood_on 0 slots p e)
