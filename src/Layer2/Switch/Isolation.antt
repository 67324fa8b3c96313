-- ===== src/Layer2/Switch/Isolation.antt =====
-- VLANs are kept apart by the switch: where a frame goes that enters on an access port.
use networking_protocol_deve.Base.{
  ℕ, suc, ◌+◌, ◌<◌, ◌≡◌, ◌≢◌, refl, sym, ap, ◌∙◌, inl, inr, true, false, Option, none, some, List,
  [], ◌∷◌, All, arith, get_or, Bool-cases, Option-cases,
}
use networking_protocol_deve.Net.{
  access, trunk, Interface, Slots, slot_at, has_vlan, get_intf_sound, node_get_intf_by_name,
}
use networking_protocol_deve.Layer2.Frame.{
  Frame, is_pkt_vlan_tagged, get_802_1q_vlan_id, tag_pkt_with_vlan_id, untag_pkt_with_vlan_id,
}
use networking_protocol_deve.Layer2.Frame.Tag.{
  IsUntagged, clear_fcs, untag-tag, vlan_id-tag, tag-plain,
}
use networking_protocol_deve.Layer2.Qualify.{is_mac_broadcast_addr}
use networking_protocol_deve.Layer2.Qualify.Accepts.{enter, qualify_complete}
use networking_protocol_deve.Layer2.MacTable.{MacTable, MacEntry, mac_table_lookup}
use networking_protocol_deve.Layer2.Switch.{
  Sending, Sent, l2_switch_send_pkt_out, emit, flood_port, flood_from, forward_to,
  l2_switch_forward_frame, switched, l2_switch_recv_frame, recv_qualified, layer2_frame_recv,
}
use networking_protocol_deve.Layer2.Switch.Send.{
  Sends, plain, leave, stray, carried, send_sound, put, emit-some,
}

-- an output that an interface of the node sends by the rules of its mode
record SentBy (slots : Slots) (k : ℕ) (f : Frame) (size : ℕ) (s : Sent) : Type 0 where
  slot : ℕ
  oif : Interface
  port : s.port ≡ k + slot
  stands : slot_at slots slot ≡ some oif
  sends : Sends oif f size s.frame s.size

module _ (f : Frame) (size : ℕ) where
  Sends-of :
      (oif : Interface) {g : Frame} {n : ℕ}
      → l2_switch_send_pkt_out f size oif ≡ some (some (g, n))
      → Sends oif f size g n
  unfolding l2_switch_send_pkt_out
  Sends-of oif {g} {n} e = elim (Bool-cases oif.is_ipadd_config) [
    | inl l3 ↦ absurd (ground arith)
    | inr l2 ↦ send_sound oif f size l2 g n e
  ]

  flood-Sends :
      (exempted k : ℕ) (s : Option Interface) {g : Frame} {n : ℕ}
      → flood_port exempted f size k s ≡ some (some (g, n))
      → (oif : Interface) × (s ≡ some oif) × Sends oif f size g n
  unfolding flood_port
  flood-Sends exempted k none e = cc
  flood-Sends exempted k (some oif) {g} {n} e = (oif, refl, Sends-of oif (ground arith))

  later :
      (s : Option Interface) (slots : Slots) (k : ℕ) (outs : List Sent)
      → All (SentBy slots (k + 1) f size) outs
      → All (SentBy (s ∷ slots) k f size) outs
  later s slots k [] h = tt
  later s slots k (x ∷ outs) h = (
    record {
      slot = suc h.0.slot;
      oif = h.0.oif;
      port = omega (arith, h.0.port);
      stands = h.0.stands;
      sends = h.0.sends;
    },
    later s slots k outs h.1,
  )

  SentBy-put :
      (slots : Slots) (k d p : ℕ) (oif : Interface) (x : Sending) (outs : List Sent)
      → p ≡ k + d
      → slot_at slots d ≡ some oif
      → l2_switch_send_pkt_out f size oif ≡ some x
      → All (SentBy slots k f size) outs
      → All (SentBy slots k f size) (put p x outs)
  SentBy-put slots k d p oif none outs same at e h = h
  SentBy-put slots k d p oif (some (g, n)) outs same at e h =
      (record { slot = d; oif = oif; port = same; stands = at; sends = Sends-of oif e }, h)

  -- on slot `k` the loop sends nothing, or what `l2_switch_send_pkt_out` sends
  flood_put :
      (exempted k : ℕ) (s : Option Interface) (slots : Slots) (x : Sending) (outs : List Sent)
      → flood_port exempted f size k s ≡ some x
      → All (SentBy (s ∷ slots) k f size) outs
      → All (SentBy (s ∷ slots) k f size) (put k x outs)
  flood_put exempted k s slots none outs e h = h
  flood_put exempted k s slots (some (g, n)) outs e h =
      let (oif, at, sends) = flood-Sends exempted k s e in
      (record { slot = 0; oif = oif; port = omega arith; stands = at; sends = sends }, h)

  flood_SentBy :
      (exempted k : ℕ) (slots : Slots) {outs : List Sent}
      → flood_from k slots exempted f size ≡ some outs
      → All (SentBy slots k f size) outs
  unfolding flood_from
  flood_SentBy exempted k [] {outs} e = let empty : outs ≡ [] = ground arith in rw empty tt
  flood_SentBy exempted k (s ∷ slots) {outs} e =
      let (x, outs', now, rest, same) =
        emit-some k (flood_port exempted f size k s) (flood_from (k + 1) slots exempted f size) e in
      rw same (
        flood_put exempted k s slots x outs' now
          (later s slots k outs' (flood_SentBy exempted (k + 1) slots rest)))

  forward_SentBy :
      (slots : Slots) (e : MacEntry) (o : Option (ℕ × Interface)) {outs : List Sent}
      → node_get_intf_by_name slots e.oif_name ≡ o
      → forward_to slots e f size ≡ some outs
      → All (SentBy slots 0 f size) outs
  unfolding forward_to
  forward_SentBy slots e none {outs} q h = let empty : outs ≡ [] = ground arith in rw empty tt
  forward_SentBy slots e (some (p, oif)) {outs} q h =
      let out : emit p (l2_switch_send_pkt_out f size oif) (some []) ≡ some outs =
        rw (q, forward_to) at h in
      let (x, outs', now, rest, same) =
        emit-some p (l2_switch_send_pkt_out f size oif) (some []) out in
      let empty : outs' ≡ [] = cc in
      rw (same, empty)
        (SentBy-put slots 0 p p oif x [] (omega arith) (get_intf_sound slots e.oif_name q) now tt)

  frame_SentBy :
      (slots : Slots) (t : MacTable) (k : ℕ) {outs : List Sent}
      → l2_switch_forward_frame slots t k f size ≡ some outs
      → All (SentBy slots 0 f size) outs
  unfolding l2_switch_forward_frame
  frame_SentBy slots t k {outs} h = elim (Bool-cases (is_mac_broadcast_addr f.dst_mac)) [
    | inl b ↦ flood_SentBy k 0 slots (rw b at h)
    | inr b ↦ elim (Option-cases (mac_table_lookup t f.dst_mac)) [
      | inl e ↦ flood_SentBy k 0 slots (rw (b, e, l2_switch_forward_frame) at h)
      | inr (x, e) ↦
          forward_SentBy slots x (node_get_intf_by_name slots x.oif_name) refl
            (rw (b, e, l2_switch_forward_frame) at h)
    ]
  ]

-- An output of a frame `f` of VLAN `vid`: on an access port of that VLAN, untagged and as it came;
-- or on a trunk that carries the VLAN, tagged with it.
pub data Within (vid : ℕ) (slots : Slots) (f : Frame) (size : ℕ) (s : Sent) : Type 0 where
  at_access :
      (oif : Interface)
      → slot_at slots s.port ≡ some oif
      → oif.intf_l2_mode ≡ access
      → get_or oif.vlans 0 0 ≡ vid
      → s.frame ≡ clear_fcs f size
      → s.size ≡ size
      → Within vid slots f size s
  at_trunk :
      (oif : Interface)
      → slot_at slots s.port ≡ some oif
      → oif.intf_l2_mode ≡ trunk
      → has_vlan oif.vlans vid ≡ true
      → (is_pkt_vlan_tagged s.frame ≡ true) × (get_802_1q_vlan_id s.frame ≡ vid)
      → Within vid slots f size s

module _ (vid : ℕ) (small : vid < 2048) (slots : Slots) {f : Frame} {size : ℕ}
    (plain_frame : IsUntagged f size) where
  tagged_id :
      let (g, n) = tag_pkt_with_vlan_id f size vid in
      (is_pkt_vlan_tagged g ≡ true) × (get_802_1q_vlan_id g ≡ vid)
  tagged_id = ground (arith, vlan_id-tag vid plain_frame)

  from_access :
      (oif : Interface) (s : Sent)
      → slot_at slots s.port ≡ some oif
      → oif.intf_l2_mode ≡ access
      → get_or oif.vlans 0 0 ≡ vid
      → (let (g, n) = tag_pkt_with_vlan_id f size vid in
          ◌≡◌ {A = Frame × ℕ} (s.frame, s.size) (untag_pkt_with_vlan_id g n))
      → Within vid slots f size s
  from_access oif s at m v e =
      let whole : ◌≡◌ {A = Frame × ℕ} (s.frame, s.size) (clear_fcs f size, size) =
        e ∙ untag-tag vid plain_frame in
      at_access oif at m v (ap (λ (q : Frame × ℕ). q.0) whole) (ap (λ (q : Frame × ℕ). q.1) whole)

  Within-of :
      (oif : Interface) (s : Sent)
      → slot_at slots s.port ≡ some oif
      → (let (g, n) = tag_pkt_with_vlan_id f size vid in Sends oif g n s.frame s.size)
      → Within vid slots f size s
  Within-of oif s at (plain m v t a b) = absurd (ground (arith, tagged_id))
  Within-of oif s at (leave m k t v e) = from_access oif s at m (sym v ∙ tagged_id.1) e
  Within-of oif s at (stray m k t v e) = from_access oif s at m (k ∙ sym v ∙ tagged_id.1) e
  Within-of oif s at (carried m t z v a b) =
      at_trunk oif at m (rw tagged_id.1 at v) (rw a tagged_id)

  Within-all :
      (outs : List Sent)
      → (let (g, n) = tag_pkt_with_vlan_id f size vid in All (SentBy slots 0 g n) outs)
      → All (Within vid slots f size) outs
  Within-all [] h = tt
  Within-all (s ∷ outs) h =
      let same : s.port ≡ h.0.slot = omega (arith, h.0.port) in
      (Within-of h.0.oif s (rw same h.0.stands) h.0.sends, Within-all outs h.1)

recv_frame_outs :
    (slots : Slots) (t : MacTable) (k : ℕ) (iif : Interface) (g : Frame) (n : ℕ) {t' : MacTable}
    {outs : List Sent}
    → l2_switch_recv_frame slots t k iif g n ≡ some (switched t' outs)
    → l2_switch_forward_frame slots t' k g n ≡ some outs
unfolding l2_switch_recv_frame
recv_frame_outs slots t k iif g n e = ground arith

-- the frame that the switch forwards, with its tag
switched_frame :
    (slots : Slots) (t : MacTable) (k : ℕ) (iif : Interface) (vid : ℕ) {f : Frame} {size : ℕ}
    {t' : MacTable} {outs : List Sent}
    → iif.intf_l2_mode ≡ access
    → iif.is_ipadd_config ≡ false
    → vid ≢ 0
    → IsUntagged f size
    → recv_qualified slots t k iif f size vid ≡ some (switched t' outs)
    → let (g, n) = tag_pkt_with_vlan_id f size vid in
      l2_switch_forward_frame slots t' k g n ≡ some outs
unfolding recv_qualified
switched_frame slots t k iif vid {f} {size} {t'} {outs} m l2 n u e =
    let (g, n') = tag_pkt_with_vlan_id f size vid in
    recv_frame_outs slots t k iif g n' (ground (arith, tag-plain vid u))

-- An untagged frame that enters on an access port of a VLAN leaves the switch only on access ports
-- of that VLAN, untagged and with its size, and on trunks that carry the VLAN, tagged with it. The
-- VLAN is below 2048, and the port has no address.
pub recv_isolates :
    (slots : Slots) (t : MacTable) (k : ℕ) (iif : Interface) (vid : ℕ) {f : Frame} {size : ℕ}
    {t' : MacTable} {outs : List Sent}
    → iif.intf_l2_mode ≡ access
    → iif.is_ipadd_config ≡ false
    → get_or iif.vlans 0 0 ≡ vid
    → vid ≢ 0
    → vid < 2048
    → IsUntagged f size
    → layer2_frame_recv slots t k iif f size ≡ some (switched t' outs)
    → All (Within vid slots f size) outs
unfolding layer2_frame_recv
recv_isolates slots t k iif vid {f} {size} {t'} {outs} m l2 v n small u e =
    let taken = qualify_complete iif f vid (enter m (λ z. n (sym v ∙ z)) u.plain (sym v)) in
    let tagged : recv_qualified slots t k iif f size vid ≡ some (switched t' outs) =
      rw (taken, layer2_frame_recv) at e in
    let (g, n') = tag_pkt_with_vlan_id f size vid in
    Within-all vid small slots u outs
      (frame_SentBy g n' slots t' k (switched_frame slots t k iif vid m l2 n u tagged))
