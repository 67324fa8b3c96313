-- ===== src/Layer2/Arp/Message/Exchange.antt =====
-- A request, the reply to it, and what the reply does at the node that asked.
use networking_protocol_deve.Base.{
  ℕ, ◌^◌, ◌<◌, ◌≡◌, refl, ap, ◌∙◌, true, false, some, [], ◌∷◌, map, arith, length,
}
use networking_protocol_deve.Base.CString.{Chars, strncmp_eq_refl}
use networking_protocol_deve.Net.{Interface}
use networking_protocol_deve.Net.Ip.{tcp_ip_covert_ip_n_to_p, tcp_ip_covert_ip_p_to_n}
use networking_protocol_deve.Net.Ip.RoundTrip.{p_to_n-ntop}
use networking_protocol_deve.Layer2.Frame.{
  Frame, is_pkt_vlan_tagged, set_common_eth_fcs, store_zero32, zero_head,
}
use networking_protocol_deve.Layer2.Arp.{ArpEntry, ArpTable, arp_table_lookup, strncpy_mac}
use networking_protocol_deve.Layer2.Arp.Resolve.{
  ArpReply, pending_arp_processing, arp_table_update_from_arp_reply,
}
use networking_protocol_deve.Layer2.Arp.Resolve.Reply.{reply_resolves}
use networking_protocol_deve.Layer2.Arp.Message.{
  ArpHdr, mac_at, bytes_of_arp_hdr, arp_hdr_at, arp_frame, get_ethernet_hdr_payload,
  broadcast_request, request_hdr, reply_hdr, send_arp_reply_msg, process_arp_broadcast_request,
  process_arp_reply_msg,
}

-- six bytes
mac_whole : (m : Chars) → length m ≡ 6 → mac_at m 0 ≡ m
mac_whole [] e = absurd (omega arith)
mac_whole (a ∷ []) e = absurd (omega arith)
mac_whole (a ∷ b ∷ []) e = absurd (omega arith)
mac_whole (a ∷ b ∷ c ∷ []) e = absurd (omega arith)
mac_whole (a ∷ b ∷ c ∷ d ∷ []) e = absurd (omega arith)
mac_whole (a ∷ b ∷ c ∷ d ∷ x ∷ []) e = absurd (omega arith)
mac_whole (a ∷ b ∷ c ∷ d ∷ x ∷ y ∷ []) e = refl
mac_whole (a ∷ b ∷ c ∷ d ∷ x ∷ y ∷ z ∷ m) e = absurd (omega arith)

module _ (dst_mac src_mac : Chars) (h : ArpHdr) where
  frame_op :
      h.op_code < 2 ^ 16
      → (arp_hdr_at (get_ethernet_hdr_payload (arp_frame dst_mac src_mac h))).op_code ≡ h.op_code
  unfolding arp_hdr_at get_ethernet_hdr_payload arp_frame bytes_of_arp_hdr set_common_eth_fcs
      is_pkt_vlan_tagged store_zero32 zero_head
  frame_op l = omega arith

  frame_macs :
      ((arp_hdr_at (get_ethernet_hdr_payload (arp_frame dst_mac src_mac h))).src_mac
        ≡ mac_at h.src_mac 0)
  unfolding arp_hdr_at get_ethernet_hdr_payload arp_frame bytes_of_arp_hdr set_common_eth_fcs
      is_pkt_vlan_tagged store_zero32 zero_head
  frame_macs = refl

  arp_frame_dst : (arp_frame dst_mac src_mac h).dst_mac ≡ dst_mac
  unfolding arp_frame set_common_eth_fcs is_pkt_vlan_tagged
  arp_frame_dst = refl

  frame_ips :
      h.src_ip < 2 ^ 32
      → h.dst_ip < 2 ^ 32
      → ((arp_hdr_at (get_ethernet_hdr_payload (arp_frame dst_mac src_mac h))).src_ip ≡ h.src_ip)
        × ((arp_hdr_at (get_ethernet_hdr_payload (arp_frame dst_mac src_mac h))).dst_ip ≡ h.dst_ip)
  unfolding arp_hdr_at get_ethernet_hdr_payload arp_frame bytes_of_arp_hdr set_common_eth_fcs
      is_pkt_vlan_tagged store_zero32 zero_head
  frame_ips s d = omega arith

request_answered :
    (asker replier : Interface) (y : ℕ)
    → y < 2 ^ 32
    → tcp_ip_covert_ip_p_to_n asker.ip_add < 2 ^ 32
    → replier.ip_add ≡ tcp_ip_covert_ip_n_to_p y
    → process_arp_broadcast_request replier (broadcast_request asker (tcp_ip_covert_ip_n_to_p y))
      ≡ some (send_arp_reply_msg (broadcast_request asker (tcp_ip_covert_ip_n_to_p y)) replier)
unfolding process_arp_broadcast_request broadcast_request
request_answered asker replier y h l e =
    let target = tcp_ip_covert_ip_n_to_p y in
    let (_, dst) =
      frame_ips (255 ∷ 255 ∷ 255 ∷ 255 ∷ 255 ∷ 255 ∷ []) asker.mac_add (request_hdr asker target) l
        (rw (p_to_n-ntop y h) h) in
    rw (dst, p_to_n-ntop y h, e, strncmp_eq_refl 16 (tcp_ip_covert_ip_n_to_p y)) refl

reply_read :
    (t : ArpTable) (asker replier : Interface) (f : Frame) (y : ℕ)
    → y < 2 ^ 32
    → replier.ip_add ≡ tcp_ip_covert_ip_n_to_p y
    → length replier.mac_add ≡ 6
    → (arp_hdr_at (get_ethernet_hdr_payload f)).src_ip < 2 ^ 32
    → process_arp_reply_msg t asker (send_arp_reply_msg f replier)
      ≡ arp_table_update_from_arp_reply t
          (record { op_code = 2; src_ip = y; src_mac = replier.mac_add })
          asker
unfolding process_arp_reply_msg send_arp_reply_msg
reply_read t asker replier f y h e m l =
    let source : tcp_ip_covert_ip_p_to_n replier.ip_add ≡ y =
      ap tcp_ip_covert_ip_p_to_n e ∙ p_to_n-ntop y h in
    let old = arp_hdr_at (get_ethernet_hdr_payload f) in
    let new = reply_hdr old replier in
    let (src, _) = frame_ips old.src_mac replier.mac_add new (rw source h) l in
    rw
      (
        frame_op old.src_mac replier.mac_add new (omega arith),
        src,
        frame_macs old.src_mac replier.mac_add new,
        mac_whole replier.mac_add m,
        source,
      )
      refl

reply_goes_back :
    (asker replier : Interface) (ip : Chars)
    → length asker.mac_add ≡ 6
    → (send_arp_reply_msg (broadcast_request asker ip) replier).dst_mac ≡ asker.mac_add
unfolding send_arp_reply_msg broadcast_request
reply_goes_back asker replier ip m =
    arp_frame_dst _ _ _
    ∙ frame_macs (255 ∷ 255 ∷ 255 ∷ 255 ∷ 255 ∷ 255 ∷ []) asker.mac_add (request_hdr asker ip)
    ∙ mac_whole asker.mac_add m

request_source :
    (asker : Interface) (y : ℕ)
    → y < 2 ^ 32
    → tcp_ip_covert_ip_p_to_n asker.ip_add < 2 ^ 32
    → (arp_hdr_at
        (get_ethernet_hdr_payload (broadcast_request asker (tcp_ip_covert_ip_n_to_p y)))).src_ip
      < 2 ^ 32
unfolding broadcast_request
request_source asker y h l =
    let target = tcp_ip_covert_ip_n_to_p y in
    let (src, _) =
      frame_ips (255 ∷ 255 ∷ 255 ∷ 255 ∷ 255 ∷ 255 ∷ []) asker.mac_add (request_hdr asker target) l
        (rw (p_to_n-ntop y h) h) in
    rw src l

-- A node asks for an address that an entry of its table waits for, and the interface with that address
-- answers: it sends a reply to the asker's hardware address, and the reply, taken by the asker, sends
-- the packets that waited with the answering interface's hardware address and fills the entry. The
-- addresses of both interfaces are well formed, the hardware addresses six bytes.
pub arp_exchange :
    (t : ArpTable) (old : ArpEntry) (asker replier : Interface) (x y : ℕ)
    → x < 2 ^ 32
    → y < 2 ^ 32
    → asker.ip_add ≡ tcp_ip_covert_ip_n_to_p x
    → replier.ip_add ≡ tcp_ip_covert_ip_n_to_p y
    → length asker.mac_add ≡ 6
    → length replier.mac_add ≡ 6
    → arp_table_lookup t (tcp_ip_covert_ip_n_to_p y) ≡ some old
    → old.is_sane ≡ true
    → (reply : Frame) × (process_arp_broadcast_request replier
          (broadcast_request asker (tcp_ip_covert_ip_n_to_p y))
        ≡ some reply)
      × (reply.dst_mac ≡ asker.mac_add)
      × ((t' : ArpTable) × (process_arp_reply_msg t asker reply
            ≡ some (t', map (pending_arp_processing replier.mac_add asker) old.arp_pending_list))
          × ((e : ArpEntry) × (arp_table_lookup t' (tcp_ip_covert_ip_n_to_p y) ≡ some e)
              × (e.is_sane ≡ false)
              × (e.mac_addr ≡ strncpy_mac replier.mac_add)))
arp_exchange t old asker replier x y hx hy ex ey ma mr f s =
    let source : tcp_ip_covert_ip_p_to_n asker.ip_add ≡ x =
      ap tcp_ip_covert_ip_p_to_n ex ∙ p_to_n-ntop x hx in
    let small : tcp_ip_covert_ip_p_to_n asker.ip_add < 2 ^ 32 = rw source hx in
    let h : ArpReply = record { op_code = 2; src_ip = y; src_mac = replier.mac_add } in
    let (t', r, (e, g, full, mac, _, _), _) = reply_resolves t h asker old refl f s in
    let request = broadcast_request asker (tcp_ip_covert_ip_n_to_p y) in
    (
      send_arp_reply_msg request replier,
      request_answered asker replier y hy small ey,
      reply_goes_back asker replier (tcp_ip_covert_ip_n_to_p y) ma,
      (
        t',
        reply_read t asker replier request y hy ey mr (request_source asker y hy small) ∙ r,
        (e, g, full, mac),
      ),
    )
