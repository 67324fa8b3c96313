-- ===== src/Layer2/Forward/Paths.antt =====
-- Which packets leave, which wait, and that no assertion fails.
use networking_protocol_deve.Base.{ℕ, ◌≡◌, refl, true, false, none, some, [], ◌∷◌, if◌then◌else◌}
use networking_protocol_deve.Base.CString.{Chars, strncmp_eq}
use networking_protocol_deve.Net.{Interface, node_get_intf_by_name}
use networking_protocol_deve.Net.Ip.{tcp_ip_covert_ip_n_to_p}
use networking_protocol_deve.Layer2.Frame.{Frame}
use networking_protocol_deve.Layer2.Arp.{ArpEntry, ArpTable, arp_table_lookup, update_arp_entry}
use networking_protocol_deve.Layer2.Arp.Resolve.Reply.{queue_one}
use networking_protocol_deve.Layer2.Arp.Message.{
  broadcast_request, node_get_matching_subnet_interface, send_arp_broadcast_request,
}
use networking_protocol_deve.Layer2.Forward.{
  L2Node, waits, leaves, addressed, hit, l2_frame_prepare, resolve_out, forward_out, forward_subnet,
  l2_forward_ip_packet,
}

module _ (shift_32 : ℕ → ℕ) (n : L2Node) (x : ℕ) where
  -- While the entry of the next hop waits for a reply, a packet to it that layer 3 sends out of an interface
  -- is not queued: it leaves at once, with the hardware address of the unfinished entry. The same
  -- packet on the way to the interface's subnet, with an address that is neither the interface's nor the
  -- node's, is queued, and the address is asked for again.
  pub waiting_gateway_leaves :
      (name : Chars) (k : ℕ) (oif : Interface) (e : ArpEntry) (f : Frame) (size : ℕ)
      → node_get_intf_by_name n.intf name ≡ some (k, oif)
      → node_get_matching_subnet_interface shift_32 n.intf (tcp_ip_covert_ip_n_to_p x)
        ≡ some (k, oif)
      → strncmp_eq 16 oif.ip_add (tcp_ip_covert_ip_n_to_p x) ≡ false
      → strncmp_eq 16 (tcp_ip_covert_ip_n_to_p x) n.lo_addr ≡ false
      → arp_table_lookup n.arp_table (tcp_ip_covert_ip_n_to_p x) ≡ some e
      → e.is_sane ≡ true
      → (l2_forward_ip_packet shift_32 n x (some name) f size
          ≡ some (
            update_arp_entry n.arp_table (tcp_ip_covert_ip_n_to_p x) hit,
            leaves k (addressed e.mac_addr oif.mac_add f size) size,
          ))
        × ((t : ArpTable) × (e' : ArpEntry) × (l2_forward_ip_packet shift_32 n x none f size
              ≡ some (
                t,
                waits (
                    record {
                      port = k;
                      frame = broadcast_request oif (tcp_ip_covert_ip_n_to_p x);
                      size = 46;
                    }
                    ∷ []),
              ))
            × (arp_table_lookup t (tcp_ip_covert_ip_n_to_p x) ≡ some e')
            × (e'.arp_pending_list ≡ record { pkt = f; pkt_size = size } ∷ e.arp_pending_list))
  unfolding l2_forward_ip_packet forward_out forward_subnet l2_frame_prepare resolve_out
      send_arp_broadcast_request
  waiting_gateway_leaves name k oif e f size out sub own lo l s =
      let (t, c, (e', m, _, ps)) =
        queue_one n.arp_table (tcp_ip_covert_ip_n_to_p x) e.arp_pending_list
          (record { pkt = f; pkt_size = size }) (e, l, s, refl) in
      (
        rw (out, forward_out, l) refl,
        (
          t,
          e',
          rw
              (
                sub, l2_forward_ip_packet, own, lo, l, forward_subnet, s, if◌then◌else◌, c,
                resolve_out,
              )
              refl,
          m,
          ps,
        ),
      )
