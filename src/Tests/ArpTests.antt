-- ===== src/Tests/ArpTests.antt =====
-- A node with the address 10.1.2.3, its neighbour 10.1.2.4, and packets between them.
use networking_protocol_deve.Base.{
  ℕ, ◌+◌, ◌≡◌, refl, Bool, true, false, none, some, List, [], ◌∷◌, map, arith,
}
use networking_protocol_deve.Base.CString.{Chars, strncmp_eq, prefix}
use networking_protocol_deve.Net.{l2_mode_unknown, Interface}
use networking_protocol_deve.Net.Ip.{
  octet_chars, tcp_ip_covert_ip_n_to_p, tcp_ip_covert_ip_p_to_n, inet_pton, pton_loop, pton_step,
  pton_digit, apply_mask, mask_bits, is_same_subnet,
}
use networking_protocol_deve.Layer2.Frame.{Frame}
use networking_protocol_deve.Layer2.Arp.{
  ArpEntry, ArpPending, ArpTable, arp_table_lookup, update_arp_entry, arp_table_entry_add,
  strncpy_mac, store_arp_entry, is_arp_entries_equal, resolved,
}
use networking_protocol_deve.Layer2.Arp.Resolve.{
  ArpReply, pending_arp_processing, arp_table_update_from_arp_reply, create_arp_sane_entry,
  add_arp_pending_entry,
}
use networking_protocol_deve.Layer2.Arp.Resolve.Reply.{
  reply_resolves, reply_keeps_static, queue_all, latest_first, queue_then_reply,
}
use networking_protocol_deve.Layer2.Arp.Resolve.Idle.{IdleTable}
use networking_protocol_deve.Layer2.Arp.Message.{
  broadcast_request, process_arp_broadcast_request, process_arp_reply_msg,
  node_get_matching_subnet_interface, matching_subnet_from,
}
use networking_protocol_deve.Layer2.Arp.Message.Exchange.{arp_exchange}
use networking_protocol_deve.Layer2.Forward.{L2Node}

abbrev shift_keeps : ℕ → ℕ
shift_keeps x = x

abbrev mac : ℕ → Chars
mac b = 1 ∷ 2 ∷ 3 ∷ 4 ∷ 5 ∷ b ∷ []

abbrev addr : ℕ → Chars
addr b = tcp_ip_covert_ip_n_to_p (167838208 + b)

abbrev intf : ℕ → Interface
intf b = record {
  if_name = b'e' ∷ [];
  is_up = true;
  ifindex = b;
  mac_add = mac b;
  intf_l2_mode = l2_mode_unknown;
  vlans = [];
  is_ipadd_config = true;
  is_ipadd_config_backup = false;
  ip_add = addr b;
  mask = 24;
}

abbrev packet : ℕ → ArpPending
packet b = record {
  pkt = record { dst_mac = mac 0; src_mac = mac 0; type = 2048; rest = b ∷ 0 ∷ 0 ∷ 0 ∷ 0 ∷ [] };
  pkt_size = 19;
}

abbrev entry : Bool → ℕ → List ArpPending → ArpEntry
entry sane proto ps = record {
  ip_addr = addr 4;
  mac_addr = 0 ∷ 0 ∷ 0 ∷ 0 ∷ 0 ∷ 0 ∷ [];
  oif_name = [];
  is_sane = sane;
  arp_pending_list = ps;
  proto = proto;
  hit_count = 0;
  exp_timer = true;
}

abbrev waiting : ArpEntry
waiting = entry true 806 (packet 1 ∷ [])

abbrev static : ArpEntry
static = entry false 1 []

abbrev reply : ArpReply
reply = record { op_code = 2; src_ip = 167838212; src_mac = mac 4 }

finds_waiting : arp_table_lookup (waiting ∷ []) (addr 4) ≡ some waiting
unfolding arp_table_lookup tcp_ip_covert_ip_n_to_p octet_chars strncmp_eq
finds_waiting = refl

finds_static : arp_table_lookup (static ∷ []) (addr 4) ≡ some static
unfolding arp_table_lookup tcp_ip_covert_ip_n_to_p octet_chars strncmp_eq
finds_static = refl

finds_none : arp_table_lookup [] (addr 4) ≡ none
unfolding arp_table_lookup
finds_none = refl

reply_resolves_example :
    (t' : ArpTable) × (arp_table_update_from_arp_reply (waiting ∷ []) reply (intf 3)
      ≡ some (t', map (pending_arp_processing (mac 4) (intf 3)) (packet 1 ∷ [])))
    × ((e : ArpEntry) × (arp_table_lookup t' (addr 4) ≡ some e)
        × (e.is_sane ≡ false)
        × (e.mac_addr ≡ strncpy_mac (mac 4))
        × (e.oif_name ≡ prefix 15 (prefix 16 (b'e' ∷ [])))
        × (e.arp_pending_list ≡ []))
    × ((k : Chars)
        → strncmp_eq 16 (addr 4) k ≡ false
        → arp_table_lookup t' k ≡ arp_table_lookup (waiting ∷ []) k)
reply_resolves_example =
    reply_resolves (waiting ∷ []) reply (intf 3) waiting refl finds_waiting refl

queue_then_reply_example :
    (t1 : ArpTable) × (queue_all [] (addr 4) (packet 1 ∷ packet 2 ∷ []) ≡ some t1)
    × ((t2 : ArpTable) × (arp_table_update_from_arp_reply t1 reply (intf 3)
          ≡ some (
            t2,
            map
                (pending_arp_processing (mac 4) (intf 3))
                (latest_first (packet 1 ∷ packet 2 ∷ []) []),
          )))
queue_then_reply_example =
    queue_then_reply [] reply (intf 3) (packet 1) (packet 2 ∷ []) refl finds_none

add_runs :
    arp_table_entry_add (waiting ∷ []) (record static { exp_timer = false })
    ≡ some (record { table = record waiting { proto = 1 } ∷ []; rc = false; pending = true })
unfolding arp_table_entry_add store_arp_entry arp_table_lookup update_arp_entry
    tcp_ip_covert_ip_n_to_p octet_chars strncmp_eq is_arp_entries_equal resolved
add_runs = refl

others : strncmp_eq 16 (addr 4) (addr 9) ≡ false
unfolding strncmp_eq tcp_ip_covert_ip_n_to_p octet_chars
others = refl

create_runs :
    create_arp_sane_entry (waiting ∷ []) (addr 4) (packet 2)
    ≡ some (entry true 806 (packet 2 ∷ packet 1 ∷ []) ∷ [])
unfolding create_arp_sane_entry arp_table_lookup update_arp_entry add_arp_pending_entry
    tcp_ip_covert_ip_n_to_p octet_chars strncmp_eq
create_runs = refl

waiting_idle : IdleTable (waiting ∷ [])
waiting_idle = (λ z. absurd (ground arith), tt)

static_idle : IdleTable (static ∷ [])
static_idle = (λ z. refl, tt)

static_stays : arp_table_update_from_arp_reply (static ∷ []) reply (intf 3) ≡ some (static ∷ [], [])
static_stays =
    reply_keeps_static (static ∷ []) reply (intf 3) static refl finds_static refl (omega arith)

arp_exchange_example :
    (answer : Frame) × (process_arp_broadcast_request (intf 4) (broadcast_request (intf 3) (addr 4))
      ≡ some answer)
    × (answer.dst_mac ≡ mac 3)
    × ((t' : ArpTable) × (process_arp_reply_msg (waiting ∷ []) (intf 3) answer
          ≡ some (t', map (pending_arp_processing (mac 4) (intf 3)) (packet 1 ∷ [])))
        × ((e : ArpEntry) × (arp_table_lookup t' (addr 4) ≡ some e)
            × (e.is_sane ≡ false)
            × (e.mac_addr ≡ strncpy_mac (mac 4))))
arp_exchange_example =
    arp_exchange (waiting ∷ []) waiting (intf 3) (intf 4) 167838211 167838212 (omega arith)
      (omega arith) refl refl refl refl finds_waiting refl

abbrev node : L2Node
node = record { intf = some (intf 3) ∷ none ∷ []; lo_addr = addr 200; arp_table = waiting ∷ [] }

by_subnet : node_get_matching_subnet_interface shift_keeps node.intf (addr 4) ≡ some (0, intf 3)
unfolding node_get_matching_subnet_interface matching_subnet_from is_same_subnet apply_mask
    mask_bits tcp_ip_covert_ip_n_to_p tcp_ip_covert_ip_p_to_n inet_pton octet_chars pton_loop
    pton_step pton_digit strncmp_eq
by_subnet = refl

not_own : strncmp_eq 16 (addr 3) (addr 4) ≡ false
unfolding strncmp_eq tcp_ip_covert_ip_n_to_p octet_chars
not_own = refl

not_loopback : strncmp_eq 16 (addr 4) (addr 200) ≡ false
unfolding strncmp_eq tcp_ip_covert_ip_n_to_p octet_chars
not_loopback = refl
