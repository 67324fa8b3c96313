-- ===== src/Layer2/Arp/Resolve.antt =====
-- Layer2/arp.c: packets wait for the resolution of an address, and leave when the reply comes.
use networking_protocol_deve.Base.{
  ℕ, ◌+◌, Bool, true, false, not, Option, none, some, List, [], ◌∷◌, map, ◌==◌, if◌then◌else◌,
}
use networking_protocol_deve.Base.CString.{Chars, prefix}
use networking_protocol_deve.Net.{Interface}
use networking_protocol_deve.Net.Ip.{tcp_ip_covert_ip_n_to_p}
use networking_protocol_deve.Layer2.Frame.{
  Frame, is_pkt_vlan_tagged, set_common_eth_fcs, sub32, eth_hdr_size_excl_payload,
  vlan_eth_hdr_size_excl_payload,
}
use networking_protocol_deve.Layer2.Arp.{
  ArpEntry, ArpPending, ArpTable, Added, arp_table_lookup, update_arp_entry, arp_table_entry_add,
  proto_arp,
}
pub mod Idle
pub mod Reply

-- GET_ETH_HDR_SIZE_EXCL_PAYLOAD
unfoldable pub get_eth_hdr_size_excl_payload : Frame → ℕ
unfolding is_pkt_vlan_tagged
get_eth_hdr_size_excl_payload f =
    if is_pkt_vlan_tagged f then vlan_eth_hdr_size_excl_payload else eth_hdr_size_excl_payload

-- `add_arp_pending_entry`
unfoldable pub add_arp_pending_entry : ArpPending → ArpEntry → ArpEntry
add_arp_pending_entry p e = record e { arp_pending_list = p ∷ e.arp_pending_list }

-- the entry that `create_arp_sane_entry` allocates
unfoldable pub new_sane_entry : Chars → ArpPending → ArpEntry
unfolding prefix
new_sane_entry ip_addr p = record {
  ip_addr = prefix 15 ip_addr;
  mac_addr = 0 ∷ 0 ∷ 0 ∷ 0 ∷ 0 ∷ 0 ∷ [];
  oif_name = [];
  is_sane = true;
  arp_pending_list = p ∷ [];
  proto = proto_arp;
  hit_count = 0;
  exp_timer = false;
}

-- `create_arp_sane_entry`: the table. The last step is an assertion on what the addition returns.
unfoldable pub create_arp_sane_entry : ArpTable → Chars → ArpPending → Option ArpTable
create_arp_sane_entry t ip_addr p = elim (arp_table_lookup t ip_addr) [
  | some e ↦ if e.is_sane then some (update_arp_entry t ip_addr (add_arp_pending_entry p)) else none
  | none ↦ elim (arp_table_entry_add t (new_sane_entry ip_addr p)) [
    | none ↦ none
    | some a ↦ if a.rc then some a.table else none
  ]
]

-- `pending_arp_processing_callback_function`: what it sends
unfoldable pub pending_arp_processing : Chars → Interface → ArpPending → ArpPending
unfolding get_eth_hdr_size_excl_payload set_common_eth_fcs
pending_arp_processing mac oif p =
    let hdr : Frame = record p.pkt { dst_mac = mac; src_mac = oif.mac_add } in
    record {
      pkt = set_common_eth_fcs hdr (sub32 p.pkt_size (get_eth_hdr_size_excl_payload hdr));
      pkt_size = p.pkt_size;
    }

-- what a reply tells: its operation, and the sender's addresses
pub record ArpReply : Type 0 where
  pub op_code : ℕ
  pub src_ip : ℕ
  pub src_mac : Chars

abbrev pub arp_reply : ℕ
arp_reply = 2

-- the entry that `arp_table_update_from_arp_reply` allocates
unfoldable pub entry_of_reply : ArpReply → Interface → ArpEntry
entry_of_reply h iif = record {
  ip_addr = tcp_ip_covert_ip_n_to_p h.src_ip;
  mac_addr = h.src_mac;
  oif_name = prefix 16 iif.if_name;
  is_sane = false;
  arp_pending_list = [];
  proto = proto_arp;
  hit_count = 0;
  exp_timer = false;
}

abbrev pub settled : ArpEntry → ArpEntry
settled old = record old { arp_pending_list = []; is_sane = false }

abbrev pub pending_of : Option ArpEntry → List ArpPending
pending_of none = []
pending_of (some e) = e.arp_pending_list

-- `arp_table_update_from_arp_reply`: the table, and the packets sent on the interface
unfoldable pub arp_table_update_from_arp_reply :
    ArpTable → ArpReply → Interface → Option (ArpTable × List ArpPending)
arp_table_update_from_arp_reply t h iif =
    if not (h.op_code == arp_reply)
    then none
    else let e = entry_of_reply h iif in
      elim (arp_table_entry_add t e) [
        | none ↦ none
        | some a ↦
            if a.pending
            then some (
              update_arp_entry a.table e.ip_addr settled,
              map (pending_arp_processing e.mac_addr iif)
                  (pending_of (arp_table_lookup a.table e.ip_addr)),
            )
            else some (a.table, [])
      ]

-- the entry that `arp_entry_add` allocates
unfoldable pub configured_entry : Chars → Chars → Interface → ℕ → ArpEntry
configured_entry ip_addr mac oif proto = record {
  ip_addr = prefix 16 ip_addr;
  mac_addr = mac;
  oif_name = prefix 16 oif.if_name;
  is_sane = false;
  arp_pending_list = [];
  proto = proto;
  hit_count = 0;
  exp_timer = false;
}

-- `arp_entry_add`: the table, and whether the entry was taken
unfoldable pub arp_entry_add : ArpTable → Chars → Chars → Interface → ℕ → Option (ArpTable × Bool)
arp_entry_add t ip_addr mac oif proto =
    elim (arp_table_entry_add t (configured_entry ip_addr mac oif proto)) [
      | none ↦ none
      | some a ↦ some (a.table, a.rc)
    ]
