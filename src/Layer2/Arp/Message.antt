-- ===== src/Layer2/Arp/Message.antt =====
-- Layer2/arp.h, arp.c and layer2.c: ARP messages as bytes of frames, and what is done with them.
use networking_protocol_deve.Base.{
  ℕ, ◌+◌, ◌*◌, ◌/◌, ◌%◌, ◌^◌, Bool, true, false, not, ◌&&◌, Option, none, some, List, [], ◌∷◌, ◌++◌,
  ◌==◌, if◌then◌else◌, get_or, drop,
}
use networking_protocol_deve.Base.CString.{Chars, strncmp_eq}
use networking_protocol_deve.Net.{Interface, Slots}
use networking_protocol_deve.Net.Ip.{
  tcp_ip_covert_ip_n_to_p, tcp_ip_covert_ip_p_to_n, is_same_subnet,
}
use networking_protocol_deve.Layer2.Frame.{
  Frame, is_pkt_vlan_tagged, set_common_eth_fcs, low_byte, high_byte, word_at,
}
use networking_protocol_deve.Layer2.Arp.{ArpPending, ArpTable, proto_arp}
use networking_protocol_deve.Layer2.Arp.Resolve.{
  ArpReply, arp_reply, arp_table_update_from_arp_reply,
}
pub mod Exchange

-- `arp_hdr_t`
pub record ArpHdr : Type 0 where
  pub hw_type : ℕ
  pub proto_type : ℕ
  pub hw_addr_len : ℕ
  pub proto_addr_len : ℕ
  pub op_code : ℕ
  pub src_mac : Chars
  pub src_ip : ℕ
  pub dst_mac : Chars
  pub dst_ip : ℕ

abbrev pub arp_broad_req : ℕ
arp_broad_req = 1

-- `sizeof(arp_hdr_t)`, packed
abbrev pub arp_hdr_size : ℕ
arp_hdr_size = 28

-- words and addresses in memory; `memcpy` copies six bytes of an address
abbrev pub bytes_of_word : ℕ → List ℕ
bytes_of_word w = low_byte w ∷ high_byte w ∷ []

abbrev pub bytes_of_long : ℕ → List ℕ
bytes_of_long n = n % 256 ∷ n / 256 % 256 ∷ n / 2 ^ 16 % 256 ∷ n / 2 ^ 24 % 256 ∷ []

abbrev pub long_at : List ℕ → ℕ → ℕ
long_at bytes i = word_at bytes i + 2 ^ 16 * word_at bytes (i + 2)

abbrev pub mac_at : List ℕ → ℕ → Chars
mac_at bytes i =
    get_or bytes i 0
    ∷ get_or bytes (i + 1) 0
    ∷ get_or bytes (i + 2) 0
    ∷ get_or bytes (i + 3) 0
    ∷ get_or bytes (i + 4) 0
    ∷ get_or bytes (i + 5) 0
    ∷ []

-- the header as it lies in a packet
unfoldable pub bytes_of_arp_hdr : ArpHdr → List ℕ
bytes_of_arp_hdr h =
    bytes_of_word h.hw_type
    ++ (bytes_of_word h.proto_type
        ++ (h.hw_addr_len
            ∷ h.proto_addr_len
            ∷ (bytes_of_word h.op_code
                ++ (mac_at h.src_mac 0
                    ++ (bytes_of_long h.src_ip
                        ++ (mac_at h.dst_mac 0 ++ bytes_of_long h.dst_ip))))))

-- the cast of a payload to `arp_hdr_t *`
unfoldable pub arp_hdr_at : List ℕ → ArpHdr
arp_hdr_at bytes = record {
  hw_type = word_at bytes 0;
  proto_type = word_at bytes 2;
  hw_addr_len = get_or bytes 4 0;
  proto_addr_len = get_or bytes 5 0;
  op_code = word_at bytes 6;
  src_mac = mac_at bytes 8;
  src_ip = long_at bytes 14;
  dst_mac = mac_at bytes 18;
  dst_ip = long_at bytes 24;
}

-- GET_ETHERNET_HDR_PAYLOAD
unfoldable pub get_ethernet_hdr_payload : Frame → List ℕ
unfolding is_pkt_vlan_tagged
get_ethernet_hdr_payload f = if is_pkt_vlan_tagged f then drop 4 f.rest else f.rest

-- a frame from a zeroed buffer, with an ARP header and an FCS
unfoldable pub arp_frame : Chars → Chars → ArpHdr → Frame
unfolding bytes_of_arp_hdr set_common_eth_fcs
arp_frame dst_mac src_mac h =
    set_common_eth_fcs
      (record {
        dst_mac = dst_mac;
        src_mac = src_mac;
        type = proto_arp;
        rest = bytes_of_arp_hdr h ++ (0 ∷ 0 ∷ 0 ∷ 0 ∷ []);
      })
      arp_hdr_size

-- the header that `send_arp_broadcast_request` fills
abbrev pub request_hdr : Interface → Chars → ArpHdr
request_hdr oif ip_addr = record {
  hw_type = 1;
  proto_type = 0x0800;
  hw_addr_len = 6;
  proto_addr_len = 4;
  op_code = arp_broad_req;
  src_mac = oif.mac_add;
  src_ip = tcp_ip_covert_ip_p_to_n oif.ip_add;
  dst_mac = 0 ∷ 0 ∷ 0 ∷ 0 ∷ 0 ∷ 0 ∷ [];
  dst_ip = tcp_ip_covert_ip_p_to_n ip_addr;
}

-- `send_arp_broadcast_request` out of `oif`: the frame
unfoldable pub broadcast_request : Interface → Chars → Frame
broadcast_request oif ip_addr =
    arp_frame (255 ∷ 255 ∷ 255 ∷ 255 ∷ 255 ∷ 255 ∷ []) oif.mac_add (request_hdr oif ip_addr)

-- The loop of `node_get_matching_subnet_interface` from slot `k` on; it ends at the first free slot.
unfoldable pub matching_subnet_from : (ℕ → ℕ) → ℕ → Slots → Chars → Option (ℕ × Interface)
unfolding is_same_subnet
matching_subnet_from shift_32 k [] ip_addr = none
matching_subnet_from shift_32 k (none ∷ slots) ip_addr = none
matching_subnet_from shift_32 k (some intf ∷ slots) ip_addr =
    if intf.is_ipadd_config && is_same_subnet shift_32 intf.ip_add intf.mask ip_addr
    then some (k, intf)
    else matching_subnet_from shift_32 (k + 1) slots ip_addr

-- `node_get_matching_subnet_interface`
unfoldable pub node_get_matching_subnet_interface : (ℕ → ℕ) → Slots → Chars → Option (ℕ × Interface)
node_get_matching_subnet_interface shift_32 slots ip_addr =
    matching_subnet_from shift_32 0 slots ip_addr

-- a frame and the slot it leaves by; its size is ETH_HDR_SIZE_EXCL_PAYLOAD + `sizeof(arp_hdr_t)`
pub record ArpSent : Type 0 where
  pub port : ℕ
  pub frame : Frame
  pub size : ℕ

-- `send_arp_broadcast_request`, with `oif` or, where it is NULL, with the interface of the subnet
unfoldable pub send_arp_broadcast_request :
    (ℕ → ℕ) → Slots → Option (ℕ × Interface) → Chars → List ArpSent
send_arp_broadcast_request shift_32 slots (some (k, oif)) ip_addr =
    record { port = k; frame = broadcast_request oif ip_addr; size = 46 } ∷ []
send_arp_broadcast_request shift_32 slots none ip_addr =
    elim (node_get_matching_subnet_interface shift_32 slots ip_addr) [
      | none ↦ []
      | some (k, oif) ↦
          if strncmp_eq 16 oif.ip_add ip_addr
          then []
          else record { port = k; frame = broadcast_request oif ip_addr; size = 46 } ∷ []
    ]

-- the header that `send_arp_reply_msg` fills
abbrev pub reply_hdr : ArpHdr → Interface → ArpHdr
reply_hdr arp_hdr_in oif = record {
  hw_type = 1;
  proto_type = 0x0800;
  hw_addr_len = 6;
  proto_addr_len = 4;
  op_code = arp_reply;
  src_mac = oif.mac_add;
  src_ip = tcp_ip_covert_ip_p_to_n oif.ip_add;
  dst_mac = arp_hdr_in.src_mac;
  dst_ip = arp_hdr_in.src_ip;
}

-- `send_arp_reply_msg`: the frame, sent with size 46 out of `oif`
unfoldable pub send_arp_reply_msg : Frame → Interface → Frame
send_arp_reply_msg ethernet_hdr_in oif =
    let arp_hdr_in = arp_hdr_at (get_ethernet_hdr_payload ethernet_hdr_in) in
    arp_frame arp_hdr_in.src_mac oif.mac_add (reply_hdr arp_hdr_in oif)

-- `process_arp_broadcast_request`: the reply, if there is one
unfoldable pub process_arp_broadcast_request : Interface → Frame → Option Frame
process_arp_broadcast_request iif f =
    let h = arp_hdr_at (get_ethernet_hdr_payload f) in
    if strncmp_eq 16 iif.ip_add (tcp_ip_covert_ip_n_to_p h.dst_ip)
    then some (send_arp_reply_msg f iif)
    else none

-- `process_arp_reply_msg`
unfoldable pub process_arp_reply_msg :
    ArpTable → Interface → Frame → Option (ArpTable × List ArpPending)
process_arp_reply_msg t iif f =
    let h = arp_hdr_at (get_ethernet_hdr_payload f) in
    arp_table_update_from_arp_reply t
      (record { op_code = h.op_code; src_ip = h.src_ip; src_mac = h.src_mac }) iif

-- What `promote_pkt_to_layer2` does with a frame of the type of ARP, by the operation.
pub data ArpOutcome : Type 0 where
  ignored : ArpOutcome
  replied : Option Frame → ArpOutcome
  updated : Option (ArpTable × List ArpPending) → ArpOutcome

unfoldable pub promote_arp : ArpTable → Interface → Frame → ArpOutcome
promote_arp t iif f =
    let op_code = (arp_hdr_at (get_ethernet_hdr_payload f)).op_code in
    if op_code == arp_broad_req
    then replied (process_arp_broadcast_request iif f)
    else if op_code == arp_reply
    then updated (process_arp_reply_msg t iif f)
    else ignored
