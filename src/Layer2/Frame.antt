-- ===== src/Layer2/Frame.antt =====
-- Layer2/layer2.h and layer2.c: an Ethernet frame in its buffer, and the 802.1Q tag.
use networking_protocol_deve.Base.{
  ℕ, zero, suc, ◌+◌, ◌-◌, ◌*◌, ◌/◌, ◌%◌, ◌^◌, Bool, true, false, List, [], ◌∷◌, ◌==◌, ltb,
  if◌then◌else◌, get_or, set, drop,
}
use networking_protocol_deve.Base.CString.{Chars}
pub mod Tag

-- The bytes of a packed `ethernet_hdr_t` or `vlan_ethernet_hdr_t`. `type` is the 16-bit word behind
-- the two addresses (`type` of the one, `tpid` of the other); `rest` holds the bytes behind it. In
-- an untagged frame that is the payload and the FCS; in a tagged one the two bytes of the TCI and
-- the two of the type stand before these. Words are little-endian, as on the hosts it runs on.
pub record Frame : Type 0 where
  pub dst_mac : Chars
  pub src_mac : Chars
  pub type : ℕ
  pub rest : List ℕ

abbrev pub vlan_8021q_proto : ℕ
vlan_8021q_proto = 0x8100

-- ETH_HDR_SIZE_EXCL_PAYLOAD and VLAN_ETH_HDR_SIZE_EXCL_PAYLOAD: two addresses, type, FCS, tag.
abbrev pub eth_hdr_size_excl_payload : ℕ
eth_hdr_size_excl_payload = 18

abbrev pub vlan_eth_hdr_size_excl_payload : ℕ
vlan_eth_hdr_size_excl_payload = 22

abbrev pub u32 : ℕ → ℕ
u32 n = n % 2 ^ 32

-- a - b on `uint32_t`, for b below 2 ^ 32
abbrev pub sub32 : ℕ → ℕ → ℕ
sub32 a b = (a + 2 ^ 32 - b) % 2 ^ 32

abbrev pub low_byte : ℕ → ℕ
low_byte w = w % 256

abbrev pub high_byte : ℕ → ℕ
high_byte w = w / 256 % 256

-- the 16-bit word at a place of `rest`
abbrev pub word_at : List ℕ → ℕ → ℕ
word_at bytes i = get_or bytes i 0 + 256 * get_or bytes (i + 1) 0

-- `is_pkt_vlan_tagged`, as a test
unfoldable pub is_pkt_vlan_tagged : Frame → Bool
is_pkt_vlan_tagged f = f.type == vlan_8021q_proto

-- The bit field `short tci_vid : 12` is signed: its upper half reads as negative values, which the
-- cast to `uint32_t` takes modulo 2 ^ 32.
abbrev pub vid_to_u32 : ℕ → ℕ
vid_to_u32 vid = if ltb vid 2048 then vid else vid + 2 ^ 32 - 4096

-- `GET_802_1Q_VLAN_ID`; the 16 bits of the TCI are pcp (3), dei (1) and vid (12), from the lowest.
unfoldable pub get_802_1q_vlan_id : Frame → ℕ
get_802_1q_vlan_id f = vid_to_u32 (word_at f.rest 0 / 16 % 4096)

-- zeros over the first `k` bytes
unfoldable pub zero_head : ℕ → List ℕ → List ℕ
zero_head zero bytes = bytes
zero_head (suc k) [] = []
zero_head (suc k) (b ∷ bytes) = 0 ∷ zero_head k bytes

-- a 32-bit zero stored at a place of `rest`; a place out of range is not written
unfoldable pub store_zero32 : List ℕ → ℕ → List ℕ
unfolding zero_head
store_zero32 bytes zero = zero_head 4 bytes
store_zero32 [] (suc i) = []
store_zero32 (b ∷ bytes) (suc i) = b ∷ store_zero32 bytes i

-- `SET_COMMON_ETH_FCS (hdr, payload_size, 0)`
unfoldable pub set_common_eth_fcs : Frame → ℕ → Frame
unfolding is_pkt_vlan_tagged store_zero32
set_common_eth_fcs f payload_size =
    if is_pkt_vlan_tagged f
    then record f { rest = store_zero32 f.rest (4 + payload_size) }
    else record f { rest = store_zero32 f.rest payload_size }

-- `tci_vid = (short)vlan_id` in a tagged frame: the lower four bits of the TCI stay.
unfoldable pub set_tci_vid : Frame → ℕ → Frame
set_tci_vid f vlan_id =
    let tci = word_at f.rest 0 % 16 + 16 * (vlan_id % 4096) in
    record f { rest = set (set f.rest 0 (low_byte tci)) 1 (high_byte tci) }

-- The header of a tagged frame, written four bytes before an untagged one.
unfoldable pub push_tag : Frame → ℕ → Frame
push_tag f vlan_id =
    let tci = 16 * (vlan_id % 4096) in
    record f {
      type = vlan_8021q_proto;
      rest = low_byte tci ∷ high_byte tci ∷ low_byte f.type ∷ high_byte f.type ∷ f.rest;
    }

-- `tag_pkt_with_vlan_id`: the frame and `*new_pkt_size`
unfoldable pub tag_pkt_with_vlan_id : Frame → ℕ → ℕ → Frame × ℕ
unfolding is_pkt_vlan_tagged set_common_eth_fcs set_tci_vid push_tag
tag_pkt_with_vlan_id f total_pkt_size vlan_id =
    if is_pkt_vlan_tagged f
    then (
      set_common_eth_fcs (set_tci_vid f vlan_id)
          (sub32 total_pkt_size vlan_eth_hdr_size_excl_payload),
      total_pkt_size,
    )
    else (
      set_common_eth_fcs (push_tag f vlan_id) (sub32 total_pkt_size eth_hdr_size_excl_payload),
      u32 (total_pkt_size + 4),
    )

-- The header of an untagged frame, written four bytes behind the start of a tagged one.
unfoldable pub pop_tag : Frame → Frame
pop_tag f = record f { type = word_at f.rest 2; rest = drop 4 f.rest }

-- `untag_pkt_with_vlan_id`: the frame and `*new_pkt_size`
unfoldable pub untag_pkt_with_vlan_id : Frame → ℕ → Frame × ℕ
unfolding is_pkt_vlan_tagged set_common_eth_fcs pop_tag
untag_pkt_with_vlan_id f total_pkt_size =
    if is_pkt_vlan_tagged f
    then (
      set_common_eth_fcs (pop_tag f) (sub32 total_pkt_size vlan_eth_hdr_size_excl_payload),
      sub32 total_pkt_size 4,
    )
    else (f, total_pkt_size)
