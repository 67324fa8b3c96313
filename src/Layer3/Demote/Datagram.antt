-- ===== src/Layer3/Demote/Datagram.antt =====
-- What a packet looks like that this node sends.
use networking_protocol_deve.Base.{
  ℕ, zero, suc, ◌+◌, ◌-◌, ◌*◌, ◌%◌, ◌/◌, ◌^◌, ◌≤◌, ◌<◌, ◌≡◌, refl, sym, ap, ◌∙◌, Bool, true, false,
  some, List, [], ◌∷◌, ◌++◌, ◌==◌, if◌then◌else◌, length, length-append, ltb, take, drop, replicate,
  arith,
}
use networking_protocol_deve.Net.Ip.{tcp_ip_covert_ip_p_to_n, inet_pton}
use networking_protocol_deve.Layer3.RtTable.{Route, l3rib_lookup_lpm, l3_route_get_active_nexthop}
use networking_protocol_deve.Layer3.Nexthops.{Nexthop}
use networking_protocol_deve.Layer3.Packet.{
  L3Node, demoted, ihl_of, ttl_of, protocol_of, dst_ip_of, NfHook, nf_ip_local_out,
}
use networking_protocol_deve.Layer3.Demote.{
  compute_default_total_len, ip_header, total_len_in_bytes, build_packet, demote_via, demote_routed,
  demote_packet_to_layer3,
}
use networking_protocol_deve.Layer3.Packet.{next_hop_of, written_or}
use networking_protocol_deve.Base.CString.{Chars}

take-append : (xs ys : List ℕ) → take (length xs) (xs ++ ys) ≡ xs
take-append [] ys = refl
take-append (x ∷ xs) ys = ap (λ l. x ∷ l) (take-append xs ys)

length-replicate : (k v : ℕ) → length (replicate k v) ≡ k
length-replicate zero v = refl
length-replicate (suc k) v = ap suc (length-replicate k v)

-- the words that a payload of `size` bytes needs, with the header
abbrev words : ℕ → ℕ
words size = 5 + size / 4 + (if size % 4 == 0 then 0 else 1)

words_enough : (size : ℕ) → size ≤ 1500 → (20 + size ≤ words size * 4) × (words size < 2 ^ 15)
words_enough size h = ground arith

total_len_of_short :
    (t : ℕ)
    → t < 2 ^ 15
    → (let w = t % 2 ^ 16 % 256 + 256 * (t % 2 ^ 16 / 256) in
        (if ltb w (2 ^ 15) then w else w + 2 ^ 32 - 2 ^ 16) * 4 % 2 ^ 32)
      ≡ t * 4
total_len_of_short t h = ground arith

module _ (n : L3Node) (pkt : List ℕ) (protocol dst : ℕ) (fits : length pkt ≤ 1500)
    (p : protocol < 256) (d : dst < 2 ^ 32) where
  total-len : total_len_in_bytes (build_packet n pkt protocol dst) ≡ words (length pkt) * 4
  unfolding build_packet ip_header total_len_in_bytes compute_default_total_len
  total-len =
      let (_, small) = words_enough (length pkt) fits in
      total_len_of_short (words (length pkt)) small

  header-len :
      total_len_in_bytes (ip_header protocol (tcp_ip_covert_ip_p_to_n n.lo_addr) dst (length pkt))
      ≡ words (length pkt) * 4
  unfolding ip_header total_len_in_bytes compute_default_total_len
  header-len =
      let (_, small) = words_enough (length pkt) fits in
      total_len_of_short (words (length pkt)) small

  build_packet-length : length (build_packet n pkt protocol dst) ≡ words (length pkt) * 4
  unfolding build_packet ip_header
  build_packet-length =
      let (enough, _) = words_enough (length pkt) fits in
      let header = ip_header protocol (tcp_ip_covert_ip_p_to_n n.lo_addr) dst (length pkt) in
      let padding : List ℕ = replicate (total_len_in_bytes header - 20 - length pkt) 0 in
      omega (
        arith,
        length-append pkt padding,
        length-replicate (total_len_in_bytes header - 20 - length pkt) 0,
        header-len,
        enough,
      )

  -- A packet that is built for a payload of at most 1500 bytes has a header of five words, a TTL of 64, the
  -- protocol and the destination given, a size that fills whole words, and the payload behind the header.
  pub build_packet-fields :
      let new_pkt = build_packet n pkt protocol dst in
      (ihl_of new_pkt ≡ 5)
      × (ttl_of new_pkt ≡ 64)
      × (protocol_of new_pkt ≡ protocol)
      × (dst_ip_of new_pkt ≡ dst)
      × (length new_pkt ≡ total_len_in_bytes new_pkt)
      × (take (length pkt) (drop 20 new_pkt) ≡ pkt)
  unfolding build_packet ip_header
  build_packet-fields =
      let header = ip_header protocol (tcp_ip_covert_ip_p_to_n n.lo_addr) dst (length pkt) in
      (
        omega arith,
        refl,
        omega (arith, p),
        omega (arith, d),
        build_packet-length ∙ sym total-len,
        take-append pkt (replicate (total_len_in_bytes header - 20 - length pkt) 0),
      )

next_hop-text :
    (unset : ℕ) (gw : Chars) (hop : ℕ) → inet_pton gw ≡ some hop → next_hop_of unset gw ≡ hop
unfolding next_hop_of
next_hop-text unset gw hop e = ap (written_or unset) e

-- Where the longest match of the destination is a route that is not direct and has a nexthop in turn,
-- whose gateway is the text of an address, and the hook accepts, the node hands the packet to layer
-- 2 for that address and the nexthop's interface: a payload of at most 224 bytes behind a header of
-- five words with TTL 64, the protocol and the destination given, in a packet that its header
-- measures and that has fewer than the 248 bytes at which layer 2 fails its assertion. The protocol
-- has 8 bits and the destination 32.
pub demote_packet-sent :
    (nf_accepts : NfHook → List ℕ → Bool) (unset : ℕ) (shift_32 : ℕ → ℕ) (n : L3Node) (pkt : List ℕ)
    (protocol dst : ℕ) (r r' : Route) (nexthop : Nexthop) (hop : ℕ)
    → length pkt ≤ 224
    → protocol < 256
    → dst < 2 ^ 32
    → l3rib_lookup_lpm shift_32 n.rt_table dst ≡ some r
    → r.is_direct ≡ false
    → l3_route_get_active_nexthop r ≡ (some nexthop, r')
    → inet_pton nexthop.gw_ip ≡ some hop
    → ((q : List ℕ) → nf_accepts nf_ip_local_out q ≡ true)
    → (new_pkt : List ℕ) × ((demote_packet_to_layer3 nf_accepts unset shift_32 n pkt protocol dst).1
        ≡ demoted hop (some (n.if_name nexthop.oif)) new_pkt (length new_pkt))
      × (length new_pkt < 248)
      × (ihl_of new_pkt ≡ 5)
      × (ttl_of new_pkt ≡ 64)
      × (protocol_of new_pkt ≡ protocol)
      × (dst_ip_of new_pkt ≡ dst)
      × (length new_pkt ≡ total_len_in_bytes new_pkt)
      × (take (length pkt) (drop 20 new_pkt) ≡ pkt)
unfolding demote_packet_to_layer3 demote_routed demote_via
demote_packet-sent nf_accepts unset shift_32 n pkt protocol dst r r' nexthop hop small p d found
      indirect active gateway accepts =
    let new_pkt = build_packet n pkt protocol dst in
    let fits : length pkt ≤ 1500 = omega (arith, small) in
    let (a, b, c, e, whole, payload) = build_packet-fields n pkt protocol dst fits p d in
    let sent : (demote_packet_to_layer3 nf_accepts unset shift_32 n pkt protocol dst).1
        ≡ demoted hop (some (n.if_name nexthop.oif)) new_pkt (total_len_in_bytes new_pkt) =
      rw (found, active, indirect, accepts new_pkt, next_hop-text unset nexthop.gw_ip hop gateway)
        refl in
    (
      new_pkt,
      sent ∙ ap (demoted hop (some (n.if_name nexthop.oif)) new_pkt) (sym whole),
      ground (arith, small, build_packet-length n pkt protocol dst fits p d),
      a,
      b,
      c,
      e,
      whole,
      payload,
    )
