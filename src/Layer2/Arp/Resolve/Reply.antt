-- ===== src/Layer2/Arp/Resolve/Reply.antt =====
-- What a reply does to the entry that waits for it, and the way of the packets that wait.
use networking_protocol_deve.Base.{
  ℕ, ◌≡◌, ◌≢◌, refl, sym, ap, ◌∙◌, true, false, Option, none, some, List, [], ◌∷◌, map, arith,
}
use networking_protocol_deve.Base.CString.{Chars, strncmp_eq, strncmp_eq_refl, prefix}
use networking_protocol_deve.Net.{Interface}
use networking_protocol_deve.Net.Ip.{tcp_ip_covert_ip_n_to_p}
use networking_protocol_deve.Net.Ip.RoundTrip.{prefix-ntop}
use networking_protocol_deve.Layer2.Arp.{
  ArpEntry, ArpPending, ArpTable, added, arp_table_lookup, update_arp_entry, resolved, strncpy_mac,
  start_timer, store_arp_entry, arp_table_entry_add, is_arp_entries_equal, may_replace,
}
use networking_protocol_deve.Layer2.Arp.Table.{
  KeepsIp, update-lookup_self, update-lookup_ne, resolved_ip,
}
use networking_protocol_deve.Layer2.Arp.Resolve.{
  ArpReply, entry_of_reply, settled, pending_arp_processing, arp_table_update_from_arp_reply,
  create_arp_sane_entry, add_arp_pending_entry, new_sane_entry, arp_entry_add, configured_entry,
}

-- a full entry fills one that waits
fill :
    (t : ArpTable) (e old : ArpEntry)
    → arp_table_lookup t e.ip_addr ≡ some old
    → old.is_sane ≡ true
    → e.is_sane ≡ false
    → arp_table_entry_add t e ≡ added (update_arp_entry t e.ip_addr (resolved e)) false true
unfolding arp_table_entry_add store_arp_entry is_arp_entries_equal
fill t e old f s n = rw f (ground arith)

settled_ip : KeepsIp settled
settled_ip e = refl

-- When the reply to an address comes that an entry waits for, the packets that waited are sent in the
-- order of the list, each with the sender's hardware address. Then the entry is full, with the
-- address up to its first zero byte and the name of the interface, and nothing waits; every other
-- entry is found as before.
pub reply_resolves :
    (t : ArpTable) (h : ArpReply) (iif : Interface) (old : ArpEntry)
    → h.op_code ≡ 2
    → arp_table_lookup t (tcp_ip_covert_ip_n_to_p h.src_ip) ≡ some old
    → old.is_sane ≡ true
    → (t' : ArpTable) × (arp_table_update_from_arp_reply t h iif
        ≡ some (t', map (pending_arp_processing h.src_mac iif) old.arp_pending_list))
      × ((e : ArpEntry) × (arp_table_lookup t' (tcp_ip_covert_ip_n_to_p h.src_ip) ≡ some e)
          × (e.is_sane ≡ false)
          × (e.mac_addr ≡ strncpy_mac h.src_mac)
          × (e.oif_name ≡ prefix 15 (prefix 16 iif.if_name))
          × (e.arp_pending_list ≡ []))
      × ((k : Chars)
          → strncmp_eq 16 (tcp_ip_covert_ip_n_to_p h.src_ip) k ≡ false
          → arp_table_lookup t' k ≡ arp_table_lookup t k)
unfolding arp_table_update_from_arp_reply entry_of_reply resolved
reply_resolves t h iif old op f s =
    let k : Chars = tcp_ip_covert_ip_n_to_p h.src_ip in
    let e = entry_of_reply h iif in
    let t1 : ArpTable = update_arp_entry t k (resolved e) in
    let filled = fill t e old f s refl in
    let found = update-lookup_self k (resolved e) t old (resolved_ip e) f in
    (
      update_arp_entry t1 k settled,
      rw (op, filled, found) refl,
      (
        settled (resolved e old),
        update-lookup_self k settled t1 (resolved e old) settled_ip found,
        refl,
        refl,
        refl,
        refl,
      ),
      λ k' n.
          update-lookup_ne k k' settled t1 settled_ip n
          ∙ update-lookup_ne k k' (resolved e) t (resolved_ip e) n,
    )

-- An entry that another protocol configured stands against replies: the table stays, and nothing is
-- sent.
pub reply_keeps_static :
    (t : ArpTable) (h : ArpReply) (iif : Interface) (old : ArpEntry)
    → h.op_code ≡ 2
    → arp_table_lookup t (tcp_ip_covert_ip_n_to_p h.src_ip) ≡ some old
    → old.is_sane ≡ false
    → old.proto ≢ 806
    → arp_table_update_from_arp_reply t h iif ≡ some (t, [])
unfolding arp_table_update_from_arp_reply entry_of_reply arp_table_entry_add store_arp_entry
    is_arp_entries_equal may_replace
reply_keeps_static t h iif old op f s p = rw (op, f) (ground arith)

-- packets queued one after the other
unfoldable pub queue_all : ArpTable → Chars → List ArpPending → Option ArpTable
queue_all t ip [] = some t
queue_all t ip (p ∷ ps) = elim (create_arp_sane_entry t ip p) [
  | none ↦ none
  | some t' ↦ queue_all t' ip ps
]

-- the packets in reverse, on top of those that waited before
unfoldable pub latest_first : List ArpPending → List ArpPending → List ArpPending
latest_first [] acc = acc
latest_first (p ∷ ps) acc = latest_first ps (p ∷ acc)

-- `t` has an entry for `ip` that waits, with the packets `ps`
abbrev pub Waits : ArpTable → Chars → List ArpPending → Type 0
Waits t ip ps =
    (e : ArpEntry) × (arp_table_lookup t ip ≡ some e)
    × (e.is_sane ≡ true)
    × (e.arp_pending_list ≡ ps)

pub queue_one :
    (t : ArpTable) (ip : Chars) (acc : List ArpPending) (p : ArpPending)
    → Waits t ip acc
    → (t' : ArpTable) × (create_arp_sane_entry t ip p ≡ some t') × Waits t' ip (p ∷ acc)
unfolding create_arp_sane_entry add_arp_pending_entry
queue_one t ip acc p (e, f, s, w) = (
  update_arp_entry t ip (add_arp_pending_entry p),
  rw (f, s, create_arp_sane_entry) refl,
  (
    add_arp_pending_entry p e,
    update-lookup_self ip (add_arp_pending_entry p) t e (λ x. refl) f,
    s,
    ap (λ l. p ∷ l) w,
  ),
)

queue_rest :
    (ps : List ArpPending) (t : ArpTable) (ip : Chars) (acc : List ArpPending)
    → Waits t ip acc
    → (t' : ArpTable) × (queue_all t ip ps ≡ some t') × Waits t' ip (latest_first ps acc)
unfolding queue_all latest_first
queue_rest [] t ip acc w = (t, refl, w)
queue_rest (p ∷ ps) t ip acc w =
    let (t1, c, w1) = queue_one t ip acc p w in
    let (t2, q, w2) = queue_rest ps t1 ip (p ∷ acc) w1 in (t2, rw (c, queue_all) q, w2)

pub queue_first :
    (t : ArpTable) (x : ℕ) (p : ArpPending)
    → arp_table_lookup t (tcp_ip_covert_ip_n_to_p x) ≡ none
    → (t' : ArpTable) × (create_arp_sane_entry t (tcp_ip_covert_ip_n_to_p x) p ≡ some t')
      × Waits t' (tcp_ip_covert_ip_n_to_p x) (p ∷ [])
unfolding create_arp_sane_entry new_sane_entry arp_table_entry_add store_arp_entry start_timer
    arp_table_lookup
queue_first t x p f = (
  start_timer (new_sane_entry (tcp_ip_covert_ip_n_to_p x) p) ∷ t,
  rw (f, create_arp_sane_entry, prefix-ntop 15 x (omega arith), f) refl,
  (
    start_timer (new_sane_entry (tcp_ip_covert_ip_n_to_p x) p),
    rw (prefix-ntop 15 x (omega arith), strncmp_eq_refl 16 (tcp_ip_covert_ip_n_to_p x)) refl,
    refl,
    refl,
  ),
)

-- Packets that are queued for an address without an entry all wait, and the reply to that address
-- sends each of them once, the latest first, with the sender's hardware address. No assertion fails.
pub queue_then_reply :
    (t : ArpTable) (h : ArpReply) (iif : Interface) (p : ArpPending) (ps : List ArpPending)
    → h.op_code ≡ 2
    → arp_table_lookup t (tcp_ip_covert_ip_n_to_p h.src_ip) ≡ none
    → (t1 : ArpTable) × (queue_all t (tcp_ip_covert_ip_n_to_p h.src_ip) (p ∷ ps) ≡ some t1)
      × ((t2 : ArpTable) × (arp_table_update_from_arp_reply t1 h iif
            ≡ some (t2, map (pending_arp_processing h.src_mac iif) (latest_first (p ∷ ps) []))))
unfolding queue_all latest_first
queue_then_reply t h iif p ps op f =
    let k : Chars = tcp_ip_covert_ip_n_to_p h.src_ip in
    let (t0, c, w) = queue_first t h.src_ip p f in
    let (t1, q, (e, g, s, l)) = queue_rest ps t0 k (p ∷ []) w in
    let (t2, r, _, _) = reply_resolves t1 h iif e op g s in
    (
      t1,
      rw (c, queue_all) q,
      (t2, r ∙ ap (λ l. some (t2, map (pending_arp_processing h.src_mac iif) l)) l),
    )

-- Configuring an entry for an address that an entry waits for reports a failure. The entry takes the
-- hardware address given, up to its first zero byte, but goes on waiting, with its packets.
pub static_over_waiting :
    (t : ArpTable) (x : ℕ) (mac : Chars) (oif : Interface) (proto : ℕ) (old : ArpEntry)
    → arp_table_lookup t (tcp_ip_covert_ip_n_to_p x) ≡ some old
    → old.is_sane ≡ true
    → (t' : ArpTable) × (arp_entry_add t (tcp_ip_covert_ip_n_to_p x) mac oif proto
        ≡ some (t', false))
      × ((e : ArpEntry) × (arp_table_lookup t' (tcp_ip_covert_ip_n_to_p x) ≡ some e)
          × (e.is_sane ≡ true)
          × (e.mac_addr ≡ strncpy_mac mac)
          × (e.arp_pending_list ≡ old.arp_pending_list))
unfolding arp_entry_add resolved configured_entry
static_over_waiting t x mac oif proto old f s =
    let k : Chars = tcp_ip_covert_ip_n_to_p x in
    let e : ArpEntry = configured_entry k mac oif proto in
    let key : e.ip_addr ≡ k = prefix-ntop 16 x (omega arith) in
    let found : arp_table_lookup t e.ip_addr ≡ some old = rw key f in
    let after = update-lookup_self e.ip_addr (resolved e) t old (resolved_ip e) found in
    (
      update_arp_entry t e.ip_addr (resolved e),
      rw (fill t e old found s refl, arp_entry_add) refl,
      (
        resolved e old,
        ap (arp_table_lookup (update_arp_entry t e.ip_addr (resolved e))) (sym key) ∙ after,
        s,
        refl,
        refl,
      ),
    )
