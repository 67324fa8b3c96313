-- ===== src/Layer2/Arp.antt =====
-- Layer2/arp.c: the ARP table, a list of entries, the latest first. An entry that waits for a reply is
-- "sane" in the source's words. The expiration timer is the fact that it runs; the time left, which
-- only the timer library reads, is left out. Every pending packet has the one callback of the source.
use networking_protocol_deve.Base.{
  ℕ, ◌+◌, ◌-◌, Bool, true, false, ◌&&◌, ◌||◌, not, Option, none, some, List, [], ◌∷◌, ◌++◌, map,
  ◌==◌, if◌then◌else◌, replicate, length,
}
use networking_protocol_deve.Base.CString.{Chars, strncmp_eq, prefix}
use networking_protocol_deve.Net.{Interface, if_name_size}
use networking_protocol_deve.Net.Ip.{tcp_ip_covert_ip_n_to_p}
use networking_protocol_deve.Layer2.Frame.{
  Frame, is_pkt_vlan_tagged, set_common_eth_fcs, sub32, eth_hdr_size_excl_payload,
  vlan_eth_hdr_size_excl_payload,
}
use networking_protocol_deve.Layer2.MacTable.{mac_size}
pub mod Resolve
pub mod Table
pub mod Message

abbrev pub proto_arp : ℕ
proto_arp = 806

-- `arp_pending_entry_t`
pub record ArpPending : Type 0 where
  pub pkt : Frame
  pub pkt_size : ℕ

-- `arp_entry_t`
pub record ArpEntry : Type 0 where
  pub ip_addr : Chars
  pub mac_addr : Chars
  pub oif_name : Chars
  pub is_sane : Bool
  pub arp_pending_list : List ArpPending
  pub proto : ℕ
  pub hit_count : ℕ
  pub exp_timer : Bool

-- `arp_table_t`
abbrev pub ArpTable : Type 0
ArpTable = List ArpEntry

unfoldable pub init_arp_table : ArpTable
init_arp_table = []

abbrev pub has_ip : Chars → ArpEntry → Bool
has_ip ip e = strncmp_eq 16 e.ip_addr ip

-- `arp_table_lookup`
unfoldable pub arp_table_lookup : ArpTable → Chars → Option ArpEntry
arp_table_lookup [] ip = none
arp_table_lookup (e ∷ t) ip = if has_ip ip e then some e else arp_table_lookup t ip

-- `delete_arp_entry` on the entry that the lookup finds
unfoldable pub delete_arp_entry : ArpTable → Chars → ArpTable
delete_arp_entry [] ip = []
delete_arp_entry (e ∷ t) ip = if has_ip ip e then t else e ∷ delete_arp_entry t ip

-- the entry that the lookup finds, changed in place
unfoldable pub update_arp_entry : ArpTable → Chars → (ArpEntry → ArpEntry) → ArpTable
update_arp_entry [] ip change = []
update_arp_entry (e ∷ t) ip change =
    if has_ip ip e then change e ∷ t else e ∷ update_arp_entry t ip change

-- the loop of `clear_arp_table`
unfoldable pub clear_arp_table : ArpTable → ArpTable
clear_arp_table [] = []
clear_arp_table (_ ∷ t) = clear_arp_table t

-- `arp_entry_delete`
unfoldable pub arp_entry_delete : ArpTable → Chars → ℕ → ArpTable
arp_entry_delete t ip proto = elim (arp_table_lookup t ip) [
  | none ↦ t
  | some e ↦ if e.proto == proto then delete_arp_entry t ip else t
]

-- IS_ARP_ENTRIES_EQUAL
unfoldable pub is_arp_entries_equal : ArpEntry → ArpEntry → Bool
is_arp_entries_equal a b =
    strncmp_eq 16 a.ip_addr b.ip_addr
    && strncmp_eq mac_size a.mac_addr b.mac_addr
    && strncmp_eq if_name_size a.oif_name b.oif_name
    && (if a.is_sane then b.is_sane else not b.is_sane)
    && not a.is_sane
    && a.proto == b.proto

-- A protocol replaces its own entry, and any other one replaces an entry of ARP.
unfoldable pub may_replace : ArpEntry → ArpEntry → Bool
may_replace old e = old.proto == e.proto || (old.proto == proto_arp && not (e.proto == proto_arp))

-- An entry of ARP gets its expiration timer. `arp_entry_create_expiration_timer` stores it and then
-- ends without the `return` that its caller stores again: the timer stored is taken.
unfoldable pub start_timer : ArpEntry → ArpEntry
start_timer e = if e.proto == proto_arp then record e { exp_timer = true } else e

-- `strncpy` into the six bytes of an address: zeros from the first zero on
unfoldable pub strncpy_mac : Chars → Chars
unfolding prefix
strncpy_mac m = prefix mac_size m ++ replicate (mac_size - length (prefix mac_size m)) 0

-- `glthread_add_next (&old->arp_pending_list, new->arp_pending_list.right)`: into an empty list the
-- whole chain goes, otherwise the link of its first element is overwritten.
unfoldable pub join_pending : List ArpPending → List ArpPending → List ArpPending
join_pending old [] = old
join_pending [] (p ∷ ps) = p ∷ ps
join_pending (o ∷ old) (p ∷ ps) = p ∷ o ∷ old

unfoldable pub with_pending : List ArpPending → ArpEntry → ArpEntry
unfolding join_pending
with_pending ps old = record old { arp_pending_list = join_pending old.arp_pending_list ps }

unfoldable pub resolved : ArpEntry → ArpEntry → ArpEntry
unfolding strncpy_mac prefix
resolved e old = record old {
  mac_addr = strncpy_mac e.mac_addr;
  oif_name = prefix 15 e.oif_name;
  proto = e.proto;
}

-- The table, what `arp_table_entry_add` returns, and whether it hands out the pending list of the
-- old entry.
pub record Added : Type 0 where
  pub table : ArpTable
  pub rc : Bool
  pub pending : Bool

abbrev pub added : ArpTable → Bool → Bool → Option Added
added table rc pending = some (record { table = table; rc = rc; pending = pending })

-- `arp_table_entry_add` behind the lookup; a failed assertion is `none`
unfoldable pub store_arp_entry : Option ArpEntry → ArpTable → ArpEntry → Option Added
store_arp_entry none t e = if e.exp_timer then none else added (start_timer e ∷ t) true false
store_arp_entry (some old) t e =
    if is_arp_entries_equal old e
    then added t false false
    else if not old.is_sane && may_replace old e
    then (if e.exp_timer
        then none
        else added (start_timer e ∷ delete_arp_entry t e.ip_addr) true false)
    else if old.is_sane && e.is_sane
    then added (update_arp_entry t e.ip_addr (with_pending e.arp_pending_list)) false true
    else if old.is_sane && not e.is_sane
    then added (update_arp_entry t e.ip_addr (resolved e)) false true
    else added t false false

unfoldable pub arp_table_entry_add : ArpTable → ArpEntry → Option Added
arp_table_entry_add t e = store_arp_entry (arp_table_lookup t e.ip_addr) t e
