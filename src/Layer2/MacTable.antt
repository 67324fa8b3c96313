-- ===== src/Layer2/MacTable.antt =====
-- Layer2/l2switch.c: the MAC table of a switch, a list of entries, the latest first.
use networking_protocol_deve.Base.{
  ℕ, Bool, true, false, ◌&&◌, Option, none, some, List, [], ◌∷◌, if◌then◌else◌,
}
use networking_protocol_deve.Base.CString.{Chars, strncmp_eq, prefix}
use networking_protocol_deve.Net.{if_name_size}
pub mod Learning

-- `mac_table_entry_t`
pub record MacEntry : Type 0 where
  pub mac : Chars
  pub oif_name : Chars

-- `mac_table_t`: what `mac_entries` links, from the head on
abbrev pub MacTable : Type 0
MacTable = List MacEntry

-- `sizeof(mac_add_t)`
abbrev pub mac_size : ℕ
mac_size = 6

unfoldable pub init_mac_table : MacTable
init_mac_table = []

-- `mac_table_lookup`
unfoldable pub mac_table_lookup : MacTable → Chars → Option MacEntry
mac_table_lookup [] mac = none
mac_table_lookup (e ∷ t) mac =
    if strncmp_eq mac_size e.mac mac then some e else mac_table_lookup t mac

-- the loop of `clear_mac_table`
unfoldable pub clear_mac_table : MacTable → MacTable
clear_mac_table [] = []
clear_mac_table (_ ∷ t) = clear_mac_table t

-- `delete_mac_table_entry`: unlinks the entry that the lookup finds.
unfoldable pub delete_mac_table_entry : MacTable → Chars → MacTable
delete_mac_table_entry [] mac = []
delete_mac_table_entry (e ∷ t) mac =
    if strncmp_eq mac_size e.mac mac then t else e ∷ delete_mac_table_entry t mac

-- IS_MAC_TABLE_ENTRY_EQUAL
unfoldable pub is_mac_table_entry_equal : MacEntry → MacEntry → Bool
is_mac_table_entry_equal a b =
    strncmp_eq mac_size a.mac b.mac && strncmp_eq if_name_size a.oif_name b.oif_name

-- `mac_table_entry_add` once the entry of the address has been looked up
unfoldable pub store_mac_entry : Option MacEntry → MacTable → MacEntry → MacTable × Bool
store_mac_entry none t e = (e ∷ t, true)
store_mac_entry (some old) t e =
    if is_mac_table_entry_equal old e
    then (t, false)
    else (e ∷ delete_mac_table_entry t old.mac, true)

-- `mac_table_entry_add`: the table, and whether the entry was taken
unfoldable pub mac_table_entry_add : MacTable → MacEntry → MacTable × Bool
unfolding mac_table_lookup delete_mac_table_entry is_mac_table_entry_equal store_mac_entry
mac_table_entry_add t e = store_mac_entry (mac_table_lookup t e.mac) t e

-- `l2_switch_perform_mac_learning`: `strncpy` and the terminator leave 15 characters of the name.
unfoldable pub l2_switch_perform_mac_learning : MacTable → Chars → Chars → MacTable
unfolding mac_table_entry_add prefix
l2_switch_perform_mac_learning t src_mac if_name =
    (mac_table_entry_add t (record { mac = src_mac; oif_name = prefix 15 if_name })).0
