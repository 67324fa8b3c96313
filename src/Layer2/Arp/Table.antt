-- ===== src/Layer2/Arp/Table.antt =====
-- Looking entries of the ARP table up after a change, and what holds of every entry.
use networking_protocol_deve.Base.{
  ◌≡◌, refl, sym, ◌∙◌, true, false, Option, none, some, List, [], ◌∷◌, arith,
}
use networking_protocol_deve.Base.CString.{Chars, strncmp_eq, strncmp_eq-congr, strncmp_eq_comm}
use networking_protocol_deve.Layer2.Arp.{
  ArpEntry, ArpPending, ArpTable, Added, has_ip, arp_table_lookup, delete_arp_entry,
  update_arp_entry, start_timer, with_pending, resolved, store_arp_entry, arp_table_entry_add,
}

-- a change that keeps the key
abbrev pub KeepsIp : (ArpEntry → ArpEntry) → Type 0
KeepsIp change = (e : ArpEntry) → (change e).ip_addr ≡ e.ip_addr

module _ (k : Chars) where
  other_ip :
      (k' : Chars) (e : ArpEntry)
      → strncmp_eq 16 k k' ≡ false
      → has_ip k e ≡ true
      → has_ip k' e ≡ false
  other_ip k' e n h =
      sym (strncmp_eq-congr 16 k e.ip_addr k' (strncmp_eq_comm 16 k e.ip_addr ∙ h)) ∙ n

  pub update-lookup_self :
      (change : ArpEntry → ArpEntry) (t : ArpTable) (e : ArpEntry)
      → KeepsIp change
      → arp_table_lookup t k ≡ some e
      → arp_table_lookup (update_arp_entry t k change) k ≡ some (change e)
  unfolding arp_table_lookup update_arp_entry
  update-lookup_self change [] e keeps f = cc
  update-lookup_self change (x ∷ t) e keeps f =
      ground (arith, keeps x, update-lookup_self change t e keeps)

  pub update-lookup_ne :
      (k' : Chars) (change : ArpEntry → ArpEntry) (t : ArpTable)
      → KeepsIp change
      → strncmp_eq 16 k k' ≡ false
      → arp_table_lookup (update_arp_entry t k change) k' ≡ arp_table_lookup t k'
  unfolding arp_table_lookup update_arp_entry
  update-lookup_ne k' change [] keeps n = refl
  update-lookup_ne k' change (x ∷ t) keeps n =
      ground (arith, keeps x, other_ip k' x n, update-lookup_ne k' change t keeps n)

  pub delete-lookup_ne :
      (k' : Chars) (t : ArpTable)
      → strncmp_eq 16 k k' ≡ false
      → arp_table_lookup (delete_arp_entry t k) k' ≡ arp_table_lookup t k'
  unfolding arp_table_lookup delete_arp_entry
  delete-lookup_ne k' [] n = refl
  delete-lookup_ne k' (x ∷ t) n = ground (arith, other_ip k' x n, delete-lookup_ne k' t n)

pub start_timer_ip : (e : ArpEntry) → (start_timer e).ip_addr ≡ e.ip_addr
unfolding start_timer
start_timer_ip e = ground arith

pub with_pending_ip : (ps : List ArpPending) → KeepsIp (with_pending ps)
unfolding with_pending
with_pending_ip ps e = refl

pub resolved_ip : (e : ArpEntry) → KeepsIp (resolved e)
unfolding resolved
resolved_ip e old = refl

new-lookup_ne :
    (t : ArpTable) (e : ArpEntry) (k' : Chars)
    → strncmp_eq 16 e.ip_addr k' ≡ false
    → arp_table_lookup (start_timer e ∷ t) k' ≡ arp_table_lookup t k'
unfolding arp_table_lookup
new-lookup_ne t e k' n = ground (arith, start_timer_ip e)

store-lookup_ne :
    (old : Option ArpEntry) (t : ArpTable) (e : ArpEntry) (a : Added) (k' : Chars)
    → store_arp_entry old t e ≡ some a
    → strncmp_eq 16 e.ip_addr k' ≡ false
    → arp_table_lookup a.table k' ≡ arp_table_lookup t k'
unfolding store_arp_entry
store-lookup_ne none t e a k' s n = ground (arith, new-lookup_ne t e k' n)
store-lookup_ne (some old) t e a k' s n =
    let replaced =
      new-lookup_ne (delete_arp_entry t e.ip_addr) e k' n ∙ delete-lookup_ne e.ip_addr k' t n in
    let joined =
      update-lookup_ne e.ip_addr k' (with_pending e.arp_pending_list) t
        (with_pending_ip e.arp_pending_list) n in
    let filled = update-lookup_ne e.ip_addr k' (resolved e) t (resolved_ip e) n in
    ground (arith, replaced, joined, filled)

-- Adding an entry changes what is found for its own address only.
pub add-lookup_ne :
    (t : ArpTable) (e : ArpEntry) (a : Added) (k' : Chars)
    → arp_table_entry_add t e ≡ some a
    → strncmp_eq 16 e.ip_addr k' ≡ false
    → arp_table_lookup a.table k' ≡ arp_table_lookup t k'
unfolding arp_table_entry_add
add-lookup_ne t e a k' s n = store-lookup_ne (arp_table_lookup t e.ip_addr) t e a k' s n
