-- ===== src/Layer3/Addresses.antt =====
-- Layer3/layer3.c: the commands that give an interface an IP address and take it away.
use networking_protocol_deve.Base.{
  ℕ, Bool, true, false, ◌||◌, not, Option, none, some, ◌==◌, if◌then◌else◌, ◌>>=◌,
}
use networking_protocol_deve.Base.CString.{Chars, strncmp_eq, prefix}
use networking_protocol_deve.Net.{Interface, is_l2_mode}
use networking_protocol_deve.Net.Ip.{tcp_ip_covert_ip_p_to_n}
use networking_protocol_deve.Layer3.RtTable.{
  RtTable, rt_table_add_direct_route, rt_table_delete_route,
}
pub mod Shared
pub mod Connected

-- The address that the subscribers to a change of an interface are told, the one before the change.
pub record IpChange : Type 0 where
  pub ip_addr : ℕ
  pub mask : ℕ

-- the routing table, the interface, and the notification, if there is one
abbrev pub Configured : Type 0
Configured = RtTable × Interface × Option IpChange

-- `strncpy(IF_IP(intf), intf_ip_addr, 16)` and `IF_MASK(intf) = mask`
unfoldable pub copy_address : Interface → Chars → ℕ → Interface
copy_address i intf_ip_addr mask = record i { ip_add = prefix 16 intf_ip_addr; mask = mask }

-- The notice of the address that the interface has.
unfoldable pub old_address : Interface → IpChange
old_address i = record { ip_addr = tcp_ip_covert_ip_p_to_n i.ip_add; mask = i.mask }

module _ (shift_32 : ℕ → ℕ) where
  -- the part under `new config`
  unfoldable pub set_new_address : RtTable → Interface → Chars → ℕ → Option Configured
  set_new_address t i intf_ip_addr mask = do
    let configured = record (copy_address i intf_ip_addr mask) { is_ipadd_config = true }
    t' ← rt_table_add_direct_route shift_32 t intf_ip_addr mask
    some (t', configured, some (record { ip_addr = 0; mask = 0 }))

  -- the part under `Existing config changed`
  unfoldable pub change_address : RtTable → Interface → Chars → ℕ → Option Configured
  change_address t i intf_ip_addr mask = do
    let changed = copy_address i intf_ip_addr mask
    deleted ← rt_table_delete_route shift_32 t i.ip_add i.mask
    t' ← rt_table_add_direct_route shift_32 deleted changed.ip_add mask
    some (t', changed, some (old_address i))

  -- `interface_set_ip_addr`; `none` where the routing table has no route to delete
  unfoldable pub interface_set_ip_addr : RtTable → Interface → Chars → ℕ → Option Configured
  interface_set_ip_addr t i intf_ip_addr mask =
      if is_l2_mode i.intf_l2_mode
      then some (t, i, none)
      else if not i.is_ipadd_config
      then set_new_address t i intf_ip_addr mask
      else if not (strncmp_eq 16 i.ip_add intf_ip_addr) || not (i.mask == mask)
      then change_address t i intf_ip_addr mask
      else some (t, i, none)

  unfoldable pub remove_address : RtTable → Interface → Chars → ℕ → Option Configured
  remove_address t i new_intf_ip_addr new_mask = do
    t' ← rt_table_delete_route shift_32 t new_intf_ip_addr new_mask
    some (t', record i { is_ipadd_config = false }, some (old_address i))

  -- `interface_unset_ip_addr`
  unfoldable pub interface_unset_ip_addr : RtTable → Interface → Chars → ℕ → Option Configured
  interface_unset_ip_addr t i new_intf_ip_addr new_mask =
      if not i.is_ipadd_config
      then some (t, i, none)
      else if not (strncmp_eq 16 i.ip_add new_intf_ip_addr) || not (i.mask == new_mask)
      then some (t, i, none)
      else remove_address t i new_intf_ip_addr new_mask
