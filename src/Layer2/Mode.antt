-- ===== src/Layer2/Mode.antt =====
-- Layer2/layer2.c: the configuration of an interface's L2 mode and of its VLANs.
-- `none` is a failed assertion; the messages that the code prints are left out.
use networking_protocol_deve.Base.{
  ℕ, suc, ◌+◌, Bool, true, false, ◌||◌, not, Option, none, some, List, [], ◌∷◌, ◌==◌, if◌then◌else◌,
  set, map, is_some,
}
use networking_protocol_deve.Base.CString.{Chars, strncmp_eq}
use networking_protocol_deve.Net.{
  L2Mode, access, trunk, l2_mode_unknown, Interface, is_access, is_trunk, is_l2_mode,
}
pub mod Membership

abbrev pub access_str : Chars
access_str = b'a' ∷ b'c' ∷ b'c' ∷ b'e' ∷ b's' ∷ b's' ∷ []

abbrev pub trunk_str : Chars
trunk_str = b't' ∷ b'r' ∷ b'u' ∷ b'n' ∷ b'k' ∷ []

-- `intf_l2_mode_str`
unfoldable pub intf_l2_mode_str : L2Mode → Chars
intf_l2_mode_str access = access_str
intf_l2_mode_str trunk = trunk_str
intf_l2_mode_str l2_mode_unknown =
    b'L' ∷ b'2' ∷ b'_' ∷ b'M' ∷ b'O' ∷ b'D' ∷ b'E' ∷ b'_' ∷ b'U' ∷ b'N' ∷ b'K' ∷ b'N' ∷ b'W' ∷ b'O'
    ∷ b'N' ∷ []

-- the mode that an option string names
unfoldable pub mode_of_option : Chars → Option L2Mode
mode_of_option l2_mode_option =
    if strncmp_eq 6 l2_mode_option access_str
    then some access
    else if strncmp_eq 5 l2_mode_option trunk_str
    then some trunk
    else none

-- the loop that empties the VLAN array
unfoldable pub clear_vlans : List ℕ → List ℕ
clear_vlans [] = []
clear_vlans (_ ∷ vs) = 0 ∷ clear_vlans vs

-- `IF_L2_MODE(interface)` against the mode asked for, in an interface that has no address
unfoldable pub switch_mode : L2Mode → L2Mode → Interface → Interface
unfolding clear_vlans
switch_mode l2_mode_unknown new i = record i { intf_l2_mode = new }
switch_mode access access i = i
switch_mode access trunk i = record i { intf_l2_mode = trunk }
switch_mode access l2_mode_unknown i = i
switch_mode trunk access i = record i { intf_l2_mode = access; vlans = clear_vlans i.vlans }
switch_mode trunk trunk i = i
switch_mode trunk l2_mode_unknown i = i

-- `interface_set_l2_mode`
unfoldable pub interface_set_l2_mode : Interface → Chars → Option Interface
interface_set_l2_mode i l2_mode_option = elim (mode_of_option l2_mode_option) [
  | none ↦ none
  | some new ↦ some (
      if i.is_ipadd_config
      then record i { is_ipadd_config_backup = true; is_ipadd_config = false; intf_l2_mode = new }
      else switch_mode i.intf_l2_mode new i)
]

-- The loop over `vlans` in access mode: the last slot in use, from index `i` on.
unfoldable pub last_used : List ℕ → ℕ → Option ℕ → Option ℕ
last_used [] i vlan = vlan
last_used (v ∷ vs) i vlan = last_used vs (i + 1) (if v == 0 then vlan else some i)

-- One round of the loop over `vlans` in trunk mode: `none` if the function returns in it, else the
-- free slot found up to there.
unfoldable pub trunk_round : ℕ → ℕ → ℕ → Option ℕ → Option (Option ℕ)
trunk_round vlan_id v i none =
    if v == 0 then some (some i) else if v == vlan_id then none else some none
trunk_round vlan_id v i (some j) = if v == vlan_id then none else some (some j)

-- that loop: `none` if the VLAN is there already, else the first free slot, if any
unfoldable pub trunk_scan : ℕ → List ℕ → ℕ → Option ℕ → Option (Option ℕ)
unfolding trunk_round
trunk_scan vlan_id [] i vlan = some vlan
trunk_scan vlan_id (v ∷ vs) i vlan = elim (trunk_round vlan_id v i vlan) [
  | none ↦ none
  | some vlan' ↦ trunk_scan vlan_id vs (i + 1) vlan'
]

-- what each loop leads to
unfoldable pub store_access_vlan : Option ℕ → ℕ → Interface → Interface
store_access_vlan none vlan_id i = record i { vlans = set i.vlans 0 vlan_id }
store_access_vlan (some j) vlan_id i = record i { vlans = set i.vlans j vlan_id }

unfoldable pub store_trunk_vlan : Option (Option ℕ) → ℕ → Interface → Interface
store_trunk_vlan none vlan_id i = i
store_trunk_vlan (some none) vlan_id i = i
store_trunk_vlan (some (some j)) vlan_id i = record i { vlans = set i.vlans j vlan_id }

-- the two loops, and which of them runs
unfoldable pub set_vlan_in : L2Mode → ℕ → Interface → Interface
unfolding last_used trunk_scan store_access_vlan store_trunk_vlan
set_vlan_in access vlan_id i = store_access_vlan (last_used i.vlans 0 none) vlan_id i
set_vlan_in trunk vlan_id i = store_trunk_vlan (trunk_scan vlan_id i.vlans 0 none) vlan_id i
set_vlan_in l2_mode_unknown vlan_id i = i

-- `interface_set_vlan`
unfoldable pub interface_set_vlan : Interface → ℕ → Interface
unfolding set_vlan_in
interface_set_vlan i vlan_id = if i.is_ipadd_config then i else set_vlan_in i.intf_l2_mode vlan_id i
