-- ===== src/Net.antt =====
-- net.h, net.c and graph.h: an interface's configuration, its VLAN membership, and the interface
-- slots of a node.
use networking_protocol_deve.Base.{
  ℕ, suc, arith, Bool-cases, ◌+◌, ◌≡◌, ◌⊎◌, inl, inr, refl, Bool, true, false, ◌||◌, Option, none,
  some, List, [], ◌∷◌, ◌==◌, if◌then◌else◌, get_or,
}
use networking_protocol_deve.Base.CString.{Chars, strncmp_eq}
pub mod Ip
pub mod Tlv

-- `intf_l2_mode_t`
pub data L2Mode : Type 0 where
  access trunk l2_mode_unknown : L2Mode

-- The fields of `interface_t` and its `intf_nw_props_t` that the modelled code reads or writes;
-- `vlans` is the array of MAX_VLAN_MEMBERSHIP words, `ip_add` the text of the address.
pub record Interface : Type 0 where
  pub if_name : Chars
  pub is_up : Bool
  pub ifindex : ℕ
  pub mac_add : Chars
  pub intf_l2_mode : L2Mode
  pub vlans : List ℕ
  pub is_ipadd_config : Bool
  pub is_ipadd_config_backup : Bool
  pub ip_add : Chars
  pub mask : ℕ

abbrev pub max_vlan_membership : ℕ
max_vlan_membership = 10

abbrev pub max_intf_per_node : ℕ
max_intf_per_node = 10

abbrev pub if_name_size : ℕ
if_name_size = 16

abbrev pub is_access : L2Mode → Bool
is_access access = true
is_access trunk = false
is_access l2_mode_unknown = false

abbrev pub is_trunk : L2Mode → Bool
is_trunk access = false
is_trunk trunk = true
is_trunk l2_mode_unknown = false

pub L2Mode-cases : (m : L2Mode) → (m ≡ access) ⊎ ((m ≡ trunk) ⊎ (m ≡ l2_mode_unknown))
L2Mode-cases access = inl refl
L2Mode-cases trunk = inr (inl refl)
L2Mode-cases l2_mode_unknown = inr (inr refl)

-- IS_INTF_L2_MODE
abbrev pub is_l2_mode : L2Mode → Bool
is_l2_mode m = is_access m || is_trunk m

-- `node->intf[]`: the slots of a node, free ones `none`.
abbrev pub Slots : Type 0
Slots = List (Option Interface)

-- The loop of `node_get_intf_by_name` from slot `k` on, which ends at the first free slot. A pointer
-- to an interface is its slot, so the result has both.
unfoldable pub get_intf_from : ℕ → Slots → Chars → Option (ℕ × Interface)
get_intf_from k [] if_name = none
get_intf_from k (none ∷ slots) if_name = none
get_intf_from k (some intf ∷ slots) if_name =
    if strncmp_eq if_name_size intf.if_name if_name
    then some (k, intf)
    else get_intf_from (k + 1) slots if_name

-- `node_get_intf_by_name`
unfoldable pub node_get_intf_by_name : Slots → Chars → Option (ℕ × Interface)
unfolding get_intf_from
node_get_intf_by_name slots if_name = get_intf_from 0 slots if_name

-- `node->intf[k]`
abbrev pub slot_at : Slots → ℕ → Option Interface
slot_at slots k = get_or slots k none

-- `get_access_intf_operating_vlan_id`; `none` is the failed assertion.
unfoldable pub get_access_intf_operating_vlan_id : Interface → Option ℕ
get_access_intf_operating_vlan_id i =
    if is_access i.intf_l2_mode then some (get_or i.vlans 0 0) else none

-- its loop over `vlans`
unfoldable pub has_vlan : List ℕ → ℕ → Bool
has_vlan [] vlan_id = false
has_vlan (v ∷ vs) vlan_id = if v == vlan_id then true else has_vlan vs vlan_id

-- `is_trunk_interface_vlan_enabled`; `none` is the failed assertion.
unfoldable pub is_trunk_interface_vlan_enabled : Interface → ℕ → Option Bool
unfolding has_vlan
is_trunk_interface_vlan_enabled i vlan_id =
    if is_trunk i.intf_l2_mode then some (has_vlan i.vlans vlan_id) else none

-- what `node_get_intf_by_name` finds stands in its slot
get_intf_from_sound :
    (k : ℕ) (slots : Slots) (if_name : Chars) {p : ℕ} {i : Interface}
    → get_intf_from k slots if_name ≡ some (p, i)
    → (d : ℕ) × (p ≡ k + d) × (slot_at slots d ≡ some i)
unfolding get_intf_from
get_intf_from_sound k [] if_name e = cc
get_intf_from_sound k (none ∷ slots) if_name e = cc
get_intf_from_sound k (some intf ∷ slots) if_name {p} {i} e =
    elim (Bool-cases (strncmp_eq if_name_size intf.if_name if_name)) [
      | inl hit ↦ (0, ground arith, ground arith)
      | inr miss ↦
          let later : get_intf_from (k + 1) slots if_name ≡ some (p, i) = ground arith in
          let (d, q, s) = get_intf_from_sound (k + 1) slots if_name later in (suc d, omega arith, s)
    ]

pub get_intf_sound :
    (slots : Slots) (if_name : Chars) {p : ℕ} {i : Interface}
    → node_get_intf_by_name slots if_name ≡ some (p, i)
    → slot_at slots p ≡ some i
unfolding node_get_intf_by_name
get_intf_sound slots if_name {p} {i} e =
    let (d, q, s) = get_intf_from_sound 0 slots if_name e in
    let same : p ≡ d = omega arith in rw same s
