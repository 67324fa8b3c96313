-- ===== src/Layer2/Mode/Membership.antt =====
-- The VLAN array under the configuration commands.
use networking_protocol_deve.Base.{
  ℕ, zero, suc, get_elem?, ◌==◌, if◌then◌else◌, ◌+◌, ◌≡◌, ◌≢◌, refl, true, false, none, some,
  Option, List, [], ◌∷◌, arith, ◌⊎◌, set, All, Bool-cases, Option-cases, inl, inr,
}
use networking_protocol_deve.Base.CString.{Chars}
use networking_protocol_deve.Net.{L2Mode, access, trunk, l2_mode_unknown, Interface, has_vlan}
use networking_protocol_deve.Layer2.Mode.{
  clear_vlans, switch_mode, interface_set_l2_mode, last_used, trunk_scan, store_access_vlan,
  store_trunk_vlan, interface_set_vlan, mode_of_option, set_vlan_in,
}

abbrev IsZero : ℕ → Type 0
IsZero v = v ≡ 0

-- At most the first slot is in use.
abbrev pub OneVlan : List ℕ → Type 0
OneVlan [] = Unit
OneVlan (v ∷ vs) = All IsZero vs

-- every VLAN number but 0 at most once
abbrev pub Distinct : List ℕ → Type 0
Distinct [] = Unit
Distinct (v ∷ vs) = (v ≢ 0 → has_vlan vs v ≡ false) × Distinct vs

-- what the array holds in each mode
abbrev pub VlansFit : L2Mode → List ℕ → Type 0
VlansFit access vs = OneVlan vs
VlansFit trunk vs = Distinct vs
VlansFit l2_mode_unknown vs = All IsZero vs

last_used-zeros : (vs : List ℕ) (i : ℕ) (o : Option ℕ) → All IsZero vs → last_used vs i o ≡ o
unfolding last_used
last_used-zeros [] i o h = refl
last_used-zeros (v ∷ vs) i o h = ground (arith, last_used-zeros vs (i + 1) o)

zeros-Distinct : (vs : List ℕ) → All IsZero vs → Distinct vs
zeros-Distinct [] h = tt
zeros-Distinct (v ∷ vs) h = ((λ n. absurd (n h.0)), zeros-Distinct vs h.1)

zeros-has : (vs : List ℕ) (v : ℕ) → v ≢ 0 → All IsZero vs → has_vlan vs v ≡ false
unfolding has_vlan
zeros-has [] v n h = refl
zeros-has (w ∷ vs) v n h = ground (arith, zeros-has vs v n)

OneVlan-Distinct : (vs : List ℕ) → OneVlan vs → Distinct vs
OneVlan-Distinct [] h = tt
OneVlan-Distinct (v ∷ vs) h = ((λ n. zeros-has vs v n h), zeros-Distinct vs h)

clear_vlans-zeros : (vs : List ℕ) → All IsZero (clear_vlans vs)
unfolding clear_vlans
clear_vlans-zeros [] = tt
clear_vlans-zeros (v ∷ vs) = (refl, clear_vlans-zeros vs)

zeros-OneVlan : (vs : List ℕ) → All IsZero vs → OneVlan vs
zeros-OneVlan [] h = tt
zeros-OneVlan (v ∷ vs) h = h.1

-- with a slot in hand the scan only asks whether the VLAN is there
scan_some :
    (vid : ℕ) (vs : List ℕ) (i j : ℕ) (o : Option (Option ℕ))
    → trunk_scan vid vs i (some j) ≡ o
    → (o ≡ none) ⊎ ((o ≡ some (some j)) × (has_vlan vs vid ≡ false))
unfolding trunk_scan has_vlan
scan_some vid [] i j o e = ground arith
scan_some vid (v ∷ vs) i j o e = ground (arith, scan_some vid vs (i + 1) j o)

-- A slot that the scan hands out is free, and a VLAN that it hands one out for is not there yet.
scan_free :
    (vid : ℕ) (vs : List ℕ) (i j : ℕ)
    → trunk_scan vid vs i none ≡ some (some j)
    → (k : ℕ) × (j ≡ i + k) × (get_elem? vs k ≡ some 0) × (vid ≢ 0 → has_vlan vs vid ≡ false)
unfolding trunk_scan has_vlan
scan_free vid [] i j e = cc
scan_free vid (v ∷ vs) i j e = elim (Bool-cases (v == 0)) [
  | inl z ↦ (
    0,
    ground (arith, scan_some vid vs (i + 1) i (some (some j))),
    ground arith,
    ground (arith, scan_some vid vs (i + 1) i (some (some j))),
  )
  | inr p ↦ elim (Bool-cases (v == vid)) [
    | inl q ↦ absurd (ground arith)
    | inr q ↦
        let later : trunk_scan vid vs (i + 1) none ≡ some (some j) = ground arith in
        let (k, a, b, c) = scan_free vid vs (i + 1) j later in
        (suc k, omega arith, b, λ n. rw q (c n))
  ]
]

scan_present :
    (vid : ℕ) (vs : List ℕ) (i : ℕ) (o : Option ℕ)
    → trunk_scan vid vs i o ≡ none
    → has_vlan vs vid ≡ true
unfolding trunk_scan has_vlan
scan_present vid [] i o e = cc
scan_present vid (v ∷ vs) i none e =
    ground (arith, scan_present vid vs (i + 1) none, scan_present vid vs (i + 1) (some i))
scan_present vid (v ∷ vs) i (some j) e = ground (arith, scan_present vid vs (i + 1) (some j))

-- The scan finds no slot only in a full array.
scan_full :
    (vid : ℕ) (vs : List ℕ) (i : ℕ) → trunk_scan vid vs i none ≡ some none → has_vlan vs 0 ≡ false
unfolding trunk_scan has_vlan
scan_full vid [] i e = refl
scan_full vid (v ∷ vs) i e =
    ground (arith, scan_full vid vs (i + 1), scan_some vid vs (i + 1) i (some none))

has_vlan-set :
    (vs : List ℕ) (k v w : ℕ)
    → get_elem? vs k ≡ some 0
    → w ≢ 0
    → has_vlan (set vs k v) w ≡ (if v == w then true else has_vlan vs w)
unfolding has_vlan
has_vlan-set [] k v w e n = cc
has_vlan-set (x ∷ vs) zero v w e n = ground arith
has_vlan-set (x ∷ vs) (suc k) v w e n = ground (arith, has_vlan-set vs k v w)

set-Distinct :
    (vs : List ℕ) (k vid : ℕ)
    → get_elem? vs k ≡ some 0
    → (vid ≢ 0 → has_vlan vs vid ≡ false)
    → Distinct vs
    → Distinct (set vs k vid)
unfolding has_vlan
set-Distinct [] k vid e new d = tt
set-Distinct (x ∷ vs) zero vid e new d = (ground arith, d.1)
set-Distinct (x ∷ vs) (suc k) vid e new d =
    (ground (arith, has_vlan-set vs k vid x), set-Distinct vs k vid e (ground arith) d.1)

trunk_store-Distinct :
    (i : Interface) (vid : ℕ) (o : Option (Option ℕ))
    → trunk_scan vid i.vlans 0 none ≡ o
    → Distinct i.vlans
    → Distinct (store_trunk_vlan o vid i).vlans
unfolding store_trunk_vlan
trunk_store-Distinct i vid none e d = d
trunk_store-Distinct i vid (some none) e d = d
trunk_store-Distinct i vid (some (some j)) e d =
    let (k, a, b, c) = scan_free vid i.vlans 0 j e in
    let same : j ≡ k = omega arith in rw same (set-Distinct i.vlans k vid b c d)

access_store-OneVlan :
    (vs : List ℕ) (vid : ℕ)
    → OneVlan vs
    → (i : Interface) → i.vlans ≡ vs
    → OneVlan (store_access_vlan (last_used vs 0 none) vid i).vlans
unfolding store_access_vlan last_used
access_store-OneVlan [] vid h i e = rw e tt
access_store-OneVlan (v ∷ vs) vid h i e = elim (Bool-cases (v == 0)) [
  | inl z ↦ rw (z, last_used-zeros vs 1 none h, e) h
  | inr z ↦ rw (z, last_used-zeros vs 1 (some 0) h, e) h
]

store_mode :
    (m : L2Mode) (i : Interface) (vid : ℕ) → (set_vlan_in m vid i).intf_l2_mode ≡ i.intf_l2_mode
unfolding set_vlan_in
store_mode access i vid = elim (Option-cases (last_used i.vlans 0 none)) [
  | inl e ↦ rw (e, store_access_vlan)
  | inr (j, e) ↦ rw (e, store_access_vlan)
]
store_mode trunk i vid = ground arith
store_mode l2_mode_unknown i vid = refl

store-VlansFit :
    (m : L2Mode) (i : Interface) (vid : ℕ)
    → VlansFit m i.vlans
    → VlansFit m (set_vlan_in m vid i).vlans
unfolding set_vlan_in
store-VlansFit access i vid h = access_store-OneVlan i.vlans vid h i refl
store-VlansFit trunk i vid h = trunk_store-Distinct i vid (trunk_scan vid i.vlans 0 none) refl h
store-VlansFit l2_mode_unknown i vid h = h

-- `interface_set_vlan` keeps the mode, and keeps the VLAN array fit for it.
pub set_vlan-VlansFit :
    (i : Interface) (vid : ℕ)
    → VlansFit i.intf_l2_mode i.vlans
    → ((interface_set_vlan i vid).intf_l2_mode ≡ i.intf_l2_mode)
      × VlansFit i.intf_l2_mode (interface_set_vlan i vid).vlans
unfolding interface_set_vlan
set_vlan-VlansFit i vid h = elim (Bool-cases i.is_ipadd_config) [
  | inl l3 ↦ simp l3 (refl, h)
  | inr l2 ↦ simp l2 (store_mode i.intf_l2_mode i vid, store-VlansFit i.intf_l2_mode i vid h)
]

trunk_adds :
    (i : Interface) (vid w : ℕ) (o : Option (Option ℕ))
    → trunk_scan vid i.vlans 0 none ≡ o
    → has_vlan i.vlans 0 ≡ true
    → w ≢ 0
    → has_vlan (store_trunk_vlan o vid i).vlans w ≡ (if vid == w then true else has_vlan i.vlans w)
unfolding store_trunk_vlan
trunk_adds i vid w none e room n = ground (arith, scan_present vid i.vlans 0 none)
trunk_adds i vid w (some none) e room n = ground (arith, scan_full vid i.vlans 0)
trunk_adds i vid w (some (some j)) e room n =
    let (k, a, b, c) = scan_free vid i.vlans 0 j e in
    let same : j ≡ k = omega arith in rw same (has_vlan-set i.vlans k vid w b n)

-- On a trunk without an address and with a free slot, `interface_set_vlan` adds the VLAN asked for
-- and changes the membership of no other one.
pub set_vlan_trunk :
    (i : Interface) (vid w : ℕ)
    → i.is_ipadd_config ≡ false
    → i.intf_l2_mode ≡ trunk
    → has_vlan i.vlans 0 ≡ true
    → w ≢ 0
    → has_vlan (interface_set_vlan i vid).vlans w ≡ (if vid == w then true else has_vlan i.vlans w)
unfolding interface_set_vlan set_vlan_in
set_vlan_trunk i vid w l2 m room n =
    simp (l2, m) (trunk_adds i vid w (trunk_scan vid i.vlans 0 none) refl room n)

switch-VlansFit :
    (old new : L2Mode) (i : Interface)
    → i.intf_l2_mode ≡ old
    → new ≢ l2_mode_unknown
    → VlansFit old i.vlans
    → ((switch_mode old new i).intf_l2_mode ≡ new) × VlansFit new (switch_mode old new i).vlans
unfolding switch_mode
switch-VlansFit access access i e n h = (e, h)
switch-VlansFit access trunk i e n h = (refl, OneVlan-Distinct i.vlans h)
switch-VlansFit access l2_mode_unknown i e n h = absurd (n refl)
switch-VlansFit trunk access i e n h =
    (refl, zeros-OneVlan (clear_vlans i.vlans) (clear_vlans-zeros i.vlans))
switch-VlansFit trunk trunk i e n h = (e, h)
switch-VlansFit trunk l2_mode_unknown i e n h = absurd (n refl)
switch-VlansFit l2_mode_unknown access i e n h = (refl, zeros-OneVlan i.vlans h)
switch-VlansFit l2_mode_unknown trunk i e n h = (refl, zeros-Distinct i.vlans h)
switch-VlansFit l2_mode_unknown l2_mode_unknown i e n h = absurd (n refl)

option-known : (option : Chars) {m : L2Mode} → mode_of_option option ≡ some m → m ≢ l2_mode_unknown
unfolding mode_of_option
option-known option e n = ground arith

-- On an interface without an address `interface_set_l2_mode` sets the mode that its option names,
-- and leaves a VLAN array that fits the new mode.
pub set_l2_mode-VlansFit :
    (i : Interface) (option : Chars) (new : L2Mode)
    → i.is_ipadd_config ≡ false
    → VlansFit i.intf_l2_mode i.vlans
    → mode_of_option option ≡ some new
    → (j : Interface) × (interface_set_l2_mode i option ≡ some j)
      × (j.intf_l2_mode ≡ new)
      × VlansFit new j.vlans
unfolding interface_set_l2_mode
set_l2_mode-VlansFit i option new l2 h m =
    let (done, fits) = switch-VlansFit i.intf_l2_mode new i refl (option-known option m) h in
    (switch_mode i.intf_l2_mode new i, ground arith, done, fits)
