-- ===== src/Tests/AddressTests.antt =====
-- Two interfaces and the addresses 10.1.2.3, 10.1.2.4 and 10.1.3.4.
use networking_protocol_deve.Base.{
  ℕ, ◌≡◌, refl, true, false, ◌&&◌, none, some, [], ◌∷◌, ◌==◌, arith, is_some,
}
use networking_protocol_deve.Base.CString.{strncmp_eq, prefix}
use networking_protocol_deve.Net.{Interface, l2_mode_unknown}
use networking_protocol_deve.Net.Ip.{
  octet_chars, tcp_ip_covert_ip_n_to_p, tcp_ip_covert_ip_p_to_n, inet_pton, pton_loop, pton_step,
  pton_digit, apply_mask, mask_bits,
}
use networking_protocol_deve.Net.Ip.RoundTrip.{network}
use networking_protocol_deve.Layer3.RtTable.{Route, RtTable, find_route, new_route, l3rib_lookup}
use networking_protocol_deve.Layer3.Addresses.{
  IpChange, interface_set_ip_addr, interface_unset_ip_addr,
}
use networking_protocol_deve.Layer3.Addresses.Shared.{shared_subnet_lost}
use networking_protocol_deve.Layer3.Addresses.Connected.{set-unset}

abbrev first_ip : ℕ
first_ip = 167838211

abbrev second_ip : ℕ
second_ip = 167838212

abbrev other_ip : ℕ
other_ip = 167838468

abbrev keeps : ℕ → ℕ
keeps x = x

abbrev intf : ℕ → Interface
intf k = record {
  if_name = k ∷ [];
  is_up = true;
  ifindex = k;
  mac_add = [];
  intf_l2_mode = l2_mode_unknown;
  vlans = [];
  is_ipadd_config = false;
  is_ipadd_config_backup = false;
  ip_add = [];
  mask = 0;
}

abbrev configured : Interface
configured = record (intf 1) {
  is_ipadd_config = true;
  ip_add = tcp_ip_covert_ip_n_to_p first_ip;
  mask = 24;
}

abbrev subnet : Route
subnet = new_route (tcp_ip_covert_ip_n_to_p 167838208) 24

abbrev no_routes : RtTable
no_routes = record { routes = []; notices = [] }

abbrev one_route : RtTable
one_route = record { routes = subnet ∷ []; notices = [] }

empty_lookup : l3rib_lookup keeps no_routes first_ip 24 ≡ none
unfolding l3rib_lookup find_route
empty_lookup = refl

finds_subnet : l3rib_lookup keeps one_route first_ip 24 ≡ some subnet
unfolding l3rib_lookup find_route new_route apply_mask mask_bits tcp_ip_covert_ip_n_to_p
    tcp_ip_covert_ip_p_to_n inet_pton octet_chars pton_loop pton_step pton_digit strncmp_eq prefix
finds_subnet = refl

misses_other : l3rib_lookup keeps one_route other_ip 24 ≡ none
unfolding l3rib_lookup find_route new_route apply_mask mask_bits tcp_ip_covert_ip_n_to_p
    tcp_ip_covert_ip_p_to_n inet_pton octet_chars pton_loop pton_step pton_digit strncmp_eq prefix
misses_other = refl

set-unset_example :
    (t₁ t₂ : RtTable) × (i₁ i₂ : Interface) × (c₁ c₂ : IpChange) × (interface_set_ip_addr keeps
        no_routes
        (intf 1)
        (tcp_ip_covert_ip_n_to_p first_ip)
        24
      ≡ some (t₁, i₁, some c₁))
    × (i₁.is_ipadd_config ≡ true)
    × (is_some (l3rib_lookup keeps t₁ first_ip 24) ≡ true)
    × (interface_unset_ip_addr keeps t₁ i₁ (tcp_ip_covert_ip_n_to_p first_ip) 24
        ≡ some (t₂, i₂, some c₂))
    × (i₂.is_ipadd_config ≡ false)
    × (t₂.routes ≡ [])
set-unset_example =
    set-unset keeps no_routes (intf 1) first_ip 24 (omega arith) (omega arith) (omega arith) refl
      refl empty_lookup

apart : (network first_ip 24 == network other_ip 24 && 24 == 24) ≡ false
unfolding network
apart = refl

one_network : network first_ip 24 ≡ network second_ip 24
unfolding network
one_network = refl

shared_subnet_lost_example :
    (t₁ t₂ t₃ : RtTable) × (i₁ j₁ j₂ : Interface) × (c₁ c₂ c₃ : IpChange) × (interface_set_ip_addr
        keeps no_routes
        (intf 1)
        (tcp_ip_covert_ip_n_to_p first_ip)
        24
      ≡ some (t₁, i₁, some c₁))
    × (interface_set_ip_addr keeps t₁ (intf 2) (tcp_ip_covert_ip_n_to_p second_ip) 24
        ≡ some (t₂, j₁, some c₂))
    × (interface_unset_ip_addr keeps t₂ j₁ (tcp_ip_covert_ip_n_to_p second_ip) 24
        ≡ some (t₃, j₂, some c₃))
    × (i₁.is_ipadd_config ≡ true)
    × (l3rib_lookup keeps t₃ first_ip 24 ≡ none)
shared_subnet_lost_example =
    shared_subnet_lost keeps no_routes (intf 1) (intf 2) first_ip second_ip 24 (omega arith)
      (omega arith) (omega arith) (omega arith) one_network refl refl refl refl empty_lookup
