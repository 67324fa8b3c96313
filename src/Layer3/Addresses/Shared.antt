-- ===== src/Layer3/Addresses/Shared.antt =====
-- Two interfaces with addresses in one subnet.
use networking_protocol_deve.Base.{
  ℕ, ◌^◌, ◌<◌, ◌≤◌, ◌≡◌, refl, sym, ap, ◌∙◌, true, false, none, some, ◌∷◌, ==_refl, arith,
}
use networking_protocol_deve.Base.CString.{strncmp_eq, strncmp_eq_refl, prefix}
use networking_protocol_deve.Net.{Interface, is_l2_mode}
use networking_protocol_deve.Net.Ip.{tcp_ip_covert_ip_n_to_p}
use networking_protocol_deve.Net.Ip.RoundTrip.{network, prefix-ntop}
use networking_protocol_deve.Layer3.RtTable.{
  RtTable, find_route, l3rib_lookup, rt_table_add_direct_route, add_found, add_new_route, new_route,
  add_to_route,
}
use networking_protocol_deve.Layer3.RtTable.Lookup.{key, l3rib_lookup-find}
use networking_protocol_deve.Layer3.Addresses.{
  IpChange, copy_address, set_new_address, interface_set_ip_addr, remove_address,
  interface_unset_ip_addr, old_address,
}
use networking_protocol_deve.Layer3.Addresses.Connected.{
  add_direct-new, delete-new, add_direct-again,
}

module _ (shift_32 : ℕ → ℕ) where
  -- Two interfaces in no L2 mode and without addresses are given addresses of one subnet, to which
  -- there was no route: when the second address is taken away, the lookup of the subnet finds
  -- nothing, though the first interface keeps its address. The addresses have 32 bits and the mask
  -- lies between 1 and 32.
  pub shared_subnet_lost :
      (t : RtTable) (i j : Interface) (x y m : ℕ)
      → x < 2 ^ 32
      → y < 2 ^ 32
      → 1 ≤ m
      → m ≤ 32
      → network x m ≡ network y m
      → is_l2_mode i.intf_l2_mode ≡ false
      → i.is_ipadd_config ≡ false
      → is_l2_mode j.intf_l2_mode ≡ false
      → j.is_ipadd_config ≡ false
      → l3rib_lookup shift_32 t x m ≡ none
      → (t₁ t₂ t₃ : RtTable) × (i₁ j₁ j₂ : Interface) × (c₁ c₂ c₃ : IpChange)
        × (interface_set_ip_addr shift_32 t i (tcp_ip_covert_ip_n_to_p x) m
            ≡ some (t₁, i₁, some c₁))
        × (interface_set_ip_addr shift_32 t₁ j (tcp_ip_covert_ip_n_to_p y) m
            ≡ some (t₂, j₁, some c₂))
        × (interface_unset_ip_addr shift_32 t₂ j₁ (tcp_ip_covert_ip_n_to_p y) m
            ≡ some (t₃, j₂, some c₃))
        × (i₁.is_ipadd_config ≡ true)
        × (l3rib_lookup shift_32 t₃ x m ≡ none)
  unfolding add_new_route add_found add_to_route interface_set_ip_addr set_new_address
      interface_unset_ip_addr remove_address copy_address rt_table_add_direct_route
  shared_subnet_lost t i j x y m hx hy lo hi same l3 free l3' free' absent =
      let t₁ = add_new_route t (key x m) m none 0 in
      let i₁ = record (copy_address i (tcp_ip_covert_ip_n_to_p x) m) { is_ipadd_config = true } in
      let j₁ = record (copy_address j (tcp_ip_covert_ip_n_to_p y) m) { is_ipadd_config = true } in
      let added = add_direct-new shift_32 t x m hx lo hi absent in
      let same_key : t₁.routes ≡ new_route (key y m) m ∷ t.routes =
        ap (λ n. new_route (tcp_ip_covert_ip_n_to_p n) m ∷ t.routes) same in
      let again : rt_table_add_direct_route shift_32 t₁ (tcp_ip_covert_ip_n_to_p y) m ≡ some t₁ =
        add_direct-again shift_32 t₁ y m t.routes hy lo hi same_key in
      let (t₃, deletes, routes) = delete-new shift_32 t₁ y m t.routes hy lo hi same_key in
      let text : strncmp_eq 16 (prefix 16 (tcp_ip_covert_ip_n_to_p y)) (tcp_ip_covert_ip_n_to_p y)
          ≡ true =
        rw (prefix-ntop 16 y (omega arith)) (strncmp_eq_refl 16 (tcp_ip_covert_ip_n_to_p y)) in
      let gone : l3rib_lookup shift_32 t₃ x m ≡ none =
        l3rib_lookup-find shift_32 t₃ x m hx lo hi
        ∙ ap (λ rs. find_route rs (key x m) m) routes
        ∙ sym (l3rib_lookup-find shift_32 t x m hx lo hi)
        ∙ absent in
      (
        t₁,
        t₁,
        t₃,
        i₁,
        j₁,
        record j₁ { is_ipadd_config = false },
        record { ip_addr = 0; mask = 0 },
        record { ip_addr = 0; mask = 0 },
        old_address j₁,
        rw (l3, free, added) refl,
        rw (l3', free', again) refl,
        rw (text, ==_refl m, deletes) refl,
        refl,
        gone,
      )
