-- ===== src/Layer3/Addresses/Connected.antt =====
-- The routes to the subnets of the interfaces, as their addresses come and go.
use networking_protocol_deve.Base.{
  ℕ, ◌^◌, ◌<◌, ◌≤◌, ◌≡◌, refl, sym, ap, ◌∙◌, true, false, ◌&&◌, ◌||◌, not, none, some, List, ◌∷◌,
  ◌==◌, ==_refl, Bool-cases, inl, inr, arith, is_some,
}
use networking_protocol_deve.Base.CString.{strncmp_eq, strncmp_eq_refl, prefix}
use networking_protocol_deve.Net.{Interface, is_l2_mode}
use networking_protocol_deve.Net.Ip.{tcp_ip_covert_ip_n_to_p, tcp_ip_covert_ip_p_to_n}
use networking_protocol_deve.Net.Ip.RoundTrip.{
  network, prefix-ntop, strncmp_eq-ntop, p_to_n-ntop, apply_mask-ntop,
}
use networking_protocol_deve.Layer3.RtTable.{
  Route, RtTable, find_route, remove_route, l3rib_lookup, rt_table_add_direct_route,
  rt_table_delete_route, add_found, add_new_route, new_route, add_to_route, delete_found, notice,
  rt_del_f,
}
use networking_protocol_deve.Layer3.RtTable.Lookup.{
  key, add_route-find, l3rib_lookup-find, add_route-lookup, delete_route-lookup,
}
use networking_protocol_deve.Layer3.Addresses.{
  IpChange, copy_address, set_new_address, change_address, interface_set_ip_addr, remove_address,
  interface_unset_ip_addr, old_address,
}

new_route-found :
    (x m : ℕ) (rs : List Route)
    → x < 2 ^ 32
    → (find_route (new_route (key x m) m ∷ rs) (key x m) m ≡ some (new_route (key x m) m))
      × (remove_route (new_route (key x m) m ∷ rs) (key x m) m ≡ rs)
unfolding find_route remove_route new_route
new_route-found x m rs h =
    rw (prefix-ntop 15 (network x m) (omega arith), strncmp_eq_refl 16 (key x m), ==_refl m)
      (refl, refl)

no_nexthop :
    (t : RtTable) (x m : ℕ)
    → add_found t (key x m) (key x m) m none 0 (some (new_route (key x m) m)) ≡ some t
unfolding add_found add_to_route new_route
no_nexthop t x m = refl

texts_differ :
    (x y m k : ℕ)
    → x < 2 ^ 32
    → y < 2 ^ 32
    → (network x m == network y k && m == k) ≡ false
    → (not (strncmp_eq 16 (tcp_ip_covert_ip_n_to_p x) (tcp_ip_covert_ip_n_to_p y)) || not (m == k))
      ≡ true
texts_differ x y m k hx hy apart = elim (Bool-cases (x == y)) [
  | inl e ↦
      let same : x ≡ y = ground arith in
      elim (Bool-cases (m == k)) [
        | inl f ↦
            let mask : m ≡ k = ground arith in
            let net : network x m ≡ network y k =
              ap (λ a. network a m) same ∙ ap (network y) mask in
            ground arith
        | inr f ↦ ground arith
      ]
  | inr e ↦ rw (strncmp_eq-ntop x y hx hy, e) refl
]

module _ (shift_32 : ℕ → ℕ) where
  pub add_direct-new :
      (t : RtTable) (x m : ℕ)
      → x < 2 ^ 32
      → 1 ≤ m
      → m ≤ 32
      → l3rib_lookup shift_32 t x m ≡ none
      → rt_table_add_direct_route shift_32 t (tcp_ip_covert_ip_n_to_p x) m
        ≡ some (add_new_route t (key x m) m none 0)
  unfolding rt_table_add_direct_route add_found
  add_direct-new t x m h lo hi absent =
      let missing : find_route t.routes (key x m) m ≡ none =
        sym (l3rib_lookup-find shift_32 t x m h lo hi) ∙ absent in
      add_route-find shift_32 t x m none 0 h lo hi
      ∙ ap (add_found t (key x m) (key x m) m none 0) missing

  pub delete-new :
      (t : RtTable) (x m : ℕ) (rs : List Route)
      → x < 2 ^ 32
      → 1 ≤ m
      → m ≤ 32
      → t.routes ≡ new_route (key x m) m ∷ rs
      → (t' : RtTable) × (rt_table_delete_route shift_32 t (tcp_ip_covert_ip_n_to_p x) m ≡ some t')
        × (t'.routes ≡ rs)
  unfolding rt_table_delete_route delete_found
  delete-new t x m rs h lo hi e =
      let (found, removed) = new_route-found x m rs h in
      let r = new_route (key x m) m in
      (
        record { routes = rs; notices = notice r rt_del_f ∷ t.notices },
        rw (apply_mask-ntop shift_32 x m h lo hi, e, found, removed) refl,
        refl,
      )

  pub add_direct-again :
      (t : RtTable) (x m : ℕ) (rs : List Route)
      → x < 2 ^ 32
      → 1 ≤ m
      → m ≤ 32
      → t.routes ≡ new_route (key x m) m ∷ rs
      → rt_table_add_direct_route shift_32 t (tcp_ip_covert_ip_n_to_p x) m ≡ some t
  unfolding rt_table_add_direct_route add_found add_to_route
  add_direct-again t x m rs h lo hi e =
      let (found, _) = new_route-found x m rs h in
      let there : find_route t.routes (key x m) m ≡ some (new_route (key x m) m) =
        ap (λ l. find_route l (key x m) m) e ∙ found in
      add_route-find shift_32 t x m none 0 h lo hi
      ∙ ap (add_found t (key x m) (key x m) m none 0) there
      ∙ no_nexthop t x m

  -- An address is given to an interface that has none and is in no L2 mode, and taken away again:
  -- where the routing table had no route to the subnet, both commands succeed, in between the
  -- subnet is found, and in the end the table has the routes that it had. The address has 32 bits
  -- and the mask lies between 1 and 32.
  pub set-unset :
      (t : RtTable) (i : Interface) (x m : ℕ)
      → x < 2 ^ 32
      → 1 ≤ m
      → m ≤ 32
      → is_l2_mode i.intf_l2_mode ≡ false
      → i.is_ipadd_config ≡ false
      → l3rib_lookup shift_32 t x m ≡ none
      → (t₁ t₂ : RtTable) × (i₁ i₂ : Interface) × (c₁ c₂ : IpChange) × (interface_set_ip_addr
            shift_32 t i
            (tcp_ip_covert_ip_n_to_p x)
            m
          ≡ some (t₁, i₁, some c₁))
        × (i₁.is_ipadd_config ≡ true)
        × (is_some (l3rib_lookup shift_32 t₁ x m) ≡ true)
        × (interface_unset_ip_addr shift_32 t₁ i₁ (tcp_ip_covert_ip_n_to_p x) m
            ≡ some (t₂, i₂, some c₂))
        × (i₂.is_ipadd_config ≡ false)
        × (t₂.routes ≡ t.routes)
  unfolding add_new_route interface_set_ip_addr set_new_address interface_unset_ip_addr
      remove_address copy_address
  set-unset t i x m h lo hi l3 free absent =
      let ip = tcp_ip_covert_ip_n_to_p x in
      let t₁ = add_new_route t (key x m) m none 0 in
      let i₁ = record (copy_address i ip m) { is_ipadd_config = true } in
      let added = add_direct-new t x m h lo hi absent in
      let (t₂, deleted, routes) = delete-new t₁ x m t.routes h lo hi refl in
      let (found, _) = new_route-found x m t.routes h in
      let looked : is_some (l3rib_lookup shift_32 t₁ x m) ≡ true =
        ap is_some (l3rib_lookup-find shift_32 t₁ x m h lo hi ∙ found) in
      let same : strncmp_eq 16 (prefix 16 ip) ip ≡ true =
        rw (prefix-ntop 16 x (omega arith)) (strncmp_eq_refl 16 ip) in
      (
        t₁,
        t₂,
        i₁,
        record i₁ { is_ipadd_config = false },
        record { ip_addr = 0; mask = 0 },
        old_address i₁,
        rw (l3, free, added) refl,
        refl,
        looked,
        rw (same, ==_refl m, deleted) refl,
        refl,
        routes,
      )

  delete-found :
      (t : RtTable) (x m : ℕ) (r : Route)
      → x < 2 ^ 32
      → 1 ≤ m
      → m ≤ 32
      → l3rib_lookup shift_32 t x m ≡ some r
      → (t' : RtTable) × (rt_table_delete_route shift_32 t (tcp_ip_covert_ip_n_to_p x) m ≡ some t')
  unfolding rt_table_delete_route delete_found
  delete-found t x m r h lo hi e =
      let found : find_route t.routes (key x m) m ≡ some r =
        sym (l3rib_lookup-find shift_32 t x m h lo hi) ∙ e in
      (
        record {
          routes = remove_route t.routes (key x m) m;
          notices = notice r rt_del_f ∷ t.notices;
        },
        rw (apply_mask-ntop shift_32 x m h lo hi, found) refl,
      )

  -- On an interface in no L2 mode, where the routing table has a route to the subnet of its
  -- address and none to another subnet, a change to an address of the other subnet succeeds and
  -- reports the old address; the new subnet is found, and the lookups of all but the two subnets
  -- stay as they were. The addresses have 32 bits and the masks lie between 1 and 32.
  pub change-Connected :
      (t : RtTable) (i : Interface) (x m y k : ℕ) (r : Route)
      → (x < 2 ^ 32) × (1 ≤ m) × (m ≤ 32)
      → (y < 2 ^ 32) × (1 ≤ k) × (k ≤ 32)
      → is_l2_mode i.intf_l2_mode ≡ false
      → i.is_ipadd_config ≡ true
      → i.ip_add ≡ tcp_ip_covert_ip_n_to_p x
      → i.mask ≡ m
      → l3rib_lookup shift_32 t x m ≡ some r
      → l3rib_lookup shift_32 t y k ≡ none
      → (network x m == network y k && m == k) ≡ false
      → (t' : RtTable) × (i' : Interface) × (c : IpChange) × (interface_set_ip_addr shift_32 t i
            (tcp_ip_covert_ip_n_to_p y)
            k
          ≡ some (t', i', some c))
        × (i'.ip_add ≡ tcp_ip_covert_ip_n_to_p y)
        × (i'.mask ≡ k)
        × (c.ip_addr ≡ x)
        × (c.mask ≡ m)
        × (is_some (l3rib_lookup shift_32 t' y k) ≡ true)
        × ((z j : ℕ)
            → (z < 2 ^ 32) × (1 ≤ j) × (j ≤ 32)
            → (network x m == network z j && m == j) ≡ false
            → (network y k == network z j && k == j) ≡ false
            → l3rib_lookup shift_32 t' z j ≡ l3rib_lookup shift_32 t z j)
  unfolding interface_set_ip_addr change_address copy_address old_address rt_table_add_direct_route
  change-Connected t i x m y k r (hx, lo, hi) (hy, lo', hi') l3 configured text mask found absent
        apart =
      let (deleted, deletes) = delete-found t x m r hx lo hi found in
      let (_, keeps) = delete_route-lookup shift_32 t deleted x y m k hx lo hi hy lo' hi' deletes in
      let t' = add_new_route deleted (key y k) k none 0 in
      let adds = add_direct-new deleted y k hy lo' hi' (keeps apart ∙ absent) in
      let (new, _) =
        add_route-lookup shift_32 deleted t' y y k k none 0 hy lo' hi' hy lo' hi' adds in
      let whole = prefix-ntop 16 y (omega arith) in
      let differs : (not (strncmp_eq 16 (tcp_ip_covert_ip_n_to_p x) (tcp_ip_covert_ip_n_to_p y))
            || not (m == k))
          ≡ true =
        texts_differ x y m k hx hy apart in
      (
        t',
        copy_address i (tcp_ip_covert_ip_n_to_p y) k,
        old_address i,
        rw (l3, configured, text, mask, differs, deletes, whole, adds) refl,
        whole,
        refl,
        ap tcp_ip_covert_ip_p_to_n text ∙ p_to_n-ntop x hx,
        mask,
        ap is_some new,
        λ z j (hz, lo'', hi'') a b.
            let (_, kept) =
              delete_route-lookup shift_32 t deleted x z m j hx lo hi hz lo'' hi'' deletes in
            let (_, other) =
              add_route-lookup shift_32 deleted t' y z k j none 0 hy lo' hi' hz lo'' hi'' adds in
            other b ∙ kept a,
      )
