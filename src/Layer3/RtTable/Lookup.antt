-- ===== src/Layer3/RtTable/Lookup.antt =====
-- Looking up what has been added to the routing table and deleted from it.
use networking_protocol_deve.Base.{
  ℕ, ◌+◌, ◌^◌, ◌<◌, ◌≤◌, ◌≡◌, refl, sym, ◌∙◌, inl, inr, false, ◌&&◌, Option, some, ◌==◌, arith,
  Option-cases, length,
}
use networking_protocol_deve.Base.CString.{Chars}
use networking_protocol_deve.Net.Ip.{tcp_ip_covert_ip_n_to_p}
use networking_protocol_deve.Net.Ip.RoundTrip.{
  network, network-lt, network-network, apply_mask-ntop, p_to_n-ntop, prefix-ntop, strncmp_eq-ntop,
}
use networking_protocol_deve.Layer3.RtTable.{
  RtTable, find_route, remove_route, add_found, l3rib_lookup, rt_table_add_route,
  rt_table_delete_route, delete_found,
}
use networking_protocol_deve.Layer3.RtTable.Find.{
  same_key, remove-find_ne, remove-length, add_found-find, added_route,
}

-- the key of the routes to the network of `x`
abbrev pub key : ℕ → ℕ → Chars
key x m = tcp_ip_covert_ip_n_to_p (network x m)

module _ (shift_32 : ℕ → ℕ) where
  -- The text that a lookup compares.
  pub l3rib_lookup-find :
      (t : RtTable) (y m : ℕ)
      → y < 2 ^ 32
      → 1 ≤ m
      → m ≤ 32
      → l3rib_lookup shift_32 t y m ≡ find_route t.routes (key y m) m
  unfolding l3rib_lookup
  l3rib_lookup-find t y m h lo hi = rw (apply_mask-ntop shift_32 y m h lo hi) refl

  -- What `rt_table_add_route` looks up and adds.
  pub add_route-find :
      (t : RtTable) (x m : ℕ) (via : Option (Chars × ℕ)) (metric : ℕ)
      → x < 2 ^ 32
      → 1 ≤ m
      → m ≤ 32
      → rt_table_add_route shift_32 t (tcp_ip_covert_ip_n_to_p x) m via metric
        ≡ add_found t (key x m) (key x m) m via metric (find_route t.routes (key x m) m)
  unfolding rt_table_add_route
  add_route-find t x m via metric h lo hi =
      let small : network x m < 2 ^ 32 = network-lt x m h in
      rw
        (
          apply_mask-ntop shift_32 x m h lo hi,
          p_to_n-ntop (network x m) small,
          l3rib_lookup-find t (network x m) m small lo hi,
          apply_mask-ntop shift_32 (network x m) m small lo hi,
          network-network x m,
        )
        refl

  -- Two addresses have the same key when they lie in the same network.
  same_key-network :
      (x y m m' : ℕ)
      → x < 2 ^ 32
      → y < 2 ^ 32
      → same_key (key x m) m (key y m') m' ≡ (network x m == network y m' && m == m')
  same_key-network x y m m' hx hy =
      rw (strncmp_eq-ntop (network x m) (network y m') (network-lt x m hx) (network-lt y m' hy))
        refl

  -- After `rt_table_add_route` has added a route to the network of `x`, a lookup of that network with
  -- the same mask finds the new route with the gateway and the metric given, which is direct without
  -- a gateway, or the old route with the gateway in its array and the metric, or the old route as it
  -- was where it had the gateway, had no slot or no gateway was given; a lookup of an address in
  -- another network or with another mask finds what it found before. The addresses have 32 bits and
  -- the masks lie between 1 and 32; the default route, of mask 0, is left out.
  pub add_route-lookup :
      (t t' : RtTable) (x y m m' : ℕ) (via : Option (Chars × ℕ)) (metric : ℕ)
      → x < 2 ^ 32
      → 1 ≤ m
      → m ≤ 32
      → y < 2 ^ 32
      → 1 ≤ m'
      → m' ≤ 32
      → rt_table_add_route shift_32 t (tcp_ip_covert_ip_n_to_p x) m via metric ≡ some t'
      → (l3rib_lookup shift_32 t' x m
          ≡ some (added_route (key x m) m via metric (l3rib_lookup shift_32 t x m)))
        × ((network x m == network y m' && m == m') ≡ false
            → l3rib_lookup shift_32 t' y m' ≡ l3rib_lookup shift_32 t y m')
  add_route-lookup t t' x y m m' via metric hx lo hi hy lo' hi' e =
      let found = sym (add_route-find t x m via metric hx lo hi) ∙ e in
      let (self, other) =
        add_found-find t t' (key x m) m via metric (find_route t.routes (key x m) m)
          (prefix-ntop 15 (network x m) (omega arith)) refl found in
      rw
        (
          l3rib_lookup-find t' x m hx lo hi,
          l3rib_lookup-find t x m hx lo hi,
          l3rib_lookup-find t' y m' hy lo' hi',
          l3rib_lookup-find t y m' hy lo' hi',
        )
        (self, λ n. other (key y m') m' (same_key-network x y m m' hx hy ∙ n))

  -- Deleting the route to the network of `x` leaves the lookups of every other network or mask as
  -- they were, and takes one route from the table. The addresses have 32 bits and the masks lie
  -- between 1 and 32.
  pub delete_route-lookup :
      (t t' : RtTable) (x y m m' : ℕ)
      → x < 2 ^ 32
      → 1 ≤ m
      → m ≤ 32
      → y < 2 ^ 32
      → 1 ≤ m'
      → m' ≤ 32
      → rt_table_delete_route shift_32 t (tcp_ip_covert_ip_n_to_p x) m ≡ some t'
      → (length t'.routes + 1 ≡ length t.routes)
        × ((network x m == network y m' && m == m') ≡ false
            → l3rib_lookup shift_32 t' y m' ≡ l3rib_lookup shift_32 t y m')
  unfolding rt_table_delete_route delete_found
  delete_route-lookup t t' x y m m' hx lo hi hy lo' hi' e =
      elim (Option-cases (find_route t.routes (key x m) m)) [
        | inl f ↦ absurd (ground (arith, apply_mask-ntop shift_32 x m hx lo hi))
        | inr (r, f) ↦
            let routes : t'.routes ≡ remove_route t.routes (key x m) m =
              ground (arith, apply_mask-ntop shift_32 x m hx lo hi) in
            rw (l3rib_lookup-find t' y m' hy lo' hi', l3rib_lookup-find t y m' hy lo' hi', routes)
              (
                remove-length (key x m) m t.routes r f,
                λ n.
                    remove-find_ne (key x m) m (key y m') m' t.routes
                      (same_key-network x y m m' hx hy ∙ n),
              )
      ]
