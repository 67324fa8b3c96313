-- ===== src/Spf/Routes.antt =====
-- Layer5/spf_algo/spf.c: `spf_install_routes`, and a whole run of `compute_spf`.
use networking_protocol_deve.Base.{
  ℕ, ◌^◌, ◌≤◌, ◌<◌, ◌≡◌, refl, sym, ap, ◌∙◌, Bool, true, false, ◌&&◌, List, [], ◌∷◌, ◌==◌,
  Bool-cases, inl, inr, arith, length, is_some, ◌⊎◌, All, Option, none, some,
}
use networking_protocol_deve.Base.CString.{Chars}
use networking_protocol_deve.Net.Ip.{tcp_ip_covert_ip_n_to_p}
use networking_protocol_deve.Net.Ip.RoundTrip.{network}
use networking_protocol_deve.Layer3.Nexthops.{Scan, scan_nexthops, duplicate, free_slot, no_slot}
use networking_protocol_deve.Layer3.RtTable.{
  notice, rt_update_f, with_nexthop, update_route, Route, RtTable, add_found, add_to_route,
  rt_table_add_route, l3rib_lookup, clear_rt_table, find_route,
}
use networking_protocol_deve.Layer3.RtTable.Lookup.{
  l3rib_lookup-find, key, add_route-find, add_route-lookup,
}
use networking_protocol_deve.Spf.Topology.{Topo}
use networking_protocol_deve.Spf.Arrays.{Hops, Heap}
use networking_protocol_deve.Spf.Compute.{
  Spf, SpfResult, install_nexthops, install_results, spf_install_routes, compute_spf,
}
use networking_protocol_deve.Spf.Refs.{occ, refs, live, one_self}
use networking_protocol_deve.Spf.Counted.{occ_results, IsCounted, total_node}
use networking_protocol_deve.Spf.Relax.{IsClosed}
use networking_protocol_deve.Spf.Shortest.{compute_results-returns}

-- a slot of the array holds a nexthop
abbrev pub has_hop : Hops → Bool
has_hop [] = false
has_hop (none ∷ a) = has_hop a
has_hop (some p ∷ a) = true

Scan-cases : (c : Scan) → (c ≡ duplicate) ⊎ ((c ≡ no_slot) ⊎ (c ≡ free_slot))
Scan-cases duplicate = inl refl
Scan-cases no_slot = inr (inl refl)
Scan-cases free_slot = inr (inr refl)

-- With a gateway `rt_table_add_route` always returns.
add_found_total :
    (t : RtTable) (dst text : Chars) (mask : ℕ) (gw : Chars) (oif metric : ℕ) (o : Option Route)
    → (t' : RtTable) × (add_found t dst text mask (some (gw, oif)) metric o ≡ some t')
unfolding add_found add_to_route
add_found_total t dst text mask gw oif metric none = (_, refl)
add_found_total t dst text mask gw oif metric (some r) =
    elim (Scan-cases (scan_nexthops gw oif r.nexthops)) [
      | inl e ↦ (t, ground (arith, e))
      | inr (inl e) ↦ (t, ground (arith, e))
      | inr (inr e) ↦ (
        record {
          routes = update_route t.routes text mask (λ x. with_nexthop x gw oif metric);
          notices = notice r rt_update_f ∷ t.notices;
        },
        ground (arith, e),
      )
    ]

-- the lookup of a network finds a route
abbrev pub IsFound : (ℕ → ℕ) → RtTable → ℕ → ℕ → Type 0
IsFound shift_32 t y mask = is_some (l3rib_lookup shift_32 t y mask) ≡ true

-- The address `x` does not make up the network of `y`.
abbrev pub IsAway : ℕ → ℕ → ℕ → Type 0
IsAway x y mask = (network x 32 == network y mask && 32 == mask) ≡ false

same_lookup :
    (shift_32 : ℕ → ℕ) (t : RtTable) (x y mask : ℕ)
    → x < 2 ^ 32
    → y < 2 ^ 32
    → 1 ≤ mask
    → mask ≤ 32
    → (network x 32 == network y mask && 32 == mask) ≡ true
    → l3rib_lookup shift_32 t y mask ≡ l3rib_lookup shift_32 t x 32
same_lookup shift_32 t x y mask hx hy l h same =
    let e : mask ≡ 32 = ground (arith, same) in
    let n : network y mask ≡ network x 32 = ground (arith, same) in
    l3rib_lookup-find shift_32 t y mask hy l h
    ∙ ap (λ k. find_route t.routes (tcp_ip_covert_ip_n_to_p k) mask) n
    ∙ ap (find_route t.routes (key x 32)) e
    ∙ sym (l3rib_lookup-find shift_32 t x 32 hx (omega arith) (omega arith))

module _ (shift_32 : ℕ → ℕ) (topo : Topo) (lo : ℕ → ℕ) (small : (v : ℕ) → lo v < 2 ^ 32)
    (named : (v : ℕ) → topo.lb_addr v ≡ tcp_ip_covert_ip_n_to_p (lo v)) where
  -- no route is lost, and the lookups of the networks that `Away` describes stay
  abbrev Extends : (ℕ → ℕ → Type 0) → RtTable → RtTable → Type 0
  Extends Away t t' =
      ((y mask : ℕ)
        → y < 2 ^ 32
        → 1 ≤ mask
        → mask ≤ 32
        → (IsFound shift_32 t y mask → IsFound shift_32 t' y mask)
          × (Away y mask → l3rib_lookup shift_32 t' y mask ≡ l3rib_lookup shift_32 t y mask))

  add_route_total :
      (t : RtTable) (v : ℕ) (gw : Chars) (oif metric : ℕ)
      → (t' : RtTable) × (rt_table_add_route shift_32 t (topo.lb_addr v) 32 (some (gw, oif)) metric
          ≡ some t')
        × IsFound shift_32 t' (lo v) 32
        × Extends (IsAway (lo v)) t t'
  add_route_total t v gw oif metric =
      let x = lo v in
      let (t', e) =
        add_found_total t (key x 32) (key x 32) 32 gw oif metric
          (find_route t.routes (key x 32) 32) in
      let added : rt_table_add_route shift_32 t (tcp_ip_covert_ip_n_to_p x) 32 (some (gw, oif))
            metric
          ≡ some t' =
        add_route-find shift_32 t x 32 (some (gw, oif)) metric (small v) (omega arith) (omega arith)
        ∙ e in
      let found : is_some (l3rib_lookup shift_32 t' x 32) ≡ true = ap is_some (
        (add_route-lookup shift_32 t t' x x 32 32 (some (gw, oif)) metric (small v) (omega arith)
          (omega arith) (small v) (omega arith) (omega arith) added).0) in
      (
        t',
        rw (named v) added,
        found,
        λ y mask hy l h.
            let (self, other) =
              add_route-lookup shift_32 t t' x y 32 mask (some (gw, oif)) metric (small v)
                (omega arith) (omega arith) hy l h added in
            (
              λ f. elim (Bool-cases (network x 32 == network y mask && 32 == mask)) [
                | inl same ↦
                    ap is_some (same_lookup shift_32 t' x y mask (small v) hy l h same) ∙ found
                | inr apart ↦ ap is_some (other apart) ∙ f
              ],
              other,
            ),
      )

  -- The nexthops of one result all have their route, and a result with a nexthop has one.
  install_nexthops_total :
      (h : Heap) (v metric : ℕ) (a : Hops) (t : RtTable)
      → ((q : ℕ) → occ q a ≤ refs h q)
      → (t' : RtTable) × (install_nexthops shift_32 h topo v metric a t ≡ some t')
        × (has_hop a ≡ true → IsFound shift_32 t' (lo v) 32)
        × Extends (IsAway (lo v)) t t'
  unfolding install_nexthops occ
  install_nexthops_total h v metric [] t c =
      (t, refl, λ k. ground (arith, k), λ y mask hy l k. (λ f. f, λ away. refl))
  install_nexthops_total h v metric (none ∷ a) t c = install_nexthops_total h v metric a t c
  install_nexthops_total h v metric (some p ∷ a) t c =
      let (nh, e) = live h p (omega (arith, one_self p, c p)) in
      let (t₁, e₁, found, ext₁) = add_route_total t v nh.gw_ip nh.oif metric in
      let (t₂, e₂, _, ext₂) = install_nexthops_total h v metric a t₁ (λ q. omega (arith, c q)) in
      (
        t₂,
        rw (e, e₁) e₂,
        λ _. (ext₂ (lo v) 32 (small v) (omega arith) (omega arith)).0 found,
        λ y mask hy l k.
            let (keep₁, same₁) = ext₁ y mask hy l k in
            let (keep₂, same₂) = ext₂ y mask hy l k in
            (λ f. keep₂ (keep₁ f), λ away. same₂ away ∙ same₁ away),
      )

  -- the address of no result makes up the network
  abbrev pub AreAway : List SpfResult → ℕ → ℕ → Type 0
  AreAway rs y mask = All (λ r. IsAway (lo r.node) y mask) rs

  -- every result with a nexthop has a route to the address of its node
  abbrev pub HaveRoutes : RtTable → List SpfResult → Type 0
  HaveRoutes t rs = All (λ r. has_hop r.nexthops ≡ true → IsFound shift_32 t (lo r.node) 32) rs

  routes_kept :
      (Away : ℕ → ℕ → Type 0) (t t' : RtTable) (rs : List SpfResult)
      → Extends Away t t'
      → HaveRoutes t rs
      → HaveRoutes t' rs
  routes_kept Away t t' [] ext h = tt
  routes_kept Away t t' (r ∷ rs) ext (f, h) = (
    λ k. (ext (lo r.node) 32 (small r.node) (omega arith) (omega arith)).0 (f k),
    routes_kept Away t t' rs ext h,
  )

  install_results_total :
      (h : Heap) (rs : List SpfResult) (t : RtTable)
      → ((q : ℕ) → occ_results q rs ≤ refs h q)
      → (t' : RtTable) × (install_results shift_32 h topo rs t ≡ some t')
        × HaveRoutes t' rs
        × Extends (AreAway rs) t t'
  unfolding install_results occ_results
  install_results_total h [] t c = (t, refl, tt, λ y mask hy l k. (λ f. f, λ away. refl))
  install_results_total h (r ∷ rs) t c =
      let (t₁, e₁, found, ext₁) =
        install_nexthops_total h r.node r.spf_metric r.nexthops t (λ q. omega (arith, c q)) in
      let (t₂, e₂, rest, ext₂) = install_results_total h rs t₁ (λ q. omega (arith, c q)) in
      (
        t₂,
        rw e₁ e₂,
        (λ k. (ext₂ (lo r.node) 32 (small r.node) (omega arith) (omega arith)).0 (found k), rest),
        λ y mask hy l k.
            let (keep₁, same₁) = ext₁ y mask hy l k in
            let (keep₂, same₂) = ext₂ y mask hy l k in
            (λ f. keep₂ (keep₁ f), λ (a, b). same₂ b ∙ same₁ a),
      )

  -- In a closed graph with loopback addresses, with counts that cover the slots and with fuel for
  -- more than its nodes, `compute_spf` returns; every result at the root with a nexthop then has a
  -- route to the loopback address of its node, and the lookup of a network other than these
  -- addresses, with a mask from 1 to 32, finds what it finds in the cleared table.
  pub compute_spf-routes :
      (root top_cost fuel : ℕ) (s : Spf) (t : RtTable)
      → IsClosed shift_32 topo root top_cost
      → IsCounted topo.node_list s
      → length topo.node_list < fuel
      → (s' : Spf) × (t' : RtTable) × (compute_spf shift_32 fuel topo root s t ≡ some (s', t'))
        × HaveRoutes t' (s'.spf_result_head root)
        × ((y mask : ℕ)
            → y < 2 ^ 32
            → 1 ≤ mask
            → mask ≤ 32
            → AreAway (s'.spf_result_head root) y mask
            → l3rib_lookup shift_32 t' y mask ≡ l3rib_lookup shift_32 (clear_rt_table t) y mask)
  unfolding compute_spf spf_install_routes
  compute_spf-routes root top_cost fuel s t closed c enough =
      let (s', e, _, (fresh, count)) =
        compute_results-returns shift_32 topo root top_cost closed fuel s c enough in
      let (t', e', found, ext) =
        install_results_total s'.heap (s'.spf_result_head root) (clear_rt_table t)
          λ q. omega (arith, count q, total_node topo.node_list s' root q closed.root_inside) in
      (s', t', rw (e, e') refl, found, λ y mask hy l k away. (ext y mask hy l k).1 away)
