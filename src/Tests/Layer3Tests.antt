-- ===== src/Tests/Layer3Tests.antt =====
-- A routing table with a route to 10.1.0.0/16 and one to 10.1.2.0/24.
use networking_protocol_deve.Base.{
  ◌++◌, ℕ, ◌+◌, ◌≤◌, ◌≡◌, refl, true, false, ◌&&◌, some, [], ◌∷◌, ◌==◌, arith, length, get_elem?,
  ap, sym, ◌∙◌,
}
use networking_protocol_deve.Base.CString.{Chars, strncmp_eq, prefix}
use networking_protocol_deve.Net.Ip.{
  octet_chars, tcp_ip_covert_ip_n_to_p, tcp_ip_covert_ip_p_to_n, inet_pton, pton_loop, pton_step,
  pton_digit, apply_mask, mask_bits,
}
use networking_protocol_deve.Net.Ip.RoundTrip.{network}
use networking_protocol_deve.Layer3.Nexthops.{Nexthop, l3_route_insert_nexthop}
use networking_protocol_deve.Layer3.Nexthops.Sorted.{
  packed, Ordered, insert_sorted, insert_nexthop_lem,
}
use networking_protocol_deve.Layer3.RtTable.{
  Route, RtTable, rt_del_f, is_default, find_route, remove_route, new_route, add_new_route,
  add_found, l3rib_lookup, lpm_match, l3rib_lookup_lpm, rt_table_add_route, rt_table_delete_route,
  delete_found,
}
use networking_protocol_deve.Layer3.RtTable.Find.{added_route}
use networking_protocol_deve.Layer3.RtTable.Lookup.{key, add_route-lookup, delete_route-lookup}
use networking_protocol_deve.Layer3.RtTable.Lpm.{lookup_lpm_longest, lookup_lpm-text_prefix}

-- 10.1.2.3 and 10.1.3.4
abbrev host : ℕ
host = 167838211

abbrev other_host : ℕ
other_host = 167838468

-- what the undefined shift gives here
abbrev shift_keeps : ℕ → ℕ
shift_keeps x = x

abbrev to_subnet : Route
to_subnet = new_route (tcp_ip_covert_ip_n_to_p 167838208) 24

abbrev to_net : Route
to_net = new_route (tcp_ip_covert_ip_n_to_p 167837696) 16

abbrev table : RtTable
table = record { routes = to_net ∷ to_subnet ∷ []; notices = [] }

abbrev hop : ℕ → Nexthop
hop i = record {
  gw_ip = tcp_ip_covert_ip_n_to_p i;
  oif = i;
  ref_count = 1;
  ifindex = i;
  hit_count = 0;
}

insert_nexthop_lem_example :
    let l = hop 1 ∷ hop 3 ∷ [] in
    let x : Nexthop = record { gw_ip = []; oif = 2; ref_count = 0; ifindex = 2; hit_count = 0 } in
    let y : Nexthop = record { gw_ip = []; oif = 2; ref_count = 1; ifindex = 2; hit_count = 0 } in
    (l3_route_insert_nexthop (packed l) x ≡ (packed (insert_sorted y l), true))
    × Ordered (insert_sorted y l)
insert_nexthop_lem_example =
    insert_nexthop_lem (record { gw_ip = []; oif = 2; ref_count = 0; ifindex = 2; hit_count = 0 })
      (hop 1 ∷ hop 3 ∷ []) (omega arith) (omega arith, tt)

abbrev ecmp : Route
ecmp = record {
  dest = tcp_ip_covert_ip_n_to_p host;
  mask = 32;
  is_direct = false;
  nexthops = packed (hop 1 ∷ hop 2 ∷ hop 3 ∷ []);
  spf_metric = 5;
  nxthop_idx = 2;
}

abbrev addr_text : Chars
addr_text = tcp_ip_covert_ip_n_to_p 167838209

abbrev added : RtTable
added = add_new_route table (tcp_ip_covert_ip_n_to_p 167838464) 24 (some (addr_text, 3)) 7

add_runs :
    rt_table_add_route shift_keeps table
      (tcp_ip_covert_ip_n_to_p other_host)
      24
      (some (addr_text, 3))
      7
    ≡ some added
unfolding rt_table_add_route l3rib_lookup find_route add_found new_route apply_mask mask_bits
    tcp_ip_covert_ip_n_to_p tcp_ip_covert_ip_p_to_n inet_pton octet_chars pton_loop pton_step
    pton_digit strncmp_eq prefix
add_runs = refl

add_route-lookup_example :
    (l3rib_lookup shift_keeps added other_host 24
      ≡ some (
          added_route
            (key other_host 24)
            24
            (some (addr_text, 3))
            7
            (l3rib_lookup shift_keeps table other_host 24)))
    × ((network other_host 24 == network host 24 && 24 == 24) ≡ false
        → l3rib_lookup shift_keeps added host 24 ≡ l3rib_lookup shift_keeps table host 24)
add_route-lookup_example =
    add_route-lookup shift_keeps table added other_host host 24 24 (some (addr_text, 3)) 7
      (omega arith) (omega arith) (omega arith) (omega arith) (omega arith) (omega arith) add_runs

abbrev deleted : RtTable
deleted = record {
  routes = to_net ∷ [];
  notices = record { dest = tcp_ip_covert_ip_n_to_p 167838208; mask = 24; flag = rt_del_f } ∷ [];
}

delete_runs :
    rt_table_delete_route shift_keeps table (tcp_ip_covert_ip_n_to_p host) 24 ≡ some deleted
unfolding rt_table_delete_route delete_found find_route remove_route new_route apply_mask mask_bits
    tcp_ip_covert_ip_n_to_p tcp_ip_covert_ip_p_to_n inet_pton octet_chars pton_loop pton_step
    pton_digit strncmp_eq prefix
delete_runs = refl

delete_route-lookup_example :
    (length deleted.routes + 1 ≡ length table.routes)
    × ((network host 24 == network host 16 && 24 == 16) ≡ false
        → l3rib_lookup shift_keeps deleted host 16 ≡ l3rib_lookup shift_keeps table host 16)
delete_route-lookup_example =
    delete_route-lookup shift_keeps table deleted host host 24 16 (omega arith) (omega arith)
      (omega arith) (omega arith) (omega arith) (omega arith) delete_runs

to_net_key : to_net.dest ≡ tcp_ip_covert_ip_n_to_p (network host 16)
unfolding new_route tcp_ip_covert_ip_n_to_p octet_chars network prefix
to_net_key = refl

to_net_mask : to_net.mask ≡ 16
unfolding new_route
to_net_mask = refl

lookup_lpm_longest_example :
    (r : Route) × (l3rib_lookup_lpm shift_keeps table host ≡ some r)
    × (is_default r ≡ false)
    × (lpm_match shift_keeps (tcp_ip_covert_ip_n_to_p host) r ≡ true)
    × ((j : ℕ) × (get_elem? table.routes j ≡ some r))
    × ((k : ℕ) (p : Route)
        → get_elem? table.routes k ≡ some p
        → 1 ≤ p.mask
        → p.mask ≤ 32
        → p.dest ≡ tcp_ip_covert_ip_n_to_p (network host p.mask)
        → p.mask ≤ r.mask)
lookup_lpm_longest_example =
    lookup_lpm_longest shift_keeps table host 0 to_net (omega arith) refl
      (omega (arith, to_net_mask)) (omega (arith, to_net_mask))
      (to_net_key ∙ ap (λ m. tcp_ip_covert_ip_n_to_p (network host m)) (sym to_net_mask))

-- 10.1.1.10, which the text of 10.1.1.1 begins
abbrev host_route : Route
host_route = record {
  dest = tcp_ip_covert_ip_n_to_p 167837962;
  mask = 32;
  is_direct = true;
  nexthops = packed [];
  spf_metric = 0;
  nxthop_idx = 0;
}

begins : host_route.dest ≡ tcp_ip_covert_ip_n_to_p 167837953 ++ (b'0' ∷ [])
unfolding tcp_ip_covert_ip_n_to_p octet_chars
begins = refl

lookup_lpm-text_prefix_example :
    l3rib_lookup_lpm shift_keeps (record { routes = host_route ∷ []; notices = [] }) 167837953
    ≡ some host_route
lookup_lpm-text_prefix_example =
    lookup_lpm-text_prefix shift_keeps (record { routes = host_route ∷ []; notices = [] }) 167837953
      (b'0' ∷ []) host_route refl refl begins
