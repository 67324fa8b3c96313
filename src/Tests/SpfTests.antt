-- ===== src/Tests/SpfTests.antt =====
-- Runs of the shortest path code, and the theorems about it at concrete topologies.
use mathlib.Core.Path.{subst}
use networking_protocol_deve.Base.{
  ℕ, ◌+◌, ◌*◌, ◌^◌, ◌≤◌, ◌<◌, ◌≡◌, refl, sym, true, false, List, [], ◌∷◌, ◌==◌, if◌then◌else◌,
  Bool-cases, inl, inr, arith, Option, none, some, put, map,
}
use networking_protocol_deve.Gluethread.Linked.{has, distinct}
use networking_protocol_deve.Net.{Interface, l2_mode_unknown}
use networking_protocol_deve.Net.Ip.{
  tcp_ip_covert_ip_n_to_p, is_same_subnet, apply_mask, octet_chars, tcp_ip_covert_ip_p_to_n,
  inet_pton, pton_loop, pton_step, mask_bits, pton_digit,
}
use networking_protocol_deve.Layer3.RtTable.{RtTable, init_rt_table, clear_rt_table, l3rib_lookup}
use networking_protocol_deve.Base.CString.{strncmp_eq, prefix}
use networking_protocol_deve.Gluethread.{precedes, is_minus_one}
use networking_protocol_deve.Spf.Topology.{
  Link, Topo, In, Walk, node_nbrs, filled, is_interface_l3_bidirectional,
}
use networking_protocol_deve.Spf.Arrays.{
  Hops, Heap, no_hops, spf_flush_nexthops, spf_insert_new_nexthop, create_new_nexthop, first_empty,
  release, retain, spf_is_nexthop_exist, spf_union_nexthops_arrays, store, union_from,
}
use networking_protocol_deve.Spf.Compute.{
  Spf, compute_results, compute_spf, add_direct, direct_nbr, enqueue, enqueue_nbrs, explore_nbr,
  explore_nbrs, flush_node, free_spf_results, init_node_spf_data, init_others,
  initialize_direct_nbrs, prepare, process_node, process_queue, requeue, reset_node,
  spf_comparison_fn, spf_explore_nbrs, spf_lookup_spf_result_by_node, spf_record_result,
  union_nodes,
}
use networking_protocol_deve.Spf.Counted.{IsCounted, total, occ_results}
use networking_protocol_deve.Spf.Refs.{occ, refs}
use networking_protocol_deve.Spf.Relax.{IsClosed}
use networking_protocol_deve.Spf.Shortest.{
  AreShortest, compute_results-returns, compute_results-shortest,
}
use networking_protocol_deve.Spf.Process.{nodes_of}
use networking_protocol_deve.Spf.Routes.{HaveRoutes, AreAway, compute_spf-routes}

abbrev shift_keeps : ℕ → ℕ
shift_keeps x = x

-- an interface with the last byte `host` in the subnet 10.1.`net`.0/24
abbrev port : ℕ → ℕ → Interface
port net host = record {
  if_name = host ∷ [];
  is_up = true;
  ifindex = host;
  mac_add = [];
  intf_l2_mode = l2_mode_unknown;
  vlans = [];
  is_ipadd_config = true;
  is_ipadd_config_backup = false;
  ip_add = tcp_ip_covert_ip_n_to_p (167837696 + 256 * net + host);
  mask = 24;
}

abbrev link : ℕ → ℕ → ℕ → ℕ → Link
link net from to cost = record {
  oif = 10 * from + to;
  intf = port net from;
  other_intf = port net to;
  nbr = to;
  cost = cost;
}

-- Three routers in a triangle; from 1 to 3 the way over 2 is shorter.
abbrev slots : ℕ → List (Option Link)
slots n =
    if n == 1
    then some (link 1 1 2 1) ∷ none ∷ some (link 3 1 3 5) ∷ []
    else if n == 2
    then some (link 1 2 1 1) ∷ some (link 2 2 3 1) ∷ []
    else if n == 3
    then some (link 2 3 2 1) ∷ some (link 3 3 1 5) ∷ []
    else []

abbrev lo_addr : ℕ → ℕ
lo_addr v = if v == 1 then 2046886145 else if v == 2 then 2046886146 else 2046886147

lo_addr-small : (v : ℕ) → lo_addr v < 2 ^ 32
lo_addr-small v = ground arith

abbrev triangle : Topo
triangle = record {
  node_list = 1 ∷ 2 ∷ 3 ∷ [];
  intf = slots;
  lb_addr = λ v. tcp_ip_covert_ip_n_to_p (lo_addr v);
}

abbrev at_first : Spf
at_first = record {
  heap = record { cell = λ p. none; next = 100 };
  spf_metric = λ n. 0;
  nexthops = λ n. no_hops;
  spf_result_head = λ n. [];
  priority_lst = [];
}

at_first-IsCounted : IsCounted (1 ∷ 2 ∷ 3 ∷ []) at_first
unfolding total occ_results occ
at_first-IsCounted = (λ q h. refl, λ q. omega arith)

In_slots :
    (P : Link → Type 0) (u : ℕ)
    → P (link 1 1 2 1)
      × P (link 3 1 3 5)
      × P (link 1 2 1 1)
      × P (link 2 2 3 1)
      × P (link 2 3 2 1)
      × P (link 3 3 1 5)
    → (l : Link) → In l (node_nbrs triangle u)
    → P l
unfolding node_nbrs filled
In_slots P u (a, b, c, d, e, f) l h = elim (Bool-cases (u == 1)) [
  | inl y ↦ two (link 1 1 2 1) (link 3 1 3 5) a b (rw y at h)
  | inr n ↦ elim (Bool-cases (u == 2)) [
    | inl y ↦ two (link 1 2 1 1) (link 2 2 3 1) c d (rw (n, y) at h)
    | inr n' ↦ elim (Bool-cases (u == 3)) [
      | inl y ↦ two (link 2 3 2 1) (link 3 3 1 5) e f (rw (n, n', y) at h)
      | inr n'' ↦ absurd (rw (n, n', n'') at h)
    ]
  ]
]
  where
    two : (x y : Link) → P x → P y → In l (x ∷ y ∷ []) → P l
    two x y p q = elim [
      | inl k ↦ subst P (sym k) p
      | inr (inl k) ↦ subst P (sym k) q
      | inr (inr nowhere) ↦ absurd nowhere
    ]

triangle-IsClosed : IsClosed shift_keeps triangle 1 5
unfolding node_nbrs filled
triangle-IsClosed = record {
  nodes_differ = refl;
  root_inside = refl;
  nbr_inside =
      λ u. In_slots (λ l. has l.nbr (1 ∷ 2 ∷ 3 ∷ []) ≡ true) u (refl, refl, refl, refl, refl, refl);
  no_loop = λ l. elim [
    | inl e ↦ subst (λ x. (x.nbr == 1) ≡ false) (sym e) refl
    | inr (inl e) ↦ subst (λ x. (x.nbr == 1) ≡ false) (sym e) refl
    | inr (inr nowhere) ↦ absurd nowhere
  ];
  cost_bound = λ u.
      In_slots (λ l. l.cost ≤ 5) u
        (omega arith, omega arith, omega arith, omega arith, omega arith, omega arith);
  metric_bound = omega arith;
}

abbrev metrics : Option Spf → List (ℕ × ℕ)
metrics none = []
metrics (some s) = map (λ r. (r.node, r.spf_metric)) (s.spf_result_head 1)

triangle_metrics :
    metrics (compute_results shift_keeps 4 triangle 1 at_first) ≡ (3, 2) ∷ (2, 1) ∷ []
unfolding compute_results spf_flush_nexthops node_nbrs filled is_interface_l3_bidirectional
    is_same_subnet strncmp_eq apply_mask tcp_ip_covert_ip_n_to_p octet_chars tcp_ip_covert_ip_p_to_n
    inet_pton pton_loop pton_step spf_insert_new_nexthop create_new_nexthop precedes is_minus_one
    prefix put mask_bits pton_digit first_empty release retain spf_is_nexthop_exist
    spf_union_nexthops_arrays store union_from add_direct direct_nbr enqueue enqueue_nbrs
    explore_nbr explore_nbrs flush_node free_spf_results init_node_spf_data init_others
    initialize_direct_nbrs prepare process_node process_queue requeue reset_node spf_comparison_fn
    spf_explore_nbrs spf_lookup_spf_result_by_node spf_record_result union_nodes
triangle_metrics = refl

compute_results-returns_example :
    (s' : Spf) × (compute_results shift_keeps 4 triangle 1 at_first ≡ some s')
    × (s'.priority_lst ≡ [])
    × IsCounted (1 ∷ 2 ∷ 3 ∷ []) s'
compute_results-returns_example =
    compute_results-returns shift_keeps triangle 1 5 triangle-IsClosed 4 at_first at_first-IsCounted
      (omega arith)

compute_results-shortest_example :
    (s' : Spf) × (compute_results shift_keeps 4 triangle 1 at_first ≡ some s')
    × AreShortest shift_keeps triangle 1 5 triangle-IsClosed (s'.spf_result_head 1)
    × (distinct (1 ∷ nodes_of (s'.spf_result_head 1)) ≡ true)
    × ((v c : ℕ)
        → Walk shift_keeps triangle 1 v c
        → (v == 1) ≡ false
        → has v (nodes_of (s'.spf_result_head 1)) ≡ true)
compute_results-shortest_example =
    compute_results-shortest shift_keeps triangle 1 5 triangle-IsClosed 4 at_first
      at_first-IsCounted (omega arith)

compute_spf-routes_example :
    (s' : Spf) × (t' : RtTable) × (compute_spf shift_keeps 4 triangle 1 at_first init_rt_table
      ≡ some (s', t'))
    × HaveRoutes shift_keeps triangle lo_addr lo_addr-small (λ v. refl) t' (s'.spf_result_head 1)
    × ((y mask : ℕ)
        → y < 2 ^ 32
        → 1 ≤ mask
        → mask ≤ 32
        → AreAway shift_keeps triangle lo_addr lo_addr-small
            (λ v. refl)
            (s'.spf_result_head 1)
            y
            mask
        → l3rib_lookup shift_keeps t' y mask
          ≡ l3rib_lookup shift_keeps (clear_rt_table init_rt_table) y mask)
compute_spf-routes_example =
    compute_spf-routes shift_keeps triangle lo_addr lo_addr-small (λ v. refl) 1 5 4 at_first
      init_rt_table triangle-IsClosed at_first-IsCounted (omega arith)

-- nexthops at the addresses 1 to 4 with an interface each, and one reference
abbrev four_nexthops : Heap
four_nexthops = record {
  cell = λ p. some (record { gw_ip = []; oif = p; ref_count = 1; ifindex = 0; hit_count = 0 });
  next = 100;
}

abbrev array_of : Option (Heap × Hops) → Hops
array_of none = []
array_of (some (h, a)) = a

abbrev array_and_refs : ℕ → Option (Heap × Hops) → Hops × ℕ
array_and_refs p none = ([], 0)
array_and_refs p (some (h, a)) = (a, refs h p)

-- A nexthop that the target has already leaves an empty slot behind it.
union_leaves_hole :
    array_of (
      spf_union_nexthops_arrays four_nexthops
        (some 1 ∷ some 2 ∷ none ∷ none ∷ [])
        (some 1 ∷ none ∷ none ∷ none ∷ []))
    ≡ some 1 ∷ none ∷ some 2 ∷ none ∷ []
unfolding spf_union_nexthops_arrays union_from first_empty spf_is_nexthop_exist retain store
union_leaves_hole = refl

-- A union into such an array overwrites the nexthop 2 and keeps its reference.
union_overwrites :
    array_and_refs 2 (
      spf_union_nexthops_arrays four_nexthops
        (some 3 ∷ some 4 ∷ none ∷ none ∷ [])
        (some 1 ∷ none ∷ some 2 ∷ none ∷ []))
    ≡ (some 1 ∷ some 3 ∷ some 4 ∷ none ∷ [], 1)
unfolding spf_union_nexthops_arrays union_from first_empty spf_is_nexthop_exist retain store refs
union_overwrites = refl

-- A free slot before the last stays unused where the source has nexthops left.
union_cuts_off :
    array_of (
      spf_union_nexthops_arrays four_nexthops
        (some 1 ∷ some 4 ∷ none ∷ none ∷ [])
        (some 1 ∷ some 2 ∷ some 3 ∷ none ∷ []))
    ≡ some 1 ∷ some 2 ∷ some 3 ∷ none ∷ []
unfolding spf_union_nexthops_arrays union_from first_empty spf_is_nexthop_exist retain store
union_cuts_off = refl
