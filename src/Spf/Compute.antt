-- ===== src/Spf/Compute.antt =====
-- Layer5/spf_algo/spf.c: the run of the algorithm from one node.
use networking_protocol_deve.Base.{
  ℕ, zero, suc, ◌+◌, ◌%◌, ◌^◌, Bool, true, false, not, Option, none, some, List, [], ◌∷◌, ◌==◌, ltb,
  if◌then◌else◌, is_some, ◌>>=◌, put,
}
use networking_protocol_deve.Gluethread.{ℤ, pos, negsuc}
use networking_protocol_deve.Gluethread.Linked.{has}
use networking_protocol_deve.Gluethread.Remove.{erase}
use networking_protocol_deve.Gluethread.Sorted.{insert_before}
use networking_protocol_deve.Layer3.RtTable.{RtTable, clear_rt_table, rt_table_add_route}
use networking_protocol_deve.Spf.Topology.{Link, Topo, node_nbrs, is_interface_l3_bidirectional}
use networking_protocol_deve.Spf.Arrays.{
  Hops, no_hops, Heap, spf_flush_nexthops, create_new_nexthop, spf_insert_new_nexthop,
  spf_union_nexthops_arrays,
}

abbrev pub infinite_metric : ℕ
infinite_metric = 4294967295

-- `spf_result_t`
pub record SpfResult : Type 0 where
  pub node : ℕ
  pub spf_metric : ℕ
  pub nexthops : Hops

-- The fields of the `spf_data_t` of every node, one store per field, with the heap of the nexthops
-- and `priority_lst`. A node whose `spf_data` is NULL has an empty array and no results.
pub record Spf : Type 0 where
  pub heap : Heap
  pub spf_metric : ℕ → ℕ
  pub nexthops : ℕ → Hops
  pub spf_result_head : ℕ → List SpfResult
  pub priority_lst : List ℕ

-- the sum of two `uint32_t`
abbrev pub add_metrics : ℕ → ℕ → ℕ
add_metrics a b = (a + b) % 2 ^ 32

unfoldable pub spf_comparison_fn : (ℕ → ℕ) → ℕ → ℕ → ℤ
spf_comparison_fn metric a b =
    if ltb (metric a) (metric b)
    then negsuc 0
    else if ltb (metric b) (metric a)
    then pos 1
    else pos 0

-- `glthread_priority_insert` of a node by its metric
unfoldable pub enqueue : (ℕ → ℕ) → ℕ → List ℕ → List ℕ
enqueue metric n queue = insert_before (spf_comparison_fn metric) 0 n queue

-- `glthread_priority_insert` of a node by its metric, after `remove_glthread` if it waits already
unfoldable pub requeue : (ℕ → ℕ) → ℕ → List ℕ → List ℕ
unfolding enqueue
requeue metric n queue = enqueue metric n (if has n queue then erase n queue else queue)

-- `spf_flush_nexthops` on the array of a node
unfoldable pub flush_node : Spf → ℕ → Option Spf
unfolding put
flush_node s n = do
  h ← spf_flush_nexthops s.heap (s.nexthops n)
  some (record s { heap = h; nexthops = put s.nexthops n no_hops })

-- `spf_union_nexthops_arrays` from the array of one node into that of another
unfoldable pub union_nodes : Spf → ℕ → ℕ → Option Spf
unfolding put
union_nodes s src dst = do
  (h, a) ← spf_union_nexthops_arrays s.heap (s.nexthops src) (s.nexthops dst)
  some (record s { heap = h; nexthops = put s.nexthops dst a })

-- `free_spf_result` on every result
unfoldable pub free_spf_results : Heap → List SpfResult → Option Heap
free_spf_results h [] = some h
free_spf_results h (r ∷ rs) = do g ← spf_flush_nexthops h r.nexthops; free_spf_results g rs

-- the part behind the results
unfoldable pub reset_node : Spf → ℕ → Option Spf
unfolding put flush_node
reset_node s n =
    flush_node
      (record s {
        spf_metric = put s.spf_metric n infinite_metric;
        priority_lst = erase n s.priority_lst;
      })
      n

unfoldable pub init_node_spf_data : Spf → ℕ → Bool → Option Spf
unfolding put free_spf_results reset_node
init_node_spf_data s n false = reset_node s n
init_node_spf_data s n true = do
  h ← free_spf_results s.heap (s.spf_result_head n)
  reset_node (record s { heap = h; spf_result_head = put s.spf_result_head n [] }) n

-- the loop over the other nodes
unfoldable pub init_others : Spf → ℕ → List ℕ → Option Spf
unfolding init_node_spf_data
init_others s spf_root [] = some s
init_others s spf_root (n ∷ nodes) =
    if n == spf_root
    then init_others s spf_root nodes
    else (do s' ← init_node_spf_data s n false; init_others s' spf_root nodes)

-- a new nexthop through a link of the root, for the neighbour behind it
unfoldable pub add_direct : Spf → Link → Option Spf
unfolding put
add_direct s l = do
  let (h, p) = create_new_nexthop s.heap l
  (g, a) ← spf_insert_new_nexthop h (s.nexthops l.nbr) p
  some (record s { heap = g; nexthops = put s.nexthops l.nbr a })

unfoldable pub spf_lookup_spf_result_by_node : List SpfResult → ℕ → Option SpfResult
spf_lookup_spf_result_by_node [] n = none
spf_lookup_spf_result_by_node (r ∷ rs) n =
    if r.node == n then some r else spf_lookup_spf_result_by_node rs n

unfoldable pub spf_record_result : Spf → ℕ → ℕ → Option Spf
unfolding put spf_lookup_spf_result_by_node
spf_record_result s spf_root n =
    if is_some (spf_lookup_spf_result_by_node (s.spf_result_head spf_root) n) then none else (do
      (h, a) ← spf_union_nexthops_arrays s.heap (s.nexthops n) no_hops
      let r : SpfResult = record { node = n; spf_metric = s.spf_metric n; nexthops = a }
      some (record s {
        heap = h;
        spf_result_head = put s.spf_result_head spf_root (r ∷ s.spf_result_head spf_root);
      }))

-- the nexthops of one result
unfoldable pub install_nexthops : (ℕ → ℕ) → Heap → Topo → ℕ → ℕ → Hops → RtTable → Option RtTable
install_nexthops shift_32 h topo node metric [] t = some t
install_nexthops shift_32 h topo node metric (none ∷ a) t =
    install_nexthops shift_32 h topo node metric a t
install_nexthops shift_32 h topo node metric (some p ∷ a) t = do
  nexthop ← h.cell p
  t' ←
      rt_table_add_route shift_32 t (topo.lb_addr node) 32 (some (nexthop.gw_ip, nexthop.oif))
        metric
  install_nexthops shift_32 h topo node metric a t'

unfoldable pub install_results : (ℕ → ℕ) → Heap → Topo → List SpfResult → RtTable → Option RtTable
unfolding install_nexthops
install_results shift_32 h topo [] t = some t
install_results shift_32 h topo (r ∷ rs) t = do
  t' ← install_nexthops shift_32 h topo r.node r.spf_metric r.nexthops t
  install_results shift_32 h topo rs t'

-- `spf_install_routes` without the count, which is only logged
unfoldable pub spf_install_routes : (ℕ → ℕ) → Topo → Spf → ℕ → RtTable → Option RtTable
unfolding install_results
spf_install_routes shift_32 topo s spf_root t =
    install_results shift_32 s.heap topo (s.spf_result_head spf_root) (clear_rt_table t)

module _ (shift_32 : ℕ → ℕ) where
  unfoldable pub direct_nbr : Spf → Link → Option Spf
  unfolding put flush_node add_direct
  direct_nbr s l =
      if not (is_interface_l3_bidirectional shift_32 l)
      then some s
      else if ltb l.cost (s.spf_metric l.nbr)
      then (do
        s₁ ← flush_node s l.nbr
        s₂ ← add_direct s₁ l
        some (record s₂ { spf_metric = put s₂.spf_metric l.nbr l.cost }))
      else if l.cost == s.spf_metric l.nbr
      then add_direct s l
      else some s

  -- `initialize_direct_nbrs` on the links of the root
  unfoldable pub initialize_direct_nbrs : Spf → List Link → Option Spf
  unfolding direct_nbr
  initialize_direct_nbrs s [] = some s
  initialize_direct_nbrs s (l ∷ ls) = do s' ← direct_nbr s l; initialize_direct_nbrs s' ls

  unfoldable pub explore_nbr : Spf → ℕ → Link → Option Spf
  unfolding put flush_node union_nodes requeue
  explore_nbr s curr l =
      let metric = add_metrics (s.spf_metric curr) l.cost in
      if not (is_interface_l3_bidirectional shift_32 l)
      then some s
      else if ltb metric (s.spf_metric l.nbr)
      then (do
        s₁ ← flush_node s l.nbr
        s₂ ← union_nodes s₁ curr l.nbr
        let known = put s₂.spf_metric l.nbr metric
        some (record s₂ { spf_metric = known; priority_lst = requeue known l.nbr s₂.priority_lst }))
      else if metric == s.spf_metric l.nbr
      then union_nodes s curr l.nbr
      else some s

  unfoldable pub explore_nbrs : Spf → ℕ → List Link → Option Spf
  unfolding explore_nbr
  explore_nbrs s curr [] = some s
  explore_nbrs s curr (l ∷ ls) = do s' ← explore_nbr s curr l; explore_nbrs s' curr ls

  unfoldable pub spf_explore_nbrs : Topo → Spf → ℕ → Option Spf
  unfolding explore_nbrs flush_node
  spf_explore_nbrs topo s curr = do
    s' ← explore_nbrs s curr (node_nbrs topo curr)
    flush_node s' curr

  -- the turn of the root: its neighbours that are not in the queue are put into it
  unfoldable pub enqueue_nbrs : (ℕ → ℕ) → List Link → List ℕ → List ℕ
  unfolding enqueue
  enqueue_nbrs metric [] queue = queue
  enqueue_nbrs metric (l ∷ ls) queue =
      if not (is_interface_l3_bidirectional shift_32 l)
      then enqueue_nbrs metric ls queue
      else if has l.nbr queue
      then enqueue_nbrs metric ls queue
      else enqueue_nbrs metric ls (enqueue metric l.nbr queue)

  -- one turn of the `while` loop, for the node taken off the queue
  unfoldable pub process_node : Topo → ℕ → Spf → ℕ → Option Spf
  unfolding enqueue_nbrs spf_record_result spf_explore_nbrs
  process_node topo spf_root s n =
      if n == spf_root
      then some
          (record s { priority_lst = enqueue_nbrs s.spf_metric (node_nbrs topo n) s.priority_lst })
      else (do s' ← spf_record_result s spf_root n; spf_explore_nbrs topo s' n)

  -- The `while` loop. `none` also stands for the end of the fuel.
  unfoldable pub process_queue : ℕ → Topo → ℕ → Spf → Option Spf
  unfolding process_node
  process_queue zero topo spf_root s = none
  process_queue (suc fuel) topo spf_root s = elim s.priority_lst [
    | [] ↦ some s
    | n ∷ queue ↦ (do
      s' ← process_node topo spf_root (record s { priority_lst = queue }) n
      process_queue fuel topo spf_root s')
  ]

  -- Steps 1 and 2, and the root in the queue
  unfoldable pub prepare : Topo → ℕ → Spf → Option Spf
  unfolding put init_node_spf_data init_others initialize_direct_nbrs enqueue
  prepare topo spf_root s = do
    s₁ ← init_node_spf_data s spf_root true
    s₂ ←
        init_others (record s₁ { spf_metric = put s₁.spf_metric spf_root 0 }) spf_root
          topo.node_list
    s₃ ← initialize_direct_nbrs s₂ (node_nbrs topo spf_root)
    some (record s₃ { priority_lst = enqueue s₃.spf_metric spf_root [] })

  -- `compute_spf` up to the routes
  unfoldable pub compute_results : ℕ → Topo → ℕ → Spf → Option Spf
  unfolding prepare process_queue
  compute_results fuel topo spf_root s = do
    s' ← prepare topo spf_root s
    process_queue fuel topo spf_root s'

  unfoldable pub compute_spf : ℕ → Topo → ℕ → Spf → RtTable → Option (Spf × RtTable)
  unfolding compute_results spf_install_routes
  compute_spf fuel topo spf_root s t = do
    s' ← compute_results fuel topo spf_root s
    t' ← spf_install_routes shift_32 topo s' spf_root t
    some (s', t')
