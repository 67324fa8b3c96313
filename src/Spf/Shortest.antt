-- ===== src/Spf/Shortest.antt =====
-- Layer5/spf_algo/spf.c: what a run of `compute_spf` records at its root.
use mathlib.Core.Path.{subst}
use native.Mathlib.Nat.{suc-mul, mul-le-mul_right}
use networking_protocol_deve.Base.{
  ℕ, zero, suc, ◌≤◌, ◌<◌, ◌≡◌, refl, sym, ap, ◌∙◌, true, false, List, [], ◌∷◌, ◌==◌, Bool-cases,
  inl, inr, arith, put, put_self, length, ==_iff, ==_refl, All, some,
}
use networking_protocol_deve.Gluethread.Linked.{has, distinct}
use networking_protocol_deve.Spf.Topology.{
  Link, Topo, In, Walk, here, step, node_nbrs, is_interface_l3_bidirectional,
}
use networking_protocol_deve.Spf.Compute.{
  Spf, SpfResult, infinite_metric, prepare, enqueue, enqueue_nbrs, process_node, process_queue,
  compute_results,
}
use networking_protocol_deve.Spf.Counted.{IsCounted}
use networking_protocol_deve.Spf.Steps.{init_root_total, init_others_total, counted_else}
use networking_protocol_deve.Spf.Relax.{IsSettled, IsClosed, IsFrontier, distinct-length}
use networking_protocol_deve.Spf.Direct.{
  LeadsTo, TakesIn, enqueue_nbrs_lem, IsStarted, initialize_direct_nbrs_total,
}
use networking_protocol_deve.Spf.Process.{nodes_of, HasMetrics, IsReady, process_queue_total}

module _ (shift_32 : ℕ → ℕ) (topo : Topo) (root top_cost : ℕ)
    (closed : IsClosed shift_32 topo root top_cost) where
  -- The state before the loop.
  prepare_total :
      (s : Spf)
      → IsCounted topo.node_list s
      → (s' : Spf) × (prepare shift_32 topo root s ≡ some s')
        × IsCounted topo.node_list s'
        × IsStarted shift_32 topo root top_cost closed s'.spf_metric
        × ((l : Link)
            → In l (node_nbrs topo root)
            → is_interface_l3_bidirectional shift_32 l ≡ true
            → s'.spf_metric l.nbr ≤ l.cost)
        × (s'.priority_lst ≡ root ∷ [])
        × (s'.spf_result_head root ≡ [])
  unfolding prepare enqueue
  prepare_total s c =
      let ns = topo.node_list in
      let (s₁, e₁, c₁, em₁, eq₁, er₁) =
        init_root_total ns closed.nodes_differ s root closed.root_inside c in
      let s₁' : Spf = record s₁ { spf_metric = put s₁.spf_metric root 0 } in
      let (s₂, e₂, c₂, zero_root, inf, er₂) =
        init_others_total ns closed.nodes_differ ns s₁' root (λ v h. h)
          (counted_else ns closed.nodes_differ s₁ (put s₁.spf_metric root 0) s₁.priority_lst c₁) in
      let (s₃, e₃, c₃, i₃, lo, er₃, near) =
        initialize_direct_nbrs_total shift_32 topo root top_cost closed (node_nbrs topo root) s₂ c₂
          (zero_root ∙ put_self s₁.spf_metric root 0, λ v k h. inl (inf v k (inl h))) (λ l h. h) in
      (
        record s₃ { priority_lst = enqueue s₃.spf_metric root [] },
        rw (e₁, e₂, e₃) refl,
        counted_else ns closed.nodes_differ s₃ s₃.spf_metric (enqueue s₃.spf_metric root []) c₃,
        i₃,
        near,
        refl,
        ap (λ f. f root) (er₃ ∙ er₂ ∙ er₁) ∙ put_self s.spf_result_head root [],
      )

  affordable : top_cost < infinite_metric
  affordable =
      let one : 1 ≤ length topo.node_list =
        distinct-length (root ∷ []) topo.node_list refl
          λ v h. ground (arith, h, closed.root_inside, ==_iff v root) in
      omega (arith, closed.metric_bound, mul-le-mul_right top_cost one, suc-mul 0 top_cost)

  -- The frontier behind the turn of the root.
  first-IsFrontier :
      (d : ℕ → ℕ) (queue : List ℕ)
      → IsStarted shift_32 topo root top_cost closed d
      → ((l : Link)
          → In l (node_nbrs topo root)
          → is_interface_l3_bidirectional shift_32 l ≡ true
          → d l.nbr ≤ l.cost)
      → TakesIn shift_32 d (node_nbrs topo root) [] queue
      → IsFrontier shift_32 topo root top_cost d queue [] 0
  first-IsFrontier d queue (z, started) near (a, q, keep, come, only) =
      let ends : (v : ℕ) → has v queue ≡ true → LeadsTo shift_32 (node_nbrs topo root) v =
        λ v h. elim (only v h) [ inl k ↦ ground (arith, k) | inr k ↦ k ] in
      let inside : (v : ℕ) → has v queue ≡ true → has v topo.node_list ≡ true = λ v h.
        let (l, k, b, e) = ends v h in
        subst (λ x. has x topo.node_list ≡ true) e (closed.nbr_inside root l k) in
      let other : (v : ℕ) → has v queue ≡ true → (v == root) ≡ false = λ v h.
        let (l, k, b, e) = ends v h in subst (λ x. (x == root) ≡ false) e (closed.no_loop l k) in
      let cheap : (v : ℕ) → has v queue ≡ true → d v ≤ top_cost = λ v h.
        let (l, k, b, e) = ends v h in
        subst (λ x. d x ≤ top_cost) e (omega (arith, near l k b, closed.cost_bound root l k)) in
      record {
        root_metric = z;
        sorted = a;
        queue_distinct = q;
        done_distinct = refl;
        done_inside = λ v h. ground (arith, h);
        queue_inside = inside;
        apart = λ v h. ground (arith, other v h);
        low = λ v h. omega (arith, z, ap d ((==_iff v root).0 (ground (arith, h))));
        high = λ v h. omega arith;
        walks = λ v h. elim (Bool-cases (v == root)) [
          | inl e ↦
              subst (λ x. Walk shift_32 topo root x (d x)) (sym ((==_iff v root).0 e))
                (subst (λ c. Walk shift_32 topo root root c) (sym z) here)
          | inr e ↦
              let k : has v queue ≡ true = ground (arith, h, e) in
              elim (started v e (inside v k)) [
                | inl far ↦ absurd (omega (arith, far, cheap v k, affordable))
                | inr (walk, _) ↦ walk
              ]
        ];
        unseen = λ v n h. elim (started v (ground (arith, h)) n) [
          | inl far ↦ far
          | inr (_, leads) ↦ absurd (ground (arith, h, come v leads))
        ];
        queue_bound = λ v h. omega (arith, cheap v h, suc-mul 0 top_cost);
        bound = omega arith;
      }

  first_turn :
      (s : Spf)
      → process_node shift_32 topo root s root
        ≡ some (record s {
          priority_lst = enqueue_nbrs shift_32 s.spf_metric (node_nbrs topo root) s.priority_lst;
        })
  unfolding process_node
  first_turn s = rw (==_refl root) refl

  after_first_turn :
      (fuel : ℕ) (s s' : Spf)
      → s.priority_lst ≡ root ∷ []
      → process_node shift_32 topo root (record s { priority_lst = [] }) root ≡ some s'
      → process_queue shift_32 (suc fuel) topo root s ≡ process_queue shift_32 fuel topo root s'
  unfolding process_queue
  after_first_turn fuel s s' e e' = rw (e, e') refl

  -- With fuel for every node and one more the run returns, with every link settled.
  pub compute_results_total :
      (fuel : ℕ) (s : Spf)
      → IsCounted topo.node_list s
      → length topo.node_list ≤ fuel
      → (s' : Spf) × (done : List ℕ) × (m : ℕ) × (compute_results shift_32 (suc fuel) topo root s
          ≡ some s')
        × IsReady shift_32 topo root top_cost s' done m
        × (s'.priority_lst ≡ [])
  unfolding compute_results
  compute_results_total fuel s c enough =
      let (s₁, e₁, c₁, started, near, eq₁, er₁) = prepare_total s c in
      let ls = node_nbrs topo root in
      let queue = enqueue_nbrs shift_32 s₁.spf_metric ls [] in
      let taken = enqueue_nbrs_lem shift_32 s₁.spf_metric ls [] tt refl in
      let s₂ : Spf = record s₁ { priority_lst = queue } in
      let turn = first_turn (record s₁ { priority_lst = [] }) in
      let ready : IsReady shift_32 topo root top_cost s₂ [] 0 = record {
        counted = counted_else topo.node_list closed.nodes_differ s₁ s₁.spf_metric queue c₁;
        frontier = first-IsFrontier s₁.spf_metric queue started near taken;
        settled = λ u l k h.
            subst
              (λ x.
                (j : Link)
                → In j (node_nbrs topo x)
                → IsSettled shift_32 topo root top_cost s₁.spf_metric queue [] x j)
              (sym ((==_iff u root).0 (ground (arith, k))))
              (λ j g b. (omega (arith, near j g b), ground (arith, taken.3 j.nbr (j, g, b, refl))))
              l h;
        recorded = ap nodes_of er₁;
        metrics = subst (HasMetrics s₁.spf_metric) (sym er₁) tt;
      } in
      let (s₃, done, m, e₃, i₃, end) =
        process_queue_total shift_32 topo root top_cost closed fuel s₂ [] 0 ready
          (omega (arith, enough)) in
      (s₃, done, m, rw e₁ (after_first_turn fuel s₁ s₂ eq₁ turn ∙ e₃), i₃, end)

  -- On a settled graph no walk is shorter than the metric of its end.
  Walk-settled :
      (s : Spf) (done : List ℕ) (m v c : ℕ)
      → IsReady shift_32 topo root top_cost s done m
      → s.priority_lst ≡ []
      → Walk shift_32 topo root v c
      → (has v (root ∷ done) ≡ true) × (s.spf_metric v ≤ c)
  Walk-settled s done m v c i e here =
      (ground (arith, ==_refl root), omega (arith, i.frontier.root_metric))
  Walk-settled s done m v c i e (step {u} {c = a} l w h b) =
      let (k, le) = Walk-settled s done m u a i e w in
      let (le', known) = i.settled u l k h b in
      (ground (arith, known, ap (has l.nbr) e), omega (arith, le, le'))

  -- every result, with no shorter walk to its node than the one it counts
  abbrev pub AreShortest : List SpfResult → Type 0
  AreShortest rs =
      All
        (λ r.
          Walk shift_32 topo root r.node r.spf_metric
          × ((c : ℕ) → Walk shift_32 topo root r.node c → r.spf_metric ≤ c))
        rs

  ready_shortest :
      (s : Spf) (done : List ℕ) (m : ℕ) (rs : List SpfResult)
      → IsReady shift_32 topo root top_cost s done m
      → s.priority_lst ≡ []
      → HasMetrics s.spf_metric rs
      → ((v : ℕ) → has v (nodes_of rs) ≡ true → has v done ≡ true)
      → AreShortest rs
  ready_shortest s done m [] i e h sub = tt
  ready_shortest s done m (r ∷ rs) i e (same, h) sub =
      let k : has r.node done ≡ true = sub r.node (ground (arith, ==_refl r.node)) in
      (
        (
          subst (λ c. Walk shift_32 topo root r.node c) (sym same)
              (i.frontier.walks r.node (ground (arith, k))),
          λ c w. omega (arith, same, (Walk-settled s done m r.node c i e w).1),
        ),
        ready_shortest s done m rs i e h (λ v g. sub v (ground (arith, g))),
      )

  -- In a closed graph, with counts that cover the slots and with fuel for more than its nodes,
  -- `compute_spf` fails no assertion, reads no free memory and ends with an empty queue, and the
  -- counts still cover the slots.
  pub compute_results-returns :
      (fuel : ℕ) (s : Spf)
      → IsCounted topo.node_list s
      → length topo.node_list < fuel
      → (s' : Spf) × (compute_results shift_32 fuel topo root s ≡ some s')
        × (s'.priority_lst ≡ [])
        × IsCounted topo.node_list s'
  compute_results-returns zero s c enough = elim enough [ ]
  compute_results-returns (suc fuel) s c enough =
      let (s', done, m, e, i, end) = compute_results_total fuel s c (omega (arith, enough)) in
      (s', e, end, i.counted)

  -- In a closed graph, with counts that cover the slots and with fuel for more than its nodes,
  -- `compute_spf` returns; the results at the root are for distinct nodes other than the root, each
  -- with the cost of a walk from the root to its node that no walk undercuts, and every node other
  -- than the root that a walk reaches has one.
  pub compute_results-shortest :
      (fuel : ℕ) (s : Spf)
      → IsCounted topo.node_list s
      → length topo.node_list < fuel
      → (s' : Spf) × (compute_results shift_32 fuel topo root s ≡ some s')
        × AreShortest (s'.spf_result_head root)
        × (distinct (root ∷ nodes_of (s'.spf_result_head root)) ≡ true)
        × ((v c : ℕ)
            → Walk shift_32 topo root v c
            → (v == root) ≡ false
            → has v (nodes_of (s'.spf_result_head root)) ≡ true)
  compute_results-shortest zero s c enough = elim enough [ ]
  compute_results-shortest (suc fuel) s c enough =
      let (s', done, m, e, i, end) = compute_results_total fuel s c (omega (arith, enough)) in
      (
        s',
        e,
        ready_shortest s' done m (s'.spf_result_head root) i end i.metrics
            (λ v h. ground (arith, h, ap (has v) i.recorded)),
        ap (λ xs. distinct (root ∷ xs)) i.recorded ∙ i.frontier.done_distinct,
        λ v a w other.
            ground (arith, (Walk-settled s' done m v a i end w).0, other, ap (has v) i.recorded),
      )
