-- ===== src/Spf/Process.antt =====
-- Layer5/spf_algo/spf.c: the `while` loop of `compute_spf` behind the turn of the root.
use mathlib.Core.Path.{subst}
use networking_protocol_deve.Base.{
  ℕ, zero, suc, ◌+◌, ◌≤◌, ◌≡◌, refl, sym, ap, ◌∙◌, true, false, List, [], ◌∷◌, ◌==◌, Bool-cases,
  inl, inr, arith, put_self, length, ==_iff, ==_refl, ◌⊎◌, All, none, some,
}
use networking_protocol_deve.Gluethread.Linked.{has}
use networking_protocol_deve.Spf.Topology.{Link, Topo, In, node_nbrs}
use networking_protocol_deve.Spf.Compute.{
  Spf, SpfResult, spf_lookup_spf_result_by_node, spf_record_result, spf_explore_nbrs, process_node,
  process_queue,
}
use networking_protocol_deve.Spf.Counted.{IsCounted}
use networking_protocol_deve.Spf.Steps.{record_result_total, counted_else}
use networking_protocol_deve.Spf.Relax.{
  IsClosed, distinct-length, seen, IsFrontier, IsSettled, Lowers, IsSettled-later, IsFrontier-pop,
}
use networking_protocol_deve.Spf.Explore.{move_both, spf_explore_nbrs_total}

abbrev pub nodes_of : List SpfResult → List ℕ
nodes_of [] = []
nodes_of (r ∷ rs) = r.node ∷ nodes_of rs

lookup-miss :
    (rs : List SpfResult) (n : ℕ)
    → has n (nodes_of rs) ≡ false
    → spf_lookup_spf_result_by_node rs n ≡ none
unfolding spf_lookup_spf_result_by_node
lookup-miss [] n h = refl
lookup-miss (r ∷ rs) n h = ground (arith, lookup-miss rs n, ==_iff r.node n, ==_iff n r.node)

List-cases : (xs : List ℕ) → (xs ≡ []) ⊎ ((n : ℕ) × (ys : List ℕ) × (xs ≡ n ∷ ys))
List-cases [] = inl refl
List-cases (n ∷ ys) = inr (n, ys, refl)

-- Each result has the metric of its node.
abbrev pub HasMetrics : (ℕ → ℕ) → List SpfResult → Type 0
HasMetrics d rs = All (λ r. r.spf_metric ≡ d r.node) rs

metrics_kept :
    (d d' : ℕ → ℕ) (rs : List SpfResult)
    → ((v : ℕ) → has v (nodes_of rs) ≡ true → d' v ≡ d v)
    → HasMetrics d rs
    → HasMetrics d' rs
metrics_kept d d' [] same h = tt
metrics_kept d d' (r ∷ rs) same (e, h) =
    (e ∙ sym (same r.node (ground arith)), metrics_kept d d' rs (λ v k. same v (ground arith)) h)

module _ (shift_32 : ℕ → ℕ) (topo : Topo) (root top_cost : ℕ) where
  -- Between two turns: the results at the root are those of the finished nodes, and every link of
  -- the root and of a finished node is settled.
  pub record IsReady (s : Spf) (done : List ℕ) (m : ℕ) : Type 0 where
    pub counted : IsCounted topo.node_list s
    pub frontier : IsFrontier shift_32 topo root top_cost s.spf_metric s.priority_lst done m
    pub settled :
        (u : ℕ) (l : Link)
        → has u (root ∷ done) ≡ true
        → In l (node_nbrs topo u)
        → IsSettled shift_32 topo root top_cost s.spf_metric s.priority_lst done u l
    pub recorded : nodes_of (s.spf_result_head root) ≡ done
    pub metrics : HasMetrics s.spf_metric (s.spf_result_head root)

  module _ (closed : IsClosed shift_32 topo root top_cost) where
    -- the root and the finished nodes are distinct nodes of the graph
    room :
        (s : Spf) (done : List ℕ) (m : ℕ)
        → IsReady s done m
        → suc (length done) ≤ length topo.node_list
    room s done m i =
        distinct-length (root ∷ done) topo.node_list i.frontier.done_distinct
          λ v h. ground (arith, i.frontier.done_inside v, closed.root_inside, ==_iff v root)

    process_other :
        (s s₁ s₂ : Spf) (n : ℕ)
        → (n == root) ≡ false
        → spf_record_result s root n ≡ some s₁
        → spf_explore_nbrs shift_32 topo s₁ n ≡ some s₂
        → process_node shift_32 topo root s n ≡ some s₂
    unfolding process_node
    process_other s s₁ s₂ n k e₁ e₂ = rw (k, e₁) e₂

    -- A turn for a node other than the root returns, and finishes the node.
    process_node_total :
        (s : Spf) (n : ℕ) (queue done : List ℕ) (m : ℕ)
        → IsReady s done m
        → s.priority_lst ≡ n ∷ queue
        → (s' : Spf) × (process_node shift_32 topo root (record s { priority_lst = queue }) n
            ≡ some s')
          × IsReady s' (n ∷ done) (s.spf_metric n)
    process_node_total s n queue done m i e =
        let d = s.spf_metric in
        let rs = s.spf_result_head root in
        let f : IsFrontier shift_32 topo root top_cost d (n ∷ queue) done m =
          subst (λ q. IsFrontier shift_32 topo root top_cost d q done m) e i.frontier in
        let fresh : has n (root ∷ done) ≡ false = f.apart n (ground (arith, ==_refl n)) in
        let not_root : (n == root) ≡ false = ground (arith, fresh) in
        let popped = IsFrontier-pop shift_32 topo root top_cost d n queue done m f in
        let s₀ : Spf = record s { priority_lst = queue } in
        let (s₁, a, e₁, c₁, em₁, eq₁, er₁) =
          record_result_total topo.node_list closed.nodes_differ s₀ root n closed.root_inside
            (f.queue_inside n (ground (arith, ==_refl n)))
            (lookup-miss rs n (ground (arith, ap (has n) i.recorded, fresh)))
            (counted_else topo.node_list closed.nodes_differ s d queue i.counted) in
        let f₁ : IsFrontier shift_32 topo root top_cost s₁.spf_metric s₁.priority_lst (n ∷ done)
            (d n) =
          move_both (λ g q. IsFrontier shift_32 topo root top_cost g q (n ∷ done) (d n)) em₁ eq₁
            popped in
        let (s₂, e₂, c₂, f₂, lo, er₂, set) =
          spf_explore_nbrs_total shift_32 topo root top_cost closed (n ∷ done) n (d n)
            (ground (arith, ==_refl n)) s₁ c₁ f₁ (ap (λ g. g n) em₁) in
        let lowers : Lowers shift_32 topo root top_cost d queue (n ∷ done) s₂.spf_metric
            s₂.priority_lst =
          move_both
            (λ g q. Lowers shift_32 topo root top_cost g q (n ∷ done) s₂.spf_metric s₂.priority_lst)
            (sym em₁) (sym eq₁) lo in
        let r : SpfResult = record { node = n; spf_metric = d n; nexthops = a } in
        let results : s₂.spf_result_head root ≡ r ∷ rs =
          ap (λ g. g root) (er₂ ∙ er₁) ∙ put_self s.spf_result_head root (r ∷ rs) in
        (
          s₂,
          process_other s₀ s₁ s₂ n not_root e₁ e₂,
          record {
            counted = c₂;
            frontier = f₂;
            settled = λ u l k h. elim (Bool-cases (u == n)) [
              | inl y ↦
                  subst
                    (λ x.
                      (j : Link)
                      → In j (node_nbrs topo x)
                      → IsSettled shift_32 topo root top_cost s₂.spf_metric s₂.priority_lst
                          (n ∷ done) x j)
                    (sym ((==_iff u n).0 y)) set l h
              | inr y ↦
                  IsSettled-later shift_32 topo root top_cost d queue (n ∷ done) s₂.spf_metric
                    s₂.priority_lst u l k lowers
                    λ b.
                      let (le, old) = i.settled u l (ground (arith, k, y)) h b in
                      let known : seen shift_32 topo root top_cost (n ∷ queue) done l.nbr ≡ true =
                        subst (λ q. seen shift_32 topo root top_cost q done l.nbr ≡ true) e old in
                      (le, ground (arith, known))
            ];
            recorded = ap nodes_of results ∙ ap (λ xs. n ∷ xs) i.recorded;
            metrics = subst (HasMetrics s₂.spf_metric) (sym results) (
              sym (lowers.1 n (ground (arith, ==_refl n))),
              metrics_kept d s₂.spf_metric rs
                  (λ v k. lowers.1 v (ground (arith, ap (has v) i.recorded))) i.metrics,
            );
          },
        )

    -- With fuel for the nodes that are not finished the loop ends, and it ends with an empty queue.
    pub process_queue_total :
        (fuel : ℕ) (s : Spf) (done : List ℕ) (m : ℕ)
        → IsReady s done m
        → length topo.node_list ≤ fuel + length done
        → (s' : Spf) × (done' : List ℕ) × (m' : ℕ) × (process_queue shift_32 fuel topo root s
            ≡ some s')
          × IsReady s' done' m'
          × (s'.priority_lst ≡ [])
    unfolding process_queue
    process_queue_total zero s done m i enough = absurd (omega (arith, enough, room s done m i))
    process_queue_total (suc fuel) s done m i enough = elim (List-cases s.priority_lst) [
      | inl e ↦ (s, done, m, rw e refl, i, e)
      | inr (n, queue, e) ↦
          let (s₁, e₁, i₁) = process_node_total s n queue done m i e in
          let (s₂, done', m', e₂, i₂, end) =
            process_queue_total fuel s₁ (n ∷ done) (s.spf_metric n) i₁ (omega (arith, enough)) in
          (s₂, done', m', rw (e, e₁) e₂, i₂, end)
    ]
