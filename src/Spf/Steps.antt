-- ===== src/Spf/Steps.antt =====
-- Layer5/spf_algo/spf.c: the operations on the data of the nodes fail nowhere, and what they leave.
use networking_protocol_deve.Base.{
  ◌⊎◌, ℕ, ◌+◌, ◌≤◌, ◌≡◌, refl, ap, ◌∙◌, true, false, Option, none, some, List, [], ◌∷◌, ◌==◌,
  Bool-cases, inl, inr, arith, put, put_self, put_other, ==_iff,
}
use networking_protocol_deve.Gluethread.Linked.{has, distinct}
use networking_protocol_deve.Gluethread.Remove.{erase}
use networking_protocol_deve.Spf.Topology.{Link}
use networking_protocol_deve.Spf.Arrays.{Hops, no_hops, Heap}
use networking_protocol_deve.Spf.Compute.{
  Spf, SpfResult, infinite_metric, flush_node, union_nodes, free_spf_results, reset_node,
  init_node_spf_data, init_others, add_direct, spf_lookup_spf_result_by_node, spf_record_result,
}
use networking_protocol_deve.Spf.Refs.{
  occ, refs, IsFresh, flush_total, union_total, insert_new_total,
}
use networking_protocol_deve.Spf.Counted.{
  occ_results, total, IsCounted, total_node, total_nexthops, total_results,
}

-- The metrics, the queue and the results are the same.
abbrev pub Keeps : Spf → Spf → Type 0
Keeps s s' =
    (s'.spf_metric ≡ s.spf_metric)
    × (s'.priority_lst ≡ s.priority_lst)
    × (s'.spf_result_head ≡ s.spf_result_head)

abbrev Succeeds : List ℕ → Spf → Option Spf → Type 0
Succeeds ns s r = (s' : Spf) × (r ≡ some s') × IsCounted ns s' × Keeps s s'

occ-no_hops : (q : ℕ) → occ q no_hops ≡ 0
unfolding occ
occ-no_hops q = refl

free_results_total :
    (h : Heap) (rs : List SpfResult)
    → IsFresh h
    → ((q : ℕ) → occ_results q rs ≤ refs h q)
    → (g : Heap) × (free_spf_results h rs ≡ some g)
      × IsFresh g
      × ((q : ℕ) → refs g q + occ_results q rs ≡ refs h q)
unfolding free_spf_results occ_results
free_results_total h [] f c = (h, refl, f, λ q. omega arith)
free_results_total h (r ∷ rs) f c =
    let (g, e, f', k) = flush_total h r.nexthops f (λ q. omega (arith, c q)) in
    let (g', e', f'', k') = free_results_total g rs f' (λ q. omega (arith, c q, k q)) in
    (g', rw e e', f'', λ q. omega (arith, k q, k' q))

module _ (ns : List ℕ) (d : distinct ns ≡ true) where
  pub flush_node_total :
      (s : Spf) (n : ℕ) → has n ns ≡ true → IsCounted ns s → Succeeds ns s (flush_node s n)
  unfolding flush_node
  flush_node_total s n k (f, c) =
      let (h, e, f', r) =
        flush_total s.heap (s.nexthops n) f (λ q. omega (arith, c q, total_node ns s n q k)) in
      (
        record s { heap = h; nexthops = put s.nexthops n no_hops },
        rw e refl,
        (f', λ q. omega (arith, c q, r q, total_nexthops ns d s h n no_hops q k, occ-no_hops q)),
        (refl, refl, refl),
      )

  pub union_nodes_total :
      (s : Spf) (src dst : ℕ)
      → has src ns ≡ true
      → has dst ns ≡ true
      → IsCounted ns s
      → Succeeds ns s (union_nodes s src dst)
  unfolding union_nodes
  union_nodes_total s src dst ks kd (f, c) =
      let (h, a, e, (f', up, r)) =
        union_total s.heap (s.nexthops src) (s.nexthops dst) f
          (λ q. omega (arith, c q, total_node ns s src q ks))
          (λ q. omega (arith, c q, total_node ns s dst q kd)) in
      (
        record s { heap = h; nexthops = put s.nexthops dst a },
        rw e refl,
        (f', λ q. omega (arith, c q, r q, total_nexthops ns d s h dst a q kd)),
        (refl, refl, refl),
      )

  pub add_direct_total :
      (s : Spf) (l : Link) → has l.nbr ns ≡ true → IsCounted ns s → Succeeds ns s (add_direct s l)
  unfolding add_direct
  add_direct_total s l k (f, c) =
      let (h, a, e, (f', up, r)) = insert_new_total s.heap (s.nexthops l.nbr) l f in
      (
        record s { heap = h; nexthops = put s.nexthops l.nbr a },
        rw e refl,
        (f', λ q. omega (arith, c q, r q, total_nexthops ns d s h l.nbr a q k)),
        (refl, refl, refl),
      )

  -- the counts do not look at the metrics and the queue
  pub counted_else :
      (s : Spf) (m : ℕ → ℕ) (queue : List ℕ)
      → IsCounted ns s
      → IsCounted ns (record s { spf_metric = m; priority_lst = queue })
  unfolding total
  counted_else s m queue c = c

  -- `init_node_spf_data` behind the results
  pub reset_total :
      (s : Spf) (n : ℕ)
      → has n ns ≡ true
      → IsCounted ns s
      → (s' : Spf) × (reset_node s n ≡ some s')
        × IsCounted ns s'
        × (s'.spf_metric ≡ put s.spf_metric n infinite_metric)
        × (s'.priority_lst ≡ erase n s.priority_lst)
        × (s'.spf_result_head ≡ s.spf_result_head)
  unfolding reset_node
  reset_total s n k c =
      let s₁ : Spf = record s {
        spf_metric = put s.spf_metric n infinite_metric;
        priority_lst = erase n s.priority_lst;
      } in
      let (s', e, c', (em, eq, er)) =
        flush_node_total s₁ n k
          (counted_else s (put s.spf_metric n infinite_metric) (erase n s.priority_lst) c) in
      (s', e, c', em, eq, er)

  pub init_root_total :
      (s : Spf) (n : ℕ)
      → has n ns ≡ true
      → IsCounted ns s
      → (s' : Spf) × (init_node_spf_data s n true ≡ some s')
        × IsCounted ns s'
        × (s'.spf_metric ≡ put s.spf_metric n infinite_metric)
        × (s'.priority_lst ≡ erase n s.priority_lst)
        × (s'.spf_result_head ≡ put s.spf_result_head n [])
  unfolding init_node_spf_data occ_results
  init_root_total s n k (f, c) =
      let (h, e, f', r) =
        free_results_total s.heap (s.spf_result_head n) f
          (λ q. omega (arith, c q, total_node ns s n q k)) in
      let s₁ : Spf = record s { heap = h; spf_result_head = put s.spf_result_head n [] } in
      let (s', e', c', em, eq, er) =
        reset_total s₁ n k (f', λ q. omega (arith, c q, r q, total_results ns d s h n [] q k)) in
      (s', rw e e', c', em, eq, er)

  -- The other nodes of the graph get the infinite metric, and their results stay.
  pub init_others_total :
      (nodes : List ℕ) (s : Spf) (root : ℕ)
      → ((v : ℕ) → has v nodes ≡ true → has v ns ≡ true)
      → IsCounted ns s
      → (s' : Spf) × (init_others s root nodes ≡ some s')
        × IsCounted ns s'
        × (s'.spf_metric root ≡ s.spf_metric root)
        × ((v : ℕ)
            → (v == root) ≡ false
            → has v nodes ≡ true ⊎ (s.spf_metric v ≡ infinite_metric)
            → s'.spf_metric v ≡ infinite_metric)
        × (s'.spf_result_head ≡ s.spf_result_head)
  unfolding init_others init_node_spf_data
  init_others_total [] s root sub c =
      (s, refl, c, refl, λ v k. elim [ inl h ↦ ground arith | inr e ↦ e ], refl)
  init_others_total (n ∷ nodes) s root sub c = elim (Bool-cases (n == root)) [
    | inl y ↦
        let (s', e, c', er, inf, res) =
          init_others_total nodes s root (λ v k. sub v (ground arith)) c in
        (
          s',
          rw y e,
          c',
          er,
          λ v k. elim [
            | inl h ↦ inf v k (inl (ground (arith, (==_iff n root).0 y)))
            | inr h ↦ inf v k (inr h)
          ],
          res,
        )
    | inr y ↦
        let (s₁, e₁, c₁, em, eq, res₁) = reset_total s n (sub n (ground arith)) c in
        let (s', e, c', er, inf, res) =
          init_others_total nodes s₁ root (λ v k. sub v (ground arith)) c₁ in
        let known : (v : ℕ) → s₁.spf_metric v ≡ put s.spf_metric n infinite_metric v =
          λ v. ap (λ f. f v) em in
        (
          s',
          rw (y, e₁) e,
          c',
          omega
              (arith, er, known root, put_other s.spf_metric n root infinite_metric (ground arith)),
          λ v k h. elim (Bool-cases (v == n)) [
            | inl z ↦ inf v k (
                inr (
                  omega (
                    arith,
                    known v,
                    ap (put s.spf_metric n infinite_metric) ((==_iff v n).0 z),
                    put_self s.spf_metric n infinite_metric,
                  )))
            | inr z ↦ elim h [
              | inl m ↦ inf v k (inl (ground arith))
              | inr w ↦
                  inf v k
                    (inr (omega (arith, known v, put_other s.spf_metric n v infinite_metric z, w)))
            ]
          ],
          res ∙ res₁,
        )
  ]

  -- The assertion of `spf_record_result` holds where the node has no result yet.
  pub record_result_total :
      (s : Spf) (root n : ℕ)
      → has root ns ≡ true
      → has n ns ≡ true
      → spf_lookup_spf_result_by_node (s.spf_result_head root) n ≡ none
      → IsCounted ns s
      → (s' : Spf) × (a : Hops) × (spf_record_result s root n ≡ some s')
        × IsCounted ns s'
        × (s'.spf_metric ≡ s.spf_metric)
        × (s'.priority_lst ≡ s.priority_lst)
        × (s'.spf_result_head
            ≡ put s.spf_result_head root (
                record { node = n; spf_metric = s.spf_metric n; nexthops = a }
                ∷ s.spf_result_head root))
  unfolding spf_record_result occ_results
  record_result_total s root n kr kn miss (f, c) =
      let (h, a, e, (f', up, r)) =
        union_total s.heap (s.nexthops n) no_hops f
          (λ q. omega (arith, c q, total_node ns s n q kn)) (λ q. omega (arith, occ-no_hops q)) in
      let rs : List SpfResult =
        record { node = n; spf_metric = s.spf_metric n; nexthops = a } ∷ s.spf_result_head root in
      (
        record s { heap = h; spf_result_head = put s.spf_result_head root rs },
        a,
        rw (miss, e) refl,
        (f', λ q. omega (arith, c q, r q, total_results ns d s h root rs q kr, occ-no_hops q)),
        refl,
        refl,
        refl,
      )
