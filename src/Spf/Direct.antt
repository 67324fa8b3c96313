-- ===== src/Spf/Direct.antt =====
-- Layer5/spf_algo/spf.c: `initialize_direct_nbrs` and the turn of the root.
use mathlib.Core.Path.{subst}
use networking_protocol_deve.Base.{
  ℕ, ◌≤◌, ◌<◌, ◌≡◌, refl, sym, ap, ◌∙◌, true, false, not, List, [], ◌∷◌, ◌==◌, if◌then◌else◌,
  Bool-cases, inl, inr, arith, put, put_self, put_other, ==_iff, ==_refl, ◌⊎◌, Option, some, ltb,
  ltb→lt,
}
use networking_protocol_deve.Gluethread.Linked.{has, distinct}
use networking_protocol_deve.Gluethread.Sorted.{Ascending}
use networking_protocol_deve.Spf.Topology.{
  Link, Topo, In, Walk, here, step, node_nbrs, is_interface_l3_bidirectional,
}
use networking_protocol_deve.Spf.Compute.{
  add_direct, Spf, infinite_metric, direct_nbr, initialize_direct_nbrs, enqueue, enqueue_nbrs,
}
use networking_protocol_deve.Spf.Counted.{IsCounted}
use networking_protocol_deve.Spf.Steps.{flush_node_total, add_direct_total, counted_else}
use networking_protocol_deve.Spf.Queue.{has-enqueue, enqueue-distinct, enqueue-Ascending}
use networking_protocol_deve.Spf.Relax.{IsClosed}

module _ (shift_32 : ℕ → ℕ) where
  -- a link of the list leads in both directions to the node
  abbrev pub LeadsTo : List Link → ℕ → Type 0
  LeadsTo ls v =
      (l : Link) × In l ls × (is_interface_l3_bidirectional shift_32 l ≡ true) × (l.nbr ≡ v)

  -- what one link does to the queue
  abbrev taken_in : (ℕ → ℕ) → Link → List ℕ → List ℕ
  taken_in d l queue =
      if not (is_interface_l3_bidirectional shift_32 l)
      then queue
      else if has l.nbr queue
      then queue
      else enqueue d l.nbr queue

  enqueue_nbrs-step :
      (d : ℕ → ℕ) (l : Link) (ls : List Link) (queue : List ℕ)
      → enqueue_nbrs shift_32 d (l ∷ ls) queue ≡ enqueue_nbrs shift_32 d ls (taken_in d l queue)
  unfolding enqueue_nbrs
  enqueue_nbrs-step d l ls queue = ground arith

  taken_in-order :
      (d : ℕ → ℕ) (l : Link) (queue : List ℕ)
      → Ascending d queue
      → distinct queue ≡ true
      → Ascending d (taken_in d l queue) × (distinct (taken_in d l queue) ≡ true)
  taken_in-order d l queue a q =
      ground (arith, enqueue-Ascending d l.nbr queue, enqueue-distinct d l.nbr queue)

  taken_in-has :
      (d : ℕ → ℕ) (l : Link) (queue : List ℕ) (v : ℕ)
      → (has v queue ≡ true → has v (taken_in d l queue) ≡ true)
        × (is_interface_l3_bidirectional shift_32 l ≡ true → has l.nbr (taken_in d l queue) ≡ true)
        × (has v (taken_in d l queue) ≡ true
            → (has v queue ≡ true)
              ⊎ ((is_interface_l3_bidirectional shift_32 l ≡ true) × (l.nbr ≡ v)))
  taken_in-has d l queue v =
      let own = has-enqueue d l.nbr l.nbr queue in
      let at = has-enqueue d l.nbr v queue in
      (ground (arith, at), ground (arith, own, ==_refl l.nbr), ground (arith, at, ==_iff v l.nbr))

  -- The queue takes in exactly the nodes that the links lead to, and stays in order.
  abbrev pub TakesIn : (ℕ → ℕ) → List Link → List ℕ → List ℕ → Type 0
  TakesIn d ls queue out =
      Ascending d out
      × (distinct out ≡ true)
      × ((v : ℕ) → has v queue ≡ true → has v out ≡ true)
      × ((v : ℕ) → LeadsTo ls v → has v out ≡ true)
      × ((v : ℕ) → has v out ≡ true → (has v queue ≡ true) ⊎ LeadsTo ls v)

  pub enqueue_nbrs_lem :
      (d : ℕ → ℕ) (ls : List Link) (queue : List ℕ)
      → Ascending d queue
      → distinct queue ≡ true
      → TakesIn d ls queue (enqueue_nbrs shift_32 d ls queue)
  unfolding enqueue_nbrs
  enqueue_nbrs_lem d [] queue a q = (a, q, λ v h. h, λ v (x, h, b, e). absurd h, λ v h. inl h)
  enqueue_nbrs_lem d (l ∷ ls) queue a q =
      let (a₁, q₁) = taken_in-order d l queue a q in
      let (a', q', keep, come, only) = enqueue_nbrs_lem d ls (taken_in d l queue) a₁ q₁ in
      subst (TakesIn d (l ∷ ls) queue) (sym (enqueue_nbrs-step d l ls queue)) (
        a',
        q',
        λ v h. keep v ((taken_in-has d l queue v).0 h),
        λ v (x, h, b, e). elim h [
          | inl y ↦
              subst (λ u. has u (enqueue_nbrs shift_32 d ls (taken_in d l queue)) ≡ true)
                (ap (λ z. z.nbr) (sym y) ∙ e)
                (keep l.nbr (
                  (taken_in-has d l queue v).1
                    (subst (λ z. is_interface_l3_bidirectional shift_32 z ≡ true) y b)))
          | inr k ↦ come v (x, k, b, e)
        ],
        λ v h. elim (only v h) [
          | inl k ↦ elim ((taken_in-has d l queue v).2 k) [
            | inl o ↦ inl o
            | inr (b, e) ↦ inr (l, inl refl, b, e)
          ]
          | inr (x, k, b, e) ↦ inr (x, inr k, b, e)
        ],
      )

module _ (shift_32 : ℕ → ℕ) (topo : Topo) (root top_cost : ℕ)
    (closed : IsClosed shift_32 topo root top_cost) where
  abbrev links : List Link
  links = node_nbrs topo root

  -- Before the loop: a node of the graph other than the root has the infinite metric, or is the end
  -- of a link from the root, of the cost of one.
  abbrev pub IsStarted : (ℕ → ℕ) → Type 0
  IsStarted d =
      (d root ≡ 0)
      × ((v : ℕ)
          → (v == root) ≡ false
          → has v topo.node_list ≡ true
          → (d v ≡ infinite_metric) ⊎ Walk shift_32 topo root v (d v) × LeadsTo shift_32 links v)

  abbrev IsNear : (ℕ → ℕ) → List Link → Type 0
  IsNear d ls =
      (l : Link) → In l ls → is_interface_l3_bidirectional shift_32 l ≡ true → d l.nbr ≤ l.cost

  abbrev Starts : (Spf → Type 0) → Spf → Option Spf → Type 0
  Starts P s r =
      (s' : Spf) × (r ≡ some s')
      × IsCounted topo.node_list s'
      × IsStarted s'.spf_metric
      × ((v : ℕ) → s'.spf_metric v ≤ s.spf_metric v)
      × (s'.spf_result_head ≡ s.spf_result_head)
      × P s'

  IsStarted-put :
      (d : ℕ → ℕ) (l : Link)
      → In l links
      → is_interface_l3_bidirectional shift_32 l ≡ true
      → IsStarted d
      → IsStarted (put d l.nbr l.cost)
  IsStarted-put d l k b (z, i) = (
    put_other d l.nbr root l.cost (ground (arith, closed.no_loop l k)) ∙ z,
    λ v h n. elim (Bool-cases (v == l.nbr)) [
      | inl e ↦
          subst
            (λ x.
              (put d l.nbr l.cost x ≡ infinite_metric)
              ⊎ Walk shift_32 topo root x (put d l.nbr l.cost x) × LeadsTo shift_32 links x)
            (sym ((==_iff v l.nbr).0 e))
            (inr (
              subst (λ c. Walk shift_32 topo root l.nbr c) (omega (arith, put_self d l.nbr l.cost))
                  (step l here k b),
              (l, k, b, refl),
            ))
      | inr e ↦
          subst
            (λ c. (c ≡ infinite_metric) ⊎ Walk shift_32 topo root v c × LeadsTo shift_32 links v)
            (sym (put_other d l.nbr v l.cost e)) (i v h n)
    ],
  )

  put-lower : (d : ℕ → ℕ) (n k : ℕ) → k < d n → (v : ℕ) → put d n k v ≤ d v
  put-lower d n k less v = elim (Bool-cases (v == n)) [
    | inl e ↦ let y = (==_iff v n).0 e in omega (arith, ap (put d n k) y, ap d y, put_self d n k)
    | inr e ↦ omega (arith, put_other d n v k e)
  ]

  direct_nearer :
      (s : Spf) (l : Link)
      → IsCounted topo.node_list s
      → IsStarted s.spf_metric
      → In l links
      → is_interface_l3_bidirectional shift_32 l ≡ true
      → ltb l.cost (s.spf_metric l.nbr) ≡ true
      → Starts (λ s'. s'.spf_metric l.nbr ≤ l.cost) s (direct_nbr shift_32 s l)
  unfolding direct_nbr
  direct_nearer s l c i k b near =
      let inside = closed.nbr_inside root l k in
      let (s₁, e₁, c₁, (em₁, eq₁, er₁)) =
        flush_node_total topo.node_list closed.nodes_differ s l.nbr inside c in
      let (s₂, e₂, c₂, (em₂, eq₂, er₂)) =
        add_direct_total topo.node_list closed.nodes_differ s₁ l inside c₁ in
      let em : s₂.spf_metric ≡ s.spf_metric = em₂ ∙ em₁ in
      let known = put s₂.spf_metric l.nbr l.cost in
      (
        record s₂ { spf_metric = known },
        rw (b, near, e₁, e₂) refl,
        counted_else topo.node_list closed.nodes_differ s₂ known s₂.priority_lst c₂,
        subst (λ d. IsStarted (put d l.nbr l.cost)) (sym em) (IsStarted-put s.spf_metric l k b i),
        subst (λ d. (v : ℕ) → put d l.nbr l.cost v ≤ s.spf_metric v) (sym em)
            (put-lower s.spf_metric l.nbr l.cost (ltb→lt l.cost (s.spf_metric l.nbr) near)),
        er₂ ∙ er₁,
        omega (arith, put_self s₂.spf_metric l.nbr l.cost),
      )

  direct_equal :
      (s : Spf) (l : Link)
      → IsCounted topo.node_list s
      → IsStarted s.spf_metric
      → In l links
      → s.spf_metric l.nbr ≤ l.cost
      → Starts (λ s'. s'.spf_metric l.nbr ≤ l.cost) s (add_direct s l)
  direct_equal s l c i k le =
      let (s', e', c', (em, eq, er)) =
        add_direct_total topo.node_list closed.nodes_differ s l (closed.nbr_inside root l k) c in
      (
        s',
        e',
        c',
        subst IsStarted (sym em) i,
        λ v. omega (arith, ap (λ d. d v) em),
        er,
        omega (arith, le, ap (λ d. d l.nbr) em),
      )

  direct_nbr_total :
      (s : Spf) (l : Link)
      → IsCounted topo.node_list s
      → IsStarted s.spf_metric
      → In l links
      → Starts
          (λ s'. is_interface_l3_bidirectional shift_32 l ≡ true → s'.spf_metric l.nbr ≤ l.cost)
          s
          (direct_nbr shift_32 s l)
  unfolding direct_nbr
  direct_nbr_total s l c i k = elim (Bool-cases (is_interface_l3_bidirectional shift_32 l)) [
    | inr b ↦ (s, rw b refl, c, i, λ v. omega arith, refl, λ b'. ground (arith, b'))
    | inl b ↦ elim (Bool-cases (ltb l.cost (s.spf_metric l.nbr))) [
      | inl near ↦
          let (s', e', c', i', lo, er, le) = direct_nearer s l c i k b near in
          (s', e', c', i', lo, er, λ _. le)
      | inr far ↦ elim (Bool-cases (l.cost == s.spf_metric l.nbr)) [
        | inl y ↦
            let (s', e', c', i', lo, er, le) = direct_equal s l c i k (ground (arith, far)) in
            (s', rw (b, far, y) e', c', i', lo, er, λ _. le)
        | inr y ↦ (s, rw (b, far, y) refl, c, i, λ v. omega arith, refl, λ _. ground (arith, far))
      ]
    ]
  ]

  -- `initialize_direct_nbrs` returns, and no neighbour stays further than a link to it.
  pub initialize_direct_nbrs_total :
      (ls : List Link) (s : Spf)
      → IsCounted topo.node_list s
      → IsStarted s.spf_metric
      → ((l : Link) → In l ls → In l links)
      → Starts (λ s'. IsNear s'.spf_metric ls) s (initialize_direct_nbrs shift_32 s ls)
  unfolding initialize_direct_nbrs
  initialize_direct_nbrs_total [] s c i sub =
      (s, refl, c, i, λ v. omega arith, refl, λ l h. absurd h)
  initialize_direct_nbrs_total (l ∷ ls) s c i sub =
      let (s₁, e₁, c₁, i₁, lo₁, er₁, near) = direct_nbr_total s l c i (sub l (inl refl)) in
      let (s₂, e₂, c₂, i₂, lo₂, er₂, rest) =
        initialize_direct_nbrs_total ls s₁ c₁ i₁ (λ x h. sub x (inr h)) in
      (
        s₂,
        rw e₁ e₂,
        c₂,
        i₂,
        λ v. omega (arith, lo₁ v, lo₂ v),
        er₂ ∙ er₁,
        λ x h b. elim h [
          | inl y ↦
              let own : is_interface_l3_bidirectional shift_32 l ≡ true =
                subst (λ z. is_interface_l3_bidirectional shift_32 z ≡ true) y b in
              subst (λ z. s₂.spf_metric z.nbr ≤ z.cost) (sym y) (omega (arith, near own, lo₂ l.nbr))
          | inr k ↦ rest x k b
        ],
      )
