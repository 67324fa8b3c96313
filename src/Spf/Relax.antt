-- ===== src/Spf/Relax.antt =====
-- Layer5/spf_algo/spf.c: what one relaxation of a link keeps, and what it settles.
use mathlib.Core.Path.{subst}
use native.Mathlib.Nat.{suc-mul}
use networking_protocol_deve.Base.{
  ℕ, suc, ◌+◌, ◌*◌, ◌≤◌, ◌<◌, ◌≡◌, sym, ap, ◌∙◌, Bool, true, false, ◌||◌, List, [], ◌∷◌, ◌==◌,
  Bool-cases, inl, inr, arith, put, put_self, put_other, length, ==_iff, ==_refl,
}
use networking_protocol_deve.Gluethread.Linked.{has, distinct}
use networking_protocol_deve.Gluethread.Remove.{erase, has-erase_other}
use networking_protocol_deve.Gluethread.Sorted.{Ascending}
use networking_protocol_deve.WheelTimer.Slots.{Ascending-head, Ascending-tail}
use networking_protocol_deve.Spf.Topology.{
  Link, Topo, In, Walk, node_nbrs, is_interface_l3_bidirectional,
}
use networking_protocol_deve.Spf.Compute.{infinite_metric, requeue}
use networking_protocol_deve.Spf.Queue.{has-requeue, requeue-distinct, requeue-Ascending}

-- The graph has distinct nodes and the root is one of them, the interfaces lead to its nodes, none leads from the
-- root to itself, and no path without a repeated node reaches the infinite metric, where a link
-- costs at most `top_cost`.
pub record IsClosed (shift_32 : ℕ → ℕ) (topo : Topo) (root top_cost : ℕ) : Type 0 where
  pub nodes_differ : distinct topo.node_list ≡ true
  pub root_inside : has root topo.node_list ≡ true
  pub nbr_inside : (u : ℕ) (l : Link) → In l (node_nbrs topo u) → has l.nbr topo.node_list ≡ true
  pub no_loop : (l : Link) → In l (node_nbrs topo root) → (l.nbr == root) ≡ false
  pub cost_bound : (u : ℕ) (l : Link) → In l (node_nbrs topo u) → l.cost ≤ top_cost
  pub metric_bound : length topo.node_list * top_cost < infinite_metric

length-erase : (c : ℕ) (xs : List ℕ) → has c xs ≡ true → length xs ≡ suc (length (erase c xs))
length-erase c [] h = ground arith
length-erase c (x ∷ xs) h = ground (arith, length-erase c xs)

-- Distinct members of a list are at most as many as it has.
pub distinct-length :
    (xs ys : List ℕ)
    → distinct xs ≡ true
    → ((v : ℕ) → has v xs ≡ true → has v ys ≡ true)
    → length xs ≤ length ys
distinct-length [] ys d sub = omega arith
distinct-length (x ∷ xs) ys d sub =
    let rest =
      distinct-length xs (erase x ys) (ground arith)
        λ v h. ground (arith, sub v, has-erase_other x v ys, ==_iff v x) in
    omega (arith, rest, length-erase x ys (sub x (ground arith)))

module _ (shift_32 : ℕ → ℕ) (topo : Topo) (root top_cost : ℕ) where
  -- the nodes that are finished or wait in the queue
  abbrev pub seen : List ℕ → List ℕ → ℕ → Bool
  seen queue done v = has v (root ∷ done) || has v queue

  -- The metrics `d` with the queue and the finished nodes: `m` lies between the metrics of the
  -- finished nodes and of those that wait, each of them has a path of its metric, and the other nodes
  -- have the infinite metric.
  pub record IsFrontier (d : ℕ → ℕ) (queue done : List ℕ) (m : ℕ) : Type 0 where
    pub root_metric : d root ≡ 0
    pub sorted : Ascending d queue
    pub queue_distinct : distinct queue ≡ true
    pub done_distinct : distinct (root ∷ done) ≡ true
    pub done_inside : (v : ℕ) → has v done ≡ true → has v topo.node_list ≡ true
    pub queue_inside : (v : ℕ) → has v queue ≡ true → has v topo.node_list ≡ true
    pub apart : (v : ℕ) → has v queue ≡ true → has v (root ∷ done) ≡ false
    pub low : (v : ℕ) → has v (root ∷ done) ≡ true → d v ≤ m
    pub high : (v : ℕ) → has v queue ≡ true → m ≤ d v
    pub walks : (v : ℕ) → seen queue done v ≡ true → Walk shift_32 topo root v (d v)
    pub unseen :
        (v : ℕ) → has v topo.node_list ≡ true → seen queue done v ≡ false → d v ≡ infinite_metric
    pub queue_bound : (v : ℕ) → has v queue ≡ true → d v ≤ suc (length done) * top_cost
    pub bound : m ≤ length done * top_cost

  -- The link leads no nearer than its end is, and the end is finished or waits.
  abbrev pub IsSettled : (ℕ → ℕ) → List ℕ → List ℕ → ℕ → Link → Type 0
  IsSettled d queue done u l =
      is_interface_l3_bidirectional shift_32 l ≡ true
      → (d l.nbr ≤ d u + l.cost) × (seen queue done l.nbr ≡ true)

  -- Metrics only go down, those of the finished nodes stay, and no node leaves the queue.
  abbrev pub Lowers : (ℕ → ℕ) → List ℕ → List ℕ → (ℕ → ℕ) → List ℕ → Type 0
  Lowers d queue done d' queue' =
      ((v : ℕ) → d' v ≤ d v)
      × ((v : ℕ) → has v (root ∷ done) ≡ true → d' v ≡ d v)
      × ((v : ℕ) → has v queue ≡ true → has v queue' ≡ true)

  pub IsSettled-later :
      (d : ℕ → ℕ) (queue done : List ℕ) (d' : ℕ → ℕ) (queue' : List ℕ) (u : ℕ) (l : Link)
      → has u (root ∷ done) ≡ true
      → Lowers d queue done d' queue'
      → IsSettled d queue done u l
      → IsSettled d' queue' done u l
  IsSettled-later d queue done d' queue' u l k (down, same, stay) h b =
      let (le, s) = h b in (omega (arith, le, down l.nbr, same u k), ground (arith, stay l.nbr))

  -- Taking the first node off the queue finishes it.
  pub IsFrontier-pop :
      (d : ℕ → ℕ) (n : ℕ) (queue done : List ℕ) (m : ℕ)
      → IsFrontier d (n ∷ queue) done m
      → IsFrontier d queue (n ∷ done) (d n)
  IsFrontier-pop d n queue done m i = record {
    root_metric = i.root_metric;
    sorted = Ascending-tail d n queue i.sorted;
    queue_distinct = ground (arith, i.queue_distinct);
    done_distinct = ground (arith, i.done_distinct, i.apart n, ==_iff root n, ==_iff n root);
    done_inside = λ v h. ground (arith, i.done_inside v, i.queue_inside v);
    queue_inside = λ v h. ground (arith, i.queue_inside v);
    apart = λ v h. ground (arith, i.apart v, i.queue_distinct, ==_iff v n);
    low = λ v h. elim (Bool-cases (v == n)) [
      | inl e ↦ omega (arith, ap d ((==_iff v n).0 e))
      | inr e ↦ omega (arith, i.low v (ground arith), i.high n (ground arith))
    ];
    high = λ v h. Ascending-head d n v queue i.sorted h;
    walks = λ v h. i.walks v (ground arith);
    unseen = λ v k h. i.unseen v k (ground arith);
    queue_bound =
        λ v h. omega (arith, i.queue_bound v (ground arith), suc-mul (suc (length done)) top_cost);
    bound = i.queue_bound n (ground arith);
  }

  -- `k` is the new metric of the node `v`
  module _ (d : ℕ → ℕ) (queue done : List ℕ) (m n k v : ℕ) (i : IsFrontier d queue done m)
      (finished : has n done ≡ true) (at_bound : d n ≡ m) (k_bound : k ≤ m + top_cost)
      (m_le : m ≤ k) (nearer : k < d v) (v_inside : has v topo.node_list ≡ true)
      (path : Walk shift_32 topo root v k) where
    abbrev known : ℕ → ℕ
    known = put d v k

    abbrev waiting : List ℕ
    waiting = requeue known v queue

    not_finished : has v (root ∷ done) ≡ false
    not_finished = elim (Bool-cases (has v (root ∷ done))) [
      | inl e ↦ absurd (omega (arith, i.low v e))
      | inr e ↦ e
    ]

    has-waiting : (q : ℕ) → has q waiting ≡ ((q == v) || has q queue)
    has-waiting = has-requeue known v queue i.queue_distinct

    known_self : (q : ℕ) → (q == v) ≡ true → known q ≡ k
    known_self q e = ap known ((==_iff q v).0 e) ∙ put_self d v k

    known_other : (q : ℕ) → (q == v) ≡ false → known q ≡ d q
    known_other q e = put_other d v q k e

    known_finished : (u : ℕ) → has u (root ∷ done) ≡ true → known u ≡ d u
    known_finished u h = known_other u (ground (arith, not_finished, ==_iff u v))

    pub IsFrontier-lower : IsFrontier known waiting done m
    IsFrontier-lower = record {
      root_metric = known_finished root (ground arith) ∙ i.root_metric;
      sorted = requeue-Ascending known v queue i.queue_distinct d known_other i.sorted;
      queue_distinct = requeue-distinct known v queue i.queue_distinct;
      done_distinct = i.done_distinct;
      done_inside = i.done_inside;
      queue_inside = λ q h. ground (arith, has-waiting q, i.queue_inside q, ==_iff q v);
      apart = λ q h. ground (arith, has-waiting q, i.apart q, ==_iff q v, not_finished);
      low = λ q h. omega (arith, known_finished q h, i.low q h);
      high = λ q h. elim (Bool-cases (q == v)) [
        | inl e ↦ omega (arith, known_self q e)
        | inr e ↦ omega (arith, known_other q e, i.high q (ground (arith, has-waiting q)))
      ];
      walks = λ q h. elim (Bool-cases (q == v)) [
        | inl e ↦
            subst (λ x. Walk shift_32 topo root x (known x)) (sym ((==_iff q v).0 e))
              (subst (λ c. Walk shift_32 topo root v c) (sym (put_self d v k)) path)
        | inr e ↦
            subst (λ c. Walk shift_32 topo root q c) (sym (known_other q e))
              (i.walks q (ground (arith, has-waiting q)))
      ];
      unseen = λ q inside h.
          known_other q (ground (arith, has-waiting q))
          ∙ i.unseen q inside (ground (arith, has-waiting q));
      queue_bound = λ q h. elim (Bool-cases (q == v)) [
        | inl e ↦ omega (arith, known_self q e, i.bound, suc-mul (length done) top_cost)
        | inr e ↦ omega (arith, known_other q e, i.queue_bound q (ground (arith, has-waiting q)))
      ];
      bound = i.bound;
    }

    pub lower-Lowers : Lowers d queue done known waiting
    lower-Lowers = (
      λ q. elim (Bool-cases (q == v)) [
        | inl e ↦ omega (arith, known_self q e, ap d ((==_iff q v).0 e))
        | inr e ↦ omega (arith, known_other q e)
      ],
      known_finished,
      λ q h. ground (arith, has-waiting q),
    )

    pub lower-seen : seen waiting done v ≡ true
    lower-seen = ground (arith, has-waiting v, ==_refl v)
