-- ===== src/Spf/Explore.antt =====
-- Layer5/spf_algo/spf.c: `spf_explore_nbrs` fails nowhere and settles every link of the node.
use mathlib.Core.Path.{subst}
use native.Mathlib.Nat.{suc-mul, mod-eq_of_lt, mul-le-mul_right}
use networking_protocol_deve.Base.{
  ℕ, suc, ◌+◌, ◌≤◌, ◌<◌, ◌≡◌, refl, sym, ap, ◌∙◌, true, List, [], ◌∷◌, ◌==◌, Bool-cases, inl, inr,
  arith, put, put_self, ltb, length, ltb→lt, ==_iff, Option, some,
}
use networking_protocol_deve.Gluethread.Linked.{has}
use networking_protocol_deve.Spf.Topology.{
  Link, Topo, In, Walk, step, node_nbrs, is_interface_l3_bidirectional,
}
use networking_protocol_deve.Spf.Compute.{
  union_nodes, Spf, infinite_metric, requeue, add_metrics, explore_nbr, explore_nbrs,
  spf_explore_nbrs,
}
use networking_protocol_deve.Spf.Counted.{IsCounted}
use networking_protocol_deve.Spf.Steps.{flush_node_total, union_nodes_total, counted_else}
use networking_protocol_deve.Spf.Relax.{
  IsClosed, distinct-length, seen, IsFrontier, IsSettled, Lowers, IsSettled-later, IsFrontier-lower,
  lower-Lowers, lower-seen,
}

pub move_both :
    {f g : ℕ → ℕ} {xs ys : List ℕ} (P : (ℕ → ℕ) → List ℕ → Type 0)
    → g ≡ f
    → ys ≡ xs
    → P f xs
    → P g ys
move_both {f} {g} {xs} {ys} P e e' p = subst (λ h. P h ys) (sym e) (subst (λ zs. P f zs) (sym e') p)

module _ (shift_32 : ℕ → ℕ) (topo : Topo) (root top_cost : ℕ)
    (closed : IsClosed shift_32 topo root top_cost) (done : List ℕ) (n m : ℕ) where
  abbrev Frontier : Spf → Type 0
  Frontier s = IsFrontier shift_32 topo root top_cost s.spf_metric s.priority_lst done m

  abbrev Lower : Spf → Spf → Type 0
  Lower s s' =
      Lowers shift_32 topo root top_cost s.spf_metric s.priority_lst done s'.spf_metric
        s'.priority_lst

  abbrev Settled : Spf → Link → Type 0
  Settled s l = IsSettled shift_32 topo root top_cost s.spf_metric s.priority_lst done n l

  -- the call returns a state in which what `P` says holds too
  abbrev Explores : (Spf → Type 0) → Spf → Option Spf → Type 0
  Explores P s r =
      (s' : Spf) × (r ≡ some s')
      × IsCounted topo.node_list s'
      × Frontier s'
      × Lower s s'
      × (s'.spf_result_head ≡ s.spf_result_head)
      × P s'

  Lower-refl : (s : Spf) → Lower s s
  Lower-refl s = (λ v. omega arith, λ v h. refl, λ v h. h)

  Lower-trans : (s s' s'' : Spf) → Lower s s' → Lower s' s'' → Lower s s''
  Lower-trans s s' s'' (a, b, c) (a', b', c') =
      (λ v. omega (arith, a v, a' v), λ v h. b' v h ∙ b v h, λ v h. c' v (c v h))

  -- the sum of the metrics does not wrap
  no_wrap :
      (d : ℕ → ℕ) (queue : List ℕ) (l : Link)
      → IsFrontier shift_32 topo root top_cost d queue done m
      → d n ≡ m
      → In l (node_nbrs topo n)
      → (add_metrics (d n) l.cost ≡ m + l.cost) × (m + l.cost < infinite_metric)
  no_wrap d queue l i e k =
      let inside : (v : ℕ) → has v (root ∷ done) ≡ true → has v topo.node_list ≡ true =
        λ v h. ground (arith, i.done_inside v, closed.root_inside, ==_iff v root) in
      let few : suc (length done) ≤ length topo.node_list =
        distinct-length (root ∷ done) topo.node_list i.done_distinct inside in
      let less : m + l.cost < infinite_metric = omega (
        arith,
        i.bound,
        closed.cost_bound n l k,
        closed.metric_bound,
        mul-le-mul_right top_cost few,
        suc-mul (length done) top_cost,
      ) in
      (ap (λ x. add_metrics x l.cost) e ∙ mod-eq_of_lt (omega (arith, less)), less)

  Settled-as :
      (s : Spf) (l : Link)
      → s.spf_metric l.nbr ≤ s.spf_metric n + l.cost
      → seen shift_32 topo root top_cost s.priority_lst done l.nbr ≡ true
      → Settled s l
  Settled-as s l le k b = (le, k)

  module _ (finished : has n done ≡ true) where
    -- the end of a link that leads no nearer is known already
    met :
        (s : Spf) (l : Link)
        → Frontier s
        → In l (node_nbrs topo n)
        → s.spf_metric l.nbr < infinite_metric
        → seen shift_32 topo root top_cost s.priority_lst done l.nbr ≡ true
    met s l i k less =
        elim (Bool-cases (seen shift_32 topo root top_cost s.priority_lst done l.nbr)) [
          | inl e ↦ e
          | inr e ↦ absurd (omega (arith, less, i.unseen l.nbr (closed.nbr_inside n l k) e))
        ]

    -- what is known of the new metrics and the new queue
    abbrev Holds : Spf → Link → (ℕ → ℕ) → List ℕ → Type 0
    Holds s l d queue =
        IsFrontier shift_32 topo root top_cost d queue done m
        × Lowers shift_32 topo root top_cost s.spf_metric s.priority_lst done d queue
        × IsSettled shift_32 topo root top_cost d queue done n l

    lowered :
        (s : Spf) (l : Link) (w : ℕ)
        → Frontier s
        → s.spf_metric n ≡ m
        → In l (node_nbrs topo n)
        → is_interface_l3_bidirectional shift_32 l ≡ true
        → w ≡ m + l.cost
        → w < s.spf_metric l.nbr
        → Holds s l
            (put s.spf_metric l.nbr w)
            (requeue (put s.spf_metric l.nbr w) l.nbr s.priority_lst)
    lowered s l w i e k b sum near =
        let cost = closed.cost_bound n l k in
        let le : w ≤ m + top_cost = omega (arith, sum, cost) in
        let ge : m ≤ w = omega (arith, sum) in
        let inside = closed.nbr_inside n l k in
        let walk : Walk shift_32 topo root l.nbr w =
          subst (λ c. Walk shift_32 topo root l.nbr c) (omega (arith, sum, e))
            (step l (i.walks n (ground arith)) k b) in
        let lowers =
          lower-Lowers shift_32 topo root top_cost s.spf_metric s.priority_lst done m n w l.nbr i
            finished e le ge near inside walk in
        (
          IsFrontier-lower shift_32 topo root top_cost s.spf_metric s.priority_lst done m n w l.nbr
              i finished e le ge near inside walk,
          lowers,
          λ _. (
            omega (
              arith,
              put_self s.spf_metric l.nbr w,
              lowers.1 n (ground (arith, finished)),
              sum,
              e,
            ),
            lower-seen shift_32 topo root top_cost s.spf_metric s.priority_lst done m n w l.nbr i
                finished e le ge near inside walk,
          ),
        )

    explore_nearer :
        (s : Spf) (l : Link)
        → IsCounted topo.node_list s
        → Frontier s
        → s.spf_metric n ≡ m
        → In l (node_nbrs topo n)
        → is_interface_l3_bidirectional shift_32 l ≡ true
        → ltb (add_metrics (s.spf_metric n) l.cost) (s.spf_metric l.nbr) ≡ true
        → Explores (λ s'. Settled s' l) s (explore_nbr shift_32 s n l)
    unfolding explore_nbr
    explore_nearer s l c i e k b near =
        let w = add_metrics (s.spf_metric n) l.cost in
        let (sum, less) = no_wrap s.spf_metric s.priority_lst l i e k in
        let inside = closed.nbr_inside n l k in
        let (s₁, e₁, c₁, (em₁, eq₁, er₁)) =
          flush_node_total topo.node_list closed.nodes_differ s l.nbr inside c in
        let (s₂, e₂, c₂, (em₂, eq₂, er₂)) =
          union_nodes_total topo.node_list closed.nodes_differ s₁ n l.nbr (i.done_inside n finished)
            inside c₁ in
        let known = put s₂.spf_metric l.nbr w in
        let (f, lowers, settled) =
          move_both (λ d queue. Holds s l (put d l.nbr w) (requeue (put d l.nbr w) l.nbr queue))
            (em₂ ∙ em₁) (eq₂ ∙ eq₁)
            (lowered s l w i e k b sum (ltb→lt w (s.spf_metric l.nbr) near)) in
        (
          record s₂ { spf_metric = known; priority_lst = requeue known l.nbr s₂.priority_lst },
          rw (b, near, e₁, e₂) refl,
          counted_else topo.node_list closed.nodes_differ s₂ known
              (requeue known l.nbr s₂.priority_lst) c₂,
          f,
          lowers,
          er₂ ∙ er₁,
          settled,
        )

    explore_equal :
        (s : Spf) (l : Link)
        → IsCounted topo.node_list s
        → Frontier s
        → In l (node_nbrs topo n)
        → Settled s l
        → Explores (λ s'. Settled s' l) s (union_nodes s n l.nbr)
    explore_equal s l c i k settled =
        let (s', e', c', (em, eq, er)) =
          union_nodes_total topo.node_list closed.nodes_differ s n l.nbr (i.done_inside n finished)
            (closed.nbr_inside n l k) c in
        let (f, lowers, settled') =
          move_both (λ d queue. Holds s l d queue) em eq (i, Lower-refl s, settled) in
        (s', e', c', f, lowers, er, settled')

    -- One link: the nearer end gets the metric and a place in the queue.
    explore_nbr_total :
        (s : Spf) (l : Link)
        → IsCounted topo.node_list s
        → Frontier s
        → s.spf_metric n ≡ m
        → In l (node_nbrs topo n)
        → Explores (λ s'. Settled s' l) s (explore_nbr shift_32 s n l)
    unfolding explore_nbr
    explore_nbr_total s l c i e k =
        let metric = add_metrics (s.spf_metric n) l.cost in
        let (sum, less) = no_wrap s.spf_metric s.priority_lst l i e k in
        elim (Bool-cases (is_interface_l3_bidirectional shift_32 l)) [
          | inr b ↦ (s, rw b refl, c, i, Lower-refl s, refl, λ b'. ground (arith, b'))
          | inl b ↦ elim (Bool-cases (ltb metric (s.spf_metric l.nbr))) [
            | inl near ↦ explore_nearer s l c i e k b near
            | inr far ↦
                let le : s.spf_metric l.nbr ≤ s.spf_metric n + l.cost =
                  ground (arith, sum, e, far) in
                let known = met s l i k (omega (arith, le, e, less)) in
                elim (Bool-cases (metric == s.spf_metric l.nbr)) [
                  | inr y ↦
                      (s, rw (b, far, y) refl, c, i, Lower-refl s, refl, Settled-as s l le known)
                  | inl y ↦
                      let (s', e', c', f, lo, er, settled) =
                        explore_equal s l c i k (Settled-as s l le known) in
                      (s', rw (b, far, y) e', c', f, lo, er, settled)
                ]
          ]
        ]

    -- Every link: the queue and the metrics settle all of them.
    explore_nbrs_total :
        (ls : List Link) (s : Spf)
        → IsCounted topo.node_list s
        → Frontier s
        → s.spf_metric n ≡ m
        → ((l : Link) → In l ls → In l (node_nbrs topo n))
        → Explores (λ s'. (l : Link) → In l ls → Settled s' l) s (explore_nbrs shift_32 s n ls)
    unfolding explore_nbrs
    explore_nbrs_total [] s c i e sub = (s, refl, c, i, Lower-refl s, refl, λ l h. absurd h)
    explore_nbrs_total (l ∷ ls) s c i e sub =
        let (s₁, e₁, c₁, i₁, lo₁, er₁, settled) = explore_nbr_total s l c i e (sub l (inl refl)) in
        let stays : has n (root ∷ done) ≡ true = ground (arith, finished) in
        let (s₂, e₂, c₂, i₂, lo₂, er₂, rest) =
          explore_nbrs_total ls s₁ c₁ i₁ (lo₁.1 n stays ∙ e) (λ x h. sub x (inr h)) in
        (
          s₂,
          rw e₁ e₂,
          c₂,
          i₂,
          Lower-trans s s₁ s₂ lo₁ lo₂,
          er₂ ∙ er₁,
          λ x. elim [
            | inl y ↦ subst (Settled s₂) (sym y) (
                IsSettled-later shift_32 topo root top_cost s₁.spf_metric s₁.priority_lst done
                  s₂.spf_metric s₂.priority_lst n l stays lo₂ settled)
            | inr h ↦ rest x h
          ],
        )

    -- `spf_explore_nbrs` returns, and settles every link of the node.
    pub spf_explore_nbrs_total :
        (s : Spf)
        → IsCounted topo.node_list s
        → Frontier s
        → s.spf_metric n ≡ m
        → Explores
            (λ s'. (l : Link) → In l (node_nbrs topo n) → Settled s' l)
            s
            (spf_explore_nbrs shift_32 topo s n)
    unfolding spf_explore_nbrs
    spf_explore_nbrs_total s c i e =
        let (s₁, e₁, c₁, i₁, lo₁, er₁, settled) =
          explore_nbrs_total (node_nbrs topo n) s c i e (λ l h. h) in
        let (s₂, e₂, c₂, (em, eq, er)) =
          flush_node_total topo.node_list closed.nodes_differ s₁ n (i.done_inside n finished) c₁ in
        let (f, lowers, rest) =
          move_both
            (λ d queue.
              IsFrontier shift_32 topo root top_cost d queue done m
              × Lowers shift_32 topo root top_cost s.spf_metric s.priority_lst done d queue
              × ((l : Link)
                  → In l (node_nbrs topo n)
                  → IsSettled shift_32 topo root top_cost d queue done n l))
            em eq (i₁, lo₁, settled) in
        (s₂, rw e₁ e₂, c₂, f, lowers, er ∙ er₁, rest)
