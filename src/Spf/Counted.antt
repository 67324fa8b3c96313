-- ===== src/Spf/Counted.antt =====
-- Layer5/spf_algo/spf.c: the counts of the nexthops cover the slots of all nodes and results.
use networking_protocol_deve.Base.{
  ℕ, ◌+◌, ◌≤◌, ◌≡◌, refl, ap, true, false, List, [], ◌∷◌, ◌==◌, Bool-cases, inl, inr, arith, put,
  put_self, put_other, ==_iff,
}
use networking_protocol_deve.Gluethread.Linked.{has, distinct}
use networking_protocol_deve.Spf.Arrays.{Hops, Heap}
use networking_protocol_deve.Spf.Compute.{Spf, SpfResult}
use networking_protocol_deve.Spf.Refs.{occ, refs, IsFresh}

pub sum : (ℕ → ℕ) → List ℕ → ℕ
sum f [] = 0
sum f (n ∷ ns) = f n + sum f ns

sum_same :
    (f g : ℕ → ℕ) (n : ℕ) (ns : List ℕ)
    → ((m : ℕ) → (m == n) ≡ false → g m ≡ f m)
    → has n ns ≡ false
    → sum g ns ≡ sum f ns
unfolding sum
sum_same f g n [] same h = refl
sum_same f g n (m ∷ ns) same h =
    omega (arith, same m (ground arith), sum_same f g n ns same (ground arith))

-- A sum changes with the one term that changes.
sum_put :
    (f g : ℕ → ℕ) (n : ℕ) (ns : List ℕ)
    → ((m : ℕ) → (m == n) ≡ false → g m ≡ f m)
    → distinct ns ≡ true
    → has n ns ≡ true
    → sum g ns + f n ≡ sum f ns + g n
unfolding sum
sum_put f g n [] same d h = ground arith
sum_put f g n (m ∷ ns) same d h = elim (Bool-cases (m == n)) [
  | inl y ↦
      let e = (==_iff m n).0 y in
      omega (arith, ap f e, ap g e, sum_same f g n ns same (ground arith))
  | inr y ↦ omega (arith, same m y, sum_put f g n ns same (ground arith) (ground arith))
]

sum_term : (f : ℕ → ℕ) (n : ℕ) (ns : List ℕ) → has n ns ≡ true → f n ≤ sum f ns
unfolding sum
sum_term f n [] h = ground arith
sum_term f n (m ∷ ns) h = elim (Bool-cases (n == m)) [
  | inl y ↦ omega (arith, ap f ((==_iff n m).0 y))
  | inr y ↦ omega (arith, sum_term f n ns (ground arith))
]

-- the slots of the results that point to `q`
unfoldable pub occ_results : ℕ → List SpfResult → ℕ
occ_results q [] = 0
occ_results q (r ∷ rs) = occ q r.nexthops + occ_results q rs

abbrev held : (ℕ → Hops) → (ℕ → List SpfResult) → ℕ → ℕ → ℕ
held a rs q n = occ q (a n) + occ_results q (rs n)

-- the slots of the nodes and of their results that point to `q`
unfoldable pub total : List ℕ → Spf → ℕ → ℕ
unfolding sum occ_results
total ns s q = sum (held s.nexthops s.spf_result_head q) ns

-- No nexthop has fewer references than slots that point to it, and memory that was never allocated
-- is free.
abbrev pub IsCounted : List ℕ → Spf → Type 0
IsCounted ns s = IsFresh s.heap × ((q : ℕ) → total ns s q ≤ refs s.heap q)

-- the array and the results of one node are part of the total
pub total_node :
    (ns : List ℕ) (s : Spf) (n q : ℕ)
    → has n ns ≡ true
    → occ q (s.nexthops n) + occ_results q (s.spf_result_head n) ≤ total ns s q
unfolding total
total_node ns s n q h = sum_term (held s.nexthops s.spf_result_head q) n ns h

module _ (ns : List ℕ) (d : distinct ns ≡ true) where
  -- what changing one node does to the total
  total_change :
      (s s' : Spf) (n q : ℕ)
      → ((m : ℕ) → (m == n) ≡ false → s'.nexthops m ≡ s.nexthops m)
      → ((m : ℕ) → (m == n) ≡ false → s'.spf_result_head m ≡ s.spf_result_head m)
      → has n ns ≡ true
      → total ns s' q + (occ q (s.nexthops n) + occ_results q (s.spf_result_head n))
        ≡ total ns s q + (occ q (s'.nexthops n) + occ_results q (s'.spf_result_head n))
  unfolding total
  total_change s s' n q ea er h =
      sum_put (held s.nexthops s.spf_result_head q) (held s'.nexthops s'.spf_result_head q) n ns
        (λ m k. omega (arith, ap (occ q) (ea m k), ap (occ_results q) (er m k))) d h

  pub total_nexthops :
      (s : Spf) (h : Heap) (n : ℕ) (a : Hops) (q : ℕ)
      → has n ns ≡ true
      → total ns (record s { heap = h; nexthops = put s.nexthops n a }) q + occ q (s.nexthops n)
        ≡ total ns s q + occ q a
  total_nexthops s h n a q k =
      let s' : Spf = record s { heap = h; nexthops = put s.nexthops n a } in
      omega (
        arith,
        total_change s s' n q (λ m e. put_other s.nexthops n m a e) (λ m e. refl) k,
        ap (occ q) (put_self s.nexthops n a),
      )

  pub total_results :
      (s : Spf) (h : Heap) (n : ℕ) (rs : List SpfResult) (q : ℕ)
      → has n ns ≡ true
      → total ns (record s { heap = h; spf_result_head = put s.spf_result_head n rs }) q
          + occ_results q (s.spf_result_head n)
        ≡ total ns s q + occ_results q rs
  total_results s h n rs q k =
      let s' : Spf = record s { heap = h; spf_result_head = put s.spf_result_head n rs } in
      omega (
        arith,
        total_change s s' n q (λ m e. refl) (λ m e. put_other s.spf_result_head n m rs e) k,
        ap (occ_results q) (put_self s.spf_result_head n rs),
      )
