-- ===== src/Spf/Queue.antt =====
-- Layer5/spf_algo/spf.c: the priority queue stays in the order of the metrics.
use networking_protocol_deve.Base.{
  ℕ, ◌<◌, ◌≡◌, ◌↔◌, true, false, ◌||◌, List, ◌==◌, if◌then◌else◌, Bool-cases, inl, inr, arith,
  ==_iff,
}
use networking_protocol_deve.Gluethread.{precedes, is_minus_one}
use networking_protocol_deve.Gluethread.Linked.{has, distinct}
use networking_protocol_deve.Gluethread.Remove.{erase, erase-distinct, has-erase_other}
use networking_protocol_deve.Gluethread.Sorted.{
  Ascending, insert_before-Ascending, has-insert_before, insert_before-distinct,
}
use networking_protocol_deve.WheelTimer.Slots.{Ascending-transfer, erase-Ascending, has-erase_self}
use networking_protocol_deve.Spf.Compute.{spf_comparison_fn, enqueue, requeue}

pub comparison-precedes :
    (metric : ℕ → ℕ) (a b : ℕ)
    → (precedes (spf_comparison_fn metric) 0 a b ≡ true) ↔ (metric a < metric b)
unfolding precedes spf_comparison_fn is_minus_one
comparison-precedes metric a b = ground arith

pub has-enqueue :
    (metric : ℕ → ℕ) (n q : ℕ) (queue : List ℕ)
    → has q (enqueue metric n queue) ≡ ((q == n) || has q queue)
unfolding enqueue
has-enqueue metric n q queue = has-insert_before (spf_comparison_fn metric) 0 n q queue

pub enqueue-distinct :
    (metric : ℕ → ℕ) (n : ℕ) (queue : List ℕ)
    → has n queue ≡ false
    → distinct queue ≡ true
    → distinct (enqueue metric n queue) ≡ true
unfolding enqueue
enqueue-distinct metric n queue f d =
    insert_before-distinct (spf_comparison_fn metric) 0 n queue f d

pub enqueue-Ascending :
    (metric : ℕ → ℕ) (n : ℕ) (queue : List ℕ)
    → Ascending metric queue
    → Ascending metric (enqueue metric n queue)
unfolding enqueue
enqueue-Ascending metric n queue h =
    insert_before-Ascending (spf_comparison_fn metric) 0 metric (comparison-precedes metric) n queue
      h

-- The queue without the node, if it waits there.
abbrev without : ℕ → List ℕ → List ℕ
without n queue = if has n queue then erase n queue else queue

has-without_self :
    (n : ℕ) (queue : List ℕ) → distinct queue ≡ true → has n (without n queue) ≡ false
has-without_self n queue d = ground (arith, has-erase_self n queue)

has-without_other :
    (n q : ℕ) (queue : List ℕ) → (q == n) ≡ false → has q (without n queue) ≡ has q queue
has-without_other n q queue e = ground (arith, has-erase_other n q queue)

module _ (metric : ℕ → ℕ) (n : ℕ) (queue : List ℕ) (d : distinct queue ≡ true) where
  pub has-requeue : (q : ℕ) → has q (requeue metric n queue) ≡ ((q == n) || has q queue)
  unfolding requeue
  has-requeue q = elim (Bool-cases (q == n)) [
    | inl e ↦ ground (arith, has-enqueue metric n q (without n queue))
    | inr e ↦
        ground (arith, has-enqueue metric n q (without n queue), has-without_other n q queue e)
  ]

  pub requeue-distinct : distinct (requeue metric n queue) ≡ true
  unfolding requeue
  requeue-distinct =
      enqueue-distinct metric n (without n queue) (has-without_self n queue d)
        (ground (arith, erase-distinct n queue))

  -- Where only the metric of the node changed, the queue is in order again.
  pub requeue-Ascending :
      (old : ℕ → ℕ)
      → ((q : ℕ) → (q == n) ≡ false → metric q ≡ old q)
      → Ascending old queue
      → Ascending metric (requeue metric n queue)
  unfolding requeue
  requeue-Ascending old same h = enqueue-Ascending metric n (without n queue) (
      Ascending-transfer old metric (without n queue)
        (λ q k. same q (ground (arith, has-without_self n queue d, ==_iff q n)))
        (elim (Bool-cases (has n queue)) [
          | inl e ↦ rw e (erase-Ascending old n queue h)
          | inr e ↦ rw e h
        ]))
