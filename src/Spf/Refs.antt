-- ===== src/Spf/Refs.antt =====
-- Layer5/spf_algo/spf.c: the reference counts of the nexthops and the slots that point to them.
use networking_protocol_deve.Base.{
  ==_iff, ==_refl, ℕ, zero, suc, ◌+◌, ◌-◌, ◌≤◌, ◌<◌, ◌≡◌, refl, Bool, true, false, Option, none,
  some, [], ◌∷◌, ◌==◌, ltb, if◌then◌else◌, set, Option-cases, Bool-cases, inl, inr, arith, ap,
}
use networking_protocol_deve.Layer3.Nexthops.{Nexthop, max_nxt_hops}
use networking_protocol_deve.Spf.Topology.{Link}
use networking_protocol_deve.Spf.Arrays.{
  nexthop_through, Hops, Heap, store, release, retain, spf_flush_nexthops, create_new_nexthop,
  spf_insert_new_nexthop, spf_is_nexthop_exist, first_empty, union_from, spf_union_nexthops_arrays,
}

abbrev pub one : ℕ → ℕ → ℕ
one p q = if p == q then 1 else 0

-- how many slots of an array point to `p`
unfoldable pub occ : ℕ → Hops → ℕ
occ p [] = 0
occ p (none ∷ a) = occ p a
occ p (some q ∷ a) = one p q + occ p a

abbrev count_of : Option Nexthop → ℕ
count_of none = 0
count_of (some nh) = nh.ref_count

-- the reference count at `p`, and 0 in free memory
unfoldable pub refs : Heap → ℕ → ℕ
refs h p = count_of (h.cell p)

-- Memory that was never allocated is free.
abbrev pub IsFresh : Heap → Type 0
IsFresh h = (q : ℕ) → h.next ≤ q → h.cell q ≡ none

-- The slots of the array are covered by the counts.
abbrev pub IsCovered : Heap → Hops → Type 0
IsCovered h a = (q : ℕ) → occ q a ≤ refs h q

pub live : (h : Heap) (p : ℕ) → 0 < refs h p → (nh : Nexthop) × (h.cell p ≡ some nh)
unfolding refs
live h p k = elim (Option-cases (h.cell p)) [
  | inl e ↦ absurd (ground arith)
  | inr (nh, e) ↦ (nh, e)
]

store-refs :
    (h : Heap) (p : ℕ) (v : Option Nexthop) (q : ℕ)
    → refs (store h p v) q ≡ (if q == p then count_of v else refs h q)
unfolding refs store
store-refs h p v q = ground arith

store-IsFresh :
    (h : Heap) (p : ℕ) (v : Option Nexthop) → IsFresh h → p < h.next → IsFresh (store h p v)
unfolding store
store-IsFresh h p v f k q le = ground (arith, f q)

live_below : (h : Heap) (p : ℕ) (nh : Nexthop) → IsFresh h → h.cell p ≡ some nh → p < h.next
live_below h p nh f e = ground (arith, f p)

abbrev kept_of : Nexthop → Option Nexthop
kept_of nh =
    if nh.ref_count - 1 == 0 then none else some (record nh { ref_count = nh.ref_count - 1 })

count_of-kept_of : (nh : Nexthop) → count_of (kept_of nh) ≡ nh.ref_count - 1
count_of-kept_of nh = ground arith

refs_at : (h : Heap) (p : ℕ) (nh : Nexthop) → h.cell p ≡ some nh → refs h p ≡ nh.ref_count
unfolding refs
refs_at h p nh e = rw e refl

pub one_self : (p : ℕ) → one p p ≡ 1
one_self p = ground arith

release-at :
    (h : Heap) (p : ℕ) (nh : Nexthop)
    → h.cell p ≡ some nh
    → 0 < nh.ref_count
    → release h p ≡ some (store h p (kept_of nh))
unfolding release
release-at h p nh e k = rw e (ground arith)

-- what a store of `p` does to the counts, in the two directions
store-less :
    (h : Heap) (p : ℕ) (v : Option Nexthop) (q : ℕ)
    → count_of v + 1 ≡ refs h p
    → refs (store h p v) q + one q p ≡ refs h q
store-less h p v q e = elim (Bool-cases (q == p)) [
  | inl y ↦ ground (arith, store-refs h p v q, (==_iff q p).0 y, ap (refs h) ((==_iff q p).0 y))
  | inr y ↦ ground (arith, store-refs h p v q)
]

store-more :
    (h : Heap) (p : ℕ) (v : Option Nexthop) (q : ℕ)
    → count_of v ≡ refs h p + 1
    → refs (store h p v) q ≡ refs h q + one q p
store-more h p v q e = elim (Bool-cases (q == p)) [
  | inl y ↦ ground (arith, store-refs h p v q, (==_iff q p).0 y, ap (refs h) ((==_iff q p).0 y))
  | inr y ↦ ground (arith, store-refs h p v q)
]

release_total :
    (h : Heap) (p : ℕ)
    → IsFresh h
    → 0 < refs h p
    → (g : Heap) × (release h p ≡ some g) × IsFresh g × ((q : ℕ) → refs g q + one q p ≡ refs h q)
release_total h p f k =
    let (nh, e) = live h p k in
    let r : refs h p ≡ nh.ref_count = refs_at h p nh e in
    (
      store h p (kept_of nh),
      release-at h p nh e (omega (arith, r)),
      store-IsFresh h p (kept_of nh) f (live_below h p nh f e),
      λ q. store-less h p (kept_of nh) q (omega (arith, count_of-kept_of nh, r)),
    )

retain_total :
    (h : Heap) (p : ℕ) (nh : Nexthop)
    → IsFresh h
    → h.cell p ≡ some nh
    → (g : Heap) × (retain h p ≡ some g) × IsFresh g × ((q : ℕ) → refs g q ≡ refs h q + one q p)
unfolding retain
retain_total h p nh f e =
    let more : Option Nexthop = some (record nh { ref_count = nh.ref_count + 1 }) in
    (
      store h p more,
      rw e refl,
      store-IsFresh h p more f (live_below h p nh f e),
      λ q. store-more h p more q (omega (arith, refs_at h p nh e)),
    )

-- On slots that the counts cover, the flush fails nowhere and gives back one count for each slot.
pub flush_total :
    (h : Heap) (a : Hops)
    → IsFresh h
    → IsCovered h a
    → (g : Heap) × (spf_flush_nexthops h a ≡ some g)
      × IsFresh g
      × ((q : ℕ) → refs g q + occ q a ≡ refs h q)
unfolding spf_flush_nexthops occ
flush_total h [] f c = (h, refl, f, λ q. omega arith)
flush_total h (none ∷ a) f c = flush_total h a f c
flush_total h (some p ∷ a) f c =
    let (g, e, f', r) = release_total h p f (omega (arith, one_self p, c p)) in
    let (g', e', f'', r') = flush_total g a f' (λ q. omega (arith, r q, c q)) in
    (g', rw e e', f'', λ q. omega (arith, r q, r' q))

exist_total :
    (h : Heap) (a : Hops) (p : ℕ)
    → IsCovered h a
    → 0 < refs h p
    → (b : Bool) × (spf_is_nexthop_exist h a p ≡ some b)
unfolding spf_is_nexthop_exist occ
exist_total h [] p c k = (false, refl)
exist_total h (none ∷ a) p c k = exist_total h a p c k
exist_total h (some q ∷ a) p c k =
    let (nh, e) = live h p k in
    let (mh, e') = live h q (omega (arith, one_self q, c q)) in
    let (b, rest) = exist_total h a p (λ r. omega (arith, c r)) k in
    elim (Bool-cases (mh.oif == nh.oif)) [
      | inl y ↦ (true, rw (e', e, y) refl)
      | inr y ↦ (b, rw (e', e, y) rest)
    ]

occ-set : (q : ℕ) (a : Hops) (j p : ℕ) → occ q (set a j (some p)) ≤ occ q a + one q p
unfolding occ
occ-set q [] j p = omega arith
occ-set q (none ∷ a) zero p = omega arith
occ-set q (some r ∷ a) zero p = omega arith
occ-set q (none ∷ a) (suc j) p = occ-set q a j p
occ-set q (some r ∷ a) (suc j) p = omega (arith, occ-set q a j p)

-- What a union and an insertion promise: no count goes down, and every new slot is counted.
abbrev pub Adds : Heap → Hops → Heap → Hops → Type 0
Adds h a g b =
    IsFresh g
    × ((q : ℕ) → refs h q ≤ refs g q)
    × ((q : ℕ) → occ q b + refs h q ≤ refs g q + occ q a)

union_from_total :
    (h : Heap) (src : Hops) (j : ℕ) (dst : Hops)
    → IsFresh h
    → IsCovered h src
    → IsCovered h dst
    → (g : Heap) × (d : Hops) × (union_from h src j dst ≡ some (g, d)) × Adds h dst g d
unfolding union_from occ
union_from_total h [] j dst f cs cd = (h, dst, refl, (f, λ q. omega arith, λ q. omega arith))
union_from_total h (none ∷ src) j dst f cs cd = union_from_total h src (suc j) dst f cs cd
union_from_total h (some p ∷ src) j dst f cs cd =
    let k : 0 < refs h p = omega (arith, one_self p, cs p) in
    let (nh, e) = live h p k in
    let (b, found) = exist_total h dst p cd k in
    elim (Bool-cases (ltb j max_nxt_hops)) [
      | inr y ↦ (h, dst, rw y refl, (f, λ q. omega arith, λ q. omega arith))
      | inl y ↦ elim (Bool-cases b) [
        | inl old ↦
            let (g, d, e', rest) =
              union_from_total h src (suc j) dst f (λ q. omega (arith, cs q)) cd in
            (g, d, rw (y, found, old) e', rest)
        | inr new ↦
            let (h', e₁, f₁, r) = retain_total h p nh f e in
            let (g, d, e', (f', up, count)) =
              union_from_total h' src (suc j) (set dst j (some p)) f₁
                (λ q. omega (arith, cs q, r q))
                (λ q. omega (arith, cd q, r q, occ-set q dst j p)) in
            (
              g,
              d,
              rw (y, found, new, e₁) e',
              (
                f',
                λ q. omega (arith, r q, up q),
                λ q. omega (arith, r q, count q, occ-set q dst j p),
              ),
            )
      ]
    ]

pub union_total :
    (h : Heap) (src dst : Hops)
    → IsFresh h
    → IsCovered h src
    → IsCovered h dst
    → (g : Heap) × (d : Hops) × (spf_union_nexthops_arrays h src dst ≡ some (g, d)) × Adds h dst g d
unfolding spf_union_nexthops_arrays
union_total h src dst = union_from_total h src (first_empty dst 0) dst

insert_total :
    (h : Heap) (a : Hops) (p : ℕ) (nh : Nexthop)
    → IsFresh h
    → h.cell p ≡ some nh
    → (g : Heap) × (b : Hops) × (spf_insert_new_nexthop h a p ≡ some (g, b)) × Adds h a g b
unfolding spf_insert_new_nexthop occ
insert_total h [] p nh f e = (h, [], refl, (f, λ q. omega arith, λ q. omega arith))
insert_total h (none ∷ a) p nh f e =
    let (g, e', f', r) = retain_total h p nh f e in
    (g, some p ∷ a, rw e' refl, (f', λ q. omega (arith, r q), λ q. omega (arith, r q)))
insert_total h (some r ∷ a) p nh f e =
    let (g, b, e', (f', up, count)) = insert_total h a p nh f e in
    (g, some r ∷ b, rw e' refl, (f', up, λ q. omega (arith, count q)))

created :
    (h : Heap) (l : Link)
    → IsFresh h
    → IsFresh (create_new_nexthop h l).0
      × ((nh : Nexthop) × ((create_new_nexthop h l).0.cell (create_new_nexthop h l).1 ≡ some nh))
      × ((q : ℕ) → refs (create_new_nexthop h l).0 q ≡ refs h q)
unfolding create_new_nexthop store refs
created h l f = (
  λ q k. ground (arith, f q),
  (nexthop_through l, rw (==_refl h.next) refl),
  λ q. ground (arith, f q),
)

-- A new nexthop that is put into an array counts its slot.
pub insert_new_total :
    (h : Heap) (a : Hops) (l : Link)
    → IsFresh h
    → (g : Heap) × (b : Hops) × (spf_insert_new_nexthop
          (create_new_nexthop h l).0
          a
          (create_new_nexthop h l).1
        ≡ some (g, b))
      × Adds h a g b
insert_new_total h a l f =
    let (f₁, (nh, e), same) = created h l f in
    let (g, b, e', (f', up, count)) =
      insert_total (create_new_nexthop h l).0 a (create_new_nexthop h l).1 nh f₁ e in
    (g, b, e', (f', λ q. omega (arith, same q, up q), λ q. omega (arith, same q, count q)))
