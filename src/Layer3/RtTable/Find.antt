-- ===== src/Layer3/RtTable/Find.antt =====
-- The lookup in a list of routes after one of them has been added, changed or removed.
use networking_protocol_deve.Base.{
  ℕ, ◌+◌, ◌≡◌, refl, sym, Bool, true, false, ◌&&◌, Option, none, some, List, [], ◌∷◌, ◌==◌, arith,
  ==_refl, length,
}
use networking_protocol_deve.Base.CString.{
  Chars, strncmp_eq, strncmp_eq_refl, strncmp_eq-congr, strncmp_eq_comm, prefix,
}
use networking_protocol_deve.Layer3.RtTable.{
  Route, RtTable, has_key, find_route, update_route, remove_route, new_route, with_nexthop,
  add_new_route, add_to_route, add_found,
}
use networking_protocol_deve.Layer3.Nexthops.{
  Nexthop, l3_route_insert_nexthop, sift_left, goes_before, scan_nexthops, duplicate, no_slot,
  free_slot,
}

abbrev pub same_key : Chars → ℕ → Chars → ℕ → Bool
same_key k m k' m' = strncmp_eq 16 k k' && m == m'

module _ (k : Chars) (m : ℕ) where
  other_key :
      (k' : Chars) (m' : ℕ) (r : Route)
      → same_key k m k' m' ≡ false
      → has_key k m r ≡ true
      → has_key k' m' r ≡ false
  other_key k' m' r n h =
      ground (arith, strncmp_eq-congr 16 k r.dest k', strncmp_eq_comm 16 k' r.dest)

  update-find_ne :
      (k' : Chars) (m' : ℕ) (change : Route → Route) (rs : List Route)
      → ((r : Route) → ((change r).dest ≡ r.dest) × ((change r).mask ≡ r.mask))
      → same_key k m k' m' ≡ false
      → find_route (update_route rs k m change) k' m' ≡ find_route rs k' m'
  unfolding find_route update_route
  update-find_ne k' m' change [] keeps n = refl
  update-find_ne k' m' change (r ∷ rs) keeps n =
      ground (arith, other_key k' m' r n, keeps r, update-find_ne k' m' change rs keeps n)

  update-find_self :
      (change : Route → Route) (rs : List Route) (r : Route)
      → ((x : Route) → ((change x).dest ≡ x.dest) × ((change x).mask ≡ x.mask))
      → find_route rs k m ≡ some r
      → find_route (update_route rs k m change) k m ≡ some (change r)
  unfolding find_route update_route
  update-find_self change [] r keeps e = cc
  update-find_self change (x ∷ rs) r keeps e =
      ground (arith, keeps x, update-find_self change rs r keeps)

  pub remove-find_ne :
      (k' : Chars) (m' : ℕ) (rs : List Route)
      → same_key k m k' m' ≡ false
      → find_route (remove_route rs k m) k' m' ≡ find_route rs k' m'
  unfolding find_route remove_route
  remove-find_ne k' m' [] n = refl
  remove-find_ne k' m' (r ∷ rs) n = ground (arith, other_key k' m' r n, remove-find_ne k' m' rs n)

pub remove-length :
    (k : Chars) (m : ℕ) (rs : List Route) (r : Route)
    → find_route rs k m ≡ some r
    → length (remove_route rs k m) + 1 ≡ length rs
unfolding find_route remove_route
remove-length k m [] r f = ground arith
remove-length k m (x ∷ rs) r f = ground (arith, remove-length k m rs r)

with_nexthop_key :
    (gw : Chars) (oif metric : ℕ) (r : Route)
    → ((with_nexthop r gw oif metric).dest ≡ r.dest)
      × ((with_nexthop r gw oif metric).mask ≡ r.mask)
unfolding with_nexthop
with_nexthop_key gw oif metric r = (refl, refl)

new_key :
    (t : RtTable) (k : Chars) (m : ℕ) (via : Option (Chars × ℕ)) (metric : ℕ)
    → (r : Route) × ((add_new_route t k m via metric).routes ≡ r ∷ t.routes)
      × (r.dest ≡ prefix 15 k)
      × (r.mask ≡ m)
unfolding add_new_route new_route with_nexthop
new_key t k m none metric = (new_route k m, refl, refl, refl)
new_key t k m (some (gw, oif)) metric =
    (with_nexthop (new_route k m) gw oif metric, refl, refl, refl)

add_new-find_ne :
    (t : RtTable) (k k' : Chars) (m m' : ℕ) (via : Option (Chars × ℕ)) (metric : ℕ)
    → prefix 15 k ≡ k
    → same_key k m k' m' ≡ false
    → find_route (add_new_route t k m via metric).routes k' m' ≡ find_route t.routes k' m'
unfolding find_route
add_new-find_ne t k k' m m' via metric p n =
    let (r, e, d, q) = new_key t k m via metric in
    let self : strncmp_eq 16 k r.dest ≡ true = rw (d, p) (strncmp_eq_refl 16 k) in
    rw (e, other_key k m k' m' r n (rw (self, q) (==_refl m))) refl

-- the nexthop that a route is given, with its count
abbrev pub given_nexthop : Chars → ℕ → ℕ → Nexthop
given_nexthop gw oif count = record {
  gw_ip = prefix 15 gw;
  oif = oif;
  ref_count = count;
  ifindex = 0;
  hit_count = 0;
}

-- The route that an addition leaves for its key, by the route that was there: a new one has the
-- nexthop given alone, or is direct; an old one is given the nexthop unless it has it or is full.
abbrev pub added_route : Chars → ℕ → Option (Chars × ℕ) → ℕ → Option Route → Route
added_route k m none metric none = record {
  dest = k;
  mask = m;
  is_direct = true;
  nexthops = none ∷ none ∷ none ∷ none ∷ [];
  spf_metric = 0;
  nxthop_idx = 0;
}
added_route k m (some (gw, oif)) metric none = record {
  dest = k;
  mask = m;
  is_direct = false;
  nexthops = some (given_nexthop gw oif 1) ∷ none ∷ none ∷ none ∷ [];
  spf_metric = metric;
  nxthop_idx = 0;
}
added_route k m none metric (some r) = r
added_route k m (some (gw, oif)) metric (some r) = elim (scan_nexthops gw oif r.nexthops) [
  | duplicate ↦ r
  | no_slot ↦ r
  | free_slot ↦ record r {
    is_direct = false;
    spf_metric = metric;
    nexthops = (l3_route_insert_nexthop r.nexthops (given_nexthop gw oif 0)).0;
  }
]

add_new-find_self :
    (t : RtTable) (k : Chars) (m : ℕ) (via : Option (Chars × ℕ)) (metric : ℕ)
    → prefix 15 k ≡ k
    → find_route (add_new_route t k m via metric).routes k m
      ≡ some (added_route k m via metric none)
unfolding find_route add_new_route new_route with_nexthop l3_route_insert_nexthop sift_left
    goes_before
add_new-find_self t k m none metric p = rw (p, strncmp_eq_refl 16 k, ==_refl m) refl
add_new-find_self t k m (some (gw, oif)) metric p = rw (p, strncmp_eq_refl 16 k, ==_refl m) refl

add_to-find_ne :
    (t t' : RtTable) (k k' : Chars) (m m' : ℕ) (r : Route) (via : Option (Chars × ℕ)) (metric : ℕ)
    → add_to_route t k m r via metric ≡ some t'
    → same_key k m k' m' ≡ false
    → find_route t'.routes k' m' ≡ find_route t.routes k' m'
unfolding add_to_route
add_to-find_ne t t' k k' m m' r none metric e n = ground arith
add_to-find_ne t t' k k' m m' r (some (gw, oif)) metric e n =
    let other =
      update-find_ne k m k' m' (λ x. with_nexthop x gw oif metric) t.routes
        (with_nexthop_key gw oif metric) n in
    ground (arith, other)

add_to-find_self :
    (t t' : RtTable) (k : Chars) (m : ℕ) (r : Route) (via : Option (Chars × ℕ)) (metric : ℕ)
    → add_to_route t k m r via metric ≡ some t'
    → find_route t.routes k m ≡ some r
    → find_route t'.routes k m ≡ some (added_route k m via metric (some r))
unfolding add_to_route with_nexthop
add_to-find_self t t' k m r none metric e f = ground arith
add_to-find_self t t' k m r (some (gw, oif)) metric e f =
    let self =
      update-find_self k m (λ x. with_nexthop x gw oif metric) t.routes r
        (with_nexthop_key gw oif metric) f in
    ground (arith, self)

pub add_found-find :
    (t t' : RtTable) (k : Chars) (m : ℕ) (via : Option (Chars × ℕ)) (metric : ℕ)
    (found : Option Route)
    → prefix 15 k ≡ k
    → find_route t.routes k m ≡ found
    → add_found t k k m via metric found ≡ some t'
    → (find_route t'.routes k m ≡ some (added_route k m via metric found))
      × ((k' : Chars) (m' : ℕ)
          → same_key k m k' m' ≡ false
          → find_route t'.routes k' m' ≡ find_route t.routes k' m')
unfolding add_found
add_found-find t t' k m via metric none p f e =
    let same : add_new_route t k m via metric ≡ t' = ground arith in
    rw (sym same)
      (add_new-find_self t k m via metric p, λ k' m' n. add_new-find_ne t k k' m m' via metric p n)
add_found-find t t' k m via metric (some r) p f e = (
  add_to-find_self t t' k m r via metric e f,
  λ k' m' n. add_to-find_ne t t' k k' m m' r via metric e n,
)
