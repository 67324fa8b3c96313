-- ===== src/Layer3/RtTable/Lpm.antt =====
-- Longest prefix match: what `l3rib_lookup_lpm` returns.
use networking_protocol_deve.Base.{
  ℕ, zero, suc, ◌^◌, ◌<◌, ◌≤◌, ◌≡◌, refl, ap, ◌∙◌, ◌⊎◌, inl, inr, true, false, ◌&&◌, none, some,
  List, [], ◌∷◌, ◌++◌, arith, length, get_elem?, Bool-cases, ltb,
}
use networking_protocol_deve.Base.CString.{Chars, strncmp_eq, strncmp_eq_refl}
use networking_protocol_deve.Net.Ip.{tcp_ip_covert_ip_n_to_p, apply_mask}
use networking_protocol_deve.Net.Ip.RoundTrip.{network, apply_mask-ntop, prefix-ntop}
use networking_protocol_deve.Layer3.RtTable.{
  Route, RtTable, Best, is_default, lpm_match, lpm_round, lpm_loop, l3rib_lookup_lpm,
}

module _ (shift_32 : ℕ → ℕ) (s : Chars) where
  -- a route that the loop may choose
  abbrev Candidate : Route → Type 0
  Candidate r = (is_default r ≡ false) × (lpm_match shift_32 s r ≡ true)

  round_grows :
      (r : Route) (best : Best) → best.longest_mask ≤ (lpm_round shift_32 s r best).longest_mask
  unfolding lpm_round
  round_grows r best = ground arith

  round_longest :
      (r : Route) (best : Best) → Candidate r → r.mask ≤ (lpm_round shift_32 s r best).longest_mask
  unfolding lpm_round
  round_longest r best h = ground arith

  loop_grows :
      (rs : List Route) (best : Best)
      → best.longest_mask ≤ (lpm_loop shift_32 s rs best).longest_mask
  unfolding lpm_loop
  loop_grows [] best = omega arith
  loop_grows (r ∷ rs) best =
      omega (arith, round_grows r best, loop_grows rs (lpm_round shift_32 s r best))

  loop_longest :
      (rs : List Route) (best : Best) (i : ℕ) (q : Route)
      → get_elem? rs i ≡ some q
      → Candidate q
      → q.mask ≤ (lpm_loop shift_32 s rs best).longest_mask
  unfolding lpm_loop
  loop_longest [] best i q e h = ground arith
  loop_longest (r ∷ rs) best zero q e h =
      let same : r ≡ q = ground arith in
      let now : r.mask ≤ (lpm_round shift_32 s r best).longest_mask =
        round_longest r best (rw same h) in
      omega (arith, ap (λ x. x.mask) same, now, loop_grows rs (lpm_round shift_32 s r best))
  loop_longest (r ∷ rs) best (suc i) q e h =
      loop_longest rs (lpm_round shift_32 s r best) i q (ground arith) h

  -- the route kept has the longest mask so far, and has `P`
  abbrev Kept : (Route → Type 0) → Best → Type 0
  Kept P best =
      ((best.longest_mask ≡ 0) × (best.lpm_l3_route ≡ none))
      ⊎ ((r : Route) × (best.lpm_l3_route ≡ some r) × (r.mask ≡ best.longest_mask) × P r)

  round-Kept :
      (P : Route → Type 0) (r : Route) (best : Best)
      → (Candidate r → P r)
      → Kept P best
      → Kept P (lpm_round shift_32 s r best)
  unfolding lpm_round
  round-Kept P r best h k = elim (Bool-cases (is_default r)) [
    | inl d ↦ rw d k
    | inr n ↦ elim (Bool-cases (lpm_match shift_32 s r && ltb best.longest_mask r.mask)) [
      | inl m ↦ rw (n, m) (inr (r, refl, refl, h (n, ground arith)))
      | inr m ↦ rw (n, m) k
    ]
  ]

  loop-Kept :
      (P : Route → Type 0) (rs : List Route) (best : Best)
      → ((i : ℕ) (r : Route) → get_elem? rs i ≡ some r → Candidate r → P r)
      → Kept P best
      → Kept P (lpm_loop shift_32 s rs best)
  unfolding lpm_loop
  loop-Kept P [] best h k = k
  loop-Kept P (r ∷ rs) best h k =
      loop-Kept P rs (lpm_round shift_32 s r best) (λ i. h (suc i))
        (round-Kept P r best (h 0 r refl) k)

covers-match :
    (shift_32 : ℕ → ℕ) (y : ℕ) (q : Route)
    → y < 2 ^ 32
    → 1 ≤ q.mask
    → q.mask ≤ 32
    → q.dest ≡ tcp_ip_covert_ip_n_to_p (network y q.mask)
    → Candidate shift_32 (tcp_ip_covert_ip_n_to_p y) q
unfolding lpm_match
covers-match shift_32 y q h lo hi e = (
  ground arith,
  simp (apply_mask-ntop shift_32 y q.mask h lo hi, e)
      (strncmp_eq_refl (length (tcp_ip_covert_ip_n_to_p (network y q.mask)))
        (tcp_ip_covert_ip_n_to_p (network y q.mask))),
)

-- When a route of the table covers an address (its destination is the text of the address's network
-- under its mask, from 1 to 32), `l3rib_lookup_lpm` returns a route of the table for the address, not
-- the default route, whose masked text test succeeds, and no covering route of the table has a longer
-- mask than the route returned.
pub lookup_lpm_longest :
    (shift_32 : ℕ → ℕ) (t : RtTable) (y i : ℕ) (q : Route)
    → y < 2 ^ 32
    → get_elem? t.routes i ≡ some q
    → 1 ≤ q.mask
    → q.mask ≤ 32
    → q.dest ≡ tcp_ip_covert_ip_n_to_p (network y q.mask)
    → (r : Route) × (l3rib_lookup_lpm shift_32 t y ≡ some r)
      × (is_default r ≡ false)
      × (lpm_match shift_32 (tcp_ip_covert_ip_n_to_p y) r ≡ true)
      × ((j : ℕ) × (get_elem? t.routes j ≡ some r))
      × ((k : ℕ) (p : Route)
          → get_elem? t.routes k ≡ some p
          → 1 ≤ p.mask
          → p.mask ≤ 32
          → p.dest ≡ tcp_ip_covert_ip_n_to_p (network y p.mask)
          → p.mask ≤ r.mask)
unfolding l3rib_lookup_lpm
lookup_lpm_longest shift_32 t y i q h e lo hi c =
    let s : Chars = tcp_ip_covert_ip_n_to_p y in
    let start : Best = record { longest_mask = 0; lpm_l3_route = none; default_l3_rt = none } in
    let longest = loop_longest shift_32 s t.routes start in
    elim (loop-Kept shift_32 s
      (λ r. Candidate shift_32 s r × ((j : ℕ) × (get_elem? t.routes j ≡ some r))) t.routes start
      (λ j r at m. (m, (j, at))) (inl (refl, refl))) [
        | inl (z, n) ↦
            absurd (omega (arith, z, lo, longest i q e (covers-match shift_32 y q h lo hi c)))
        | inr (r, f, m, ((d, w), j)) ↦ (
          r,
          rw (f, l3rib_lookup_lpm) refl,
          d,
          w,
          j,
          λ k p at lo' hi' c'.
              omega (arith, m, longest k p at (covers-match shift_32 y p h lo' hi' c')),
        )
      ]

strncmp_eq-append : (s t : Chars) → strncmp_eq (length s) s (s ++ t) ≡ true
unfolding strncmp_eq
strncmp_eq-append [] t = refl
strncmp_eq-append (c ∷ s) t = ground (arith, strncmp_eq-append s t)

-- A route to one host is taken for every address whose text its destination starts with: where it is
-- the only route, `l3rib_lookup_lpm` returns it for that address, too.
pub lookup_lpm-text_prefix :
    (shift_32 : ℕ → ℕ) (t : RtTable) (y : ℕ) (suffix : Chars) (r : Route)
    → t.routes ≡ r ∷ []
    → r.mask ≡ 32
    → r.dest ≡ tcp_ip_covert_ip_n_to_p y ++ suffix
    → l3rib_lookup_lpm shift_32 t y ≡ some r
unfolding l3rib_lookup_lpm lpm_loop lpm_round
lookup_lpm-text_prefix shift_32 t y suffix r only m d =
    let s : Chars = tcp_ip_covert_ip_n_to_p y in
    let subnet : apply_mask shift_32 s r.mask ≡ s =
      ap (apply_mask shift_32 s) m ∙ (unfold apply_mask in prefix-ntop 15 y (omega arith)) in
    let matches : lpm_match shift_32 s r ≡ true =
      (unfold lpm_match in
        ap (λ x. strncmp_eq (length x) x r.dest) subnet
        ∙ ap (λ x. strncmp_eq (length s) s x) d
        ∙ strncmp_eq-append s suffix) in
    let not_default : is_default r ≡ false = ground arith in
    let longer : ltb 0 r.mask ≡ true = ground arith in
    rw only (ground (arith, matches, not_default, longer))
