-- ===== src/Isis/Settled.antt =====
-- Layer5/isis/isis_lspdb.c: what follows the update of the database, and a new LSP as a whole.
use networking_protocol_deve.Base.{
  ℕ, Bool, ◌+◌, ◌%◌, ◌^◌, ◌||◌, put_other, ◌≡◌, refl, sym, ap, ◌∙◌, true, false, Option, none, some,
  ◌==◌, not, length, ltb, if◌then◌else◌, put, Bool-cases, inl, inr, arith, ==_iff,
}
use networking_protocol_deve.Isis.Lspdb.{
  LspEvent, self_fresh_lsp, self_duplicate_lsp, self_new_lsp, self_old_lsp, schedule_lsp_flood,
  schedule_generation, LspHdr, LspPkt, LspNode, ask, is_purge, isis_our_lsp,
  isis_lookup_lsp_from_lsdb, install_self, conclude, install_over, advance_self, flood_self,
  flood_on_demand, isis_parse_lsp_tlvs, need_spf, isis_is_lsp_diff, non_local_duplicate_lsp,
  non_local_fresh_lsp, non_local_new_lsp, non_local_old_lsp, need_on_demand_flood, on_demand_flood,
  schedule_spf_job, increment_event_count, isis_install_lsp,
}
use networking_protocol_deve.Isis.Hello.{memcmp_eq}
use networking_protocol_deve.Isis.Newest.{
  IsDb, rank, heard, arrived, own, HasOwn, IsDb-moved, remote_from,
}

own_put-IsDb :
    (db : ℕ → Option LspPkt) (p : LspPkt)
    → IsDb db
    → p.installed_in_db ≡ true
    → IsDb (put db p.hdr.rtr_id (some p))
unfolding put
own_put-IsDb db p k i q o e = elim (Bool-cases (q == p.hdr.rtr_id)) [
  | inl s ↦ (ground (arith, s, e, ==_iff q p.hdr.rtr_id), ground (arith, s, e, i))
  | inr s ↦ k q o (ground (arith, s, e))
]

written-IsDb :
    (b : Bool) (db : ℕ → Option LspPkt) (p : LspPkt)
    → IsDb db
    → p.installed_in_db ≡ b
    → IsDb (if b then put db p.hdr.rtr_id (some p) else db)
written-IsDb true db p k i = own_put-IsDb db p k i
written-IsDb false db p k i = k

written_other :
    (b : Bool) (db : ℕ → Option LspPkt) (p : LspPkt) (q : ℕ)
    → (q == p.hdr.rtr_id) ≡ false
    → (if b then put db p.hdr.rtr_id (some p) else db) q ≡ db q
written_other true db p q o = put_other db p.hdr.rtr_id q (some p) o
written_other false db p q o = refl

-- where only packets of the node itself may have changed
abbrev Settled : LspNode → LspNode → Type 0
Settled n n' =
    IsDb n'.lspdb
    × (n'.lo_addr ≡ n.lo_addr)
    × HasOwn n'
    × ((q : ℕ) → (q == n.lo_addr) ≡ false → n'.lspdb q ≡ n.lspdb q)

HasOwn-moved : (n n' : LspNode) → own n' ≡ own n → HasOwn n → HasOwn n'
HasOwn-moved n n' o (s, e, at) = (s, ap (λ x. x.1) o ∙ e, at ∙ sym (ap (λ x. x.0) o))

Settled-same :
    (n n' : LspNode) → IsDb n.lspdb → HasOwn n → n'.lspdb ≡ n.lspdb → own n' ≡ own n → Settled n n'
Settled-same n n' k w d o = (
  IsDb-moved n.lspdb n'.lspdb (λ q. ap (λ db. db q) d) k,
  ap (λ x. x.0) o,
  HasOwn-moved n n' o w,
  λ q _. ap (λ db. db q) d,
)

advance_self-Settled :
    (n : LspNode) (s : LspPkt)
    → IsDb n.lspdb
    → s.hdr.rtr_id ≡ n.lo_addr
    → Settled n (advance_self n s)
unfolding advance_self ask
advance_self-Settled n s k at =
    let s' : LspPkt = record s { hdr = record s.hdr { seq_no = (n.seq_no + 1) % 2 ^ 32 } } in
    (
      written-IsDb s.installed_in_db n.lspdb s' k refl,
      refl,
      (s', refl, at),
      λ q o. written_other s.installed_in_db n.lspdb s' q (ap (λ x. q == x) at ∙ o),
    )

schedule_generation-Settled :
    (n : LspNode) (e : LspEvent) → IsDb n.lspdb → HasOwn n → Settled n (schedule_generation n e)
unfolding schedule_generation ask
schedule_generation-Settled n e k w = elim (Bool-cases n.lsp_gen_disabled) [
  | inl d ↦ Settled-same n (schedule_generation n e) k w (rw d refl) (rw d refl)
  | inr d ↦ elim (Bool-cases n.lsp_pkt_gen_task) [
    | inl t ↦ Settled-same n (schedule_generation n e) k w (rw (d, t) refl) (rw (d, t) refl)
    | inr t ↦ Settled-same n (schedule_generation n e) k w (rw (d, t) refl) (rw (d, t) refl)
  ]
]

Settled-if :
    (b : Bool) (n x y : LspNode) → Settled n x → Settled n y → Settled n (if b then x else y)
Settled-if true n x y p q = p
Settled-if false n x y p q = q

flood_on_demand-Settled :
    (n : LspNode)
    → IsDb n.lspdb
    → HasOwn n
    → (n' : LspNode) × (flood_on_demand n n.self_lsp_pkt ≡ some n') × Settled n n'
unfolding flood_on_demand flood_self
flood_on_demand-Settled n k (s, e, at) =
    elim (Bool-cases (n.lsp_pkt_gen_task || n.reconciliation_in_progress)) [
      | inl w ↦ (n, ap (flood_on_demand n) e ∙ rw w refl, Settled-same n n k (s, e, at) refl refl)
      | inr w ↦ (
        flood_self n s,
        ap (flood_on_demand n) e ∙ rw w refl,
        Settled-if s.flood_eligibility n _ _ (advance_self-Settled n s k at)
            (schedule_generation-Settled n on_demand_flood k (s, e, at)),
      )
    ]

-- the old packet, if there is one, is of the same router
abbrev IsSameRouter : LspPkt → Option LspPkt → Type 0
IsSameRouter p old = (o : LspPkt) → old ≡ some o → o.hdr.rtr_id ≡ p.hdr.rtr_id

diff_total :
    (p : LspPkt) (old : Option LspPkt)
    → IsSameRouter p old
    → (b : Bool) × (isis_is_lsp_diff p old ≡ some b)
unfolding isis_is_lsp_diff
diff_total p none r = (true, refl)
diff_total p (some o) r =
    let same : (p.hdr.rtr_id == o.hdr.rtr_id) ≡ true = ground (arith, r o refl) in
    elim (Bool-cases (length p.hdr.tlvs == length o.hdr.tlvs)) [
      | inr l ↦ (true, rw l refl)
      | inl l ↦ elim (Bool-cases (p.hdr.flags == o.hdr.flags)) [
        | inr f ↦ (true, rw (l, same, f) refl)
        | inl f ↦ (not (memcmp_eq (length p.hdr.tlvs) p.hdr.tlvs o.hdr.tlvs), rw (l, same, f) refl)
      ]
    ]

need_spf_total :
    (p : LspPkt) (old : Option LspPkt) (e : LspEvent)
    → IsSameRouter p old
    → (b : Bool) × (need_spf p old e ≡ some b)
unfolding need_spf
need_spf_total p old self_fresh_lsp r = (true, refl)
need_spf_total p old non_local_fresh_lsp r = (true, refl)
need_spf_total p old non_local_new_lsp r = diff_total p old r
need_spf_total p old self_duplicate_lsp r = (false, refl)
need_spf_total p old self_new_lsp r = (false, refl)
need_spf_total p old self_old_lsp r = (false, refl)
need_spf_total p old non_local_duplicate_lsp r = (false, refl)
need_spf_total p old non_local_old_lsp r = (false, refl)
need_spf_total p old on_demand_flood r = (false, refl)

spf-Settled :
    (b : Bool) (n : LspNode)
    → IsDb n.lspdb
    → HasOwn n
    → Settled n (if b then ask n schedule_spf_job else n)
unfolding ask
spf-Settled true n k w = Settled-same n (ask n schedule_spf_job) k w refl refl
spf-Settled false n k w = Settled-same n n k w refl refl

Settled-trans : (x y z : LspNode) → Settled x y → Settled y z → Settled x z
Settled-trans x y z (_, lo, _, r) (k, lo', w, r') =
    (k, lo' ∙ lo, w, λ q o. r' q (ap (λ a. q == a) lo ∙ o) ∙ r q o)

parse-Settled :
    (n : LspNode) (p : LspPkt) (old : Option LspPkt) (e : LspEvent)
    → IsSameRouter p old
    → IsDb n.lspdb
    → HasOwn n
    → (n' : LspNode) × (isis_parse_lsp_tlvs n p old e ≡ some n') × Settled n n'
unfolding isis_parse_lsp_tlvs
parse-Settled n p old e r k w =
    let (b, spf) = need_spf_total p old e r in
    let n₁ = if b then ask n schedule_spf_job else n in
    let (k₁, lo₁, w₁, r₁) = spf-Settled b n k w in
    elim (Bool-cases (need_on_demand_flood p e)) [
      | inl f ↦
          let (n₂, run, at') = flood_on_demand-Settled n₁ k₁ w₁ in
          (n₂, rw (spf, f) run, Settled-trans n n₁ n₂ (k₁, lo₁, w₁, r₁) at')
      | inr f ↦ (n₁, rw (spf, f) refl, (k₁, lo₁, w₁, r₁))
    ]

conclude-Settled :
    (p : LspPkt) (old : Option LspPkt) (n : LspNode) (e : LspEvent)
    → is_purge p ≡ false
    → IsSameRouter p old
    → IsDb n.lspdb
    → HasOwn n
    → (n' : LspNode) × (conclude p old (n, e) ≡ some n') × Settled n n'
unfolding conclude ask
conclude-Settled p old n e f r k w =
    let (n', run, at) = parse-Settled (ask n (increment_event_count e)) p old e r k w in
    (n', rw f run, at)

self_total :
    (n : LspNode) (i : ℕ) (p : LspPkt) (old : Option LspPkt)
    → IsDb n.lspdb
    → HasOwn n
    → (n' : LspNode) × (e : LspEvent) × (install_self n (some i) p old ≡ some (n', e))
      × Settled n n'
unfolding install_self ask
self_total n i p none k w =
    let n₁ : LspNode = record n { seq_no = p.hdr.seq_no } in
    (
      schedule_generation n₁ self_fresh_lsp,
      self_fresh_lsp,
      refl,
      schedule_generation-Settled n₁ self_fresh_lsp k w,
    )
self_total n i p (some old) k w = elim (Bool-cases (p.hdr.seq_no == old.hdr.seq_no)) [
  | inl s ↦ (n, self_duplicate_lsp, rw (s) refl, Settled-same n n k w refl refl)
  | inr s ↦ elim (Bool-cases (ltb old.hdr.seq_no p.hdr.seq_no)) [
    | inl l ↦
        let n₁ : LspNode = record n { seq_no = p.hdr.seq_no } in
        (
          schedule_generation n₁ self_new_lsp,
          self_new_lsp,
          rw (s, l) refl,
          schedule_generation-Settled n₁ self_new_lsp k w,
        )
    | inr l ↦ (
      ask n (schedule_lsp_flood old none self_old_lsp),
      self_old_lsp,
      rw (s, l) refl,
      Settled-same n (ask n (schedule_lsp_flood old none self_old_lsp)) k w refl refl,
    )
  ]
]

-- what one packet makes of the rank at the router id of another node
pub install_total :
    (n : LspNode) (i : ℕ) (h : LspHdr)
    → IsDb n.lspdb
    → HasOwn n
    → is_purge (arrived h) ≡ false
    → (n' : LspNode) × (isis_install_lsp n (some i) (arrived h) ≡ some n')
      × IsDb n'.lspdb
      × (n'.lo_addr ≡ n.lo_addr)
      × HasOwn n'
      × ((q : ℕ) → (q == n.lo_addr) ≡ false → rank (n'.lspdb q) ≡ heard q h (rank (n.lspdb q)))
unfolding isis_install_lsp isis_our_lsp isis_lookup_lsp_from_lsdb install_over
install_total n i h k w f =
    let p = arrived h in
    let old = n.lspdb h.rtr_id in
    elim (Bool-cases (h.rtr_id == n.lo_addr)) [
      | inl mine ↦
          let (n₁, e, run, (k₁, lo₁, w₁, r₁)) = self_total n i p old k w in
          let (n₂, run', (k₂, lo₂, w₂, r₂)) =
            conclude-Settled p old n₁ e f (λ o found. (k h.rtr_id o found).0) k₁ w₁ in
          (
            n₂,
            rw (mine, run) run',
            k₂,
            lo₂ ∙ lo₁,
            w₂,
            λ q o.
                let apart : (q == h.rtr_id) ≡ false = ground (arith, mine, o) in
                ap rank (r₂ q (ap (λ x. q == x) lo₁ ∙ o) ∙ r₁ q o) ∙ rw apart refl,
          )
      | inr other ↦
          let (n₁, e, run, (k₁, own₁, r₁)) = remote_from n i h old k other f refl in
          let lo₁ : n₁.lo_addr ≡ n.lo_addr = ap (λ x. x.0) own₁ in
          let (n₂, run', (k₂, lo₂, w₂, r₂)) =
            conclude-Settled p old n₁ e f (λ o found. (k h.rtr_id o found).0) k₁
              (HasOwn-moved n n₁ own₁ w) in
          (
            n₂,
            rw (other, run) run',
            k₂,
            lo₂ ∙ lo₁,
            w₂,
            λ q o. ap rank (r₂ q (ap (λ x. q == x) lo₁ ∙ o)) ∙ r₁ q,
          )
    ]
