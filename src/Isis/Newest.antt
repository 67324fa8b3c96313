-- ===== src/Isis/Newest.antt =====
-- Layer5/isis/isis_lspdb.c: the database keeps the newest LSP of every other node.
use networking_protocol_deve.Base.{
  ℕ, suc, ◌≡◌, refl, sym, ap, ◌∙◌, true, false, Option, none, some, ◌==◌, ltb, if◌then◌else◌, put,
  put_self, Bool-cases, inl, inr, arith, ==_iff,
}
use networking_protocol_deve.Isis.Lspdb.{
  LspEvent, non_local_duplicate_lsp, non_local_fresh_lsp, non_local_new_lsp, non_local_old_lsp,
  schedule_lsp_flood, queue_for_transmission, LspHdr, LspPkt, LspNode, ask, is_purge, isis_our_lsp,
  insert_absent, isis_add_lsp_pkt_in_lspdb, isis_remove_lsp_pkt_from_lspdb, installed, drop_old,
  install_remote,
}

-- The packets of a database stand at their router ids and know that they are installed.
abbrev pub IsDb : (ℕ → Option LspPkt) → Type 0
IsDb db = (q : ℕ) (o : LspPkt) → db q ≡ some o → (o.hdr.rtr_id ≡ q) × (o.installed_in_db ≡ true)

-- zero without a packet, and one more than its sequence number with one
abbrev pub rank : Option LspPkt → ℕ
rank none = 0
rank (some p) = suc p.hdr.seq_no

abbrev later : ℕ → ℕ → ℕ
later a b = if ltb a b then b else a

-- what one header makes of the rank at a router id
abbrev pub heard : ℕ → LspHdr → ℕ → ℕ
heard q h m = if q == h.rtr_id then later m (suc h.seq_no) else m

abbrev pub arrived : LspHdr → LspPkt
arrived h = record { hdr = h; flood_eligibility = true; installed_in_db = false }

-- the address of a node with its own LSP
abbrev pub own : LspNode → ℕ × Option LspPkt
own n = (n.lo_addr, n.self_lsp_pkt)

-- The node has generated an LSP, under its own address.
abbrev pub HasOwn : LspNode → Type 0
HasOwn n = (s : LspPkt) × (n.self_lsp_pkt ≡ some s) × (s.hdr.rtr_id ≡ n.lo_addr)

add_lem :
    (n : LspNode) (h : LspHdr)
    → isis_our_lsp n (arrived h) ≡ false
    → n.lspdb h.rtr_id ≡ none
    → ((isis_add_lsp_pkt_in_lspdb n (arrived h)).lspdb
        ≡ put n.lspdb h.rtr_id (some (installed (arrived h))))
      × (own (isis_add_lsp_pkt_in_lspdb n (arrived h)) ≡ own n)
unfolding isis_add_lsp_pkt_in_lspdb insert_absent installed ask
add_lem n h o e = (rw (e, o) refl, rw (o) refl)

drop_lem :
    (n : LspNode) (old : LspPkt)
    → old.installed_in_db ≡ true
    → ((drop_old n old).lspdb ≡ put n.lspdb old.hdr.rtr_id none) × (own (drop_old n old) ≡ own n)
unfolding drop_old isis_remove_lsp_pkt_from_lspdb ask
drop_lem n old e = (rw (e) refl, rw (e) refl)

put-IsDb :
    (db : ℕ → Option LspPkt) (h : LspHdr)
    → IsDb db
    → IsDb (put db h.rtr_id (some (installed (arrived h))))
unfolding put installed
put-IsDb db h k q o e = elim (Bool-cases (q == h.rtr_id)) [
  | inl s ↦ (ground (arith, s, e, ==_iff q h.rtr_id), ground (arith, s, e))
  | inr s ↦ k q o (ground (arith, s, e))
]

clear-IsDb : (db : ℕ → Option LspPkt) (id : ℕ) → IsDb db → IsDb (put db id none)
unfolding put
clear-IsDb db id k q o e = elim (Bool-cases (q == id)) [
  | inl s ↦ ground (arith, s, e)
  | inr s ↦ k q o (ground (arith, s, e))
]

-- what one packet makes of a node, for its own router id and for the others
abbrev Hears : LspNode → LspHdr → LspNode → Type 0
Hears n h n' =
    IsDb n'.lspdb × (own n' ≡ own n) × ((q : ℕ) → rank (n'.lspdb q) ≡ heard q h (rank (n.lspdb q)))

put-rank :
    (db : ℕ → Option LspPkt) (h : LspHdr) (q : ℕ)
    → ltb (rank (db h.rtr_id)) (suc h.seq_no) ≡ true
    → rank (put db h.rtr_id (some (installed (arrived h))) q) ≡ heard q h (rank (db q))
unfolding put installed
put-rank db h q l = elim (Bool-cases (q == h.rtr_id)) [
  | inl s ↦
      let at : q ≡ h.rtr_id = ground (arith, s) in
      let newer : ltb (rank (db q)) (suc h.seq_no) ≡ true =
        ap (λ x. ltb (rank (db x)) (suc h.seq_no)) at ∙ l in
      rw (s, newer) refl
  | inr s ↦ rw (s) refl
]

pub IsDb-moved : (db db' : ℕ → Option LspPkt) → ((q : ℕ) → db' q ≡ db q) → IsDb db → IsDb db'
IsDb-moved db db' e k q o f = k q o (sym (e q) ∙ f)

put_over :
    (db : ℕ → Option LspPkt) (id : ℕ) (v : Option LspPkt) (q : ℕ)
    → put (put db id none) id v q ≡ put db id v q
unfolding put
put_over db id v q = ground arith

-- A packet that replaces an older one, or none, is heard.
Hears-put :
    (n n' : LspNode) (h : LspHdr)
    → IsDb n.lspdb
    → own n' ≡ own n
    → ((q : ℕ) → n'.lspdb q ≡ put n.lspdb h.rtr_id (some (installed (arrived h))) q)
    → ltb (rank (n.lspdb h.rtr_id)) (suc h.seq_no) ≡ true
    → Hears n h n'
Hears-put n n' h k o e l = (
  IsDb-moved (put n.lspdb h.rtr_id (some (installed (arrived h)))) n'.lspdb e
      (put-IsDb n.lspdb h k),
  o,
  λ q. ap rank (e q) ∙ put-rank n.lspdb h q l,
)

-- A packet that is not newer than that of the database changes nothing.
Hears-kept :
    (n : LspNode) (h : LspHdr)
    → IsDb n.lspdb
    → ltb (rank (n.lspdb h.rtr_id)) (suc h.seq_no) ≡ false
    → (q : ℕ) → rank (n.lspdb q) ≡ heard q h (rank (n.lspdb q))
Hears-kept n h k l q = elim (Bool-cases (q == h.rtr_id)) [
  | inl s ↦
      let at : q ≡ h.rtr_id = ground (arith, s) in
      let older : ltb (rank (n.lspdb q)) (suc h.seq_no) ≡ false =
        ap (λ x. ltb (rank (n.lspdb x)) (suc h.seq_no)) at ∙ l in
      rw (s, older) refl
  | inr s ↦ rw (s) refl
]

pub remote_from :
    (n : LspNode) (i : ℕ) (h : LspHdr) (old : Option LspPkt)
    → IsDb n.lspdb
    → isis_our_lsp n (arrived h) ≡ false
    → is_purge (arrived h) ≡ false
    → n.lspdb h.rtr_id ≡ old
    → (n' : LspNode) × (e : LspEvent) × (install_remote n i (arrived h) old ≡ (n', e))
      × Hears n h n'
unfolding install_remote ask isis_our_lsp
remote_from n i h none k other f e =
    let (a, o) = add_lem n h other e in
    let n' =
      ask (isis_add_lsp_pkt_in_lspdb n (arrived h))
        (schedule_lsp_flood (installed (arrived h)) (some i) non_local_fresh_lsp) in
    (
      n',
      non_local_fresh_lsp,
      rw (f) refl,
      Hears-put n n' h k o (λ q. ap (λ db. db q) a)
          (ap (λ x. ltb (rank x) (suc h.seq_no)) e ∙ ground arith),
    )
remote_from n i h (some old) k other f e =
    let (id, here) = k h.rtr_id old e in
    let against : ltb (rank (n.lspdb h.rtr_id)) (suc h.seq_no)
        ≡ ltb (suc old.hdr.seq_no) (suc h.seq_no) =
      ap (λ x. ltb (rank x) (suc h.seq_no)) e in
    elim (Bool-cases (h.seq_no == old.hdr.seq_no)) [
      | inl s ↦ (
        n,
        non_local_duplicate_lsp,
        rw (s) refl,
        (k, refl, Hears-kept n h k (against ∙ ground (arith, s))),
      )
      | inr s ↦ elim (Bool-cases (ltb old.hdr.seq_no h.seq_no)) [
        | inl l ↦
            let v = some (installed (arrived h)) in
            let (b, p) = drop_lem n old here in
            let cleared : (drop_old n old).lspdb ≡ put n.lspdb h.rtr_id none =
              b ∙ ap (λ x. put n.lspdb x none) id in
            let (a, o) =
              add_lem (drop_old n old) h (ap (λ x. h.rtr_id == x.0) p ∙ other)
                (ap (λ db. db h.rtr_id) cleared ∙ put_self n.lspdb h.rtr_id none) in
            let n' =
              ask (isis_add_lsp_pkt_in_lspdb (drop_old n old) (arrived h))
                (schedule_lsp_flood (installed (arrived h)) (some i) non_local_new_lsp) in
            (
              n',
              non_local_new_lsp,
              rw (s, l, f) refl,
              Hears-put n n' h k (o ∙ p)
                  (λ q.
                    ap (λ db. db q) a
                    ∙ ap (λ db. put db h.rtr_id v q) cleared
                    ∙ put_over n.lspdb h.rtr_id v q)
                  (against ∙ ground (arith, l)),
            )
        | inr l ↦ (
          ask n (queue_for_transmission i old),
          non_local_old_lsp,
          rw (s, l) refl,
          (k, refl, Hears-kept n h k (against ∙ ground (arith, l))),
        )
      ]
    ]
