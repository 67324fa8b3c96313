-- ===== src/Layer2/Arp/Resolve/Idle.antt =====
-- Packets wait at entries that are not full, and nowhere else.
use networking_protocol_deve.Base.{
  ◌≡◌, refl, sym, inl, inr, true, false, Option, none, some, List, [], ◌∷◌, ◌==◌, arith, All,
  Bool-cases, Option-cases, if◌then◌else◌,
}
use networking_protocol_deve.Base.CString.{Chars}
use networking_protocol_deve.Net.{Interface}
use networking_protocol_deve.Layer2.Arp.{
  ArpEntry, ArpPending, ArpTable, Added, has_ip, arp_table_lookup, update_arp_entry,
  delete_arp_entry, resolved, with_pending, start_timer, store_arp_entry, arp_table_entry_add,
}
use networking_protocol_deve.Layer2.Arp.Resolve.{
  ArpReply, arp_reply, entry_of_reply, settled, arp_table_update_from_arp_reply,
  create_arp_sane_entry, add_arp_pending_entry, new_sane_entry,
}

abbrev pub Idle : ArpEntry → Type 0
Idle e = e.is_sane ≡ false → e.arp_pending_list ≡ []

-- packets wait only at the entries that are not full
abbrev pub IdleTable : ArpTable → Type 0
IdleTable t = All Idle t

update-All :
    (k : Chars) (change : ArpEntry → ArpEntry) (t : ArpTable)
    → ((e : ArpEntry) → arp_table_lookup t k ≡ some e → Idle (change e))
    → IdleTable t
    → IdleTable (update_arp_entry t k change)
unfolding arp_table_lookup update_arp_entry
update-All k change [] h i = tt
update-All k change (x ∷ t) h i = elim (Bool-cases (has_ip k x)) [
  | inl y ↦ rw y (h x (rw y refl), i.1)
  | inr n ↦ rw n (i.0, update-All k change t (λ e f. h e (rw n f)) i.1)
]

delete-IdleTable : (k : Chars) (t : ArpTable) → IdleTable t → IdleTable (delete_arp_entry t k)
unfolding delete_arp_entry
delete-IdleTable k [] i = tt
delete-IdleTable k (x ∷ t) i = elim (Bool-cases (has_ip k x)) [
  | inl y ↦ rw y i.1
  | inr n ↦ rw n (i.0, delete-IdleTable k t i.1)
]

start_timer-Idle : (e : ArpEntry) → Idle e → Idle (start_timer e)
unfolding start_timer
start_timer-Idle e i = ground arith

store-IdleTable :
    (o : Option ArpEntry) (t : ArpTable) (e : ArpEntry) (a : Added)
    → arp_table_lookup t e.ip_addr ≡ o
    → store_arp_entry o t e ≡ some a
    → Idle e
    → IdleTable t
    → IdleTable a.table
unfolding store_arp_entry with_pending resolved
store-IdleTable none t e a f s i h = ground (arith, start_timer-Idle e i)
store-IdleTable (some old) t e a f s i h =
    let gone = delete-IdleTable e.ip_addr t h in
    let new = start_timer-Idle e i in
    let joined = update-All e.ip_addr (with_pending e.arp_pending_list) t in
    let filled = update-All e.ip_addr (resolved e) t in
    elim (Bool-cases old.is_sane) [
      | inl y ↦
          let waits : (x : ArpEntry) → arp_table_lookup t e.ip_addr ≡ some x → x.is_sane ≡ true =
            λ x g. ground arith in
          let joined' = joined (λ x g z. absurd (ground (arith, waits x g))) h in
          let filled' = filled (λ x g z. absurd (ground (arith, waits x g))) h in ground arith
      | inr n ↦ ground arith
    ]

add-IdleTable :
    (t : ArpTable) (e : ArpEntry) (a : Added)
    → arp_table_entry_add t e ≡ some a
    → Idle e
    → IdleTable t
    → IdleTable a.table
unfolding arp_table_entry_add
add-IdleTable t e a s i h = store-IdleTable (arp_table_lookup t e.ip_addr) t e a refl s i h

create_new :
    (a : Option Added) (t' : ArpTable)
    → (elim a as (λ _. Option ArpTable) [
      | none ↦ none
      | some b ↦ if b.rc then some b.table else none
    ])
      ≡ some t'
    → (b : Added) × (a ≡ some b) × (b.table ≡ t')
create_new none t' s = ground arith
create_new (some b) t' s = (b, refl, ground arith)

-- `create_arp_sane_entry` keeps it that packets wait only at entries that are not full.
pub create-IdleTable :
    (t t' : ArpTable) (ip : Chars) (p : ArpPending)
    → create_arp_sane_entry t ip p ≡ some t'
    → IdleTable t
    → IdleTable t'
unfolding create_arp_sane_entry add_arp_pending_entry new_sane_entry
create-IdleTable t t' ip p s h = elim (Option-cases (arp_table_lookup t ip)) [
  | inl f ↦
      let (a, d, q) =
        create_new (arp_table_entry_add t (new_sane_entry ip p)) t'
          (rw (f, create_arp_sane_entry) at s) in
      rw (sym q) (add-IdleTable t (new_sane_entry ip p) a d (λ z. absurd (ground arith)) h)
  | inr (e, f) ↦ elim (Bool-cases e.is_sane) [
    | inl y ↦
        let same : update_arp_entry t ip (add_arp_pending_entry p) ≡ t' = ground arith in
        rw (sym same) (update-All ip (add_arp_pending_entry p) t (λ x g z. absurd (ground arith)) h)
    | inr n ↦ absurd (ground arith)
  ]
]

reply_done :
    (t' : ArpTable) (e : ArpEntry) (a : Added) (out outs : List ArpPending)
    (sent kept : Option (ArpTable × List ArpPending))
    → sent ≡ some (update_arp_entry a.table e.ip_addr settled, out)
    → kept ≡ some (a.table, [])
    → (if a.pending then sent else kept) ≡ some (t', outs)
    → IdleTable a.table
    → IdleTable t'
reply_done t' e a out outs sent kept p q s h =
    let rested = update-All e.ip_addr settled a.table (λ x g z. refl) h in ground arith

-- A reply keeps it that packets wait only at entries that are not full.
pub reply-IdleTable :
    (t t' : ArpTable) (r : ArpReply) (iif : Interface) (outs : List ArpPending)
    → arp_table_update_from_arp_reply t r iif ≡ some (t', outs)
    → IdleTable t
    → IdleTable t'
unfolding arp_table_update_from_arp_reply entry_of_reply
reply-IdleTable t t' r iif outs s h = elim (Bool-cases (r.op_code == arp_reply)) [
  | inr n ↦ absurd (ground arith)
  | inl y ↦ elim (Option-cases (arp_table_entry_add t (entry_of_reply r iif))) [
    | inl f ↦ absurd (ground arith)
    | inr (a, f) ↦
        reply_done t' (entry_of_reply r iif) a _ outs _ _ refl refl (rw (y, f) at s)
          (add-IdleTable t (entry_of_reply r iif) a f (λ z. refl) h)
  ]
]
