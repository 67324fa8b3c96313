-- ===== src/Isis/Lspdb.antt =====
-- Layer5/isis/isis_lspdb.c and isis_pkt.c: the LSP database of a node, and what a new LSP does to it.
use networking_protocol_deve.Base.{
  ℕ, suc, ◌+◌, ◌^◌, length, ◌||◌, ◌/◌, ◌%◌, Bool, true, false, not, ◌&&◌, Option, none, some, List,
  [], ◌∷◌, ◌==◌, ltb, if◌then◌else◌, ◌>>=◌, put,
}
use networking_protocol_deve.Isis.Hello.{Tlv, iterate_tlv, memcmp_eq}

pub data LspEvent : Type 0 where
  self_duplicate_lsp self_fresh_lsp self_new_lsp self_old_lsp : LspEvent
  non_local_duplicate_lsp non_local_fresh_lsp non_local_new_lsp non_local_old_lsp : LspEvent
  on_demand_flood : LspEvent

-- `isis_pkt_hdr_t`, less the type of the packet, and the bytes behind it
pub record LspHdr : Type 0 where
  pub seq_no : ℕ
  pub rtr_id : ℕ
  pub flags : ℕ
  pub tlvs : List ℕ

-- `isis_lsp_pkt_t`, less its counters; its buffer is the header with the TLVs.
pub record LspPkt : Type 0 where
  pub hdr : LspHdr
  pub flood_eligibility : Bool
  pub installed_in_db : Bool

-- What is asked of other parts, with the packets as they are then; the interface of a flood is the
-- exempted one.
pub data LspCall : Type 0 where
  schedule_lsp_flood : LspPkt → Option ℕ → LspEvent → LspCall
  create_generation_task : LspCall
  queue_for_transmission : ℕ → LspPkt → LspCall
  ted_install_lsp ted_uninstall_lsp start_installation_timer stop_installation_timer
        mark_flood_ineligible :
      LspPkt → LspCall
  ted_refresh_seq_no : ℕ → LspCall
  event_control_bit : LspEvent → LspCall
  increment_event_count : LspEvent → LspCall
  schedule_spf_job : LspCall

-- The loopback address of a node, `isis_node_info_t` with its database by router id, whether the
-- generation of LSPs is disabled, and the calls so far, the last one first. The packet of the database
-- with `installed_in_db` at the router id of `self_lsp_pkt` is `self_lsp_pkt`, where that is installed.
pub record LspNode : Type 0 where
  pub lo_addr : ℕ
  pub seq_no : ℕ
  pub lspdb : ℕ → Option LspPkt
  pub self_lsp_pkt : Option LspPkt
  pub lsp_pkt_gen_task : Bool
  pub lsp_gen_disabled : Bool
  pub reconciliation_in_progress : Bool
  pub calls : List LspCall

unfoldable pub ask : LspNode → LspCall → LspNode
ask n c = record n { calls = c ∷ n.calls }

-- while the protocol is not being shut down
unfoldable pub schedule_generation : LspNode → LspEvent → LspNode
unfolding ask
schedule_generation n e =
    if n.lsp_gen_disabled
    then n
    else (let noted = ask n (event_control_bit e) in
        if n.lsp_pkt_gen_task
        then noted
        else ask (record noted { lsp_pkt_gen_task = true }) create_generation_task)

unfoldable pub is_purge : LspPkt → Bool
is_purge p = p.hdr.flags / 2 % 2 == 1

unfoldable pub isis_our_lsp : LspNode → LspPkt → Bool
isis_our_lsp n p = p.hdr.rtr_id == n.lo_addr

unfoldable pub isis_lookup_lsp_from_lsdb : LspNode → ℕ → Option LspPkt
isis_lookup_lsp_from_lsdb n id = n.lspdb id

-- Into a tree that has the key, nothing is inserted.
unfoldable pub insert_absent : Option LspPkt → (ℕ → Option LspPkt) → LspPkt → ℕ → Option LspPkt
insert_absent none db p = put db p.hdr.rtr_id (some p)
insert_absent (some old) db p = db

-- The lifetime of 2400000 ms is whole ticks. A packet of the node itself is `self_lsp_pkt`, the only one
-- that is ever added.
unfoldable pub isis_add_lsp_pkt_in_lspdb : LspNode → LspPkt → LspNode
unfolding ask isis_our_lsp insert_absent
isis_add_lsp_pkt_in_lspdb n p =
    if p.installed_in_db
    then n
    else (let q : LspPkt = record p { installed_in_db = true } in
        let held =
          ask (record n { lspdb = insert_absent (n.lspdb p.hdr.rtr_id) n.lspdb q })
            (ted_install_lsp q) in
        if isis_our_lsp n p
        then record held { self_lsp_pkt = some q }
        else ask held (start_installation_timer q))

unfoldable pub isis_remove_lsp_pkt_from_lspdb : LspNode → LspPkt → LspNode
unfolding ask
isis_remove_lsp_pkt_from_lspdb n p =
    if not p.installed_in_db
    then n
    else (let q : LspPkt = record p { installed_in_db = false } in
        ask (ask (record n { lspdb = put n.lspdb p.hdr.rtr_id none }) (ted_uninstall_lsp q))
          (stop_installation_timer q))

-- the packet once it is in the database
unfoldable pub installed : LspPkt → LspPkt
installed p = record p { installed_in_db = true }

-- The old packet leaves the database.
unfoldable pub drop_old : LspNode → LspPkt → LspNode
unfolding ask isis_remove_lsp_pkt_from_lspdb
drop_old n old =
    ask (isis_remove_lsp_pkt_from_lspdb n old)
      (mark_flood_ineligible (record old { installed_in_db = false; flood_eligibility = false }))

-- a packet of the node itself, with the old one of the database
unfoldable pub install_self :
    LspNode → Option ℕ → LspPkt → Option LspPkt → Option (LspNode × LspEvent)
unfolding ask isis_add_lsp_pkt_in_lspdb drop_old installed schedule_generation
install_self n (some i) p none =
    some (schedule_generation (record n { seq_no = p.hdr.seq_no }) self_fresh_lsp, self_fresh_lsp)
install_self n none p none = some (
  ask (isis_add_lsp_pkt_in_lspdb n p) (schedule_lsp_flood (installed p) none self_fresh_lsp),
  self_fresh_lsp,
)
install_self n (some i) p (some old) =
    if p.hdr.seq_no == old.hdr.seq_no
    then some (n, self_duplicate_lsp)
    else if ltb old.hdr.seq_no p.hdr.seq_no
    then some (schedule_generation (record n { seq_no = p.hdr.seq_no }) self_new_lsp, self_new_lsp)
    else some (ask n (schedule_lsp_flood old none self_old_lsp), self_old_lsp)
install_self n none p (some old) =
    if ltb old.hdr.seq_no p.hdr.seq_no
    then some (
      ask (isis_add_lsp_pkt_in_lspdb (drop_old n old) p)
          (schedule_lsp_flood (installed p) none self_new_lsp),
      self_new_lsp,
    )
    else none

-- a packet of another node, received through an interface
unfoldable pub install_remote : LspNode → ℕ → LspPkt → Option LspPkt → LspNode × LspEvent
unfolding ask isis_add_lsp_pkt_in_lspdb drop_old installed is_purge
install_remote n i p none = if is_purge p then (n, non_local_fresh_lsp) else (
  ask (isis_add_lsp_pkt_in_lspdb n p)
      (schedule_lsp_flood (installed p) (some i) non_local_fresh_lsp),
  non_local_fresh_lsp,
)
install_remote n i p (some old) =
    if p.hdr.seq_no == old.hdr.seq_no
    then (n, non_local_duplicate_lsp)
    else if ltb old.hdr.seq_no p.hdr.seq_no
    then (if is_purge p
        then (
          ask (drop_old n old) (schedule_lsp_flood p (some i) non_local_new_lsp),
          non_local_new_lsp,
        )
        else (
          ask (isis_add_lsp_pkt_in_lspdb (drop_old n old) p)
              (schedule_lsp_flood (installed p) (some i) non_local_new_lsp),
          non_local_new_lsp,
        ))
    else (ask n (queue_for_transmission i old), non_local_old_lsp)

unfoldable pub is_new : LspEvent → Bool
is_new non_local_new_lsp = true
is_new _ = false

-- the loop of `isis_parse_lsp_tlvs_internal` over the TLVs
unfoldable pub has_on_demand : List Tlv → Bool
has_on_demand [] = false
has_on_demand (t ∷ ts) = t.type == 111 || has_on_demand ts

unfoldable pub on_demand_tlv : LspPkt → Bool
unfolding iterate_tlv has_on_demand
on_demand_tlv p =
    let size = length p.hdr.tlvs % 2 ^ 16 in
    has_on_demand (iterate_tlv (suc size) p.hdr.tlvs 0 size)

-- whether two packets differ; `none` is the failed assertion that they are of one router
unfoldable pub isis_is_lsp_diff : LspPkt → Option LspPkt → Option Bool
isis_is_lsp_diff p none = some true
isis_is_lsp_diff p (some old) =
    if not (length p.hdr.tlvs == length old.hdr.tlvs)
    then some true
    else if not (p.hdr.rtr_id == old.hdr.rtr_id)
    then none
    else if not (p.hdr.flags == old.hdr.flags)
    then some true
    else some (not (memcmp_eq (length p.hdr.tlvs) p.hdr.tlvs old.hdr.tlvs))

unfoldable pub need_spf : LspPkt → Option LspPkt → LspEvent → Option Bool
unfolding isis_is_lsp_diff
need_spf p old self_fresh_lsp = some true
need_spf p old non_local_fresh_lsp = some true
need_spf p old non_local_new_lsp = isis_is_lsp_diff p old
need_spf p old _ = some false

unfoldable pub need_on_demand_flood : LspPkt → LspEvent → Bool
unfolding on_demand_tlv
need_on_demand_flood p non_local_fresh_lsp = on_demand_tlv p
need_on_demand_flood p non_local_new_lsp = on_demand_tlv p
need_on_demand_flood p _ = false

-- The next sequence number, written to `self_lsp_pkt` and so to the database that has it.
unfoldable pub advance_self : LspNode → LspPkt → LspNode
unfolding ask
advance_self n self =
    let seq = (n.seq_no + 1) % 2 ^ 32 in
    let self' : LspPkt = record self { hdr = record self.hdr { seq_no = seq } } in
    let written : LspNode = record n {
      seq_no = seq;
      self_lsp_pkt = some self';
      lspdb = if self.installed_in_db then put n.lspdb self.hdr.rtr_id (some self') else n.lspdb;
    } in
    ask (ask (ask written (ted_refresh_seq_no seq)) (schedule_lsp_flood self' none on_demand_flood))
      (increment_event_count on_demand_flood)

-- `self_lsp_pkt` flooded again, or generated
unfoldable pub flood_self : LspNode → LspPkt → LspNode
unfolding advance_self schedule_generation
flood_self n self =
    if self.flood_eligibility then advance_self n self else schedule_generation n on_demand_flood

-- The flood that an on-demand TLV asks for. Without a `self_lsp_pkt`, the trace reads through NULL:
-- `none`.
unfoldable pub flood_on_demand : LspNode → Option LspPkt → Option LspNode
unfolding flood_self
flood_on_demand n none = if n.lsp_pkt_gen_task || n.reconciliation_in_progress then some n else none
flood_on_demand n (some self) =
    if n.lsp_pkt_gen_task || n.reconciliation_in_progress then some n else some (flood_self n self)

unfoldable pub isis_parse_lsp_tlvs : LspNode → LspPkt → Option LspPkt → LspEvent → Option LspNode
unfolding need_spf need_on_demand_flood flood_on_demand ask
isis_parse_lsp_tlvs n p old e = do
  spf ← need_spf p old e
  let n₁ = if spf then ask n schedule_spf_job else n
  if need_on_demand_flood p e then flood_on_demand n₁ n₁.self_lsp_pkt else some n₁

-- what follows an update of the database
unfoldable pub conclude : LspPkt → Option LspPkt → LspNode × LspEvent → Option LspNode
unfolding ask is_purge is_new isis_parse_lsp_tlvs
conclude p old (n, e) =
    let counted = ask n (increment_event_count e) in
    if is_purge p
    then some (if is_new e then ask counted schedule_spf_job else counted)
    else isis_parse_lsp_tlvs counted p old e

-- `isis_install_lsp` with the old packet, for a packet of the node itself or not
unfoldable pub install_over : Bool → LspNode → Option ℕ → LspPkt → Option LspPkt → Option LspNode
unfolding install_self install_remote conclude
install_over true n iif p old = do updated ← install_self n iif p old; conclude p old updated
install_over false n none p old = none
install_over false n (some i) p old = conclude p old (install_remote n i p old)

unfoldable pub isis_install_lsp : LspNode → Option ℕ → LspPkt → Option LspNode
unfolding isis_our_lsp isis_lookup_lsp_from_lsdb install_over
isis_install_lsp n iif p =
    install_over (isis_our_lsp n p) n iif p (isis_lookup_lsp_from_lsdb n p.hdr.rtr_id)

-- an LSP received on an interface, with whether the protocol runs there, whether an adjacency is up
-- on it, and whether the protocol is being shut down
unfoldable pub isis_process_lsp_pkt : Bool → Bool → Bool → LspNode → ℕ → LspHdr → Option LspNode
unfolding isis_install_lsp
isis_process_lsp_pkt enabled up shutdown n i h =
    if enabled && up && not shutdown
    then isis_install_lsp n (some i)
        (record { hdr = h; flood_eligibility = true; installed_in_db = false })
    else some n
