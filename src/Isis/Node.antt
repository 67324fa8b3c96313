-- ===== src/Isis/Node.antt =====
-- Layer5/isis/isis_flood.c and isis_rtr.h: the counters of a node and its reconciliation phase.
use networking_protocol_deve.Base.{
  ℕ, ◌+◌, ◌*◌, ◌%◌, ◌^◌, Bool, true, false, not, Option, none, some, List, ◌∷◌, if◌then◌else◌,
  ◌>>=◌,
}

-- the events that a new LSP is scheduled for
pub data IsisEvent : Type 0 where
  adj_state_changed up_adj_deleted nbr_attribute_changed : IsisEvent
  reconciliation_triggered reconciliation_exit : IsisEvent

-- What is asked of other parts: the generation of an LSP, the new position of an interface in its
-- group, the ARP entry of a neighbour, the timers, and the group of a neighbour's interfaces.
pub data Call : Type 0 where
  schedule_lsp_pkt_generation : IsisEvent → Call
  refresh_member_interface : Call
  arp_entry_add : ℕ → List ℕ → Call
  arp_entry_delete : ℕ → Call
  reschedule_flood reschedule_reconciliation : ℕ → Call
  dynamic_grp_create dynamic_grp_delete : ℕ → Call

-- `isis_node_info_t`, of a node where the protocol is enabled; `calls` holds the calls so far, the
-- last one first.
pub record IsisNode : Type 0 where
  pub adjacency_up_count : ℕ
  pub on_demand_flooding : Bool
  pub lsp_flood_interval : ℕ
  pub layer2_mapping : Bool
  pub reconciliation_in_progress : Bool
  pub reconciliation_timer : Bool
  pub calls : List Call

unfoldable pub call : IsisNode → Call → IsisNode
call n c = record n { calls = c ∷ n.calls }

-- `adjacency_up_count` is a `uint16_t`.
unfoldable pub increment_up_count : IsisNode → IsisNode
increment_up_count n = record n { adjacency_up_count = (n.adjacency_up_count + 1) % 2 ^ 16 }

unfoldable pub decrement_up_count : IsisNode → IsisNode
decrement_up_count n = record n { adjacency_up_count = (n.adjacency_up_count + 65535) % 2 ^ 16 }

-- The 10000 ms of the timer, and the 2000 ms of the flood below, are whole ticks of the node's wheel.
unfoldable pub isis_start_reconciliation_timer : IsisNode → Option IsisNode
isis_start_reconciliation_timer n =
    if not n.reconciliation_in_progress
    then none
    else if n.reconciliation_timer
    then some n
    else some (record n { reconciliation_timer = true })

unfoldable pub isis_enter_reconciliation_phase : IsisNode → Option IsisNode
unfolding isis_start_reconciliation_timer call
isis_enter_reconciliation_phase n =
    if not n.on_demand_flooding
    then some n
    else if n.reconciliation_in_progress
    then some n
    else (do
      let entered = call (record n { reconciliation_in_progress = true }) (reschedule_flood 2000)
      started ← isis_start_reconciliation_timer entered
      some (call started (schedule_lsp_pkt_generation reconciliation_triggered)))

unfoldable pub isis_restart_reconciliation_timer : IsisNode → Option IsisNode
unfolding call
isis_restart_reconciliation_timer n =
    if not n.reconciliation_in_progress
    then some n
    else if n.reconciliation_timer
    then some (call n (reschedule_reconciliation 10000))
    else none

-- also what `isis_stop_reconciliation_timer` does
unfoldable pub isis_exit_reconciliation_phase : IsisNode → IsisNode
unfolding call
isis_exit_reconciliation_phase n =
    if not n.reconciliation_in_progress
    then n
    else (let left =
          call (record n { reconciliation_in_progress = false })
            (reschedule_flood (n.lsp_flood_interval * 1000)) in
        call (record left { reconciliation_timer = false })
          (schedule_lsp_pkt_generation reconciliation_exit))
