-- ===== src/Isis/Adjacency.antt =====
-- Layer5/isis/isis_adjacency.c and isis_layer2map.c: adjacencies, their states and their timers.
use networking_protocol_deve.Base.{
  ℕ, ◌*◌, ◌%◌, ◌^◌, Bool, true, false, ◌&&◌, not, Option, none, some, List, [], ◌∷◌, ◌==◌,
  if◌then◌else◌, is_some, ◌>>=◌,
}
use networking_protocol_deve.Isis.Node.{
  IsisNode, call, schedule_lsp_pkt_generation, refresh_member_interface, arp_entry_add,
  arp_entry_delete, dynamic_grp_delete, adj_state_changed, up_adj_deleted, increment_up_count,
  decrement_up_count, isis_enter_reconciliation_phase, isis_restart_reconciliation_timer,
}

-- `isis_adj_state_t`
pub data AdjState : Type 0 where
  adj_state_unknown adj_state_down adj_state_init adj_state_up : AdjState

-- `isis_adjacency_t`: a timer that runs is `some` with the time it was last set to, in ms.
pub record Adjacency : Type 0 where
  pub nbr_name : List ℕ
  pub nbr_intf_ip : ℕ
  pub nbr_mac : List ℕ
  pub nbr_rtr_id : ℕ
  pub remote_if_index : ℕ
  pub adj_state : AdjState
  pub hold_time : ℕ
  pub cost : ℕ
  pub expiry_timer : Option ℕ
  pub delete_timer : Option ℕ
  pub uptime : ℕ

abbrev pub is_up : AdjState → Bool
is_up adj_state_up = true
is_up _ = false

-- the time of the expiry timer, an `int` product that the code does not check, as 32 bits
abbrev pub expiry_time : Adjacency → ℕ
expiry_time a = a.hold_time * 1000 % 2 ^ 32

-- What `timer_register_app_event` and `timer_reschedule` assert of an interval: it is not 0, and whole
-- ticks of the node's wheel, which are seconds.
unfoldable pub is_whole_ticks : ℕ → Bool
is_whole_ticks interval = not (interval == 0) && interval % 1000 == 0

-- the adjacency with its expiry timer set
unfoldable pub set_expiry_timer : Adjacency → Option Adjacency
unfolding is_whole_ticks
set_expiry_timer a =
    if is_whole_ticks (expiry_time a)
    then some (record a { expiry_timer = some (expiry_time a) })
    else none

unfoldable pub isis_adjacency_start_expiry_timer : Adjacency → Option Adjacency
unfolding set_expiry_timer
isis_adjacency_start_expiry_timer a = if is_some a.expiry_timer then some a else set_expiry_timer a

unfoldable pub isis_adjacency_refresh_expiry_timer : Adjacency → Option Adjacency
unfolding set_expiry_timer
isis_adjacency_refresh_expiry_timer a = if is_some a.expiry_timer then set_expiry_timer a else none

unfoldable pub isis_adjacency_stop_expiry_timer : Adjacency → Adjacency
isis_adjacency_stop_expiry_timer a = record a { expiry_timer = none }

-- 5000 ms are whole ticks.
unfoldable pub isis_adjacency_start_delete_timer : Adjacency → Adjacency
isis_adjacency_start_delete_timer a =
    if is_some a.delete_timer then a else record a { delete_timer = some 5000 }

unfoldable pub isis_adjacency_stop_delete_timer : Adjacency → Adjacency
isis_adjacency_stop_delete_timer a = record a { delete_timer = none }

unfoldable pub isis_adjacency_set_uptime : ℕ → Adjacency → Option Adjacency
isis_adjacency_set_uptime now a =
    if is_up a.adj_state then some (record a { uptime = now }) else none

unfoldable pub isis_update_layer2_mapping_on_adjacency_up : IsisNode → Adjacency → IsisNode
unfolding call
isis_update_layer2_mapping_on_adjacency_up n a =
    if n.layer2_mapping then call n (arp_entry_add a.nbr_intf_ip a.nbr_mac) else n

unfoldable pub isis_update_layer2_mapping_on_adjacency_down : IsisNode → Adjacency → IsisNode
unfolding call
isis_update_layer2_mapping_on_adjacency_down n a =
    if n.layer2_mapping then call n (arp_entry_delete a.nbr_intf_ip) else n

unfoldable pub isis_get_next_adj_state_on_receiving_next_hello : AdjState → AdjState
isis_get_next_adj_state_on_receiving_next_hello adj_state_down = adj_state_init
isis_get_next_adj_state_on_receiving_next_hello adj_state_init = adj_state_up
isis_get_next_adj_state_on_receiving_next_hello adj_state_up = adj_state_up
isis_get_next_adj_state_on_receiving_next_hello adj_state_unknown = adj_state_unknown

-- the two timers of an adjacency that goes down
abbrev pub goes_down : Adjacency → Adjacency
goes_down a =
    isis_adjacency_start_delete_timer
      (isis_adjacency_stop_expiry_timer (record a { adj_state = adj_state_down }))

abbrev pub refresh_grp : Bool → IsisNode → IsisNode
refresh_grp in_intf_grp n = if in_intf_grp then call n refresh_member_interface else n

-- `in_intf_grp` tells whether the interface is in a group, `now` is the time.
module _ (in_intf_grp : Bool) (now : ℕ) where
  -- the inner `switch` of `case ISIS_ADJ_STATE_UP`
  unfoldable pub change_from_up : IsisNode → Adjacency → AdjState → Option (IsisNode × Adjacency)
  unfolding isis_adjacency_refresh_expiry_timer decrement_up_count isis_restart_reconciliation_timer
      call isis_update_layer2_mapping_on_adjacency_down
  change_from_up n a adj_state_down = do
    let a' = goes_down a
    let n₁ = refresh_grp in_intf_grp (decrement_up_count n)
    let restart = n₁.reconciliation_in_progress && not (n₁.adjacency_up_count == 0)
    let lsp = call n₁ (schedule_lsp_pkt_generation adj_state_changed)
    n₂ ← if restart then isis_restart_reconciliation_timer n₁ else some lsp
    some (isis_update_layer2_mapping_on_adjacency_down n₂ a', a')
  change_from_up n a adj_state_init = none
  change_from_up n a adj_state_up = do a' ← isis_adjacency_refresh_expiry_timer a; some (n, a')
  change_from_up n a adj_state_unknown = some (n, a)

  -- what follows the counters when an adjacency comes up
  unfoldable pub announce_up : IsisNode → Option IsisNode
  unfolding isis_enter_reconciliation_phase isis_restart_reconciliation_timer call
  announce_up n =
      if n.adjacency_up_count == 1
      then isis_enter_reconciliation_phase n
      else if n.reconciliation_in_progress
      then isis_restart_reconciliation_timer n
      else some (call n (schedule_lsp_pkt_generation adj_state_changed))

  -- The inner `switch` of `case ISIS_ADJ_STATE_INIT`. No `break` follows it, so every branch goes
  -- on with that of `case ISIS_ADJ_STATE_UP`.
  unfoldable pub change_from_init : IsisNode → Adjacency → AdjState → Option (IsisNode × Adjacency)
  unfolding change_from_up announce_up isis_adjacency_refresh_expiry_timer isis_adjacency_set_uptime
      increment_up_count isis_update_layer2_mapping_on_adjacency_up
  change_from_init n a adj_state_down = change_from_up n (goes_down a) adj_state_down
  change_from_init n a adj_state_init = do
    a' ← isis_adjacency_refresh_expiry_timer a
    change_from_up n a' adj_state_init
  change_from_init n a adj_state_up = do
    a₁ ← isis_adjacency_refresh_expiry_timer (record a { adj_state = adj_state_up })
    a₂ ← isis_adjacency_set_uptime now a₁
    n' ← announce_up (refresh_grp in_intf_grp (increment_up_count n))
    change_from_up (isis_update_layer2_mapping_on_adjacency_up n' a₂) a₂ adj_state_up
  change_from_init n a adj_state_unknown = change_from_up n a adj_state_unknown

  -- the inner `switch` of `case ISIS_ADJ_STATE_DOWN`
  unfoldable pub change_from_down : IsisNode → Adjacency → AdjState → Option (IsisNode × Adjacency)
  unfolding isis_adjacency_stop_delete_timer isis_adjacency_start_expiry_timer
  change_from_down n a adj_state_down = some (n, a)
  change_from_down n a adj_state_init = do
    let stopped = isis_adjacency_stop_delete_timer (record a { adj_state = adj_state_init })
    a' ← isis_adjacency_start_expiry_timer stopped
    some (n, a')
  change_from_down n a adj_state_up = none
  change_from_down n a adj_state_unknown = some (n, a)

  -- `isis_change_adjacency_state`, from the state given first; a failed `assert` is `none`.
  unfoldable pub change_from :
      AdjState → IsisNode → Adjacency → AdjState → Option (IsisNode × Adjacency)
  unfolding change_from_down change_from_init change_from_up
  change_from adj_state_down n a new_adj_state = change_from_down n a new_adj_state
  change_from adj_state_init n a new_adj_state = change_from_init n a new_adj_state
  change_from adj_state_up n a new_adj_state = change_from_up n a new_adj_state
  change_from adj_state_unknown n a new_adj_state = some (n, a)

  unfoldable pub isis_change_adjacency_state :
      IsisNode → Adjacency → AdjState → Option (IsisNode × Adjacency)
  unfolding change_from
  isis_change_adjacency_state n a new_adj_state = change_from a.adj_state n a new_adj_state

  -- the callback of the expiry timer
  unfoldable pub isis_timer_expire_down_adjacency_cb :
      IsisNode → Adjacency → Option (IsisNode × Adjacency)
  unfolding isis_change_adjacency_state
  isis_timer_expire_down_adjacency_cb n a =
      isis_change_adjacency_state n (record a { expiry_timer = none }) adj_state_down

-- What deleting an adjacency leaves at its node; the adjacency and its timers are gone.
unfoldable pub isis_delete_adjacency : IsisNode → Adjacency → IsisNode
unfolding decrement_up_count isis_update_layer2_mapping_on_adjacency_down call
isis_delete_adjacency n a =
    let gone =
      call (isis_update_layer2_mapping_on_adjacency_down (decrement_up_count n) a)
        (schedule_lsp_pkt_generation up_adj_deleted) in
    call (if is_up a.adj_state then gone else n) (dynamic_grp_delete a.nbr_rtr_id)

-- `isis_delete_all_adjacencies` on the adjacencies of an interface
unfoldable pub isis_delete_all_adjacencies : IsisNode → List Adjacency → IsisNode
unfolding isis_delete_adjacency
isis_delete_all_adjacencies n [] = n
isis_delete_all_adjacencies n (a ∷ l) = isis_delete_all_adjacencies (isis_delete_adjacency n a) l

-- `isis_find_adjacency_on_interface`; the router id 0 finds the first one.
unfoldable pub isis_find_adjacency_on_interface : List Adjacency → ℕ → Option Adjacency
isis_find_adjacency_on_interface [] nbr_rtr_id = none
isis_find_adjacency_on_interface (a ∷ l) nbr_rtr_id =
    if nbr_rtr_id == 0
    then some a
    else if a.nbr_rtr_id == nbr_rtr_id
    then some a
    else isis_find_adjacency_on_interface l nbr_rtr_id

unfoldable pub isis_any_adjacency_up_on_interface : List Adjacency → Bool
isis_any_adjacency_up_on_interface [] = false
isis_any_adjacency_up_on_interface (a ∷ l) =
    if is_up a.adj_state then true else isis_any_adjacency_up_on_interface l
