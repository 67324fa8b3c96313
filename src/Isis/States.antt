-- ===== src/Isis/States.antt =====
-- Layer5/isis/isis_adjacency.c: the states of an adjacency and the timers that run in them.
use networking_protocol_deve.Base.{
  ℕ, ◌+◌, ◌*◌, ◌%◌, ◌^◌, ◌≡◌, refl, ap, ◌∙◌, Bool, true, false, ◌&&◌, not, Option, none, some, ◌∷◌,
  ◌==◌, is_some, leb, Bool-cases, inl, inr, arith,
}
use networking_protocol_deve.Isis.Node.{
  Call, schedule_lsp_pkt_generation, reconciliation_triggered, adj_state_changed, reschedule_flood,
  reschedule_reconciliation, IsisNode, call, isis_start_reconciliation_timer,
  isis_enter_reconciliation_phase, isis_restart_reconciliation_timer, increment_up_count,
  decrement_up_count,
}
use networking_protocol_deve.Isis.Adjacency.{
  goes_down, refresh_grp, AdjState, adj_state_unknown, adj_state_down, adj_state_init, adj_state_up,
  Adjacency, is_whole_ticks, set_expiry_timer, isis_adjacency_start_expiry_timer,
  isis_adjacency_refresh_expiry_timer, isis_adjacency_stop_expiry_timer,
  isis_adjacency_start_delete_timer, isis_adjacency_stop_delete_timer, isis_adjacency_set_uptime,
  isis_update_layer2_mapping_on_adjacency_up, isis_update_layer2_mapping_on_adjacency_down,
  isis_get_next_adj_state_on_receiving_next_hello, change_from_up, announce_up, change_from_init,
  change_from_down, change_from,
}

-- A state that is down waits for its deletion, the others for the hold time to pass.
abbrev pub IsTimedIn : AdjState → Adjacency → Type 0
IsTimedIn adj_state_unknown a = ⊥
IsTimedIn adj_state_down a = (is_some a.expiry_timer ≡ false) × (is_some a.delete_timer ≡ true)
IsTimedIn adj_state_init a = (is_some a.expiry_timer ≡ true) × (is_some a.delete_timer ≡ false)
IsTimedIn adj_state_up a = (is_some a.expiry_timer ≡ true) × (is_some a.delete_timer ≡ false)

-- The reconciliation timer runs exactly during the phase, and `c` adjacencies are counted as up.
abbrev pub IsPhased : ℕ → IsisNode → Type 0
IsPhased c n = (n.reconciliation_timer ≡ n.reconciliation_in_progress) × (n.adjacency_up_count ≡ c)

-- what a neighbour tells of itself stays
abbrev pub TellsSame : Adjacency → Adjacency → Type 0
TellsSame a b =
    (b.nbr_name ≡ a.nbr_name)
    × (b.nbr_intf_ip ≡ a.nbr_intf_ip)
    × (b.nbr_mac ≡ a.nbr_mac)
    × (b.nbr_rtr_id ≡ a.nbr_rtr_id)
    × (b.remote_if_index ≡ a.remote_if_index)
    × (b.cost ≡ a.cost)
    × (b.hold_time ≡ a.hold_time)

-- A hold time whose milliseconds an `int` holds, and not 0.
abbrev pub is_held : Adjacency → Bool
is_held a = not (a.hold_time == 0) && leb a.hold_time 2147483

abbrev ticking : Adjacency → Adjacency
ticking a = record a { expiry_timer = some (a.hold_time * 1000) }

set-expiry : (a : Adjacency) → is_held a ≡ true → set_expiry_timer a ≡ some (ticking a)
unfolding set_expiry_timer is_whole_ticks
set-expiry a h =
    let small : a.hold_time * 1000 % 2 ^ 32 ≡ a.hold_time * 1000 = ground (arith, h) in
    let whole : (not (a.hold_time * 1000 == 0) && a.hold_time * 1000 % 1000 == 0) ≡ true =
      ground (arith, h) in
    rw (small, whole) refl

pub call-IsPhased : {k : ℕ} (n : IsisNode) (x : Call) → IsPhased k n → IsPhased k (call n x)
unfolding call
call-IsPhased n x p = p

enter_total :
    {c : ℕ} (n : IsisNode)
    → IsPhased c n
    → (n' : IsisNode) × (isis_enter_reconciliation_phase n ≡ some n') × IsPhased c n'
unfolding isis_enter_reconciliation_phase isis_start_reconciliation_timer call
enter_total n p = elim (Bool-cases n.on_demand_flooding) [
  | inr o ↦ (n, ground (arith, o), p)
  | inl o ↦ elim (Bool-cases n.reconciliation_in_progress) [
    | inl r ↦ (n, ground (arith, o, r), p)
    | inr r ↦ (
      record n {
        reconciliation_in_progress = true;
        reconciliation_timer = true;
        calls =
            schedule_lsp_pkt_generation reconciliation_triggered ∷ reschedule_flood 2000 ∷ n.calls;
      },
      ground (arith, o, r, p),
      (refl, p.1),
    )
  ]
]

restart_total :
    {c : ℕ} (n : IsisNode)
    → IsPhased c n
    → (n' : IsisNode) × (isis_restart_reconciliation_timer n ≡ some n') × IsPhased c n'
unfolding isis_restart_reconciliation_timer
restart_total {c = c} n p = elim (Bool-cases n.reconciliation_in_progress) [
  | inl r ↦ (
    call n (reschedule_reconciliation 10000),
    ground (arith, p, r),
    call-IsPhased n (reschedule_reconciliation 10000) p,
  )
  | inr r ↦ (n, rw r refl, p)
]

increment-IsPhased :
    {c : ℕ} (n : IsisNode) → IsPhased c n → IsPhased ((c + 1) % 2 ^ 16) (increment_up_count n)
unfolding increment_up_count
increment-IsPhased n (p, k) = (p, ap (λ x. (x + 1) % 2 ^ 16) k)

decrement-IsPhased :
    {c : ℕ} (n : IsisNode) → IsPhased c n → IsPhased ((c + 65535) % 2 ^ 16) (decrement_up_count n)
unfolding decrement_up_count
decrement-IsPhased n (p, k) = (p, ap (λ x. (x + 65535) % 2 ^ 16) k)

map_up-IsPhased :
    {c : ℕ} (n : IsisNode) (a : Adjacency)
    → IsPhased c n
    → IsPhased c (isis_update_layer2_mapping_on_adjacency_up n a)
unfolding isis_update_layer2_mapping_on_adjacency_up call
map_up-IsPhased n a p = ground (arith, p)

pub map_down-IsPhased :
    {c : ℕ} (n : IsisNode) (a : Adjacency)
    → IsPhased c n
    → IsPhased c (isis_update_layer2_mapping_on_adjacency_down n a)
unfolding isis_update_layer2_mapping_on_adjacency_down call
map_down-IsPhased n a p = ground (arith, p)

refresh-IsPhased : {c : ℕ} (b : Bool) (n : IsisNode) → IsPhased c n → IsPhased c (refresh_grp b n)
unfolding call
refresh-IsPhased b n p = ground (arith, p)

goes_down_lem :
    (a : Adjacency)
    → ((goes_down a).adj_state ≡ adj_state_down)
      × IsTimedIn adj_state_down (goes_down a)
      × TellsSame a (goes_down a)
unfolding isis_adjacency_start_delete_timer isis_adjacency_stop_expiry_timer
goes_down_lem a = elim (Bool-cases (is_some a.delete_timer)) [
  | inl e ↦ rw e (refl, (refl, e), (refl, refl, refl, refl, refl, refl, refl))
  | inr e ↦ rw e (refl, (refl, refl), (refl, refl, refl, refl, refl, refl, refl))
]

module _ (in_intf_grp : Bool) (now : ℕ) where
  -- the call returns, in the state, with the timers of the state
  abbrev pub Reaches : Adjacency → AdjState → ℕ → Option (IsisNode × Adjacency) → Type 0
  Reaches a st c r =
      (n' : IsisNode) × (a' : Adjacency) × (r ≡ some (n', a'))
      × (a'.adj_state ≡ st)
      × IsTimedIn st a'
      × IsPhased c n'
      × TellsSame a a'

  down_total :
      {c : ℕ} (n : IsisNode) (a : Adjacency)
      → IsPhased c n
      → Reaches a adj_state_down
          ((c + 65535) % 2 ^ 16)
          (change_from_up in_intf_grp now n a adj_state_down)
  unfolding change_from_up
  down_total {c = c} n a p =
      let n₁ = refresh_grp in_intf_grp (decrement_up_count n) in
      let p₁ : IsPhased ((c + 65535) % 2 ^ 16) n₁ =
        refresh-IsPhased in_intf_grp (decrement_up_count n) (decrement-IsPhased n p) in
      let a' = goes_down a in
      let (st, timed, same) = goes_down_lem a in
      elim (Bool-cases (n₁.reconciliation_in_progress && not (n₁.adjacency_up_count == 0))) [
        | inl r ↦
            let (n₂, e, p₂) = restart_total n₁ p₁ in
            (
              isis_update_layer2_mapping_on_adjacency_down n₂ a',
              a',
              rw (r, e) refl,
              st,
              timed,
              map_down-IsPhased n₂ a' p₂,
              same,
            )
        | inr r ↦
            let n₂ = call n₁ (schedule_lsp_pkt_generation adj_state_changed) in
            (
              isis_update_layer2_mapping_on_adjacency_down n₂ a',
              a',
              rw r refl,
              st,
              timed,
              map_down-IsPhased n₂ a'
                  (call-IsPhased n₁ (schedule_lsp_pkt_generation adj_state_changed) p₁),
              same,
            )
      ]

  announce_total :
      {c : ℕ} (n : IsisNode)
      → IsPhased c n
      → (n' : IsisNode) × (announce_up in_intf_grp now n ≡ some n') × IsPhased c n'
  unfolding announce_up
  announce_total {c = c} n p = elim (Bool-cases (n.adjacency_up_count == 1)) [
    | inl y ↦ let (n', e, p') = enter_total n p in (n', rw (y, e) refl, p')
    | inr y ↦ elim (Bool-cases n.reconciliation_in_progress) [
      | inl r ↦ let (n', e, p') = restart_total n p in (n', ground (arith, y, r, e), p')
      | inr r ↦ (
        call n (schedule_lsp_pkt_generation adj_state_changed),
        rw (y, r) refl,
        call-IsPhased n (schedule_lsp_pkt_generation adj_state_changed) p,
      )
    ]
  ]

  refresh_running :
      (a : Adjacency)
      → is_some a.expiry_timer ≡ true
      → is_held a ≡ true
      → isis_adjacency_refresh_expiry_timer a ≡ some (ticking a)
  unfolding isis_adjacency_refresh_expiry_timer
  refresh_running a e h = rw e (set-expiry a h)

  init_from_down :
      {c : ℕ} (n : IsisNode) (a : Adjacency)
      → IsPhased c n
      → IsTimedIn adj_state_down a
      → is_held a ≡ true
      → Reaches a adj_state_init c (change_from_down in_intf_grp now n a adj_state_init)
  unfolding change_from_down isis_adjacency_start_expiry_timer isis_adjacency_stop_delete_timer
  init_from_down n a p (e, d) h = (
    n,
    record a {
      adj_state = adj_state_init;
      delete_timer = none;
      expiry_timer = some (a.hold_time * 1000);
    },
    rw (e, set-expiry (record a { adj_state = adj_state_init; delete_timer = none }) h) refl,
    refl,
    (refl, refl),
    p,
    (refl, refl, refl, refl, refl, refl, refl),
  )

  up_from_init :
      {c : ℕ} (n : IsisNode) (a : Adjacency)
      → IsPhased c n
      → IsTimedIn adj_state_init a
      → is_held a ≡ true
      → Reaches a adj_state_up
          ((c + 1) % 2 ^ 16)
          (change_from_init in_intf_grp now n a adj_state_up)
  unfolding change_from_init change_from_up isis_adjacency_refresh_expiry_timer
      isis_adjacency_set_uptime
  up_from_init {c = c} n a p (e, d) h =
      let n₁ = refresh_grp in_intf_grp (increment_up_count n) in
      let (n₂, en, p₂) =
        announce_total n₁
          (refresh-IsPhased in_intf_grp (increment_up_count n) (increment-IsPhased n p)) in
      let a' : Adjacency = record a {
        adj_state = adj_state_up;
        expiry_timer = some (a.hold_time * 1000);
        uptime = now;
      } in
      (
        isis_update_layer2_mapping_on_adjacency_up n₂ a',
        a',
        rw (e, set-expiry (record a { adj_state = adj_state_up }) h, en, set-expiry a' h) refl,
        refl,
        (refl, d),
        map_up-IsPhased n₂ a' p₂,
        (refl, refl, refl, refl, refl, refl, refl),
      )

  up_from_up :
      {c : ℕ} (n : IsisNode) (a : Adjacency)
      → IsPhased c n
      → a.adj_state ≡ adj_state_up
      → IsTimedIn adj_state_up a
      → is_held a ≡ true
      → Reaches a adj_state_up c (change_from_up in_intf_grp now n a adj_state_up)
  unfolding change_from_up isis_adjacency_refresh_expiry_timer
  up_from_up n a p st (e, d) h = (
    n,
    ticking a,
    rw (e, set-expiry a h) refl,
    st,
    (refl, d),
    p,
    (refl, refl, refl, refl, refl, refl, refl),
  )

  -- The count of the adjacencies that are up behind a change of state. The missing `break` takes an
  -- adjacency that goes down from the initial state off the count as well.
  abbrev pub count_after : AdjState → AdjState → ℕ → ℕ
  count_after adj_state_init adj_state_up c = (c + 1) % 2 ^ 16
  count_after adj_state_init adj_state_down c = (c + 65535) % 2 ^ 16
  count_after adj_state_up adj_state_down c = (c + 65535) % 2 ^ 16
  count_after _ _ c = c

  -- An adjacency with the timers of its state takes the next state of a hello, with the timers of that
  -- state, and no assertion fails, where its hold time is in range.
  pub advance_total :
      {c : ℕ} (st : AdjState) (n : IsisNode) (a : Adjacency)
      → a.adj_state ≡ st
      → IsPhased c n
      → IsTimedIn st a
      → is_held a ≡ true
      → Reaches a
          (isis_get_next_adj_state_on_receiving_next_hello st)
          (count_after st (isis_get_next_adj_state_on_receiving_next_hello st) c)
          (change_from in_intf_grp now st n a (isis_get_next_adj_state_on_receiving_next_hello st))
  unfolding change_from isis_get_next_adj_state_on_receiving_next_hello
  advance_total adj_state_unknown n a e p t h = absurd t
  advance_total adj_state_down n a e p t h = init_from_down n a p t h
  advance_total adj_state_init n a e p t h = up_from_init n a p t h
  advance_total adj_state_up n a e p t h = up_from_up n a p e t h

  same_trans : (a b c : Adjacency) → TellsSame a b → TellsSame b c → TellsSame a c
  same_trans a b c (x₁, x₂, x₃, x₄, x₅, x₆, x₇) (y₁, y₂, y₃, y₄, y₅, y₆, y₇) =
      (y₁ ∙ x₁, y₂ ∙ x₂, y₃ ∙ x₃, y₄ ∙ x₄, y₅ ∙ x₅, y₆ ∙ x₆, y₇ ∙ x₇)

  -- It also goes down from every state.
  pub bring_down_total :
      {c : ℕ} (st : AdjState) (n : IsisNode) (a : Adjacency)
      → a.adj_state ≡ st
      → IsPhased c n
      → IsTimedIn st a
      → Reaches a adj_state_down
          (count_after st adj_state_down c)
          (change_from in_intf_grp now st n a adj_state_down)
  unfolding change_from change_from_down change_from_init
  bring_down_total adj_state_unknown n a e p t = absurd t
  bring_down_total adj_state_down n a e p t =
      (n, a, refl, e, t, p, (refl, refl, refl, refl, refl, refl, refl))
  bring_down_total adj_state_init n a e p t =
      let (_, _, same) = goes_down_lem a in
      let (n', a', eq, st, timed, p', same') = down_total n (goes_down a) p in
      (n', a', eq, st, timed, p', same_trans a (goes_down a) a' same same')
  bring_down_total adj_state_up n a e p t = down_total n a p

  -- When the hold time has passed, the adjacency goes down.
  pub expire_from :
      {c : ℕ} (st : AdjState) (n : IsisNode) (a : Adjacency)
      → IsPhased c n
      → IsTimedIn st a
      → is_some a.expiry_timer ≡ true
      → Reaches a adj_state_down
          ((c + 65535) % 2 ^ 16)
          (change_from in_intf_grp now st n (record a { expiry_timer = none }) adj_state_down)
  unfolding change_from change_from_init
  expire_from adj_state_unknown n a p t r = absurd t
  expire_from adj_state_down n a p (t, _) r = absurd (ground (arith, t, r))
  expire_from adj_state_init n a p t r =
      let b : Adjacency = record a { expiry_timer = none } in
      let (_, _, same) = goes_down_lem b in
      let (n', a', eq, st, timed, p', same') = down_total n (goes_down b) p in
      (n', a', eq, st, timed, p', same_trans b (goes_down b) a' same same')
  expire_from adj_state_up n a p t r = down_total n (record a { expiry_timer = none }) p
