-- ===== src/WheelTimer/Removed.antt =====
-- libtimer/WheelTimer.c: the remaining time of an element, and its removal.
use native.Mathlib.Nat.{mul-le-mul_left}
use networking_protocol_deve.Base.{
  ℕ, suc, true, some, List, length, ◌+◌, ◌-◌, ◌*◌, ◌^◌, ◌%◌, ◌≤◌, ◌<◌, ◌≡◌, ◌≢◌, refl, ap, ◌∙◌,
  Bool, none, some, [], ◌∷◌, ◌>>=◌, arith, ==_refl,
}
use networking_protocol_deve.Gluethread.Linked.{has}
use networking_protocol_deve.Gluethread.Remove.{has-erase_other, erase}
use networking_protocol_deve.WheelTimer.{
  unlink_reschedule, by_opcode, process_elem, free_wheel_timer_element, wtelem_delete,
  wtelem_scheduled, process_wt_reschedule_slotlist, process_elems, WheelTimer, WtElem, set_elem,
  unlink, current_abs_slot_no, wt_get_clock_interval_in_milli_sec,
}
use networking_protocol_deve.WheelTimer.Slots.{Slotted, has-erase_self}
use networking_protocol_deve.WheelTimer.Due.{unlink-Slotted, waiting}
use networking_protocol_deve.WheelTimer.Fires.{interval-transfer}
use networking_protocol_deve.WheelTimer.Liveness.{Idle, abs_slot_of, ticks, has_job, ticks-expiry}
use networking_protocol_deve.WheelTimer.OneTick.{next_slot}
use networking_protocol_deve.WheelTimer.Tick.{Job, wheel_fn}
use networking_protocol_deve.WheelTimer.Requests.{
  timer_de_register_app_event, timer_reschedule_internal, wt_get_remaining_time,
  remaining_by_opcode, pos, int_of,
}
use networking_protocol_deve.WheelTimer.Pending.{
  Outside, set_unlinked-Slotted, set_same-Slotted, set_elem_self, set_elem_other,
}

remaining-ticks :
    (a c r k : ℕ)
    → a ≡ c + r
    → 0 < k
    → r * k < 2 ^ 32
    → (a + 2 ^ 32 - c) % 2 ^ 32 * k % 2 ^ 32 ≡ r * k
remaining-ticks a c r k e p q =
    let small : r * 1 ≤ r * k = mul-le-mul_left r (omega (arith, p)) in
    let diff : (a + 2 ^ 32 - c) % 2 ^ 32 ≡ r = omega (arith, e, small, q) in
    ap (λ d. d * k % 2 ^ 32) diff ∙ omega (arith, q)

int_of-small : (x : ℕ) → x < 2 ^ 31 → int_of x ≡ pos x
int_of-small x h = ground (arith, h)

remaining-pos :
    (k r : ℕ) (wt : WheelTimer) (e : ℕ)
    → wt_get_clock_interval_in_milli_sec wt ≡ k
    → abs_slot_of wt e ≡ current_abs_slot_no wt + r
    → (wt.elems e).opcode ≡ wtelem_scheduled
    → 0 < k
    → r * k < 2 ^ 31
    → wt_get_remaining_time wt e ≡ pos (r * k)
unfolding wt_get_remaining_time remaining_by_opcode
remaining-pos k r wt e interval ahead op p q =
    let diff = (abs_slot_of wt e + 2 ^ 32 - current_abs_slot_no wt) % 2 ^ 32 in
    ap
      (λ o. int_of (
        remaining_by_opcode o (wt.elems e).new_time_interval
          (diff * wt_get_clock_interval_in_milli_sec wt % 2 ^ 32)))
      op
    ∙ ap (λ j. int_of (diff * j % 2 ^ 32)) interval
    ∙ ap int_of
        (remaining-ticks (abs_slot_of wt e) (current_abs_slot_no wt) r k ahead p (omega (arith, q)))
    ∙ int_of-small (r * k) q

-- On an idle wheel, for a scheduled element that waits `r + 1` ticks ahead, where the clock interval
-- is not 0 and the product of the two is below 2^31, `wt_get_remaining_time` answers the time after
-- which it expires: `r + 1` clock intervals. The element stays for `r` ticks and has its job at the
-- next.
pub remaining_time-ticks :
    (k r : ℕ) (wt : WheelTimer) (s e : ℕ)
    → Idle k wt
    → has e (wt.slotlist s) ≡ true
    → abs_slot_of wt e ≡ current_abs_slot_no wt + suc r
    → (wt.elems e).opcode ≡ wtelem_scheduled
    → 0 < k
    → suc r * k < 2 ^ 31
    → (wt_get_remaining_time wt e ≡ pos (suc r * k))
      × ((n m : WheelTimer) × (jobs : List Job) × (ticks r wt ≡ some n)
          × (has e (n.slotlist s) ≡ true)
          × (n.elems e ≡ wt.elems e)
          × (wheel_fn (suc (length (next_slot n))) n ≡ some (m, jobs))
          × (has_job (wt.elems e).app_callback (wt.elems e).arg jobs ≡ true))
remaining_time-ticks k r wt s e idle inside ahead op p q =
    let (interval, _, _, _) = idle in
    (remaining-pos k (suc r) wt e interval ahead op p q, ticks-expiry r k wt s e idle inside ahead)

-- The state after the request of `e` has been processed.
abbrev removed : WheelTimer → ℕ → WheelTimer
removed wt e =
    free_wheel_timer_element
      (unlink_reschedule (set_elem (unlink wt e) e (record (wt.elems e) { slotlist_head = none }))
        e)
      e

removed-lem :
    (test : WtElem → Bool) (wt : WheelTimer) (e : ℕ)
    → Slotted test wt
    → Slotted test (removed wt e)
      × Outside (removed wt e) e
      × ((removed wt e).freed ≡ e ∷ wt.freed)
      × ((removed wt e).reschd_list ≡ erase e wt.reschd_list)
      × ((s q : ℕ)
          → q ≢ e
          → (has q ((removed wt e).slotlist s) ≡ has q (wt.slotlist s))
            × ((removed wt e).elems q ≡ wt.elems q))
unfolding free_wheel_timer_element unlink_reschedule unlink set_elem
removed-lem test wt e inv =
    let (_, d, _) = inv in
    let left_slot : Outside (unlink wt e) e = λ s. has-erase_self e (wt.slotlist s) (d s) in
    let gone = unlink-Slotted test wt e inv in
    let marked = record (wt.elems e) { slotlist_head = none } in
    let in₁ = set_unlinked-Slotted test (unlink wt e) e marked left_slot gone in
    let m = set_elem (unlink wt e) e marked in
    let in₂ =
      set_unlinked-Slotted test m e (record (m.elems e) { slotlist_head = none }) left_slot in₁ in
    (in₂, left_slot, refl, refl, λ s q n. (has-erase_other e q (wt.slotlist s) n, ground arith))

process-removed :
    (wt : WheelTimer) (e : ℕ)
    → wt.reschd_list ≡ e ∷ []
    → (wt.elems e).opcode ≡ wtelem_delete
    → process_wt_reschedule_slotlist wt ≡ some (removed wt e)
unfolding process_wt_reschedule_slotlist process_elems process_elem by_opcode unlink
process-removed wt e one op =
    let left = set_elem (unlink wt e) e (record (wt.elems e) { slotlist_head = none }) in
    ap (λ l. process_elems l wt) one ∙ ap (λ o. by_opcode left e o >>= λ m. some m) op

-- On an idle wheel a de-registered element is in no slot any more and is freed when its request
-- has been processed; the other elements stay as they are, and the wheel is idle again.
pub de_register-Outside :
    (k : ℕ) (wt : WheelTimer) (e : ℕ)
    → Idle k wt
    → 0 < e
    → (queued n : WheelTimer) × (timer_de_register_app_event wt e ≡ some queued)
      × (process_wt_reschedule_slotlist queued ≡ some n)
      × Idle k n
      × Outside n e
      × (n.freed ≡ e ∷ wt.freed)
      × ((s q : ℕ)
          → q ≢ e
          → (has q (n.slotlist s) ≡ has q (wt.slotlist s)) × (n.elems q ≡ wt.elems q))
unfolding timer_de_register_app_event timer_reschedule_internal set_elem unlink unlink_reschedule
    free_wheel_timer_element
de_register-Outside k wt e (i, b, pending, inv) z =
    let silent = record (wt.elems e) { arg = 0 } in
    let s₀ = set_elem wt e silent in
    let asked = record (s₀.elems e) {
      opcode = wtelem_delete;
      new_time_interval = 0;
      slotlist_head = none;
    } in
    let queued = record (set_elem s₀ e asked) { reschd_list = e ∷ erase e s₀.reschd_list } in
    let test = waiting wt.current_cycle_no wt.current_clock_tic k in
    let in₀ = set_same-Slotted test wt e silent refl refl (λ old. old) inv in
    let in₁ = set_same-Slotted test s₀ e asked refl refl (λ old. old) in₀ in
    let n = removed queued e in
    let one : queued.reschd_list ≡ e ∷ [] = ap (λ l. e ∷ erase e l) pending in
    let op = ap WtElem.opcode (set_elem_self s₀ e asked) in
    let (slotted, out, freed, left, same) = removed-lem test queued e in₁ in
    let gone : erase e (e ∷ []) ≡ [] = rw (==_refl e) refl in
    let others : (s q : ℕ)
        → q ≢ e
        → (has q (n.slotlist s) ≡ has q (wt.slotlist s)) × (n.elems q ≡ wt.elems q) =
      λ s q other.
        let (a, b) = same s q other in
        (a, b ∙ set_elem_other s₀ e q asked other ∙ set_elem_other wt e q silent other) in
    (
      queued,
      n,
      refl,
      process-removed queued e one op,
      (interval-transfer wt n refl refl ∙ i, b, left ∙ ap (erase e) one ∙ gone, slotted),
      out,
      freed,
      others,
    )
