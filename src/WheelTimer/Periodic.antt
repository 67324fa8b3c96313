-- ===== src/WheelTimer/Periodic.antt =====
-- libtimer/WheelTimer.c: a periodic element goes on by its interval.
use native.Mathlib.Nat.{div-add-mod'}
use networking_protocol_deve.Base.{
  ℕ, suc, ◌+◌, ◌*◌, ◌/◌, ◌≡◌, sym, ap, ◌∙◌, true, some, List, arith, length,
}
use networking_protocol_deve.Gluethread.Linked.{has}
use networking_protocol_deve.WheelTimer.{WheelTimer, WtElem, current_abs_slot_no, next_abs_slot_no}
use networking_protocol_deve.WheelTimer.Tick.{Job, advance, wheel_fn}
use networking_protocol_deve.WheelTimer.Due.{due_jobs, next_abs-sum}
use networking_protocol_deve.WheelTimer.OneTick.{
  next_slot, advance-fields, advance-interval, wheel_fn-due,
}
use networking_protocol_deve.WheelTimer.Liveness.{
  Idle, abs_slot_of, has_job, due-has_job, last_tick, tick-Idle, SameWheel-abs,
}

-- A periodic element of an idle wheel that is due at the next tick gets its job, and afterwards waits its interval
-- ahead, on a wheel that is idle again.
pub expiry_renews :
    (k : ℕ) (wt : WheelTimer) (s e : ℕ)
    → Idle k wt
    → has e (wt.slotlist s) ≡ true
    → abs_slot_of wt e ≡ current_abs_slot_no wt + 1
    → (wt.elems e).is_recurrence ≡ true
    → (n : WheelTimer) × (jobs : List Job) × (wheel_fn (suc (length (next_slot wt))) wt
        ≡ some (n, jobs))
      × (has_job (wt.elems e).app_callback (wt.elems e).arg jobs ≡ true)
      × Idle k n
      × (has e (n.slotlist (n.elems e).slot_no) ≡ true)
      × (abs_slot_of n e ≡ current_abs_slot_no n + (wt.elems e).time_interval / k)
unfolding current_abs_slot_no
expiry_renews k wt s e idle inside due periodic =
    let (i, b, pending, inv) = idle in
    let (there, cycle) = last_tick k wt idle s e inside due in
    let (_, _, _, _, elems, _, _) = advance-fields wt b in
    let (n, run, expired) =
      wheel_fn-due (suc (length (next_slot wt))) k wt i b pending inv (omega arith) in
    let (_, wheel, _, renewed) = expired in
    let (size, _, _, _, _, _) = wheel in
    let (idle', _, _) = tick-Idle k wt n idle expired in
    let same : (advance wt).elems e ≡ wt.elems e = ap (λ f. f e) elems in
    let now : ((advance wt).elems e).execute_cycle_no ≡ (advance wt).current_cycle_no =
      ap WtElem.execute_cycle_no same ∙ cycle in
    let found = renewed e there (ground arith) (ap WtElem.is_recurrence same ∙ periodic) in
    let (linked, exec, slot) = found in
    let jobs = due_jobs (advance wt).current_cycle_no (advance wt) (next_slot wt) in
    let job = due-has_job (advance wt).current_cycle_no (advance wt) e (next_slot wt) there now in
    let abs = next_abs_slot_no (advance wt) ((advance wt).elems e).time_interval in
    let sum =
      next_abs-sum (advance wt) e k ((advance wt).elems e).time_interval
        (advance-interval wt b ∙ i) in
    let position : abs_slot_of n e ≡ abs =
      ap (λ w. (n.elems e).execute_cycle_no * w + (n.elems e).slot_no) size
      ∙ ap (λ c. c * (advance wt).wheel_size + (n.elems e).slot_no) exec
      ∙ ap (λ t. abs / (advance wt).wheel_size * (advance wt).wheel_size + t) slot
      ∙ div-add-mod' abs (advance wt).wheel_size in
    let ahead : abs ≡ current_abs_slot_no n + (wt.elems e).time_interval / k =
      sum
      ∙ ap (λ a. a + ((advance wt).elems e).time_interval / k)
          (sym (SameWheel-abs (advance wt) n wheel))
      ∙ ap (λ v. current_abs_slot_no n + v.time_interval / k) same in
    (
      n,
      jobs,
      run,
      sym (ap (λ v. has_job v.app_callback v.arg jobs) same) ∙ job,
      idle',
      ap (λ t. has e (n.slotlist t)) slot ∙ linked,
      position ∙ ahead,
    )
