-- ===== src/Tests/WheelTests.antt =====
-- A wheel of four slots with a tick of 10 milliseconds, and one periodic element, at the address 5.
use networking_protocol_deve.Base.{
  ℕ, suc, ◌+◌, ◌/◌, ◌≡◌, ◌≢◌, refl, true, false, Option, none, some, List, [], ◌∷◌, ◌==◌, ap,
  if◌then◌else◌, arith, length,
}
use networking_protocol_deve.Gluethread.Linked.{has}
use networking_protocol_deve.WheelTimer.{
  WheelTimer, WtElem, timer_milli_seconds, wtelem_scheduled, wt_get_clock_interval_in_milli_sec,
  in_milli_sec, schedule_at, insert_in_slot, set_slot, set_elem, unlink, unlink_reschedule,
  process_elems, process_elem, by_opcode, free_wheel_timer_element, next_abs_slot_no,
  process_wt_reschedule_slotlist, current_abs_slot_no,
}
use networking_protocol_deve.WheelTimer.Tick.{
  wheel_fn, advance, Job, expire_from, after_expiry, finish_tick,
}
use networking_protocol_deve.WheelTimer.Requests.{
  timer_register_app_event, timer_de_register_app_event, timer_reschedule_internal,
  wt_get_remaining_time, pos,
}
use networking_protocol_deve.WheelTimer.Due.{due_jobs}
use networking_protocol_deve.WheelTimer.Expiry.{Expired}
use networking_protocol_deve.WheelTimer.OneTick.{next_slot, wheel_fn-due}
use networking_protocol_deve.WheelTimer.Liveness.{Idle, ticks, has_job, ticks-expiry, abs_slot_of}
use networking_protocol_deve.WheelTimer.Periodic.{expiry_renews}
use networking_protocol_deve.WheelTimer.Pending.{Outside}
use networking_protocol_deve.WheelTimer.Registered.{Scheduled, register-Scheduled}
use networking_protocol_deve.WheelTimer.Removed.{remaining_time-ticks, de_register-Outside}

abbrev periodic : WtElem
periodic = record {
  opcode = wtelem_scheduled;
  time_interval = 30;
  new_time_interval = 30;
  execute_cycle_no = 1;
  slot_no = 2;
  app_callback = 7;
  arg = 8;
  arg_size = 4;
  is_recurrence = true;
  slotlist_head = some 2;
  n_scheduled = 1;
}

-- the element is due 4 ticks ahead
abbrev wheel : WheelTimer
wheel = record {
  current_clock_tic = 2;
  clock_tic_interval = 10;
  wheel_size = 4;
  current_cycle_no = 0;
  reschd_list = [];
  timer_resolution = timer_milli_seconds;
  slotlist = λ s. if s == 2 then 5 ∷ [] else [];
  elems = λ e. periodic;
  freed = [];
}

wheel-Idle : Idle 10 wheel
unfolding wt_get_clock_interval_in_milli_sec in_milli_sec
wheel-Idle =
    (refl, omega arith, refl, (λ s e m. ground arith, λ s. ground arith, λ s. ground arith))

-- the tick before
abbrev soon : WheelTimer
soon = record wheel { current_clock_tic = 1; current_cycle_no = 1 }

soon-Idle : Idle 10 soon
unfolding wt_get_clock_interval_in_milli_sec in_milli_sec
soon-Idle = (refl, omega arith, refl, (λ s e m. ground arith, λ s. ground arith, λ s. ground arith))

soon_slot : next_slot soon ≡ 5 ∷ []
unfolding advance
soon_slot = refl

wheel_fn-due_example :
    (n : WheelTimer) × (wheel_fn 2 soon
      ≡ some (n, due_jobs (advance soon).current_cycle_no (advance soon) (next_slot soon)))
    × Expired 10 (advance soon) n
wheel_fn-due_example =
    let (i, b, idle, inv) = soon-Idle in
    wheel_fn-due 2 10 soon i b idle inv (omega (arith, ap length soon_slot))

due_now : abs_slot_of wheel 5 ≡ current_abs_slot_no wheel + 4
unfolding current_abs_slot_no
due_now = refl

ticks-expiry_example :
    (n m : WheelTimer) × (jobs : List Job) × (ticks 3 wheel ≡ some n)
    × (has 5 (n.slotlist 2) ≡ true)
    × (n.elems 5 ≡ periodic)
    × (wheel_fn (suc (length (next_slot n))) n ≡ some (m, jobs))
    × (has_job 7 8 jobs ≡ true)
ticks-expiry_example = ticks-expiry 3 10 wheel 2 5 wheel-Idle refl due_now

due_soon : abs_slot_of soon 5 ≡ current_abs_slot_no soon + 1
unfolding current_abs_slot_no
due_soon = refl

expiry_renews_example :
    (n : WheelTimer) × (jobs : List Job) × (wheel_fn (suc (length (next_slot soon))) soon
      ≡ some (n, jobs))
    × (has_job 7 8 jobs ≡ true)
    × Idle 10 n
    × (has 5 (n.slotlist (n.elems 5).slot_no) ≡ true)
    × (abs_slot_of n 5 ≡ current_abs_slot_no n + 30 / 10)
expiry_renews_example = expiry_renews 10 soon 2 5 soon-Idle refl due_soon refl

absent : Outside wheel 6
absent s = ground arith

register-Scheduled_example :
    (queued n : WheelTimer) × (timer_register_app_event wheel 6 7 9 4 50 false ≡ some (6, queued))
    × (process_wt_reschedule_slotlist queued ≡ some n)
    × Scheduled 10 n 6 50
register-Scheduled_example =
    register-Scheduled 10 wheel 6 7 9 4 50 false wheel-Idle absent (omega arith) (ground arith)
      (omega arith) (omega arith) refl

remaining_time-ticks_example :
    (wt_get_remaining_time wheel 5 ≡ pos 40)
    × ((n m : WheelTimer) × (jobs : List Job) × (ticks 3 wheel ≡ some n)
        × (has 5 (n.slotlist 2) ≡ true)
        × (n.elems 5 ≡ periodic)
        × (wheel_fn (suc (length (next_slot n))) n ≡ some (m, jobs))
        × (has_job 7 8 jobs ≡ true))
remaining_time-ticks_example =
    remaining_time-ticks 10 3 wheel 2 5 wheel-Idle refl due_now refl (omega arith) (omega arith)

de_register-Outside_example :
    (queued n : WheelTimer) × (timer_de_register_app_event wheel 5 ≡ some queued)
    × (process_wt_reschedule_slotlist queued ≡ some n)
    × Idle 10 n
    × Outside n 5
    × (n.freed ≡ 5 ∷ [])
    × ((s q : ℕ)
        → q ≢ 5
        → (has q (n.slotlist s) ≡ has q (wheel.slotlist s)) × (n.elems q ≡ wheel.elems q))
de_register-Outside_example = de_register-Outside 10 wheel 5 wheel-Idle (omega arith)

-- Between its de-registration and the processing of the request, an element that is due still gets its job, with
-- no argument.
abbrev jobs_of : Option (WheelTimer × List Job) → List Job
jobs_of none = []
jobs_of (some (n, js)) = js

abbrev jobs_after : Option WheelTimer → List Job
jobs_after none = []
jobs_after (some n) = jobs_of (wheel_fn 2 n)

expires_after_de_register : jobs_after (timer_de_register_app_event soon 5) ≡ (7, 0) ∷ []
unfolding wheel_fn advance expire_from after_expiry schedule_at insert_in_slot set_slot set_elem
    unlink unlink_reschedule finish_tick process_wt_reschedule_slotlist process_elems process_elem
    by_opcode free_wheel_timer_element timer_de_register_app_event timer_reschedule_internal
    next_abs_slot_no current_abs_slot_no wt_get_clock_interval_in_milli_sec in_milli_sec
expires_after_de_register = refl
