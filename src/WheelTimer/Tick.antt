-- ===== src/WheelTimer/Tick.antt =====
-- libtimer/WheelTimer.c: `wheel_fn`, run at each tick of the clock.
use networking_protocol_deve.Base.{
  ℕ, zero, suc, ◌+◌, Option, none, some, List, [], ◌∷◌, ◌==◌, if◌then◌else◌, ◌>>=◌,
}
use networking_protocol_deve.WheelTimer.{
  WheelTimer, unlink, schedule_at, next_abs_slot_no, process_wt_reschedule_slotlist,
}

-- A job given to the event dispatcher: `app_callback` and `arg`.
abbrev pub Job : Type 0
Job = ℕ × ℕ

abbrev pub first_node : List ℕ → ℕ
first_node [] = 0
first_node (x ∷ xs) = x

-- The successor of a node of a list.
abbrev pub next_node : ℕ → List ℕ → ℕ
next_node c [] = 0
next_node c (x ∷ xs) = if x == c then first_node xs else next_node c xs

-- What `wheel_fn` does to an element that is due, after the job has been created.
unfoldable pub after_expiry : WheelTimer → ℕ → WheelTimer
after_expiry wt e =
    if (wt.elems e).is_recurrence
    then (schedule_at wt e (next_abs_slot_no wt (wt.elems e).time_interval))
    else unlink (unlink wt e) e

abbrev pub add_job : Job → Option (WheelTimer × List Job) → Option (WheelTimer × List Job)
add_job j none = none
add_job j (some (wt, js)) = some (wt, j ∷ js)

-- The loop of `wheel_fn` over the slot of the current tick, on fuel from the node `curr`.
unfoldable pub expire_from : ℕ → WheelTimer → ℕ → Option (WheelTimer × List Job)
expire_from zero wt curr = if curr == 0 then some (wt, []) else none
expire_from (suc fuel) wt curr =
    let next = next_node curr (wt.slotlist wt.current_clock_tic) in
    let v = wt.elems curr in
    let rest = expire_from fuel (after_expiry wt curr) next in
    if curr == 0
    then some (wt, [])
    else if wt.current_cycle_no == v.execute_cycle_no
    then (add_job (v.app_callback, v.arg) rest)
    else some (wt, [])

-- The first lines of `wheel_fn`.
unfoldable pub advance : WheelTimer → WheelTimer
advance wt =
    if wt.current_clock_tic + 1 == wt.wheel_size
    then (record wt { current_clock_tic = 0; current_cycle_no = wt.current_cycle_no + 1 })
    else record wt { current_clock_tic = wt.current_clock_tic + 1 }

unfoldable pub finish_tick : Option (WheelTimer × List Job) → Option (WheelTimer × List Job)
finish_tick none = none
finish_tick (some (wt, jobs)) = do next ← process_wt_reschedule_slotlist wt; some (next, jobs)

unfoldable pub wheel_fn : ℕ → WheelTimer → Option (WheelTimer × List Job)
wheel_fn fuel wt =
    let ticked = advance wt in
    finish_tick (expire_from fuel ticked (first_node (ticked.slotlist ticked.current_clock_tic)))
