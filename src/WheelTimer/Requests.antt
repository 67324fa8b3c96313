-- ===== src/WheelTimer/Requests.antt =====
-- libtimer/WheelTimer.c: the requests of the applications.
use networking_protocol_deve.Base.{
  ℕ, ◌+◌, ◌-◌, ◌*◌, ◌^◌, ◌%◌, Bool, false, ◌&&◌, not, Option, none, some, ◌∷◌, ◌==◌, if◌then◌else◌,
  ◌>>=◌, ltb,
}
use networking_protocol_deve.Gluethread.Remove.{erase}
use networking_protocol_deve.WheelTimer.{
  WheelTimer, WtElem, WtOpcode, wtelem_create, wtelem_resched, wtelem_delete, wtelem_scheduled,
  wtelem_unknown, set_elem, wt_get_clock_interval_in_milli_sec, current_abs_slot_no,
}

-- `_timer_reschedule`; `none` where its `default` case fails an `assert`
unfoldable pub timer_reschedule_internal : WheelTimer → ℕ → ℕ → WtOpcode → Option WheelTimer
timer_reschedule_internal wt e new_time_interval opcode =
    let v = wt.elems e in
    let marked =
      set_elem wt e (record v {
        opcode = opcode;
        new_time_interval = new_time_interval;
        slotlist_head = none;
      }) in
    let queued = record marked { reschd_list = e ∷ erase e wt.reschd_list } in
    elim opcode [
      | wtelem_create ↦ some queued
      | wtelem_resched ↦ some queued
      | wtelem_delete ↦ some queued
      | wtelem_scheduled ↦ none
      | wtelem_unknown ↦ none
    ]

-- `time_interval % clock_tick_interval_in_milli_sec`; the remainder by 0 is `none`
unfoldable pub is_whole_ticks : WheelTimer → ℕ → Option Bool
is_whole_ticks wt interval =
    let tick = wt_get_clock_interval_in_milli_sec wt in
    if interval == 0 then some false else if tick == 0 then none else some (interval % tick == 0)

-- The element that `timer_register_app_event` fills in.
unfoldable pub new_elem : ℕ → ℕ → ℕ → Bool → WtElem
new_elem call_back arg arg_size is_recursive =
    let has_arg = not (arg == 0) && not (arg_size == 0) in
    record {
      opcode = wtelem_create;
      time_interval = 0;
      new_time_interval = 0;
      execute_cycle_no = 0;
      slot_no = 0;
      app_callback = call_back;
      arg = if has_arg then arg else 0;
      arg_size = if has_arg then arg_size else 0;
      is_recurrence = is_recursive;
      slotlist_head = none;
      n_scheduled = 0;
    }

unfoldable pub registered : ℕ → Option WheelTimer → Option (ℕ × WheelTimer)
registered e none = none
registered e (some wt) = some (e, wt)

-- `timer_register_app_event` with the address `e` that `calloc` answers: the element, 0 for `NULL`.
unfoldable pub timer_register_app_event :
    WheelTimer → ℕ → ℕ → ℕ → ℕ → ℕ → Bool → Option (ℕ × WheelTimer)
timer_register_app_event wt e call_back arg arg_size time_interval is_recursive =
    if call_back == 0 then some (0, wt) else do
      whole ← is_whole_ticks wt time_interval
      let made = set_elem wt e (new_elem call_back arg arg_size is_recursive)
      if whole
          then registered e (timer_reschedule_internal made e time_interval wtelem_create)
          else none

unfoldable pub timer_de_register_app_event : WheelTimer → ℕ → Option WheelTimer
timer_de_register_app_event wt e =
    let v = wt.elems e in
    timer_reschedule_internal (set_elem wt e (record v { arg = 0 })) e 0 wtelem_delete

unfoldable pub timer_reschedule : WheelTimer → ℕ → ℕ → Option WheelTimer
timer_reschedule wt e new_time_interval = do
  whole ← is_whole_ticks wt new_time_interval
  if whole then timer_reschedule_internal wt e new_time_interval wtelem_resched else none

unfoldable pub remaining_by_opcode : WtOpcode → ℕ → ℕ → ℕ
remaining_by_opcode wtelem_create requested assigned = requested
remaining_by_opcode wtelem_resched requested assigned = requested
remaining_by_opcode _ requested assigned = assigned

-- an `int`
pub data ℤ : Type 0 where
  pos negsuc : ℕ → ℤ

-- the `int` of 32 bits
abbrev pub int_of : ℕ → ℤ
int_of x = if ltb x (2 ^ 31) then pos x else negsuc (2 ^ 32 - 1 - x)

-- `wt_get_remaining_time`, with the sign of the `int` that it returns
unfoldable pub wt_get_remaining_time : WheelTimer → ℕ → ℤ
wt_get_remaining_time wt e =
    let v = wt.elems e in
    let elem_abs = v.execute_cycle_no * wt.wheel_size + v.slot_no in
    let diff = (elem_abs + 2 ^ 32 - current_abs_slot_no wt) % 2 ^ 32 in
    int_of (
      remaining_by_opcode v.opcode v.new_time_interval
        (diff * wt_get_clock_interval_in_milli_sec wt % 2 ^ 32))
