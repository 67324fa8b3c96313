-- ===== src/WheelTimer.antt =====
-- libtimer/WheelTimer.c and libtimer/WheelTimer.h: the timer wheel, its elements and their slots.
pub mod Step
pub mod Rest
pub mod Carried
pub mod Due
pub mod Expiry
pub mod Fires
pub mod Liveness
pub mod OneTick
pub mod Pending
pub mod Registered
pub mod Removed
pub mod Periodic
pub mod Requests
pub mod Schedule
pub mod Slots
pub mod Tick
use networking_protocol_deve.Base.{
  ℕ, zero, suc, ◌+◌, ◌-◌, ◌*◌, ◌/◌, ◌^◌, ◌%◌, Bool, true, false, ◌&&◌, ◌||◌, not, Option, none,
  some, List, [], ◌∷◌, ◌==◌, ltb, if◌then◌else◌, ◌>>=◌,
}
use networking_protocol_deve.Gluethread.{ℤ, pos, negsuc}
use networking_protocol_deve.Gluethread.Remove.{erase}
use networking_protocol_deve.Gluethread.Sorted.{insert_before}

pub data TimerResolution : Type 0 where
  timer_seconds timer_milli_seconds : TimerResolution

pub data WtOpcode : Type 0 where
  wtelem_create wtelem_resched wtelem_delete wtelem_scheduled wtelem_unknown : WtOpcode

-- `wheel_timer_elem_t`; pointers are addresses, 0 for `NULL`, and `slotlist_head` is the index of the slot.
pub record WtElem : Type 0 where
  pub opcode : WtOpcode
  pub time_interval : ℕ
  pub new_time_interval : ℕ
  pub execute_cycle_no : ℕ
  pub slot_no : ℕ
  pub app_callback : ℕ
  pub arg : ℕ
  pub arg_size : ℕ
  pub is_recurrence : Bool
  pub slotlist_head : Option ℕ
  pub n_scheduled : ℕ

-- `wheel_timer_t` with the elements at their addresses. A `glthread_t` list is the sequence of the elements
-- whose `glue` (`reschedule_glue` in `reschd_list`) it links.
pub record WheelTimer : Type 0 where
  pub current_clock_tic : ℕ
  pub clock_tic_interval : ℕ
  pub wheel_size : ℕ
  pub current_cycle_no : ℕ
  pub reschd_list : List ℕ
  pub timer_resolution : TimerResolution
  pub slotlist : ℕ → List ℕ
  pub elems : ℕ → WtElem
  pub freed : List ℕ

unfoldable pub set_elem : WheelTimer → ℕ → WtElem → WheelTimer
set_elem wt e v = record wt { elems = λ q. if q == e then v else wt.elems q }

unfoldable pub set_slot : WheelTimer → ℕ → List ℕ → WheelTimer
set_slot wt s v = record wt { slotlist = λ q. if q == s then v else wt.slotlist q }

-- `remove_glthread(&wt_elem->glue)`: the node leaves the slot that it is linked in, if there is one.
unfoldable pub unlink : WheelTimer → ℕ → WheelTimer
unlink wt e = record wt { slotlist = λ q. erase e (wt.slotlist q) }

-- `remove_glthread(&wt_elem->reschedule_glue)`
unfoldable pub unlink_reschedule : WheelTimer → ℕ → WheelTimer
unlink_reschedule wt e = record wt { reschd_list = erase e wt.reschd_list }

unfoldable pub insert_wt_elem_in_slot : WtElem → WtElem → ℤ
insert_wt_elem_in_slot wt_elem1 wt_elem2 =
    if ltb wt_elem1.execute_cycle_no wt_elem2.execute_cycle_no
    then negsuc 0
    else if ltb wt_elem2.execute_cycle_no wt_elem1.execute_cycle_no
    then pos 1
    else pos 0

unfoldable pub slot_order : WheelTimer → ℕ → ℕ → ℤ
slot_order wt a b = insert_wt_elem_in_slot (wt.elems a) (wt.elems b)

-- `glthread_priority_insert` of the element's `glue` into a slot
unfoldable pub insert_in_slot : WheelTimer → ℕ → ℕ → WheelTimer
insert_in_slot wt s e = set_slot wt s (insert_before (slot_order wt) 0 e (wt.slotlist s))

unfoldable pub in_milli_sec : TimerResolution → ℕ → ℕ
in_milli_sec timer_milli_seconds interval = interval
in_milli_sec timer_seconds interval = interval * 1000 % 2 ^ 32

unfoldable pub wt_get_clock_interval_in_milli_sec : WheelTimer → ℕ
wt_get_clock_interval_in_milli_sec wt = in_milli_sec wt.timer_resolution wt.clock_tic_interval

unfoldable pub current_abs_slot_no : WheelTimer → ℕ
current_abs_slot_no wt = wt.current_cycle_no * wt.wheel_size + wt.current_clock_tic

-- The absolute slot an interval from now.
unfoldable pub next_abs_slot_no : WheelTimer → ℕ → ℕ
next_abs_slot_no wt interval =
    current_abs_slot_no wt + interval / wt_get_clock_interval_in_milli_sec wt

-- Puts an element whose `glue` is unlinked into the slot of an absolute slot number.
unfoldable pub schedule_at : WheelTimer → ℕ → ℕ → WheelTimer
schedule_at wt e abs =
    let next_slot_no = abs % wt.wheel_size in
    let v = wt.elems e in
    let timed = set_elem wt e (record v { execute_cycle_no = abs / wt.wheel_size }) in
    let inserted = insert_in_slot (unlink timed e) next_slot_no e in
    set_elem inserted e (record v {
      execute_cycle_no = abs / wt.wheel_size;
      slot_no = next_slot_no;
      slotlist_head = some next_slot_no;
      n_scheduled = v.n_scheduled + 1;
    })

-- `case WTELEM_CREATE: case WTELEM_RESCHED:` for an element that has left its slot; a failed `assert` is `none`
unfoldable pub assign_slot : WheelTimer → ℕ → Option WheelTimer
assign_slot wt e =
    let v = wt.elems e in
    if v.app_callback == 0 || v.new_time_interval == 0
    then none
    else (let timed = set_elem wt e (record v { time_interval = v.new_time_interval }) in
        let placed = schedule_at timed e (next_abs_slot_no wt v.new_time_interval) in
        some (
          set_elem (unlink_reschedule placed e) e
            (record (placed.elems e) { opcode = wtelem_scheduled })))

-- `free_wheel_timer_element`
unfoldable pub free_wheel_timer_element : WheelTimer → ℕ → WheelTimer
free_wheel_timer_element wt e =
    let v = wt.elems e in
    record (set_elem wt e (record v { slotlist_head = none })) { freed = e ∷ wt.freed }

unfoldable pub by_opcode : WheelTimer → ℕ → WtOpcode → Option WheelTimer
by_opcode wt e wtelem_create = assign_slot wt e
by_opcode wt e wtelem_resched = assign_slot wt e
by_opcode wt e wtelem_delete = some (free_wheel_timer_element (unlink_reschedule wt e) e)
by_opcode wt e wtelem_scheduled = some wt
by_opcode wt e wtelem_unknown = none

-- The body of the loop of `process_wt_reschedule_slotlist`.
unfoldable pub process_elem : WheelTimer → ℕ → Option WheelTimer
process_elem wt e =
    let left = unlink wt e in
    let v = left.elems e in
    by_opcode (set_elem left e (record v { slotlist_head = none })) e v.opcode

-- The loop reads a node's successor before its body, which unlinks at most the node itself.
unfoldable pub process_elems : List ℕ → WheelTimer → Option WheelTimer
unfolding process_elem
process_elems [] wt = some wt
process_elems (e ∷ es) wt = do next ← process_elem wt e; process_elems es next

unfoldable pub process_wt_reschedule_slotlist : WheelTimer → Option WheelTimer
process_wt_reschedule_slotlist wt = process_elems wt.reschd_list wt

-- `init_wheel_timer`: the memory comes from `calloc`.
unfoldable pub init_wheel_timer : (ℕ → WtElem) → ℕ → ℕ → TimerResolution → WheelTimer
init_wheel_timer elems wheel_size clock_tic_interval timer_resolution = record {
  current_clock_tic = 0;
  clock_tic_interval = clock_tic_interval;
  wheel_size = wheel_size;
  current_cycle_no = 0;
  reschd_list = [];
  timer_resolution = timer_resolution;
  slotlist = λ i. [];
  elems = elems;
  freed = [];
}

unfoldable pub reset_wheel_timer : WheelTimer → WheelTimer
reset_wheel_timer wt = record wt { current_clock_tic = 0; current_cycle_no = 0 }
