-- ===== src/WheelTimer/Registered.antt =====
-- libtimer/WheelTimer.c: registration and rescheduling, from the request to the slot.
use mathlib.Core.Path.{subst}
use native.Mathlib.Nat.{div-add-mod'}
use networking_protocol_deve.Base.{
  ℕ, ◌+◌, ◌*◌, ◌/◌, ◌%◌, ◌<◌, ◌≡◌, ◌≢◌, ◌⊎◌, inl, inr, refl, sym, ap, ◌∙◌, Bool, true, false, none,
  some, ◌∷◌, ◌==◌, arith, Bool-cases,
}
use networking_protocol_deve.Gluethread.Linked.{has}
use networking_protocol_deve.Gluethread.Remove.{erase}
use networking_protocol_deve.WheelTimer.{
  wtelem_create, wtelem_resched, wtelem_scheduled, process_wt_reschedule_slotlist, WheelTimer,
  WtElem, set_elem, current_abs_slot_no, wt_get_clock_interval_in_milli_sec,
}
use networking_protocol_deve.WheelTimer.Slots.{Slotted}
use networking_protocol_deve.WheelTimer.Due.{waiting}
use networking_protocol_deve.WheelTimer.Fires.{interval-transfer}
use networking_protocol_deve.WheelTimer.Liveness.{Idle, abs_slot_of}
use networking_protocol_deve.WheelTimer.Requests.{
  timer_register_app_event, timer_reschedule, timer_reschedule_internal, is_whole_ticks, registered,
  new_elem,
}
use networking_protocol_deve.WheelTimer.Pending.{
  Outside, set_unlinked-Slotted, set_same-Slotted, set_elem_self,
}
use networking_protocol_deve.WheelTimer.Carried.{process-Assigned, Assigned-abs}

whole-is_whole :
    (wt : WheelTimer) (k i : ℕ)
    → wt_get_clock_interval_in_milli_sec wt ≡ k
    → 0 < k
    → 0 < i
    → i % k ≡ 0
    → is_whole_ticks wt i ≡ some true
unfolding is_whole_ticks
whole-is_whole wt k i c p q h =
    let a : (i == 0) ≡ false = ground arith in
    let b : (k == 0) ≡ false = ground arith in rw (c, a, b, h) refl

whole-ticks : (k i : ℕ) → 0 < k → 0 < i → i % k ≡ 0 → 0 < i / k
whole-ticks k i p q h =
    let parts = div-add-mod' i k in
    elim (Bool-cases (i / k == 0)) [
      | inl z ↦
          let zero_ticks : i / k ≡ 0 = ground arith in
          let none_left : 0 * k + i % k ≡ i = ap (λ d. d * k + i % k) (sym zero_ticks) ∙ parts in
          ground arith
      | inr z ↦ ground arith
    ]

-- The state with a request for `e`, of an interval of `i` milliseconds.
abbrev queue : WheelTimer → ℕ → WtElem → WheelTimer
queue wt e v = record (set_elem wt e v) { reschd_list = e ∷ erase e wt.reschd_list }

-- The element is in its slot, an interval of `i` milliseconds ahead.
abbrev pub Scheduled : ℕ → WheelTimer → ℕ → ℕ → Type 0
Scheduled k n e i =
    Idle k n
    × (has e (n.slotlist (n.elems e).slot_no) ≡ true)
    × (abs_slot_of n e ≡ current_abs_slot_no n + i / k)
    × ((n.elems e).opcode ≡ wtelem_scheduled)

queue-Scheduled :
    (k : ℕ) (wt : WheelTimer) (e i : ℕ) (v : WtElem)
    → Idle k wt
    → Slotted (waiting wt.current_cycle_no wt.current_clock_tic k) (set_elem wt e v)
    → 0 < e
    → v.app_callback ≢ 0
    → v.new_time_interval ≡ i
    → 0 < i / k
    → (v.opcode ≡ wtelem_create) ⊎ (v.opcode ≡ wtelem_resched)
    → (n : WheelTimer) × (process_wt_reschedule_slotlist (queue wt e v) ≡ some n)
      × Scheduled k n e i
unfolding set_elem wt_get_clock_interval_in_milli_sec
queue-Scheduled k wt e i v (interval, b, idle, _) inv z c same whole op =
    let self = set_elem_self wt e v in
    let request = queue wt e v in
    let callback : (request.elems e).app_callback ≢ 0 =
      λ h. c (sym (ap WtElem.app_callback self) ∙ h) in
    let asked : (request.elems e).new_time_interval ≡ i = ap WtElem.new_time_interval self ∙ same in
    let whole' : 0 < (request.elems e).new_time_interval / k =
      subst (λ j. 0 < j / k) (sym asked) whole in
    let op' : ((request.elems e).opcode ≡ wtelem_create)
        ⊎ ((request.elems e).opcode ≡ wtelem_resched) =
      elim op [
        | inl o ↦ inl (ap WtElem.opcode self ∙ o)
        | inr o ↦ inr (ap WtElem.opcode self ∙ o)
      ] in
    let (n, done, idle', assigned) =
      process-Assigned k request e inv interval b (ap (λ l. e ∷ erase e l) idle) z callback whole'
        op' in
    let (_, _, _, _, _, _, there, _, slot, opcode) = assigned in
    let abs = Assigned-abs k request e (request.elems e).new_time_interval n interval assigned in
    (
      n,
      done,
      (
        idle',
        ap (λ s. has e (n.slotlist s)) slot ∙ there,
        abs ∙ ap (λ j. current_abs_slot_no n + j / k) asked,
        opcode,
      ),
    )

-- On an idle wheel an element at a new address, with a callback and an interval of a positive
-- number of whole ticks, is registered without an error; once its request has been processed the
-- wheel is idle again and the element waits in the slot that lies its interval ahead.
pub register-Scheduled :
    (k : ℕ) (wt : WheelTimer) (e call_back arg arg_size time_interval : ℕ) (is_recursive : Bool)
    → Idle k wt
    → Outside wt e
    → 0 < e
    → call_back ≢ 0
    → 0 < k
    → 0 < time_interval
    → time_interval % k ≡ 0
    → (queued n : WheelTimer) × (timer_register_app_event wt e call_back arg arg_size time_interval
          is_recursive
        ≡ some (e, queued))
      × (process_wt_reschedule_slotlist queued ≡ some n)
      × Scheduled k n e time_interval
unfolding timer_register_app_event timer_reschedule_internal registered set_elem new_elem
register-Scheduled k wt e call_back arg arg_size time_interval is_recursive idle out z c p q h =
    let (i, b, pending, inv) = idle in
    let made = set_elem wt e (new_elem call_back arg arg_size is_recursive) in
    let test = waiting wt.current_cycle_no wt.current_clock_tic k in
    let v = record (made.elems e) {
      opcode = wtelem_create;
      new_time_interval = time_interval;
      slotlist_head = none;
    } in
    let null : (call_back == 0) ≡ false = ground arith in
    let whole = whole-is_whole wt k time_interval i p q h in
    let run : timer_register_app_event wt e call_back arg arg_size time_interval is_recursive
        ≡ some (e, queue made e v) =
      rw (null, whole) refl in
    let made_in =
      set_unlinked-Slotted test wt e (new_elem call_back arg arg_size is_recursive) out inv in
    let queued_in = set_unlinked-Slotted test made e v out made_in in
    let callback : v.app_callback ≡ call_back =
      ap WtElem.app_callback (set_elem_self wt e (new_elem call_back arg arg_size is_recursive)) in
    let (n, done, ready) =
      queue-Scheduled k made e time_interval v
        (interval-transfer wt made refl refl ∙ i, b, pending, made_in) queued_in z
        (λ g. c (sym callback ∙ g)) refl (whole-ticks k time_interval p q h) (inl refl) in
    (queue made e v, n, run, done, ready)

-- On an idle wheel `timer_reschedule` of an element that has a callback, to an interval of a
-- positive number of whole ticks, does not fail; once the request has been processed the wheel is
-- idle again and the element waits in the slot that lies the new interval ahead.
pub reschedule-Scheduled :
    (k : ℕ) (wt : WheelTimer) (e new_time_interval : ℕ)
    → Idle k wt
    → 0 < e
    → (wt.elems e).app_callback ≢ 0
    → 0 < k
    → 0 < new_time_interval
    → new_time_interval % k ≡ 0
    → (queued n : WheelTimer) × (timer_reschedule wt e new_time_interval ≡ some queued)
      × (process_wt_reschedule_slotlist queued ≡ some n)
      × Scheduled k n e new_time_interval
unfolding timer_reschedule timer_reschedule_internal
reschedule-Scheduled k wt e new_time_interval idle z c p q h =
    let (i, b, pending, inv) = idle in
    let test = waiting wt.current_cycle_no wt.current_clock_tic k in
    let v = record (wt.elems e) {
      opcode = wtelem_resched;
      new_time_interval = new_time_interval;
      slotlist_head = none;
    } in
    let whole = whole-is_whole wt k new_time_interval i p q h in
    let queued_in = set_same-Slotted test wt e v refl refl (λ old. old) inv in
    let (n, done, ready) =
      queue-Scheduled k wt e new_time_interval v idle queued_in z c refl
        (whole-ticks k new_time_interval p q h) (inr refl) in
    (queue wt e v, n, rw (whole) refl, done, ready)
