-- ===== src/WheelTimer/Carried.antt =====
-- libtimer/WheelTimer.c: a request of an application and the tick that carries it out.
use mathlib.Core.Path.{subst}
use native.Mathlib.Nat.{div-add-mod'}
use networking_protocol_deve.Base.{
  ℕ, ◌+◌, ◌*◌, ◌/◌, ◌<◌, ◌≡◌, ◌≢◌, ◌⊎◌, inl, inr, refl, sym, ap, ◌∙◌, Bool, true, none, some, [],
  ◌∷◌, ◌>>=◌, arith, ==_refl,
}
use networking_protocol_deve.Gluethread.Linked.{distinct}
use networking_protocol_deve.Gluethread.Remove.{erase}
use networking_protocol_deve.WheelTimer.{
  assign_slot, by_opcode, process_elem, wtelem_create, wtelem_resched,
  process_wt_reschedule_slotlist, process_elems, WheelTimer, WtElem, set_elem, unlink,
  next_abs_slot_no, current_abs_slot_no, wt_get_clock_interval_in_milli_sec,
}
use networking_protocol_deve.WheelTimer.Slots.{Slotted, has-erase_self}
use networking_protocol_deve.WheelTimer.Due.{unlink-Slotted, waiting, SameWheel}
use networking_protocol_deve.WheelTimer.Liveness.{Idle, abs_slot_of}
use networking_protocol_deve.WheelTimer.Pending.{
  Outside, Assigned, assign_slot-lem, set_unlinked-Slotted,
}

module _ (wt : WheelTimer) (e : ℕ) where
  -- What the loop over the requests does first: the element leaves its slot.
  abbrev left : WheelTimer
  left = set_elem (unlink wt e) e (record (wt.elems e) { slotlist_head = none })

  process_elem-opcode : process_elem wt e ≡ by_opcode left e (wt.elems e).opcode
  unfolding process_elem unlink
  process_elem-opcode = refl

  left-fields :
      (left.slotlist ≡ (λ q. erase e (wt.slotlist q)))
      × SameWheel wt left
      × (left.elems e ≡ record (wt.elems e) { slotlist_head = none })
      × ((i : ℕ) → next_abs_slot_no left i ≡ next_abs_slot_no wt i)
  unfolding unlink set_elem next_abs_slot_no current_abs_slot_no wt_get_clock_interval_in_milli_sec
  left-fields = (refl, (refl, refl, refl, refl, refl, refl), ground arith, λ i. refl)

  left-Outside : ((s : ℕ) → distinct (wt.slotlist s) ≡ true) → Outside left e
  unfolding unlink set_elem
  left-Outside d = λ s. has-erase_self e (wt.slotlist s) (d s)

  unlink-Outside : ((s : ℕ) → distinct (wt.slotlist s) ≡ true) → Outside (unlink wt e) e
  unfolding unlink
  unlink-Outside d = λ s. has-erase_self e (wt.slotlist s) (d s)

  left-Slotted : (test : WtElem → Bool) → Slotted test wt → Slotted test left
  left-Slotted test inv =
      let (_, d, _) = inv in
      set_unlinked-Slotted test (unlink wt e) e (record (wt.elems e) { slotlist_head = none })
        (unlink-Outside d) (unlink-Slotted test wt e inv)

  pub process_elem-Assigned :
      (k : ℕ)
      → wt_get_clock_interval_in_milli_sec wt ≡ k
      → 0 < wt.wheel_size
      → Slotted (waiting wt.current_cycle_no wt.current_clock_tic k) wt
      → 0 < e
      → (wt.elems e).app_callback ≢ 0
      → 0 < (wt.elems e).new_time_interval / k
      → (n : WheelTimer) × (assign_slot left e ≡ some n)
        × Assigned k wt e (next_abs_slot_no wt (wt.elems e).new_time_interval) n
  unfolding set_elem unlink next_abs_slot_no current_abs_slot_no wt_get_clock_interval_in_milli_sec
  process_elem-Assigned k i z inv p callback whole =
      let (_, _, self, _) = left-fields in
      let (_, d, _) = inv in
      let test = waiting wt.current_cycle_no wt.current_clock_tic k in
      let callback' : (left.elems e).app_callback ≢ 0 =
        λ h. callback (sym (ap WtElem.app_callback self) ∙ h) in
      let whole' : 0 < (left.elems e).new_time_interval / k =
        subst (λ j. 0 < j / k) (sym (ap WtElem.new_time_interval self)) whole in
      let (n, run, assigned) =
        assign_slot-lem left e k i z (left-Slotted test inv) (left-Outside d) p callback' whole' in
      (
        n,
        run,
        subst (λ j. Assigned k wt e (next_abs_slot_no wt j) n) (ap WtElem.new_time_interval self)
            assigned,
      )

-- The list of requests holds `e` only, whose request is to be put into a slot.
pub process-Assigned :
    (k : ℕ) (wt : WheelTimer) (e : ℕ)
    → Slotted (waiting wt.current_cycle_no wt.current_clock_tic k) wt
    → wt_get_clock_interval_in_milli_sec wt ≡ k
    → wt.current_clock_tic < wt.wheel_size
    → wt.reschd_list ≡ e ∷ []
    → 0 < e
    → (wt.elems e).app_callback ≢ 0
    → 0 < (wt.elems e).new_time_interval / k
    → ((wt.elems e).opcode ≡ wtelem_create) ⊎ ((wt.elems e).opcode ≡ wtelem_resched)
    → (n : WheelTimer) × (process_wt_reschedule_slotlist wt ≡ some n)
      × Idle k n
      × Assigned k wt e (next_abs_slot_no wt (wt.elems e).new_time_interval) n
unfolding process_wt_reschedule_slotlist process_elems by_opcode
process-Assigned k wt e inv i b one p callback whole op =
    let (n, run, assigned) =
      process_elem-Assigned wt e k i (omega (arith, b)) inv p callback whole in
    let (slotted, pending, size, tic, cycle, interval, _, _, _, _) = assigned in
    let case_of : by_opcode (left wt e) e (wt.elems e).opcode ≡ assign_slot (left wt e) e =
      elim op [ inl o ↦ ap (by_opcode (left wt e) e) o | inr o ↦ ap (by_opcode (left wt e) e) o ] in
    let body : process_elem wt e ≡ some n = process_elem-opcode wt e ∙ case_of ∙ run in
    let slotted' : Slotted (waiting n.current_cycle_no n.current_clock_tic k) n =
      subst (λ c. Slotted (waiting c n.current_clock_tic k) n) (sym cycle)
        (subst (λ t. Slotted (waiting wt.current_cycle_no t k) n) (sym tic) slotted) in
    let gone : erase e (e ∷ []) ≡ [] = rw (==_refl e) refl in
    (
      n,
      ap (λ l. process_elems l wt) one ∙ ap (λ o. o >>= λ m. some m) body,
      (interval, omega (arith, tic, size, b), pending ∙ ap (erase e) one ∙ gone, slotted'),
      assigned,
    )

-- Where the element waits, in ticks from now.
pub Assigned-abs :
    (k : ℕ) (wt : WheelTimer) (e i : ℕ) (n : WheelTimer)
    → wt_get_clock_interval_in_milli_sec wt ≡ k
    → Assigned k wt e (next_abs_slot_no wt i) n
    → abs_slot_of n e ≡ current_abs_slot_no n + i / k
unfolding next_abs_slot_no current_abs_slot_no
Assigned-abs k wt e i n interval (_, _, size, tic, cycle, _, _, exec, slot, _) =
    let abs = next_abs_slot_no wt i in
    ap (λ w. (n.elems e).execute_cycle_no * w + (n.elems e).slot_no) size
    ∙ ap (λ c. c * wt.wheel_size + (n.elems e).slot_no) exec
    ∙ ap (λ s. abs / wt.wheel_size * wt.wheel_size + s) slot
    ∙ div-add-mod' abs wt.wheel_size
    ∙ ap (λ d. wt.current_cycle_no * wt.wheel_size + wt.current_clock_tic + i / d) interval
    ∙ ap (λ c. c * wt.wheel_size + wt.current_clock_tic + i / k) (sym cycle)
    ∙ ap (λ w. n.current_cycle_no * w + wt.current_clock_tic + i / k) (sym size)
    ∙ ap (λ t. n.current_cycle_no * n.wheel_size + t + i / k) (sym tic)
