-- ===== src/WheelTimer/Pending.antt =====
-- libtimer/WheelTimer.c: the requests that the end of a tick carries out.
use mathlib.Core.Path.{subst}
use native.Mathlib.Nat.{div-le_self}
use networking_protocol_deve.Base.{
  ℕ, ◌/◌, ◌%◌, ◌<◌, ◌≡◌, ◌≢◌, inl, inr, refl, sym, ap, ◌∙◌, Bool, true, false, ◌||◌, some, List, [],
  ◌∷◌, ◌==◌, arith, Bool-cases,
}
use networking_protocol_deve.Gluethread.Linked.{has}
use networking_protocol_deve.Gluethread.Remove.{erase}
use networking_protocol_deve.WheelTimer.{
  unlink_reschedule, assign_slot, wtelem_scheduled, WheelTimer, WtElem, set_elem, schedule_at,
  next_abs_slot_no, wt_get_clock_interval_in_milli_sec,
}
use networking_protocol_deve.WheelTimer.Slots.{cycle_of, Slotted, Ascending-transfer}
use networking_protocol_deve.WheelTimer.Schedule.{
  schedule_at-inside, schedule_at-elem, schedule_at-kept, schedule_at-slot_no, schedule_at-wheel,
  schedule_at-Slotted,
}
use networking_protocol_deve.WheelTimer.Due.{next_abs-later, waiting, SameWheel}
use networking_protocol_deve.WheelTimer.Fires.{interval-transfer}

-- An element that no slot holds.
abbrev pub Outside : WheelTimer → ℕ → Type 0
Outside wt e = (s : ℕ) → has e (wt.slotlist s) ≡ false

pub set_elem_other :
    (wt : WheelTimer) (e q : ℕ) (v : WtElem) → q ≢ e → (set_elem wt e v).elems q ≡ wt.elems q
unfolding set_elem
set_elem_other wt e q v n = ground arith

pub set_elem_self : (wt : WheelTimer) (e : ℕ) (v : WtElem) → (set_elem wt e v).elems e ≡ v
unfolding set_elem
set_elem_self wt e v = ground arith

has-ne : (e q : ℕ) (xs : List ℕ) → has e xs ≡ false → has q xs ≡ true → q ≢ e
has-ne e q [] f m = ground arith
has-ne e q (x ∷ xs) f m = ground (arith, has-ne e q xs)

pub set_unlinked-Slotted :
    (test : WtElem → Bool) (wt : WheelTimer) (e : ℕ) (v : WtElem)
    → Outside wt e
    → Slotted test wt
    → Slotted test (set_elem wt e v)
unfolding set_elem
set_unlinked-Slotted test wt e v out (placed, d, h) = (
  λ s q m.
      let n = has-ne e q (wt.slotlist s) (out s) m in
      let other : (q == e) ≡ false = ground arith in rw (other) (placed s q m),
  d,
  λ s.
      Ascending-transfer (cycle_of wt) (cycle_of (set_elem wt e v)) (wt.slotlist s)
        (λ q m.
          ap WtElem.execute_cycle_no
            (set_elem_other wt e q v (has-ne e q (wt.slotlist s) (out s) m)))
        (h s),
)

-- A change of an element that keeps its place.
pub set_same-Slotted :
    (test : WtElem → Bool) (wt : WheelTimer) (e : ℕ) (v : WtElem)
    → v.execute_cycle_no ≡ (wt.elems e).execute_cycle_no
    → v.slot_no ≡ (wt.elems e).slot_no
    → (test (wt.elems e) ≡ true → test v ≡ true)
    → Slotted test wt
    → Slotted test (set_elem wt e v)
unfolding set_elem
set_same-Slotted test wt e v cycle slot t (placed, d, h) = (
  λ s q m. elim (Bool-cases (q == e)) [
    | inl k ↦
        let same : q ≡ e = ground arith in
        let (a, b, l, f) = placed s q m in
        let f' : test (wt.elems e) ≡ true = subst (λ r. test (wt.elems r) ≡ true) same f in
        rw (k) (a, slot ∙ ap (λ r. (wt.elems r).slot_no) (sym same) ∙ b, l, t f')
    | inr k ↦ rw (k) (placed s q m)
  ],
  d,
  λ s.
      Ascending-transfer (cycle_of wt) (cycle_of (set_elem wt e v)) (wt.slotlist s)
        (λ q m. elim (Bool-cases (q == e)) [
          | inl k ↦
              let same : q ≡ e = ground arith in
              ap (cycle_of (set_elem wt e v)) same
              ∙ ap WtElem.execute_cycle_no (set_elem_self wt e v)
              ∙ cycle
              ∙ ap (cycle_of wt) (sym same)
          | inr k ↦ ap WtElem.execute_cycle_no (set_elem_other wt e q v (ground arith))
        ])
        (h s),
)

pub set_elem-wheel :
    (wt : WheelTimer) (e : ℕ) (v : WtElem)
    → SameWheel wt (set_elem wt e v) × ((set_elem wt e v).slotlist ≡ wt.slotlist)
unfolding set_elem
set_elem-wheel wt e v = ((refl, refl, refl, refl, refl, refl), refl)

-- The last steps of `assign_slot`.
abbrev scheduled : WheelTimer → ℕ → WheelTimer
scheduled placed e =
    set_elem (unlink_reschedule placed e) e (record (placed.elems e) { opcode = wtelem_scheduled })

scheduled-fields :
    (placed : WheelTimer) (e : ℕ)
    → ((scheduled placed e).wheel_size ≡ placed.wheel_size)
      × ((scheduled placed e).current_clock_tic ≡ placed.current_clock_tic)
      × ((scheduled placed e).current_cycle_no ≡ placed.current_cycle_no)
      × ((scheduled placed e).clock_tic_interval ≡ placed.clock_tic_interval)
      × ((scheduled placed e).timer_resolution ≡ placed.timer_resolution)
      × ((scheduled placed e).reschd_list ≡ erase e placed.reschd_list)
      × ((scheduled placed e).slotlist ≡ placed.slotlist)
      × ((scheduled placed e).elems e ≡ record (placed.elems e) { opcode = wtelem_scheduled })
unfolding set_elem unlink_reschedule
scheduled-fields placed e = (refl, refl, refl, refl, refl, refl, refl, ground arith)

scheduled-Slotted :
    (test : WtElem → Bool) (placed : WheelTimer) (e : ℕ)
    → test (record (placed.elems e) { opcode = wtelem_scheduled }) ≡ true
    → Slotted test placed
    → Slotted test (scheduled placed e)
unfolding unlink_reschedule
scheduled-Slotted test placed e t inv =
    set_same-Slotted test (unlink_reschedule placed e) e
      (record (placed.elems e) { opcode = wtelem_scheduled }) refl refl (λ _. t) inv

-- The element waits in the slot of the absolute slot number, and its request is gone.
abbrev pub Assigned : ℕ → WheelTimer → ℕ → ℕ → WheelTimer → Type 0
Assigned k wt e abs n =
    Slotted (waiting wt.current_cycle_no wt.current_clock_tic k) n
    × (n.reschd_list ≡ erase e wt.reschd_list)
    × (n.wheel_size ≡ wt.wheel_size)
    × (n.current_clock_tic ≡ wt.current_clock_tic)
    × (n.current_cycle_no ≡ wt.current_cycle_no)
    × (wt_get_clock_interval_in_milli_sec n ≡ k)
    × (has e (n.slotlist (abs % wt.wheel_size)) ≡ true)
    × ((n.elems e).execute_cycle_no ≡ abs / wt.wheel_size)
    × ((n.elems e).slot_no ≡ abs % wt.wheel_size)
    × ((n.elems e).opcode ≡ wtelem_scheduled)

module _ (wt : WheelTimer) (e k : ℕ) (interval : wt_get_clock_interval_in_milli_sec wt ≡ k)
    (positive : 0 < wt.wheel_size)
    (inv : Slotted (waiting wt.current_cycle_no wt.current_clock_tic k) wt) (out : Outside wt e)
    (z : 0 < e) (callback : (wt.elems e).app_callback ≢ 0)
    (whole : 0 < (wt.elems e).new_time_interval / k) where
  -- The state that `schedule_at` meets.
  abbrev ready : WheelTimer
  ready = set_elem wt e (record (wt.elems e) { time_interval = (wt.elems e).new_time_interval })

  abbrev target : ℕ
  target = next_abs_slot_no wt (wt.elems e).new_time_interval

  ready-fields :
      (ready.wheel_size ≡ wt.wheel_size)
      × (ready.current_clock_tic ≡ wt.current_clock_tic)
      × (ready.current_cycle_no ≡ wt.current_cycle_no)
  unfolding set_elem
  ready-fields = (refl, refl, refl)

  assigned-waiting :
      waiting wt.current_cycle_no wt.current_clock_tic k ((schedule_at ready e target).elems e)
      ≡ true
  assigned-waiting =
      let (_, same_interval, _, _, _) = schedule_at-kept ready e target in
      let later = next_abs-later wt e k (wt.elems e).new_time_interval interval whole positive in
      let cycle = schedule_at-elem ready e target in
      let slot = schedule_at-slot_no ready e target in
      let (size, _, _) = ready-fields in
      let self =
        set_elem_self wt e
          (record (wt.elems e) { time_interval = (wt.elems e).new_time_interval }) in
      ground (arith, ap WtElem.time_interval self)

  -- `assign_slot` puts the element into the slot that its interval names and takes its request away.
  pub assign_slot-lem : (n : WheelTimer) × (assign_slot wt e ≡ some n) × Assigned k wt e target n
  unfolding assign_slot
  assign_slot-lem =
      let placed = schedule_at ready e target in
      let (size, tic, cycle, clock, resolution, pending) = schedule_at-wheel ready e target in
      let (size', tic', cycle', clock', resolution', pending', slots, self) =
        scheduled-fields placed e in
      let ((size₀, tic₀, cycle₀, clock₀, resolution₀, pending₀), slots₀) =
        set_elem-wheel wt e
          (record (wt.elems e) { time_interval = (wt.elems e).new_time_interval }) in
      let nonzero : (wt.elems e).new_time_interval ≢ 0 =
        ground (arith, div-le_self (wt.elems e).new_time_interval k) in
      let null : ((wt.elems e).app_callback == 0 || (wt.elems e).new_time_interval == 0) ≡ false =
        ground arith in
      let test = waiting wt.current_cycle_no wt.current_clock_tic k in
      let inv₀ =
        set_unlinked-Slotted test wt e
          (record (wt.elems e) { time_interval = (wt.elems e).new_time_interval }) out inv in
      let placed_in =
        schedule_at-Slotted ready e target test inv₀ z (rw (size₀) positive) assigned-waiting in
      let clock_same =
        interval-transfer wt (scheduled placed e) (clock' ∙ clock ∙ clock₀)
          (resolution' ∙ resolution ∙ resolution₀) in
      let here : has e (placed.slotlist (target % wt.wheel_size)) ≡ true =
        ap (λ w. has e (placed.slotlist (target % w))) (sym size₀)
        ∙ schedule_at-inside ready e target in
      (
        scheduled placed e,
        rw (null) refl,
        (
          scheduled-Slotted test placed e assigned-waiting placed_in,
          pending' ∙ ap (erase e) (pending ∙ pending₀),
          size' ∙ size ∙ size₀,
          tic' ∙ tic ∙ tic₀,
          cycle' ∙ cycle ∙ cycle₀,
          clock_same ∙ interval,
          ap (λ f. has e (f (target % wt.wheel_size))) slots ∙ here,
          ap WtElem.execute_cycle_no self
              ∙ schedule_at-elem ready e target
              ∙ ap (λ w. target / w) size₀,
          ap WtElem.slot_no self ∙ schedule_at-slot_no ready e target ∙ ap (λ w. target % w) size₀,
          ap WtElem.opcode self,
        ),
      )
