-- ===== src/WheelTimer/Schedule.antt =====
-- libtimer/WheelTimer.c: the move of an element to the slot of an absolute slot number.
use mathlib.Core.Path.{subst}
use native.Mathlib.Nat.{mod-lt}
use networking_protocol_deve.Base.{
  ℕ, ◌+◌, ◌/◌, ◌%◌, ◌<◌, ◌≡◌, ◌≢◌, inl, inr, refl, sym, ◌∙◌, Bool, true, false, ◌==◌, if◌then◌else◌,
  arith, Bool-cases, ==_refl,
}
use networking_protocol_deve.Gluethread.Linked.{has, distinct}
use networking_protocol_deve.Gluethread.Remove.{erase, erase-distinct}
use networking_protocol_deve.Gluethread.Sorted.{
  insert_before, Ascending, insert_before-Ascending, has-insert_before, insert_before-distinct,
}
use networking_protocol_deve.WheelTimer.{
  WheelTimer, WtElem, set_elem, set_slot, unlink, schedule_at, insert_in_slot, slot_order,
}
use networking_protocol_deve.WheelTimer.Slots.{
  cycle_of, Placed, Slotted, slot_order-precedes, Ascending-transfer, erase-Ascending,
  has-erase_self, has-erase_of,
}

module _ (wt : WheelTimer) (e abs : ℕ) where
  -- the state at the insertion
  abbrev pub timed : WheelTimer
  timed = unlink (set_elem wt e (record (wt.elems e) { execute_cycle_no = abs / wt.wheel_size })) e

  pub schedule_at-slotlist :
      (q : ℕ)
      → (schedule_at wt e abs).slotlist q ≡ (
          if q == abs % wt.wheel_size
          then insert_before (slot_order timed) 0 e (erase e (wt.slotlist q))
          else erase e (wt.slotlist q))
  unfolding schedule_at insert_in_slot set_slot unlink set_elem
  schedule_at-slotlist q = ground arith

  pub schedule_at-elem : ((schedule_at wt e abs).elems e).execute_cycle_no ≡ abs / wt.wheel_size
  unfolding schedule_at insert_in_slot set_slot unlink set_elem
  schedule_at-elem = ground arith

  pub schedule_at-slot_no : ((schedule_at wt e abs).elems e).slot_no ≡ abs % wt.wheel_size
  unfolding schedule_at insert_in_slot set_slot unlink set_elem
  schedule_at-slot_no = ground arith

  pub schedule_at-kept :
      (((schedule_at wt e abs).elems e).is_recurrence ≡ (wt.elems e).is_recurrence)
      × (((schedule_at wt e abs).elems e).time_interval ≡ (wt.elems e).time_interval)
      × (((schedule_at wt e abs).elems e).app_callback ≡ (wt.elems e).app_callback)
      × (((schedule_at wt e abs).elems e).arg ≡ (wt.elems e).arg)
      × (((schedule_at wt e abs).elems e).n_scheduled ≡ (wt.elems e).n_scheduled + 1)
  unfolding schedule_at insert_in_slot set_slot unlink set_elem
  schedule_at-kept = ground arith

  pub schedule_at-others : (q : ℕ) → q ≢ e → (schedule_at wt e abs).elems q ≡ wt.elems q
  unfolding schedule_at insert_in_slot set_slot unlink set_elem
  schedule_at-others q n = ground arith

  pub timed-cycle_of : (q : ℕ) → cycle_of (schedule_at wt e abs) q ≡ cycle_of timed q
  unfolding schedule_at insert_in_slot set_slot unlink set_elem
  timed-cycle_of q = ground arith

  pub timed_others : (q : ℕ) → q ≢ e → cycle_of timed q ≡ cycle_of wt q
  unfolding unlink set_elem
  timed_others q n = ground arith

  pub schedule_at-wheel :
      ((schedule_at wt e abs).wheel_size ≡ wt.wheel_size)
      × ((schedule_at wt e abs).current_clock_tic ≡ wt.current_clock_tic)
      × ((schedule_at wt e abs).current_cycle_no ≡ wt.current_cycle_no)
      × ((schedule_at wt e abs).clock_tic_interval ≡ wt.clock_tic_interval)
      × ((schedule_at wt e abs).timer_resolution ≡ wt.timer_resolution)
      × ((schedule_at wt e abs).reschd_list ≡ wt.reschd_list)
  unfolding schedule_at insert_in_slot set_slot unlink set_elem
  schedule_at-wheel = (refl, refl, refl, refl, refl, refl)

  pub has-schedule_at :
      (s q : ℕ)
      → q ≢ e
      → has q ((schedule_at wt e abs).slotlist s) ≡ has q (erase e (wt.slotlist s))
  has-schedule_at s q n = elim (Bool-cases (s == abs % wt.wheel_size)) [
    | inl k ↦
        rw
          (
            schedule_at-slotlist s,
            k,
            has-insert_before (slot_order timed) 0 e q (erase e (wt.slotlist s)),
          )
          (ground arith)
    | inr k ↦ rw (schedule_at-slotlist s, k) refl
  ]

  schedule_at-distinct :
      (s : ℕ)
      → distinct (wt.slotlist s) ≡ true
      → distinct ((schedule_at wt e abs).slotlist s) ≡ true
  schedule_at-distinct s d = elim (Bool-cases (s == abs % wt.wheel_size)) [
    | inl k ↦
        rw (schedule_at-slotlist s, k)
          (insert_before-distinct (slot_order timed) 0 e (erase e (wt.slotlist s))
            (has-erase_self e (wt.slotlist s) d) (erase-distinct e (wt.slotlist s) d))
    | inr k ↦ rw (schedule_at-slotlist s, k) (erase-distinct e (wt.slotlist s) d)
  ]

  schedule_at-Ascending :
      (s : ℕ)
      → distinct (wt.slotlist s) ≡ true
      → Ascending (cycle_of wt) (wt.slotlist s)
      → Ascending (cycle_of (schedule_at wt e abs)) ((schedule_at wt e abs).slotlist s)
  schedule_at-Ascending s d h =
      let erased = erase-Ascending (cycle_of wt) e (wt.slotlist s) h in
      let kept : (q : ℕ)
          → has q (erase e (wt.slotlist s)) ≡ true
          → cycle_of timed q ≡ cycle_of wt q =
        λ q m. timed_others q (ground (arith, has-erase_self e (wt.slotlist s) d)) in
      let ready =
        Ascending-transfer (cycle_of wt) (cycle_of timed) (erase e (wt.slotlist s)) kept erased in
      let inserted =
        insert_before-Ascending (slot_order timed) 0 (cycle_of timed) (slot_order-precedes timed) e
          (erase e (wt.slotlist s)) ready in
      Ascending-transfer (cycle_of timed) (cycle_of (schedule_at wt e abs))
        ((schedule_at wt e abs).slotlist s) (λ q m. timed-cycle_of q)
        (elim (Bool-cases (s == abs % wt.wheel_size)) [
          | inl k ↦ rw (schedule_at-slotlist s, k) inserted
          | inr k ↦ rw (schedule_at-slotlist s, k) ready
        ])

  schedule_at-home :
      (s : ℕ)
      → distinct (wt.slotlist s) ≡ true
      → has e ((schedule_at wt e abs).slotlist s) ≡ true
      → s ≡ abs % wt.wheel_size
  schedule_at-home s d m = elim (Bool-cases (s == abs % wt.wheel_size)) [
    | inl k ↦ ground arith
    | inr k ↦
        let out : has e ((schedule_at wt e abs).slotlist s) ≡ false =
          rw (schedule_at-slotlist s, k) (has-erase_self e (wt.slotlist s) d) in
        ground arith
  ]

  schedule_at-Placed_self :
      (test : WtElem → Bool) (s : ℕ)
      → 0 < e
      → 0 < wt.wheel_size
      → test ((schedule_at wt e abs).elems e) ≡ true
      → s ≡ abs % wt.wheel_size
      → Placed test (schedule_at wt e abs) s e
  schedule_at-Placed_self test s z w t m =
      let (size, _, _, _, _, _) = schedule_at-wheel in
      (z, schedule_at-slot_no ∙ sym m, rw (size, m) (mod-lt abs w), t)

  schedule_at-Placed :
      (test : WtElem → Bool) (s q : ℕ)
      → Slotted test wt
      → 0 < e
      → 0 < wt.wheel_size
      → test ((schedule_at wt e abs).elems e) ≡ true
      → has q ((schedule_at wt e abs).slotlist s) ≡ true
      → Placed test (schedule_at wt e abs) s q
  schedule_at-Placed test s q (placed, d, h) z w t m = elim (Bool-cases (q == e)) [
    | inl k ↦
        let same : e ≡ q = ground arith in
        let m' : has e ((schedule_at wt e abs).slotlist s) ≡ true =
          subst (λ x. has x ((schedule_at wt e abs).slotlist s) ≡ true) (sym same) m in
        subst (Placed test (schedule_at wt e abs) s) same
          (schedule_at-Placed_self test s z w t (schedule_at-home s (d s) m'))
    | inr k ↦
        let n : q ≢ e = ground arith in
        let before : has q (wt.slotlist s) ≡ true =
          has-erase_of e q (wt.slotlist s) (sym (has-schedule_at s q n) ∙ m) in
        let (a, b, c, f) = placed s q before in
        let (size, _, _, _, _, _) = schedule_at-wheel in
        (a, rw (schedule_at-others q n) b, rw (size) c, rw (schedule_at-others q n) f)
  ]

  pub schedule_at-Slotted :
      (test : WtElem → Bool)
      → Slotted test wt
      → 0 < e
      → 0 < wt.wheel_size
      → test ((schedule_at wt e abs).elems e) ≡ true
      → Slotted test (schedule_at wt e abs)
  schedule_at-Slotted test inv z w t =
      let (placed, d, h) = inv in
      (
        λ s q m. schedule_at-Placed test s q inv z w t m,
        λ s. schedule_at-distinct s (d s),
        λ s. schedule_at-Ascending s (d s) (h s),
      )

  -- The element is in the slot of the absolute slot number.
  pub schedule_at-inside : has e ((schedule_at wt e abs).slotlist (abs % wt.wheel_size)) ≡ true
  schedule_at-inside =
      let s = abs % wt.wheel_size in
      let self : (s == s) ≡ true = ==_refl s in
      let self' : (e == e) ≡ true = ==_refl e in
      rw
        (
          schedule_at-slotlist s,
          self,
          has-insert_before (slot_order timed) 0 e e (erase e (wt.slotlist s)),
          self',
        )
        refl
