-- ===== src/WheelTimer/Step.antt =====
-- libtimer/WheelTimer.c: one round of the loop of `wheel_fn`.
use mathlib.Core.Path.{subst}
use networking_protocol_deve.Base.{
  ℕ, ◌%◌, ◌<◌, ◌≡◌, ◌≢◌, inl, inr, sym, ap, ◌∙◌, true, false, List, ◌∷◌, ◌==◌, arith, Bool-cases,
}
use networking_protocol_deve.Gluethread.Linked.{has}
use networking_protocol_deve.WheelTimer.{
  WheelTimer, WtElem, next_abs_slot_no, wt_get_clock_interval_in_milli_sec,
}
use networking_protocol_deve.WheelTimer.Tick.{after_expiry}
use networking_protocol_deve.WheelTimer.Slots.{cycle_of, Placed, Slotted}
use networking_protocol_deve.WheelTimer.Schedule.{
  schedule_at-inside, schedule_at-elem, schedule_at-slot_no,
}
use networking_protocol_deve.WheelTimer.Due.{
  due_or_later, waiting, after_expiry-wheel, after_expiry-others, has-after_expiry,
  after_expiry-later, after_expiry-Slotted,
}
use networking_protocol_deve.WheelTimer.Expiry.{
  is_due, Untouched, InSlotOf, Renewed, Expired, settle, SameWheel-trans, after_expiry-next_abs,
}

-- The first element `x` of the slot of the tick is due.
module _ (wt : WheelTimer) (k x : ℕ) (xs : List ℕ)
    (interval : wt_get_clock_interval_in_milli_sec wt ≡ k) (positive : 0 < wt.wheel_size)
    (slot : wt.slotlist wt.current_clock_tic ≡ x ∷ xs)
    (inv : Slotted (due_or_later wt.current_cycle_no wt.current_clock_tic k) wt)
    (due : (wt.current_cycle_no == (wt.elems x).execute_cycle_no) ≡ true) where
  pub first-Placed :
      Placed (due_or_later wt.current_cycle_no wt.current_clock_tic k) wt wt.current_clock_tic x
  first-Placed =
      let (placed, d, h) = inv in placed wt.current_clock_tic x (rw (slot) (ground arith))

  not_due-first : (s q : ℕ) → has q (wt.slotlist s) ≡ true → is_due wt s q ≡ false → q ≢ x
  not_due-first s q m u e =
      let (placed, _, _) = inv in
      let (_, here, _, _) = first-Placed in
      let (_, there, _, _) = placed s q m in
      let slot_no : (wt.elems q).slot_no ≡ (wt.elems x).slot_no =
        ap (λ r. (wt.elems r).slot_no) e in
      let cycle : (wt.elems q).execute_cycle_no ≡ (wt.elems x).execute_cycle_no =
        ap (cycle_of wt) e in
      ground arith

  pub step-Untouched : Untouched wt (after_expiry wt x)
  step-Untouched s q m u =
      let n = not_due-first s q m u in
      (has-after_expiry wt x s q n ∙ m, after_expiry-others wt x q n)

  pub step-Slotted :
      Slotted (due_or_later wt.current_cycle_no wt.current_clock_tic k) (after_expiry wt x)
  step-Slotted =
      let (z, _, _, test) = first-Placed in
      after_expiry-Slotted wt x k interval (ground arith) positive z inv

  first-InSlotOf :
      (wt.elems x).is_recurrence ≡ true
      → InSlotOf
          (next_abs_slot_no wt (wt.elems x).time_interval)
          wt.wheel_size
          (after_expiry wt x)
          x
  unfolding after_expiry
  first-InSlotOf r =
      let abs = next_abs_slot_no wt (wt.elems x).time_interval in
      rw r (schedule_at-inside wt x abs, schedule_at-elem wt x abs, schedule_at-slot_no wt x abs)

  -- Where no other element is due, the loop ends after the first.
  pub last-Expired :
      ((q : ℕ) → has q xs ≡ true → (wt.current_cycle_no == (wt.elems q).execute_cycle_no) ≡ false)
      → Expired k wt (after_expiry wt x)
  last-Expired none_due =
      let (placed', d', _) = step-Slotted in
      let (placed, d, _) = inv in
      let (z, _, _, test) = first-Placed in
      let quiet : (q : ℕ)
          → has q ((after_expiry wt x).slotlist wt.current_clock_tic) ≡ true
          → (wt.current_cycle_no == ((after_expiry wt x).elems q).execute_cycle_no) ≡ false =
        λ q m. elim (Bool-cases (q == x)) [
          | inl e ↦
              let same : q ≡ x = ground arith in
              let m' : has x ((after_expiry wt x).slotlist wt.current_clock_tic) ≡ true =
                subst (λ r. has r ((after_expiry wt x).slotlist wt.current_clock_tic) ≡ true) same
                  m in
              let later =
                after_expiry-later wt x k wt.current_clock_tic interval (ground arith) positive
                  (d wt.current_clock_tic) m' in
              let (_, here, _, _) = placed' wt.current_clock_tic x m' in
              let out : (wt.current_cycle_no == ((after_expiry wt x).elems x).execute_cycle_no)
                  ≡ false =
                ground arith in
              subst
                (λ r.
                  (wt.current_cycle_no == ((after_expiry wt x).elems r).execute_cycle_no) ≡ false)
                (sym same) out
          | inr e ↦
              let n : q ≢ x = ground arith in
              let before : has q (wt.slotlist wt.current_clock_tic) ≡ true =
                sym (has-after_expiry wt x wt.current_clock_tic q n) ∙ m in
              let before' : has q (x ∷ xs) ≡ true = sym (ap (has q) slot) ∙ before in
              let calm = none_due q (ground arith) in rw (after_expiry-others wt x q n) calm
        ] in
      (
        settle wt.current_cycle_no wt.current_clock_tic k (after_expiry wt x) step-Slotted quiet,
        after_expiry-wheel wt x,
        step-Untouched,
        λ q m u r. elim (Bool-cases (q == x)) [
          | inl e ↦
              let same : x ≡ q = ground arith in
              let r' : (wt.elems x).is_recurrence ≡ true =
                ap (λ p. (wt.elems p).is_recurrence) same ∙ r in
              subst
                (λ p.
                  InSlotOf (next_abs_slot_no wt (wt.elems p).time_interval) wt.wheel_size
                    (after_expiry wt x) p)
                same (first-InSlotOf r')
          | inr e ↦
              let m' : has q (x ∷ xs) ≡ true = sym (ap (has q) slot) ∙ m in
              absurd (ground (arith, none_due q))
        ],
      )

  -- The first element is not due any more.
  first-waits :
      (s : ℕ)
      → has x ((after_expiry wt x).slotlist s) ≡ true
      → is_due (after_expiry wt x) s x ≡ false
  first-waits s m =
      let (placed', _, _) = step-Slotted in
      let (_, d, _) = inv in
      let (_, _, _, test) = first-Placed in
      let (_, tic, cycle, _, _, _) = after_expiry-wheel wt x in
      let (_, here, _, _) = placed' s x m in
      let later = after_expiry-later wt x k s interval (ground arith) positive (d s) m in
      ground arith

  step-Renewed :
      (n : WheelTimer)
      → Untouched (after_expiry wt x) n
      → Renewed (after_expiry wt x) n
      → Renewed wt n
  step-Renewed n untouched renewed q m u r = elim (Bool-cases (q == x)) [
    | inl e ↦
        let same : x ≡ q = ground arith in
        let r' : (wt.elems x).is_recurrence ≡ true =
          ap (λ p. (wt.elems p).is_recurrence) same ∙ r in
        let (there, exec, slot_no) = first-InSlotOf r' in
        let (there', kept) =
          untouched (next_abs_slot_no wt (wt.elems x).time_interval % wt.wheel_size) x there
            (first-waits (next_abs_slot_no wt (wt.elems x).time_interval % wt.wheel_size) there) in
        subst (λ p. InSlotOf (next_abs_slot_no wt (wt.elems p).time_interval) wt.wheel_size n p)
          same (there', ap WtElem.execute_cycle_no kept ∙ exec, ap WtElem.slot_no kept ∙ slot_no)
    | inr e ↦
        let other : q ≢ x = ground arith in
        let wheel = after_expiry-wheel wt x in
        let (size, tic, cycle, _, _, _) = wheel in
        let kept = after_expiry-others wt x q other in
        let m' : has q ((after_expiry wt x).slotlist (after_expiry wt x).current_clock_tic) ≡ true =
          ap (λ t. has q ((after_expiry wt x).slotlist t)) tic
          ∙ has-after_expiry wt x wt.current_clock_tic q other
          ∙ m in
        let u' : ((after_expiry wt x).current_cycle_no
              == ((after_expiry wt x).elems q).execute_cycle_no)
            ≡ true =
          rw (cycle, kept) u in
        let found = renewed q m' u' (ap WtElem.is_recurrence kept ∙ r) in
        let abs : next_abs_slot_no (after_expiry wt x) ((after_expiry wt x).elems q).time_interval
            ≡ next_abs_slot_no wt (wt.elems q).time_interval =
          ap (λ v. next_abs_slot_no (after_expiry wt x) v.time_interval) kept
          ∙ after_expiry-next_abs wt x (wt.elems q).time_interval in
        subst (λ w. InSlotOf (next_abs_slot_no wt (wt.elems q).time_interval) w n q) size
          (subst (λ t. InSlotOf t (after_expiry wt x).wheel_size n q) abs found)
  ]

  pub step_trans : (n : WheelTimer) → Expired k (after_expiry wt x) n → Expired k wt n
  step_trans n (slotted, wheel, untouched, renewed) =
      let step = after_expiry-wheel wt x in
      let (_, tic, cycle, _, _, _) = step in
      (
        subst (λ c. Slotted (waiting c wt.current_clock_tic k) n) cycle
            (subst (λ t. Slotted (waiting (after_expiry wt x).current_cycle_no t k) n) tic slotted),
        SameWheel-trans wt (after_expiry wt x) n step wheel,
        λ s q m u.
            let (m', e') = step-Untouched s q m u in
            let u' : is_due (after_expiry wt x) s q ≡ false = rw (tic, cycle, e') u in
            let (m'', e'') = untouched s q m' u' in (m'', e'' ∙ e'),
        step-Renewed n untouched renewed,
      )
