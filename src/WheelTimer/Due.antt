-- ===== src/WheelTimer/Due.antt =====
-- libtimer/WheelTimer.c: what one expired element changes in `wheel_fn`.
use native.Mathlib.Nat.{div-add-mod', le-div_iff_mul-le}
use networking_protocol_deve.Base.{
  ℕ, ◌+◌, ◌*◌, ◌/◌, ◌%◌, ◌≤◌, ◌<◌, ◌≡◌, ◌≢◌, inl, inr, refl, sym, ap, ◌∙◌, Bool, true, ◌&&◌, ◌||◌,
  not, List, [], ◌∷◌, ◌==◌, ltb, if◌then◌else◌, arith, Bool-cases,
}
use networking_protocol_deve.Gluethread.Linked.{has, distinct}
use networking_protocol_deve.Gluethread.Remove.{has-erase_other, erase, erase-distinct}
use networking_protocol_deve.WheelTimer.{
  WheelTimer, WtElem, unlink, schedule_at, next_abs_slot_no, current_abs_slot_no,
  wt_get_clock_interval_in_milli_sec,
}
use networking_protocol_deve.WheelTimer.Tick.{after_expiry, Job}
use networking_protocol_deve.WheelTimer.Slots.{
  is_later, is_not_before, cycle_of, Slotted, erase-Ascending, has-erase_self, has-erase_of,
}
use networking_protocol_deve.WheelTimer.Schedule.{
  schedule_at-elem, schedule_at-kept, schedule_at-slot_no, schedule_at-others, schedule_at-wheel,
  has-schedule_at, schedule_at-Slotted,
}

-- A periodic element has an interval of one tick at least, of `k` milliseconds.
abbrev pub repeats : ℕ → WtElem → Bool
repeats k v = not v.is_recurrence || ltb 0 (v.time_interval / k)

abbrev pub due_or_later : ℕ → ℕ → ℕ → WtElem → Bool
due_or_later c t k v = is_not_before c t v && repeats k v

abbrev pub waiting : ℕ → ℕ → ℕ → WtElem → Bool
waiting c t k v = is_later c t v && repeats k v

-- The jobs of the elements of a slot whose cycle is `c`.
abbrev pub due_jobs : ℕ → WheelTimer → List ℕ → List Job
due_jobs c wt [] = []
due_jobs c wt (x ∷ xs) =
    if c == (wt.elems x).execute_cycle_no
    then (((wt.elems x).app_callback, (wt.elems x).arg) ∷ due_jobs c wt xs)
    else due_jobs c wt xs

pub waiting-due_or_later :
    (c t k : ℕ) (v : WtElem) → waiting c t k v ≡ true → due_or_later c t k v ≡ true
waiting-due_or_later c t k v h = ground arith

-- An absolute slot number that is at least one tick ahead names a later slot.
pub slot_ahead :
    (c t w n : ℕ)
    → 0 < w
    → 0 < n
    → (ltb c ((c * w + t + n) / w) || c == (c * w + t + n) / w && ltb t ((c * w + t + n) % w))
      ≡ true
slot_ahead c t w n z p =
    let (_, at_least) = le-div_iff_mul-le {k = w} {x = c} {y = c * w + t + n} z in
    let low : c ≤ (c * w + t + n) / w = at_least (omega arith) in
    let parts = div-add-mod' (c * w + t + n) w in
    elim (Bool-cases (c == (c * w + t + n) / w)) [
      | inl k ↦
          let same : (c * w + t + n) / w ≡ c = ground arith in
          let parts' : c * w + (c * w + t + n) % w ≡ c * w + t + n =
            ap (λ x. x * w + (c * w + t + n) % w) (sym same) ∙ parts in
          ground arith
      | inr k ↦ ground arith
    ]

pub unlink-Slotted :
    (test : WtElem → Bool) (wt : WheelTimer) (e : ℕ) → Slotted test wt → Slotted test (unlink wt e)
unfolding unlink
unlink-Slotted test wt e (placed, d, h) = (
  λ s q m. placed s q (has-erase_of e q (wt.slotlist s) m),
  λ s. erase-distinct e (wt.slotlist s) (d s),
  λ s. erase-Ascending (cycle_of wt) e (wt.slotlist s) (h s),
)

-- The wheel's own fields, that no expiry changes.
abbrev pub SameWheel : WheelTimer → WheelTimer → Type 0
SameWheel wt n =
    (n.wheel_size ≡ wt.wheel_size)
    × (n.current_clock_tic ≡ wt.current_clock_tic)
    × (n.current_cycle_no ≡ wt.current_cycle_no)
    × (n.clock_tic_interval ≡ wt.clock_tic_interval)
    × (n.timer_resolution ≡ wt.timer_resolution)
    × (n.reschd_list ≡ wt.reschd_list)

module _ (wt : WheelTimer) (x : ℕ) where
  pub after_expiry-wheel : SameWheel wt (after_expiry wt x)
  unfolding after_expiry unlink
  after_expiry-wheel = elim (Bool-cases (wt.elems x).is_recurrence) [
    | inl k ↦ rw (k) (schedule_at-wheel wt x (next_abs_slot_no wt (wt.elems x).time_interval))
    | inr k ↦ rw (k) (refl, refl, refl, refl, refl, refl)
  ]

  pub after_expiry-others : (q : ℕ) → q ≢ x → (after_expiry wt x).elems q ≡ wt.elems q
  unfolding after_expiry unlink
  after_expiry-others q n = elim (Bool-cases (wt.elems x).is_recurrence) [
    | inl k ↦ rw (k) (schedule_at-others wt x (next_abs_slot_no wt (wt.elems x).time_interval) q n)
    | inr k ↦ rw (k) refl
  ]

  pub has-after_expiry :
      (s q : ℕ) → q ≢ x → has q ((after_expiry wt x).slotlist s) ≡ has q (wt.slotlist s)
  unfolding after_expiry unlink
  has-after_expiry s q n = elim (Bool-cases (wt.elems x).is_recurrence) [
    | inl k ↦ rw (k) (
        has-schedule_at wt x (next_abs_slot_no wt (wt.elems x).time_interval) s q n
        ∙ has-erase_other x q (wt.slotlist s) n)
    | inr k ↦
        rw (k)
          (has-erase_other x q (erase x (wt.slotlist s)) n ∙ has-erase_other x q (wt.slotlist s) n)
  ]

  pub next_abs-sum :
      (k interval : ℕ)
      → wt_get_clock_interval_in_milli_sec wt ≡ k
      → next_abs_slot_no wt interval
        ≡ wt.current_cycle_no * wt.wheel_size + wt.current_clock_tic + interval / k
  unfolding next_abs_slot_no current_abs_slot_no
  next_abs-sum k interval c =
      ap (λ d. wt.current_cycle_no * wt.wheel_size + wt.current_clock_tic + interval / d) c

  pub next_abs-later :
      (k interval : ℕ)
      → wt_get_clock_interval_in_milli_sec wt ≡ k
      → 0 < interval / k
      → 0 < wt.wheel_size
      → (ltb wt.current_cycle_no (next_abs_slot_no wt interval / wt.wheel_size)
          || wt.current_cycle_no == next_abs_slot_no wt interval / wt.wheel_size
            && ltb wt.current_clock_tic (next_abs_slot_no wt interval % wt.wheel_size))
        ≡ true
  next_abs-later k interval c p z =
      rw (next_abs-sum k interval c)
        (slot_ahead wt.current_cycle_no wt.current_clock_tic wt.wheel_size (interval / k) z p)

  -- A periodic element moves to a later slot.
  pub recurrence-later :
      (k : ℕ)
      → wt_get_clock_interval_in_milli_sec wt ≡ k
      → (wt.elems x).is_recurrence ≡ true
      → repeats k (wt.elems x) ≡ true
      → 0 < wt.wheel_size
      → waiting wt.current_cycle_no wt.current_clock_tic k ((after_expiry wt x).elems x) ≡ true
  unfolding after_expiry
  recurrence-later k c r p z =
      let abs = next_abs_slot_no wt (wt.elems x).time_interval in
      let (same_recurrence, same_interval, _, _, _) = schedule_at-kept wt x abs in
      let positive : 0 < (wt.elems x).time_interval / k = ground arith in
      let later = next_abs-later k (wt.elems x).time_interval c positive z in
      rw
        (
          r,
          same_recurrence,
          same_interval,
          r,
          schedule_at-elem wt x abs,
          schedule_at-slot_no wt x abs,
          later,
        )
        (ground arith)

  -- An element that has just expired waits for a later slot, if it is in a slot at all.
  pub after_expiry-later :
      (k s : ℕ)
      → wt_get_clock_interval_in_milli_sec wt ≡ k
      → repeats k (wt.elems x) ≡ true
      → 0 < wt.wheel_size
      → distinct (wt.slotlist s) ≡ true
      → has x ((after_expiry wt x).slotlist s) ≡ true
      → waiting wt.current_cycle_no wt.current_clock_tic k ((after_expiry wt x).elems x) ≡ true
  unfolding after_expiry unlink
  after_expiry-later k s c p z d m = elim (Bool-cases (wt.elems x).is_recurrence) [
    | inl r ↦ recurrence-later k c r p z
    | inr r ↦
        let m' : has x (erase x (erase x (wt.slotlist s))) ≡ true = rw (r) at m in
        let out = has-erase_self x (erase x (wt.slotlist s)) (erase-distinct x (wt.slotlist s) d) in
        ground arith
  ]

  pub after_expiry-Slotted :
      (k : ℕ)
      → wt_get_clock_interval_in_milli_sec wt ≡ k
      → repeats k (wt.elems x) ≡ true
      → 0 < wt.wheel_size
      → 0 < x
      → Slotted (due_or_later wt.current_cycle_no wt.current_clock_tic k) wt
      → Slotted (due_or_later wt.current_cycle_no wt.current_clock_tic k) (after_expiry wt x)
  unfolding after_expiry
  after_expiry-Slotted k c p z q inv = elim (Bool-cases (wt.elems x).is_recurrence) [
    | inl r ↦
        let later : waiting wt.current_cycle_no wt.current_clock_tic k
              ((schedule_at wt x (next_abs_slot_no wt (wt.elems x).time_interval)).elems x)
            ≡ true =
          rw (r) at (recurrence-later k c r p z) in
        let test = due_or_later wt.current_cycle_no wt.current_clock_tic k in
        rw (r) (
          schedule_at-Slotted wt x (next_abs_slot_no wt (wt.elems x).time_interval) test inv q z (
            waiting-due_or_later wt.current_cycle_no wt.current_clock_tic k
              ((schedule_at wt x (next_abs_slot_no wt (wt.elems x).time_interval)).elems x) later))
    | inr r ↦
        let test = due_or_later wt.current_cycle_no wt.current_clock_tic k in
        rw (r) (unlink-Slotted test (unlink wt x) x (unlink-Slotted test wt x inv))
  ]
