-- ===== src/WheelTimer/OneTick.antt =====
-- libtimer/WheelTimer.c: a tick runs exactly the jobs that are due.
use networking_protocol_deve.Base.{
  ℕ, ◌+◌, ◌≤◌, ◌<◌, ◌≡◌, inl, inr, refl, ◌∙◌, some, List, [], ◌∷◌, ◌==◌, arith, Bool-cases, length,
}
use networking_protocol_deve.WheelTimer.{
  process_wt_reschedule_slotlist, process_elems, WheelTimer, wt_get_clock_interval_in_milli_sec,
}
use networking_protocol_deve.WheelTimer.Tick.{advance, wheel_fn, finish_tick}
use networking_protocol_deve.WheelTimer.Slots.{Slotted}
use networking_protocol_deve.WheelTimer.Due.{due_or_later, waiting, due_jobs}
use networking_protocol_deve.WheelTimer.Expiry.{Expired}
use networking_protocol_deve.WheelTimer.Fires.{expire_from-lem, interval-transfer}

due_jobs-length : (c : ℕ) (wt : WheelTimer) (xs : List ℕ) → length (due_jobs c wt xs) ≤ length xs
due_jobs-length c wt [] = omega arith
due_jobs-length c wt (x ∷ xs) = ground (arith, due_jobs-length c wt xs)

pub advance-Slotted :
    (k : ℕ) (wt : WheelTimer)
    → wt.current_clock_tic < wt.wheel_size
    → Slotted (waiting wt.current_cycle_no wt.current_clock_tic k) wt
    → Slotted
        (due_or_later (advance wt).current_cycle_no (advance wt).current_clock_tic k)
        (advance wt)
unfolding advance
advance-Slotted k wt b (placed, d, h) =
    elim (Bool-cases (wt.current_clock_tic + 1 == wt.wheel_size)) [
      | inl e ↦ rw (e) (λ s q m. ground (arith, placed s q m), d, h)
      | inr e ↦ rw (e) (λ s q m. ground (arith, placed s q m), d, h)
    ]

pub advance-fields :
    (wt : WheelTimer)
    → wt.current_clock_tic < wt.wheel_size
    → ((advance wt).wheel_size ≡ wt.wheel_size)
      × ((advance wt).reschd_list ≡ wt.reschd_list)
      × ((advance wt).current_clock_tic < wt.wheel_size)
      × ((advance wt).slotlist ≡ wt.slotlist)
      × ((advance wt).elems ≡ wt.elems)
      × ((advance wt).clock_tic_interval ≡ wt.clock_tic_interval)
      × ((advance wt).timer_resolution ≡ wt.timer_resolution)
unfolding advance
advance-fields wt b = elim (Bool-cases (wt.current_clock_tic + 1 == wt.wheel_size)) [
  | inl e ↦ rw (e) (refl, refl, omega arith, refl, refl, refl, refl)
  | inr e ↦ rw (e) (refl, refl, ground arith, refl, refl, refl, refl)
]

-- The elements of the slot of the next tick.
abbrev pub next_slot : WheelTimer → List ℕ
next_slot wt = (advance wt).slotlist (advance wt).current_clock_tic

pub advance-interval :
    (wt : WheelTimer)
    → wt.current_clock_tic < wt.wheel_size
    → wt_get_clock_interval_in_milli_sec (advance wt) ≡ wt_get_clock_interval_in_milli_sec wt
advance-interval wt b =
    let (_, _, _, _, _, interval, resolution) = advance-fields wt b in
    interval-transfer wt (advance wt) interval resolution

-- Where no request is pending, the tick is below the size of the wheel, the slots are in order and
-- all their elements wait for later ticks, `wheel_fn` with more fuel than the new slot has
-- elements ends, gives the dispatcher the jobs of exactly the elements of the new slot whose cycle
-- has come, moves the periodic ones of them on by their interval, leaves the other elements as
-- they are, and afterwards all elements wait for later ticks.
pub wheel_fn-due :
    (fuel k : ℕ) (wt : WheelTimer)
    → wt_get_clock_interval_in_milli_sec wt ≡ k
    → wt.current_clock_tic < wt.wheel_size
    → wt.reschd_list ≡ []
    → Slotted (waiting wt.current_cycle_no wt.current_clock_tic k) wt
    → length (next_slot wt) < fuel
    → (n : WheelTimer) × (wheel_fn fuel wt
        ≡ some (n, due_jobs (advance wt).current_cycle_no (advance wt) (next_slot wt)))
      × Expired k (advance wt) n
unfolding wheel_fn finish_tick process_wt_reschedule_slotlist process_elems
wheel_fn-due fuel k wt i b idle inv f =
    let (size, pending, _, _, _, interval, resolution) = advance-fields wt b in
    let i' = advance-interval wt b ∙ i in
    let fuel' = due_jobs-length (advance wt).current_cycle_no (advance wt) (next_slot wt) in
    let (n, e, expired) =
      expire_from-lem fuel k (advance wt) (next_slot wt) i' (rw (size) (omega arith)) refl
        (advance-Slotted k wt b inv) (omega arith) in
    let (_, (_, _, _, _, _, pending'), _, _) = expired in
    let empty : n.reschd_list ≡ [] = pending' ∙ pending ∙ idle in (n, rw (e, empty) refl, expired)
