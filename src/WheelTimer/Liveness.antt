-- ===== src/WheelTimer/Liveness.antt =====
-- libtimer/WheelTimer.c: the tick at which an element expires.
use mathlib.Core.Path.{subst}
use native.Mathlib.Nat.{mul-le-mul_right}
use networking_protocol_deve.Base.{
  ℕ, zero, suc, ◌+◌, ◌*◌, ◌≤◌, ◌<◌, ◌≡◌, ◌≢◌, inl, inr, refl, sym, ap, ◌∙◌, Bool, true, false, ◌&&◌,
  ◌||◌, Option, some, List, [], ◌∷◌, ◌==◌, ltb, ◌>>=◌, arith, Bool-cases, length,
}
use networking_protocol_deve.Gluethread.Linked.{has}
use networking_protocol_deve.WheelTimer.{
  WheelTimer, current_abs_slot_no, wt_get_clock_interval_in_milli_sec,
}
use networking_protocol_deve.WheelTimer.Tick.{Job, advance, wheel_fn}
use networking_protocol_deve.WheelTimer.Slots.{Slotted}
use networking_protocol_deve.WheelTimer.Due.{waiting, due_jobs, SameWheel}
use networking_protocol_deve.WheelTimer.Expiry.{is_due, Expired}
use networking_protocol_deve.WheelTimer.OneTick.{
  next_slot, advance-fields, advance-interval, wheel_fn-due,
}
use networking_protocol_deve.WheelTimer.Fires.{SameWheel-interval}

-- `r` ticks with no request in between, each with fuel for the elements of its slot.
unfoldable pub ticks : ℕ → WheelTimer → Option WheelTimer
unfolding wheel_fn
ticks zero wt = some wt
ticks (suc r) wt = do (n, _) ← wheel_fn (suc (length (next_slot wt))) wt; ticks r n

abbrev pub abs_slot_of : WheelTimer → ℕ → ℕ
abs_slot_of wt e = (wt.elems e).execute_cycle_no * wt.wheel_size + (wt.elems e).slot_no

slot_unique : (c d t s w : ℕ) → t < w → s < w → c * w + t ≡ d * w + s → (c ≡ d) × (t ≡ s)
slot_unique c d t s w p q e = elim (Bool-cases (ltb c d)) [
  | inl l ↦
      let less : c < d = ground arith in
      let most : (c + 1) * w ≤ d * w = mul-le-mul_right w (omega (arith, less)) in ground arith
  | inr l ↦ elim (Bool-cases (ltb d c)) [
    | inl g ↦
        let less : d < c = ground arith in
        let most : (d + 1) * w ≤ c * w = mul-le-mul_right w (omega (arith, less)) in ground arith
    | inr g ↦ let same : c ≡ d = ground arith in (same, omega (arith, e, ap (λ x. x * w) same))
  ]
]

advance-abs : (wt : WheelTimer) → current_abs_slot_no (advance wt) ≡ current_abs_slot_no wt + 1
unfolding advance current_abs_slot_no
advance-abs wt = elim (Bool-cases (wt.current_clock_tic + 1 == wt.wheel_size)) [
  | inl e ↦ rw (e) (ground arith)
  | inr e ↦ rw (e) (ground arith)
]

advance-position :
    (wt : WheelTimer)
    → (advance wt).current_cycle_no * wt.wheel_size + (advance wt).current_clock_tic
      ≡ current_abs_slot_no wt + 1
unfolding advance current_abs_slot_no
advance-position wt = elim (Bool-cases (wt.current_clock_tic + 1 == wt.wheel_size)) [
  | inl e ↦ rw (e) (ground arith)
  | inr e ↦ rw (e) (ground arith)
]

pub SameWheel-abs :
    (wt n : WheelTimer) → SameWheel wt n → current_abs_slot_no n ≡ current_abs_slot_no wt
unfolding current_abs_slot_no
SameWheel-abs wt n (size, tic, cycle, _, _, _) =
    ap (λ c. c * n.wheel_size + n.current_clock_tic) cycle
    ∙ ap (λ w. wt.current_cycle_no * w + n.current_clock_tic) size
    ∙ ap (λ t. wt.current_cycle_no * wt.wheel_size + t) tic

-- Between two ticks no request is pending, and every element waits for a later slot.
abbrev pub Idle : ℕ → WheelTimer → Type 0
Idle k wt =
    (wt_get_clock_interval_in_milli_sec wt ≡ k)
    × (wt.current_clock_tic < wt.wheel_size)
    × (wt.reschd_list ≡ [])
    × Slotted (waiting wt.current_cycle_no wt.current_clock_tic k) wt

-- The tick keeps `Idle`, and counts.
pub tick-Idle :
    (k : ℕ) (wt n : WheelTimer)
    → Idle k wt
    → Expired k (advance wt) n
    → Idle k n
      × (n.wheel_size ≡ wt.wheel_size)
      × (current_abs_slot_no n ≡ current_abs_slot_no wt + 1)
unfolding current_abs_slot_no
tick-Idle k wt n (i, b, idle, inv) (slotted, wheel, _, _) =
    let (size', tic', cycle', _, _, pending') = wheel in
    let (size, pending, less, _, _, interval, resolution) = advance-fields wt b in
    let slotted' : Slotted (waiting n.current_cycle_no n.current_clock_tic k) n =
      subst (λ c. Slotted (waiting c n.current_clock_tic k) n) (sym cycle')
        (subst (λ t. Slotted (waiting (advance wt).current_cycle_no t k) n) (sym tic') slotted) in
    let count = SameWheel-abs (advance wt) n wheel ∙ advance-abs wt in
    let interval' = SameWheel-interval (advance wt) n wheel ∙ advance-interval wt b ∙ i in
    (
      (interval', omega (arith, tic', less, size', size), pending' ∙ pending ∙ idle, slotted'),
      size' ∙ size,
      count,
    )

-- A job among jobs.
abbrev pub has_job : ℕ → ℕ → List Job → Bool
has_job f a [] = false
has_job f a ((g, b) ∷ js) = f == g && a == b || has_job f a js

pub due-has_job :
    (c : ℕ) (wt : WheelTimer) (e : ℕ) (xs : List ℕ)
    → has e xs ≡ true
    → (wt.elems e).execute_cycle_no ≡ c
    → has_job (wt.elems e).app_callback (wt.elems e).arg (due_jobs c wt xs) ≡ true
due-has_job c wt e [] m h = ground arith
due-has_job c wt e (x ∷ xs) m h = elim (Bool-cases (e == x)) [
  | inl same ↦
      let eq : e ≡ x = ground arith in
      ground (
        arith,
        ap (λ r. (wt.elems r).execute_cycle_no) eq,
        ap (λ r. (wt.elems r).app_callback) eq,
        ap (λ r. (wt.elems r).arg) eq,
      )
  | inr other ↦ ground (arith, due-has_job c wt e xs)
]

module _ (k : ℕ) (wt : WheelTimer) (idle : Idle k wt) (s e : ℕ)
    (inside : has e (wt.slotlist s) ≡ true) where
  early-untouched : current_abs_slot_no wt + 1 ≢ abs_slot_of wt e → is_due (advance wt) s e ≡ false
  early-untouched d = elim (Bool-cases (is_due (advance wt) s e)) [
    | inl u ↦
        let (_, b, _, (placed, _, _)) = idle in
        let (_, here, _, _) = placed s e inside in
        let (_, _, _, _, elems, _, _) = advance-fields wt b in
        let cycle : (wt.elems e).execute_cycle_no ≡ (advance wt).current_cycle_no =
          sym (ap (λ f. (f e).execute_cycle_no) elems) ∙ ground arith in
        let slot : (wt.elems e).slot_no ≡ (advance wt).current_clock_tic = here ∙ ground arith in
        let same : abs_slot_of wt e ≡ current_abs_slot_no wt + 1 =
          ap (λ c. c * wt.wheel_size + (wt.elems e).slot_no) cycle
          ∙ ap (λ t. (advance wt).current_cycle_no * wt.wheel_size + t) slot
          ∙ advance-position wt in
        ground arith
    | inr u ↦ u
  ]

  pub last_tick :
      abs_slot_of wt e ≡ current_abs_slot_no wt + 1
      → (has e (next_slot wt) ≡ true)
        × ((wt.elems e).execute_cycle_no ≡ (advance wt).current_cycle_no)
  last_tick d =
      let (_, b, _, (placed, _, _)) = idle in
      let (_, here, within, _) = placed s e inside in
      let (_, _, less, slots, elems, _, _) = advance-fields wt b in
      let (cycle, tic) =
        slot_unique (wt.elems e).execute_cycle_no (advance wt).current_cycle_no (wt.elems e).slot_no
          (advance wt).current_clock_tic wt.wheel_size (omega (arith, here, within)) less
          (d ∙ sym (advance-position wt)) in
      let place : s ≡ (advance wt).current_clock_tic = sym here ∙ tic in
      (
        ap (λ f. has e (f (advance wt).current_clock_tic)) slots
            ∙ subst (λ t. has e (wt.slotlist t) ≡ true) place inside,
        cycle,
      )

  pub expires_now :
      abs_slot_of wt e ≡ current_abs_slot_no wt + 1
      → (n : WheelTimer) × (jobs : List Job) × (wheel_fn (suc (length (next_slot wt))) wt
          ≡ some (n, jobs))
        × (has_job (wt.elems e).app_callback (wt.elems e).arg jobs ≡ true)
  expires_now d =
      let (i, b, pending, inv) = idle in
      let (there, cycle) = last_tick d in
      let (_, _, _, _, elems, _, _) = advance-fields wt b in
      let (n, run, _) =
        wheel_fn-due (suc (length (next_slot wt))) k wt i b pending inv (omega arith) in
      let cycle' : ((advance wt).elems e).execute_cycle_no ≡ (advance wt).current_cycle_no =
        ap (λ f. (f e).execute_cycle_no) elems ∙ cycle in
      let job =
        due-has_job (advance wt).current_cycle_no (advance wt) e (next_slot wt) there cycle' in
      let jobs = due_jobs (advance wt).current_cycle_no (advance wt) (next_slot wt) in
      (n, jobs, run, sym (ap (λ f. has_job (f e).app_callback (f e).arg jobs) elems) ∙ job)

  pub waits_on :
      current_abs_slot_no wt + 1 ≢ abs_slot_of wt e
      → (n : WheelTimer) × (jobs : List Job) × (wheel_fn (suc (length (next_slot wt))) wt
          ≡ some (n, jobs))
        × Idle k n
        × (n.wheel_size ≡ wt.wheel_size)
        × (current_abs_slot_no n ≡ current_abs_slot_no wt + 1)
        × (has e (n.slotlist s) ≡ true)
        × (n.elems e ≡ wt.elems e)
  waits_on d =
      let (i, b, pending, inv) = idle in
      let (_, _, _, slots, elems, _, _) = advance-fields wt b in
      let (n, run, expired) =
        wheel_fn-due (suc (length (next_slot wt))) k wt i b pending inv (omega arith) in
      let (_, _, untouched, _) = expired in
      let (idle', size, count) = tick-Idle k wt n idle expired in
      let (stays, same) =
        untouched s e (ap (λ f. has e (f s)) slots ∙ inside) (early-untouched d) in
      (
        n,
        due_jobs (advance wt).current_cycle_no (advance wt) (next_slot wt),
        run,
        idle',
        size,
        count,
        stays,
        same ∙ ap (λ f. f e) elems,
      )

-- On an idle wheel, whose elements all wait for later ticks and on which no request is pending, an
-- element whose absolute slot is `r + 1` ticks ahead stays as it is, in its slot, for `r` ticks,
-- and the next tick gives its job to the dispatcher.
pub ticks-expiry :
    (r k : ℕ) (wt : WheelTimer) (s e : ℕ)
    → Idle k wt
    → has e (wt.slotlist s) ≡ true
    → abs_slot_of wt e ≡ current_abs_slot_no wt + suc r
    → (n m : WheelTimer) × (jobs : List Job) × (ticks r wt ≡ some n)
      × (has e (n.slotlist s) ≡ true)
      × (n.elems e ≡ wt.elems e)
      × (wheel_fn (suc (length (next_slot n))) n ≡ some (m, jobs))
      × (has_job (wt.elems e).app_callback (wt.elems e).arg jobs ≡ true)
unfolding ticks
ticks-expiry zero k wt s e idle inside d =
    let (m, jobs, run, job) = expires_now k wt idle s e inside (ground arith) in
    (wt, m, jobs, refl, inside, refl, run, job)
ticks-expiry (suc r) k wt s e idle inside d =
    let (n, jobs, run, idle', size, count, inside', same) =
      waits_on k wt idle s e inside (ground arith) in
    let d' : abs_slot_of n e ≡ current_abs_slot_no n + suc r =
      ap (λ v. v.execute_cycle_no * n.wheel_size + v.slot_no) same
      ∙ ap (λ w. (wt.elems e).execute_cycle_no * w + (wt.elems e).slot_no) size
      ∙ d
      ∙ omega (arith, count) in
    let (n', m, jobs', rest, there, same', last, job) = ticks-expiry r k n s e idle' inside' d' in
    (
      n',
      m,
      jobs',
      rw (run) rest,
      there,
      same' ∙ same,
      last,
      sym (ap (λ v. has_job v.app_callback v.arg jobs') same) ∙ job,
    )
