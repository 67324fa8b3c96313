-- ===== src/WheelTimer/Fires.antt =====
-- libtimer/WheelTimer.c: a tick runs exactly the jobs that are due.
use mathlib.Core.Path.{subst}
use networking_protocol_deve.Base.{
  ℕ, zero, suc, ◌<◌, ◌≡◌, inl, inr, refl, sym, ap, ◌∙◌, true, false, some, List, [], ◌∷◌, ◌==◌,
  arith, Bool-cases, ==_refl, length,
}
use networking_protocol_deve.Gluethread.Linked.{has, distinct}
use networking_protocol_deve.WheelTimer.{
  WheelTimer, wt_get_clock_interval_in_milli_sec, in_milli_sec,
}
use networking_protocol_deve.WheelTimer.Tick.{after_expiry, Job, expire_from, first_node, next_node}
use networking_protocol_deve.WheelTimer.Slots.{cycle_of, Slotted, Ascending-tail}
use networking_protocol_deve.WheelTimer.Due.{
  due_or_later, due_jobs, SameWheel, after_expiry-wheel, after_expiry-others,
}
use networking_protocol_deve.WheelTimer.Rest.{after_expiry-rest}
use networking_protocol_deve.WheelTimer.Step.{step-Slotted, step_trans, last-Expired, first-Placed}
use networking_protocol_deve.WheelTimer.Expiry.{
  Expired, settle, none-due_jobs, late-rest, slot-order,
}

-- A loop that starts at an element that is not due stops there.
stop :
    (fuel k : ℕ) (wt : WheelTimer) (y : ℕ)
    → 0 < fuel
    → (wt.current_cycle_no == (wt.elems y).execute_cycle_no) ≡ false
    → expire_from fuel wt y ≡ some (wt, [])
unfolding expire_from
stop zero k wt y p h = elim p [ ]
stop (suc fuel) k wt y p h = ground arith

expire_from-null : (fuel : ℕ) (wt : WheelTimer) → expire_from fuel wt 0 ≡ some (wt, [])
unfolding expire_from
expire_from-null zero wt = refl
expire_from-null (suc fuel) wt = refl

expire_from-step :
    (fuel x : ℕ) (wt n : WheelTimer) (xs : List ℕ) (js : List Job)
    → wt.slotlist wt.current_clock_tic ≡ x ∷ xs
    → 0 < x
    → (wt.current_cycle_no == (wt.elems x).execute_cycle_no) ≡ true
    → expire_from fuel (after_expiry wt x) (first_node xs) ≡ some (n, js)
    → expire_from (suc fuel) wt x ≡ some (n, ((wt.elems x).app_callback, (wt.elems x).arg) ∷ js)
unfolding expire_from
expire_from-step fuel x wt n xs js slot z due rest =
    let next : next_node x (wt.slotlist wt.current_clock_tic) ≡ first_node xs =
      rw (slot, ==_refl x) refl in
    let null : (x == 0) ≡ false = ground arith in rw (null, due, next, rest) refl

-- What the loop does from the first node of the list `xs`.
abbrev Result : ℕ → ℕ → WheelTimer → List ℕ → Type 0
Result fuel k wt xs =
    (n : WheelTimer) × (expire_from fuel wt (first_node xs)
      ≡ some (n, due_jobs wt.current_cycle_no wt xs))
    × Expired k wt n

module _ (k : ℕ) (wt : WheelTimer) (interval : wt_get_clock_interval_in_milli_sec wt ≡ k)
    (positive : 0 < wt.wheel_size)
    (inv : Slotted (due_or_later wt.current_cycle_no wt.current_clock_tic k) wt) where
  quiet-Expired :
      ((q : ℕ)
        → has q (wt.slotlist wt.current_clock_tic) ≡ true
        → (wt.current_cycle_no == (wt.elems q).execute_cycle_no) ≡ false)
      → Expired k wt wt
  quiet-Expired calm = (
    settle wt.current_cycle_no wt.current_clock_tic k wt inv calm,
    (refl, refl, refl, refl, refl, refl),
    λ s q m u. (m, refl),
    λ q m u r. absurd (ground (arith, calm q m)),
  )

  late-Result :
      (fuel x : ℕ) (xs : List ℕ)
      → 0 < fuel
      → wt.slotlist wt.current_clock_tic ≡ x ∷ xs
      → (wt.current_cycle_no == (wt.elems x).execute_cycle_no) ≡ false
      → Result fuel k wt (x ∷ xs)
  late-Result fuel x xs b slot late =
      let (order, low) =
        slot-order wt.current_cycle_no wt.current_clock_tic k wt (x ∷ xs) slot inv in
      let calm = late-rest wt.current_cycle_no wt x xs order (low x (ground arith)) late in
      (
        wt,
        stop fuel k wt x b late
            ∙ ap (λ js. some (wt, js)) (sym (none-due_jobs wt.current_cycle_no wt (x ∷ xs) calm)),
        quiet-Expired (λ q m. calm q (sym (ap (has q) slot) ∙ m)),
      )

  -- Only the first element is due.
  one-Result :
      (fuel x : ℕ) (xs : List ℕ)
      → wt.slotlist wt.current_clock_tic ≡ x ∷ xs
      → (wt.current_cycle_no == (wt.elems x).execute_cycle_no) ≡ true
      → ((q : ℕ) → has q xs ≡ true → (wt.current_cycle_no == (wt.elems q).execute_cycle_no) ≡ false)
      → expire_from fuel (after_expiry wt x) (first_node xs) ≡ some (after_expiry wt x, [])
      → Result (suc fuel) k wt (x ∷ xs)
  one-Result fuel x xs slot due calm rest =
      let (z, _, _, _) = first-Placed wt k x xs interval positive slot inv due in
      let jobs : due_jobs wt.current_cycle_no wt (x ∷ xs)
          ≡ ((wt.elems x).app_callback, (wt.elems x).arg) ∷ [] =
        rw (due, none-due_jobs wt.current_cycle_no wt xs calm) refl in
      (
        after_expiry wt x,
        rw (jobs) (expire_from-step fuel x wt (after_expiry wt x) xs [] slot z due rest),
        last-Expired wt k x xs interval positive slot inv due calm,
      )

  -- The first element and the next one are due.
  more-Result :
      (fuel x y : ℕ) (xs ys : List ℕ)
      → wt.slotlist wt.current_clock_tic ≡ x ∷ y ∷ xs
      → (wt.current_cycle_no == (wt.elems x).execute_cycle_no) ≡ true
      → due_jobs wt.current_cycle_no (after_expiry wt x) (y ∷ ys)
        ≡ due_jobs wt.current_cycle_no wt (y ∷ xs)
      → Result fuel k (after_expiry wt x) (y ∷ ys)
      → Result (suc fuel) k wt (x ∷ y ∷ xs)
  more-Result fuel x y xs ys slot due same (n, e, expired) =
      let (z, _, _, _) = first-Placed wt k x (y ∷ xs) interval positive slot inv due in
      let (_, _, cycle, _, _, _) = after_expiry-wheel wt x in
      let jobs : due_jobs wt.current_cycle_no wt (x ∷ y ∷ xs)
          ≡ ((wt.elems x).app_callback, (wt.elems x).arg)
            ∷ due_jobs wt.current_cycle_no wt (y ∷ xs) =
        rw (due) refl in
      let e' : expire_from fuel (after_expiry wt x) y
          ≡ some (n, due_jobs wt.current_cycle_no wt (y ∷ xs)) =
        e
        ∙ ap (λ c. some (n, due_jobs c (after_expiry wt x) (y ∷ ys))) cycle
        ∙ ap (λ js. some (n, js)) same in
      (
        n,
        rw (jobs) (
            expire_from-step fuel x wt n (y ∷ xs) (due_jobs wt.current_cycle_no wt (y ∷ xs)) slot z
              due e'),
        step_trans wt k x (y ∷ xs) interval positive slot inv due n expired,
      )

pub interval-transfer :
    (wt n : WheelTimer)
    → n.clock_tic_interval ≡ wt.clock_tic_interval
    → n.timer_resolution ≡ wt.timer_resolution
    → wt_get_clock_interval_in_milli_sec n ≡ wt_get_clock_interval_in_milli_sec wt
unfolding wt_get_clock_interval_in_milli_sec
interval-transfer wt n interval resolution =
    ap (λ r. in_milli_sec r n.clock_tic_interval) resolution
    ∙ ap (in_milli_sec wt.timer_resolution) interval

pub SameWheel-interval :
    (wt n : WheelTimer)
    → SameWheel wt n
    → wt_get_clock_interval_in_milli_sec n ≡ wt_get_clock_interval_in_milli_sec wt
SameWheel-interval wt n (_, _, _, interval, resolution, _) =
    interval-transfer wt n interval resolution

-- The loop ends, with the jobs of the elements that are due.
pub expire_from-lem :
    (fuel k : ℕ) (wt : WheelTimer) (xs : List ℕ)
    → wt_get_clock_interval_in_milli_sec wt ≡ k
    → 0 < wt.wheel_size
    → wt.slotlist wt.current_clock_tic ≡ xs
    → Slotted (due_or_later wt.current_cycle_no wt.current_clock_tic k) wt
    → length (due_jobs wt.current_cycle_no wt xs) < fuel
    → Result fuel k wt xs
expire_from-lem fuel k wt [] i z slot inv b = (
  wt,
  expire_from-null fuel wt,
  quiet-Expired k wt i z inv (λ q m. ground (arith, ap (has q) slot)),
)
expire_from-lem zero k wt (x ∷ xs) i z slot inv b = elim b [ ]
expire_from-lem (suc fuel) k wt (x ∷ []) i z slot inv b =
    elim (Bool-cases (wt.current_cycle_no == (wt.elems x).execute_cycle_no)) [
      | inl due ↦
          one-Result k wt i z inv fuel x [] slot due (λ q m. ground arith)
            (expire_from-null fuel (after_expiry wt x))
      | inr late ↦ late-Result k wt i z inv (suc fuel) x [] (omega arith) slot late
    ]
expire_from-lem (suc fuel) k wt (x ∷ y ∷ xs) i z slot inv b =
    elim (Bool-cases (wt.current_cycle_no == (wt.elems x).execute_cycle_no)) [
      | inl due ↦ elim (Bool-cases (wt.current_cycle_no == (wt.elems y).execute_cycle_no)) [
        | inl next ↦
            let (z', _, _, test) = first-Placed wt k x (y ∷ xs) i z slot inv due in
            let (_, d, _) = inv in
            let apart : distinct (x ∷ y ∷ xs) ≡ true =
              sym (ap distinct slot) ∙ d wt.current_clock_tic in
            let (ys, slot', same) =
              after_expiry-rest wt x y xs k slot i (ground arith) z apart next in
            let wheel = after_expiry-wheel wt x in
            let (size, tic, cycle, _, _, _) = wheel in
            let n = after_expiry wt x in
            let slot'' : n.slotlist n.current_clock_tic ≡ y ∷ ys = ap n.slotlist tic ∙ slot' in
            let inv' : Slotted (due_or_later n.current_cycle_no n.current_clock_tic k) n =
              subst (λ c. Slotted (due_or_later c n.current_clock_tic k) n) (sym cycle)
                (subst (λ t. Slotted (due_or_later wt.current_cycle_no t k) n) (sym tic)
                  (step-Slotted wt k x (y ∷ xs) i z slot inv due)) in
            let all : length (due_jobs wt.current_cycle_no wt (x ∷ y ∷ xs))
                ≡ suc (length (due_jobs wt.current_cycle_no wt (y ∷ xs))) =
              rw (due) refl in
            let b' : length (due_jobs n.current_cycle_no n (y ∷ ys)) < fuel =
              omega
                (arith, ap (λ c. length (due_jobs c n (y ∷ ys))) cycle, ap length same, all, b) in
            more-Result k wt i z inv fuel x y xs ys slot due same (
              expire_from-lem fuel k n (y ∷ ys) (SameWheel-interval wt n wheel ∙ i) (rw (size) z)
                slot'' inv' b')
        | inr late ↦
            let (order, low) =
              slot-order wt.current_cycle_no wt.current_clock_tic k wt (x ∷ y ∷ xs) slot inv in
            let calm =
              late-rest wt.current_cycle_no wt y xs (Ascending-tail (cycle_of wt) x (y ∷ xs) order)
                (low y (ground arith)) late in
            let (_, _, cycle, _, _, _) = after_expiry-wheel wt x in
            let (_, d, _) = inv in
            let apart : distinct (x ∷ y ∷ xs) ≡ true =
              sym (ap distinct slot) ∙ d wt.current_clock_tic in
            let all : length (due_jobs wt.current_cycle_no wt (x ∷ y ∷ xs))
                ≡ suc (length (due_jobs wt.current_cycle_no wt (y ∷ xs))) =
              rw (due) refl in
            let enough : 0 < fuel = omega (arith, all, b) in
            let late' : ((after_expiry wt x).current_cycle_no
                  == ((after_expiry wt x).elems y).execute_cycle_no)
                ≡ false =
              rw (cycle, after_expiry-others wt x y (ground arith)) late in
            one-Result k wt i z inv fuel x (y ∷ xs) slot due calm
              (stop fuel k (after_expiry wt x) y enough late')
      ]
      | inr late ↦ late-Result k wt i z inv (suc fuel) x (y ∷ xs) (omega arith) slot late
    ]
