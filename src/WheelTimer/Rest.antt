-- ===== src/WheelTimer/Rest.antt =====
-- libtimer/WheelTimer.c: the slot after its first element has expired.
use networking_protocol_deve.Base.{
  ℕ, ◌/◌, ◌%◌, ◌<◌, ◌≡◌, ◌⊎◌, inl, inr, refl, sym, ap, ◌∙◌, true, false, ◌&&◌, ◌||◌, List, [], ◌∷◌,
  ◌==◌, ltb, arith, Bool-cases, ==_refl,
}
use networking_protocol_deve.Gluethread.{ℤ, precedes}
use networking_protocol_deve.Gluethread.Linked.{has, distinct}
use networking_protocol_deve.Gluethread.Remove.{erase}
use networking_protocol_deve.Gluethread.Sorted.{insert_before}
use networking_protocol_deve.WheelTimer.{
  WheelTimer, unlink, schedule_at, slot_order, next_abs_slot_no, wt_get_clock_interval_in_milli_sec,
}
use networking_protocol_deve.WheelTimer.Tick.{after_expiry}
use networking_protocol_deve.WheelTimer.Slots.{cycle_of, slot_order-precedes}
use networking_protocol_deve.WheelTimer.Schedule.{
  schedule_at-elem, schedule_at-slotlist, timed, timed-cycle_of, timed_others,
}
use networking_protocol_deve.WheelTimer.Due.{repeats, due_jobs, after_expiry-others, next_abs-later}

due_jobs-insert_before :
    (f : ℕ → ℕ → ℤ) (c : ℕ) (n : WheelTimer) (x : ℕ) (xs : List ℕ)
    → (c == (n.elems x).execute_cycle_no) ≡ false
    → due_jobs c n (insert_before f 0 x xs) ≡ due_jobs c n xs
due_jobs-insert_before f c n x [] h = rw (h) refl
due_jobs-insert_before f c n x (y ∷ ys) h = ground (arith, due_jobs-insert_before f c n x ys)

due_jobs-transfer :
    (c : ℕ) (m n : WheelTimer) (xs : List ℕ)
    → ((q : ℕ) → has q xs ≡ true → n.elems q ≡ m.elems q)
    → due_jobs c n xs ≡ due_jobs c m xs
due_jobs-transfer c m n [] same = refl
due_jobs-transfer c m n (x ∷ xs) same =
    let e : n.elems x ≡ m.elems x = same x (ground arith) in
    rw (e, due_jobs-transfer c m n xs (λ q h. same q (ground arith))) refl

erase-first : (x : ℕ) (xs : List ℕ) → erase x (x ∷ xs) ≡ xs
erase-first x xs = rw (==_refl x) refl

erase-out : (x : ℕ) (xs : List ℕ) → has x xs ≡ false → erase x xs ≡ xs
erase-out x [] h = refl
erase-out x (y ∷ ys) h = ground (arith, erase-out x ys)

module _ (wt : WheelTimer) (x y : ℕ) (xs : List ℕ) (k : ℕ) where
  -- What stands in the slot once its first element, `x`, has expired and `y` is due.
  abbrev Rest : WheelTimer → Type 0
  Rest n =
      (n.slotlist wt.current_clock_tic ≡ y ∷ xs)
      ⊎ ((f : ℕ → ℕ → ℤ) × (n.slotlist wt.current_clock_tic ≡ insert_before f 0 x (y ∷ xs))
          × (precedes f 0 x y ≡ false)
          × ((wt.current_cycle_no == (n.elems x).execute_cycle_no) ≡ false))

  reinserted-Rest :
      wt.slotlist wt.current_clock_tic ≡ x ∷ y ∷ xs
      → distinct (x ∷ y ∷ xs) ≡ true
      → (wt.current_cycle_no == (wt.elems y).execute_cycle_no) ≡ true
      → (abs : ℕ)
      → (ltb wt.current_cycle_no (abs / wt.wheel_size)
          || wt.current_cycle_no == abs / wt.wheel_size
            && ltb wt.current_clock_tic (abs % wt.wheel_size))
        ≡ true
      → Rest (schedule_at wt x abs)
  reinserted-Rest e d u abs later =
      elim (Bool-cases (wt.current_clock_tic == abs % wt.wheel_size)) [
        | inl h ↦
            let key = schedule_at-elem wt x abs in
            let past : wt.current_cycle_no < abs / wt.wheel_size = ground arith in
            let due_y : cycle_of (timed wt x abs) y ≡ wt.current_cycle_no =
              timed_others wt x abs y (ground arith) ∙ ground arith in
            let key_x : cycle_of (timed wt x abs) x ≡ abs / wt.wheel_size =
              sym (timed-cycle_of wt x abs x) ∙ key in
            let behind : precedes (slot_order (timed wt x abs)) 0 x y ≡ false =
              ground (arith, slot_order-precedes (timed wt x abs) x y) in
            inr (
              slot_order (timed wt x abs),
              rw (schedule_at-slotlist wt x abs wt.current_clock_tic, h, e, erase-first x (y ∷ xs))
                  refl,
              behind,
              rw (key) (ground arith),
            )
        | inr h ↦ inl (
            rw (schedule_at-slotlist wt x abs wt.current_clock_tic, h, e, erase-first x (y ∷ xs))
              refl)
      ]

  after_expiry-Rest :
      wt.slotlist wt.current_clock_tic ≡ x ∷ y ∷ xs
      → wt_get_clock_interval_in_milli_sec wt ≡ k
      → repeats k (wt.elems x) ≡ true
      → 0 < wt.wheel_size
      → distinct (x ∷ y ∷ xs) ≡ true
      → (wt.current_cycle_no == (wt.elems y).execute_cycle_no) ≡ true
      → Rest (after_expiry wt x)
  unfolding after_expiry unlink
  after_expiry-Rest e c p z d u = elim (Bool-cases (wt.elems x).is_recurrence) [
    | inl r ↦
        let later = next_abs-later wt x k (wt.elems x).time_interval c (ground arith) z in
        rw (r) (reinserted-Rest e d u (next_abs_slot_no wt (wt.elems x).time_interval) later)
    | inr r ↦ rw (r) (inl (rw (e, erase-first x (y ∷ xs)) (erase-out x (y ∷ xs) (ground arith))))
  ]

  pub after_expiry-rest :
      wt.slotlist wt.current_clock_tic ≡ x ∷ y ∷ xs
      → wt_get_clock_interval_in_milli_sec wt ≡ k
      → repeats k (wt.elems x) ≡ true
      → 0 < wt.wheel_size
      → distinct (x ∷ y ∷ xs) ≡ true
      → (wt.current_cycle_no == (wt.elems y).execute_cycle_no) ≡ true
      → (ys : List ℕ) × ((after_expiry wt x).slotlist wt.current_clock_tic ≡ y ∷ ys)
        × (due_jobs wt.current_cycle_no (after_expiry wt x) (y ∷ ys)
            ≡ due_jobs wt.current_cycle_no wt (y ∷ xs))
  after_expiry-rest e c p z d u =
      let same =
        due_jobs-transfer wt.current_cycle_no wt (after_expiry wt x) (y ∷ xs)
          (λ q h. after_expiry-others wt x q (ground arith)) in
      elim (after_expiry-Rest e c p z d u) [
        | inl h ↦ (xs, h, same)
        | inr (f, h, behind, past) ↦
            let first : insert_before f 0 x (y ∷ xs) ≡ y ∷ insert_before f 0 x xs =
              rw (behind) refl in
            let jobs =
              due_jobs-insert_before f wt.current_cycle_no (after_expiry wt x) x (y ∷ xs) past in
            (
              insert_before f 0 x xs,
              h ∙ first,
              ap (due_jobs wt.current_cycle_no (after_expiry wt x)) (sym first) ∙ jobs ∙ same,
            )
      ]
