-- ===== src/WheelTimer/Expiry.antt =====
-- libtimer/WheelTimer.c: the loop of `wheel_fn` over the slot of the current tick.
use mathlib.Core.Path.{subst}
use networking_protocol_deve.Base.{
  ℕ, ◌+◌, ◌*◌, ◌/◌, ◌%◌, ◌≤◌, ◌≡◌, inl, inr, refl, ap, ◌∙◌, Bool, true, false, ◌&&◌, List, [], ◌∷◌,
  ◌==◌, arith, Bool-cases,
}
use networking_protocol_deve.Gluethread.Linked.{has}
use networking_protocol_deve.Gluethread.Sorted.{Ascending}
use networking_protocol_deve.WheelTimer.{
  WheelTimer, next_abs_slot_no, current_abs_slot_no, in_milli_sec,
  wt_get_clock_interval_in_milli_sec,
}
use networking_protocol_deve.WheelTimer.Tick.{after_expiry}
use networking_protocol_deve.WheelTimer.Slots.{cycle_of, Slotted, Ascending-head}
use networking_protocol_deve.WheelTimer.Due.{
  due_or_later, waiting, due_jobs, SameWheel, after_expiry-wheel,
}

-- The element is in the slot of the tick, and its cycle is the current one.
abbrev pub is_due : WheelTimer → ℕ → ℕ → Bool
is_due wt s q = s == wt.current_clock_tic && wt.current_cycle_no == (wt.elems q).execute_cycle_no

-- What the elements are that are not due: where they were, and as they were.
abbrev pub Untouched : WheelTimer → WheelTimer → Type 0
Untouched wt n =
    (s q : ℕ)
    → has q (wt.slotlist s) ≡ true
    → is_due wt s q ≡ false
    → (has q (n.slotlist s) ≡ true) × (n.elems q ≡ wt.elems q)

-- The element is in the slot of the absolute slot number `abs`, on a wheel of `w` slots.
abbrev pub InSlotOf : ℕ → ℕ → WheelTimer → ℕ → Type 0
InSlotOf abs w n q =
    (has q (n.slotlist (abs % w)) ≡ true)
    × ((n.elems q).execute_cycle_no ≡ abs / w)
    × ((n.elems q).slot_no ≡ abs % w)

-- The periodic elements that were due have gone on by their interval.
abbrev pub Renewed : WheelTimer → WheelTimer → Type 0
Renewed wt n =
    (q : ℕ)
    → has q (wt.slotlist wt.current_clock_tic) ≡ true
    → (wt.current_cycle_no == (wt.elems q).execute_cycle_no) ≡ true
    → (wt.elems q).is_recurrence ≡ true
    → InSlotOf (next_abs_slot_no wt (wt.elems q).time_interval) wt.wheel_size n q

-- The state after the loop.
abbrev pub Expired : ℕ → WheelTimer → WheelTimer → Type 0
Expired k wt n =
    Slotted (waiting wt.current_cycle_no wt.current_clock_tic k) n
    × SameWheel wt n
    × Untouched wt n
    × Renewed wt n

pub settle :
    (c t k : ℕ) (n : WheelTimer)
    → Slotted (due_or_later c t k) n
    → ((q : ℕ) → has q (n.slotlist t) ≡ true → (c == (n.elems q).execute_cycle_no) ≡ false)
    → Slotted (waiting c t k) n
settle c t k n (placed, d, h) none_due = (
  λ s q m.
      let (a, b, l, e) = placed s q m in
      (
        a,
        b,
        l,
        elim (Bool-cases (s == t)) [
          | inl u ↦
              let same : s ≡ t = ground arith in
              let m' : has q (n.slotlist t) ≡ true =
                subst (λ r. has q (n.slotlist r) ≡ true) same m in
              ground (arith, none_due q m')
          | inr u ↦ ground arith
        ],
      ),
  d,
  h,
)

pub none-due_jobs :
    (c : ℕ) (n : WheelTimer) (xs : List ℕ)
    → ((q : ℕ) → has q xs ≡ true → (c == (n.elems q).execute_cycle_no) ≡ false)
    → due_jobs c n xs ≡ []
none-due_jobs c n [] h = refl
none-due_jobs c n (x ∷ xs) h =
    rw (h x (ground arith)) (none-due_jobs c n xs (λ q m. h q (ground arith)))

pub SameWheel-trans : (a b c : WheelTimer) → SameWheel a b → SameWheel b c → SameWheel a c
SameWheel-trans a b c (x₁, x₂, x₃, x₄, x₅, x₆) (y₁, y₂, y₃, y₄, y₅, y₆) =
    (y₁ ∙ x₁, y₂ ∙ x₂, y₃ ∙ x₃, y₄ ∙ x₄, y₅ ∙ x₅, y₆ ∙ x₆)

-- No element behind one that is not due is due.
pub late-rest :
    (c : ℕ) (wt : WheelTimer) (y : ℕ) (ys : List ℕ)
    → Ascending (cycle_of wt) (y ∷ ys)
    → c ≤ (wt.elems y).execute_cycle_no
    → (c == (wt.elems y).execute_cycle_no) ≡ false
    → (q : ℕ) → has q (y ∷ ys) ≡ true
    → (c == (wt.elems q).execute_cycle_no) ≡ false
late-rest c wt y ys order low u q m = elim (Bool-cases (q == y)) [
  | inl same ↦
      let eq : y ≡ q = ground arith in
      subst (λ r. (c == (wt.elems r).execute_cycle_no) ≡ false) eq u
  | inr other ↦ ground (arith, Ascending-head (cycle_of wt) y q ys order)
]

-- The list of the slot of the tick is in order, and the cycles of its elements are not past.
pub slot-order :
    (c t k : ℕ) (wt : WheelTimer) (xs : List ℕ)
    → wt.slotlist t ≡ xs
    → Slotted (due_or_later c t k) wt
    → Ascending (cycle_of wt) xs × ((q : ℕ) → has q xs ≡ true → c ≤ (wt.elems q).execute_cycle_no)
slot-order c t k wt xs e (placed, d, h) = (
  subst (Ascending (cycle_of wt)) e (h t),
  λ q m. let (_, _, _, test) = placed t q (ap (has q) e ∙ m) in ground arith,
)

pub after_expiry-next_abs :
    (wt : WheelTimer) (x i : ℕ) → next_abs_slot_no (after_expiry wt x) i ≡ next_abs_slot_no wt i
unfolding next_abs_slot_no current_abs_slot_no wt_get_clock_interval_in_milli_sec
after_expiry-next_abs wt x i =
    let n = after_expiry wt x in
    let (size, tic, cycle, clock, resolution, _) = after_expiry-wheel wt x in
    ap
      (λ c.
        c * n.wheel_size
        + n.current_clock_tic
        + i / in_milli_sec n.timer_resolution n.clock_tic_interval)
      cycle
    ∙ ap
        (λ w.
          wt.current_cycle_no * w
          + n.current_clock_tic
          + i / in_milli_sec n.timer_resolution n.clock_tic_interval)
        size
    ∙ ap
        (λ t.
          wt.current_cycle_no * wt.wheel_size
          + t
          + i / in_milli_sec n.timer_resolution n.clock_tic_interval)
        tic
    ∙ ap
        (λ r.
          wt.current_cycle_no * wt.wheel_size
          + wt.current_clock_tic
          + i / in_milli_sec r n.clock_tic_interval)
        resolution
    ∙ ap
        (λ c.
          wt.current_cycle_no * wt.wheel_size
          + wt.current_clock_tic
          + i / in_milli_sec wt.timer_resolution c)
        clock
