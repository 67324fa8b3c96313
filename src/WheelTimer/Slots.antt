-- ===== src/WheelTimer/Slots.antt =====
-- libtimer/WheelTimer.c: what keeps the slots in order and their elements in the future.
use networking_protocol_deve.Base.{
  ℕ, ◌≤◌, ◌<◌, ◌≡◌, ◌↔◌, refl, Bool, true, false, ◌&&◌, ◌||◌, List, [], ◌∷◌, ◌==◌, ltb, leb, arith,
}
use networking_protocol_deve.Gluethread.{precedes, is_minus_one}
use networking_protocol_deve.Gluethread.Linked.{has, distinct}
use networking_protocol_deve.Gluethread.Remove.{erase}
use networking_protocol_deve.Gluethread.Sorted.{Ascending}
use networking_protocol_deve.WheelTimer.{WheelTimer, WtElem, slot_order, insert_wt_elem_in_slot}

-- The slot of the element comes after the tick `t` of the cycle `c`.
abbrev pub is_later : ℕ → ℕ → WtElem → Bool
is_later c t v = ltb c v.execute_cycle_no || c == v.execute_cycle_no && ltb t v.slot_no

-- The slot comes after the tick, or is that of the tick.
abbrev pub is_not_before : ℕ → ℕ → WtElem → Bool
is_not_before c t v = ltb c v.execute_cycle_no || c == v.execute_cycle_no && leb t v.slot_no

abbrev pub cycle_of : WheelTimer → ℕ → ℕ
cycle_of wt e = (wt.elems e).execute_cycle_no

-- An element of the slot `s` whose time satisfies `test`.
abbrev pub Placed : (WtElem → Bool) → WheelTimer → ℕ → ℕ → Type 0
Placed test wt s e =
    (0 < e) × ((wt.elems e).slot_no ≡ s) × (s < wt.wheel_size) × (test (wt.elems e) ≡ true)

-- The slots hold distinct elements in the order of their cycles, whose times satisfy `test`.
abbrev pub Slotted : (WtElem → Bool) → WheelTimer → Type 0
Slotted test wt =
    ((s e : ℕ) → has e (wt.slotlist s) ≡ true → Placed test wt s e)
    × ((s : ℕ) → distinct (wt.slotlist s) ≡ true)
    × ((s : ℕ) → Ascending (cycle_of wt) (wt.slotlist s))

pub slot_order-precedes :
    (wt : WheelTimer) (a b : ℕ)
    → (precedes (slot_order wt) 0 a b ≡ true) ↔ (cycle_of wt a < cycle_of wt b)
unfolding precedes slot_order insert_wt_elem_in_slot is_minus_one
slot_order-precedes wt a b = ground arith

pub Ascending-transfer :
    (f g : ℕ → ℕ) (xs : List ℕ)
    → ((q : ℕ) → has q xs ≡ true → g q ≡ f q)
    → Ascending f xs
    → Ascending g xs
Ascending-transfer f g [] same h = tt
Ascending-transfer f g (x ∷ []) same h = tt
Ascending-transfer f g (x ∷ y ∷ ys) same (h, hs) =
    let ex : g x ≡ f x = same x (ground arith) in
    let ey : g y ≡ f y = same y (ground arith) in
    (omega (arith, ex, ey, h), Ascending-transfer f g (y ∷ ys) (λ q h. same q (ground arith)) hs)

pub Ascending-tail : (f : ℕ → ℕ) (x : ℕ) (xs : List ℕ) → Ascending f (x ∷ xs) → Ascending f xs
Ascending-tail f x [] h = tt
Ascending-tail f x (y ∷ ys) (h, hs) = hs

pub Ascending-head :
    (f : ℕ → ℕ) (x q : ℕ) (xs : List ℕ) → Ascending f (x ∷ xs) → has q xs ≡ true → f x ≤ f q
Ascending-head f x q [] h m = ground arith
Ascending-head f x q (y ∷ ys) (h, hs) m = ground (arith, Ascending-head f y q ys hs)

pub erase-Ascending : (f : ℕ → ℕ) (c : ℕ) (xs : List ℕ) → Ascending f xs → Ascending f (erase c xs)
erase-Ascending f c [] h = tt
erase-Ascending f c (x ∷ []) h = ground arith
erase-Ascending f c (x ∷ y ∷ []) h = ground arith
erase-Ascending f c (x ∷ y ∷ z ∷ zs) (h, (h', hs)) =
    ground (arith, erase-Ascending f c (y ∷ z ∷ zs))

pub has-erase_self : (c : ℕ) (xs : List ℕ) → distinct xs ≡ true → has c (erase c xs) ≡ false
has-erase_self c [] d = refl
has-erase_self c (x ∷ xs) d = ground (arith, has-erase_self c xs)

pub has-erase_of : (c q : ℕ) (xs : List ℕ) → has q (erase c xs) ≡ true → has q xs ≡ true
has-erase_of c q [] h = h
has-erase_of c q (x ∷ xs) h = ground (arith, has-erase_of c q xs)
