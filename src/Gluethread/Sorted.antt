-- ===== src/Gluethread/Sorted.antt =====
-- gluethread/glthread.c: `glthread_priority_insert` on an ordered list.
use mathlib.Core.Path.{subst}
use networking_protocol_deve.Base.{
  ℕ, zero, suc, ◌≤◌, ◌<◌, ◌≡◌, ◌≢◌, refl, true, false, ◌||◌, some, List, [], ◌∷◌, ◌==◌, arith, ◌↔◌,
  length, if◌then◌else◌,
}
use networking_protocol_deve.Gluethread.{
  ℤ, Memory, write, set_left, set_right, init_glthread, glthread_add_next, precedes,
  insertion_point, add_at_point, insert_initialised, glthread_priority_insert,
  is_glthread_list_empty,
}
use networking_protocol_deve.Gluethread.Linked.{has, distinct, Linked, Linked-transfer, IsList}
use networking_protocol_deve.Gluethread.Insert.{insert_after, add_next-IsList}

init-fields :
    (m : Memory) (new q : ℕ)
    → ((init_glthread m new).left new ≡ 0)
      × ((init_glthread m new).right new ≡ 0)
      × (q ≢ new
          → ((init_glthread m new).left q ≡ m.left q) × ((init_glthread m new).right q ≡ m.right q))
unfolding init_glthread set_left set_right write
init-fields m new q = ground arith

-- Clearing a node outside the list leaves the list.
init-IsList :
    (m : Memory) (head new : ℕ) (xs : List ℕ)
    → IsList m head xs
    → has new (head ∷ xs) ≡ false
    → IsList (init_glthread m new) head xs
init-IsList m head new xs (l, z, k, d) f = (
  ground (arith, init-fields m new head),
  z,
  Linked-transfer m (init_glthread m new) head xs (λ q h. ground (arith, init-fields m new q))
      (λ q h. ground (arith, init-fields m new q)) k,
  d,
)

module _ (comp_fn : ℕ → ℕ → ℤ) (offset : ℕ) where
  -- The sequence with a new node before the first that it precedes.
  abbrev pub insert_before : ℕ → List ℕ → List ℕ
  insert_before new [] = new ∷ []
  insert_before new (x ∷ xs) =
      if precedes comp_fn offset new x then new ∷ x ∷ xs else x ∷ insert_before new xs

  abbrev point : ℕ → ℕ → List ℕ → ℕ
  point new p [] = p
  point new p (x ∷ xs) = if precedes comp_fn offset new x then p else point new x xs

  has-point : (new p : ℕ) (xs : List ℕ) → has (point new p xs) (p ∷ xs) ≡ true
  has-point new p [] = ground arith
  has-point new p (x ∷ xs) = ground (arith, has-point new x xs)

  insert_after-point :
      (new p : ℕ) (xs : List ℕ)
      → distinct (p ∷ xs) ≡ true
      → insert_after (point new p xs) new p xs ≡ insert_before new xs
  insert_after-point new p [] d = ground arith
  insert_after-point new p (x ∷ xs) d =
      ground (arith, insert_after-point new x xs, has-point new x xs)

  insertion_point-later :
      (fuel : ℕ) (m : Memory) (head new p : ℕ) (xs : List ℕ)
      → length xs ≤ fuel
      → 0 < p
      → Linked m p xs
      → insertion_point comp_fn offset fuel m head new p (m.right p) ≡ some (point new p xs)
  unfolding insertion_point
  insertion_point-later zero m head new p [] b z k = ground arith
  insertion_point-later zero m head new p (x ∷ xs) b z k = elim b [ ]
  insertion_point-later (suc fuel) m head new p [] b z k = ground arith
  insertion_point-later (suc fuel) m head new p (x ∷ xs) b z (k₁, k₂, k₃, k₄) =
      ground (arith, insertion_point-later fuel m head new x xs (omega arith) k₃ k₄)

  insertion_point-first :
      (fuel : ℕ) (m : Memory) (head new x : ℕ) (xs : List ℕ)
      → length (x ∷ xs) ≤ fuel
      → Linked m head (x ∷ xs)
      → insertion_point comp_fn offset fuel m head new 0 (m.right head)
        ≡ some (point new head (x ∷ xs))
  unfolding insertion_point
  insertion_point-first zero m head new x xs b k = elim b [ ]
  insertion_point-first (suc fuel) m head new x xs b (k₁, k₂, k₃, k₄) =
      ground (arith, insertion_point-later fuel m head new x xs (omega arith) k₃ k₄)

  insert_initialised-lem :
      (fuel : ℕ) (m : Memory) (head new : ℕ) (xs : List ℕ)
      → length xs ≤ fuel
      → IsList m head xs
      → insert_initialised comp_fn offset fuel m head new
        ≡ some (glthread_add_next m (point new head xs) new)
  unfolding insert_initialised is_glthread_list_empty add_at_point
  insert_initialised-lem fuel m head new [] b (l, z, k, d) = ground arith
  insert_initialised-lem fuel m head new (x ∷ []) b (l, z, k, d) = ground arith
  insert_initialised-lem fuel m head new (x ∷ y ∷ ys) b (l, z, k, d) =
      ground (arith, insertion_point-first fuel m head new x (y ∷ ys) b k)

  -- On a list and a node that is not in it, with fuel for the length of the list,
  -- `glthread_priority_insert` ends and puts the node before the first one that it precedes, and
  -- last when it precedes none.
  pub priority_insert-insert_before :
      (fuel : ℕ) (m : Memory) (head new : ℕ) (xs : List ℕ)
      → length xs ≤ fuel
      → IsList m head xs
      → 0 < new
      → has new (head ∷ xs) ≡ false
      → (n : Memory) × (glthread_priority_insert comp_fn offset fuel m head new ≡ some n)
        × IsList n head (insert_before new xs)
  unfolding glthread_priority_insert
  priority_insert-insert_before fuel m head new xs b k s f =
      let k' = init-IsList m head new xs k f in
      let (_, r, _) = init-fields m new head in
      let (_, _, _, d) = k in
      let list =
        add_next-IsList (init_glthread m new) (point new head xs) new head xs r s k' f
          (has-point new head xs) in
      (
        glthread_add_next (init_glthread m new) (point new head xs) new,
        insert_initialised-lem fuel (init_glthread m new) head new xs b k',
        subst (IsList (glthread_add_next (init_glthread m new) (point new head xs) new) head)
            (insert_after-point new head xs d) list,
      )

module _ (comp_fn : ℕ → ℕ → ℤ) (offset : ℕ) where
  pub has-insert_before :
      (new q : ℕ) (xs : List ℕ)
      → has q (insert_before comp_fn offset new xs) ≡ ((q == new) || has q xs)
  has-insert_before new q [] = refl
  has-insert_before new q (x ∷ xs) = ground (arith, has-insert_before new q xs)

  pub insert_before-distinct :
      (new : ℕ) (xs : List ℕ)
      → has new xs ≡ false
      → distinct xs ≡ true
      → distinct (insert_before comp_fn offset new xs) ≡ true
  insert_before-distinct new [] f d = refl
  insert_before-distinct new (x ∷ xs) f d =
      ground (arith, insert_before-distinct new xs, has-insert_before new x xs)

-- Nodes in ascending order of their keys.
abbrev pub Ascending : (ℕ → ℕ) → List ℕ → Type 0
Ascending key [] = Unit
Ascending key (x ∷ []) = Unit
Ascending key (x ∷ y ∷ ys) = (key x ≤ key y) × Ascending key (y ∷ ys)

module _ (comp_fn : ℕ → ℕ → ℤ) (offset : ℕ) (key : ℕ → ℕ)
    (compares : (a b : ℕ) → (precedes comp_fn offset a b ≡ true) ↔ (key a < key b)) where
  pub insert_before-Ascending :
      (new : ℕ) (xs : List ℕ)
      → Ascending key xs
      → Ascending key (insert_before comp_fn offset new xs)
  insert_before-Ascending new [] h = tt
  insert_before-Ascending new (x ∷ []) h = ground (arith, compares new x)
  insert_before-Ascending new (x ∷ y ∷ ys) h =
      ground (arith, compares new x, compares new y, insert_before-Ascending new (y ∷ ys))

  -- Where `comp_fn` answers -1 exactly for a smaller key, `glthread_priority_insert` with fuel for
  -- the length of the list turns a list in ascending order, and a node that is not in it, into a
  -- list in ascending order of the new node and all the old ones.
  pub priority_insert-Ascending :
      (fuel : ℕ) (m : Memory) (head new : ℕ) (xs : List ℕ)
      → length xs ≤ fuel
      → IsList m head xs
      → 0 < new
      → has new (head ∷ xs) ≡ false
      → Ascending key xs
      → (n : Memory) × (ys : List ℕ) × (glthread_priority_insert comp_fn offset fuel m head new
          ≡ some n)
        × IsList n head ys
        × Ascending key ys
        × ((q : ℕ) → has q ys ≡ ((q == new) || has q xs))
  priority_insert-Ascending fuel m head new xs b k s f h =
      let (n, e, list) = priority_insert-insert_before comp_fn offset fuel m head new xs b k s f in
      (
        n,
        insert_before comp_fn offset new xs,
        e,
        list,
        insert_before-Ascending new xs h,
        λ q. has-insert_before comp_fn offset new q xs,
      )
