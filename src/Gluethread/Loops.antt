-- ===== src/Gluethread/Loops.antt =====
-- gluethread/glthread.c: the loops over a list that count it, find its end and append to it.
use mathlib.Core.Path.{subst}
use networking_protocol_deve.Base.{
  ℕ, zero, suc, ◌+◌, ◌^◌, ◌%◌, ◌≤◌, ◌<◌, ◌≡◌, true, false, some, List, [], ◌∷◌, ◌++◌, arith, length,
}
use networking_protocol_deve.Gluethread.{
  Memory, glthread_add_next, last_visited, count_from, get_glthread_list_count, glthread_add_last,
  add_after_last, glthread_get_last,
}
use networking_protocol_deve.Gluethread.Linked.{has, distinct, Linked, IsList}
use networking_protocol_deve.Gluethread.Insert.{insert_after, add_next-IsList}

abbrev pub last : ℕ → List ℕ → ℕ
last p [] = p
last p (x ∷ xs) = last x xs

count_from-length :
    (fuel : ℕ) (m : Memory) (c p : ℕ) (xs : List ℕ)
    → length xs ≤ fuel
    → c < 2 ^ 32
    → Linked m p xs
    → count_from fuel m c (m.right p) ≡ some ((c + length xs) % 2 ^ 32)
unfolding count_from
count_from-length zero m c p [] b d k = ground arith
count_from-length zero m c p (x ∷ xs) b d k = elim b [ ]
count_from-length (suc fuel) m c p [] b d k = ground arith
count_from-length (suc fuel) m c p (x ∷ xs) b d (k₁, k₂, k₃, k₄) =
    ground (arith, count_from-length fuel m ((c + 1) % 2 ^ 32) x xs (omega arith) (omega arith) k₄)

-- `get_glthread_list_count` ends on every list and counts it modulo 2 ^ 32.
pub list_count-length :
    (fuel : ℕ) (m : Memory) (head : ℕ) (xs : List ℕ)
    → length xs ≤ fuel
    → IsList m head xs
    → get_glthread_list_count fuel m head ≡ some (length xs % 2 ^ 32)
unfolding get_glthread_list_count
list_count-length fuel m head xs b (_, _, k, _) =
    ground (arith, count_from-length fuel m 0 head xs b (omega arith) k)

last_visited-last :
    (fuel : ℕ) (m : Memory) (prev p : ℕ) (xs : List ℕ)
    → length xs ≤ fuel
    → Linked m p xs
    → last_visited fuel m prev (m.right p) ≡ some (last prev xs)
unfolding last_visited
last_visited-last zero m prev p [] b k = ground arith
last_visited-last zero m prev p (x ∷ xs) b k = elim b [ ]
last_visited-last (suc fuel) m prev p [] b k = ground arith
last_visited-last (suc fuel) m prev p (x ∷ xs) b (k₁, k₂, k₃, k₄) =
    ground (arith, last_visited-last fuel m x x xs (omega arith) k₄)

has-last : (p : ℕ) (xs : List ℕ) → has (last p xs) (p ∷ xs) ≡ true
has-last p [] = ground arith
has-last p (x ∷ xs) = ground (arith, has-last x xs)

insert_after-last :
    (new p : ℕ) (xs : List ℕ)
    → distinct (p ∷ xs) ≡ true
    → insert_after (last p xs) new p xs ≡ xs ++ new ∷ []
insert_after-last new p [] d = ground arith
insert_after-last new p (x ∷ xs) d = ground (arith, insert_after-last new x xs, has-last x xs)

last-positive : (m : Memory) (p : ℕ) (xs : List ℕ) → 0 < p → Linked m p xs → 0 < last p xs
last-positive m p [] z k = z
last-positive m p (x ∷ xs) z (k₁, k₂, k₃, k₄) = last-positive m x xs k₃ k₄

append_at_last :
    (m : Memory) (head new : ℕ) (xs : List ℕ)
    → IsList m head xs
    → m.right new ≡ 0
    → 0 < new
    → has new (head ∷ xs) ≡ false
    → IsList (glthread_add_next m (last head xs) new) head (xs ++ new ∷ [])
append_at_last m head new xs k r s f =
    let (l, z, e, d) = k in
    subst (IsList (glthread_add_next m (last head xs) new) head) (insert_after-last new head xs d)
      (add_next-IsList m (last head xs) new head xs r s k f (has-last head xs))

-- With fuel for the length of the list, `glthread_add_last` ends and appends a node that is not in
-- the list and has no right neighbour.
pub add_last-append :
    (fuel : ℕ) (m : Memory) (head new : ℕ) (xs : List ℕ)
    → length xs ≤ fuel
    → IsList m head xs
    → m.right new ≡ 0
    → 0 < new
    → has new (head ∷ xs) ≡ false
    → (n : Memory) × (glthread_add_last fuel m head new ≡ some n) × IsList n head (xs ++ new ∷ [])
unfolding glthread_add_last add_after_last
add_last-append fuel m head new [] b k r s f =
    let (l, z, e, d) = k in
    (
      glthread_add_next m head new,
      ground (arith, last_visited-last fuel m 0 head [] b e),
      append_at_last m head new [] k r s f,
    )
add_last-append fuel m head new (x ∷ xs) b k r s f =
    let (l, z, e, d) = k in
    let (_, _, x_positive, e') = e in
    let found : glthread_add_last fuel m head new ≡ some (glthread_add_next m (last x xs) new) =
      ground
        (arith, last_visited-last fuel m 0 head (x ∷ xs) b e, last-positive m x xs x_positive e') in
    (glthread_add_next m (last x xs) new, found, append_at_last m head new (x ∷ xs) k r s f)

-- `glthread_get_last` ends on every list with its last node, `NULL` where it is empty.
pub get_last-last :
    (fuel : ℕ) (m : Memory) (head : ℕ) (xs : List ℕ)
    → length xs ≤ fuel
    → IsList m head xs
    → glthread_get_last fuel m head ≡ some (last 0 xs)
unfolding glthread_get_last
get_last-last fuel m head [] b (l, z, k, d) = ground arith
get_last-last fuel m head (x ∷ xs) b (l, z, k, d) =
    ground (arith, last_visited-last fuel m 0 head (x ∷ xs) b k)
