-- ===== src/Gluethread.antt =====
-- gluethread/glthread.c and gluethread/glthread.h: intrusive doubly linked lists on a memory.
pub mod Insert
pub mod Linked
pub mod Loops
pub mod Remove
pub mod Sorted
use networking_protocol_deve.Base.{
  ℕ, zero, suc, ◌+◌, ◌-◌, ◌^◌, ◌%◌, Bool, true, false, ◌&&◌, not, Option, none, some, ◌==◌,
  if◌then◌else◌,
}

-- The `left` and `right` members of the `glthread_t` at each address; `NULL` is the address 0.
pub record Memory : Type 0 where
  pub left : ℕ → ℕ
  pub right : ℕ → ℕ

unfoldable pub write : (ℕ → ℕ) → ℕ → ℕ → ℕ → ℕ
write f p v q = if q == p then v else f q

unfoldable pub set_left : Memory → ℕ → ℕ → Memory
set_left m p v = record m { left = write m.left p v }

unfoldable pub set_right : Memory → ℕ → ℕ → Memory
set_right m p v = record m { right = write m.right p v }

unfoldable pub init_glthread : Memory → ℕ → Memory
init_glthread m p = set_right (set_left m p 0) p 0

unfoldable pub is_queued_up_in_thread : Memory → ℕ → Bool
is_queued_up_in_thread m p = if m.right p == 0 && m.left p == 0 then false else true

unfoldable pub is_glthread_list_empty : Memory → ℕ → Bool
is_glthread_list_empty m p = m.right p == 0 && m.left p == 0

unfoldable pub glthread_add_next : Memory → ℕ → ℕ → Memory
glthread_add_next m curr new =
    if m.right curr == 0
    then set_left (set_right m curr new) new curr
    else (let temp = m.right curr in
        set_left (set_right (set_left (set_right m curr new) new curr) new temp) temp new)

unfoldable pub glthread_add_before : Memory → ℕ → ℕ → Memory
glthread_add_before m curr new =
    if m.left curr == 0
    then set_left (set_right (set_left m new 0) new curr) curr new
    else (let temp = m.left curr in
        set_left (set_right (set_left (set_right m temp new) new temp) new curr) curr new)

unfoldable pub remove_glthread : Memory → ℕ → Memory
remove_glthread m curr =
    if m.left curr == 0
    then (if m.right curr == 0 then m else set_right (set_left m (m.right curr) 0) curr 0)
    else if m.right curr == 0
    then set_left (set_right m (m.left curr) 0) curr 0
    else (let joined = set_right m (m.left curr) (m.right curr) in
        let joined_back = set_left joined (joined.right curr) (joined.left curr) in
        set_right (set_left joined_back curr 0) curr 0)

-- `ITERATE_GLTHREAD_BEGIN` with a removal as its body, on fuel from the node `curr`
unfoldable pub remove_all : ℕ → Memory → ℕ → Option Memory
remove_all zero m curr = if curr == 0 then some m else none
remove_all (suc fuel) m curr =
    let rest = remove_all fuel (remove_glthread m curr) (m.right curr) in
    if curr == 0 then some m else rest

unfoldable pub delete_glthread_list : ℕ → Memory → ℕ → Option Memory
delete_glthread_list fuel m head = remove_all fuel m (m.right head)

-- The loop that keeps in `prev` the last node it has visited.
unfoldable pub last_visited : ℕ → Memory → ℕ → ℕ → Option ℕ
last_visited zero m prev curr = if curr == 0 then some prev else none
last_visited (suc fuel) m prev curr =
    let rest = last_visited fuel m curr (m.right curr) in if curr == 0 then some prev else rest

unfoldable pub add_after_last : Memory → ℕ → ℕ → Option ℕ → Option Memory
add_after_last m head new none = none
add_after_last m head new (some prev) =
    some (if prev == 0 then glthread_add_next m head new else glthread_add_next m prev new)

unfoldable pub glthread_add_last : ℕ → Memory → ℕ → ℕ → Option Memory
glthread_add_last fuel m head new = add_after_last m head new (last_visited fuel m 0 (m.right head))

-- `unsigned int count`
unfoldable pub count_from : ℕ → Memory → ℕ → ℕ → Option ℕ
count_from zero m count curr = if curr == 0 then some count else none
count_from (suc fuel) m count curr =
    let rest = count_from fuel m ((count + 1) % 2 ^ 32) (m.right curr) in
    if curr == 0 then some count else rest

unfoldable pub get_glthread_list_count : ℕ → Memory → ℕ → Option ℕ
get_glthread_list_count fuel m head = count_from fuel m 0 (m.right head)

-- The `int` that a comparison function returns.
pub data ℤ : Type 0 where
  pos : ℕ → ℤ
  negsuc : ℕ → ℤ

unfoldable pub is_minus_one : ℤ → Bool
is_minus_one (negsuc zero) = true
is_minus_one _ = false

module _ (comp_fn : ℕ → ℕ → ℤ) (offset : ℕ) where
  -- The node is to stand before `curr`.
  unfoldable pub precedes : ℕ → ℕ → Bool
  precedes new curr = is_minus_one (comp_fn (new - offset) (curr - offset))

  -- The node to insert after, from `curr` on; at the end `prev` is followed even where it is `NULL`.
  unfoldable pub insertion_point : ℕ → Memory → ℕ → ℕ → ℕ → ℕ → Option ℕ
  unfolding precedes
  insertion_point zero m head new prev curr =
      if curr == 0 && not (prev == 0) then some prev else none
  insertion_point (suc fuel) m head new prev curr =
      let rest = insertion_point fuel m head new curr (m.right curr) in
      if curr == 0
      then if prev == 0 then none else some prev
      else if precedes new curr
      then (some (if prev == 0 then head else prev))
      else rest

  unfoldable pub add_at_point : Memory → ℕ → Option ℕ → Option Memory
  add_at_point m new none = none
  add_at_point m new (some prev) = some (glthread_add_next m prev new)

  -- The part after `init_glthread`.
  unfoldable pub insert_initialised : ℕ → Memory → ℕ → ℕ → Option Memory
  insert_initialised fuel m head new =
      if is_glthread_list_empty m head
      then some (glthread_add_next m head new)
      else if not (m.right head == 0) && m.right (m.right head) == 0
      then some (
          if precedes new (m.right head)
          then glthread_add_next m head new
          else glthread_add_next m (m.right head) new)
      else add_at_point m new (insertion_point fuel m head new 0 (m.right head))

  unfoldable pub glthread_priority_insert : ℕ → Memory → ℕ → ℕ → Option Memory
  glthread_priority_insert fuel m head new = insert_initialised fuel (init_glthread m new) head new

unfoldable pub dequeue_glthread_first : Memory → ℕ → ℕ × Memory
dequeue_glthread_first m base =
    if m.right base == 0 then (0, m) else (m.right base, remove_glthread m (m.right base))

unfoldable pub glthread_get_last : ℕ → Memory → ℕ → Option ℕ
glthread_get_last fuel m curr =
    if m.right curr == 0 then some 0 else last_visited fuel m 0 (m.right curr)
