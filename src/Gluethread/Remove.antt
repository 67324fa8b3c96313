-- ===== src/Gluethread/Remove.antt =====
-- gluethread/glthread.c: `remove_glthread`, `dequeue_glthread_first` and `delete_glthread_list`.
use mathlib.Core.Path.{subst}
use networking_protocol_deve.Base.{
  ℕ, zero, suc, ◌≤◌, ◌<◌, ◌≡◌, ◌≢◌, refl, sym, ap, ◌∙◌, true, false, some, List, [], ◌∷◌, ◌==◌,
  arith, inl, inr, ◌⊎◌, length, if◌then◌else◌, Bool-cases, ==_refl,
}
use networking_protocol_deve.Gluethread.{
  Memory, write, set_left, set_right, remove_glthread, remove_all, delete_glthread_list,
  dequeue_glthread_first, is_queued_up_in_thread,
}
use networking_protocol_deve.Gluethread.Linked.{
  has, distinct, Linked, IsList, Linked-transfer, successor,
}

abbrev pub erase : ℕ → List ℕ → List ℕ
erase c [] = []
erase c (x ∷ xs) = if x == c then xs else x ∷ erase c xs

module _ (m : Memory) (c : ℕ) where
  remove-fields :
      m.left c ≢ 0
      → m.left c ≢ c
      → m.right c ≢ c
      → ((remove_glthread m c).right (m.left c) ≡ m.right c)
        × ((remove_glthread m c).right c ≡ 0)
        × ((remove_glthread m c).left c ≡ 0)
        × ((m.right c ≡ 0) ⊎ ((remove_glthread m c).left (m.right c) ≡ m.left c))
  unfolding remove_glthread set_left set_right write
  remove-fields a b d = ground arith

  remove-others :
      (q : ℕ)
      → q ≢ c
      → m.left c ≢ 0
      → m.left c ≢ c
      → m.right c ≢ c
      → (q ≢ m.left c → (remove_glthread m c).right q ≡ m.right q)
        × (q ≢ m.right c → (remove_glthread m c).left q ≡ m.left q)
  unfolding remove_glthread set_left set_right write
  remove-others q a b d e = ground arith

predecessor :
    (m : Memory) (c p : ℕ) (xs : List ℕ)
    → Linked m p xs
    → has c xs ≡ true
    → (has (m.left c) (p ∷ xs) ≡ true)
predecessor m c p [] k h = ground arith
predecessor m c p (x ∷ xs) (a, b, d, k) h = ground (arith, predecessor m c x xs k)

not_self :
    (m : Memory) (c p : ℕ) (xs : List ℕ)
    → 0 < p
    → Linked m p xs
    → distinct (p ∷ xs) ≡ true
    → has c xs ≡ true
    → (m.left c ≢ 0) × (m.left c ≢ c) × (m.right c ≢ c)
not_self m c p [] z k d h = ground arith
not_self m c p (x ∷ xs) z (a, b, e, k) d h =
    ground (arith, not_self m c x xs e k, successor m c x xs k)

module _ (m : Memory) (c : ℕ) where
  remove-rest :
      (p : ℕ) (xs : List ℕ)
      → 0 < p
      → Linked m p (c ∷ xs)
      → distinct (p ∷ c ∷ xs) ≡ true
      → Linked (remove_glthread m c) p xs
  remove-rest p [] z (a, b, e, k) d =
      let (f, g, i, j) = remove-fields m c (ground arith) (ground arith) (ground arith) in
      ground arith
  remove-rest p (y ∷ ys) z (a, b, e, (k₁, k₂, k₃, k₄)) d =
      let (f, g, i, j) = remove-fields m c (ground arith) (ground arith) (ground arith) in
      let rest =
        Linked-transfer m (remove_glthread m c) y ys (λ q h. ground (arith, remove-others m c q))
          (λ q h. ground (arith, remove-others m c q)) k₄ in
      (ground arith, ground arith, k₃, rest)

  remove-Linked :
      (p : ℕ) (xs : List ℕ)
      → 0 < p
      → Linked m p xs
      → distinct (p ∷ xs) ≡ true
      → has c xs ≡ true
      → Linked (remove_glthread m c) p (erase c xs)
  remove-Linked p [] z k d h = ground arith
  remove-Linked p (x ∷ xs) z (k₁, k₂, k₃, k₄) d h = elim (Bool-cases (x == c)) [
    | inl e ↦
        let same : x ≡ c = ground arith in
        rw (e) (
          remove-rest p xs z
            (k₁ ∙ same, ap m.left (sym same) ∙ k₂, ground arith, subst (λ y. Linked m y xs) same k₄)
            (ground arith))
    | inr n ↦
        let (u, v, w) = not_self m c p (x ∷ xs) z (k₁, k₂, k₃, k₄) d h in
        let (s₁, s₂) = remove-others m c p (ground arith) u v w in
        let (t₁, t₂) = remove-others m c x (ground arith) u v w in
        rw (n) (
          s₁ (ground (arith, predecessor m c x xs k₄)) ∙ k₁,
          t₂ (ground (arith, successor m c x xs k₄)) ∙ k₂,
          k₃,
          remove-Linked x xs k₃ k₄ (ground arith) (ground arith),
        )
  ]

pub has-erase : (c q : ℕ) (xs : List ℕ) → has q xs ≡ false → has q (erase c xs) ≡ false
has-erase c q [] h = refl
has-erase c q (x ∷ xs) h = ground (arith, has-erase c q xs)

pub has-erase_other : (c q : ℕ) (xs : List ℕ) → q ≢ c → has q (erase c xs) ≡ has q xs
has-erase_other c q [] n = refl
has-erase_other c q (x ∷ xs) n = ground (arith, has-erase_other c q xs)

pub erase-distinct : (c : ℕ) (xs : List ℕ) → distinct xs ≡ true → distinct (erase c xs) ≡ true
erase-distinct c [] h = refl
erase-distinct c (x ∷ xs) h = ground (arith, erase-distinct c xs, has-erase c x xs)

-- `remove_glthread` takes any node of a list off it, keeps the others in their order, and leaves
-- the node unlinked.
pub remove-IsList :
    (m : Memory) (c head : ℕ) (xs : List ℕ)
    → IsList m head xs
    → has c xs ≡ true
    → IsList (remove_glthread m c) head (erase c xs)
      × ((remove_glthread m c).left c ≡ 0)
      × ((remove_glthread m c).right c ≡ 0)
remove-IsList m c head xs (l, z, k, d) h =
    let (u, v, w) = not_self m c head xs z k d h in
    let (_, same) = remove-others m c head (ground arith) u v w in
    let (_, r, l', _) = remove-fields m c u v w in
    (
      (
        same (ground (arith, successor m c head xs k)) ∙ l,
        z,
        remove-Linked m c head xs z k d h,
        ground (arith, erase-distinct c xs, has-erase c head xs),
      ),
      l',
      r,
    )

-- A removal leaves the nodes outside the list as they are.
remove-outside :
    (m : Memory) (c head q : ℕ) (xs : List ℕ)
    → IsList m head xs
    → has c xs ≡ true
    → has q (head ∷ xs) ≡ false
    → 0 < q
    → ((remove_glthread m c).left q ≡ m.left q) × ((remove_glthread m c).right q ≡ m.right q)
remove-outside m c head q xs (l, z, k, d) h f p =
    let (u, v, w) = not_self m c head xs z k d h in
    let (r, l') = remove-others m c q (ground arith) u v w in
    (l' (ground (arith, successor m c head xs k)), r (ground (arith, predecessor m c head xs k)))

abbrev pub Unlinked : Memory → ℕ → Type 0
Unlinked m q = (m.left q ≡ 0) × (m.right q ≡ 0)

-- The first node of the list is removed.
remove-first :
    (m : Memory) (head x : ℕ) (xs : List ℕ)
    → IsList m head (x ∷ xs)
    → IsList (remove_glthread m x) head xs
      × Unlinked (remove_glthread m x) x
      × ((remove_glthread m x).right head ≡ m.right x)
remove-first m head x xs (l, z, k, d) =
    let (list, left, right) = remove-IsList m x head (x ∷ xs) (l, z, k, d) (ground arith) in
    let (u, v, w) = not_self m x head (x ∷ xs) z k d (ground arith) in
    let (e, _, _, _) = remove-fields m x u v w in
    let first : erase x (x ∷ xs) ≡ xs = rw (==_refl x) refl in
    let (_, b, _, _) = k in
    (
      subst (IsList (remove_glthread m x) head) first list,
      (left, right),
      ap (remove_glthread m x).right (sym b) ∙ e,
    )

remove_all-lem :
    (fuel : ℕ) (m : Memory) (head : ℕ) (xs : List ℕ)
    → length xs ≤ fuel
    → IsList m head xs
    → (n : Memory) × (remove_all fuel m (m.right head) ≡ some n)
      × IsList n head []
      × ((q : ℕ) → has q xs ≡ true → Unlinked n q)
      × ((q : ℕ) → 0 < q → has q (head ∷ xs) ≡ false → Unlinked m q → Unlinked n q)
unfolding remove_all
remove_all-lem zero m head [] b k = (m, ground arith, k, ground arith, λ q _ _ u. u)
remove_all-lem zero m head (x ∷ xs) b k = elim b [ ]
remove_all-lem (suc fuel) m head [] b k = (m, ground arith, k, ground arith, λ q _ _ u. u)
remove_all-lem (suc fuel) m head (x ∷ xs) b k =
    let (l, z, (k₁, k₂, k₃, k₄), d) = k in
    let (list, gone, next) = remove-first m head x xs k in
    let (n, e, empty, all_gone, keep) =
      remove_all-lem fuel (remove_glthread m x) head xs (omega arith) list in
    let out : has x (head ∷ xs) ≡ false = ground arith in
    let first : Unlinked n x = keep x k₃ out gone in
    let same : remove_all fuel (remove_glthread m (m.right head)) (m.right (m.right head))
        ≡ some n =
      rw (k₁, sym next) e in
    (
      n,
      ground arith,
      empty,
      ground arith,
      λ q p h u. keep q p (ground arith) (ground (arith, remove-outside m x head q (x ∷ xs) k)),
    )

-- With fuel for the length of the list, `delete_glthread_list` ends with an empty list and leaves
-- all the nodes unlinked.
pub delete_glthread_list_lem :
    (fuel : ℕ) (m : Memory) (head : ℕ) (xs : List ℕ)
    → length xs ≤ fuel
    → IsList m head xs
    → (n : Memory) × (delete_glthread_list fuel m head ≡ some n)
      × IsList n head []
      × ((q : ℕ) → has q xs ≡ true → is_queued_up_in_thread n q ≡ false)
unfolding delete_glthread_list is_queued_up_in_thread
delete_glthread_list_lem fuel m head xs b k =
    let (n, e, empty, gone, _) = remove_all-lem fuel m head xs b k in
    (n, e, empty, λ q h. ground (arith, gone q h))

-- What `dequeue_glthread_first` does to the list: it takes the first node off, if there is one.
abbrev pub Dequeues : Memory → ℕ → List ℕ → Type 0
Dequeues m head [] = dequeue_glthread_first m head ≡ (0, m)
Dequeues m head (x ∷ xs) =
    (n : Memory) × (dequeue_glthread_first m head ≡ (x, n))
    × IsList n head xs
    × (is_queued_up_in_thread n x ≡ false)

-- `dequeue_glthread_first` takes the first node off, which is then unlinked, and answers `NULL` on an empty list.
pub dequeue-head : (m : Memory) (head : ℕ) (xs : List ℕ) → IsList m head xs → Dequeues m head xs
unfolding dequeue_glthread_first is_queued_up_in_thread
dequeue-head m head [] (l, z, k, d) = ground arith
dequeue-head m head (x ∷ xs) k =
    let (list, gone, next) = remove-first m head x xs k in
    let (l, z, (k₁, k₂, k₃, k₄), d) = k in
    (remove_glthread m x, rw (k₁) (ground arith), list, ground arith)
