-- ===== src/Gluethread/Linked.antt =====
-- The sequence of nodes that a list head stands for, and how the memory operations change it.
use networking_protocol_deve.Base.{
  ℕ, ◌<◌, ◌≡◌, ◌≢◌, ◌∙◌, Bool, true, false, ◌&&◌, ◌||◌, not, List, [], ◌∷◌, ◌==◌, arith, ◌⊎◌,
}
use networking_protocol_deve.Gluethread.{Memory, write, set_left, set_right, glthread_add_next}

abbrev pub has : ℕ → List ℕ → Bool
has a [] = false
has a (x ∷ xs) = (a == x) || has a xs

abbrev pub distinct : List ℕ → Bool
distinct [] = true
distinct (x ∷ xs) = not (has x xs) && distinct xs

-- From `p` the `right` pointers lead through `xs` to `NULL`, and the `left` pointers lead back.
abbrev pub Linked : Memory → ℕ → List ℕ → Type 0
Linked m p [] = m.right p ≡ 0
Linked m p (x ∷ xs) = (m.right p ≡ x) × (m.left x ≡ p) × (0 < x) × Linked m x xs

-- `head` is the base of a list of the nodes `xs`.
abbrev pub IsList : Memory → ℕ → List ℕ → Type 0
IsList m head xs = (m.left head ≡ 0) × (0 < head) × Linked m head xs × (distinct (head ∷ xs) ≡ true)

pub Linked-transfer :
    (m n : Memory) (p : ℕ) (xs : List ℕ)
    → ((q : ℕ) → has q (p ∷ xs) ≡ true → n.right q ≡ m.right q)
    → ((q : ℕ) → has q xs ≡ true → n.left q ≡ m.left q)
    → Linked m p xs
    → Linked n p xs
Linked-transfer m n p [] r l k = r p (ground arith) ∙ k
Linked-transfer m n p (x ∷ xs) r l (a, b, c, k) = (
  r p (ground arith) ∙ a,
  l x (ground arith) ∙ b,
  c,
  Linked-transfer m n x xs (λ q h. r q (ground arith)) (λ q h. l q (ground arith)) k,
)

-- The successor of a node is a later node.
pub successor :
    (m : Memory) (c p : ℕ) (xs : List ℕ)
    → Linked m p xs
    → has c (p ∷ xs) ≡ true
    → (m.right c ≡ 0) ⊎ (has (m.right c) xs ≡ true)
successor m c p [] k h = ground arith
successor m c p (x ∷ xs) (a, b, d, k) h = ground (arith, successor m c x xs k)

module _ (m : Memory) (c new : ℕ) where
  pub add_next-fields :
      c ≢ new
      → m.right new ≡ 0
      → m.right c ≢ new
      → ((glthread_add_next m c new).right c ≡ new)
        × ((glthread_add_next m c new).right new ≡ m.right c)
        × ((glthread_add_next m c new).left new ≡ c)
        × ((m.right c ≡ 0) ⊎ ((glthread_add_next m c new).left (m.right c) ≡ new))
  unfolding glthread_add_next set_left set_right write
  add_next-fields a b d = ground arith

  pub add_next-others :
      (q : ℕ)
      → q ≢ new
      → (q ≢ c → (glthread_add_next m c new).right q ≡ m.right q)
        × (q ≢ m.right c → (glthread_add_next m c new).left q ≡ m.left q)
  unfolding glthread_add_next set_left set_right write
  add_next-others q a = ground arith
