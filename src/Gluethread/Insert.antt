-- ===== src/Gluethread/Insert.antt =====
-- gluethread/glthread.c: `glthread_add_next` at a node of a list.
use networking_protocol_deve.Base.{
  ℕ, ◌<◌, ◌≡◌, ◌∙◌, true, false, ◌||◌, List, [], ◌∷◌, ◌==◌, arith, inl, inr, if◌then◌else◌,
  Bool-cases,
}
use networking_protocol_deve.Gluethread.{Memory, glthread_add_next}
use networking_protocol_deve.Gluethread.Linked.{
  has, distinct, Linked, IsList, Linked-transfer, successor, add_next-fields, add_next-others,
}

-- The sequence behind `p` with a new node after the node `c`.
abbrev pub insert_after : ℕ → ℕ → ℕ → List ℕ → List ℕ
insert_after c new p [] = if p == c then new ∷ [] else []
insert_after c new p (x ∷ xs) = if p == c then new ∷ x ∷ xs else x ∷ insert_after c new x xs

module _ (m : Memory) (c new : ℕ) (r : m.right new ≡ 0) (s : 0 < new) where
  add_next-rest :
      (xs : List ℕ)
      → Linked m c xs
      → has c xs ≡ false
      → distinct xs ≡ true
      → has new (c ∷ xs) ≡ false
      → Linked (glthread_add_next m c new) new xs
  add_next-rest [] k f d z =
      let (a, b, e, g) = add_next-fields m c new (ground arith) r (ground arith) in b ∙ k
  add_next-rest (x ∷ xs) (k₁, k₂, k₃, k₄) f d z =
      let (a, b, e, g) = add_next-fields m c new (ground arith) r (ground arith) in
      let rest =
        Linked-transfer m (glthread_add_next m c new) x xs
          (λ q h. ground (arith, add_next-others m c new q))
          (λ q h. ground (arith, add_next-others m c new q)) k₄ in
      (b ∙ k₁, ground arith, k₃, rest)

  pub add_next-Linked :
      (p : ℕ) (xs : List ℕ)
      → Linked m p xs
      → distinct (p ∷ xs) ≡ true
      → has new (p ∷ xs) ≡ false
      → has c (p ∷ xs) ≡ true
      → Linked (glthread_add_next m c new) p (insert_after c new p xs)
  add_next-Linked p [] k d z h =
      let (a, b, e, g) = add_next-fields m c new (ground arith) r (ground arith) in ground arith
  add_next-Linked p (x ∷ xs) (k₁, k₂, k₃, k₄) d z h = elim (Bool-cases (p == c)) [
    | inl e ↦
        let same : p ≡ c = ground arith in
        let (a, b, l, g) = add_next-fields m c new (ground arith) r (ground arith) in
        let a' : (glthread_add_next m c new).right p ≡ new = ground arith in
        let l' : (glthread_add_next m c new).left new ≡ p = ground arith in
        let rest =
          add_next-rest (x ∷ xs) (ground arith, ground arith, k₃, k₄) (ground arith) (ground arith)
            (ground arith) in
        rw (e) (a', l', s, rest)
    | inr n ↦
        let (s₁, s₂) = add_next-others m c new p (ground arith) in
        let (t₁, t₂) = add_next-others m c new x (ground arith) in
        rw (n) (
          s₁ (ground arith) ∙ k₁,
          t₂ (ground (arith, successor m c x xs k₄)) ∙ k₂,
          k₃,
          add_next-Linked x xs k₄ (ground arith) (ground arith) (ground arith),
        )
  ]

has-insert_after :
    (c new q p : ℕ) (xs : List ℕ)
    → has c (p ∷ xs) ≡ true
    → has q (insert_after c new p xs) ≡ ((q == new) || has q xs)
has-insert_after c new q p [] h = ground arith
has-insert_after c new q p (x ∷ xs) h = ground (arith, has-insert_after c new q x xs)

insert_after-distinct :
    (c new p : ℕ) (xs : List ℕ)
    → has c (p ∷ xs) ≡ true
    → has new (p ∷ xs) ≡ false
    → distinct (p ∷ xs) ≡ true
    → distinct (p ∷ insert_after c new p xs) ≡ true
insert_after-distinct c new p [] h z d = ground arith
insert_after-distinct c new p (x ∷ xs) h z d = ground (
  arith,
  insert_after-distinct c new x xs,
  has-insert_after c new p x xs,
  has-insert_after c new x x xs,
)

-- `glthread_add_next` puts an unlinked node behind any node of the list, its base included.
pub add_next-IsList :
    (m : Memory) (c new head : ℕ) (xs : List ℕ)
    → m.right new ≡ 0
    → 0 < new
    → IsList m head xs
    → has new (head ∷ xs) ≡ false
    → has c (head ∷ xs) ≡ true
    → IsList (glthread_add_next m c new) head (insert_after c new head xs)
add_next-IsList m c new head xs r s (l, z, k, d) f h =
    let (_, same) = add_next-others m c new head (ground arith) in
    (
      same (ground (arith, successor m c head xs k h)) ∙ l,
      z,
      add_next-Linked m c new r s head xs k d f h,
      insert_after-distinct c new head xs h f d,
    )
