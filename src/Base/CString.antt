-- ===== src/Base/CString.antt =====
-- C character arrays: a list of bytes, with NUL for what lies past its end, and `strncmp` on them.
use networking_protocol_deve.Base.Tests.{◌==◌, if◌then◌else◌, Bool-cases}
use Prim.Native.Nat.{ℕ, zero, suc}
use mathlib.Core.Path.{◌≡◌, refl, sym, ◌∙◌}
use mathlib.Core.Logic.{inl, inr}
use mathlib.Core.Bool.{Bool, true, false}
use mathlib.Core.List.{List, [], ◌∷◌}
use native.Mathlib.Omega.{arith}

-- A character array; a string stands without the bytes behind its terminator.
abbrev pub Chars : Type 0
Chars = List ℕ

-- `strncmp(s, t, n) == 0`
unfoldable pub strncmp_eq : ℕ → Chars → Chars → Bool
strncmp_eq zero s t = true
strncmp_eq (suc n) [] [] = true
strncmp_eq (suc n) [] (d ∷ t) = d == 0
strncmp_eq (suc n) (c ∷ s) [] = c == 0
strncmp_eq (suc n) (c ∷ s) (d ∷ t) =
    if c == d then (if c == 0 then true else strncmp_eq n s t) else false

-- what `strncmp` looks at: at most `n` characters, and none from the first NUL on
unfoldable pub prefix : ℕ → Chars → Chars
prefix zero s = []
prefix (suc n) [] = []
prefix (suc n) (c ∷ s) = if c == 0 then [] else c ∷ prefix n s

pub prefix-of_eq : (n : ℕ) (s t : Chars) → strncmp_eq n s t ≡ true → prefix n s ≡ prefix n t
unfolding strncmp_eq prefix
prefix-of_eq zero s t h = refl
prefix-of_eq (suc n) [] [] h = refl
prefix-of_eq (suc n) [] (d ∷ t) h = ground arith
prefix-of_eq (suc n) (c ∷ s) [] h = ground arith
prefix-of_eq (suc n) (c ∷ s) (d ∷ t) h = ground (arith, prefix-of_eq n s t)

pub eq-of_prefix : (n : ℕ) (s t : Chars) → prefix n s ≡ prefix n t → strncmp_eq n s t ≡ true
unfolding strncmp_eq prefix
eq-of_prefix zero s t h = refl
eq-of_prefix (suc n) [] [] h = refl
eq-of_prefix (suc n) [] (d ∷ t) h = ground arith
eq-of_prefix (suc n) (c ∷ s) [] h = ground arith
eq-of_prefix (suc n) (c ∷ s) (d ∷ t) h = ground (arith, eq-of_prefix n s t)

pub strncmp_eq_refl : (n : ℕ) (s : Chars) → strncmp_eq n s s ≡ true
strncmp_eq_refl n s = eq-of_prefix n s s refl

-- Only the prefixes of the two arguments matter.
pub strncmp_eq-congr :
    (n : ℕ) (s s' t : Chars) → strncmp_eq n s s' ≡ true → strncmp_eq n s t ≡ strncmp_eq n s' t
strncmp_eq-congr n s s' t h = elim (Bool-cases (strncmp_eq n s t)) [
  | inl p ↦ p ∙ sym (eq-of_prefix n s' t (sym (prefix-of_eq n s s' h) ∙ prefix-of_eq n s t p))
  | inr p ↦ elim (Bool-cases (strncmp_eq n s' t)) [
    | inl q ↦ cc (eq-of_prefix n s t (prefix-of_eq n s s' h ∙ prefix-of_eq n s' t q))
    | inr q ↦ p ∙ sym q
  ]
]

pub strncmp_eq_comm : (n : ℕ) (s t : Chars) → strncmp_eq n s t ≡ strncmp_eq n t s
strncmp_eq_comm n s t = elim (Bool-cases (strncmp_eq n s t)) [
  | inl p ↦ p ∙ sym (eq-of_prefix n t s (sym (prefix-of_eq n s t p)))
  | inr p ↦ elim (Bool-cases (strncmp_eq n t s)) [
    | inl q ↦ cc (eq-of_prefix n s t (sym (prefix-of_eq n t s q)))
    | inr q ↦ p ∙ sym q
  ]
]
