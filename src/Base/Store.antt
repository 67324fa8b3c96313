-- ===== src/Base/Store.antt =====
-- Stores: functions from numbers, changed in one place.
use Prim.Native.Nat.{ℕ}
use mathlib.Core.Path.{◌≡◌, refl}
use mathlib.Core.Bool.{false}
use networking_protocol_deve.Base.Tests.{◌==◌, if◌then◌else◌, ==_refl}

unfoldable pub put {ℓ} : {A : Type ℓ} → (ℕ → A) → ℕ → A → ℕ → A
put f n v q = if q == n then v else f q

pub put_self {ℓ} : {A : Type ℓ} (f : ℕ → A) (n : ℕ) (v : A) → put f n v n ≡ v
unfolding put
put_self f n v = rw (==_refl n) refl

pub put_other {ℓ} :
    {A : Type ℓ} (f : ℕ → A) (n q : ℕ) (v : A) → (q == n) ≡ false → put f n v q ≡ f q
unfolding put
put_other f n q v e = rw e refl
