-- ===== src/Base/Arrays.antt =====
-- C arrays of a fixed size, as functions of the index; a write replaces one entry.
use Prim.Native.Nat.{ℕ}
use mathlib.Core.Path.{◌≡◌, refl}
use mathlib.Core.Logic.{◌≢◌}
use native.Mathlib.Omega.{arith}
use sistemas_operativos_1c.Base.Tests.{◌==◌, if◌then◌else◌}

abbrev pub Array {ℓ} : Type ℓ → Type ℓ
Array A = ℕ → A

module _ {ℓ} {A : Type ℓ} where
  unfoldable pub update : Array A → ℕ → A → Array A
  update f i v j = if i == j then v else f j

  pub update_lem :
      (f : Array A) (i : ℕ) (v : A) (j : ℕ) → update f i v j ≡ (if i == j then v else f j)
  unfolding update
  update_lem f i v j = refl

  pub update_self : (f : Array A) (i : ℕ) (v : A) → update f i v i ≡ v
  unfolding update
  update_self f i v = ground arith

  pub update_ne : (f : Array A) (i : ℕ) (v : A) (j : ℕ) → i ≢ j → update f i v j ≡ f j
  unfolding update
  update_ne f i v j h = ground arith
