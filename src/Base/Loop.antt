-- ===== src/Base/Loop.antt =====
-- `for (i = first; i < first + count; i++)` as recursion on the rounds left, with its invariant rule.
use Prim.Native.Nat.{ℕ, zero, suc, ◌+◌, ◌≤◌, ◌<◌}
use mathlib.Core.Path.{◌≡◌, subst}
use native.Mathlib.Omega.{arith}

module _ {ℓ} {S : Type ℓ} where
  unfoldable pub count_up : (count first : ℕ) → (ℕ → S → S) → S → S
  count_up zero first body s = s
  count_up (suc count) first body s = count_up count (first + 1) body (body first s)

  -- What the body keeps at every index below the end holds at the end.
  pub count_up_inv {κ} :
      (P : ℕ → S → Type κ) (body : ℕ → S → S) (count first end : ℕ) (s : S)
      → first + count ≡ end
      → ((i : ℕ) (t : S) → first ≤ i → i < end → P i t → P (i + 1) (body i t))
      → P first s
      → P end (count_up count first body s)
  unfolding count_up
  count_up_inv P body zero first end s e keep h =
      let here : first ≡ end = omega arith in subst (λ i. P i s) here h
  count_up_inv P body (suc count) first end s e keep h =
      count_up_inv P body count (first + 1) end (body first s) (omega arith)
        (λ i t low high. keep i t (omega arith) high) (keep first s (omega arith) (omega arith) h)
