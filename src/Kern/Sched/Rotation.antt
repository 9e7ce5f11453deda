-- ===== src/Kern/Sched/Rotation.antt =====
-- sched/kern/sched.c, SCHED_ROUND_ROBIN: how long a runnable environment waits over several calls of the
-- scheduler, between which the others do what they like.
use sistemas_operativos_1c.Base.{
  ℕ, ◌+◌, ◌%◌, ◌≤◌, ◌<◌, ◌≡◌, refl, ◌∙◌, sym, ap, ◌⊎◌, inl, inr, Option, none, some, List, [], ◌∷◌,
  Array, arith, length, subst,
}
use native.Mathlib.Decide.{dec_lt}
use mathlib.Core.Bool.{false≢true}
use sistemas_operativos_1c.Kern.Env.{Env, nenv}
use sistemas_operativos_1c.Kern.Sched.RoundRobin.{
  NotRunnableAt, start_index, round_robin, RunnableAt, FirstOf, round_robin-FirstOf, round_of,
  round_of_bounds,
}

-- The environments that successive calls choose, where each call finds a table and `curenv`.
unfoldable pub served : List (Array Env × Option ℕ) → List ℕ
served [] = []
served ((envs, cur) ∷ rest) = elim (round_robin envs cur) [
  | none ↦ served rest
  | some idx ↦ idx ∷ served rest
]

abbrev pub slot : Option ℕ → ℕ
slot none = 0
slot (some c) = c

abbrev pub Elem : ℕ → List ℕ → Type 0
Elem a [] = ⊥
Elem a (x ∷ xs) = (a ≡ x) ⊎ Elem a xs

-- At every call `j` is runnable, `curenv` is `last`, the environment that was chosen by the call before, and
-- the identifier in its slot has that slot's index.
abbrev pub Waits : ℕ → List (Array Env × Option ℕ) → (last : Option ℕ) → Type 0
Waits j [] last = Unit {0}
Waits j ((envs, cur) ∷ rest) last =
    RunnableAt envs j
    × (cur ≡ last)
    × (start_index envs last ≡ slot last)
    × Waits j rest (round_robin envs last)

nearer :
    (start i j idx : ℕ)
    → start < nenv
    → j < nenv
    → i < round_of start j
    → 1 ≤ i
    → idx ≡ (start + i) % nenv
    → round_of idx j < round_of start j
nearer start i j idx low high before first e = ground arith

-- A round that comes before the one of `j` cannot be the first runnable one only if `j` is.
too_late :
    (envs : Array Env) (start j : ℕ)
    → start < nenv
    → j < nenv
    → RunnableAt envs j
    → ¬ (NotRunnableAt envs ((start + round_of start j) % nenv))
too_late envs start j low high ok idle =
    let here = (round_of_bounds start j low high).2 in
    false≢true (sym (subst (NotRunnableAt envs) (sym here) idle) ∙ ok)

-- One call of the round-robin search chooses the runnable environment `j` or one that is nearer to
-- `j` on the circle.
pub round_robin_progress :
    (envs : Array Env) (start j : ℕ) (found : Option ℕ)
    → start < nenv
    → j < nenv
    → RunnableAt envs j
    → FirstOf envs start 1 (nenv + 1) found
    → (idx : ℕ) × (found ≡ some idx)
      × (idx < nenv)
      × ((j ≡ idx) ⊎ (round_of idx j < round_of start j))
round_robin_progress envs start j none low high ok h =
    let (first, last, _) = round_of_bounds start j low high in
    absurd (too_late envs start j low high ok (h (round_of start j) first last))
round_robin_progress envs start j (some idx) low high ok (i, first, last, e, hit, h) =
    (idx, refl, omega arith, compared)
  where
    compared : (j ≡ idx) ⊎ (round_of idx j < round_of start j)
    compared = elim (dec_lt (round_of start j) i) [
      | yes early ↦ absurd (
          too_late envs start j low high ok
            (h (round_of start j) (round_of_bounds start j low high).0 early))
      | no late ↦ elim (dec_lt i (round_of start j)) [
        | yes before ↦ inr (nearer start i j idx low high before first e)
        | no after ↦
            let same : round_of start j ≡ i = omega arith in
            inl ((round_of_bounds start j low high).2 ∙ ap (λ k. (start + k) % nenv) same ∙ sym e)
      ]
    ]

-- Under round robin, an environment that is runnable at every call is chosen by one of the next calls, as
-- many as its distance from `curenv` on the circle, so within 1024 calls, whatever the other entries of
-- the table are at each call. It is assumed that each call finds as `curenv` the environment that the call
-- before chose, with an identifier that names its entry: between the calls no running environment is
-- destroyed and the CPU is not halted, which would set `curenv` to null and start the search anew.
pub served_within :
    (j : ℕ) (tables : List (Array Env × Option ℕ)) (cur : Option ℕ)
    → j < nenv
    → slot cur < nenv
    → Waits j tables cur
    → round_of (slot cur) j ≤ length tables
    → Elem j (served tables)
unfolding served
served_within j [] cur low high w enough =
    absurd (omega (arith, round_of_bounds (slot cur) j high low))
served_within j ((envs, now) ∷ rest) cur low high (ok, same_cur, own, w) enough =
    let first : FirstOf envs (slot cur) 1 (nenv + 1) (round_robin envs cur) =
      subst (λ s. FirstOf envs s 1 (nenv + 1) (round_robin envs cur)) own
        (round_robin-FirstOf envs cur) in
    let (idx, e, bound, choice) =
      round_robin_progress envs (slot cur) j (round_robin envs cur) high low ok first in
    rw (same_cur, e, served, Elem)
      (elim choice [
        | inl same ↦ inl same
        | inr closer ↦
            inr (served_within j rest (some idx) low bound (subst (Waits j rest) e w) (omega arith))
      ])
