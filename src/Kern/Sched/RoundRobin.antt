-- ===== src/Kern/Sched/RoundRobin.antt =====
-- sched/kern/sched.c, SCHED_ROUND_ROBIN: the circular search of `sched_yield`.
use native.Mathlib.Decide.{dec_lt}
use mathlib.Core.Bool.{false≢true}
use sistemas_operativos_1c.Base.{
  ℕ, zero, suc, ◌+◌, ◌-◌, ◌%◌, ◌≤◌, ◌<◌, ◌≡◌, refl, ◌∙◌, sym, inl, inr, true, false, Option, none,
  some, Array, arith, if◌then◌else◌, ltb, Bool-cases, subst, ◌↔◌,
}
use sistemas_operativos_1c.Kern.Env.{Env, nenv, envx, is_runnable}

-- `curenv ? ENVX(curenv->env_id) : 0`
unfoldable pub start_index : Array Env → Option ℕ → ℕ
start_index envs none = 0
start_index envs (some c) = envx (envs c).env_id

-- The search from round `i` on, with `n` rounds left.
unfoldable pub search_from : Array Env → (start n i : ℕ) → Option ℕ
search_from envs start zero i = none
search_from envs start (suc n) i =
    let rest = search_from envs start n (i + 1) in
    if is_runnable (envs ((start + i) % nenv)).env_status then some ((start + i) % nenv) else rest

unfoldable pub round_robin : Array Env → Option ℕ → Option ℕ
round_robin envs curenv = search_from envs (start_index envs curenv) nenv 1

abbrev pub RunnableAt : Array Env → ℕ → Type 0
RunnableAt envs i = is_runnable (envs i).env_status ≡ true

abbrev pub NotRunnableAt : Array Env → ℕ → Type 0
NotRunnableAt envs i = is_runnable (envs i).env_status ≡ false

-- What a search over the rounds `first`, …, `last - 1` returns: the first runnable environment on the
-- circle, or nothing where none of them is runnable.
abbrev pub FirstOf : Array Env → (start first last : ℕ) → Option ℕ → Type 0
FirstOf envs start first last none =
    (j : ℕ) → first ≤ j → j < last → NotRunnableAt envs ((start + j) % nenv)
FirstOf envs start first last (some idx) =
    (i : ℕ) × (first ≤ i)
    × (i < last)
    × (idx ≡ (start + i) % nenv)
    × RunnableAt envs idx
    × ((j : ℕ) → first ≤ j → j < i → NotRunnableAt envs ((start + j) % nenv))

skip :
    (envs : Array Env) (start first : ℕ)
    → NotRunnableAt envs ((start + first) % nenv)
    → (j : ℕ) → first ≤ j
    → (first + 1 ≤ j → NotRunnableAt envs ((start + j) % nenv))
    → NotRunnableAt envs ((start + j) % nenv)
skip envs start first idle j low later = elim (dec_lt first j) [
  | yes past ↦ later (omega arith)
  | no same ↦
      let here : first ≡ j = omega arith in
      subst (λ k. NotRunnableAt envs ((start + k) % nenv)) here idle
]

FirstOf-later :
    (envs : Array Env) (start first last : ℕ) (found : Option ℕ)
    → NotRunnableAt envs ((start + first) % nenv)
    → FirstOf envs start (first + 1) last found
    → FirstOf envs start first last found
FirstOf-later envs start first last none idle h =
    λ j low high. skip envs start first idle j low λ past. h j past high
FirstOf-later envs start first last (some idx) idle (i, low, high, e, ok, h) = (
  i,
  omega arith,
  high,
  e,
  ok,
  λ j first_le below. skip envs start first idle j first_le λ past. h j past below,
)

pub search_from-FirstOf :
    (envs : Array Env) (start n first last : ℕ)
    → first + n ≡ last
    → FirstOf envs start first last (search_from envs start n first)
unfolding search_from
search_from-FirstOf envs start zero first last e = λ j low high. absurd (omega arith)
search_from-FirstOf envs start (suc n) first last e =
    elim (Bool-cases (is_runnable (envs ((start + first) % nenv)).env_status)) [
      | inl hit ↦
          rw hit (first, omega arith, omega arith, refl, hit, λ j low high. absurd (omega arith))
      | inr miss ↦ rw miss (
          FirstOf-later envs start first last _ miss
            (search_from-FirstOf envs start n (first + 1) last (omega arith)))
    ]

-- The round-robin search returns the first runnable environment after the one that this CPU ran last,
-- going round the whole table once, and returns nothing only if no round met a runnable one.
pub round_robin-FirstOf :
    (envs : Array Env) (curenv : Option ℕ)
    → FirstOf envs (start_index envs curenv) 1 (nenv + 1) (round_robin envs curenv)
unfolding round_robin
round_robin-FirstOf envs curenv =
    search_from-FirstOf envs (start_index envs curenv) nenv 1 (nenv + 1) (omega arith)

-- The number of the round in which a search that starts at `start` reaches the index `j`.
abbrev pub round_of : (start j : ℕ) → ℕ
round_of start j = if ltb start j then j - start else j + nenv - start

pub round_of_bounds :
    (start j : ℕ)
    → start < nenv
    → j < nenv
    → (1 ≤ round_of start j)
      × (round_of start j < nenv + 1)
      × (j ≡ (start + round_of start j) % nenv)
round_of_bounds start j low high = (ground arith, ground arith, ground arith)

pub start_index-lt : (envs : Array Env) (curenv : Option ℕ) → start_index envs curenv < nenv
unfolding start_index
start_index-lt envs none = omega arith
start_index-lt envs (some c) = omega arith

-- The search finds nothing exactly when no environment of the table is runnable.
pub round_robin-none_iff :
    (envs : Array Env) (curenv : Option ℕ)
    → (round_robin envs curenv ≡ none) ↔ ((j : ℕ) → j < nenv → NotRunnableAt envs j)
round_robin-none_iff envs curenv =
    (idle, nothing (round_robin envs curenv) (round_robin-FirstOf envs curenv))
  where
    start : ℕ
    start = start_index envs curenv

    idle : round_robin envs curenv ≡ none → (j : ℕ) → j < nenv → NotRunnableAt envs j
    idle e j low =
        let (first, last, here) = round_of_bounds start j (start_index-lt envs curenv) low in
        let none_of : FirstOf envs start 1 (nenv + 1) none =
          subst (FirstOf envs start 1 (nenv + 1)) e (round_robin-FirstOf envs curenv) in
        subst (NotRunnableAt envs) (sym here) (none_of (round_of start j) first last)

    nothing :
        (found : Option ℕ)
        → FirstOf envs start 1 (nenv + 1) found
        → ((j : ℕ) → j < nenv → NotRunnableAt envs j)
        → found ≡ none
    nothing none h all = refl
    nothing (some idx) (i, low, high, e, ok, h) all =
        absurd (false≢true (sym (all idx (omega arith)) ∙ ok))
