-- ===== src/Kern/Sched/History.antt =====
-- sched/kern/sched.c: the circular history of runs, as `print_sched_stats` lists it, against the plain
-- list of the last hundred runs.
use sistemas_operativos_1c.Base.{
  ℕ, zero, suc, ◌+◌, ◌-◌, ◌%◌, ◌≤◌, ◌<◌, ◌≡◌, refl, sym, ◌∙◌, ap, inl, inr, List, [], ◌∷◌, ◌++◌,
  arith, ltb, length, length-append, update, Bool-cases, ltb→lt, drop,
}
use mathlib.Core.Path.{subst, ap₂, subst₂}
use sistemas_operativos_1c.Kern.Env.{Env}
use sistemas_operativos_1c.Kern.Sched.Stats.{
  SchedStats, max_history_length, push_history, history_entry, entries_from, printed_history,
  record_env_run,
}

-- The ring's index and count lie in their ranges.
pub record HistoryInRange (s : SchedStats) : Type 0 where
  pub index_low : s.history_index < max_history_length
  pub count_low : s.history_count ≤ max_history_length

-- The abstract history: all runs so far, of which the oldest is dropped past a hundred.
abbrev pub keep_recent : List ℕ → List ℕ
keep_recent xs = drop (length xs - max_history_length) xs

length-entries_from : (s : SchedStats) (n i : ℕ) → length (entries_from s n i) ≡ n
unfolding entries_from
length-entries_from s zero i = refl
length-entries_from s (suc n) i = ap suc (length-entries_from s n (i + 1))

entries_from-snoc :
    (s : SchedStats) (n i : ℕ)
    → entries_from s (suc n) i ≡ entries_from s n i ++ history_entry s (i + n) ∷ []
unfolding entries_from
entries_from-snoc s zero i =
    let here : i + 0 ≡ i = omega arith in ap (λ k. history_entry s k ∷ []) (sym here)
entries_from-snoc s (suc n) i =
    let shift : i + 1 + n ≡ i + suc n = omega arith in
    ap (◌∷◌ (history_entry s i)) (
      subst
        (λ k. entries_from s (suc n) (i + 1) ≡ entries_from s n (i + 1) ++ history_entry s k ∷ [])
        shift (entries_from-snoc s n (i + 1)))

entries_from-cong :
    (s t : SchedStats) (n i k : ℕ)
    → ((j : ℕ) → j < n → history_entry s (i + j) ≡ history_entry t (k + j))
    → entries_from s n i ≡ entries_from t n k
unfolding entries_from
entries_from-cong s t zero i k h = refl
entries_from-cong s t (suc n) i k h =
    let head : history_entry s i ≡ history_entry t k = at_zero in
    ap₂ ◌∷◌ head (entries_from-cong s t n (i + 1) (k + 1) later)
  where
    at_zero : history_entry s i ≡ history_entry t k
    at_zero =
        let left : i + 0 ≡ i = omega arith in
        let right : k + 0 ≡ k = omega arith in
        subst₂ (λ a b. history_entry s a ≡ history_entry t b) left right (h 0 (omega arith))

    later : (j : ℕ) → j < n → history_entry s (i + 1 + j) ≡ history_entry t (k + 1 + j)
    later j low =
        let left : i + suc j ≡ i + 1 + j = omega arith in
        let right : k + suc j ≡ k + 1 + j = omega arith in
        subst₂ (λ a b. history_entry s a ≡ history_entry t b) left right (h (suc j) (omega arith))

pub push_history-InRange :
    (s : SchedStats) (envid : ℕ) → HistoryInRange s → HistoryInRange (push_history s envid)
unfolding push_history
push_history-InRange s envid h = ground arith

-- While the ring fills, the entries that were there keep their places.
entry_filling :
    (s : SchedStats) (envid j : ℕ)
    → HistoryInRange s
    → s.history_count < 100
    → j < s.history_count
    → history_entry (push_history s envid) (0 + j) ≡ history_entry s (0 + j)
unfolding history_entry push_history update
entry_filling s envid j h low below = ground arith

-- Once it is full they move up by one place.
entry_full :
    (s : SchedStats) (envid j : ℕ)
    → HistoryInRange s
    → s.history_count ≡ 100
    → j < 99
    → history_entry (push_history s envid) (0 + j) ≡ history_entry s (1 + j)
unfolding history_entry push_history update
entry_full s envid j h full below = ground arith

entry_new :
    (s : SchedStats) (envid : ℕ)
    → HistoryInRange s
    → history_entry (push_history s envid) (0 + ((push_history s envid).history_count - 1)) ≡ envid
unfolding history_entry push_history update
entry_new s envid h = ground arith

count_filling :
    (s : SchedStats) (envid : ℕ)
    → s.history_count < 100
    → (push_history s envid).history_count ≡ suc s.history_count
unfolding push_history
count_filling s envid low = ground arith

count_full :
    (s : SchedStats) (envid : ℕ)
    → s.history_count ≡ 100
    → (push_history s envid).history_count ≡ s.history_count
unfolding push_history
count_full s envid full = ground arith

drop_under : (n : ℕ) (xs : List ℕ) → n ≡ 0 → drop n xs ≡ xs
drop_under zero xs h = refl
drop_under (suc n) xs h = absurd (omega arith)

drop-entries_from :
    (s : SchedStats) (n i : ℕ) → drop 1 (entries_from s (suc n) i) ≡ entries_from s n (i + 1)
unfolding entries_from
drop-entries_from s n i = refl

-- The last of `suc n` entries, split off.
entries_from-push :
    (s : SchedStats) (envid n : ℕ)
    → HistoryInRange s
    → (push_history s envid).history_count ≡ suc n
    → entries_from (push_history s envid) (suc n) 0
      ≡ entries_from (push_history s envid) n 0 ++ envid ∷ []
entries_from-push s envid n h count =
    let last : (push_history s envid).history_count - 1 ≡ n = omega arith in
    entries_from-snoc (push_history s envid) n 0
    ∙ ap (λ x. entries_from (push_history s envid) n 0 ++ x ∷ [])
        (subst (λ k. history_entry (push_history s envid) (0 + k) ≡ envid) last
          (entry_new s envid h))

-- The list after a run, while there is room and when there is none.
push_history-filling :
    (s : SchedStats) (envid : ℕ)
    → HistoryInRange s
    → s.history_count < 100
    → printed_history (push_history s envid) ≡ printed_history s ++ envid ∷ []
unfolding printed_history
push_history-filling s envid h low =
    let count : (push_history s envid).history_count ≡ suc s.history_count =
      count_filling s envid low in
    ap (λ k. entries_from (push_history s envid) k 0) count
    ∙ entries_from-push s envid s.history_count h count
    ∙ ap (λ xs. xs ++ envid ∷ [])
        (entries_from-cong (push_history s envid) s s.history_count 0 0
          (λ j below. entry_filling s envid j h low below))

push_history-full :
    (s : SchedStats) (envid n : ℕ)
    → HistoryInRange s
    → n ≡ 99
    → s.history_count ≡ 100
    → printed_history (push_history s envid) ≡ drop 1 (printed_history s) ++ envid ∷ []
unfolding printed_history
push_history-full s envid n h last full =
    let before : s.history_count ≡ suc n = omega arith in
    let count : (push_history s envid).history_count ≡ suc n = count_full s envid full ∙ before in
    ap (λ k. entries_from (push_history s envid) k 0) count
    ∙ entries_from-push s envid n h count
    ∙ ap (λ xs. xs ++ envid ∷ [])
        (entries_from-cong (push_history s envid) s n 0 1
          (λ j below. entry_full s envid j h full (omega arith)))
    ∙ ap (λ xs. xs ++ envid ∷ [])
        (sym (drop-entries_from s n 0) ∙ ap (λ k. drop 1 (entries_from s k 0)) (sym before))

length-printed_history : (s : SchedStats) → length (printed_history s) ≡ s.history_count
unfolding printed_history
length-printed_history s = length-entries_from s s.history_count 0

drop-append : (xs : List ℕ) (x : ℕ) → 0 < length xs → drop 1 (xs ++ x ∷ []) ≡ drop 1 xs ++ x ∷ []
drop-append [] x h = absurd (omega arith)
drop-append (y ∷ ys) x h = refl

-- The runs that a push leaves, oldest first, are the last hundred of the old ones and the new one.
pub printed_history-push_history :
    (s : SchedStats) (envid : ℕ)
    → HistoryInRange s
    → printed_history (push_history s envid) ≡ keep_recent (printed_history s ++ envid ∷ [])
printed_history-push_history s envid h = elim (Bool-cases (ltb s.history_count 100)) [
  | inl room ↦
      let low : s.history_count < 100 = ltb→lt _ _ room in
      push_history-filling s envid h low
      ∙ sym (
          drop_under _ (printed_history s ++ envid ∷ []) (
            omega
              (arith, length-append (printed_history s) (envid ∷ []), length-printed_history s)))
  | inr none_left ↦
      let full : s.history_count ≡ 100 = ground arith in
      let len : length (printed_history s) ≡ 100 = length-printed_history s ∙ full in
      let extra : length (printed_history s ++ envid ∷ []) - 100 ≡ 1 =
        omega (arith, length-append (printed_history s) (envid ∷ [])) in
      push_history-full s envid 99 h refl full
      ∙ sym (drop-append (printed_history s) envid (omega arith))
      ∙ ap (λ k. drop k (printed_history s ++ envid ∷ [])) (sym extra)
]

-- The list depends on the ring's three fields alone.
printed_history-cong :
    (s t : SchedStats)
    → s.history ≡ t.history
    → s.history_index ≡ t.history_index
    → s.history_count ≡ t.history_count
    → printed_history s ≡ printed_history t
unfolding printed_history history_entry
printed_history-cong s t ring index count =
    entries_from-cong s t s.history_count 0 0
      (λ j below. λ i. ring i ((index i + (0 + j) + 100 - count i) % 100))
    ∙ ap (λ n. entries_from t n 0) count

-- Recording a run keeps the ring in range and appends the run to the history, of which only the last
-- hundred runs are kept, in order.
pub record_env_run-history :
    (s : SchedStats) (e : Env)
    → HistoryInRange s
    → HistoryInRange (record_env_run s e)
      × (printed_history (record_env_run s e) ≡ keep_recent (printed_history s ++ e.env_id ∷ []))
unfolding record_env_run push_history
record_env_run-history s e h = (
  ground arith,
  printed_history-cong _ (push_history s e.env_id) refl refl refl
      ∙ printed_history-push_history s e.env_id h,
)
