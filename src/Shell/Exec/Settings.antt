-- ===== src/Shell/Exec/Settings.antt =====
-- shell/exec.c, set_environ_vars: what a word KEY=VALUE does to the variables.
use sistemas_operativos_1c.Base.{
  ℕ, ◌+◌, ◌≡◌, refl, sym, ap, ◌∙◌, List, [], ◌∷◌, Bool, true, false, Option, none, some, Run, done,
  fault, exhausted, then_do, if◌then◌else◌, ◌==◌, drop,
}
use native.Mathlib.Numerals.{unary_clauses}
use sistemas_operativos_1c.Shell.Parsing.{block_contains}
use sistemas_operativos_1c.Shell.Descriptors.{Variables, setenv}
use sistemas_operativos_1c.Shell.Exec.{
  get_environ_key, get_environ_value, set_variable, set_environ_vars,
}

abbrev with_byte : ℕ → Option (List ℕ × List ℕ) → Option (List ℕ × List ℕ)
with_byte c none = none
with_byte c (some (key, value)) = some (c ∷ key, value)

-- The word cut at its first `=`.
unfoldable pub cut : List ℕ → Option (List ℕ × List ℕ)
cut [] = none
cut (c ∷ arg) = let rest = cut arg in if c == b'=' then some ([], arg) else with_byte c rest

abbrev assign : Variables → Option (List ℕ × List ℕ) → Variables
assign vars none = vars
assign vars (some (key, value)) = setenv vars key value

-- The variables after the words, in their order.
unfoldable pub assigned : Variables → List (List ℕ) → Variables
assigned vars [] = vars
assigned vars (arg ∷ eargv) = assigned (assign vars (cut arg)) eargv

abbrev cut_by_index : List ℕ → Option ℕ → Run (Option (List ℕ × List ℕ))
cut_by_index arg none = done none
cut_by_index arg (some idx) =
    then_do (get_environ_key arg) λ key. done (some (key, get_environ_value arg idx))

shifted :
    (c : ℕ) (value : List ℕ) (key : Run (List ℕ)) (rest : Option (List ℕ × List ℕ))
    → then_do key (λ key. done (some (key, value))) ≡ done rest
    → then_do (then_do key λ key. done (c ∷ key)) (λ key. done (some (key, value)))
      ≡ done (with_byte c rest)
shifted c value (done key) rest eq = ap (λ found. then_do found λ o. done (with_byte c o)) eq
shifted c value fault rest eq = ap (λ found. then_do found λ o. done (with_byte c o)) eq
shifted c value exhausted rest eq = ap (λ found. then_do found λ o. done (with_byte c o)) eq

abbrev after : (is_end : Bool) → Option ℕ → Option ℕ
after is_end found = if is_end then some 0 else elim found [ none ↦ none | some i ↦ some (i + 1) ]

-- The two cuts of a word, where its first byte is tested once.
cut_step :
    (c : ℕ) (arg : List ℕ) (b : Bool) (key : Run (List ℕ)) (found : Option ℕ)
    (rest : Option (List ℕ × List ℕ))
    → elim found [
      | none ↦ done none
      | some idx ↦ then_do key λ key. done (some (key, drop (idx + 1) arg))
    ]
      ≡ done rest
    → elim (after b found) [
      | none ↦ done none
      | some idx ↦
          then_do
            (if b then done [] else then_do key λ key. done (c ∷ key))
            λ key. done (some (key, drop (idx + 1) (c ∷ arg)))
    ]
      ≡ done (if b then some ([], arg) else with_byte c rest)
cut_step c arg true key found rest eq = refl
cut_step c arg false key none rest eq = ap (λ found. then_do found λ o. done (with_byte c o)) eq
cut_step c arg false key (some i) rest eq =
    simp unary_clauses (simp unary_clauses at (shifted c (drop (i + 1) arg) key rest eq))

cut_by_index_lem :
    (arg : List ℕ) (found : Option ℕ)
    → cut_by_index arg found ≡ elim found [
      | none ↦ done none
      | some idx ↦ then_do (get_environ_key arg) λ key. done (some (key, drop (idx + 1) arg))
    ]
unfolding get_environ_value
cut_by_index_lem arg none = refl
cut_by_index_lem arg (some idx) = refl

cut_lem : (arg : List ℕ) → cut_by_index arg (block_contains arg b'=') ≡ done (cut arg)
unfolding cut block_contains get_environ_key
cut_lem [] = refl
cut_lem (c ∷ arg) =
    cut_by_index_lem (c ∷ arg) (block_contains (c ∷ arg) b'=')
    ∙ cut_step c arg (c == b'=') (get_environ_key arg) (block_contains arg b'=') (cut arg)
        (sym (cut_by_index_lem arg (block_contains arg b'=')) ∙ cut_lem arg)

set_variable_lem :
    (vars : Variables) (arg : List ℕ) (found : Option ℕ)
    → set_variable vars arg found ≡ then_do (cut_by_index arg found) λ pair. done (assign vars pair)
set_variable_lem vars arg none = refl
set_variable_lem vars arg (some idx) = by_key (get_environ_key arg)
  where
    by_key :
        (key : Run (List ℕ))
        → then_do key (λ key. done (setenv vars key (get_environ_value arg idx)))
          ≡ then_do
              (then_do key λ key. done (some (key, get_environ_value arg idx)))
              λ pair. done (assign vars pair)
    by_key (done key) = refl
    by_key fault = refl
    by_key exhausted = refl

-- Setting the variables always succeeds, and each word KEY=VALUE gives KEY, up to the first `=`, the
-- value behind it; later words win.
pub set_environ_vars-assigned :
    (eargv : List (List ℕ)) (vars : Variables)
    → set_environ_vars vars eargv ≡ done (assigned vars eargv)
unfolding set_environ_vars assigned
set_environ_vars-assigned [] vars = refl
set_environ_vars-assigned (arg ∷ eargv) vars =
    ap (λ found. then_do found λ vars. set_environ_vars vars eargv)
      (set_variable_lem vars arg (block_contains arg b'=')
        ∙ ap (λ pair. then_do pair λ pair. done (assign vars pair)) (cut_lem arg))
    ∙ set_environ_vars-assigned eargv (assign vars (cut arg))
