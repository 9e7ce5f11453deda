-- ===== src/Fs/Path.antt =====
-- fisopfs/fisopfs.c: paths. `strtok(ruta, "/")` and `strrchr(path_dup, '/')` on the bytes of a path.
use mathlib.Core.Path.{ap₂, subst}
use sistemas_operativos_1c.Base.{
  ℕ, ◌≡◌, refl, ap, ◌∙◌, sym, List, [], ◌∷◌, ◌++◌, Bool, true, false, ◌&&◌, Option, none, some,
  ◌==◌, ==_iff, if◌then◌else◌, arith, append_assoc, append-nil, Bool-cases, inl, inr,
}
use sistemas_operativos_1c.Fs.Inode.{Name}

abbrev pub slash : ℕ
slash = b'/'

-- `strcmp(a, b) == 0`
unfoldable pub same_name : Name → Name → Bool
same_name [] [] = true
same_name (a ∷ xs) (b ∷ ys) = a == b && same_name xs ys
same_name _ _ = false

-- A token ends where the next slash or the path ends; an empty one is none.
abbrev flush : Name → List Name → List Name
flush [] ts = ts
flush (c ∷ cs) ts = (c ∷ cs) ∷ ts

unfoldable pub tokens_from : Name → List ℕ → List Name
tokens_from acc [] = flush acc []
tokens_from acc (c ∷ cs) = elim (c == slash) [
  | true ↦ flush acc (tokens_from [] cs)
  | false ↦ tokens_from (acc ++ c ∷ []) cs
]

unfoldable pub tokens : List ℕ → List Name
unfolding tokens_from
tokens path = tokens_from [] path

-- The bytes before and after the last slash.
abbrev attach : ℕ → List ℕ → Option (List ℕ × List ℕ) → Option (List ℕ × List ℕ)
attach c cs none = if c == slash then some ([], cs) else none
attach c cs (some (before, after)) = some (c ∷ before, after)

unfoldable pub split_last : List ℕ → Option (List ℕ × List ℕ)
split_last [] = none
split_last (c ∷ cs) = attach c cs (split_last cs)

-- No byte is a slash.
abbrev pub NoSlash : List ℕ → Type 0
NoSlash [] = Unit {0}
NoSlash (c ∷ cs) = ((c == slash) ≡ false) × NoSlash cs

pub same_name_self : (a : Name) → same_name a a ≡ true
unfolding same_name
same_name_self [] = refl
same_name_self (x ∷ a) = ground (arith, same_name_self a)

pub same_name→eq : (a b : Name) → same_name a b ≡ true → a ≡ b
unfolding same_name
same_name→eq [] [] h = refl
same_name→eq [] (y ∷ b) h = cc
same_name→eq (x ∷ a) [] h = cc
same_name→eq (x ∷ a) (y ∷ b) h = ground (arith, same_name→eq a b)

split_last-none : (cs : List ℕ) → split_last cs ≡ none → NoSlash cs
unfolding split_last
split_last-none [] h = tt
split_last-none (c ∷ cs) h = go (split_last cs) (split_last-none cs) h
  where
    go :
        (o : Option (List ℕ × List ℕ))
        → (o ≡ none → NoSlash cs)
        → attach c cs o ≡ none
        → NoSlash (c ∷ cs)
    go none plain k = (ground arith, plain refl)
    go (some (b, a)) plain k = cc

-- What stands after the last slash holds none, and the path is put together from the two parts.
pub split_last_lem :
    (path before after : List ℕ)
    → split_last path ≡ some (before, after)
    → (path ≡ before ++ slash ∷ after) × NoSlash after
unfolding split_last
split_last_lem [] before after h = cc
split_last_lem (c ∷ cs) before after h =
    go (split_last cs) refl (λ b a e. split_last_lem cs b a e) h
  where
    go :
        (o : Option (List ℕ × List ℕ))
        → split_last cs ≡ o
        → ((b a : List ℕ) → o ≡ some (b, a) → (cs ≡ b ++ slash ∷ a) × NoSlash a)
        → attach c cs o ≡ some (before, after)
        → (c ∷ cs ≡ before ++ slash ∷ after) × NoSlash after
    go none e ih k = elim (Bool-cases (c == slash)) [
      | inl hit ↦
          let parts : ◌≡◌ {A = Option (List ℕ × List ℕ)} (some ([], cs)) (some (before, after)) =
            rw hit at k in
          let front : [] ≡ before = cc in
          let back : cs ≡ after = cc in
          let first : c ≡ slash = (==_iff c slash).0 hit in
          (
            ap₂ ◌∷◌ first back ∙ ap (λ xs. xs ++ slash ∷ after) front,
            subst NoSlash back (split_last-none cs e),
          )
      | inr miss ↦
          (let absent : ◌≡◌ {A = Option (List ℕ × List ℕ)} none (some (before, after)) =
              rw miss at k in
            cc)
    ]
    go (some (b, a)) e ih k =
        let front : c ∷ b ≡ before = cc in
        let back : a ≡ after = cc in
        let (whole, plain) = ih b a refl in
        (ap (◌∷◌ c) whole ∙ ap₂ (λ xs ys. xs ++ slash ∷ ys) front back, subst NoSlash back plain)

flush-append : (acc : Name) (ts us : List Name) → flush acc (ts ++ us) ≡ flush acc ts ++ us
flush-append [] ts us = refl
flush-append (c ∷ acc) ts us = refl

pub tokens_from-append :
    (acc : Name) (xs ys : List ℕ)
    → tokens_from acc (xs ++ slash ∷ ys) ≡ tokens_from acc xs ++ tokens_from [] ys
unfolding tokens_from
tokens_from-append acc [] ys = flush-append acc [] (tokens_from [] ys)
tokens_from-append acc (c ∷ xs) ys = elim (Bool-cases (c == slash)) [
  | inl e ↦
      rw (e, tokens_from)
        (ap (flush acc) (tokens_from-append [] xs ys)
          ∙ flush-append acc (tokens_from [] xs) (tokens_from [] ys))
  | inr e ↦ rw (e, tokens_from) (tokens_from-append (acc ++ c ∷ []) xs ys)
]

tokens_from_word :
    (acc : Name) (xs : List ℕ) → NoSlash xs → tokens_from acc xs ≡ flush (acc ++ xs) []
unfolding tokens_from
tokens_from_word acc [] h = ap (λ a. flush a []) (sym (append-nil acc))
tokens_from_word acc (c ∷ xs) (e, h) =
    rw (e, tokens_from)
      (tokens_from_word (acc ++ c ∷ []) xs h ∙ ap (λ a. flush a []) (append_assoc acc (c ∷ []) xs))

-- For a path with a slash and at least one byte behind its last slash, the tokens that the search
-- uses are those of the part before that slash, and then the name behind it.
pub tokens-split_last :
    (path before : List ℕ) (c : ℕ) (cs : List ℕ)
    → split_last path ≡ some (before, c ∷ cs)
    → tokens path ≡ tokens before ++ (c ∷ cs) ∷ []
unfolding tokens
tokens-split_last path before c cs h =
    let (whole, plain) = split_last_lem path before (c ∷ cs) h in
    ap (tokens_from []) whole
    ∙ tokens_from-append [] before (c ∷ cs)
    ∙ ap (λ ts. tokens_from [] before ++ ts) (tokens_from_word [] (c ∷ cs) plain)
