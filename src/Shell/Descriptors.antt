-- ===== src/Shell/Descriptors.antt =====
-- The descriptors of a process and the environment's variables, as the system calls and the library of
-- C that shell/exec.c uses leave them: open and pipe take the lowest free descriptor.
use sistemas_operativos_1c.Base.{
  ℕ, zero, suc, ◌+◌, List, [], ◌∷◌, Bool, true, false, ◌&&◌, Option, none, some, if◌then◌else◌,
  ◌==◌,
}

-- The place of a command in the tree of pipes.
pub data Side : Type 0 where
  left right : Side

abbrev pub Place : Type 0
Place = List Side

pub data Mode : Type 0 where
  reading writing : Mode

-- What a descriptor refers to. `outer` is whatever the shell itself was given.
pub data Object : Type 0 where
  outer : ℕ → Object
  file : List ℕ → Mode → Object
  reader writer : Place → Object

-- `none` is a closed descriptor; the list ends at the last open one.
abbrev pub Fds : Type 0
Fds = List (Option Object)

abbrev next : ℕ × Fds → Object → ℕ × Fds
next (fd, fds) o = (fd + 1, some o ∷ fds)

-- Opens the lowest free descriptor.
unfoldable pub install : Fds → Object → ℕ × Fds
install [] o = (0, some o ∷ [])
install (none ∷ fds) o = (0, some o ∷ fds)
install (some p ∷ fds) o = next (install fds o) p

abbrev put : Fds → ℕ → Object → Fds
put [] zero o = some o ∷ []
put [] (suc fd) o = none ∷ put [] fd o
put (p ∷ fds) zero o = some o ∷ fds
put (p ∷ fds) (suc fd) o = p ∷ put fds fd o

abbrev held : Fds → ℕ → Option Object
held [] fd = none
held (p ∷ fds) zero = p
held (p ∷ fds) (suc fd) = held fds fd

-- `none` is the error of an old descriptor that is not open.
unfoldable pub dup2 : Fds → (old new : ℕ) → Option Fds
dup2 fds old new = elim (held fds old) [ none ↦ none | some o ↦ some (put fds new o) ]

abbrev link : Option Object → Fds → Fds
link none [] = []
link none (p ∷ fds) = none ∷ p ∷ fds
link (some o) fds = some o ∷ fds

unfoldable pub close_fd : Fds → ℕ → Fds
close_fd [] fd = []
close_fd (p ∷ fds) zero = link none fds
close_fd (p ∷ fds) (suc fd) = link p (close_fd fds fd)

abbrev pub Variables : Type 0
Variables = List (List ℕ × List ℕ)

abbrev pub same : List ℕ → List ℕ → Bool
same [] [] = true
same [] (d ∷ t) = false
same (c ∷ s) [] = false
same (c ∷ s) (d ∷ t) = (c == d) && same s t

abbrev replaced : List ℕ → List ℕ → Variables → Variables
replaced key value [] = (key, value) ∷ []
replaced key value ((k, v) ∷ vars) =
    let rest = replaced key value vars in if same k key then (key, value) ∷ vars else (k, v) ∷ rest

-- An empty name is refused.
unfoldable pub setenv : Variables → (key value : List ℕ) → Variables
setenv vars [] value = vars
setenv vars (c ∷ key) value = replaced (c ∷ key) value vars

-- Which system calls succeed.
pub record World : Type 0 where
  pub can_open : Place → List ℕ → Mode → Bool
  pub can_pipe : Place → Bool
  pub can_fork : Place → Side → Bool
  pub can_run : Place → List (List ℕ) → Bool

abbrev pub getenv : Variables → (name : List ℕ) → Option (List ℕ)
getenv [] name = none
getenv ((key, value) ∷ vars) name =
    let rest = getenv vars name in if same key name then some value else rest
