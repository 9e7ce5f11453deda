-- ===== src/Shell/Builtin.antt =====
-- shell/builtin.c: the built-in commands, and the state of the shell that they change. Messages of errors
-- are not modelled.
use sistemas_operativos_1c.Base.{
  ℕ, ◌-◌, List, [], ◌∷◌, ◌++◌, Bool, true, false, ◌&&◌, Option, none, some, if◌then◌else◌, ◌==◌,
  ltb, length, drop, take,
}
use sistemas_operativos_1c.Base.Int.{ℤ}
use sistemas_operativos_1c.Shell.Types.{buflen}
use sistemas_operativos_1c.Shell.Descriptors.{Fds, Variables, World, getenv}
use sistemas_operativos_1c.Shell.Exec.{Fate}

-- What the shell stands on. `chdir` answers the directory that a path leads to, or an error; `waited`
-- is the status after waitpid, from the process and the status before. There is no process when fork
-- failed. `text_of` is the format %d.
pub record Machine : Type 0 where
  pub world : World
  pub variables : Variables
  pub fds : Fds
  pub can_start : Bool
  pub chdir : (directory path : List ℕ) → Option (List ℕ)
  pub waited : Option Fate → ℤ → ℤ
  pub text_of : ℤ → List ℕ

pub record Session : Type 0 where
  pub prompt : List ℕ
  pub directory : List ℕ
  pub status : ℤ

-- The bytes before the first null byte.
unfoldable pub c_string : List ℕ → List ℕ
c_string [] = []
c_string (b ∷ buf) = let rest = c_string buf in if b == 0 then [] else b ∷ rest

-- strncmp with the length of the word.
unfoldable pub begins : (word cmd : List ℕ) → Bool
begins [] cmd = true
begins (c ∷ word) [] = false
begins (c ∷ word) (b ∷ cmd) = (b == c) && begins word cmd

abbrev pub home_name : List ℕ
home_name = b'H' ∷ b'O' ∷ b'M' ∷ b'E' ∷ []

unfoldable pub exit_shell : (cmd : List ℕ) → Bool
exit_shell cmd = begins (b'e' ∷ b'x' ∷ b'i' ∷ b't' ∷ []) cmd

-- The text that a block of `buflen` bytes can hold, with getcwd's error if it does not fit.
abbrev getcwd : Session → Option (List ℕ)
getcwd session = if ltb (length session.directory) buflen then some session.directory else none

abbrev pub to_home : Machine → Session → Option (List ℕ) → Session
to_home sys session none = session
to_home sys session (some home) = elim (sys.chdir session.directory home) [
  | none ↦ session
  | some directory ↦ record session {
    directory = directory;
    prompt = take (buflen - 1) (b'(' ∷ (home ++ b')' ∷ []));
  }
]

abbrev prompt_of : Session → Option (List ℕ) → Session
prompt_of session none = session
prompt_of session (some directory) = record session { prompt = directory }

abbrev to_path : Session → Option (List ℕ) → Session
to_path session none = session
to_path session (some directory) =
    let moved = record session { directory = directory } in prompt_of moved (getcwd moved)

abbrev change : Machine → Session → (path : List ℕ) → Session
change sys session [] = to_home sys session (getenv sys.variables home_name)
change sys session (c ∷ path) = to_path session (sys.chdir session.directory (c ∷ path))

-- `none` is the result 0. The line stands in a block of null bytes.
unfoldable pub cd : Machine → Session → (cmd : List ℕ) → Option Session
cd sys session cmd =
    if begins (b'c' ∷ b'd' ∷ []) cmd
    then some (change sys session (c_string (drop 3 cmd)))
    else none

abbrev shown : Option (List ℕ) → List ℕ
shown none = []
shown (some directory) = directory ++ b'\n' ∷ []

-- `none` is the result false, otherwise what is printed.
unfoldable pub pwd : Session → (cmd : List ℕ) → Option (List ℕ)
pwd session cmd =
    if begins (b'p' ∷ b'w' ∷ b'd' ∷ []) cmd then some (shown (getcwd session)) else none

unfoldable pub history : (cmd : List ℕ) → Bool
history cmd = false
