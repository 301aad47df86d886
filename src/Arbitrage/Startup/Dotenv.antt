-- ===== src/Arbitrage/Startup/Dotenv.antt =====
-- examples/toy-arbitrage/src/main.rs: `load_dotenv`. A text is the list of its characters here, since
-- `trim` looks at whole characters, and the variables of the process are a function of the name.
pub mod Laws
use driftbrake.Base.{
  ℕ, ◌≡◌, refl, Bool, true, false, ◌||◌, ◌&&◌, not, List, [], ◌∷◌, ◌++◌, reverse, Option, none,
  some, Outcome, value, panic, ◌>>=◌, ltb, leb, ◌==◌, if◌then◌else◌,
}
use driftbrake.Base.Text.{same_text}

abbrev pub Env : Type 0
Env = List ℕ → Option (List ℕ)

-- `char::is_whitespace`, the property White_Space of Unicode.
abbrev pub is_whitespace : ℕ → Bool
is_whitespace c =
    (leb 9 c && leb c 13)
    || (c == 0x20)
    || (c == 0x85)
    || (c == 0xa0)
    || (c == 0x1680)
    || (leb 0x2000 c && leb c 0x200a)
    || (c == 0x2028)
    || (c == 0x2029)
    || (c == 0x202f)
    || (c == 0x205f)
    || (c == 0x3000)

unfoldable pub trim_start : List ℕ → List ℕ
trim_start [] = []
trim_start (c ∷ cs) = let rest = trim_start cs in if is_whitespace c then rest else c ∷ cs

-- `str::trim`
abbrev pub trim : List ℕ → List ℕ
trim s = reverse (trim_start (reverse (trim_start s)))

abbrev pub add_char : ℕ → List (List ℕ) → List (List ℕ)
add_char c [] = (c ∷ []) ∷ []
add_char c (line ∷ lines) = (c ∷ line) ∷ lines

-- `str::lines`, but that it leaves a `\r` before the end of a line, which `trim` takes away.
unfoldable pub lines : List ℕ → List (List ℕ)
lines [] = []
lines (c ∷ cs) = let rest = lines cs in if c == 10 then [] ∷ rest else add_char c rest

abbrev pub in_key : ℕ → Option (List ℕ × List ℕ) → Option (List ℕ × List ℕ)
in_key c none = none
in_key c (some (key, val)) = some (c ∷ key, val)

-- `line.split_once('=')`
unfoldable pub split_once : List ℕ → Option (List ℕ × List ℕ)
split_once [] = none
split_once (c ∷ cs) = let rest = split_once cs in if c == 61 then some ([], cs) else in_key c rest

abbrev pub has_nul : List ℕ → Bool
has_nul [] = false
has_nul (c ∷ cs) = (c == 0) || has_nul cs

abbrev pub is_settable : List ℕ → List ℕ → Bool
is_settable [] val = false
is_settable (c ∷ key) val = not (has_nul (c ∷ key) || has_nul val)

-- `std::env::set_var`, which panics on an empty name and on a NUL.
abbrev pub set_var : Env → List ℕ → List ℕ → Outcome Env
set_var env key val =
    if is_settable key val
    then value (λ name. if same_text name key then some val else env name)
    else panic

-- `std::env::var(key).is_err()`
abbrev pub set_if_unset : Env → Option (List ℕ) → List ℕ → List ℕ → Outcome Env
set_if_unset env (some present) key val = value env
set_if_unset env none key val = set_var env key val

abbrev pub load_pair : Env → Option (List ℕ × List ℕ) → Outcome Env
load_pair env none = value env
load_pair env (some (key, val)) = set_if_unset env (env (trim key)) (trim key) (trim val)

-- An empty line, or a comment.
abbrev pub is_skipped : List ℕ → Bool
is_skipped [] = true
is_skipped (c ∷ cs) = c == 35

abbrev pub load_line : Env → List ℕ → Outcome Env
load_line env line = if is_skipped line then value env else load_pair env (split_once line)

unfoldable pub load_lines : Env → List (List ℕ) → Outcome Env
load_lines env [] = value env
load_lines env (line ∷ rest) = do after ← load_line env (trim line); load_lines after rest

abbrev pub load_contents : Env → Option (List ℕ) → Outcome Env
load_contents env none = value env
load_contents env (some contents) = load_lines env (lines contents)

-- `.env` as the text that it holds, if it can be read.
unfoldable pub load_dotenv : Env → Option (List ℕ) → Outcome Env
load_dotenv env file = load_contents env file
