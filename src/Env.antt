-- ===== src/Env.antt =====
-- The program's environment, src/env.cc and include/env.h.
-- A string is the list of its characters' codes. `m_args` is an association list without a second
-- entry of a key. What `readlink` finds and the configured work path are arguments.
pub mod Args
pub mod Helps
mod Tests
use ztyco.Base.{
  ℕ, Bool, true, false, not, ◌&&◌, Option, none, some, List, [], ◌∷◌, ◌++◌, ◌==◌, if◌then◌else◌,
  is_some, keep, Str, same,
}

-- `-`, `/` and a blank
abbrev pub dash : ℕ
dash = 45

abbrev pub slash : ℕ
slash = 47

pub record Env : Type 0 where
  pub args : List (Str × Str)
  pub helps : List (Str × Str)
  pub program_name : Str
  pub exe_path : Str
  pub cwd : Str

-- `m_args.find(key)`
abbrev pub find : Str → List (Str × Str) → Option Str
find k [] = none
find k ((k', v) ∷ m) = if same k k' then some v else find k m

-- `m_args[key] = val`
abbrev pub assign : Str → Str → List (Str × Str) → List (Str × Str)
assign k v [] = (k, v) ∷ []
assign k v ((k', v') ∷ m) =
    let rest = assign k v m in if same k k' then (k, v) ∷ m else (k', v') ∷ rest

-- `m_args.erase(key)`
abbrev pub erase : Str → List (Str × Str) → List (Str × Str)
erase k m = keep (λ e. not (same k (e.0))) m

-- `Env::add`, `has`, `del` and `get`
unfoldable pub add : Env → Str → Str → Env
add e k v = record e { args = assign k v e.args }

unfoldable pub has : Env → Str → Bool
has e k = is_some (find k e.args)

unfoldable pub del : Env → Str → Env
del e k = record e { args = erase k e.args }

unfoldable pub get : Env → Str → Str → Str
get e k default = elim (find k e.args) [ some v ↦ v | none ↦ default ]

-- `if (now_key) add(now_key, "")`
abbrev pub add_key : Env → Option Str → Env
unfolding add
add_key e none = e
add_key e (some k) = add e k []

-- The kinds of an argument: an option, a single dash, or a value.
pub data Arg : Type 0 where
  option : Str → Arg
  lone_dash : Arg
  value : Str → Arg

abbrev pub arg_of : Str → Arg
arg_of [] = value []
arg_of (c ∷ []) = if c == dash then lone_dash else value (c ∷ [])
arg_of (c ∷ d ∷ s) = if c == dash then option (d ∷ s) else value (c ∷ d ∷ s)

-- One round of the loop of `Env::init` with `now_key`: the environment and the next key, or the
-- environment that a `return false` leaves.
pub data Turn : Type 0 where
  goes_on : Env → Option Str → Turn
  stops : Env → Turn

abbrev pub turn : Env → Option Str → Arg → Turn
unfolding add
turn e now (option k) = goes_on (add_key e now) (some k)
turn e now lone_dash = stops e
turn e (some k) (value v) = goes_on (add e k v) none
turn e none (value v) = stops e

abbrev pub after : Turn → (Env → Option Str → Env × Bool) → Env × Bool
after (stops e) rest = (e, false)
after (goes_on e now) rest = rest e now

-- The loop, from an argument on, and its result.
unfoldable pub parse : Env → Option Str → List Str → Env × Bool
parse e now [] = (add_key e now, true)
parse e now (a ∷ args) = after (turn e now (arg_of a)) (λ e' now'. parse e' now' args)

-- `m_exepath.substr(0, m_exepath.find_last_of("/"))`: everything where there is no slash.
abbrev pub has_slash : Str → Bool
has_slash [] = false
has_slash (c ∷ s) = if c == slash then true else has_slash s

abbrev pub before_last_slash : Str → Str
before_last_slash [] = []
before_last_slash (c ∷ s) =
    let rest = c ∷ before_last_slash s in if c == slash && not (has_slash s) then [] else rest

-- `Env::init`, with the path that `readlink` finds.
unfoldable pub init : Env → Str → Str → List Str → Env × Bool
unfolding parse
init e exe name rest =
    parse
      (record e { exe_path = exe; cwd = before_last_slash exe ++ slash ∷ []; program_name = name })
      none (name ∷ rest)

-- `Env::removeHelp` and `Env::addHelp`
unfoldable pub remove_help : Env → Str → Env
remove_help e k = record e { helps = keep (λ h. not (same (h.0) k)) e.helps }

unfoldable pub add_help : Env → Str → Str → Env
unfolding remove_help
add_help e k desc = let e' = remove_help e k in record e' { helps = e'.helps ++ (k, desc) ∷ [] }

-- `Env::getAbsolutePath` and `Env::getAbsoluteWorkPath`
unfoldable pub get_absolute_path : Env → Str → Str
get_absolute_path e [] = slash ∷ []
get_absolute_path e (c ∷ s) = if c == slash then c ∷ s else e.cwd ++ c ∷ s

unfoldable pub get_absolute_work_path : Str → Str → Str
get_absolute_work_path work [] = slash ∷ 32 ∷ []
get_absolute_work_path work (c ∷ s) = if c == slash then c ∷ s else work ++ slash ∷ c ∷ s

-- `Env::getConfigPath`: the option `c`, or `conf`.
unfoldable pub get_config_path : Env → Str
unfolding get_absolute_path get
get_config_path e = get_absolute_path e (get e (99 ∷ []) (99 ∷ 111 ∷ 110 ∷ 102 ∷ []))
