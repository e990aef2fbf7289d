-- ===== src/Util.antt =====
-- The string and path helpers, src/util.cc and include/util.h. A string is the list of its
-- characters' codes, and a position is a number or `none` for `npos`.
pub mod Laws
pub mod Files
pub mod Dirs
mod Tests
use ztyco.Base.{
  ℕ, zero, suc, ◌+◌, ◌-◌, Bool, true, false, Option, none, some, List, [], ◌∷◌, ◌++◌, ◌==◌,
  if◌then◌else◌, take, mem, Str,
}

abbrev pub next : Option ℕ → Option ℕ
next none = none
next (some i) = some (suc i)

-- `find_first_not_of`, `find_last_not_of` and `rfind`
abbrev pub find_first_not_of : Str → Str → Option ℕ
find_first_not_of d [] = none
find_first_not_of d (c ∷ s) =
    let rest = find_first_not_of d s in if mem c d then next rest else some 0

abbrev pub or_here : Bool → Option ℕ → Option ℕ
or_here b (some i) = some (suc i)
or_here true none = some 0
or_here false none = none

abbrev pub find_last_not_of : Str → Str → Option ℕ
find_last_not_of d [] = none
find_last_not_of d (c ∷ s) = or_here (if mem c d then false else true) (find_last_not_of d s)

abbrev pub rfind : ℕ → Str → Option ℕ
rfind x [] = none
rfind x (c ∷ s) = or_here (c == x) (rfind x s)

-- `substr(pos)` and `substr(pos, len)`
abbrev pub drop : ℕ → Str → Str
drop zero s = s
drop (suc n) [] = []
drop (suc n) (c ∷ s) = drop n s

abbrev pub substr : Str → ℕ → ℕ → Str
substr s pos len = take len (drop pos s)

-- `StringUtil::Trim`, `TrimLeft` and `TrimRight`, from the positions found on.
abbrev pub trim_at : Str → Option ℕ → Option ℕ → Str
trim_at s none last = []
trim_at s (some begin) none = drop begin s
trim_at s (some begin) (some last) = substr s begin (last - begin + 1)

unfoldable pub trim : Str → Str → Str
trim s d = trim_at s (find_first_not_of d s) (find_last_not_of d s)

abbrev pub trim_left_at : Str → Option ℕ → Str
trim_left_at s none = []
trim_left_at s (some begin) = drop begin s

unfoldable pub trim_left : Str → Str → Str
trim_left s d = trim_left_at s (find_first_not_of d s)

abbrev pub trim_right_at : Str → Option ℕ → Str
trim_right_at s none = []
trim_right_at s (some last) = substr s 0 last

unfoldable pub trim_right : Str → Str → Str
trim_right s d = trim_right_at s (find_last_not_of d s)

-- `/` and `.`
abbrev pub slash : ℕ
slash = 47

abbrev pub dot : ℕ
dot = 46

-- `FSUtil::Dirname` and `FSUtil::Basename`
abbrev pub dirname_at : Str → Option ℕ → Str
dirname_at s none = dot ∷ []
dirname_at s (some zero) = slash ∷ []
dirname_at s (some (suc n)) = substr s 0 (suc n)

unfoldable pub dirname : Str → Str
dirname [] = dot ∷ []
dirname (c ∷ s) = dirname_at (c ∷ s) (rfind slash (c ∷ s))

abbrev pub basename_at : Str → Option ℕ → Str
basename_at s none = s
basename_at s (some pos) = drop (pos + 1) s

unfoldable pub basename : Str → Str
basename [] = []
basename (c ∷ s) = basename_at (c ∷ s) (rfind slash (c ∷ s))
