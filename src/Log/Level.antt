-- ===== src/Log/Level.antt =====
-- `LogLevel` of src/log.cc.
use Prim.Native.Char.{code}
use Prim.Native.String.{String}
use ztyco.Base.{ℕ, ◌≡◌, refl, Bool, List, [], ◌∷◌, leb, if◌then◌else◌, Str, same}

-- The characters of a text.
abbrev pub codes : String → Str
codes String.[] = []
codes (String.◌∷◌ c s) = code c ∷ codes s

-- `LogLevel::Level`
pub data Level : Type 0 where
  unknow debug info warn error fatal : Level

-- The number of a level.
abbrev pub rank : Level → ℕ
rank unknow = 0
rank debug = 1
rank info = 2
rank warn = 3
rank error = 4
rank fatal = 5

-- `LogLevel::ToString`
unfoldable pub to_string : Level → Str
to_string unknow = codes "UNKNOW"
to_string debug = codes "DEBUG"
to_string info = codes "INFO"
to_string warn = codes "WARN"
to_string error = codes "ERROR"
to_string fatal = codes "FATAL"

-- The spellings that `LogLevel::FromString` knows, in the order in which it tries them.
abbrev pub spellings : List (Str × Level)
spellings =
    (codes "debug", debug)
    ∷ (codes "info", info)
    ∷ (codes "warn", warn)
    ∷ (codes "error", error)
    ∷ (codes "fatal", fatal)
    ∷ (codes "DEBUG", debug)
    ∷ (codes "INFO", info)
    ∷ (codes "WARN", warn)
    ∷ (codes "ERROR", error)
    ∷ (codes "FATAL", fatal)
    ∷ []

abbrev pub first_of : Str → List (Str × Level) → Level
first_of s [] = unknow
first_of s ((t, l) ∷ rest) = let other = first_of s rest in if same s t then l else other

unfoldable pub from_string : Str → Level
from_string s = first_of s spellings

-- The guard of `ZZ_LOG_LEVEL`: the logger's level and the event's.
unfoldable pub is_enabled : Level → Level → Bool
is_enabled logger event = leb (rank logger) (rank event)

-- A level is read back as it was printed.
pub from_string-to_string : (l : Level) → from_string (to_string l) ≡ l
unfolding from_string to_string
from_string-to_string unknow = refl
from_string-to_string debug = refl
from_string-to_string info = refl
from_string-to_string warn = refl
from_string-to_string error = refl
from_string-to_string fatal = refl
