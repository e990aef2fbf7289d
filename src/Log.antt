-- ===== src/Log.antt =====
-- The log: levels, appenders, loggers and their manager, src/log.cc and include/log.h.
-- Appenders and loggers are addresses in a store, with the state of their spin locks; a thread that
-- asks for a lock that it holds spins for ever. One thread is modelled. A formatter is its pattern
-- with what `LogFormatter::init` made of it.
pub mod Level
pub mod Appenders
pub mod Loggers
pub mod Manager
pub mod Sections
pub mod Streams
pub mod Routing
pub mod Settings
pub mod Names
pub mod Defines
pub mod Members
pub mod Fields
pub mod Written
mod Tests
use ztyco.LogFormatter.{FormatItem, LogEvent, Formatter, formatter, bad_read, init}
use ztyco.Base.{
  ℕ, Bool, true, false, Option, none, some, List, [], ◌∷◌, ◌++◌, update, if◌then◌else◌, Str,
}

-- What a call comes to: it returns, it waits for a lock for ever, or it is undefined behaviour.
pub data Run {ℓ} (A : Type ℓ) : Type ℓ where
  done : A → Run A
  stuck : Run A
  crashed : Run A

pub record LogFormatter : Type 0 where
  pub pattern : Str
  pub items : List FormatItem
  pub is_error : Bool

-- `std::ofstream`: whether its file is open, and whether it has failed.
pub record Stream : Type 0 where
  pub is_open : Bool
  pub has_failed : Bool

pub data Kind : Type 0 where
  stdout : Kind
  file : Str → Stream → ℕ → Kind

-- `LogAppender`; a file appender has its name, its stream and `m_lastTime`.
pub record Appender : Type 0 where
  pub kind : Kind
  pub level : ℕ
  pub form : Option LogFormatter
  pub has_formatter : Bool
  pub is_locked : Bool

-- `Logger`
pub record Logger : Type 0 where
  pub name : Str
  pub level : ℕ
  pub appenders : List ℕ
  pub form : LogFormatter
  pub root : Option ℕ
  pub is_locked : Bool

-- The store: the objects by address, `m_loggers` of the manager with its lock, what standard output
-- was given, and the files.
pub record Logs : Type 0 where
  pub appenders : ℕ → Appender
  pub appender_count : ℕ
  pub loggers : ℕ → Logger
  pub logger_count : ℕ
  pub table : List (Str × ℕ)
  pub root : ℕ
  pub is_locked : Bool
  pub output : Str
  pub files : Str → Str

-- A computation on the store.
abbrev pub M : Type 0 → Type 0
M A = Logs → Run (A × Logs)

infixl 5 ◌>>=◌ ◌>>◌
abbrev pub ◌>>=◌ : {A B : Type 0} → M A → (A → M B) → M B
◌>>=◌ m f s = elim (m s) [ done (a, t) ↦ f a t | stuck ↦ stuck | crashed ↦ crashed ]

abbrev pub ◌>>◌ : {B : Type 0} → M (Unit {0}) → M B → M B
m >> k = m >>= λ _. k

abbrev pub return : {A : Type 0} → A → M A
return a s = done (a, s)

abbrev pub set_appender : ℕ → Appender → M (Unit {0})
set_appender a x s = done (tt, record s { appenders = update s.appenders a x })

abbrev pub set_logger : ℕ → Logger → M (Unit {0})
set_logger l x s = done (tt, record s { loggers = update s.loggers l x })

-- `ScopedLockImpl` over a spin lock of an appender or a logger.
abbrev pub lock_appender : ℕ → M (Unit {0})
lock_appender a s =
    let x = s.appenders a in
    if x.is_locked then stuck else set_appender a (record x { is_locked = true }) s

abbrev pub unlock_appender : ℕ → M (Unit {0})
unlock_appender a s = set_appender a (record (s.appenders a) { is_locked = false }) s

abbrev pub lock_logger : ℕ → M (Unit {0})
lock_logger l s =
    let x = s.loggers l in
    if x.is_locked then stuck else set_logger l (record x { is_locked = true }) s

abbrev pub unlock_logger : ℕ → M (Unit {0})
unlock_logger l s = set_logger l (record (s.loggers l) { is_locked = false }) s

-- `new LogFormatter(pattern)`
abbrev pub made_formatter : Str → Formatter → Run LogFormatter
made_formatter p (formatter is bad) = done (record { pattern = p; items = is; is_error = bad })
made_formatter p bad_read = crashed

unfoldable pub new_formatter : Str → M LogFormatter
unfolding init
new_formatter p s = elim (made_formatter p (init p)) [
  | done f ↦ done (f, s)
  | stuck ↦ stuck
  | crashed ↦ crashed
]
