-- ===== src/Log/Manager.antt =====
-- `LoggerManager` of src/log.cc, and the listener that brings a changed configuration to the loggers.
use ztyco.LogFormatter.{LogEvent}
use ztyco.Log.Level.{codes, Level, info, rank}
use ztyco.Base.{
  ℕ, ◌+◌, Bool, true, false, ◌&&◌, Option, none, some, List, [], ◌∷◌, leb, ◌==◌, update,
  if◌then◌else◌, is_empty, Str, same,
}
use ztyco.Log.{done, stuck, crashed, LogFormatter, M, ◌>>=◌, ◌>>◌, return, new_formatter}
use ztyco.Log.Appenders as A
use ztyco.Log.Appenders.{make_file, make_stdout}
use ztyco.Log.Loggers as L
use ztyco.Log.Loggers.{add_appender, clear_appender, set_pattern}

-- The pattern of a new logger.
abbrev pub default_pattern : Str
default_pattern = codes "%d{%Y-%m-%d %H:%M:%S}%T%t%T%N%T%F%T[%p]%T[%c]%T%f:%l%T%m%n"

-- `new Logger(name)`, with `m_root` as given: the address.
unfoldable pub make_logger : Str → Option ℕ → M ℕ
make_logger name root = do
  f ← new_formatter default_pattern
  λ s.
      let l = s.logger_count in
      done (
        l,
        record s {
          loggers = update s.loggers l (record {
            name = name;
            level = 1;
            appenders = [];
            form = f;
            root = root;
            is_locked = false;
          });
          logger_count = l + 1;
        },
      )

-- `LoggerManager()`, in a store without a logger.
unfoldable pub start : M (Unit {0})
unfolding make_logger make_stdout add_appender
start = do
  root ← make_logger (codes "root") none
  λ s. done (tt, record s { root = root })
  a ← make_stdout
  add_appender root a
  λ s. done (tt, record s { table = (codes "root", root) ∷ s.table })

abbrev pub find : Str → List (Str × ℕ) → Option ℕ
find name [] = none
find name ((n, l) ∷ rest) = if same name n then some l else find name rest

abbrev pub lock_manager : M (Unit {0})
lock_manager s = if s.is_locked then stuck else done (tt, record s { is_locked = true })

abbrev pub unlock_manager : M (Unit {0})
unlock_manager s = done (tt, record s { is_locked = false })

abbrev pub find_or_make : Str → Option ℕ → M ℕ
find_or_make name (some l) = return l
find_or_make name none = do
  l ← λ s. make_logger name (some s.root) s
  λ s. done (tt, record s { table = (name, l) ∷ s.table })
  return l

-- `LoggerManager::getLogger`
unfoldable pub get_logger : Str → M ℕ
unfolding make_logger
get_logger name = do
  lock_manager
  l ← λ s. find_or_make name (find name s.table) s
  unlock_manager
  return l

-- `LogAppenderDefine`: 1 is a file, 2 is standard output.
pub record AppenderDefine : Type 0 where
  pub kind : ℕ
  pub level : Level
  pub form : Str
  pub file : Str

-- `LogDefine`
pub record LogDefine : Type 0 where
  pub name : Str
  pub level : Level
  pub form : Str
  pub appenders : List AppenderDefine

-- `operator==` of both.
abbrev pub same_appender : AppenderDefine → AppenderDefine → Bool
same_appender a b =
    a.kind == b.kind && rank a.level == rank b.level && same a.form b.form && same a.file b.file

abbrev pub same_appenders : List AppenderDefine → List AppenderDefine → Bool
same_appenders [] [] = true
same_appenders [] (b ∷ bs) = false
same_appenders (a ∷ rest) [] = false
same_appenders (a ∷ rest) (b ∷ bs) = same_appender a b && same_appenders rest bs

unfoldable pub same_define : LogDefine → LogDefine → Bool
same_define a b =
    same a.name b.name
    && rank a.level == rank b.level
    && same a.form b.form
    && same_appenders a.appenders b.appenders

-- `find` in a `std::set<LogDefine>`, whose order looks at the names alone.
abbrev pub find_define : Str → List LogDefine → Option LogDefine
find_define name [] = none
find_define name (d ∷ ds) = if same name d.name then some d else find_define name ds

abbrev pub made : M ℕ → M (Option ℕ)
made m = do a ← m; return (some a)

module _ (can_open : Str → Bool) (is_daemon : Bool) where
  -- The appender of a definition, `none` where the definition is passed over; of another kind, the
  -- null pointer is used.
  abbrev pub appender_of : AppenderDefine → M (Option ℕ)
  appender_of d =
      if d.kind == 1
      then made (make_file can_open d.file)
      else if d.kind == 2
      then (if is_daemon then return none else made make_stdout)
      else λ s. crashed

  abbrev pub give_pattern : ℕ → LogFormatter → M (Unit {0})
  give_pattern a f = if f.is_error then return tt else A.set_formatter a f

  abbrev pub add_made : ℕ → AppenderDefine → Option ℕ → M (Unit {0})
  add_made l d none = return tt
  add_made l d (some a) = do
    A.set_level a (rank d.level)
    if is_empty d.form then return tt else do f ← new_formatter d.form; give_pattern a f
    add_appender l a

  abbrev pub add_all : ℕ → List AppenderDefine → M (Unit {0})
  add_all l [] = return tt
  add_all l (d ∷ ds) = do a ← appender_of d; add_made l d a; add_all l ds

  -- The body of the loop over the new definitions, for one that is new or has changed.
  unfoldable pub apply_define : LogDefine → M (Unit {0})
  unfolding make_file make_stdout get_logger set_pattern clear_appender add_appender A.set_formatter
  apply_define d = do
    l ← get_logger d.name
    L.set_level l (rank d.level)
    if is_empty d.form then return tt else set_pattern l d.form
    clear_appender l
    add_all l d.appenders

  abbrev pub is_unchanged : LogDefine → Option LogDefine → Bool
  unfolding same_define
  is_unchanged d none = false
  is_unchanged d (some old) = same_define d old

  abbrev pub apply_new : List LogDefine → List LogDefine → M (Unit {0})
  apply_new olds [] = return tt
  apply_new olds (d ∷ ds) = do
    if is_unchanged d (find_define d.name olds) then return tt else apply_define d
    apply_new olds ds

  -- A definition that is gone: its logger's level is 0 and it has no appenders.
  abbrev pub drop_one : LogDefine → Option LogDefine → M (Unit {0})
  drop_one d (some new) = return tt
  drop_one d none = do l ← get_logger d.name; L.set_level l 0; clear_appender l

  abbrev pub drop_gone : List LogDefine → List LogDefine → M (Unit {0})
  drop_gone [] news = return tt
  drop_gone (d ∷ ds) news = do drop_one d (find_define d.name news); drop_gone ds news

  -- The listener of "logs". It first logs a line `e` to the root logger.
  unfoldable pub on_change :
      (List ℕ → ℕ → List ℕ) → LogEvent → List LogDefine → List LogDefine → M (Unit {0})
  unfolding apply_define
  on_change strftime e olds news = do
    λ s.
        if leb (s.loggers s.root).level (rank info)
        then L.log can_open strftime e 2 s.root s
        else return tt s
    apply_new olds news
    drop_gone olds news
