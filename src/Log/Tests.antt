-- ===== src/Log/Tests.antt =====
-- Tests and instances for the log, src/log.cc.
use ztyco.LogFormatter.{LogEvent}
use ztyco.Base.{
  Option, ap, ℕ, ◌≡◌, ◌⊎◌, refl, Bool, true, false, update, none, some, List, [], ◌∷◌, Str, ◌==◌,
  if◌then◌else◌,
}
use ztyco.Log.{Logs, Appender, Logger, stdout, done, ◌>>=◌, ◌>>◌}
use ztyco.Log.Level.{codes, unknow, info, warn}
use ztyco.Config.Docs.{Doc, leaf, begun, onto, into, docs, puts, pushes_kept, puts_kept}
use ztyco.Log.Manager.{LogDefine}
use ztyco.Log.Defines.{Nodes, define_of, of_define}
use ztyco.Log.Members.{last_of}
use ztyco.Log.Written.{define_of-of_define}
use ztyco.Log.Appenders.{make_file, set_formatter}
use ztyco.Log.Loggers as L
use ztyco.Log.Loggers.{log, add_appender}
use ztyco.Log.Manager.{get_logger, find}
use ztyco.Log.Streams.{log_all, log_all-make_file}
use ztyco.Log.Routing.{texts, printed, log_lem}
use ztyco.Log.Settings.{default_form}
use ztyco.Log.Names.{got, get_logger-get_logger, HandedTo, set_formatter_lem}

abbrev echo : List ℕ → ℕ → List ℕ
echo format time = format

abbrev never : Str → Bool
never name = false

abbrev hello : LogEvent
hello = record {
  content = codes "hi";
  level = [];
  logger_name = [];
  thread_id = [];
  thread_name = [];
  fiber_id = [];
  file_name = [];
  line = [];
  time = 0;
}

abbrev bare : Appender
bare = record { kind = stdout; level = 1; form = none; has_formatter = false; is_locked = false }

abbrev dressed : Appender
dressed = record bare { form = some default_form }

abbrev top : Logger
top = record {
  name = codes "root";
  level = 1;
  appenders = 0 ∷ [];
  form = default_form;
  root = none;
  is_locked = false;
}

-- The root logger, 0, prints by appender 0; logger 1 has no appender; appender 1 has no formatter.
abbrev two_loggers : Logs
two_loggers = record {
  appenders = λ a. if a == 0 then dressed else bare;
  appender_count = 2;
  loggers =
      λ l. if l == 0 then top else record top { name = codes "a"; appenders = []; root = some 0 };
  logger_count = 2;
  table = (codes "a", 1) ∷ (codes "root", 0) ∷ [];
  root = 0;
  is_locked = false;
  output = [];
  files = λ name. [];
}

log_lem_example :
    log never echo hello 2 1 two_loggers
    ≡ done (
      tt,
      printed never echo hello
          (λ a. default_form)
          (texts never echo hello (λ a. default_form) (0 ∷ []))
          two_loggers,
    )
log_lem_example =
    log_lem never echo hello (λ a. default_form) 1 0 two_loggers refl refl refl refl refl tt
      (record { is_stdout = refl; has_form = refl; is_free = refl }, tt)

get_logger-get_logger_example :
    let r = got (codes "b") two_loggers (find (codes "b") two_loggers.table) in
    (get_logger (codes "b") two_loggers ≡ done r) × (get_logger (codes "b") r.1 ≡ done r)
get_logger-get_logger_example = get_logger-get_logger (codes "b") two_loggers refl

all_free : (b : ℕ) → (two_loggers.appenders b).is_locked ≡ false
all_free b = elim (b == 0) as (λ t. (if t then dressed else bare).is_locked ≡ false) [
  | true ↦ refl
  | false ↦ refl
]

set_formatter_lem_example :
    (m : ℕ → Appender) × (L.set_formatter 0 default_form two_loggers
      ≡ done (
        tt,
        record two_loggers {
          appenders = m;
          loggers =
              update two_loggers.loggers 0 (record (two_loggers.loggers 0) { form = default_form });
        },
      ))
    × HandedTo default_form (0 ∷ []) two_loggers.appenders m
set_formatter_lem_example = set_formatter_lem 0 default_form two_loggers refl all_free

log_all-make_file_example :
    (m : Logs) × ((do
      a ← make_file never (codes "x")
      set_formatter a default_form
      log_all never echo a (hello ∷ []))
        two_loggers
      ≡ done (tt, m))
    × ((m.files (codes "x") ≡ []) ⊎ (m.files (codes "x") ≡ []))
log_all-make_file_example =
    log_all-make_file never echo default_form (hello ∷ []) (codes "x") two_loggers

abbrev text_of : Doc → Option Str
text_of (leaf s) = some s
text_of begun = none
text_of (onto d e) = none
text_of (into d k e) = none

abbrev nodes : Nodes Doc Doc
nodes = record {
  yaml = docs;
  field = λ d key. some (last_of key (puts d));
  scalar = leaf;
  text = text_of;
}

-- A logger with an appender of a file, one of standard output, and one of no kind.
abbrev defined : LogDefine
defined = record {
  name = codes "a";
  level = warn;
  form = [];
  appenders =
      (record { kind = 1; level = info; form = codes "%m"; file = codes "x" })
      ∷ (record { kind = 2; level = info; form = []; file = codes "y" })
      ∷ (record { kind = 0; level = info; form = []; file = [] })
      ∷ [];
}

define_of-of_define_example :
    define_of nodes (of_define nodes defined)
    ≡ some (record defined {
      appenders =
          (record { kind = 1; level = unknow; form = codes "%m"; file = codes "x" })
          ∷ (record { kind = 2; level = unknow; form = []; file = [] })
          ∷ [];
    })
define_of-of_define_example =
    define_of-of_define nodes (λ n. refl) (λ s. refl) (pushes_kept begun)
      (λ ns key. ap (λ ms. some (last_of key ms)) (puts_kept begun ns)) defined
