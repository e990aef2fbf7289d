-- ===== src/Log/Settings.antt =====
-- Formatters and appenders of the loggers, and the start of the log: src/log.cc.
use ztyco.Base.{
  ℕ, ◌+◌, ◌≡◌, refl, ap, sym, ◌∙◌, true, false, Option, none, some, List, [], ◌∷◌, ◌++◌, ==_refl,
  update, Str,
}
use ztyco.Log.{
  Run, stdout, done, stuck, LogFormatter, Logs, M, ◌>>=◌, ◌>>◌, lock_appender, lock_logger,
  unlock_logger, set_logger, new_formatter,
}
use ztyco.Log.Appenders as A
use ztyco.Log.Appenders.{get_formatter, make_stdout, new_appender}
use ztyco.Log.Loggers.{add_appender, give_formatter}
use ztyco.Log.Manager.{start, make_logger, default_pattern}
use ztyco.Log.Level.{codes}
use ztyco.LogFormatter.{FormatItem, Formatter, formatter, bad_read, init, build}
use ztyco.Log.Sections.{restored, rewritten, >>=-done, taken, taken_logger}

>>=-stuck : {A B : Type 0} (m : M A) (f : A → M B) (s : Logs) → m s ≡ stuck → (m >>= f) s ≡ stuck
>>=-stuck m f s e = rw (e, ◌>>=◌)

get_formatter_lem :
    (a : ℕ) (s : Logs)
    → (s.appenders a).is_locked ≡ false
    → get_formatter a s ≡ done ((s.appenders a).form, s)
unfolding get_formatter
get_formatter_lem a s h =
    >>=-done (lock_appender a) _ s (taken a s) tt (rw h)
    ∙ rw (==_refl a) (
        ap (λ m. done ((s.appenders a).form, record s { appenders = m }))
          (restored s.appenders a (record (s.appenders a) { is_locked = false })
            (record (s.appenders a) { is_locked = true })
            (ap (λ b. record (s.appenders a) { is_locked = b }) h)))

-- The store with an appender added to a logger.
abbrev pub with_appender : ℕ → ℕ → Logs → Logs
with_appender l a s = record s {
  loggers =
      update s.loggers l (record (s.loggers l) { appenders = (s.loggers l).appenders ++ a ∷ [] });
}

abbrev pub added : ℕ → ℕ → Logs → Option LogFormatter → Run (Unit {0} × Logs)
added l a s none = stuck
added l a s (some f) = done (tt, with_appender l a s)

locked_set :
    (a : ℕ) (f : LogFormatter) (s : Logs)
    → (s.appenders a).is_locked ≡ true
    → A.set_formatter a f s ≡ stuck
unfolding A.set_formatter
locked_set a f s h = >>=-stuck (lock_appender a) _ s (rw h)

-- `addAppender` behind the look at the appender's formatter.
abbrev add_rest : ℕ → ℕ → Option LogFormatter → M (Unit {0})
add_rest l a f = do
  give_formatter l a f
  λ s. set_logger l (record (s.loggers l) { appenders = (s.loggers l).appenders ++ a ∷ [] }) s
  unlock_logger l

add_rest_lem :
    (l a : ℕ) (s : Logs) (f : Option LogFormatter)
    → (s.loggers l).is_locked ≡ false
    → (s.appenders a).is_locked ≡ false
    → add_rest l a f (taken_logger l s) ≡ added l a s f
add_rest_lem l a s none free_logger free =
    let s1 = taken_logger l s in
    >>=-stuck (give_formatter l a none) _ s1 (
      >>=-done (lock_appender a) _ s1 (taken a s1) tt (rw free)
      ∙ >>=-stuck (λ m. A.set_formatter a (m.loggers l).form m) _ (taken a s1)
          (locked_set a _ (taken a s1) (rw (==_refl a))))
add_rest_lem l a s (some f) free_logger free =
    let x = s.loggers l in
    let own = x.appenders ++ a ∷ [] in
    let y = record x { is_locked = true } in
    rw (==_refl l) (
      ap (λ m. done (tt, record s { loggers = m }))
        (rewritten (update s.loggers l y) l (record x { appenders = own; is_locked = false })
            (record y { appenders = own })
          ∙ rewritten s.loggers l (record x { appenders = own; is_locked = false }) y
          ∙ ap (λ b. update s.loggers l (record x { appenders = own; is_locked = b }))
              (sym free_logger)))

-- Adding an appender to a logger, both locks free: one with a formatter comes to the end of the
-- logger's appenders; for one without, the thread waits for ever for a lock that it holds.
add_appender_lem :
    (l a : ℕ) (s : Logs)
    → (s.loggers l).is_locked ≡ false
    → (s.appenders a).is_locked ≡ false
    → add_appender l a s ≡ added l a s (s.appenders a).form
unfolding add_appender
add_appender_lem l a s free_logger free =
    let s1 = taken_logger l s in
    >>=-done (lock_logger l) _ s s1 tt (rw free_logger)
    ∙ >>=-done (get_formatter a) (add_rest l a) s1 s1 (s.appenders a).form
        (get_formatter_lem a s1 free)
    ∙ add_rest_lem l a s (s.appenders a).form free_logger free

abbrev pub items_of : Formatter → List FormatItem
items_of (formatter items bad) = items
items_of bad_read = []

-- The formatter of a new logger.
abbrev pub default_form : LogFormatter
default_form = record {
  pattern = default_pattern;
  items = items_of (init default_pattern);
  is_error = false;
}

default_form_lem : (s : Logs) → new_formatter default_pattern s ≡ done (default_form, s)
unfolding new_formatter init build
default_form_lem s = refl

-- The store with one more logger.
abbrev pub with_logger : Str → Option ℕ → Logs → Logs
with_logger name root s = record s {
  loggers = update s.loggers s.logger_count (record {
    name = name;
    level = 1;
    appenders = [];
    form = default_form;
    root = root;
    is_locked = false;
  });
  logger_count = s.logger_count + 1;
}

pub make_logger_lem :
    (name : Str) (root : Option ℕ) (s : Logs)
    → make_logger name root s ≡ done (s.logger_count, with_logger name root s)
unfolding make_logger
make_logger_lem name root s =
    >>=-done (new_formatter default_pattern) _ s s default_form (default_form_lem s)

make_stdout_lem :
    (s : Logs)
    → (m : Logs) × (make_stdout s ≡ done (s.appender_count, m))
      × (m.loggers ≡ s.loggers)
      × ((m.appenders s.appender_count).form ≡ none)
      × ((m.appenders s.appender_count).is_locked ≡ false)
unfolding make_stdout
make_stdout_lem s = (
  record s {
    appenders = update s.appenders s.appender_count (new_appender stdout);
    appender_count = s.appender_count + 1;
  },
  refl,
  refl,
  rw (==_refl s.appender_count),
  rw (==_refl s.appender_count),
)

-- The constructor of the logger manager never returns, whatever is in the store.
start_lem : (s : Logs) → start s ≡ stuck
unfolding start
start_lem s =
    let l = s.logger_count in
    let a = s.appender_count in
    let s1 = with_logger (codes "root") none s in
    let s2 = record s1 { root = l } in
    let (s3, made, kept, bare, free) = make_stdout_lem s2 in
    let open_lock : (s3.loggers l).is_locked ≡ false =
      ap (λ m. (m l).is_locked) kept ∙ rw (==_refl l) in
    let listed : M (Unit {0}) = λ m. done (tt, record m { table = (codes "root", l) ∷ m.table }) in
    >>=-done (make_logger (codes "root") none) _ s s1 l (make_logger_lem (codes "root") none s)
    ∙ >>=-done make_stdout (λ b. add_appender l b >> listed) s2 s3 a made
    ∙ >>=-stuck (add_appender l a) (λ _. listed) s3
        (add_appender_lem l a s3 open_lock free ∙ ap (added l a s3) bare)
