-- ===== src/Log/Loggers.antt =====
-- The loggers, `Logger` of src/log.cc.
use ztyco.LogFormatter.{LogEvent}
use ztyco.Base.{
  ℕ, zero, suc, Bool, Option, none, some, List, [], ◌∷◌, ◌++◌, ◌==◌, if◌then◌else◌, Str,
}
use ztyco.Log.{
  stuck, LogFormatter, M, ◌>>=◌, ◌>>◌, return, set_appender, set_logger, lock_appender,
  unlock_appender, lock_logger, unlock_logger, new_formatter,
}
use ztyco.Log.Appenders as A
use ztyco.Log.Appenders.{get_formatter}

abbrev pub set_level : ℕ → ℕ → M (Unit {0})
set_level l level s = set_logger l (record (s.loggers l) { level = level }) s

-- One appender of `Logger::setFormatter`, under its lock.
abbrev pub hand_formatter : LogFormatter → ℕ → M (Unit {0})
hand_formatter f a = do
  lock_appender a
  λ s.
      let x = s.appenders a in
      if x.has_formatter then return tt s else set_appender a (record x { form = some f }) s
  unlock_appender a

abbrev pub hand_all : LogFormatter → List ℕ → M (Unit {0})
hand_all f [] = return tt
hand_all f (a ∷ as') = do hand_formatter f a; hand_all f as'

-- `Logger::setFormatter` of a formatter.
unfoldable pub set_formatter : ℕ → LogFormatter → M (Unit {0})
set_formatter l f = do
  lock_logger l
  λ s. set_logger l (record (s.loggers l) { form = f }) s
  λ s. hand_all f (s.loggers l).appenders s
  unlock_logger l

-- `Logger::setFormatter` of a pattern: one with an error is refused.
unfoldable pub set_pattern : ℕ → Str → M (Unit {0})
unfolding set_formatter
set_pattern l pattern = do
  f ← new_formatter pattern
  if f.is_error then return tt else set_formatter l f

-- The branch of `addAppender` for an appender without a formatter: it calls `setFormatter` under
-- the lock that `setFormatter` takes.
abbrev pub give_formatter : ℕ → ℕ → Option LogFormatter → M (Unit {0})
give_formatter l a (some f) = return tt
give_formatter l a none = do
  lock_appender a
  λ s. A.set_formatter a (s.loggers l).form s
  unlock_appender a

-- `Logger::addAppender`
unfoldable pub add_appender : ℕ → ℕ → M (Unit {0})
unfolding get_formatter A.set_formatter
add_appender l a = do
  lock_logger l
  f ← get_formatter a
  give_formatter l a f
  λ s. set_logger l (record (s.loggers l) { appenders = (s.loggers l).appenders ++ a ∷ [] }) s
  unlock_logger l

-- `m_appenders.erase` of the first that is the appender.
abbrev pub erase : ℕ → List ℕ → List ℕ
erase a [] = []
erase a (x ∷ xs) = let rest = erase a xs in if x == a then xs else x ∷ rest

-- `Logger::delAppender` and `Logger::clearAppender`
unfoldable pub del_appender : ℕ → ℕ → M (Unit {0})
del_appender l a = do
  lock_logger l
  λ s. set_logger l (record (s.loggers l) { appenders = erase a (s.loggers l).appenders }) s
  unlock_logger l

unfoldable pub clear_appender : ℕ → M (Unit {0})
clear_appender l = do
  lock_logger l
  λ s. set_logger l (record (s.loggers l) { appenders = [] }) s
  unlock_logger l

module _ (can_open : Str → Bool) (strftime : List ℕ → ℕ → List ℕ) (e : LogEvent) where
  abbrev pub log_each : List ℕ → M (Unit {0})
  log_each [] = return tt
  log_each (a ∷ as') = do A.log can_open strftime e a; log_each as'

  -- `Logger::log`: the appenders, or where there are none the root logger, whose call is `up`.
  abbrev pub log_body : (ℕ → M (Unit {0})) → List ℕ → Option ℕ → M (Unit {0})
  log_body up [] none = return tt
  log_body up [] (some r) = up r
  log_body up (a ∷ as') root = log_each (a ∷ as')

  -- The depth is the number of loggers on the way to the root.
  unfoldable pub log : ℕ → ℕ → M (Unit {0})
  log zero l = λ s. stuck
  log (suc depth) l = do
    lock_logger l
    λ s. log_body (log depth) (s.loggers l).appenders (s.loggers l).root s
    unlock_logger l
