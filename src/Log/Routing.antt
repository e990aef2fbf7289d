-- ===== src/Log/Routing.antt =====
-- Where an event goes, `Logger::log` of src/log.cc.
use mathlib.Core.List.{append-nil, append_assoc}
use ztyco.LogFormatter.{LogEvent, format_str}
use ztyco.Base.{
  ℕ, suc, ◌≡◌, ◌⊎◌, refl, ap, sym, ◌∙◌, inl, inr, Bool, false, Option, none, some, List, [], ◌∷◌,
  ◌++◌, ◌==◌, ==_refl, if◌then◌else◌, is_empty, Str, All, subst,
}
use ztyco.Log.{done, LogFormatter, stdout, Logger, Logs, M}
use ztyco.Log.Appenders as A
use ztyco.Log.Loggers.{log, log_each, log_body}
use ztyco.Log.Sections.{>>=-done, taken_logger, under_logger_lock, relocked}
use ztyco.Log.Streams.{log_stdout}

-- An appender of standard output with a formatter, and its lock free.
pub record IsReady (s : Logs) (forms : ℕ → LogFormatter) (a : ℕ) : Type 0 where
  pub is_stdout : (s.appenders a).kind ≡ stdout
  pub has_form : (s.appenders a).form ≡ some (forms a)
  pub is_free : (s.appenders a).is_locked ≡ false

list_cases : (xs : List ℕ) → (xs ≡ []) ⊎ (is_empty xs ≡ false)
list_cases [] = inl refl
list_cases (x ∷ xs) = inr refl

IsReady-in :
    (s t : Logs) (forms : ℕ → LogFormatter) (rest : List ℕ)
    → t.appenders ≡ s.appenders
    → All (IsReady s forms) rest
    → All (IsReady t forms) rest
IsReady-in s t forms [] e h = tt
IsReady-in s t forms (a ∷ rest) e h = (
  record {
    is_stdout = ap (λ m. (m a).kind) e ∙ h.0.is_stdout;
    has_form = ap (λ m. (m a).form) e ∙ h.0.has_form;
    is_free = ap (λ m. (m a).is_locked) e ∙ h.0.is_free;
  },
  IsReady-in s t forms rest e h.1,
)

module _ (can_open : Str → Bool) (strftime : List ℕ → ℕ → List ℕ) (e : LogEvent)
    (forms : ℕ → LogFormatter) where
  -- What the appenders print of an event, in their order.
  abbrev pub texts : List ℕ → Str
  texts [] = []
  texts (a ∷ rest) = format_str strftime e (forms a).items ++ texts rest

  abbrev pub printed : Str → Logs → Logs
  printed text s = record s { output = s.output ++ text }

  log_each_lem :
      (rest : List ℕ) (s : Logs)
      → All (IsReady s forms) rest
      → log_each can_open strftime e rest s ≡ done (tt, printed (texts rest) s)
  log_each_lem [] s h = ap (λ o. done (tt, record s { output = o })) (sym (append-nil s.output))
  log_each_lem (a ∷ rest) s h =
      let r = h.0 in
      let text = format_str strftime e (forms a).items in
      >>=-done (A.log can_open strftime e a) (λ _. log_each can_open strftime e rest) s
        (printed text s) tt
        (log_stdout can_open strftime e a s (forms a) r.has_form r.is_free r.is_stdout)
      ∙ log_each_lem rest (printed text s) (IsReady-in s (printed text s) forms rest refl h.1)
      ∙ ap (λ o. done (tt, record s { output = o })) (append_assoc s.output text (texts rest))

  body_own :
      (up : ℕ → M (Unit {0})) (own : List ℕ) (root : Option ℕ) (m : Logs)
      → root ≡ none ⊎ is_empty own ≡ false
      → All (IsReady m forms) own
      → log_body can_open strftime e up own root m ≡ done (tt, printed (texts own) m)
  body_own up [] root m (inl top) h =
      ap (λ r. log_body can_open strftime e up [] r m) top ∙ log_each_lem [] m h
  body_own up [] root m (inr more) h = cc
  body_own up (a ∷ rest) root m top h = log_each_lem (a ∷ rest) m h

  -- A logger with appenders of its own, or without a logger above it.
  log_own :
      (depth l : ℕ) (s : Logs)
      → (s.loggers l).is_locked ≡ false
      → (s.loggers l).root ≡ none ⊎ is_empty (s.loggers l).appenders ≡ false
      → All (IsReady s forms) (s.loggers l).appenders
      → log can_open strftime e (suc depth) l s
        ≡ done (tt, printed (texts (s.loggers l).appenders) s)
  unfolding log
  log_own depth l s free top ready =
      let s1 = taken_logger l s in
      let own = texts (s.loggers l).appenders in
      let body = λ (m : Logs).
        log_body can_open strftime e (log can_open strftime e depth) (m.loggers l).appenders
          (m.loggers l).root m in
      under_logger_lock l body s (printed own s1) free (
        rw (==_refl l) (
          body_own (log can_open strftime e depth) (s.loggers l).appenders (s.loggers l).root s1 top
            (IsReady-in s s1 forms (s.loggers l).appenders refl ready)))
      ∙ ap (λ m. done (tt, record s { loggers = m; output = s.output ++ own })) (relocked s l free)

  -- A logger without appenders, below one at the top.
  log_up :
      (l r : ℕ) (s : Logs)
      → (s.loggers l).is_locked ≡ false
      → (s.loggers r).is_locked ≡ false
      → (l == r) ≡ false
      → (s.loggers l).root ≡ some r
      → (s.loggers r).root ≡ none
      → (s.loggers l).appenders ≡ []
      → All (IsReady s forms) (s.loggers r).appenders
      → log can_open strftime e 2 l s ≡ done (tt, printed (texts (s.loggers r).appenders) s)
  unfolding log
  log_up l r s free free_root apart below top bare ready =
      let s1 = taken_logger l s in
      let theirs = texts (s.loggers r).appenders in
      let body = λ (m : Logs).
        log_body can_open strftime e (log can_open strftime e 1) (m.loggers l).appenders
          (m.loggers l).root m in
      let same_root : s1.loggers r ≡ s.loggers r = rw apart in
      let upper =
        log_own 0 r s1 (ap (λ x. x.is_locked) same_root ∙ free_root)
          (inl (ap (λ x. x.root) same_root ∙ top))
          (subst (λ (x : Logger). All (IsReady s1 forms) x.appenders) (sym same_root)
            (IsReady-in s s1 forms (s.loggers r).appenders refl ready)) in
      let up = log can_open strftime e 1 in
      let none_here : (s1.loggers l).appenders ≡ [] = rw (==_refl l) bare in
      let above : (s1.loggers l).root ≡ some r = rw (==_refl l) below in
      under_logger_lock l body s (printed theirs s1) free (
        ap (λ own. log_body can_open strftime e up own (s1.loggers l).root s1) none_here
        ∙ ap (λ root. log_body can_open strftime e up [] root s1) above
        ∙ upper
        ∙ ap (λ (x : Logger). done (tt, printed (texts x.appenders) s1)) same_root)
      ∙ ap (λ m. done (tt, record s { loggers = m; output = s.output ++ theirs }))
          (relocked s l free)

  -- A logger below the root logger, all locks free, the appenders of both on standard output and
  -- with formatters. An event that it is given is printed by each of its own appenders once, in
  -- their order, and where it has none by those of the root logger; nothing else changes, and two
  -- loggers deep are enough.
  pub log_lem :
      (l r : ℕ) (s : Logs)
      → (s.loggers l).is_locked ≡ false
      → (s.loggers r).is_locked ≡ false
      → (l == r) ≡ false
      → (s.loggers l).root ≡ some r
      → (s.loggers r).root ≡ none
      → All (IsReady s forms) (s.loggers l).appenders
      → All (IsReady s forms) (s.loggers r).appenders
      → log can_open strftime e 2 l s
        ≡ done (
          tt,
          printed
              (texts (
                if is_empty (s.loggers l).appenders
                then (s.loggers r).appenders
                else (s.loggers l).appenders))
              s,
        )
  log_lem l r s free free_root apart below top ready upper =
      elim (list_cases (s.loggers l).appenders) [
        | inl bare ↦
            log_up l r s free free_root apart below top bare upper
            ∙ ap
                (λ b. done (
                  tt,
                  printed (texts (if b then (s.loggers r).appenders else (s.loggers l).appenders))
                      s,
                ))
                (sym (ap is_empty bare))
        | inr more ↦
            log_own 1 l s free (inr more) ready
            ∙ ap
                (λ b. done (
                  tt,
                  printed (texts (if b then (s.loggers r).appenders else (s.loggers l).appenders))
                      s,
                ))
                (sym more)
      ]
