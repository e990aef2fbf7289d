-- ===== src/Log/Names.antt =====
-- Loggers by name, and the formatter that a logger hands to its appenders: src/log.cc.
use ztyco.Base.{
  ℕ, ◌≡◌, refl, ap, sym, ◌∙◌, inl, inr, Bool, true, false, Option, none, some, List, [], ◌∷◌, ◌==◌,
  ==_refl, ==_iff, update, if◌then◌else◌, Str, same_refl, mem, arith, Bool-cases,
}
use ztyco.Log.{
  done, LogFormatter, Appender, Logs, ◌>>◌, return, set_appender, lock_logger, unlock_logger,
}
use ztyco.Log.Loggers.{set_formatter, hand_formatter, hand_all}
use ztyco.Log.Manager.{get_logger, make_logger, find, find_or_make, lock_manager, unlock_manager}
use ztyco.Log.Settings.{with_logger, make_logger_lem}
use ztyco.Log.Sections.{
  rewritten, >>=-done, taken, released, under_lock, taken_logger, released_logger,
}

-- The store in which the manager knows one more logger, below the root.
abbrev pub with_name : Str → Logs → Logs
with_name name s =
    let m = with_logger name (some s.root) s in
    record m { table = (name, s.logger_count) ∷ s.table }

abbrev pub got : Str → Logs → Option ℕ → ℕ × Logs
got name s (some l) = (l, s)
got name s none = (s.logger_count, with_name name s)

find_or_make_lem :
    (name : Str) (s : Logs) (found : Option ℕ) → find_or_make name found s ≡ done (got name s found)
find_or_make_lem name s (some l) = refl
find_or_make_lem name s none =
    >>=-done (λ m. make_logger name (some m.root) m) _ s (with_logger name (some s.root) s)
      s.logger_count (make_logger_lem name (some s.root) s)

unlocked :
    (name : Str) (s : Logs) (found : Option ℕ)
    → s.is_locked ≡ false
    → let r = got name (record s { is_locked = true }) found in
      (unlock_manager >> return r.0) r.1 ≡ done (got name s found)
unlocked name s (some l) free = ap (λ b. done (l, record s { is_locked = b })) (sym free)
unlocked name s none free =
    ap (λ b. done (s.logger_count, record (with_name name s) { is_locked = b })) (sym free)

get_logger_once :
    (name : Str) (s : Logs)
    → s.is_locked ≡ false
    → get_logger name s ≡ done (got name s (find name s.table))
unfolding get_logger
get_logger_once name s free =
    let s1 = record s { is_locked = true } in
    let found = find name s.table in
    let r = got name s1 found in
    >>=-done lock_manager _ s s1 tt (rw free)
    ∙ >>=-done (λ m. find_or_make name (find name m.table) m) (λ l. unlock_manager >> return l) s1
        r.1 r.0 (find_or_make_lem name s1 found)
    ∙ unlocked name s found free

again :
    (name : Str) (s : Logs) (found : Option ℕ)
    → find name s.table ≡ found
    → s.is_locked ≡ false
    → get_logger name (got name s found).1 ≡ done (got name s found)
again name s (some l) e free = get_logger_once name s free ∙ ap (λ o. done (got name s o)) e
again name s none e free =
    get_logger_once name (with_name name s) free
    ∙ ap
        (λ b.
          done (got name (with_name name s) (if b then some s.logger_count else find name s.table)))
        (same_refl name)

-- `getLogger`, the manager's lock free: it returns the logger of the name, or a new one below the
-- root without an appender; and asked again for the name it returns that same logger and changes
-- nothing.
pub get_logger-get_logger :
    (name : Str) (s : Logs)
    → s.is_locked ≡ false
    → let r = got name s (find name s.table) in
      (get_logger name s ≡ done r) × (get_logger name r.1 ≡ done r)
get_logger-get_logger name s free =
    (get_logger_once name s free, again name s (find name s.table) refl free)

-- One appender that is handed a formatter.
abbrev pub handed : LogFormatter → Appender → Appender
handed f x = if x.has_formatter then x else record x { form = some f }

handed_free : (f : LogFormatter) (x : Appender) → (handed f x).is_locked ≡ x.is_locked
handed_free f x = elim (Bool-cases x.has_formatter) [ inl own ↦ rw own | inr bare ↦ rw bare ]

abbrev handed_in : LogFormatter → ℕ → Logs → Logs
handed_in f a s = record s { appenders = update s.appenders a (handed f (s.appenders a)) }

-- The body under the appender's lock.
hand_body :
    (f : LogFormatter) (a : ℕ) (s : Logs) (b : Bool)
    → (s.appenders a).has_formatter ≡ b
    → (m : Logs) × ((if b
          then return tt (taken a s)
          else set_appender a (record ((taken a s).appenders a) { form = some f }) (taken a s))
        ≡ done (tt, m))
      × (released a m ≡ record s {
        appenders = update s.appenders a (record (handed f (s.appenders a)) { is_locked = false });
      })
hand_body f a s true e = (
  taken a s,
  refl,
  rw (==_refl a, e) (ap (λ m. record s { appenders = m }) (rewritten s.appenders a _ _)),
)
hand_body f a s false e = (
  record s {
    appenders = update (taken a s).appenders a (record ((taken a s).appenders a) { form = some f });
  },
  refl,
  rw (==_refl a, e)
      (ap (λ m. record s { appenders = m }) (rewritten _ a _ _ ∙ rewritten s.appenders a _ _)),
)

hand_one :
    (f : LogFormatter) (a : ℕ) (s : Logs)
    → (s.appenders a).is_locked ≡ false
    → hand_formatter f a s ≡ done (tt, handed_in f a s)
hand_one f a s free =
    let x = s.appenders a in
    let body = λ (m : Logs).
      if (m.appenders a).has_formatter
      then return tt m
      else set_appender a (record (m.appenders a) { form = some f }) m in
    let (m, run, end) = hand_body f a s x.has_formatter refl in
    let here : (taken a s).appenders a ≡ record x { is_locked = true } = rw (==_refl a) in
    under_lock a body s m free (
      ap
        (λ (y : Appender).
          if y.has_formatter
          then return tt (taken a s)
          else set_appender a (record ((taken a s).appenders a) { form = some f }) (taken a s))
        here
      ∙ run)
    ∙ ap (λ t. done (tt, t)) end
    ∙ ap
        (λ b. done (
          tt,
          record s { appenders = update s.appenders a (record (handed f x) { is_locked = b }) },
        ))
        (sym (handed_free f x ∙ free))

handed_twice : (f : LogFormatter) (x : Appender) → handed f (handed f x) ≡ handed f x
handed_twice f x = elim (Bool-cases x.has_formatter) [ inl own ↦ rw own | inr bare ↦ rw bare ]

-- What the appenders are once those of a list were handed a formatter.
abbrev pub HandedTo : LogFormatter → List ℕ → (ℕ → Appender) → (ℕ → Appender) → Type 0
HandedTo f own before after =
    (b : ℕ) → after b ≡ (if mem b own then handed f (before b) else before b)

hand_step :
    (f : LogFormatter) (before : ℕ → Appender) (a b : ℕ) (own : List ℕ)
    → let after = update before a (handed f (before a)) in
      (if mem b own then handed f (after b) else after b)
      ≡ (if mem b (a ∷ own) then handed f (before b) else before b)
hand_step f before a b own = elim (Bool-cases (a == b)) [
  | inl here ↦
      let e : a ≡ b = (==_iff a b).0 here in
      let there : (b == a) ≡ true = ground arith in
      let to_b = ap (λ c. handed f (before c)) e in
      elim (Bool-cases (mem b own)) [
        | inl more ↦ rw (here, there, more) (handed_twice f (before a) ∙ to_b)
        | inr last ↦ rw (here, there, last) to_b
      ]
  | inr away ↦ let apart : (b == a) ≡ false = ground arith in rw (away, apart)
]

hand_all_lem :
    (f : LogFormatter) (own : List ℕ) (s : Logs)
    → ((b : ℕ) → (s.appenders b).is_locked ≡ false)
    → (m : ℕ → Appender) × (hand_all f own s ≡ done (tt, record s { appenders = m }))
      × HandedTo f own s.appenders m
hand_all_lem f [] s free = (s.appenders, refl, λ b. refl)
hand_all_lem f (a ∷ own) s free =
    let s1 = handed_in f a s in
    let still : (b : ℕ) → (s1.appenders b).is_locked ≡ false = λ b. elim (Bool-cases (a == b)) [
      | inl here ↦ rw here (handed_free f (s.appenders a) ∙ free a)
      | inr away ↦ rw away (free b)
    ] in
    let (m, run, after) = hand_all_lem f own s1 still in
    (
      m,
      >>=-done (hand_formatter f a) (λ _. hand_all f own) s s1 tt (hand_one f a s (free a)) ∙ run,
      λ b. after b ∙ hand_step f s.appenders a b own,
    )

abbrev with_form : ℕ → LogFormatter → Logs → Logs
with_form l f s = record s { loggers = update s.loggers l (record (s.loggers l) { form = f }) }

reformed :
    (l : ℕ) (f : LogFormatter) (s : Logs)
    → (s.loggers l).is_locked ≡ false
    → (released_logger l (with_form l f (taken_logger l s))).loggers ≡ (with_form l f s).loggers
reformed l f s free =
    let x = s.loggers l in
    rw (==_refl l) (
      rewritten _ l _ _
      ∙ rewritten s.loggers l _ _
      ∙ ap (λ b. update s.loggers l (record x { form = f; is_locked = b })) (sym free))

-- `setFormatter` of a logger, all locks free: the logger has the formatter, and so has each of its
-- appenders that was not given one of its own; no other appender changes, nor any other logger.
pub set_formatter_lem :
    (l : ℕ) (f : LogFormatter) (s : Logs)
    → (s.loggers l).is_locked ≡ false
    → ((b : ℕ) → (s.appenders b).is_locked ≡ false)
    → (m : ℕ → Appender) × (set_formatter l f s
        ≡ done (
          tt,
          record s {
            appenders = m;
            loggers = update s.loggers l (record (s.loggers l) { form = f });
          },
        ))
      × HandedTo f (s.loggers l).appenders s.appenders m
unfolding set_formatter
set_formatter_lem l f s free_logger free =
    let x = s.loggers l in
    let s1 = with_form l f (taken_logger l s) in
    let (m, run, after) = hand_all_lem f x.appenders s1 free in
    let own : (s1.loggers l).appenders ≡ x.appenders = rw (==_refl l) in
    (
      m,
      >>=-done (lock_logger l) _ s (taken_logger l s) tt (rw free_logger)
          ∙ >>=-done (λ t. hand_all f (t.loggers l).appenders t) (λ _. unlock_logger l) s1
              (record s1 { appenders = m }) tt (ap (λ o. hand_all f o s1) own ∙ run)
          ∙ ap (λ t. done (tt, record s { appenders = m; loggers = t }))
              (reformed l f s free_logger),
      after,
    )
