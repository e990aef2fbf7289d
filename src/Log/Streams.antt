-- ===== src/Log/Streams.antt =====
-- What the appenders write, `StdoutLogAppender` and `FileLogAppender` of src/log.cc.
use ztyco.LogFormatter.{LogEvent, format_str}
use ztyco.Base.{
  ℕ, ◌+◌, ◌≡◌, ◌⊎◌, inl, inr, refl, ap, ◌∙◌, Bool, true, false, not, ◌&&◌, none, some, List, [],
  ◌∷◌, ◌++◌, leb, ==_refl, update, if◌then◌else◌, Str, same, arith, Bool-cases,
}
use ztyco.Log.{
  done, LogFormatter, Stream, stdout, file, Appender, Logs, M, ◌>>=◌, ◌>>◌, return, set_appender,
}
use ztyco.Log.Appenders.{
  log, log_kind, set_formatter, make_file, complaint, open_for_write, emptied, written, refreshed,
  after_write, is_good, reopened, write_file, write_out,
}
use ztyco.Log.Sections.{restored, taken, released, under_lock, >>=-done}

unlocked_again : (x : Appender) → x.is_locked ≡ false → x ≡ record x { is_locked = false }
unlocked_again x e = ap (λ b. record x { is_locked = b }) e

module _ (can_open : Str → Bool) (strftime : List ℕ → ℕ → List ℕ) (e : LogEvent) (a : ℕ) (s : Logs)
    (f : LogFormatter) (g : (s.appenders a).form ≡ some f)
    (h : (s.appenders a).is_locked ≡ false) where
  -- An event on a standard output appender.
  pub log_stdout :
      (s.appenders a).kind ≡ stdout
      → log can_open strftime e a s
        ≡ done (tt, record s { output = s.output ++ format_str strftime e f.items })
  unfolding log
  log_stdout k =
      let t = record (taken a s) { output = s.output ++ format_str strftime e f.items } in
      ap (λ kd. log_kind can_open strftime e a kd s) k
      ∙ under_lock a (λ m. write_out strftime e (m.appenders a).form m) s t h
          (rw (==_refl a) (ap (λ o. write_out strftime e o (taken a s)) g))
      ∙ ap
          (λ m.
            done
              (tt, record s { appenders = m; output = s.output ++ format_str strftime e f.items }))
          (rw (==_refl a) (restored s.appenders a _ _ (unlocked_again (s.appenders a) h)))

-- A file appender whose stream has failed, with a formatter and its lock free.
pub record IsDead (s : Logs) (a : ℕ) (name : Str) : Type 0 where
  pub stream : Stream
  pub last : ℕ
  pub form : LogFormatter
  pub is_file : (s.appenders a).kind ≡ file name stream last
  pub has_form : (s.appenders a).form ≡ some form
  pub is_free : (s.appenders a).is_locked ≡ false
  pub is_bad : stream.has_failed ≡ true

-- Opening a file again leaves a failed stream, whatever it was before.
reopened_bad : (can : Bool) (t : Stream) → (reopened can t).0.has_failed ≡ true
unfolding open_for_write
reopened_bad can t = ground arith

emptied_cases :
    (can : Bool) (t : Stream) (name : Str) (files : Str → Str)
    → (emptied can t name files name ≡ files name) ⊎ (emptied can t name files name ≡ [])
emptied_cases can t name files = elim (Bool-cases (same name name && can && not t.is_open)) [
  | inl yes_open ↦ inr (rw yes_open)
  | inr none_open ↦ inl (rw none_open)
]

-- `new FileLogAppender(file)`: its stream has failed.
pub make_file_bad :
    (can_open : Str → Bool) (name : Str) (s : Logs)
    → (t : Stream) × (m : Logs) × (make_file can_open name s ≡ done (s.appender_count, m))
      × ((m.appenders s.appender_count).kind ≡ file name t 0)
      × (t.has_failed ≡ true)
      × ((m.appenders s.appender_count).is_locked ≡ false)
      × ((m.files name ≡ s.files name) ⊎ (m.files name ≡ []))
unfolding make_file
make_file_bad can_open name s =
    let can = can_open name in
    let t = (reopened can (record { is_open = false; has_failed = false })).0 in
    let before : Stream = record { is_open = false; has_failed = true } in
    let a = s.appender_count in
    (
      t,
      record s {
        appenders = update s.appenders a (record {
          kind = file name t 0;
          level = 1;
          form = none;
          has_formatter = false;
          is_locked = false;
        });
        appender_count = a + 1;
        files = emptied can before name s.files;
      },
      refl,
      rw (==_refl a),
      reopened_bad can (record { is_open = false; has_failed = false }),
      rw (==_refl a),
      emptied_cases can before name s.files,
    )

refreshed_bad :
    (can_open : Str → Bool) (now last : ℕ) (name : Str) (t : Stream) (files : Str → Str)
    → t.has_failed ≡ true
    → let r = refreshed can_open now last name t files in
      (r.1.has_failed ≡ true) × ((r.2 name ≡ files name) ⊎ (r.2 name ≡ []))
refreshed_bad can_open now last name t files h = elim (Bool-cases (leb (last + 3) now)) [
  | inl late ↦
      let before =
        if t.has_failed
        then t
        else (if t.is_open then record t { is_open = false } else record t { has_failed = true }) in
      rw late (reopened_bad (can_open name) t, emptied_cases (can_open name) before name files)
  | inr early ↦ rw early (h, inl refl)
]

bad_stream : (t : Stream) → t.has_failed ≡ true → is_good t ≡ false
bad_stream t h = ground (arith, h)

written_bad :
    (t : Stream) (name text : Str) (files : Str → Str) (n : Str)
    → t.has_failed ≡ true
    → written t name text files n ≡ files n
written_bad t name text files n h =
    rw (bad_stream t h)
      (elim (same name n) as (λ b. (if b && false then files n ++ text else files n) ≡ files n) [
        | true ↦ refl
        | false ↦ refl
      ])

-- One event on it: nothing is written, the file is at most emptied, and it stays as it is.
IsDead-log :
    (can_open : Str → Bool) (strftime : List ℕ → ℕ → List ℕ) (e : LogEvent) (a : ℕ) (s : Logs)
    (name : Str)
    → IsDead s a name
    → (m : Logs) × (log can_open strftime e a s ≡ done (tt, m))
      × IsDead m a name
      × ((m.files name ≡ s.files name) ⊎ (m.files name ≡ []))
unfolding log
IsDead-log can_open strftime e a s name d =
    let r = refreshed can_open e.time d.last name d.stream s.files in
    let bad = refreshed_bad can_open e.time d.last name d.stream s.files d.is_bad in
    let text = format_str strftime e d.form.items in
    let x = record (s.appenders a) { kind = file name r.1 r.0 } in
    let s1 = record s { appenders = update s.appenders a x; files = r.2 } in
    let y = record x { is_locked = true } in
    let s2 = record s {
      appenders =
          update (update (update s.appenders a x) a y) a
            (record y { kind = file name (after_write r.1) r.0 });
      files = written r.1 name text r.2;
      output = s.output ++ complaint r.1;
    } in
    (
      released a s2,
      ap (λ kd. log_kind can_open strftime e a kd s) d.is_file
          ∙ under_lock a (λ m. write_file strftime e a (m.appenders a) (m.appenders a).form m) s1 s2
              (rw (==_refl a) d.is_free)
              (rw (==_refl a) (
                ap
                  (λ o.
                    write_file strftime e a y o
                      (record s1 { appenders = update (update s.appenders a x) a y }))
                  d.has_form)),
      record {
        stream = after_write r.1;
        last = r.0;
        form = d.form;
        is_file = rw (==_refl a);
        has_form = rw (==_refl a) d.has_form;
        is_free = rw (==_refl a);
        is_bad = ap not (bad_stream r.1 bad.0);
      },
      rw (written_bad r.1 name text r.2 name bad.0) bad.1,
    )

-- The calls for a list of events, one behind the other.
abbrev pub log_all : (Str → Bool) → (List ℕ → ℕ → List ℕ) → ℕ → List LogEvent → M (Unit {0})
log_all can_open strftime a [] = return tt
log_all can_open strftime a (e ∷ es) = do log can_open strftime e a; log_all can_open strftime a es

IsDead-log_all :
    (can_open : Str → Bool) (strftime : List ℕ → ℕ → List ℕ) (a : ℕ) (es : List LogEvent) (s : Logs)
    (name : Str)
    → IsDead s a name
    → (m : Logs) × (log_all can_open strftime a es s ≡ done (tt, m))
      × ((m.files name ≡ s.files name) ⊎ (m.files name ≡ []))
IsDead-log_all can_open strftime a [] s name d = (s, refl, inl refl)
IsDead-log_all can_open strftime a (e ∷ es) s name d =
    let (t, run, dead, first) = IsDead-log can_open strftime e a s name d in
    let (m, more, rest) = IsDead-log_all can_open strftime a es t name dead in
    (
      m,
      >>=-done (log can_open strftime e a) (λ _. log_all can_open strftime a es) s t tt run ∙ more,
      elim rest [
        | inr gone ↦ inr gone
        | inl kept ↦ elim first [ inl before ↦ inl (kept ∙ before) | inr gone ↦ inr (kept ∙ gone) ]
      ],
    )

-- A file appender that is made, given a formatter and then any events, whichever files can be
-- opened: every call returns, and not a character of the events gets into the file, which stays as
-- it was or is emptied.
pub log_all-make_file :
    (can_open : Str → Bool) (strftime : List ℕ → ℕ → List ℕ) (f : LogFormatter) (es : List LogEvent)
    (name : Str) (s : Logs)
    → (m : Logs) × ((do
      a ← make_file can_open name
      set_formatter a f
      log_all can_open strftime a es)
          s
        ≡ done (tt, m))
      × ((m.files name ≡ s.files name) ⊎ (m.files name ≡ []))
unfolding set_formatter
log_all-make_file can_open strftime f es name s =
    let a = s.appender_count in
    let (t, s1, made, is_file, bad, free, first) = make_file_bad can_open name s in
    let y = record ((taken a s1).appenders a) { form = some f; has_formatter = true } in
    let s2 = record s1 { appenders = update (taken a s1).appenders a y } in
    let s3 = released a s2 in
    let set =
      under_lock a
        (λ m. set_appender a (record (m.appenders a) { form = some f; has_formatter = true }) m) s1
        s2 free refl in
    let dead : IsDead s3 a name = record {
      stream = t;
      last = 0;
      form = f;
      is_file = rw (==_refl a) is_file;
      has_form = rw (==_refl a);
      is_free = rw (==_refl a);
      is_bad = bad;
    } in
    let (m, run, rest) = IsDead-log_all can_open strftime a es s3 name dead in
    (
      m,
      >>=-done (make_file can_open name) (λ b. set_formatter b f >> log_all can_open strftime b es)
            s s1 a made
          ∙ >>=-done (set_formatter a f) (λ _. log_all can_open strftime a es) s1 s3 tt set
          ∙ run,
      elim rest [
        | inr gone ↦ inr gone
        | inl kept ↦ elim first [ inl before ↦ inl (kept ∙ before) | inr gone ↦ inr (kept ∙ gone) ]
      ],
    )
