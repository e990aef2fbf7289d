-- ===== src/Log/Appenders.antt =====
-- The appenders, src/log.cc: their formatters, and what they write.
use ztyco.LogFormatter.{LogEvent, format_str}
use ztyco.Base.{
  ℕ, ◌+◌, Bool, true, false, not, ◌&&◌, ◌||◌, Option, none, some, List, [], ◌++◌, leb, update,
  if◌then◌else◌, Str, same,
}
use ztyco.Log.Level.{codes}
use ztyco.Log.{
  Run, done, stuck, crashed, LogFormatter, Stream, Kind, stdout, file, Appender, Logs, M, ◌>>=◌,
  ◌>>◌, return, set_appender, lock_appender, unlock_appender,
}

-- `LogAppender::setFormatter`, of a pointer that is not null.
unfoldable pub set_formatter : ℕ → LogFormatter → M (Unit {0})
set_formatter a f = do
  lock_appender a
  λ s. set_appender a (record (s.appenders a) { form = some f; has_formatter = true }) s
  unlock_appender a

-- `LogAppender::getFormatter`
unfoldable pub get_formatter : ℕ → M (Option LogFormatter)
get_formatter a = do
  lock_appender a
  f ← λ s. done ((s.appenders a).form, s)
  unlock_appender a
  return f

abbrev pub set_level : ℕ → ℕ → M (Unit {0})
set_level a level s = set_appender a (record (s.appenders a) { level = level }) s

abbrev pub new_appender : Kind → Appender
new_appender kind = record {
  kind = kind;
  level = 1;
  form = none;
  has_formatter = false;
  is_locked = false;
}

-- `close` of a stream: where no file is open it fails.
abbrev pub close : Stream → Stream
close t = if t.is_open then record t { is_open = false } else record t { has_failed = true }

-- `open`: on a stream with an open file it fails; where the file cannot be opened, too; otherwise
-- the stream is good again.
abbrev pub open_stream : Bool → Stream → Stream
open_stream can t =
    if t.is_open || not can
    then record t { has_failed = true }
    else record { is_open = true; has_failed = false }

-- The file that an opening for output leaves: with no mode given, it is emptied.
abbrev pub emptied : Bool → Stream → Str → (Str → Str) → Str → Str
emptied can t name files n = if same name n && can && not t.is_open then [] else files n

-- `FSUtil::OpenForWrite(ofs, filename, std::ios::app)`: the second opening is reached only where the
-- first has succeeded. `Mkdir` then finds the directory.
unfoldable pub open_for_write : Bool → Stream → Stream × Bool
open_for_write can t =
    let first = open_stream can t in
    let second = if first.is_open then open_stream can first else first in (second, second.is_open)

-- `FileLogAppender::reopen`, where the kernel opens the files that `can_open` names.
abbrev pub reopened : Bool → Stream → Stream × Bool
reopened can t = open_for_write can (if t.has_failed then t else close t)

abbrev pub reopen_file : (Str → Bool) → Str → Stream → (Str → Str) → Stream × (Str → Str)
reopen_file can_open name t files =
    let can = can_open name in
    let before = if t.has_failed then t else close t in
    ((reopened can t).0, emptied can before name files)

-- A stream that has not been opened.
abbrev pub fresh_stream : Stream
fresh_stream = record { is_open = false; has_failed = false }

-- `new FileLogAppender(file)` and `new StdoutLogAppender`: the address.
unfoldable pub make_file : (Str → Bool) → Str → M ℕ
unfolding open_for_write
make_file can_open name s =
    let (t, files) = reopen_file can_open name fresh_stream s.files in
    let a = s.appender_count in
    done (
      a,
      record s {
        appenders = update s.appenders a (new_appender (file name t 0));
        appender_count = a + 1;
        files = files;
      },
    )

unfoldable pub make_stdout : M ℕ
make_stdout s =
    let a = s.appender_count in
    done (
      a,
      record s { appenders = update s.appenders a (new_appender stdout); appender_count = a + 1 },
    )

-- The text of an event, by a formatter that is set.
abbrev pub text_of : (List ℕ → ℕ → List ℕ) → LogEvent → Option LogFormatter → Run Str
text_of strftime e none = crashed
text_of strftime e (some f) = done (format_str strftime e f.items)

-- What a stream does with a text: one that has failed writes nothing, and one without a file fails.
abbrev pub is_good : Stream → Bool
is_good t = t.is_open && not t.has_failed

abbrev pub written : Stream → Str → Str → (Str → Str) → Str → Str
written t name text files n = if same name n && is_good t then files n ++ text else files n

abbrev pub after_write : Stream → Stream
after_write t = record t { has_failed = not (is_good t) }

abbrev pub complaint : Stream → Str
complaint t = if is_good t then [] else codes "[ERROR] FileLogAppender::log() format error\n"

-- The streams of a file appender when it has seen whether it is time to open the file again:
-- `now >= m_lastTime + 3`.
abbrev pub refreshed : (Str → Bool) → ℕ → ℕ → Str → Stream → (Str → Str) → ℕ × Stream × (Str → Str)
refreshed can_open now last name t files =
    if leb (last + 3) now
    then (let (t', files') = reopen_file can_open name t files in (now, t', files'))
    else (last, t, files)

-- The writing of an event under the lock of a file appender.
abbrev pub write_text : ℕ → Appender → Kind → Str → M (Unit {0})
write_text a x stdout text s = done (tt, s)
write_text a x (file name t last) text s = done (
  tt,
  record s {
    appenders = update s.appenders a (record x { kind = file name (after_write t) last });
    files = written t name text s.files;
    output = s.output ++ complaint t;
  },
)

abbrev pub write_file :
    (List ℕ → ℕ → List ℕ) → LogEvent → ℕ → Appender → Option LogFormatter → M (Unit {0})
write_file strftime e a x form s = elim (text_of strftime e form) [
  | done text ↦ write_text a x x.kind text s
  | stuck ↦ stuck
  | crashed ↦ crashed
]

-- The same to standard output.
abbrev pub write_out : (List ℕ → ℕ → List ℕ) → LogEvent → Option LogFormatter → M (Unit {0})
write_out strftime e form s = elim (text_of strftime e form) [
  | done text ↦ done (tt, record s { output = s.output ++ text })
  | stuck ↦ stuck
  | crashed ↦ crashed
]

-- `StdoutLogAppender::log` and `FileLogAppender::log`.
abbrev pub log_kind : (Str → Bool) → (List ℕ → ℕ → List ℕ) → LogEvent → ℕ → Kind → M (Unit {0})
log_kind can_open strftime e a stdout = do
  lock_appender a
  λ s. write_out strftime e (s.appenders a).form s
  unlock_appender a
log_kind can_open strftime e a (file name t last) = do
  let seen = λ (s : Logs). refreshed can_open e.time last name t s.files
  λ s. done (
    tt,
    record s {
      appenders =
          update s.appenders a (record (s.appenders a) { kind = file name (seen s).1 (seen s).0 });
      files = (seen s).2;
    },
  )
  lock_appender a
  λ s. write_file strftime e a (s.appenders a) (s.appenders a).form s
  unlock_appender a

unfoldable pub log : (Str → Bool) → (List ℕ → ℕ → List ℕ) → LogEvent → ℕ → M (Unit {0})
unfolding open_for_write
log can_open strftime e a s = log_kind can_open strftime e a ((s.appenders a).kind) s
