-- ===== src/LogFormatter.antt =====
-- Log patterns, `LogFormatter` in src/log.cc and include/log.h.
-- A string is the list of its characters' codes. `strftime` and the printing of numbers are
-- parameters of what formats.
pub mod Laws
pub mod Format
mod Tests
use ztyco.Base.{ℕ, Bool, true, false, List, [], ◌∷◌, ◌++◌, ◌==◌, if◌then◌else◌, is_empty}

abbrev pub percent : ℕ
percent = 37

-- `d`, `{` and `}`
abbrev pub date_char : ℕ
date_char = 100

abbrev pub open_brace : ℕ
open_brace = 123

abbrev pub close_brace : ℕ
close_brace = 125

-- An element of `vec`: <0, text> or <1, character>.
pub data Token : Type 0 where
  text : List ℕ → Token
  spec : ℕ → Token

-- What the scan of `LogFormatter::init` comes to: `vec` and `dateFormat`; a `{` that is not closed;
-- or a character read beyond the end of the pattern's terminator.
pub data Scan : Type 0 where
  scanned : List Token → List ℕ → Scan
  unclosed : Scan
  overrun : Scan

-- Where the scan is: in text, with `tmp`; behind a `%`; behind `%d`; or in the braces.
pub data Mode : Type 0 where
  in_text : List ℕ → Mode
  in_spec : Mode
  after_date : Mode
  in_date : Mode

-- `if (!tmp.empty()) vec.push_back(std::make_pair(0, tmp))`
abbrev pub flush : List ℕ → List Token
flush [] = []
flush (c ∷ cs) = text (c ∷ cs) ∷ []

-- One character of text.
abbrev pub text_step : List ℕ → ℕ → List Token × Mode
text_step tmp c = if c == percent then (flush tmp, in_spec) else ([], in_text (tmp ++ c ∷ []))

-- One character: the elements pushed, the next mode and `dateFormat`.
abbrev pub scan_step : Mode → List ℕ → ℕ → List Token × Mode × List ℕ
scan_step (in_text tmp) date c = let (out, m) = text_step tmp c in (out, m, date)
scan_step in_spec date c = (spec c ∷ [], (if c == date_char then after_date else in_text []), date)
scan_step after_date date c =
    if c == open_brace
    then ([], in_date, date)
    else (let (out, m) = text_step [] c in (out, m, date))
scan_step in_date date c =
    if c == close_brace then ([], in_text [], date) else ([], in_date, date ++ c ∷ [])

abbrev pub scan_end : Mode → List ℕ → Scan
scan_end (in_text tmp) date = scanned (flush tmp) date
scan_end in_spec date = scanned [] date
scan_end after_date date = overrun
scan_end in_date date = unclosed

abbrev pub pushed : List Token → Scan → Scan
pushed out (scanned ts date) = scanned (out ++ ts) date
pushed out unclosed = unclosed
pushed out overrun = overrun

-- The loop over the pattern.
unfoldable pub scan : Mode → List ℕ → List ℕ → Scan
scan m date [] = scan_end m date
scan m date (c ∷ cs) = let (out, m', date') = scan_step m date c in pushed out (scan m' date' cs)

-- The subclasses of `FormatItem`.
pub data FormatItem : Type 0 where
  string_item : List ℕ → FormatItem
  date_item : List ℕ → FormatItem
  message level logger_name thread_id thread_name new_line file_name line tab fiber_id
        percent_sign :
      FormatItem

-- `%Y-%m-%d %H:%M:%S`, which DateTimeFormatItem takes in place of no format.
abbrev pub default_date : List ℕ
default_date =
    37 ∷ 89 ∷ 45 ∷ 37 ∷ 109 ∷ 45 ∷ 37 ∷ 100 ∷ 32 ∷ 37 ∷ 72 ∷ 58 ∷ 37 ∷ 77 ∷ 58 ∷ 37 ∷ 83 ∷ []

abbrev pub date_time : List ℕ → FormatItem
date_time format = date_item (if is_empty format then default_date else format)

-- `s_format_items`, and `d` before it: the items of a character, none where it is not known.
abbrev pub format_items : List ℕ → ℕ → List FormatItem
format_items date c =
    if c == date_char
    then date_time date ∷ []
    else if c == 109
    then message ∷ []
    else if c == 112
    then level ∷ []
    else if c == 99
    then logger_name ∷ []
    else if c == 116
    then thread_id ∷ []
    else if c == 78
    then thread_name ∷ []
    else if c == 110
    then new_line ∷ []
    else if c == 102
    then file_name ∷ []
    else if c == 108
    then line ∷ []
    else if c == 84
    then tab ∷ []
    else if c == 70
    then fiber_id ∷ []
    else if c == percent
    then percent_sign ∷ []
    else []

-- The loop over `vec`: `m_items`, and whether a character was not known, which ends it.
unfoldable pub build : List ℕ → List Token → List FormatItem × Bool
build date [] = ([], false)
build date (text s ∷ ts) = let (items, bad) = build date ts in (string_item s ∷ items, bad)
build date (spec c ∷ ts) =
    let (items, bad) = build date ts in
    let mine = format_items date c in if is_empty mine then ([], true) else (mine ++ items, bad)

-- `LogFormatter::init` on a new formatter: `m_items` and `m_error`, or undefined behaviour.
pub data Formatter : Type 0 where
  formatter : List FormatItem → Bool → Formatter
  bad_read : Formatter

abbrev pub init_of : Scan → Formatter
unfolding build
init_of (scanned ts date) = let (items, bad) = build date ts in formatter items bad
init_of unclosed = formatter [] true
init_of overrun = bad_read

unfoldable pub init : List ℕ → Formatter
unfolding scan
init pattern = init_of (scan (in_text []) [] pattern)

-- `LogEvent`, with its numbers as they print and its level's name.
pub record LogEvent : Type 0 where
  pub content : List ℕ
  pub level : List ℕ
  pub logger_name : List ℕ
  pub thread_id : List ℕ
  pub thread_name : List ℕ
  pub fiber_id : List ℕ
  pub file_name : List ℕ
  pub line : List ℕ
  pub time : ℕ

-- `FormatItem::format_ss`; `strftime` prints a time by a format.
abbrev pub format_item : (List ℕ → ℕ → List ℕ) → LogEvent → FormatItem → List ℕ
format_item strftime e (string_item s) = s
format_item strftime e (date_item f) = strftime f e.time
format_item strftime e message = e.content
format_item strftime e level = e.level
format_item strftime e logger_name = e.logger_name
format_item strftime e thread_id = e.thread_id
format_item strftime e thread_name = e.thread_name
format_item strftime e new_line = 10 ∷ []
format_item strftime e file_name = e.file_name
format_item strftime e line = e.line
format_item strftime e tab = 9 ∷ []
format_item strftime e fiber_id = e.fiber_id
format_item strftime e percent_sign = percent ∷ []

-- `LogFormatter::format_str`
unfoldable pub format_str : (List ℕ → ℕ → List ℕ) → LogEvent → List FormatItem → List ℕ
format_str strftime e [] = []
format_str strftime e (i ∷ is) = format_item strftime e i ++ format_str strftime e is
