-- ===== src/LogFormatter/Tests.antt =====
-- Log patterns at concrete strings, src/log.cc.
use ztyco.Base.{ℕ, ◌≡◌, refl, List, [], ◌∷◌}
use ztyco.LogFormatter.{text, spec, scanned, in_text, scan, LogEvent}
use ztyco.LogFormatter.Laws.{Piece, literal, item, date, scan-pattern_of}

-- `a%d{x}%m%d{y}`
abbrev two_dates : List Piece
two_dates = literal 97 [] ∷ date (120 ∷ []) ∷ item 109 ∷ date (121 ∷ []) ∷ []

-- A `strftime` that prints the format itself.
abbrev echo : List ℕ → ℕ → List ℕ
echo format time = format

abbrev hello : LogEvent
hello = record {
  content = 104 ∷ 105 ∷ [];
  level = [];
  logger_name = [];
  thread_id = [];
  thread_name = [];
  fiber_id = [];
  file_name = [];
  line = [];
  time = 0;
}

scan-pattern_of_example :
    scan
      (in_text [])
      []
      (97 ∷ 37 ∷ 100 ∷ 123 ∷ 120 ∷ 125 ∷ 37 ∷ 109 ∷ 37 ∷ 100 ∷ 123 ∷ 121 ∷ 125 ∷ [])
    ≡ scanned (text (97 ∷ []) ∷ spec 100 ∷ spec 109 ∷ spec 100 ∷ []) (120 ∷ 121 ∷ [])
scan-pattern_of_example =
    scan-pattern_of two_dates ((refl, tt), ((refl, tt), (refl, ((refl, tt), tt)))) refl
