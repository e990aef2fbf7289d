-- ===== src/LogFormatter/Format.antt =====
-- What a log pattern prints, src/log.cc.
use ztyco.Base.{ℕ, ◌≡◌, false, List, [], ◌∷◌, ◌++◌, if◌then◌else◌, is_empty}
use ztyco.LogFormatter.{
  FormatItem, string_item, date_time, format_items, LogEvent, format_str, default_date,
}
use ztyco.LogFormatter.Laws.{Piece, literal, item, date}

-- A character with an item.
abbrev pub IsKnown : Piece → Type 0
IsKnown (item c) = is_empty (format_items [] c) ≡ false
IsKnown _ = Unit

-- What a piece prints, where `d` is the format of the dates.
abbrev pub shown : (List ℕ → ℕ → List ℕ) → LogEvent → List ℕ → Piece → List ℕ
unfolding format_str
shown strftime e d (literal c cs) = c ∷ cs
shown strftime e d (item c) = format_str strftime e (format_items d c)
shown strftime e d (date f) = strftime (if is_empty d then default_date else d) e.time

abbrev pub all_shown : (List ℕ → ℕ → List ℕ) → LogEvent → List ℕ → List Piece → List ℕ
all_shown strftime e d [] = []
all_shown strftime e d (p ∷ ps) = shown strftime e d p ++ all_shown strftime e d ps

abbrev pub items_of : List ℕ → Piece → List FormatItem
items_of d (literal c cs) = string_item (c ∷ cs) ∷ []
items_of d (item c) = format_items d c
items_of d (date f) = date_time d ∷ []

abbrev pub all_items : List ℕ → List Piece → List FormatItem
all_items d [] = []
all_items d (p ∷ ps) = items_of d p ++ all_items d ps
