-- ===== src/LogFormatter/Laws.antt =====
-- What a log pattern becomes, src/log.cc.
use mathlib.Core.List.{append_assoc, append-nil}
use ztyco.Base.{
  ℕ, ◌≡◌, refl, sym, ap, ◌∙◌, Bool, true, false, ◌&&◌, ◌||◌, List, [], ◌∷◌, ◌++◌, ◌==◌, is_empty,
  All, arith,
}
use ztyco.LogFormatter.{
  Token, text, spec, Scan, scanned, unclosed, overrun, in_text, in_spec, in_date, flush, pushed,
  percent, date_char, open_brace, close_brace, scan, formatter, bad_read, init, init_of,
}

-- A pattern as it is meant: text without a `%`, a character behind a `%`, a date with its format.
pub data Piece : Type 0 where
  literal : ℕ → List ℕ → Piece
  item : ℕ → Piece
  date : List ℕ → Piece

abbrev pub IsPlain : ℕ → Type 0
IsPlain c = (c == percent) ≡ false

abbrev pub IsPiece : Piece → Type 0
IsPiece (literal c cs) = All IsPlain (c ∷ cs)
IsPiece (item c) = (c == date_char) ≡ false
IsPiece (date f) = All (λ c. (c == close_brace) ≡ false) f

-- Two texts do not stand side by side.
abbrev pub no_literal : List Piece → Bool
no_literal (literal c cs ∷ ps) = false
no_literal _ = true

abbrev pub apart : List Piece → Bool
apart [] = true
apart (literal c cs ∷ ps) = no_literal ps && apart ps
apart (item c ∷ ps) = apart ps
apart (date f ∷ ps) = apart ps

abbrev pub written : Piece → List ℕ
written (literal c cs) = c ∷ cs
written (item c) = percent ∷ c ∷ []
written (date f) = percent ∷ date_char ∷ open_brace ∷ f ++ close_brace ∷ []

-- The pattern of a list of pieces, in front of a rest.
abbrev pub pattern_of : List Piece → List ℕ → List ℕ
pattern_of [] rest = rest
pattern_of (p ∷ ps) rest = written p ++ pattern_of ps rest

abbrev pub token_of : Piece → Token
token_of (literal c cs) = text (c ∷ cs)
token_of (item c) = spec c
token_of (date f) = spec date_char

abbrev pub tokens : List Piece → List Token
tokens [] = []
tokens (p ∷ ps) = token_of p ∷ tokens ps

-- The formats of all dates, one behind the other.
abbrev pub date_formats : List Piece → List ℕ
date_formats [] = []
date_formats (literal c cs ∷ ps) = date_formats ps
date_formats (item c ∷ ps) = date_formats ps
date_formats (date f ∷ ps) = f ++ date_formats ps

pushed-pushed : (xs ys : List Token) (s : Scan) → pushed xs (pushed ys s) ≡ pushed (xs ++ ys) s
pushed-pushed xs ys (scanned ts d) = ap (λ zs. scanned zs d) (sym (append_assoc xs ys ts))
pushed-pushed xs ys unclosed = refl
pushed-pushed xs ys overrun = refl

pushed_none : (s : Scan) → pushed [] s ≡ s
pushed_none (scanned ts d) = refl
pushed_none unclosed = refl
pushed_none overrun = refl

-- Text goes to `tmp`.
scan_text :
    (tmp d cs rest : List ℕ)
    → All IsPlain cs
    → scan (in_text tmp) d (cs ++ rest) ≡ scan (in_text (tmp ++ cs)) d rest
unfolding scan
scan_text tmp d [] rest h = ap (λ x. scan (in_text x) d rest) (sym (append-nil tmp))
scan_text tmp d (c ∷ cs) rest h = rw (h.0) (
    pushed_none (scan (in_text (tmp ++ c ∷ [])) d (cs ++ rest))
    ∙ scan_text (tmp ++ c ∷ []) d cs rest (h.1)
    ∙ ap (λ x. scan (in_text x) d rest) (append_assoc tmp (c ∷ []) cs))

-- What stands in the braces goes to `dateFormat`.
scan_format :
    (d f rest : List ℕ)
    → All (λ c. (c == close_brace) ≡ false) f
    → scan in_date d (f ++ close_brace ∷ rest) ≡ scan (in_text []) (d ++ f) rest
unfolding scan
scan_format d [] rest h =
    pushed_none (scan (in_text []) d rest) ∙ ap (λ x. scan (in_text []) x rest) (sym (append-nil d))
scan_format d (c ∷ f) rest h = rw (h.0) (
    pushed_none (scan in_date (d ++ c ∷ []) (f ++ close_brace ∷ rest))
    ∙ scan_format (d ++ c ∷ []) f rest (h.1)
    ∙ ap (λ x. scan (in_text []) x rest) (append_assoc d (c ∷ []) f))

-- The pattern ends, or goes on with a `%`.
abbrev pub at_mark : List ℕ → Bool
at_mark [] = true
at_mark (c ∷ cs) = c == percent

scan-flush :
    (tmp d rest : List ℕ)
    → at_mark rest ≡ true
    → scan (in_text tmp) d rest ≡ pushed (flush tmp) (scan (in_text []) d rest)
unfolding scan
scan-flush tmp d [] h = ap (λ x. scanned x d) (sym (append-nil (flush tmp)))
scan-flush tmp d (c ∷ cs) h = rw h (ap (pushed (flush tmp)) (sym (pushed_none (scan in_spec d cs))))

scan_item :
    (tmp d rest : List ℕ) (c : ℕ)
    → (c == date_char) ≡ false
    → scan (in_text tmp) d (percent ∷ c ∷ rest)
      ≡ pushed (flush tmp) (pushed (spec c ∷ []) (scan (in_text []) d rest))
unfolding scan
scan_item tmp d rest c h = rw h refl

scan_date :
    (tmp d f rest : List ℕ)
    → All (λ c. (c == close_brace) ≡ false) f
    → scan (in_text tmp) d (written (date f) ++ rest)
      ≡ pushed (flush tmp) (pushed (spec date_char ∷ []) (scan (in_text []) (d ++ f) rest))
unfolding scan
scan_date tmp d f rest h =
    ap (λ s. pushed (flush tmp) (pushed (spec date_char ∷ []) s))
      (pushed_none (scan in_date d ((f ++ close_brace ∷ []) ++ rest))
        ∙ ap (scan in_date d) (append_assoc f (close_brace ∷ []) rest)
        ∙ scan_format d f rest h)

-- The pieces behind some text.
scan_pieces :
    (ps : List Piece) (tmp d rest : List ℕ)
    → All IsPiece ps
    → apart ps ≡ true
    → (is_empty tmp || no_literal ps) ≡ true
    → at_mark rest ≡ true
    → scan (in_text tmp) d (pattern_of ps rest)
      ≡ pushed (flush tmp ++ tokens ps) (scan (in_text []) (d ++ date_formats ps) rest)
scan_pieces [] tmp d rest v a f m =
    scan-flush tmp d rest m
    ∙ ap (λ x. pushed x (scan (in_text []) d rest)) (sym (append-nil (flush tmp)))
    ∙ ap (λ x. pushed (flush tmp ++ []) (scan (in_text []) x rest)) (sym (append-nil d))
scan_pieces (literal c cs ∷ ps) [] d rest v a f m =
    scan_text [] d (c ∷ cs) (pattern_of ps rest) (v.0)
    ∙ scan_pieces ps (c ∷ cs) d rest (v.1) (ground arith) (ground arith) m
scan_pieces (literal c cs ∷ ps) (t ∷ tmp) d rest v a f m = cc
scan_pieces (item c ∷ ps) tmp d rest v a f m =
    let back = scan (in_text []) (d ++ date_formats ps) rest in
    scan_item tmp d (pattern_of ps rest) c (v.0)
    ∙ ap (λ s. pushed (flush tmp) (pushed (spec c ∷ []) s))
        (scan_pieces ps [] d rest (v.1) a refl m)
    ∙ ap (pushed (flush tmp)) (pushed-pushed (spec c ∷ []) (tokens ps) back)
    ∙ pushed-pushed (flush tmp) (spec c ∷ tokens ps) back
scan_pieces (date f ∷ ps) tmp d rest v a g m =
    let back = scan (in_text []) ((d ++ f) ++ date_formats ps) rest in
    scan_date tmp d f (pattern_of ps rest) (v.0)
    ∙ ap (λ s. pushed (flush tmp) (pushed (spec date_char ∷ []) s))
        (scan_pieces ps [] (d ++ f) rest (v.1) a refl m)
    ∙ ap (pushed (flush tmp)) (pushed-pushed (spec date_char ∷ []) (tokens ps) back)
    ∙ pushed-pushed (flush tmp) (spec date_char ∷ tokens ps) back
    ∙ ap (λ x. pushed (flush tmp ++ spec date_char ∷ tokens ps) (scan (in_text []) x rest))
        (append_assoc d f (date_formats ps))

-- A pattern written from well-formed pieces, no two texts side by side, is taken apart into those
-- pieces, and the format of its dates is the formats of all of them, one behind the other.
pub scan-pattern_of :
    (ps : List Piece)
    → All IsPiece ps
    → apart ps ≡ true
    → scan (in_text []) [] (pattern_of ps []) ≡ scanned (tokens ps) (date_formats ps)
unfolding scan
scan-pattern_of ps v a =
    scan_pieces ps [] [] [] v a refl refl
    ∙ ap (λ ts. scanned ts (date_formats ps)) (append-nil (tokens ps))

-- A pattern of well-formed pieces that ends in `%d` makes the scan read beyond the terminator of
-- the pattern, and one that ends in a date whose braces are not closed is an error with no items.
init_open_date :
    (ps : List Piece) (f : List ℕ)
    → All IsPiece ps
    → apart ps ≡ true
    → All (λ c. (c == close_brace) ≡ false) f
    → (init (pattern_of ps (percent ∷ date_char ∷ [])) ≡ bad_read)
      × (init (pattern_of ps (percent ∷ date_char ∷ open_brace ∷ f)) ≡ formatter [] true)
unfolding init init_of scan
init_open_date ps f v a h = (
  rw (scan_pieces ps [] [] (percent ∷ date_char ∷ []) v a refl refl) refl,
  rw
      (
        scan_pieces ps [] [] (percent ∷ date_char ∷ open_brace ∷ f) v a refl refl,
        open_format (date_formats ps) f h,
      )
      refl,
)
  where
    open_format :
        (d g : List ℕ) → All (λ c. (c == close_brace) ≡ false) g → scan in_date d g ≡ unclosed
    open_format d [] h' = refl
    open_format d (c ∷ g) h' = rw (h'.0, open_format (d ++ c ∷ []) g (h'.1)) refl
