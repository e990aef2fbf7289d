-- ===== src/Log/Members.antt =====
-- The members of a YAML node by key, and what an appender is read back as: src/log.cc.
use mathlib.Core.Option
use mathlib.Core.List.{append_assoc}
use ztyco.Base.{
  ◌≡◌, refl, inl, inr, Bool, true, false, ◌&&◌, Option, none, some, List, [], ◌∷◌, ◌++◌, ◌==◌,
  if◌then◌else◌, is_empty, Str, same, Bool-cases,
}
use ztyco.Log.Level.{unknow}
use ztyco.Log.Manager.{AppenderDefine}
use ztyco.Log.Defines.{Nodes, pushed_back}

-- A value, or else another on a condition.
abbrev pub or_else : {A : Type 0} → Option A → A → Option A
or_else (some w) v = some w
or_else none v = some v

abbrev pub or_here : {A : Type 0} → Option A → Bool → A → Option A
or_here o b v = if b then or_else o v else o

map-or_else :
    {A B : Type 0} (f : A → B) (o : Option A) (v : A)
    → Option.map f (or_else o v) ≡ or_else (Option.map f o) (f v)
map-or_else f none v = refl
map-or_else f (some w) v = refl

pub map-or_here :
    {A B : Type 0} (f : A → B) (o : Option A) (b : Bool) (v : A)
    → Option.map f (or_here o b v) ≡ or_here (Option.map f o) b (f v)
map-or_here f o true v = map-or_else f o v
map-or_here f o false v = refl

pub and_true : (b : Bool) → (b && true) ≡ b
and_true true = refl
and_true false = refl

pub and_false : (b : Bool) → (b && false) ≡ false
and_false true = refl
and_false false = refl

-- The value that a key has last among members.
abbrev pub last_of : {N : Type 0} → Str → List (Str × N) → Option N
last_of key [] = none
last_of key ((k, n) ∷ rest) = or_here (last_of key rest) (same k key) n

pub last_of-snoc :
    {N : Type 0} (key k : Str) (n : N) (xs : List (Str × N))
    → last_of key (xs ++ (k, n) ∷ []) ≡ (if same k key then some n else last_of key xs)
last_of-snoc key k n [] = refl
last_of-snoc key k n ((j, m) ∷ xs) = elim (Bool-cases (same k key)) [
  | inl here ↦
      rw (last_of-snoc key k n xs, here)
        (elim (Bool-cases (same j key)) [ inl t ↦ rw t refl | inr f ↦ rw f refl ])
  | inr away ↦ rw (last_of-snoc key k n xs, away) refl
]

-- What a definition is read back as: the levels of its appenders are not read, nor is an appender of
-- another kind, and one of standard output has no file.
abbrev pub appender_read : AppenderDefine → Option AppenderDefine
appender_read a =
    if a.kind == 1
    then some (record a { level = unknow })
    else if a.kind == 2
    then some (record a { level = unknow; file = [] })
    else none

abbrev pub appenders_read : List AppenderDefine → List AppenderDefine
appenders_read [] = []
appenders_read (a ∷ as') = elim (appender_read a) [
  | none ↦ appenders_read as'
  | some b ↦ b ∷ appenders_read as'
]

pub none_read : (as' : List AppenderDefine) → is_empty as' ≡ true → appenders_read as' ≡ []
none_read [] e = refl
none_read (a ∷ as') e = cc

pub one_more :
    {S N : Type 0} (y : Nodes S N) (so_far : List AppenderDefine) (o : Option AppenderDefine)
    (as' : List AppenderDefine)
    → pushed_back y so_far o ++ appenders_read as'
      ≡ so_far ++ (elim o [ none ↦ appenders_read as' | some b ↦ b ∷ appenders_read as' ])
one_more y so_far none as' = refl
one_more y so_far (some b) as' = append_assoc so_far (b ∷ []) (appenders_read as')

-- Texts under keys, some of them left out.
abbrev pub Entries : Type 0
Entries = List (Bool × Str × Str)

abbrev pub value_of : Str → Entries → Option Str
value_of key [] = none
value_of key ((b, k, v) ∷ es) = or_here (value_of key es) (same k key && b) v

abbrev pub or_text : Str → Option Str → Str
or_text other none = other
or_text other (some s) = s
