-- ===== src/Log/Fields.antt =====
-- The texts of a YAML node by key, over a library that keeps what is put into a node: src/log.cc.
use mathlib.Core.Option
use ztyco.Base.{
  ◌≡◌, refl, ap, sym, ◌∙◌, true, false, Option, none, some, List, [], ◌∷◌, ◌++◌, if◌then◌else◌, Str,
  same,
}
use ztyco.Config.Containers.{filled}
use ztyco.Log.Members.{
  or_here, map-or_here, and_true, and_false, last_of, last_of-snoc, Entries, value_of, or_text,
}
use ztyco.Log.Defines.{Nodes, text_or, put_text}

module _ {S N : Type 0} (y : Nodes S N) (kept_text : (s : Str) → y.text (y.scalar s) ≡ some s)
    (kept_members : (ns : List (Str × N)) (key : Str)
      → y.field (filled y.yaml y.yaml.empty ns) key ≡ some (last_of key ns)) where
  abbrev pub built : N → Entries → N
  built node [] = node
  built node ((b, k, v) ∷ es) = built (put_text y b node k v) es

  abbrev pub members : Entries → List (Str × N)
  members [] = []
  members ((b, k, v) ∷ es) = if b then (k, y.scalar v) ∷ members es else members es

  built_lem : (node : N) (es : Entries) → built node es ≡ filled y.yaml node (members es)
  built_lem node [] = refl
  built_lem node ((true, k, v) ∷ es) = built_lem (y.yaml.put node k (y.scalar v)) es
  built_lem node ((false, k, v) ∷ es) = built_lem node es

  last_lem :
      (key : Str) (es : Entries) → last_of key (members es) ≡ Option.map y.scalar (value_of key es)
  last_lem key [] = refl
  last_lem key ((true, k, v) ∷ es) =
      ap (λ o. or_here o (same k key) (y.scalar v)) (last_lem key es)
      ∙ sym (map-or_here y.scalar (value_of key es) (same k key) v)
      ∙ ap (λ b. Option.map y.scalar (or_here (value_of key es) b v)) (sym (and_true (same k key)))
  last_lem key ((false, k, v) ∷ es) =
      last_lem key es
      ∙ ap (λ b. Option.map y.scalar (or_here (value_of key es) b v)) (sym (and_false (same k key)))

  pub field_lem :
      (key : Str) (es : Entries)
      → y.field (built y.yaml.empty es) key ≡ some (Option.map y.scalar (value_of key es))
  field_lem key es =
      ap (λ n. y.field n key) (built_lem y.yaml.empty es)
      ∙ kept_members (members es) key
      ∙ ap some (last_lem key es)

  pub text_or_lem :
      (other : Str) (o : Option Str)
      → text_or y other (Option.map y.scalar o) ≡ some (or_text other o)
  text_or_lem other none = refl
  text_or_lem other (some s) = kept_text s

  filled-snoc :
      (node : N) (xs : List (Str × N)) (k : Str) (n : N)
      → filled y.yaml node (xs ++ (k, n) ∷ []) ≡ y.yaml.put (filled y.yaml node xs) k n
  filled-snoc node [] k n = refl
  filled-snoc node ((j, m) ∷ xs) k n = filled-snoc (y.yaml.put node j m) xs k n

  -- A member put behind the texts.
  pub field-put :
      (key k : Str) (n : N) (es : Entries)
      → y.field (y.yaml.put (built y.yaml.empty es) k n) key
        ≡ some (if same k key then some n else Option.map y.scalar (value_of key es))
  field-put key k n es =
      ap (λ m. y.field (y.yaml.put m k n) key) (built_lem y.yaml.empty es)
      ∙ ap (λ m. y.field m key) (sym (filled-snoc y.yaml.empty (members es) k n))
      ∙ kept_members (members es ++ (k, n) ∷ []) key
      ∙ ap some (last_of-snoc key k n (members es))
      ∙ ap (λ o. some (if same k key then some n else o)) (last_lem key es)
