-- ===== src/Config/Casts.antt =====
-- The casts between texts and containers, `LexicalCast` of include/config.h, for `std::vector`,
-- `std::set` and `std::map`. The YAML library is an argument (`Yaml`), and so is the type of its
-- texts, which the casts only hand on; a step that throws is `none`.
use mathlib.Core.Option
use ztyco.Base.{
  Bool, true, false, Option, none, some, List, [], ◌∷◌, ◌++◌, ltb, ◌==◌, ◌||◌, ◌&&◌, if◌then◌else◌,
  Str,
}

-- Parsing and printing; an empty sequence, its `push_back`, and the nodes of a sequence; `node[key] =`
-- and the members of a map in order.
pub record Yaml (S N : Type 0) : Type 0 where
  pub load : S → Option N
  pub print : N → S
  pub empty : N
  pub push_back : N → N → N
  pub elements : N → List N
  pub put : N → Str → N → N
  pub members : N → List (Str × N)

infixl 5 ◌>>=◌
abbrev pub ◌>>=◌ : {A B : Type 0} → Option A → (A → Option B) → Option B
none >>= f = none
some a >>= f = f a

-- `std::set::insert` and `std::map::insert`, on the list of the elements in order.
abbrev pub insert : {A : Type 0} → (A → A → Bool) → A → List A → List A
insert lt x [] = x ∷ []
insert lt x (y ∷ ys) =
    let rest = insert lt x ys in if lt x y then x ∷ y ∷ ys else if lt y x then y ∷ rest else y ∷ ys

-- The order of `std::string`.
abbrev pub before : Str → Str → Bool
before xs [] = false
before [] (y ∷ ys) = true
before (x ∷ xs) (y ∷ ys) = let rest = before xs ys in ltb x y || x == y && rest

module _ {S N T : Type 0} (yaml : Yaml S N) where
  -- The loop over the nodes of a sequence, which adds the values that are cast from their texts.
  abbrev pub read_each : (S → Option T) → (List T → T → List T) → List T → List N → Option (List T)
  read_each cast add acc [] = some acc
  read_each cast add acc (n ∷ ns) = do v ← cast (yaml.print n); read_each cast add (add acc v) ns

  abbrev pub with_last : List T → T → List T
  with_last vs v = vs ++ v ∷ []

  -- `LexicalCast<std::string, std::vector<T>>` and `LexicalCast<std::string, std::set<T>>`
  unfoldable pub to_vector : (S → Option T) → S → Option (List T)
  to_vector cast s = do node ← yaml.load s; read_each cast with_last [] (yaml.elements node)

  unfoldable pub to_set : (T → T → Bool) → (S → Option T) → S → Option (List T)
  to_set lt cast s = do
    node ← yaml.load s
    read_each cast (λ vs v. insert lt v vs) [] (yaml.elements node)

  -- `LexicalCast<std::vector<T>, std::string>`, and that of a set, whose elements come in order.
  abbrev pub push_each : (T → S) → N → List T → Option N
  push_each cast node [] = some node
  push_each cast node (v ∷ vs) = do
    n ← yaml.load (cast v)
    push_each cast (yaml.push_back node n) vs

  unfoldable pub of_vector : (T → S) → List T → Option S
  of_vector cast vs = Option.map yaml.print (push_each cast yaml.empty vs)

  -- `LexicalCast<std::string, std::map<std::string, T>>`
  abbrev pub before_key : Str × T → Str × T → Bool
  before_key p q = before p.0 q.0

  abbrev pub read_members :
      (S → Option T) → List (Str × T) → List (Str × N) → Option (List (Str × T))
  read_members cast acc [] = some acc
  read_members cast acc ((k, n) ∷ ns) = do
    v ← cast (yaml.print n)
    read_members cast (insert before_key (k, v) acc) ns

  unfoldable pub to_map : (S → Option T) → S → Option (List (Str × T))
  to_map cast s = do node ← yaml.load s; read_members cast [] (yaml.members node)

  -- `LexicalCast<std::map<std::string, T>, std::string>`
  abbrev pub put_each : (T → S) → N → List (Str × T) → Option N
  put_each cast node [] = some node
  put_each cast node ((k, v) ∷ vs) = do n ← yaml.load (cast v); put_each cast (yaml.put node k n) vs

  unfoldable pub of_map : (T → S) → List (Str × T) → Option S
  of_map cast vs = Option.map yaml.print (put_each cast yaml.empty vs)
