-- ===== src/Config.antt =====
-- The configuration, src/config.cc and include/config.h.
-- A YAML node is seen as the code sees it: a scalar with its text, a map with its members in order,
-- or another node. How another node prints is an argument, and so is the cast of a text to the
-- value of a variable, which may throw. A variable's type is a number, and a listener is its id.
pub mod Values
pub mod Names
pub mod Casts
pub mod Containers
pub mod Docs
mod Tests
use ztyco.Base.{
  ℕ, ◌+◌, Bool, true, false, not, ◌&&◌, ◌||◌, Option, none, some, List, [], ◌∷◌, ◌++◌, leb, ◌==◌,
  if◌then◌else◌, is_empty, keep, map, Str, same,
}

-- `ConfigVar<T>`
pub record ConfigVar (T : Type 0) : Type 0 where
  pub kind : ℕ
  pub value : T
  pub listeners : List ℕ

-- A call of a listener with the old value and the new one.
abbrev pub Call : Type 0 → Type 0
Call T = ℕ × T × T

-- `ConfigVar::setValue`, with the equality of the values, and the calls that it makes.
unfoldable pub set_value :
    {T : Type 0} → (T → T → Bool) → ConfigVar T → T → ConfigVar T × List (Call T)
set_value eq x v =
    if eq v x.value
    then (x, [])
    else (record x { value = v }, map (λ id. (id, x.value, v)) x.listeners)

-- `ConfigVar::addListener`, from the static `s_fun_id` on: the variable and the listener's id.
unfoldable pub add_listener : {T : Type 0} → ℕ → ConfigVar T → ConfigVar T × ℕ
add_listener last x = (record x { listeners = x.listeners ++ (last + 1) ∷ [] }, last + 1)

-- `ConfigVar::delListener` and `clearListener`
unfoldable pub del_listener : {T : Type 0} → ConfigVar T → ℕ → ConfigVar T
del_listener x id = record x { listeners = keep (λ i. not (i == id)) x.listeners }

unfoldable pub clear_listener : {T : Type 0} → ConfigVar T → ConfigVar T
clear_listener x = record x { listeners = [] }

-- `ConfigVar::fromString`: what a throwing cast leaves, and the result, which is false.
unfoldable pub from_string :
    {T : Type 0} → (T → T → Bool) → (Str → Option T) → ConfigVar T → Str → ConfigVar T × Bool
unfolding set_value
from_string eq cast x s = elim (cast s) [
  | none ↦ (x, false)
  | some v ↦ ((set_value eq x v).0, false)
]

-- `GetDatas()`: an association list without a second entry of a name.
abbrev pub Datas : Type 0 → Type 0
Datas T = List (Str × ConfigVar T)

-- `GetDatas().find(name)`, which is `Config::LookupBase`.
abbrev pub lookup_base : {T : Type 0} → Str → Datas T → Option (ConfigVar T)
lookup_base name [] = none
lookup_base name ((n, x) ∷ m) = if same name n then some x else lookup_base name m

-- `std::dynamic_pointer_cast<ConfigVar<T>>`
abbrev pub cast_to : {T : Type 0} → ℕ → ConfigVar T → Option (ConfigVar T)
cast_to kind x = if x.kind == kind then some x else none

-- `Config::Lookup(name)`
abbrev pub lookup_cast : {T : Type 0} → ℕ → Option (ConfigVar T) → Option (ConfigVar T)
lookup_cast kind none = none
lookup_cast kind (some x) = cast_to kind x

unfoldable pub lookup : {T : Type 0} → ℕ → Datas T → Str → Option (ConfigVar T)
lookup kind m name = lookup_cast kind (lookup_base name m)

abbrev pub new_var : {T : Type 0} → ℕ → T → ConfigVar T
new_var kind v = record { kind = kind; value = v; listeners = [] }

-- `Config::Lookup(name, default)`: a name with a character that is not allowed is only logged.
abbrev pub lookup_or_add :
    {T : Type 0} → ℕ → Datas T → Str → T → Option (ConfigVar T) → Datas T × Option (ConfigVar T)
lookup_or_add kind m name v (some x) = (m, cast_to kind x)
lookup_or_add kind m name v none = (m ++ (name, new_var kind v) ∷ [], some (new_var kind v))

unfoldable pub lookup_default :
    {T : Type 0} → ℕ → Datas T → Str → T → Datas T × Option (ConfigVar T)
lookup_default kind m name v = lookup_or_add kind m name v (lookup_base name m)

mutual
  pub data Node : Type 0 where
    scalar : Str → Node
    other : ℕ → Node
    tree : Members → Node

  pub data Members : Type 0 where
    end : Members
    member : Str → Node → Members → Members

-- `find_first_not_of("abcdefghikjlmnopqrstuvwxyz._012345678")`: whether nothing else is there.
abbrev pub is_allowed : ℕ → Bool
is_allowed c = leb 97 c && leb c 122 || c == 46 || c == 95 || leb 48 c && leb c 56

abbrev pub all_allowed : Str → Bool
all_allowed [] = true
all_allowed (c ∷ s) = is_allowed c && all_allowed s

-- The name of a member below a prefix.
abbrev pub below : Str → Str → Str
below [] k = k
below (c ∷ p) k = (c ∷ p) ++ 46 ∷ k

-- `ListAllMember`
unfoldable mutual
  pub list_all_member : Str → Node → List (Str × Node)
  list_all_member prefix (scalar s) = if all_allowed prefix then (prefix, scalar s) ∷ [] else []
  list_all_member prefix (other n) = if all_allowed prefix then (prefix, other n) ∷ [] else []
  list_all_member prefix (tree ms) =
      let rest = list_members prefix ms in
      if all_allowed prefix then (prefix, tree ms) ∷ rest else []

  pub list_members : Str → Members → List (Str × Node)
  list_members prefix end = []
  list_members prefix (member k v ms) = list_all_member (below prefix k) v ++ list_members prefix ms

-- `::tolower`
abbrev pub lower : Str → Str
lower [] = []
lower (c ∷ s) = (if leb 65 c && leb c 90 then c + 32 else c) ∷ lower s

-- The text that a node is read from.
abbrev pub node_text : (Node → Str) → Node → Str
node_text print (scalar s) = s
node_text print (other n) = print (other n)
node_text print (tree ms) = print (tree ms)

-- `var->fromString(...)` on the variable of a name, where there is one.
abbrev pub read_into :
    {T : Type 0} → (T → T → Bool) → (ℕ → Str → Option T) → Str → Str → Datas T → Datas T
unfolding from_string
read_into eq cast name s [] = []
read_into eq cast name s ((n, x) ∷ m) =
    let rest = read_into eq cast name s m in
    if same name n then (n, (from_string eq (cast x.kind) x s).0) ∷ m else (n, x) ∷ rest

-- `Config::LoadFromYaml`, over what `ListAllMember` gives.
unfoldable pub load_nodes :
    {T : Type 0}
    → (T → T → Bool)
    → (ℕ → Str → Option T)
    → (Node → Str)
    → List (Str × Node)
    → Datas T
    → Datas T
unfolding read_into
load_nodes eq cast print [] m = m
load_nodes eq cast print ((k, v) ∷ ns) m =
    load_nodes eq cast print ns
      (if is_empty k then m else read_into eq cast (lower k) (node_text print v) m)

unfoldable pub load_from_yaml :
    {T : Type 0} → (T → T → Bool) → (ℕ → Str → Option T) → (Node → Str) → Node → Datas T → Datas T
unfolding list_all_member load_nodes
load_from_yaml eq cast print root m = load_nodes eq cast print (list_all_member [] root) m
