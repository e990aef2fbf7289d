-- ===== src/Config/Names.antt =====
-- The names that are read from a YAML tree, and what loading one changes, src/config.cc.
use ztyco.Base.{
  ◌≡◌, inl, inr, Bool, true, false, ◌||◌, List, [], ◌∷◌, ◌++◌, if◌then◌else◌, Str, same, All,
  Bool-cases,
}
use ztyco.Config.{
  Node, scalar, other, tree, Members, end, member, all_allowed, below, list_all_member,
  list_members,
}

abbrev IsNamed : Str × Node → Type 0
IsNamed n = all_allowed (n.0) ≡ true

All-append : (xs ys : List (Str × Node)) → All IsNamed xs → All IsNamed ys → All IsNamed (xs ++ ys)
All-append [] ys h k = k
All-append (x ∷ xs) ys h k = (h.0, All-append xs ys (h.1) k)

All-one :
    (prefix : Str) (v : Node) (rest : List (Str × Node))
    → All IsNamed rest
    → All IsNamed (if all_allowed prefix then (prefix, v) ∷ rest else [])
All-one prefix v rest h = elim (Bool-cases (all_allowed prefix)) [
  | inl e ↦ rw e (e, h)
  | inr n ↦ rw n tt
]

mutual
  unfolding list_all_member

  list_all_member-All : (prefix : Str) (v : Node) → All IsNamed (list_all_member prefix v)
  list_all_member-All prefix (scalar s) = All-one prefix (scalar s) [] tt
  list_all_member-All prefix (other n) = All-one prefix (other n) [] tt
  list_all_member-All prefix (tree ms) =
      All-one prefix (tree ms) (list_members prefix ms) (list_members-All prefix ms)

  list_members-All : (prefix : Str) (ms : Members) → All IsNamed (list_members prefix ms)
  list_members-All prefix end = tt
  list_members-All prefix (member k v ms) =
      All-append (list_all_member (below prefix k) v) (list_members prefix ms)
        (list_all_member-All (below prefix k) v) (list_members-All prefix ms)

-- The names that are listed.
abbrev pub is_listed : Str → List (Str × Node) → Bool
is_listed k [] = false
is_listed k ((n, v) ∷ ns) = same k n || is_listed k ns
