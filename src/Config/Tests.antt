-- ===== src/Config/Tests.antt =====
-- The configuration at concrete variables and trees, src/config.cc.
use ztyco.Base.{Option, none, ℕ, ◌≡◌, refl, some, [], ◌∷◌}
use ztyco.Config.{ConfigVar, Datas, Node, scalar, tree, end, member, list_all_member}
use ztyco.Config.Docs.{Doc, leaf, begun, onto, into, docs, puts_kept}
use ztyco.Config.Casts.{of_map, to_map, ◌>>=◌}
use ztyco.Config.Containers.{to_map-of_map}

abbrev timeout : ConfigVar ℕ
timeout = record { kind = 1; value = 5000; listeners = 1 ∷ 2 ∷ [] }

abbrev one_var : Datas ℕ
one_var = (116 ∷ [], timeout) ∷ []

-- `{t: 9, "9": {u: 1}}`: the second member is not listed.
abbrev two_members : Node
two_members = tree (
    member (116 ∷ []) (scalar (57 ∷ []))
      (member (57 ∷ []) (tree (member (117 ∷ []) (scalar (49 ∷ [])) end)) end))

nine_left_out :
    list_all_member [] two_members ≡ ([], two_members) ∷ (116 ∷ [], scalar (57 ∷ [])) ∷ []
unfolding list_all_member
nine_left_out = refl

abbrev written : ℕ → Doc
written v = leaf (v ∷ [])

abbrev number : Doc → Option ℕ
number (leaf []) = none
number (leaf (v ∷ cs)) = some v
number begun = none
number (onto d e) = none
number (into d k e) = none

to_map-of_map_example :
    (of_map docs written ((97 ∷ [], 3) ∷ (97 ∷ 98 ∷ [], 5) ∷ []) >>= to_map docs number)
    ≡ some ((97 ∷ [], 3) ∷ (97 ∷ 98 ∷ [], 5) ∷ [])
to_map-of_map_example =
    to_map-of_map docs written number (λ n. refl) (λ ns up. puts_kept begun ns)
      ((97 ∷ [], 3) ∷ (97 ∷ 98 ∷ [], 5) ∷ [])
      ((written 3, refl, refl), ((written 5, refl, refl), tt)) ((refl, tt), (tt, tt))
