-- ===== src/Config/Containers.antt =====
-- Containers written as YAML and read back, the casts of include/config.h.
use mathlib.Core.List.{append-nil, append_assoc}
use ztyco.Base.{
  ◌≡◌, refl, ap, sym, inl, inr, ◌∙◌, Bool, true, false, Option, some, List, [], ◌∷◌, ◌++◌, Str, All,
  arith, Bool-cases,
}
use ztyco.Config.Casts.{
  Yaml, insert, before, read_each, with_last, to_vector, to_set, push_each, of_vector, before_key,
  read_members, to_map, put_each, of_map, ◌>>=◌,
}

-- Each element comes before all that follow it.
abbrev pub Ascending : {A : Type 0} → (A → A → Bool) → List A → Type 0
Ascending lt [] = Unit {0}
Ascending lt (x ∷ xs) = All (λ y. lt x y ≡ true) xs × Ascending lt xs

module _ {A : Type 0} (lt : A → A → Bool) where
  insert_last :
      (x : A) (xs : List A)
      → All (λ y. (lt y x ≡ true) × (lt x y ≡ false)) xs
      → insert lt x xs ≡ xs ++ x ∷ []
  insert_last x [] h = refl
  insert_last x (y ∷ ys) h = rw (h.0.1, h.0.0, insert_last x ys h.1) refl

  All-snoc : (P : A → Type 0) (xs : List A) (x : A) → All P xs → P x → All P (xs ++ x ∷ [])
  All-snoc P [] x h p = (p, tt)
  All-snoc P (y ∷ ys) x h p = (h.0, All-snoc P ys x h.1 p)

  -- Every element of the first list comes before all of the second.
  abbrev Below : List A → List A → Type 0
  Below acc vs = All (λ v. All (λ y. lt y v ≡ true) acc) vs

  Below-snoc :
      (acc : List A) (v : A) (vs : List A)
      → Below acc vs
      → All (λ y. lt v y ≡ true) vs
      → Below (acc ++ v ∷ []) vs
  Below-snoc acc v [] h k = tt
  Below-snoc acc v (w ∷ ws) h k =
      (All-snoc (λ y. lt y w ≡ true) acc v h.0 k.0, Below-snoc acc v ws h.1 k.1)

  both_ways :
      ((a b : A) → lt a b ≡ true → lt b a ≡ false)
      → (x : A) (xs : List A) → All (λ y. lt y x ≡ true) xs
      → All (λ y. (lt y x ≡ true) × (lt x y ≡ false)) xs
  both_ways asym x [] h = tt
  both_ways asym x (y ∷ ys) h = ((h.0, asym y x h.0), both_ways asym x ys h.1)

  Below-none : (vs : List A) → Below [] vs
  Below-none [] = tt
  Below-none (v ∷ vs) = (tt, Below-none vs)

before-asym : (xs ys : Str) → before xs ys ≡ true → before ys xs ≡ false
before-asym [] [] h = cc
before-asym [] (y ∷ ys) h = refl
before-asym (x ∷ xs) [] h = cc
before-asym (x ∷ xs) (y ∷ ys) h = elim (Bool-cases (before xs ys)) [
  | inl t ↦ ground (arith, before-asym xs ys t)
  | inr f ↦ ground arith
]

-- The nodes that a sequence is pushed together from, and the members that a map is.
abbrev pub pushed : {S N : Type 0} → Yaml S N → N → List N → N
pushed yaml node [] = node
pushed yaml node (n ∷ ns) = pushed yaml (yaml.push_back node n) ns

abbrev pub filled : {S N : Type 0} → Yaml S N → N → List (Str × N) → N
filled yaml node [] = node
filled yaml node ((k, n) ∷ ns) = filled yaml (yaml.put node k n) ns

module _ {S N T : Type 0} (yaml : Yaml S N) (write : T → S) (read : S → Option T) where
  -- A value that is written, parsed, printed as a part of another node and read is the same.
  abbrev pub ReadsBack : T → Type 0
  ReadsBack v = (n : N) × (yaml.load (write v) ≡ some n) × (read (yaml.print n) ≡ some v)

  abbrev pub nodes : (vs : List T) → All ReadsBack vs → List N
  nodes [] h = []
  nodes (v ∷ vs) (h, hs) = h.0 ∷ nodes vs hs

  push_each_lem :
      (node : N) (vs : List T) (h : All ReadsBack vs)
      → push_each yaml write node vs ≡ some (pushed yaml node (nodes vs h))
  push_each_lem node [] h = refl
  push_each_lem node (v ∷ vs) (h, hs) = rw (h.1) (push_each_lem (yaml.push_back node h.0) vs hs)

  abbrev added : (List T → T → List T) → List T → List T → List T
  added add acc [] = acc
  added add acc (v ∷ vs) = added add (add acc v) vs

  read_each_lem :
      (add : List T → T → List T) (acc vs : List T) (h : All ReadsBack vs)
      → read_each yaml read add acc (nodes vs h) ≡ some (added add acc vs)
  read_each_lem add acc [] h = refl
  read_each_lem add acc (v ∷ vs) (h, hs) = rw (h.2) (read_each_lem add (add acc v) vs hs)

  added_last : (acc vs : List T) → added (with_last yaml) acc vs ≡ acc ++ vs
  added_last acc [] = sym (append-nil acc)
  added_last acc (v ∷ vs) = added_last (acc ++ v ∷ []) vs ∙ append_assoc acc (v ∷ []) vs

  added-insert :
      (lt : T → T → Bool)
      → ((a b : T) → lt a b ≡ true → lt b a ≡ false)
      → (acc vs : List T) → Below lt acc vs
      → Ascending lt vs
      → added (λ ws v. insert lt v ws) acc vs ≡ acc ++ vs
  added-insert lt asym acc [] h up = sym (append-nil acc)
  added-insert lt asym acc (v ∷ vs) h up =
      ap (λ ws. added (λ ws v. insert lt v ws) ws vs)
        (insert_last lt v acc (both_ways lt asym v acc h.0))
      ∙ added-insert lt asym (acc ++ v ∷ []) vs (Below-snoc lt acc v vs h.1 up.0) up.1
      ∙ append_assoc acc (v ∷ []) vs

  -- A vector whose elements are read back as they are written: where a text that is printed is parsed
  -- as the same node, and a sequence has the nodes that were pushed, the cast to a text and back gives
  -- the vector.
  to_vector-of_vector :
      ((n : N) → yaml.load (yaml.print n) ≡ some n)
      → ((ns : List N) → yaml.elements (pushed yaml yaml.empty ns) ≡ ns)
      → (vs : List T) → All ReadsBack vs
      → (of_vector yaml write vs >>= to_vector yaml read) ≡ some vs
  unfolding of_vector to_vector
  to_vector-of_vector parsed kept vs h =
      let ns = nodes vs h in
      rw (push_each_lem yaml.empty vs h, parsed (pushed yaml yaml.empty ns), kept ns)
        (read_each_lem (with_last yaml) [] vs h ∙ ap some (added_last [] vs))

  -- A set, in the order of its comparison, whose elements are read back as they are written: where a
  -- text that is printed is parsed as the same node, and a sequence has the nodes that were pushed,
  -- the cast to a text and back gives the set.
  to_set-of_vector :
      (lt : T → T → Bool)
      → ((n : N) → yaml.load (yaml.print n) ≡ some n)
      → ((ns : List N) → yaml.elements (pushed yaml yaml.empty ns) ≡ ns)
      → ((a b : T) → lt a b ≡ true → lt b a ≡ false)
      → (vs : List T) → All ReadsBack vs
      → Ascending lt vs
      → (of_vector yaml write vs >>= to_set yaml lt read) ≡ some vs
  unfolding of_vector to_set
  to_set-of_vector lt parsed kept asym vs h up =
      let ns = nodes vs h in
      rw (push_each_lem yaml.empty vs h, parsed (pushed yaml yaml.empty ns), kept ns)
        (read_each_lem (λ ws v. insert lt v ws) [] vs h
          ∙ ap some (added-insert lt asym [] vs (Below-none lt vs) up))

  -- The members that the cast of a map puts into a node.
  abbrev pub written : (vs : List (Str × T)) → All (λ p. ReadsBack p.1) vs → List (Str × N)
  written [] h = []
  written ((k, v) ∷ vs) (h, hs) = (k, h.0) ∷ written vs hs

  keys_above :
      (k : Str) (vs : List (Str × T)) (h : All (λ p. ReadsBack p.1) vs)
      → All (λ p. before k p.0 ≡ true) vs
      → All (λ (p : Str × N). before k p.0 ≡ true) (written vs h)
  keys_above k [] h up = tt
  keys_above k ((j, v) ∷ vs) (h, hs) up = (up.0, keys_above k vs hs up.1)

  same_keys :
      (vs : List (Str × T)) (h : All (λ p. ReadsBack p.1) vs)
      → Ascending (before_key yaml) vs
      → Ascending (λ p q. before p.0 q.0) (written vs h)
  same_keys [] h up = tt
  same_keys ((k, v) ∷ vs) (h, hs) up = (keys_above k vs hs up.0, same_keys vs hs up.1)

  put_each_lem :
      (node : N) (vs : List (Str × T)) (h : All (λ p. ReadsBack p.1) vs)
      → put_each yaml write node vs ≡ some (filled yaml node (written vs h))
  put_each_lem node [] h = refl
  put_each_lem node ((k, v) ∷ vs) (h, hs) = rw (h.1) (put_each_lem (yaml.put node k h.0) vs hs)

  read_members_lem :
      (acc vs : List (Str × T)) (h : All (λ p. ReadsBack p.1) vs)
      → Below (before_key yaml) acc vs
      → Ascending (before_key yaml) vs
      → read_members yaml read acc (written vs h) ≡ some (acc ++ vs)
  read_members_lem acc [] h low up = ap some (sym (append-nil acc))
  read_members_lem acc ((k, v) ∷ vs) (h, hs) low up =
      let lt = before_key yaml in
      let here =
        insert_last lt (k, v) acc (both_ways lt (λ a b. before-asym a.0 b.0) (k, v) acc low.0) in
      rw (h.2) (
        ap (λ ws. read_members yaml read ws (written vs hs)) here
        ∙ read_members_lem (acc ++ (k, v) ∷ []) vs hs (Below-snoc lt acc (k, v) vs low.1 up.0) up.1
        ∙ ap some (append_assoc acc ((k, v) ∷ []) vs))

  -- A map, in the order of its keys, whose values are read back as they are written: where a text that
  -- is printed is parsed as the same node, and a node has the members that were put into an empty one
  -- under different keys, the cast to a text and back gives the map.
  pub to_map-of_map :
      ((n : N) → yaml.load (yaml.print n) ≡ some n)
      → ((ns : List (Str × N))
          → Ascending (λ p q. before p.0 q.0) ns
          → yaml.members (filled yaml yaml.empty ns) ≡ ns)
      → (vs : List (Str × T)) → All (λ p. ReadsBack p.1) vs
      → Ascending (before_key yaml) vs
      → (of_map yaml write vs >>= to_map yaml read) ≡ some vs
  unfolding of_map to_map
  to_map-of_map parsed kept vs h up =
      let ns = written vs h in
      rw
        (
          put_each_lem yaml.empty vs h,
          parsed (filled yaml yaml.empty ns),
          kept ns (same_keys vs h up),
        )
        (read_members_lem [] vs h (Below-none (before_key yaml) vs) up)
