-- ===== src/Config/Docs.antt =====
-- A YAML library that does what the casts of include/config.h and src/log.cc rely on: its texts are its
-- nodes.
use mathlib.Core.List.{append-nil, append_assoc}
use ztyco.Base.{◌≡◌, sym, ◌∙◌, some, List, [], ◌∷◌, ◌++◌, Str}
use ztyco.Config.Casts.{Yaml}
use ztyco.Config.Containers.{pushed, filled}

-- A sequence is what was pushed onto an empty node, a map
-- what was put into one.
pub data Doc : Type 0 where
  leaf : Str → Doc
  begun : Doc
  onto : Doc → Doc → Doc
  into : Doc → Str → Doc → Doc

abbrev pub pushes : Doc → List Doc
pushes (leaf v) = []
pushes begun = []
pushes (onto d e) = pushes d ++ e ∷ []
pushes (into d k e) = []

abbrev pub puts : Doc → List (Str × Doc)
puts (leaf v) = []
puts begun = []
puts (onto d e) = []
puts (into d k e) = puts d ++ (k, e) ∷ []

abbrev pub docs : Yaml Doc Doc
docs = record {
  load = some;
  print = λ d. d;
  empty = begun;
  push_back = onto;
  elements = pushes;
  put = into;
  members = puts;
}

pub pushes_kept : (d : Doc) (ds : List Doc) → pushes (pushed docs d ds) ≡ pushes d ++ ds
pushes_kept d [] = sym (append-nil (pushes d))
pushes_kept d (e ∷ ds) = pushes_kept (onto d e) ds ∙ append_assoc (pushes d) (e ∷ []) ds

pub puts_kept : (d : Doc) (ds : List (Str × Doc)) → puts (filled docs d ds) ≡ puts d ++ ds
puts_kept d [] = sym (append-nil (puts d))
puts_kept d ((k, e) ∷ ds) = puts_kept (into d k e) ds ∙ append_assoc (puts d) ((k, e) ∷ []) ds
