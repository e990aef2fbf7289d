-- ===== src/Log/Written.antt =====
-- Definitions of loggers written as YAML and read back, the casts of `LogDefine` in src/log.cc.
use mathlib.Core.Option
use mathlib.Core.List.{append-nil}
use ztyco.Base.{
  ◌≡◌, refl, ap, sym, ◌∙◌, inl, inr, Bool, true, false, not, Option, none, some, List, [], ◌∷◌,
  ◌++◌, ◌==◌, ==_iff, if◌then◌else◌, is_empty, Str, same, Bool-cases,
}
use ztyco.Config.Casts.{◌>>=◌}
use ztyco.Config.Containers.{pushed, filled}
use ztyco.Log.Level.{codes, Level, unknow, debug, info, warn, error, fatal, to_string, from_string}
use ztyco.Log.Manager.{AppenderDefine, LogDefine}
use ztyco.Log.Members.{
  last_of, appender_read, appenders_read, none_read, one_more, Entries, value_of, or_text,
}
use ztyco.Log.Fields.{built, field_lem, text_or_lem, field-put}
use ztyco.Log.Defines.{
  Nodes, read_or, file_appender, appender_as, appender_with, read_appender, pushed_back,
  read_appenders, appenders_of, named, define_of, is_known, appender_node, push_appenders,
  head_node, of_define,
}

module _ {S N : Type 0} (y : Nodes S N) (parsed : (n : N) → y.yaml.load (y.yaml.print n) ≡ some n)
    (kept_text : (s : Str) → y.text (y.scalar s) ≡ some s)
    (kept_nodes : (ns : List N) → y.yaml.elements (pushed y.yaml y.yaml.empty ns) ≡ ns)
    (kept_members : (ns : List (Str × N)) (key : Str)
      → y.field (filled y.yaml y.yaml.empty ns) key ≡ some (last_of key ns)) where
  -- The nodes of an appender and of a definition's own texts.
  abbrev last_two : Level → Str → Entries
  last_two l form =
      (is_known y l, codes "level", to_string l)
      ∷ (not (is_empty form), codes "formatter", form)
      ∷ []

  abbrev file_entries : AppenderDefine → Entries
  file_entries a =
      (true, codes "type", codes "FileLogAppender")
      ∷ (true, codes "file", a.file)
      ∷ last_two a.level a.form

  abbrev stdout_entries : Bool → AppenderDefine → Entries
  stdout_entries b a = (b, codes "type", codes "StdoutLogAppender") ∷ last_two a.level a.form

  abbrev head_entries : LogDefine → Entries
  head_entries d = (true, codes "name", d.name) ∷ last_two d.level d.form

  form_lem : (form : Str) → or_text [] (if not (is_empty form) then some form else none) ≡ form
  form_lem [] = refl
  form_lem (c ∷ cs) = refl

  level_lem :
      (l : Level) → from_string (or_text [] (if is_known y l then some (to_string l) else none)) ≡ l
  unfolding from_string to_string
  level_lem unknow = refl
  level_lem debug = refl
  level_lem info = refl
  level_lem warn = refl
  level_lem error = refl
  level_lem fatal = refl

  read_or_lem :
      (key other : Str) (es : Entries)
      → read_or y (built y kept_text kept_members y.yaml.empty es) key other
        ≡ some (or_text other (value_of key es))
  read_or_lem key other es =
      rw (field_lem y kept_text kept_members key es)
        (text_or_lem y kept_text kept_members other (value_of key es))

  read_file :
      (n : N) (file form : Str)
      → y.field n (codes "type") ≡ some (some (y.scalar (codes "FileLogAppender")))
      → y.field n (codes "file") ≡ some (some (y.scalar file))
      → read_or y n (codes "formatter") [] ≡ some form
      → read_appender y n
        ≡ some (some (record { kind = 1; level = unknow; form = form; file = file }))
  unfolding read_appender
  read_file n file form e f g =
      ap (λ o. o >>= appender_with y n) e
      ∙ ap (λ o. o >>= appender_as y n) (kept_text (codes "FileLogAppender"))
      ∙ ap (λ o. o >>= file_appender y n) f
      ∙ rw (kept_text file) (
          ap
            (λ o.
              o >>= λ t. some (some (record { kind = 1; level = unknow; form = t; file = file })))
            g)

  read_stdout :
      (n : N) (form : Str)
      → y.field n (codes "type") ≡ some (some (y.scalar (codes "StdoutLogAppender")))
      → read_or y n (codes "formatter") [] ≡ some form
      → read_appender y n
        ≡ some (some (record { kind = 2; level = unknow; form = form; file = [] }))
  unfolding read_appender
  read_stdout n form e g =
      ap (λ o. o >>= appender_with y n) e
      ∙ ap (λ o. o >>= appender_as y n) (kept_text (codes "StdoutLogAppender"))
      ∙ ap (λ o. o >>= λ t. some (some (record { kind = 2; level = unknow; form = t; file = [] })))
          g

  read_none : (n : N) → y.field n (codes "type") ≡ some none → read_appender y n ≡ some none
  unfolding read_appender
  read_none n e = ap (λ o. o >>= appender_with y n) e

  formatted :
      (form : Str) (es : Entries)
      → value_of (codes "formatter") es ≡ (if not (is_empty form) then some form else none)
      → read_or y (built y kept_text kept_members y.yaml.empty es) (codes "formatter") []
        ≡ some form
  formatted form es e =
      read_or_lem (codes "formatter") [] es ∙ ap some (ap (or_text []) e ∙ form_lem form)

  -- An appender that is written is read back as `appender_read` says.
  read_appender-appender_node :
      (a : AppenderDefine) → read_appender y (appender_node y a) ≡ some (appender_read a)
  unfolding appender_node to_string
  read_appender-appender_node a = elim (Bool-cases (a.kind == 1)) [
    | inl is_file ↦
        let es = file_entries a in
        rw is_file (
          read_file (built y kept_text kept_members y.yaml.empty es) a.file a.form
            (field_lem y kept_text kept_members (codes "type") es)
            (field_lem y kept_text kept_members (codes "file") es) (formatted a.form es refl)
          ∙ ap
              (λ k. some (some (record { kind = k; level = unknow; form = a.form; file = a.file })))
              (sym ((==_iff a.kind 1).0 is_file)))
    | inr no_file ↦ elim (Bool-cases (a.kind == 2)) [
      | inl is_out ↦
          let es = stdout_entries true a in
          rw (no_file, is_out)
            (read_stdout (built y kept_text kept_members y.yaml.empty es) a.form
                (field_lem y kept_text kept_members (codes "type") es) (formatted a.form es refl)
              ∙ ap
                  (λ k. some (some (record { kind = k; level = unknow; form = a.form; file = [] })))
                  (sym ((==_iff a.kind 2).0 is_out)))
      | inr other ↦
          rw (no_file, other)
            (read_none (built y kept_text kept_members y.yaml.empty (stdout_entries false a))
              (field_lem y kept_text kept_members (codes "type") (stdout_entries false a)))
    ]
  ]

  abbrev nodes_of : List AppenderDefine → List N
  unfolding appender_node
  nodes_of [] = []
  nodes_of (a ∷ as') = appender_node y a ∷ nodes_of as'

  push_appenders_lem :
      (node : N) (as' : List AppenderDefine)
      → push_appenders y node as' ≡ pushed y.yaml node (nodes_of as')
  unfolding appender_node
  push_appenders_lem node [] = refl
  push_appenders_lem node (a ∷ as') =
      push_appenders_lem (y.yaml.push_back node (appender_node y a)) as'

  read_appenders_lem :
      (so_far as' : List AppenderDefine)
      → read_appenders y so_far (nodes_of as') ≡ some (so_far ++ appenders_read as')
  unfolding read_appender appender_node
  read_appenders_lem so_far [] = ap some (sym (append-nil so_far))
  read_appenders_lem so_far (a ∷ as') =
      ap (λ o. o >>= λ b. read_appenders y (pushed_back y so_far b) (nodes_of as'))
        (read_appender-appender_node a)
      ∙ read_appenders_lem (pushed_back y so_far (appender_read a)) as'
      ∙ ap some (one_more y so_far (appender_read a) as')

  -- A node with the texts of a definition and its appenders.
  read_head :
      (m : N) (d : LogDefine) (list : Option N) (as' : List AppenderDefine)
      → ((key : Str)
          → same (codes "appenders") key ≡ false
          → y.field m key ≡ some (Option.map y.scalar (value_of key (head_entries d))))
      → y.field m (codes "appenders") ≡ some list
      → appenders_of y list ≡ some as'
      → (y.field m (codes "name") >>= named y m) ≡ some (record d { appenders = as' })
  unfolding from_string read_appender to_string
  read_head m d list as' e f g =
      let es = head_entries d in
      let level = e (codes "level") refl in
      let form = e (codes "formatter") refl in
      ap (λ o. o >>= named y m) (e (codes "name") refl)
      ∙ rw
          (
            kept_text d.name,
            level,
            text_or_lem y kept_text kept_members [] (value_of (codes "level") es),
            form,
            text_or_lem y kept_text kept_members [] (value_of (codes "formatter") es),
            f,
            g,
          )
          (ap
              (λ l. some (record {
                name = d.name;
                level = l;
                form = or_text [] (value_of (codes "formatter") es);
                appenders = as';
              }))
              (level_lem d.level)
            ∙ ap (λ t. some (record { name = d.name; level = d.level; form = t; appenders = as' }))
                (form_lem d.form))

  reread : (m : N) → define_of y (y.yaml.print m) ≡ (y.field m (codes "name") >>= named y m)
  unfolding define_of read_appender from_string
  reread m = ap (λ o. o >>= λ n. y.field n (codes "name") >>= named y n) (parsed m)

  chosen :
      (d : LogDefine) (b : Bool)
      → is_empty d.appenders ≡ b
      → define_of y (of_define y d)
        ≡ define_of y (
            y.yaml.print (
              if b
              then head_node y d
              else y.yaml.put
                  (head_node y d)
                  (codes "appenders")
                  (push_appenders y y.yaml.empty d.appenders)))
  unfolding of_define appender_node to_string
  chosen d b e =
      ap
        (λ c. define_of y (
          y.yaml.print (
            if c
            then head_node y d
            else y.yaml.put (head_node y d) (codes "appenders")
                (push_appenders y y.yaml.empty d.appenders))))
        e

  -- A definition of a logger that is written as YAML and read back, over a YAML library that reads what
  -- it has printed and has the members and elements that were put into a node: its name, its level and
  -- its pattern are the same; so are the kinds, patterns and files of its appenders, whose levels are
  -- lost.
  pub define_of-of_define :
      (d : LogDefine)
      → define_of y (of_define y d) ≡ some (record d { appenders = appenders_read d.appenders })
  unfolding define_of of_define read_appender appender_node to_string from_string
  define_of-of_define d = elim (Bool-cases (is_empty d.appenders)) [
    | inl bare ↦
        let m = built y kept_text kept_members y.yaml.empty (head_entries d) in
        chosen d true bare
        ∙ reread m
        ∙ (read_head m d none [] (λ key e. field_lem y kept_text kept_members key (head_entries d))
              (field_lem y kept_text kept_members (codes "appenders") (head_entries d)) refl
            ∙ ap (λ as'. some (record d { appenders = as' })) (sym (none_read d.appenders bare)))
    | inr more ↦
        let seq = push_appenders y y.yaml.empty d.appenders in
        let es = head_entries d in
        let m =
          y.yaml.put (built y kept_text kept_members y.yaml.empty es) (codes "appenders") seq in
        chosen d false more
        ∙ reread m
        ∙ (read_head m d (some seq) (appenders_read d.appenders)
            (λ key e.
              field-put y kept_text kept_members key (codes "appenders") seq es
              ∙ ap (λ b. some (if b then some seq else Option.map y.scalar (value_of key es))) e)
            (field-put y kept_text kept_members (codes "appenders") (codes "appenders") seq es)
            (ap (λ n. read_appenders y [] (y.yaml.elements n))
                (push_appenders_lem y.yaml.empty d.appenders)
              ∙ ap (read_appenders y []) (kept_nodes (nodes_of d.appenders))
              ∙ read_appenders_lem [] d.appenders))
  ]
