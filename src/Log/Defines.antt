-- ===== src/Log/Defines.antt =====
-- The casts between `LogDefine` and its YAML text, `LexicalCast` of src/log.cc. The YAML library is an
-- argument; a step that throws is `none`.
use ztyco.Base.{
  Bool, true, not, Option, none, some, List, [], ◌∷◌, ◌++◌, ◌==◌, if◌then◌else◌, is_empty, Str,
  same,
}
use ztyco.Config.Casts.{Yaml, ◌>>=◌}
use ztyco.Log.Level.{codes, Level, unknow, rank, to_string, from_string}
use ztyco.Log.Manager.{AppenderDefine, LogDefine}

-- `node[key]` for reading, where `none` inside is a node that is not defined; a scalar, and
-- `as<std::string>()`.
pub record Nodes (S N : Type 0) : Type 0 where
  pub yaml : Yaml S N
  pub field : N → Str → Option (Option N)
  pub scalar : Str → N
  pub text : N → Option Str

module _ {S N : Type 0} (y : Nodes S N) where
  -- The text of a node that is defined, or else the given one.
  abbrev pub text_or : Str → Option N → Option Str
  text_or other none = some other
  text_or other (some n) = y.text n

  abbrev pub read_or : N → Str → Str → Option Str
  read_or n key other = do o ← y.field n key; text_or other o

  -- One appender of a definition, `none` inside where it is passed over. Its level is not read.
  abbrev pub file_appender : N → Option N → Option (Option AppenderDefine)
  file_appender a none = some none
  file_appender a (some f) = do
    file ← y.text f
    form ← read_or a (codes "formatter") []
    some (some (record { kind = 1; level = unknow; form = form; file = file }))

  abbrev pub stdout_appender : N → Option (Option AppenderDefine)
  stdout_appender a = do
    form ← read_or a (codes "formatter") []
    some (some (record { kind = 2; level = unknow; form = form; file = [] }))

  abbrev pub appender_as : N → Str → Option (Option AppenderDefine)
  appender_as a type =
      if same type (codes "FileLogAppender")
      then y.field a (codes "file") >>= file_appender a
      else if same type (codes "StdoutLogAppender")
      then stdout_appender a
      else some none

  abbrev pub appender_with : N → Option N → Option (Option AppenderDefine)
  appender_with a none = some none
  appender_with a (some t) = y.text t >>= appender_as a

  unfoldable pub read_appender : N → Option (Option AppenderDefine)
  read_appender a = y.field a (codes "type") >>= appender_with a

  abbrev pub pushed_back : List AppenderDefine → Option AppenderDefine → List AppenderDefine
  pushed_back as' none = as'
  pushed_back as' (some a) = as' ++ a ∷ []

  abbrev pub read_appenders : List AppenderDefine → List N → Option (List AppenderDefine)
  unfolding read_appender
  read_appenders so_far [] = some so_far
  read_appenders so_far (n ∷ ns) = do a ← read_appender n; read_appenders (pushed_back so_far a) ns

  abbrev pub appenders_of : Option N → Option (List AppenderDefine)
  unfolding read_appender
  appenders_of none = some []
  appenders_of (some n) = read_appenders [] (y.yaml.elements n)

  abbrev pub named : N → Option N → Option LogDefine
  unfolding from_string read_appender
  named node none = none
  named node (some n) = do
    name ← y.text n
    level ← read_or node (codes "level") []
    form ← read_or node (codes "formatter") []
    list ← y.field node (codes "appenders")
    as' ← appenders_of list
    some (record { name = name; level = from_string level; form = form; appenders = as' })

  -- `LexicalCast<std::string, LogDefine>`
  unfoldable pub define_of : S → Option LogDefine
  unfolding from_string read_appender
  define_of s = do node ← y.yaml.load s; n ← y.field node (codes "name"); named node n

  abbrev pub put_text : Bool → N → Str → Str → N
  put_text on node key value = if on then y.yaml.put node key (y.scalar value) else node

  abbrev pub is_known : Level → Bool
  is_known l = not (rank l == 0)

  -- The node of an appender.
  abbrev pub of_kind : AppenderDefine → N
  of_kind a =
      if a.kind == 1
      then put_text true (put_text true y.yaml.empty (codes "type") (codes "FileLogAppender"))
          (codes "file") a.file
      else put_text (a.kind == 2) y.yaml.empty (codes "type") (codes "StdoutLogAppender")

  unfoldable pub appender_node : AppenderDefine → N
  unfolding to_string
  appender_node a =
      put_text (not (is_empty a.form))
        (put_text (is_known a.level) (of_kind a) (codes "level") (to_string a.level))
        (codes "formatter") a.form

  abbrev pub push_appenders : N → List AppenderDefine → N
  unfolding appender_node
  push_appenders node [] = node
  push_appenders node (a ∷ as') = push_appenders (y.yaml.push_back node (appender_node a)) as'

  -- The node of the definition without its appenders, and with them: the first `push_back` makes the
  -- member.
  abbrev pub head_node : LogDefine → N
  unfolding to_string
  head_node d =
      put_text (not (is_empty d.form))
        (put_text (is_known d.level) (put_text true y.yaml.empty (codes "name") d.name)
          (codes "level") (to_string d.level))
        (codes "formatter") d.form

  -- `LexicalCast<LogDefine, std::string>`
  unfoldable pub of_define : LogDefine → S
  unfolding to_string appender_node
  of_define d = y.yaml.print (
      if is_empty d.appenders
      then head_node d
      else y.yaml.put (head_node d) (codes "appenders") (push_appenders y.yaml.empty d.appenders))
