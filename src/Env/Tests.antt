-- ===== src/Env/Tests.antt =====
-- The environment at concrete command lines, src/env.cc.
use ztyco.Base.{◌≡◌, refl, none, some, List, [], ◌∷◌}
use ztyco.Env.{Env, get, get_absolute_path, get_absolute_work_path, get_config_path}
use ztyco.Env.Args.{Opt}

-- `/bin`, with the option `c` set to `x`.
abbrev started : Env
started = record {
  args = (99 ∷ [], 120 ∷ []) ∷ [];
  helps = (99 ∷ [], 111 ∷ []) ∷ (100 ∷ [], 112 ∷ []) ∷ [];
  program_name = [];
  exe_path = 47 ∷ 98 ∷ 105 ∷ 110 ∷ [];
  cwd = 47 ∷ [];
}

config_path : get_config_path started ≡ 47 ∷ 120 ∷ []
unfolding get_config_path get_absolute_path get
config_path = refl

stray_blank : get_absolute_work_path [] [] ≡ 47 ∷ 32 ∷ []
unfolding get_absolute_work_path
stray_blank = refl

-- `-c x -d`
abbrev two_options : List Opt
two_options = (99 ∷ [], some (120 ∷ [])) ∷ (100 ∷ [], none) ∷ []
