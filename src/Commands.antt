-- ===== src/Commands.antt =====
-- cmd/nimbusfs: the parts of the commands that decide something.
pub mod Share
pub mod SshLogin
use nimbus_fs.Prelude.{
  ℕ, ◌==◌, Bool, true, false, if◌then◌else◌, Option, none, some, List, [], ◌∷◌, GoString, codes,
  str_eq,
}
use nimbus_fs.GoLib.Path.{slash}

abbrev pub default_config_path : GoString
default_config_path = codes "/etc/nimbusfs/config.yaml"

-- configPathFlag
unfoldable pub config_path_flag : List GoString → GoString
config_path_flag [] = default_config_path
config_path_flag (a ∷ []) = default_config_path
config_path_flag (a ∷ b ∷ args) =
    let rest = config_path_flag (b ∷ args) in if str_eq a (codes "-config") then b else rest

-- What stands before the last slash, if there is one.
unfoldable pub before_last_slash : GoString → Option GoString
before_last_slash [] = none
before_last_slash (c ∷ s) = elim (before_last_slash s) [
  | none ↦ if c == slash then some [] else none
  | some t ↦ some (c ∷ t)
]

abbrev pub or_dot : Option GoString → GoString
or_dot none = codes "."
or_dot (some p) = p

-- parentDir
unfoldable pub parent_dir : GoString → GoString
parent_dir p = or_dot (before_last_slash p)
