-- ===== src/Config.antt =====
-- internal/config/config.go: the configuration, its defaults and its validation. Reading and
-- writing the YAML file is the library's.
use nimbus_fs.Prelude.{
  Bool, true, false, not, ◌&&◌, Option, none, some, ◌≡◌, ◌↔◌, ◌⊎◌, [], ◌∷◌, GoString, codes, Result,
  ok, err, arith, ◌>>◌,
}

pub record ServerConfig : Type 0 where
  pub listen : GoString
  pub behind_proxy : Bool

pub record FilesystemConfig : Type 0 where
  pub root : GoString

pub record AuthConfig : Type 0 where
  pub pam : Bool
  pub ssh_keys : Bool
  pub proxy_auth : Bool

pub record SharingConfig : Type 0 where
  pub enabled : Bool

pub record SearchConfig : Type 0 where
  pub enabled : Bool

pub record UiConfig : Type 0 where
  pub dark_mode : Bool

pub record Config : Type 0 where
  pub server : ServerConfig
  pub filesystem : FilesystemConfig
  pub auth : AuthConfig
  pub sharing : SharingConfig
  pub search : SearchConfig
  pub ui : UiConfig
  pub data_dir : GoString

-- Default
unfoldable pub default : Config
default = record {
  server = record { listen = codes "127.0.0.1:8080"; behind_proxy = false };
  filesystem = record { root = codes "/srv/files" };
  auth = record { pam = true; ssh_keys = false; proxy_auth = false };
  sharing = record { enabled = true };
  search = record { enabled = true };
  ui = record { dark_mode = true };
  data_dir = codes "/var/lib/nimbusfs";
}

pub data ConfigError : Type 0 where
  no_listen no_root root_missing root_no_directory no_auth_method no_data_dir : ConfigError

abbrev pub is_empty : GoString → Bool
is_empty [] = true
is_empty (c ∷ s) = false

abbrev pub require : Bool → ConfigError → Result ConfigError (Unit {0})
require true e = ok tt
require false e = err e

abbrev pub directory_at : Option Bool → Result ConfigError (Unit {0})
directory_at none = err root_missing
directory_at (some is_dir) = require is_dir root_no_directory

-- Validate. `stat` is os.Stat: whether there is something at a path, and a directory.
unfoldable pub validate : (GoString → Option Bool) → Config → Result ConfigError (Unit {0})
validate stat c = do
  require (not (is_empty c.server.listen)) no_listen
  require (not (is_empty c.filesystem.root)) no_root
  directory_at (stat c.filesystem.root)
  require (not (not c.auth.pam && not c.auth.ssh_keys && not c.auth.proxy_auth)) no_auth_method
  require (not (is_empty c.data_dir)) no_data_dir

-- A configuration that the server starts with.
abbrev pub IsUsable : (GoString → Option Bool) → Config → Type 0
IsUsable stat c =
    (is_empty c.server.listen ≡ false)
    × (stat c.filesystem.root ≡ some true)
    × (is_empty c.filesystem.root ≡ false)
    × ((c.auth.pam ≡ true) ⊎ (c.auth.ssh_keys ≡ true) ⊎ (c.auth.proxy_auth ≡ true))
    × (is_empty c.data_dir ≡ false)

-- Validate accepts a configuration if and only if the listen address, the root and the data
-- directory are not empty, the root is an existing directory, and a login method is enabled.
pub validate_iff :
    (stat : GoString → Option Bool) (c : Config) → (validate stat c ≡ ok tt) ↔ IsUsable stat c
unfolding validate
validate_iff stat c = ground arith
