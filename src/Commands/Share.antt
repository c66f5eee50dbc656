-- ===== src/Commands/Share.antt =====
-- cmd/nimbusfs/share.go: `nimbusfs share`. Flags, the configuration file and the machine are
-- parameters; a command that fails prints and exits.
pub mod Stored
use nimbus_fs.Prelude.{
  ℕ, suc, ◌==◌, ◌*◌, ◌-◌, ◌%◌, ◌^◌, ltb, Bool, true, false, ◌||◌, if◌then◌else◌, Option, none, some,
  List, [], ◌∷◌, ◌++◌, GoString, codes, str_eq, ℤ, pos, negsuc, ◌*ℤ◌, Time, hour, add_duration,
  Result, ok, err, ◌>>=◌, ◌>>◌,
}
use nimbus_fs.Config.{Config, is_empty}
use nimbus_fs.GoLib.Decimal.{atoi}
use nimbus_fs.GoLib.Path.{slash}
use nimbus_fs.Fsops.Sandbox.{FsError, Disk, Sandbox, resolve, rel_path, absolute, new_sandbox}
use nimbus_fs.Store.{Store}
use nimbus_fs.Store.Shares.{Share, create_share}

pub data ShareError : Type 0 where
  usage bad_mode no_config no_sandbox no_absolute outside invalid : ShareError
  inaccessible bad_expiry no_hash no_user no_token no_store not_created : ShareError

pub record ShareFlags : Type 0 where
  pub config : GoString
  pub mode : GoString
  pub password : GoString
  pub expires : GoString
  pub base_url : GoString

-- What the command draws from its surroundings, as the user who runs it.
pub record Machine : Type 0 where
  pub load_config : GoString → Option Config
  pub working_dir : Option GoString
  pub disk : Disk
  pub can_stat : GoString → Bool
  pub parse_duration : GoString → Option ℤ
  pub hash_password : GoString → Option GoString
  pub current_user : Option GoString
  pub token : Option GoString
  pub open_store : GoString → Option Store
  pub now : Time

abbrev pub or_fail : {A : Type 0} → Option A → ShareError → Result ShareError A
or_fail none e = err e
or_fail (some a) e = ok a

abbrev pub or_report : {A : Type 0} → Result FsError A → ShareError → Result ShareError A
or_report (err x) e = err e
or_report (ok a) e = ok a

abbrev pub require : Bool → ShareError → Result ShareError (Unit {0})
require true e = ok tt
require false e = err e

-- resolveSharePath
unfoldable pub resolve_share_path : Machine → Sandbox → GoString → Result ShareError GoString
resolve_share_path m s input = do
  abs_input ← or_report (absolute m.working_dir input) no_absolute
  guess ← or_report (rel_path s abs_input) outside
  canonical ← or_report (resolve m.disk s guess) invalid
  require (m.can_stat canonical) inaccessible
  or_report (rel_path s canonical) outside

-- A number below 2 ^ 64 as an int64.
abbrev pub to_int64 : ℕ → ℤ
to_int64 n = if ltb n (2 ^ 63) then pos n else negsuc (2 ^ 64 - n - 1)

-- The wrap-around of an int64.
abbrev pub wrap_int64 : ℤ → ℤ
wrap_int64 (pos n) = to_int64 (n % 2 ^ 64)
wrap_int64 (negsuc n) = to_int64 ((2 ^ 64 - suc n % 2 ^ 64) % 2 ^ 64)

abbrev pub prepend : ℕ → Option GoString → Option GoString
prepend c none = none
prepend c (some s) = some (c ∷ s)

-- strings.TrimSuffix(s, "d"), where it has that suffix.
unfoldable pub days_text : GoString → Option GoString
days_text [] = none
days_text (c ∷ []) = if c == b'd' then some [] else none
days_text (c ∷ d ∷ s) = prepend c (days_text (d ∷ s))

abbrev pub days : Option ℤ → Option ℤ
days none = none
days (some n) = some (wrap_int64 (n *ℤ pos (24 * hour)))

-- parseExpiry
unfoldable pub parse_expiry : Machine → GoString → Option ℤ
parse_expiry m s = elim (days_text s) [ none ↦ m.parse_duration s | some n ↦ days (atoi n) ]

abbrev pub later : Time → Option ℤ → Option Time
later now none = none
later now (some d) = some (add_duration now d)

-- The expiry, 0 being none.
abbrev pub expires_at : Machine → GoString → Option Time
expires_at m s = if is_empty s then some 0 else later m.now (parse_expiry m s)

abbrev pub password_hash : Machine → GoString → Option GoString
password_hash m password = if is_empty password then some [] else m.hash_password password

abbrev pub is_mode : GoString → Bool
is_mode mode =
    str_eq mode (codes "both")
    || str_eq mode (codes "view_only")
    || str_eq mode (codes "download_only")

abbrev pub one_argument : List GoString → Result ShareError GoString
one_argument (path ∷ []) = ok path
one_argument _ = err usage

-- strings.TrimRight(s, "/")
abbrev pub cons_unless_slash : ℕ → GoString → GoString
cons_unless_slash c [] = if c == slash then [] else c ∷ []
cons_unless_slash c (d ∷ s) = c ∷ d ∷ s

unfoldable pub trim_slashes : GoString → GoString
trim_slashes [] = []
trim_slashes (c ∷ s) = cons_unless_slash c (trim_slashes s)

abbrev pub link : GoString → GoString → GoString
link base_url token =
    let path = codes "/share/" ++ token in
    if is_empty base_url then path else trim_slashes base_url ++ path

-- The part of cmdShare behind resolveSharePath.
unfoldable pub create_link :
    Machine → ShareFlags → Config → GoString → Result ShareError (GoString × Store)
create_link m flags cfg path = do
  at ← or_fail (expires_at m flags.expires) bad_expiry
  hash ← or_fail (password_hash m flags.password) no_hash
  username ← or_fail m.current_user no_user
  token ← or_fail m.token no_token
  st ← or_fail (m.open_store cfg.data_dir) no_store
  st' ←
      or_fail
        (create_share st (record {
          token = token;
          username = username;
          path = path;
          mode = flags.mode;
          password_hash = hash;
          created_at = m.now;
          expires_at = at;
        }))
        not_created
  ok (link flags.base_url token, st')

-- cmdShare: the link that it prints, and the database after it.
unfoldable pub cmd_share :
    Machine → ShareFlags → List GoString → Result ShareError (GoString × Store)
cmd_share m flags args = do
  input ← one_argument args
  require (is_mode flags.mode) bad_mode
  cfg ← or_fail (m.load_config flags.config) no_config
  s ← or_report (new_sandbox m.working_dir m.disk cfg.filesystem.root) no_sandbox
  path ← resolve_share_path m s input
  create_link m flags cfg path
