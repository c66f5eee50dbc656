-- ===== src/Tests/Commands.antt =====
-- Examples of cmd/nimbusfs.
use nimbus_fs.Prelude.{
  ◌*◌, ◌-◌, ◌++◌, Bool, true, ◌≡◌, ◌⊎◌, inl, inr, str_eq_refl, refl, sym, ap, Option, none, some,
  false, List, [], ◌∷◌, GoString, codes, pos, negsuc, Result, ok, err, ok_inj, if◌then◌else◌, subst,
  hour,
}
use nimbus_fs.Config.{default, is_empty}
use nimbus_fs.Fsops.Sandbox.{not_exist}
use nimbus_fs.Fsops.Sandbox.Root.{IsClean, GivesClean}
use nimbus_fs.Store.{Store}
use nimbus_fs.Commands.{config_path_flag, parent_dir}
use nimbus_fs.Commands.Share.{
  ShareFlags, Machine, days_text, parse_expiry, trim_slashes, resolve_share_path, cmd_share,
}
use nimbus_fs.Commands.Share.Stored.{IsCreated, cmd_share-IsCreated}
use nimbus_fs.Commands.SshLogin.{Signer, code_of, cmd_ssh_login}
use nimbus_fs.Commands.SshLogin.Completes.{client_of, CanLogIn, cmd_ssh_login-approve}
use nimbus_fs.Auth.Keys.{load_authorized_keys}
use nimbus_fs.Auth.Device.{Challenge, new_challenge, insert, empty, by_code, approve}
use nimbus_fs.Api.{App}
use nimbus_fs.Api.SshAuth.{key_is_authorized}
use nimbus_fs.Tests.Fixture.{on_disk, disk, store, noon, Files, env, app, request}

abbrev machine : Machine
machine = record {
  load_config = λ p. some (record default { filesystem = record { root = codes "/srv" } });
  working_dir = some (codes "/srv/d");
  disk = disk;
  can_stat = λ p. true;
  parse_duration = λ s. none;
  hash_password = some;
  current_user = some (codes "ann");
  token = some (codes "tok");
  open_store = λ p. some store;
  now = noon;
}

abbrev flags : ShareFlags
flags = record {
  config = [];
  mode = codes "both";
  password = codes "pw";
  expires = codes "7d";
  base_url = codes "https://host//";
}

paths :
    (config_path_flag (codes "-x" ∷ codes "-config" ∷ codes "c" ∷ []) ≡ codes "c")
    × (config_path_flag (codes "-config" ∷ []) ≡ codes "/etc/nimbusfs/config.yaml")
    × (parent_dir (codes "/etc/x/c.yaml") ≡ codes "/etc/x")
    × (parent_dir (codes "c.yaml") ≡ codes ".")
    × (parent_dir (codes "/c.yaml") ≡ [])
unfolding config_path_flag parent_dir nimbus_fs.Commands.before_last_slash nimbus_fs.Prelude.str_eq
paths = (refl, refl, refl, refl, refl)

expiries :
    (parse_expiry machine (codes "7d") ≡ some (pos (168 * hour)))
    × (parse_expiry machine (codes "-1d") ≡ some (negsuc (24 * hour - 1)))
    × (parse_expiry machine (codes "106752d") ≡ some (negsuc 9223371273709551615))
    × (parse_expiry machine (codes "7h") ≡ none)
unfolding parse_expiry days_text nimbus_fs.GoLib.Decimal.atoi nimbus_fs.GoLib.Decimal.parse_digits
    nimbus_fs.GoLib.Decimal.value nimbus_fs.GoLib.Decimal.all_digits nimbus_fs.Prelude.◌*ℤ◌
expiries = (refl, refl, refl, refl)

abbrev command : Result nimbus_fs.Commands.Share.ShareError (GoString × Store)
command = cmd_share machine flags (codes "a" ∷ [])

-- What the command leaves.
after_command : (url : GoString) × (st : Store) × (command ≡ ok (url, st))
unfolding cmd_share nimbus_fs.Commands.Share.create_link nimbus_fs.Prelude.str_eq resolve_share_path
    nimbus_fs.Fsops.Sandbox.rel_path nimbus_fs.GoLib.Path.Rel.rel nimbus_fs.Fsops.Sandbox.resolve
    nimbus_fs.Fsops.Sandbox.resolve_joined nimbus_fs.Fsops.Sandbox.within nimbus_fs.GoLib.Path.join
    nimbus_fs.GoLib.Path.clean nimbus_fs.Prelude.has_prefix nimbus_fs.Fsops.Sandbox.deepest_existing
    parse_expiry days_text nimbus_fs.GoLib.Decimal.atoi nimbus_fs.Store.Shares.create_share
    nimbus_fs.Store.first_row trim_slashes nimbus_fs.Fsops.Sandbox.deepest_from
    nimbus_fs.GoLib.Decimal.all_digits nimbus_fs.GoLib.Decimal.parse_digits
    nimbus_fs.GoLib.Decimal.value nimbus_fs.GoLib.Path.Rel.rel_elems nimbus_fs.GoLib.Path.base
    nimbus_fs.GoLib.Path.dir nimbus_fs.GoLib.Path.dir_prefix nimbus_fs.GoLib.Path.join_slash
    nimbus_fs.GoLib.Path.resolve_elem nimbus_fs.GoLib.Path.resolve_elems
    nimbus_fs.GoLib.Path.split_slash nimbus_fs.GoLib.Path.strip_slashes nimbus_fs.Prelude.unix
    nimbus_fs.Prelude.◌*ℤ◌ nimbus_fs.Fsops.Sandbox.new_sandbox nimbus_fs.Fsops.Sandbox.absolute
after_command = (codes "https://host/share/tok", _, refl)

disk-GivesClean : GivesClean disk
disk-GivesClean p q clean e = by_test (on_disk p) e
  where
    by_test : (b : Bool) → (if b then ok p else err not_exist) ≡ ok q → IsClean q
    by_test true e = subst IsClean (ok_inj e) clean
    by_test false e = cc

cmd_share-IsCreated_example : IsCreated machine flags after_command.1
cmd_share-IsCreated_example =
    cmd_share-IsCreated machine flags (codes "a" ∷ []) after_command.0 after_command.1 refl
      disk-GivesClean after_command.2

-- A login that is typed in with blanks and small letters, with two keys of which one is authorized.
abbrev signer : GoString → Signer
signer key = record { public_key = key; sign = λ nonce. some (codes "f", key ++ nonce) }

abbrev signers : List Signer
signers = signer (codes "key-b") ∷ signer (codes "key-a") ∷ []

abbrev challenge : Challenge
challenge =
    new_challenge
      (record { nonce = codes "n1"; code_raw = codes "ABCDEFGHIJ"; token = codes "poll" })
      (codes "ann") noon

abbrev waiting : App Files
waiting = record app { devices = insert empty challenge }

known : by_code waiting.devices (codes "ABCDEFGH") env.now ≡ some challenge
unfolding by_code nimbus_fs.Prelude.Dict.get nimbus_fs.Prelude.Dict.put nimbus_fs.Prelude.str_eq
known = refl

code : code_of [] (codes " abcDefgh ") ≡ codes "ABCDEFGH"
unfolding code_of nimbus_fs.GoLib.Strings.upper nimbus_fs.GoLib.Strings.trim_space
    nimbus_fs.GoLib.Strings.trim_left nimbus_fs.GoLib.Strings.trim_right
code = refl

loads : load_authorized_keys env.key_files (codes "ann") ≡ ok (codes "key-a" ∷ [])
unfolding load_authorized_keys nimbus_fs.Auth.Keys.check_strict_perms nimbus_fs.Prelude.str_eq
    nimbus_fs.Auth.Keys.keys_of nimbus_fs.Auth.Keys.scanned nimbus_fs.GoLib.Strings.raw_lines
    nimbus_fs.GoLib.Strings.trim_space nimbus_fs.GoLib.Strings.trim_right
    nimbus_fs.GoLib.Strings.trim_left
loads = refl

authorized : key_is_authorized (codes "key-a") (codes "key-a" ∷ []) ≡ true
unfolding key_is_authorized nimbus_fs.Prelude.str_eq
authorized = refl

able : CanLogIn env waiting (codes "ABCDEFGH") signers challenge
unfolding nimbus_fs.Prelude.str_eq
able = (
  known,
  (
    codes "key-a" ∷ [],
    loads,
    inr (inl authorized),
    (
      ((codes "f", codes "key-bn1", refl, refl, refl), (refl, tt)),
      (((codes "f", codes "key-an1", refl, refl, refl), (refl, tt)), tt),
    ),
  ),
)

coded : is_empty (code_of [] (codes " abcDefgh ")) ≡ false
coded = ap is_empty code

able_typed : CanLogIn env waiting (code_of [] (codes " abcDefgh ")) signers challenge
able_typed = subst (λ x. CanLogIn env waiting x signers challenge) (sym code) able

cmd_ssh_login-approve_example :
    cmd_ssh_login
      (client_of env request (codes " abcDefgh ") (some signers))
      (codes "https://host")
      []
      waiting
    ≡ (
      ok (codes "ann"),
      record waiting { devices = (approve waiting.devices (code_of [] (codes " abcDefgh "))).1 },
    )
cmd_ssh_login-approve_example =
    cmd_ssh_login-approve env (λ s. refl) request waiting (codes "https://host") []
      (codes " abcDefgh ") signers challenge refl coded able_typed
