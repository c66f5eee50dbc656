-- ===== src/Tests/Routes.antt =====
-- Examples of internal/server, and of the handlers for SSH keys and for the owner of a share.
use nimbus_fs.Prelude.{
  ℕ, ◌*◌, ◌+◌, ◌==◌, ◌||◌, leb, Bool, true, false, ◌≡◌, ◌≢◌, refl, ap, length, none, some, List, [],
  ◌∷◌, GoString, codes, str_eq, if◌then◌else◌, ok, pos, arith, max_hours, hour, second, epoch,
  whole_seconds,
}
use nimbus_fs.Config.{default}
use nimbus_fs.Auth.Keys.{PublicKey, load_authorized_keys}
use nimbus_fs.Auth.Keys.Trusted.{AreChecked, load_authorized_keys-AreChecked}
use nimbus_fs.Api.{Request, Env, App}
use nimbus_fs.Api.Middleware.{require_auth}
use nimbus_fs.Api.SshAuth.{RespondRequest, ssh_poll}
use nimbus_fs.Api.SshAuth.Calls.{Call, starts, responds, after}
use nimbus_fs.Api.SshAuth.Signed.{IsLoggedIn, ssh_poll-WasProved}
use nimbus_fs.Api.Sharing.{CreateShareRequest, new_share}
use nimbus_fs.Api.Sharing.Expiry.{is_ok, load_share-new_share}
use nimbus_fs.Api.Shares.{load_share}
use nimbus_fs.Server.{Bodies, Route, delete_one_file, get_search, post_rename, serve}
use nimbus_fs.Server.Gated.{access_of, IsGated, serve-IsGated}
use nimbus_fs.Server.Safe
use nimbus_fs.Server.Safe.{AreReliable}
use nimbus_fs.Tests.Fixture.{Files, env, app, request}
use nimbus_fs.Tests.Index.{generator}

abbrev bodies : Bodies
bodies = record {
  login = none;
  username = none;
  respond = none;
  form = none;
  path = none;
  renaming = none;
  paths = none;
  fuel = 9;
  share = none;
  password = none;
}

abbrev deletion : Request
deletion = record request { method = codes "DELETE" }

serve-IsGated_example :
    IsGated env deletion app
      (access_of delete_one_file)
      (serve env generator bodies delete_one_file deletion app)
serve-IsGated_example = serve-IsGated env generator bodies delete_one_file deletion app refl

-- A server behind a proxy that signs users in, and a request of one of them with the CSRF token.
abbrev proxied : Env Files
proxied = record env {
  config = record default { auth = record { pam = true; ssh_keys = false; proxy_auth = true } };
}

abbrev signed_in : Request
signed_in = record request {
  header = λ name. if str_eq name (codes "X-Remote-User") then codes "ann" else codes "tok";
  cookie = λ name. some (codes "tok");
}

abbrev call_of : Route → Safe.Call Files
call_of route = record {
  env = proxied;
  generator = generator;
  bodies = record bodies { renaming = some (record { path = codes "d/a"; new_name = codes "c" }) };
  route = route;
  request = signed_in;
}

abbrev calls : List (Safe.Call Files)
calls = call_of post_rename ∷ call_of get_search ∷ call_of delete_one_file ∷ []

-- The calls run: the file is renamed.
renames :
    (serve proxied generator (call_of post_rename).bodies post_rename signed_in app).0.status ≡ 200
unfolding serve require_auth nimbus_fs.Prelude.str_eq nimbus_fs.Fsops.Impersonate.lookup_identity
    nimbus_fs.GoLib.Decimal.atoi nimbus_fs.Api.Middleware.ensure_csrf_cookie
    nimbus_fs.Api.Middleware.require_csrf nimbus_fs.Api.Middleware.changes_state
    nimbus_fs.Api.Files.rename nimbus_fs.Api.Files.has_separator nimbus_fs.Api.as_account
    nimbus_fs.Fsops.Impersonate.impersonate nimbus_fs.Fsops.Impersonate.as_user
    nimbus_fs.Fsops.Ops.rename_entry nimbus_fs.Fsops.Sys.◌>>=◌ nimbus_fs.Fsops.Sys.resolved
    nimbus_fs.Fsops.Sandbox.resolve nimbus_fs.Fsops.Sandbox.resolve_joined
    nimbus_fs.Fsops.Sandbox.within nimbus_fs.GoLib.Path.join nimbus_fs.GoLib.Path.clean
    nimbus_fs.Prelude.has_prefix nimbus_fs.Fsops.Sandbox.deepest_existing nimbus_fs.GoLib.Path.base
    nimbus_fs.GoLib.Path.dir nimbus_fs.Fsops.Sys.does nimbus_fs.Fsops.Sys.lift
    nimbus_fs.GoLib.Path.join_slash nimbus_fs.Fsops.Sandbox.deepest_from
    nimbus_fs.GoLib.Path.resolve_elems nimbus_fs.GoLib.Path.resolve_elem
    nimbus_fs.GoLib.Path.split_slash nimbus_fs.Fsops.Sandbox.rel_path nimbus_fs.GoLib.Path.Rel.rel
renames = refl

loads : load_authorized_keys env.key_files (codes "ann") ≡ ok (codes "key-a" ∷ [])
unfolding load_authorized_keys nimbus_fs.Auth.Keys.check_strict_perms nimbus_fs.Prelude.str_eq
    nimbus_fs.Auth.Keys.keys_of nimbus_fs.Auth.Keys.scanned nimbus_fs.GoLib.Strings.raw_lines
    nimbus_fs.GoLib.Strings.trim_space nimbus_fs.GoLib.Strings.trim_right
    nimbus_fs.GoLib.Strings.trim_left
loads = refl

load_authorized_keys-AreChecked_example :
    AreChecked env.key_files (codes "ann") (codes "key-a" ∷ [])
load_authorized_keys-AreChecked_example =
    load_authorized_keys-AreChecked env.key_files (codes "ann") (codes "key-a" ∷ []) loads

-- A login by SSH key: it is started, proved and polled for.
abbrev ssh_env : Env Files
ssh_env = record env {
  config = record default { auth = record { pam = true; ssh_keys = true; proxy_auth = false } };
}

abbrev proof : RespondRequest
proof = record {
  code = codes "abcdefgh";
  public_key = codes "key-a";
  sig_format = codes "f";
  signature = codes "key-an1";
}

abbrev polling : Request
polling = record request { query = λ name. codes "poll" }

abbrev handshake : List (Call Files)
handshake = responds ssh_env (some proof) request ∷ starts ssh_env (some (codes "ann")) request ∷ []

two_cookies : length (ssh_poll ssh_env polling (after handshake app)).0.cookies ≡ 2
unfolding ssh_poll after nimbus_fs.Auth.Device.by_poll_token nimbus_fs.Prelude.Dict.get
    nimbus_fs.Api.SshAuth.Calls.answer nimbus_fs.Api.SshAuth.ssh_respond
    nimbus_fs.Auth.Device.by_code nimbus_fs.Api.SshAuth.ssh_start nimbus_fs.Api.SshAuth.start_with
    nimbus_fs.Store.recent_failed_attempts nimbus_fs.Fsops.Impersonate.lookup_identity
    nimbus_fs.Prelude.str_eq nimbus_fs.GoLib.Decimal.atoi load_authorized_keys
    nimbus_fs.Auth.Keys.check_strict_perms nimbus_fs.Auth.Keys.keys_of nimbus_fs.Auth.Keys.scanned
    nimbus_fs.GoLib.Strings.raw_lines nimbus_fs.GoLib.Strings.trim_space
    nimbus_fs.Api.SshAuth.key_is_authorized nimbus_fs.Api.audited nimbus_fs.Api.client_ip
    nimbus_fs.Auth.Device.approve nimbus_fs.Auth.Device.consume nimbus_fs.Auth.Device.new
    nimbus_fs.Auth.Device.sweep nimbus_fs.Auth.Device.sweep_entries
    nimbus_fs.Auth.SessionManager.create nimbus_fs.Fsops.Impersonate.group_numbers
    nimbus_fs.GoLib.Decimal.all_digits nimbus_fs.GoLib.Decimal.parse_digits
    nimbus_fs.GoLib.Decimal.value nimbus_fs.GoLib.Path.clean nimbus_fs.GoLib.Path.join
    nimbus_fs.GoLib.Path.join_slash nimbus_fs.GoLib.Path.resolve_elem
    nimbus_fs.GoLib.Path.resolve_elems nimbus_fs.GoLib.Path.split_slash
    nimbus_fs.GoLib.Strings.trim_left nimbus_fs.GoLib.Strings.trim_right nimbus_fs.Prelude.unix
    nimbus_fs.Prelude.Dict.put nimbus_fs.Prelude.Dict.remove nimbus_fs.Store.count_rows
    nimbus_fs.Store.create_session nimbus_fs.Store.first_row
two_cookies = refl

logs_in : (ssh_poll ssh_env polling (after handshake app)).0.cookies ≢ []
logs_in e = absurd (omega (arith, two_cookies, ap length e))

ssh_poll-WasProved_example :
    IsLoggedIn ssh_env polling handshake
      (after handshake app)
      (ssh_poll ssh_env polling (after handshake app))
ssh_poll-WasProved_example = ssh_poll-WasProved ssh_env polling handshake app refl logs_in

abbrev one_hour : CreateShareRequest
one_hour = record { path = codes "d/a"; mode = []; password = []; expires_in_hours = pos 1 }

created : (new_share env (some one_hour) (codes "ann") request app).0.status ≡ 200
unfolding new_share default nimbus_fs.Fsops.Impersonate.lookup_identity nimbus_fs.Prelude.str_eq
    nimbus_fs.GoLib.Decimal.atoi nimbus_fs.Api.as_account nimbus_fs.Fsops.Impersonate.impersonate
    nimbus_fs.Fsops.Impersonate.as_user nimbus_fs.Fsops.Ops.stat nimbus_fs.Fsops.Sys.◌>>=◌
    nimbus_fs.Fsops.Sys.resolved nimbus_fs.Fsops.Sandbox.resolve
    nimbus_fs.Fsops.Sandbox.resolve_joined nimbus_fs.Fsops.Sandbox.within nimbus_fs.GoLib.Path.join
    nimbus_fs.GoLib.Path.clean nimbus_fs.Prelude.has_prefix nimbus_fs.Fsops.Sandbox.deepest_existing
    nimbus_fs.Api.Sharing.expiry nimbus_fs.Api.audited nimbus_fs.Api.client_ip
    nimbus_fs.Fsops.Impersonate.capture_root_groups nimbus_fs.Fsops.Impersonate.group_numbers
    nimbus_fs.Fsops.Impersonate.restore nimbus_fs.Fsops.Ops.entry_from_info nimbus_fs.Fsops.Sys.lift
    nimbus_fs.Fsops.Sys.stats nimbus_fs.GoLib.Decimal.all_digits
    nimbus_fs.GoLib.Decimal.parse_digits nimbus_fs.GoLib.Decimal.value nimbus_fs.GoLib.Path.base
    nimbus_fs.GoLib.Path.dir nimbus_fs.GoLib.Path.join_slash nimbus_fs.GoLib.Path.resolve_elem
    nimbus_fs.GoLib.Path.resolve_elems nimbus_fs.GoLib.Path.split_slash
    nimbus_fs.GoLib.Path.strip_slashes nimbus_fs.Prelude.hours nimbus_fs.Prelude.unix
    nimbus_fs.Store.Shares.create_share nimbus_fs.Store.first_row
created = refl

load_share-new_share_example :
    is_ok (
      load_share env
        (new_share env (some one_hour) (codes "ann") request app).1.store
        (codes "tok"))
    ≡ (1 == 0 || leb env.now (whole_seconds (env.now + 1 * hour)))
load_share-new_share_example =
    load_share-new_share env env (codes "ann") (codes "tok") request one_hour app 1 refl refl
      (omega arith) (omega arith) created
