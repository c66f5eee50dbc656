-- ===== src/Api/Features.antt =====
-- internal/api/api.go: what the server offers.
use nimbus_fs.Api.{auth_methods, features, file_types, Env, Handler, UserHandler, write_json}

module _ {S : Type 0} (env : Env S) where
  -- Features
  unfoldable pub get_features : UserHandler S
  get_features username r app =
      (write_json 200 (features env.config.sharing.enabled env.config.search.enabled), app)

  -- FileTypes
  unfoldable pub get_file_types : UserHandler S
  get_file_types username r app = (write_json 200 (file_types env.file_type_names), app)

  -- AuthMethods
  unfoldable pub get_auth_methods : Handler S
  get_auth_methods r app =
      let auth = env.config.auth in
      (write_json 200 (auth_methods auth.pam auth.ssh_keys auth.proxy_auth), app)
