-- ===== src/Api/SshAuth/Signed.antt =====
-- internal/api/sshauth.go: a session by SSH key needs a signature by one of the user's keys.
use nimbus_fs.Prelude.{
  Bool, true, false, if◌then◌else◌, ◌≡◌, ◌≢◌, refl, inl, inr, Option, none, some, List, [], ◌∷◌,
  GoString, codes, Bool-cases,
}
use nimbus_fs.Config.{is_empty}
use nimbus_fs.Store.{Store, record_audit}
use nimbus_fs.Auth.SessionManager.{Cookie, create}
use nimbus_fs.Auth.Device.{Status, approved, pending, Challenge, empty, by_poll_token, consume}
use nimbus_fs.Auth.Device.Approval.{HoldsOfApproved, empty-HoldsOfApproved, by_poll_token-eq-some}
use nimbus_fs.Api.{Request, Response, ssh_approved, Env, App, write_error, client_ip, audited}
use nimbus_fs.Api.Middleware.{csrf_cookie}
use nimbus_fs.Api.SshAuth.{
  is_https, session_started, poll_status, poll_found, ssh_poll, ssh_device_info,
}
use nimbus_fs.Api.SshAuth.Calls.{
  Call, starts, polls, asks, responds, elsewhere, answer, after, WasProved, ssh_start-Holds,
  ssh_poll-Holds, ssh_respond-Holds,
}

module _ {S : Type 0} where
  -- A statement that grows with the list of requests.
  after-HoldsOfApproved :
      (cs : List (Call S)) (app : App S)
      → app.devices ≡ empty
      → HoldsOfApproved (WasProved cs) (after cs app).devices
  unfolding after answer ssh_device_info
  after-HoldsOfApproved [] app start = rw start (empty-HoldsOfApproved (WasProved {S = S} []))
  after-HoldsOfApproved (c ∷ cs) app start =
      answered c (λ a d e s. inr (after-HoldsOfApproved cs app start a d e s))
    where
      answered :
          (c : Call S)
          → HoldsOfApproved (WasProved (c ∷ cs)) (after cs app).devices
          → HoldsOfApproved (WasProved (c ∷ cs)) (answer c (after cs app)).devices
      answered (starts env body r) h = ssh_start-Holds _ env r (after cs app) h body
      answered (polls env r) h = ssh_poll-Holds _ env r (after cs app) h
      answered (asks env r) h = h
      answered (responds env body r) h =
          ssh_respond-Holds _ env r (after cs app) h body (λ nonce username p. inl p)
      answered (elsewhere f) h = h

  audited-sessions :
      (env : Env S) (username ip : GoString) (app : App S)
      → (audited env username (codes "login_ssh") [] ip [] app).store.sessions ≡ app.store.sessions
  unfolding audited record_audit
  audited-sessions env username ip app = elim (Bool-cases app.store.writable) [
    | inl e ↦ rw e refl
    | inr e ↦ rw e refl
  ]

  -- What SSHPoll has found and done when it logs a browser in: the only cookies are that of a session
  -- for the user of the challenge, which the database has, and the CSRF cookie, and the login is over.
  abbrev pub IsLoggedIn : Env S → Request → List (Call S) → App S → Response × App S → Type 0
  IsLoggedIn env r cs app result =
      (c : Challenge) × (cookie : Cookie) × (st : Store) × (by_poll_token app.devices
          (r.query (codes "pollToken")) env.now
        ≡ some c)
      × WasProved cs c.nonce c.username
      × (create app.store env.session_token env.now c.username false (is_https r)
          ≡ some (cookie, st))
      × (result.0.cookies ≡ cookie ∷ csrf_cookie env.csrf_token (is_https r) ∷ [])
      × (result.0.body ≡ ssh_approved c.username)
      × (result.1.store.sessions ≡ st.sessions)
      × (result.1.devices ≡ consume app.devices (r.query (codes "pollToken")))

  module _ (env : Env S) (r : Request) (cs : List (Call S)) (app : App S)
      (start : app.devices ≡ empty) where
    abbrev poll_token : GoString
    poll_token = r.query (codes "pollToken")

    abbrev found_now : Option Challenge
    found_now = by_poll_token (after cs app).devices poll_token env.now

    -- An answer that sets a cookie is one of these.
    abbrev Sets : Response × App S → Type 0
    Sets result = result.0.cookies ≢ [] → IsLoggedIn env r cs (after cs app) result

    session_started-Sets :
        (c : Challenge) (o : Option (Cookie × Store))
        → found_now ≡ some c
        → c.status ≡ approved
        → create (after cs app).store env.session_token env.now c.username false (is_https r) ≡ o
        → Sets (session_started env poll_token c r (after cs app) o)
    unfolding audited
    session_started-Sets c none e s made set = absurd (set refl)
    session_started-Sets c (some (cookie, st)) e s made set =
        let (a, at, here) = by_poll_token-eq-some (after cs app).devices poll_token env.now c e in
        let proved = after-HoldsOfApproved cs app start a c here s in
        (
          c,
          cookie,
          st,
          e,
          proved,
          made,
          refl,
          refl,
          audited-sessions env c.username (client_ip r) (record (after cs app) { store = st }),
          refl,
        )

    poll_status-Sets :
        (c : Challenge) (s : Status)
        → found_now ≡ some c
        → c.status ≡ s
        → Sets (poll_status env poll_token c s r (after cs app))
    poll_status-Sets c pending e s set = absurd (set refl)
    poll_status-Sets c approved e s set = session_started-Sets c _ e s refl set

    poll_found-Sets :
        (o : Option Challenge) → found_now ≡ o → Sets (poll_found env poll_token o r (after cs app))
    poll_found-Sets none e set = absurd (set refl)
    poll_found-Sets (some c) e set = poll_status-Sets c c.status e refl set

    given_token :
        (b : Bool) (message : GoString)
        → Sets (
            if b
            then (write_error 400 message, after cs app)
            else poll_found env poll_token found_now r (after cs app))
    given_token true message set = absurd (set refl)
    given_token false message set = poll_found-Sets _ refl set

    -- From a server without logins under way, and after any requests: SSHPoll sets a cookie only
    -- if its poll token leads to a challenge and an earlier request to SSHRespond had a signature over
    -- this challenge's nonce that verifies under a key which was among the authorized keys of the
    -- challenge's user then. Its cookies are then that of a new session for this user, which the
    -- database holds, and the CSRF cookie, its answer names this user, and the challenge is removed.
    pub ssh_poll-WasProved :
        (ssh_poll env r (after cs app)).0.cookies ≢ []
        → IsLoggedIn env r cs (after cs app) (ssh_poll env r (after cs app))
    unfolding ssh_poll
    ssh_poll-WasProved = given_token (is_empty poll_token) _
