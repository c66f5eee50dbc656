-- ===== src/Api/Sharing/Expiry.antt =====
-- internal/api/shares.go: a share link from its creation to its end.
use nimbus_fs.Prelude.{
  ℕ, zero, suc, ◌+◌, ◌*◌, ◌≤◌, ◌==◌, ltb, leb, Bool, true, false, ◌||◌, ◌&&◌, not, if◌then◌else◌,
  ◌≡◌, refl, sym, ap, ◌∙◌, subst, Option, none, some, GoString, codes, Time, second, hour, epoch,
  pos, hours_of_le, max_hours, whole_seconds, Result, ok, err, arith, Bool-cases, inl, inr,
}
use nimbus_fs.Config.{is_empty}
use nimbus_fs.Fsops.Access.{Identity}
use nimbus_fs.Fsops.Sandbox.{FsError, escape, not_exist, permission, other}
use nimbus_fs.Fsops.Impersonate.{LookupError}
use nimbus_fs.Fsops.Ops.{Entry}
use nimbus_fs.Store.{Store, record_audit}
use nimbus_fs.Store.Shares.{Share, create_share, get_share, read_expiry, get_share-create_share}
use nimbus_fs.Api.{Request, Response, Env, App, audited}
use nimbus_fs.Api.Shares.{ShareError, is_expired, load_share}
use nimbus_fs.Api.Sharing.{
  CreateShareRequest, expiry, share_of_request, stored, hashed, tokened, found, create_as,
  create_checked, new_share,
}

get_share-audited :
    {S : Type 0} (env : Env S) (u a p i d token : GoString) (app : App S)
    → get_share (audited env u a p i d app).store token ≡ get_share app.store token
unfolding get_share audited record_audit
get_share-audited env u a p i d token app = elim (Bool-cases app.store.writable) [
  | inl e ↦ rw e refl
  | inr e ↦ rw e refl
]

-- The token leads to a share with this expiry.
abbrev ReadsBack : GoString → Time → Store → Type 0
ReadsBack token expires st =
    (sh : Share) × (get_share st token ≡ some sh) × (sh.expires_at ≡ read_expiry expires)

module _ {S : Type 0} (env : Env S) (username : GoString) (r : Request) (req : CreateShareRequest)
    (token : GoString) where
  abbrev Stores : Response × App S → Type 0
  Stores result =
      result.0.status ≡ 200 → ReadsBack token (expiry env.now req.expires_in_hours) result.1.store

  hashed-Stores :
      (mode : GoString) (entry : Entry) (app : App S) (hash : Option GoString)
      → Stores (hashed env username r req mode token entry app hash)
  hashed-Stores mode entry app none = λ h. absurd (omega arith)
  hashed-Stores mode entry app (some hash) = created _ refl
    where
      sh : Share
      sh = share_of_request env username req mode token hash

      created :
          (o : Option Store)
          → create_share app.store sh ≡ o
          → Stores (stored env username r sh entry app o)
      created none e = λ h. absurd (omega arith)
      created (some st) e = λ h. (
        _,
        get_share-audited env username (codes "share_create") sh.path _ sh.token token
              (record app { store = st })
            ∙ get_share-create_share app.store st sh e,
        refl,
      )

  tokened-Stores :
      (mode : GoString) (entry : Entry) (app : App S) (o : Option GoString)
      → o ≡ some token
      → Stores (tokened env username r req mode entry app o)
  tokened-Stores mode entry app none e = cc
  tokened-Stores mode entry app (some t) e =
      subst (λ (x : Option GoString). Stores (tokened env username r req mode entry app x)) (sym e)
        (hashed-Stores mode entry app _)

  found-Stores :
      env.share_token ≡ some token
      → (mode : GoString) (result : Result FsError Entry × App S)
      → Stores (found env username r req mode result)
  found-Stores t mode (err escape, app) = λ h. absurd (omega arith)
  found-Stores t mode (err not_exist, app) = λ h. absurd (omega arith)
  found-Stores t mode (err permission, app) = λ h. absurd (omega arith)
  found-Stores t mode (err (other m), app) = λ h. absurd (omega arith)
  found-Stores t mode (ok entry, app) = tokened-Stores mode entry app env.share_token t

  create_as-Stores :
      env.share_token ≡ some token
      → (mode : GoString) (app : App S) (id : Result LookupError Identity)
      → Stores (create_as env username r req mode app id)
  create_as-Stores t mode app (err e) = λ h. absurd (omega arith)
  create_as-Stores t mode app (ok id) = found-Stores t mode _

  create_checked-Stores :
      env.share_token ≡ some token
      → (app : App S) (mode : Option GoString) → Stores (create_checked env username r req app mode)
  create_checked-Stores t app none = λ h. absurd (omega arith)
  create_checked-Stores t app (some mode) = create_as-Stores t mode app _

  -- A branch that does not answer 200 has nothing to show.
  branch : (b : Bool) (x y : Response × App S) → Stores x → Stores y → Stores (if b then x else y)
  branch true x y hx hy = hx
  branch false x y hx hy = hy

  new_share-Stores :
      env.share_token ≡ some token
      → (app : App S) → Stores (new_share env (some req) username r app)
  unfolding new_share
  new_share-Stores t app =
      branch env.config.sharing.enabled _ _
        (branch (is_empty req.path) _ _ (λ h. absurd (omega arith)) (create_checked-Stores t app _))
        (λ h. absurd (omega arith))

abbrev pub is_ok : {A : Type 0} → Result ShareError A → Bool
is_ok (err e) = false
is_ok (ok a) = true

load_share_of :
    {S : Type 0} (env : Env S) (st : Store) (token : GoString) (sh : Share)
    → get_share st token ≡ some sh
    → is_ok (load_share env st token) ≡ not (is_expired env.now sh)
unfolding load_share
load_share_of env st token sh h = rw h (ground arith)

expiry_in_range :
    (now : Time) (n : ℕ)
    → n ≤ max_hours
    → expiry now (pos n) ≡ (if n == 0 then 0 else now + n * hour)
unfolding expiry
expiry_in_range now zero h = refl
expiry_in_range now (suc n) h = rw (hours_of_le (suc n) h) (ground arith)

open_until :
    (now t : Time) (n : ℕ)
    → epoch * second ≤ now
    → not (
        not (read_expiry (if n == 0 then 0 else now + n * hour) == 0)
        && ltb (read_expiry (if n == 0 then 0 else now + n * hour)) t)
      ≡ (n == 0 || leb t (whole_seconds (now + n * hour)))
open_until now t zero h = refl
open_until now t (suc n) h = ground arith

-- A share that CreateShare has made for a number of hours, of which 292 years are the most, is open
-- from then on if that number is 0, and else up to the second in which the hours end, if the
-- clock stood after 1970; and not later.
pub load_share-new_share :
    {S : Type 0} (env later : Env S) (username token : GoString) (r : Request)
    (req : CreateShareRequest) (app : App S) (n : ℕ)
    → env.share_token ≡ some token
    → req.expires_in_hours ≡ pos n
    → n ≤ max_hours
    → epoch * second ≤ env.now
    → (new_share env (some req) username r app).0.status ≡ 200
    → is_ok (load_share later (new_share env (some req) username r app).1.store token)
      ≡ (n == 0 || leb later.now (whole_seconds (env.now + n * hour)))
load_share-new_share env later username token r req app n t hrs le old done =
    let (sh, read, ends) = new_share-Stores env username r req token t app done in
    let at : sh.expires_at ≡ read_expiry (if n == 0 then 0 else env.now + n * hour) =
      ends
      ∙ ap (λ x. read_expiry (expiry env.now x)) hrs
      ∙ ap read_expiry (expiry_in_range env.now n le) in
    load_share_of later _ token sh read
    ∙ ap (λ e. not (not (e == 0) && ltb e later.now)) at
    ∙ open_until env.now later.now n old
