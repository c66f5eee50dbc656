-- ===== src/Api/Shares/Gate.antt =====
-- internal/api/shares.go: what a request needs to reach the files of a share.
use nimbus_fs.Prelude.{
  true, false, ◌&&◌, ◌≡◌, ◌⊎◌, ◌≤◌, refl, ap, inl, inr, Option, none, some, Bool-cases, GoString,
  codes, str_eq, str_eq_iff, Result, ok, err, arith,
}
use nimbus_fs.Config.{is_empty}
use nimbus_fs.Store.Shares.{Share, get_share}
use nimbus_fs.Api.{Request, Response, Env, App}
use nimbus_fs.Api.Shares.{
  ShareError, load_share, share_unlocked, share_unlock_cookie_name, require_share_unlocked,
  list_loaded, list_unlocked, file_loaded, file_unlocked, share_list, share_file, is_download,
  equals, unless_expired,
}

-- The token in the request is that of a share which has not expired, and which has no password or
-- is unlocked by a cookie with the server's MAC of the token.
abbrev pub MayReach : {S : Type 0} → Env S → Request → App S → Share → Type 0
MayReach env r app sh =
    (get_share app.store (r.path_value (codes "token")) ≡ some sh)
    × ((sh.expires_at ≡ 0) ⊎ (env.now ≤ sh.expires_at))
    × ((is_empty sh.password_hash ≡ true)
        ⊎ (r.cookie (share_unlock_cookie_name sh.token) ≡ some (env.unlock_mac sh.token)))

module _ {S : Type 0} (env : Env S) (r : Request) (app : App S) where
  loaded :
      (sh : Share)
      → load_share env app.store (r.path_value (codes "token")) ≡ ok sh
      → (get_share app.store (r.path_value (codes "token")) ≡ some sh)
        × ((sh.expires_at ≡ 0) ⊎ (env.now ≤ sh.expires_at))
  unfolding load_share
  loaded sh h = from (get_share app.store (r.path_value (codes "token"))) h
    where
      from :
          (o : Option Share)
          → unless_expired env.now o ≡ ok sh
          → (o ≡ some sh) × ((sh.expires_at ≡ 0) ⊎ (env.now ≤ sh.expires_at))
      from none e = cc
      from (some x) e = ground arith

  equals-some : (o : Option GoString) (t : GoString) → equals o t ≡ true → o ≡ some t
  equals-some none t h = cc
  equals-some (some s) t h = ap some ((str_eq_iff s t).0 h)

  unlocked :
      (sh : Share)
      → require_share_unlocked env r sh ≡ ok tt
      → (is_empty sh.password_hash ≡ true)
        ⊎ (r.cookie (share_unlock_cookie_name sh.token) ≡ some (env.unlock_mac sh.token))
  unfolding require_share_unlocked share_unlocked
  unlocked sh h = elim (Bool-cases (is_empty sh.password_hash)) [
    | inl e ↦ inl e
    | inr e ↦ inr (equals-some _ _ (ground (arith, h, e)))
  ]

  -- The answer is a refusal that changes nothing, or the request may reach the share.
  abbrev pub IsGated : (Share → Type 0) → Response × App S → Type 0
  IsGated Allowed result = (result.1 ≡ app) ⊎ ((sh : Share) × MayReach env r app sh × Allowed sh)

  list_checked :
      (sh : Share) (passed : Result ShareError (Unit {0}))
      → require_share_unlocked env r sh ≡ passed
      → load_share env app.store (r.path_value (codes "token")) ≡ ok sh
      → (str_eq sh.mode (codes "download_only") ≡ false)
      → IsGated
          (λ sh. str_eq sh.mode (codes "download_only") ≡ false)
          (list_unlocked env r sh app passed)
  list_checked sh (err e) h l m = inl refl
  list_checked sh (ok u) h l m =
      let (found, fresh) = loaded sh l in inr (sh, (found, fresh, unlocked sh h), m)

  list-IsGated :
      (found : Result ShareError Share)
      → load_share env app.store (r.path_value (codes "token")) ≡ found
      → IsGated (λ sh. str_eq sh.mode (codes "download_only") ≡ false) (list_loaded env r app found)
  list-IsGated (err e) h = inl refl
  list-IsGated (ok sh) h = elim (Bool-cases (str_eq sh.mode (codes "download_only"))) [
    | inl e ↦ rw e (inl refl)
    | inr e ↦ rw e (list_checked sh _ refl h e)
  ]

  -- Listing a share leaves everything as it was, the disk included, unless the token is that of an
  -- unexpired share that may be browsed and has no password or is unlocked by its cookie.
  pub share_list-IsGated :
      IsGated (λ sh. str_eq sh.mode (codes "download_only") ≡ false) (share_list env r app)
  unfolding share_list
  share_list-IsGated = list-IsGated _ refl

  file_checked :
      (sh : Share) (passed : Result ShareError (Unit {0}))
      → require_share_unlocked env r sh ≡ passed
      → load_share env app.store (r.path_value (codes "token")) ≡ ok sh
      → ((str_eq sh.mode (codes "view_only") && is_download r) ≡ false)
      → IsGated
          (λ sh. (str_eq sh.mode (codes "view_only") && is_download r) ≡ false)
          (file_unlocked env r sh app passed)
  file_checked sh (err e) h l m = inl refl
  file_checked sh (ok u) h l m =
      let (found, fresh) = loaded sh l in inr (sh, (found, fresh, unlocked sh h), m)

  file-IsGated :
      (found : Result ShareError Share)
      → load_share env app.store (r.path_value (codes "token")) ≡ found
      → IsGated
          (λ sh. (str_eq sh.mode (codes "view_only") && is_download r) ≡ false)
          (file_loaded env r app found)
  file-IsGated (err e) h = inl refl
  file-IsGated (ok sh) h = elim (Bool-cases (str_eq sh.mode (codes "view_only") && is_download r)) [
    | inl e ↦ rw e (inl refl)
    | inr e ↦ rw e (file_checked sh _ refl h e)
  ]

  -- Reading a share's file leaves everything as it was, the disk and the audit log included, unless
  -- the token is that of an unexpired share that has no password or is unlocked by its cookie, and
  -- that allows downloads if one is asked for.
  pub share_file-IsGated :
      IsGated
        (λ sh. (str_eq sh.mode (codes "view_only") && is_download r) ≡ false)
        (share_file env r app)
  unfolding share_file
  share_file-IsGated = file-IsGated _ refl
