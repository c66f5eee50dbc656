-- ===== src/Api/Search/Filter.antt =====
-- internal/api/search.go: what a search shows to a user.
use nimbus_fs.Prelude.{
  true, false, ◌≡◌, inl, inr, some, List, [], ◌∷◌, GoString, codes, ok, Bool-cases,
}
use nimbus_fs.Fsops.Access.{Identity, MayRead, can_read_iff}
use nimbus_fs.Fsops.Impersonate.{lookup_identity}
use nimbus_fs.Fsops.Ops.{Names}
use nimbus_fs.Search.{Doc, search_index}
use nimbus_fs.Api.{Request, SearchResult, search_results, Env, App, write_json}
use nimbus_fs.Api.Search.{readable, result_of_doc, results_for, search}

-- A list of results that shows, in order, the hits the user may read and no other.
pub data Shows (names : Names) (id : Identity) : List Doc → List SearchResult → Type 0 where
  shows_none : Shows names id [] []
  shown :
      (d : Doc) {ds : List Doc} {rs : List SearchResult}
      → MayRead id d.uid d.gid d.mode
      → Shows names id ds rs
      → Shows names id (d ∷ ds) (result_of_doc names d ∷ rs)
  hidden :
      (d : Doc) {ds : List Doc} {rs : List SearchResult}
      → ¬ MayRead id d.uid d.gid d.mode
      → Shows names id ds rs
      → Shows names id (d ∷ ds) rs

results_for-Shows :
    (names : Names) (id : Identity) (ds : List Doc) → Shows names id ds (results_for names id ds)
unfolding results_for
results_for-Shows names id [] = shows_none
results_for-Shows names id (d ∷ ds) = elim (Bool-cases (readable id d)) [
  | inl e ↦
      rw e (shown d ((can_read_iff id d.uid d.gid d.mode).0 e) (results_for-Shows names id ds))
  | inr e ↦ rw e (
      hidden d (λ m. cc (e, (can_read_iff id d.uid d.gid d.mode).1 m))
        (results_for-Shows names id ds))
]

-- Where the search is enabled and its index ready, the user has an account and bleve answers, Search
-- answers with exactly those of the found documents, in their order, that the owner, group and other
-- bits let the user read, and changes nothing.
pub search-Shows :
    {S : Type 0} (env : Env S) (username : GoString) (r : Request) (app : App S) (id : Identity)
    (ds : List Doc)
    → env.config.search.enabled ≡ true
    → env.search.ready ≡ true
    → lookup_identity env.accounts username ≡ ok id
    → search_index env.search (r.query (codes "q")) ≡ some ds
    → (rs : List SearchResult) × Shows env.names id ds rs
      × (search env username r app ≡ (write_json 200 (search_results rs false), app))
unfolding search
search-Shows env username r app id ds enabled ready found hits = (
  results_for env.names id ds,
  results_for-Shows env.names id ds,
  simp (enabled, ready, found, hits),
)
