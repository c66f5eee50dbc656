-- ===== src/Api/Search.antt =====
-- internal/api/search.go: Search and ReindexSearch.
pub mod Filter
use nimbus_fs.Prelude.{
  ℕ, suc, Bool, true, false, if◌then◌else◌, Option, none, some, List, [], ◌∷◌, map, keep, GoString,
  codes, Result, ok, err,
}
use nimbus_fs.Fsops.Access.{Identity, can_read}
use nimbus_fs.Fsops.Impersonate.{LookupError, lookup_identity}
use nimbus_fs.Fsops.Ops.{Names}
use nimbus_fs.Search.{Doc, search_index}
use nimbus_fs.Api.{
  Request, Response, SearchResult, Body, search_results, reindexing, Env, App, UserHandler,
  write_json, write_error,
}

abbrev pub readable : Identity → Doc → Bool
readable id d = can_read id d.uid d.gid d.mode

abbrev pub result_of_doc : Names → Doc → SearchResult
result_of_doc names d = record {
  name = d.name;
  path = d.path;
  is_dir = d.is_dir;
  size = d.size;
  modified = d.modified;
  owner = names.user d.uid;
  group = names.group d.gid;
}

-- The loop over the hits.
unfoldable pub results_for : Names → Identity → List Doc → List SearchResult
results_for names id [] = []
results_for names id (d ∷ ds) =
    let rest = results_for names id ds in
    if readable id d then result_of_doc names d ∷ rest else rest

module _ {S : Type 0} (env : Env S) where
  abbrev pub answer_hits : Identity → Option (List Doc) → Response
  answer_hits id none = write_error 500 (codes "search failed")
  answer_hits id (some ds) = write_json 200 (search_results (results_for env.names id ds) false)

  abbrev pub search_as : GoString → Result LookupError Identity → Response
  search_as query (err e) = write_error 500 (codes "user lookup failed")
  search_as query (ok id) = answer_hits id (search_index env.search query)

  -- Search
  unfoldable pub search : UserHandler S
  search username r app =
      if env.config.search.enabled
      then if env.search.ready
        then (search_as (r.query (codes "q")) (lookup_identity env.accounts username), app)
        else (write_json 200 (search_results [] true), app)
      else (write_error 404 (codes "search is disabled"), app)

  -- ReindexSearch: the rebuild is a goroutine of its own.
  unfoldable pub reindex_search : UserHandler S
  reindex_search username r app =
      if env.config.search.enabled
      then (write_json 200 reindexing, record app { rebuilds = suc app.rebuilds })
      else (write_error 404 (codes "search is disabled"), app)
