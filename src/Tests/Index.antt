-- ===== src/Tests/Index.antt =====
-- Examples of internal/search and of the handlers that search and preview.
use nimbus_fs.Prelude.{
  ℕ, Bool, true, false, ◌≡◌, refl, ap, none, some, List, [], ◌∷◌, ◌++◌, append-nil, append_assoc,
  length, str_eq, has_prefix, ◌≤◌, GoString, codes, ok, negsuc, arith,
}
use nimbus_fs.Config.{default}
use nimbus_fs.Fsops.Impersonate.{
  impersonate, as_user, lookup_identity, capture_root_groups, group_numbers, restore,
}
use nimbus_fs.GoLib.Strings.{trim_space, lower, contains_any, trim_left, trim_right}
use nimbus_fs.Search.Rebuilds.{step, advance}
use nimbus_fs.Api.{as_account}
use nimbus_fs.Thumbnail.{kind_for_ext, is_one_of, resized}
use nimbus_fs.GoLib.Path.{
  ext, join, clean, base, dir, dir_prefix, join_slash, resolve_elem, resolve_elems, split_slash,
  strip_slashes,
}
use nimbus_fs.GoLib.Decimal.{atoi, all_digits, format, format_int, parse_digits, value}
use nimbus_fs.Fsops.Sys.{◌>>=◌, lift, opens, reads, resolved}
use nimbus_fs.Fsops.Ops.{open_entry}
use nimbus_fs.Fsops.Sandbox.{resolve, resolve_joined, within, deepest_existing, deepest_from}
use nimbus_fs.Api.Preview.{gate, preview, size_of}
use nimbus_fs.Search.{Doc, Visit, Bleve, build, build_query, search_index}
use nimbus_fs.Search.Batches.{IsLawful, one_by_one, build-eq-one_by_one}
use nimbus_fs.Search.Rebuilds.{Turn, run, new_system}
use nimbus_fs.Search.Rebuilds.Exclusive.{IsExclusive, run-new_system-IsExclusive}
use nimbus_fs.Search.Rebuilds.Ends.{turns_of, Frees, rebuild-Frees}
use nimbus_fs.Thumbnail.Generator.{Generator, cache_key, cache_path, from_image}
use nimbus_fs.Thumbnail.Key.{cache_key_inj}
use nimbus_fs.Api.{Request, SearchResult, search_results, write_json}
use nimbus_fs.Api.Search.{search}
use nimbus_fs.Api.Search.Filter.{Shows, search-Shows}
use nimbus_fs.Api.Preview.{get_thumbnail}
use nimbus_fs.Api.Preview.Gate.{MayOpen, get_thumbnail-MayOpen}
use nimbus_fs.Tests.Fixture.{sandbox, a_file, ann, docs, env, app, request}

-- An index that is the list of its documents.
abbrev listing : Bleve (List Doc) (List Doc)
listing = record {
  new_mem_only = some [];
  new_batch = [];
  size = length;
  add = λ id d b. some (b ++ d ∷ []);
  apply = λ b i. some (i ++ b);
}

abbrev all : Doc → Bool
all d = true

abbrev append : Doc → List Doc → List Doc
append d i = i ++ d ∷ []

nothing_left : (b i : List Doc) → length b ≡ 0 → i ++ b ≡ i
nothing_left [] i h = append-nil i
nothing_left (d ∷ b) i h = absurd (omega (arith, h))

added :
    (d : Doc) (b b' i j : List Doc)
    → some (b ++ d ∷ []) ≡ some b'
    → some (i ++ b) ≡ some j
    → some (i ++ b') ≡ some (j ++ d ∷ [])
added d b b' i j e h =
    let batch : b ++ d ∷ [] ≡ b' = cc in
    let index : i ++ b ≡ j = cc in cc (batch, index, append_assoc i b (d ∷ []))

listing-IsLawful : IsLawful listing all append
listing-IsLawful = record {
  refused = λ d b h. cc;
  taken = λ d b h. (b ++ d ∷ [], refl);
  apply_none = λ b i h. ap some (nothing_left b i h);
  apply_new = λ i. ap some (append-nil i);
  apply_add = λ d b b' i j e h. added d b b' i j e h;
}

abbrev visits : List Visit
visits =
    record { path = codes "/srv"; failed = false; info = some a_file }
    ∷ record { path = codes "/srv/d/a"; failed = false; info = some a_file }
    ∷ record { path = codes "/srv/d"; failed = true; info = none }
    ∷ []

build-eq-one_by_one_example :
    build listing sandbox visits [] ≡ one_by_one all append sandbox visits []
build-eq-one_by_one_example =
    build-eq-one_by_one listing all append listing-IsLawful sandbox visits []

abbrev turn : ℕ → Turn
turn t = record { thread = t; opens = true; visits = visits }

run-new_system-IsExclusive_example :
    IsExclusive listing sandbox (run listing sandbox (turn 1 ∷ turn 2 ∷ turn 1 ∷ []) new_system)
run-new_system-IsExclusive_example =
    run-new_system-IsExclusive listing sandbox (turn 1 ∷ turn 2 ∷ turn 1 ∷ [])

underway : (run listing sandbox (turn 1 ∷ turn 2 ∷ turn 1 ∷ []) new_system).index.building ≡ true
unfolding run step advance
underway = refl

rebuild-Frees_example :
    (t : ℕ) × ((more : List Turn)
      → 4 ≤ turns_of t more
      → Frees listing sandbox more (run listing sandbox (turn 1 ∷ turn 2 ∷ turn 1 ∷ []) new_system))
rebuild-Frees_example = rebuild-Frees listing sandbox (turn 1 ∷ turn 2 ∷ turn 1 ∷ []) underway

patterns :
    (build_query (codes " Report ") ≡ codes "*report*")
    × (build_query (codes "*.PDF") ≡ codes "*.pdf")
    × (build_query [] ≡ codes "*")
unfolding build_query trim_space lower contains_any trim_right trim_left
patterns = (refl, refl, refl)

found : search_index env.search (codes "d/a") ≡ some docs
unfolding search_index build_query
found = refl

known : lookup_identity env.accounts (codes "ann") ≡ ok ann
unfolding lookup_identity str_eq atoi
known = refl

search-Shows_example :
    (rs : List SearchResult) × Shows env.names ann docs rs
    × (search env (codes "ann") request app ≡ (write_json 200 (search_results rs false), app))
unfolding default
search-Shows_example = search-Shows env (codes "ann") request app ann docs refl refl known found

cache_key_inj_example :
    (codes "a-1" ≡ codes "a-1") × (◌≡◌ {A = ℕ} 2 2) × (negsuc 3 ≡ negsuc 3) × (◌≡◌ {A = ℕ} 4 4)
cache_key_inj_example = cache_key_inj (codes "a-1") (codes "a-1") 2 2 (negsuc 3) (negsuc 3) 4 4 refl

-- A generator that keeps images as they are.
abbrev pub generator : Generator
generator = record {
  cache_dir = codes "/cache";
  tmp_dir = codes "/tmp";
  ffmpeg = [];
  pdftoppm = [];
  digest = λ s. s;
  random = [];
  imaging = record {
    Image = GoString;
    decode = some;
    bounds = λ s. (1, 1);
    scale = λ size s. s;
    encode = some;
  };
  run = λ c p args. none;
  save = λ path bytes cache. cache;
}

abbrev picture : Request
picture = record request { query = λ name. codes "/d/a.png" }

served : (get_thumbnail env generator (codes "ann") picture app).0.status ≡ 200
unfolding get_thumbnail as_account impersonate as_user gate preview kind_for_ext is_one_of str_eq
    lower ext lookup_identity atoi ◌>>=◌ open_entry resolved resolve resolve_joined within join
    clean has_prefix deepest_existing size_of capture_root_groups group_numbers restore deepest_from
    lift opens reads all_digits format format_int parse_digits value base dir dir_prefix join_slash
    resolve_elem resolve_elems split_slash strip_slashes cache_key cache_path from_image resized
served = refl

get_thumbnail-MayOpen_example : MayOpen env generator (codes "/d/a.png") (codes "ann") app
get_thumbnail-MayOpen_example = get_thumbnail-MayOpen env generator (codes "ann") picture app served
