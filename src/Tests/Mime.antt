-- ===== src/Tests/Mime.antt =====
-- Examples of internal/mimetypes.
use nimbus_fs.Prelude.{◌≡◌, refl, Option, none, some, false, true, List, [], ◌∷◌, GoString, codes}
use nimbus_fs.Prelude.Dict.{Dict, get, put, remove}
use nimbus_fs.Mimetypes.{Glob, MimeType, Candidate, single_extension, parse, load}
use nimbus_fs.Mimetypes.Winner.{IsBest, offers_of_types, name_at, parse-IsBest}

abbrev type_named : GoString → GoString → GoString → MimeType
type_named name pattern weight = record {
  globs = record { pattern = pattern; weight = weight; case_sensitive = [] } ∷ [];
  comments =
      record { lang = codes "de"; value = codes "x" } ∷ record { lang = []; value = name } ∷ [];
}

-- Two types claim "md", the second with more weight, and a third the same weight as the second.
abbrev database : List MimeType
database =
    type_named (codes "Modula") (codes "*.md") []
    ∷ type_named (codes "Markdown ") (codes "*.MD") (codes "60")
    ∷ type_named (codes "Mandoc") (codes "*.md") (codes "60")
    ∷ type_named (codes "Archive") (codes "*.tar.gz") []
    ∷ []

abbrev decode : GoString → Option (List MimeType)
decode text = some database

parse-IsBest_example :
    (names : Dict GoString) × (parse decode [] ≡ some names)
    × ((ext : GoString)
        → (best : Option Candidate) × IsBest ext best (offers_of_types database [])
          × (get ext names ≡ name_at best))
parse-IsBest_example = parse-IsBest decode [] database refl

markdown : parse decode [] ≡ some ((codes "md", codes "Markdown") ∷ [])
unfolding parse nimbus_fs.Mimetypes.names_of nimbus_fs.Mimetypes.offer_types
    nimbus_fs.Mimetypes.default_comment nimbus_fs.GoLib.Strings.trim_space
    nimbus_fs.GoLib.Strings.trim_right nimbus_fs.GoLib.Strings.trim_left
    nimbus_fs.Mimetypes.offer_globs single_extension nimbus_fs.Prelude.has_prefix
    nimbus_fs.GoLib.Strings.contains_any nimbus_fs.GoLib.Strings.lower nimbus_fs.Prelude.str_eq
    nimbus_fs.Mimetypes.weight_of nimbus_fs.GoLib.Decimal.atoi nimbus_fs.GoLib.Decimal.parse_digits
    nimbus_fs.GoLib.Decimal.value nimbus_fs.GoLib.Decimal.all_digits nimbus_fs.Mimetypes.offer get
    put remove
markdown = refl

extensions :
    (single_extension (codes "*.Py") false ≡ some (codes "py"))
    × (single_extension (codes "*.C") true ≡ none)
    × (single_extension (codes "Makefile") false ≡ none)
unfolding single_extension nimbus_fs.Prelude.has_prefix nimbus_fs.Prelude.str_eq
    nimbus_fs.GoLib.Strings.contains_any nimbus_fs.GoLib.Strings.lower
extensions = (refl, refl, refl)
