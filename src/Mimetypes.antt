-- ===== src/Mimetypes.antt =====
-- internal/mimetypes/mimetypes.go: the names of file types by extension, from a shared-mime-info
-- database. The XML decoder is a parameter; a text is ASCII.
pub mod Winner
use nimbus_fs.Prelude.{
  ℕ, Bool, true, false, not, ◌&&◌, ◌||◌, if◌then◌else◌, Option, none, some, List, [], ◌∷◌, GoString,
  codes, str_eq, has_prefix, ℤ, pos, ltb_ℤ,
}
use nimbus_fs.Prelude.Dict.{Dict, get, put}
use nimbus_fs.GoLib.Decimal.{atoi}
use nimbus_fs.GoLib.Strings.{trim_space, lower, contains_any, is_blank}

-- globXML
pub record Glob : Type 0 where
  pub pattern : GoString
  pub weight : GoString
  pub case_sensitive : GoString

-- commentXML
pub record Comment : Type 0 where
  pub lang : GoString
  pub value : GoString

-- mimeTypeXML
pub record MimeType : Type 0 where
  pub globs : List Glob
  pub comments : List Comment

pub record Candidate : Type 0 where
  pub weight : ℤ
  pub name : GoString

-- defaultComment
unfoldable pub default_comment : List Comment → GoString
default_comment [] = []
default_comment (c ∷ cs) =
    let rest = default_comment cs in if is_blank c.lang then trim_space c.value else rest

-- pattern[2:], where "*." is a prefix.
abbrev pub behind_star : GoString → Option GoString
behind_star (a ∷ b ∷ ext) = if has_prefix (a ∷ b ∷ ext) (codes "*.") then some ext else none
behind_star _ = none

abbrev pub checked_extension : Bool → Option GoString → Option GoString
checked_extension case_sensitive none = none
checked_extension case_sensitive (some ext) =
    if is_blank ext || contains_any ext (codes "*?[].")
    then none
    else if case_sensitive && not (str_eq ext (lower ext))
    then none
    else some (lower ext)

-- singleExtension
unfoldable pub single_extension : GoString → Bool → Option GoString
single_extension pattern case_sensitive = checked_extension case_sensitive (behind_star pattern)

abbrev pub default_weight : ℤ
default_weight = pos 50

abbrev pub or_default_weight : Option ℤ → ℤ
or_default_weight none = default_weight
or_default_weight (some w) = w

unfoldable pub weight_of : GoString → ℤ
weight_of s = if is_blank s then default_weight else or_default_weight (atoi s)

-- Whether a candidate takes the place of the one that is there.
abbrev pub beats : Candidate → Option Candidate → Bool
beats c none = true
beats c (some cur) = ltb_ℤ cur.weight c.weight

unfoldable pub offer : GoString → Candidate → Dict Candidate → Dict Candidate
offer ext c best = if beats c (get ext best) then put ext c best else best

abbrev pub offer_glob : GoString → Glob → Option GoString → Dict Candidate → Dict Candidate
offer_glob name g none best = best
offer_glob name g (some ext) best =
    offer ext (record { weight = weight_of g.weight; name = name }) best

-- The loop over the globs of one type.
unfoldable pub offer_globs : GoString → List Glob → Dict Candidate → Dict Candidate
offer_globs name [] best = best
offer_globs name (g ∷ gs) best =
    offer_globs name gs
      (offer_glob name g (single_extension g.pattern (str_eq g.case_sensitive (codes "true"))) best)

-- The loop over the types.
unfoldable pub offer_types : List MimeType → Dict Candidate → Dict Candidate
offer_types [] best = best
offer_types (t ∷ ts) best =
    let name = default_comment t.comments in
    let offered = offer_globs name t.globs best in
    offer_types ts (if is_blank name then best else offered)

unfoldable pub names_of : Dict Candidate → Dict GoString
names_of [] = []
names_of ((ext, c) ∷ best) = (ext, c.name) ∷ names_of best

-- parse; `decode` is xml.Unmarshal.
unfoldable pub parse : (GoString → Option (List MimeType)) → GoString → Option (Dict GoString)
parse decode text = elim (decode text) [
  | none ↦ none
  | some types ↦ some (names_of (offer_types types []))
]

-- overrides, whose two entries may be written in either order.
unfoldable pub with_overrides : Dict GoString → Dict GoString
with_overrides names =
    put (codes "tsx") (codes "TypeScript JSX source code")
      (put (codes "ts") (codes "TypeScript source code") names)

abbrev pub candidate_paths : List GoString
candidate_paths =
    codes "/usr/share/mime/packages/freedesktop.org.xml"
    ∷ codes "/usr/local/share/mime/packages/freedesktop.org.xml"
    ∷ []

module _ (read_file : GoString → Option GoString) (decode : GoString → Option (List MimeType)) where
  abbrev pub or_next : Option (Dict GoString) → Dict GoString → Dict GoString
  or_next none rest = rest
  or_next (some names) rest = with_overrides names

  abbrev pub parsed : Option GoString → Option (Dict GoString)
  parsed none = none
  parsed (some text) = parse decode text

  unfoldable pub load_from : List GoString → Dict GoString
  load_from [] = with_overrides []
  load_from (p ∷ ps) = or_next (parsed (read_file p)) (load_from ps)

  -- Load
  unfoldable pub load : Dict GoString
  load = load_from candidate_paths
