-- ===== src/Thumbnail.antt =====
-- internal/thumbnail/thumbnail.go: the kinds of files, the size of a thumbnail and the key of the
-- cache. Decoding and scaling are the image library's, and videos and PDFs other programs'.
pub mod Generator
pub mod Key
use nimbus_fs.Prelude.{
  ℕ, ◌*◌, ◌/◌, ltb, leb, Bool, false, ◌&&◌, ◌||◌, if◌then◌else◌, List, [], ◌∷◌, GoString, codes,
  str_eq,
}
use nimbus_fs.GoLib.Strings.{lower}

pub data Kind : Type 0 where
  no_kind image video pdf : Kind

unfoldable pub is_one_of : GoString → List GoString → Bool
is_one_of s [] = false
is_one_of s (t ∷ ts) = str_eq s t || is_one_of s ts

-- strings.TrimPrefix(ext, ".")
abbrev pub trim_dot : GoString → GoString
trim_dot [] = []
trim_dot (c ∷ s) = if leb c 46 && leb 46 c then s else c ∷ s

-- imageExts, videoExts and pdfExts.
abbrev pub image_exts : List GoString
image_exts = codes "jpg" ∷ codes "jpeg" ∷ codes "png" ∷ codes "gif" ∷ codes "webp" ∷ []

abbrev pub video_exts : List GoString
video_exts = codes "mp4" ∷ codes "webm" ∷ codes "mov" ∷ codes "mkv" ∷ []

abbrev pub pdf_exts : List GoString
pdf_exts = codes "pdf" ∷ []

-- KindForExt
unfoldable pub kind_for_ext : GoString → Kind
kind_for_ext ext =
    let e = lower (trim_dot ext) in
    if is_one_of e image_exts
    then image
    else if is_one_of e video_exts
    then video
    else if is_one_of e pdf_exts
    then pdf
    else no_kind

abbrev pub at_least_one : ℕ → ℕ
at_least_one n = if ltb n 1 then 1 else n

-- The size of what resize returns for an image of width `w` and height `h`, whose product with the
-- limit is far below 2 ^ 63.
unfoldable pub resized : ℕ → ℕ → ℕ → ℕ × ℕ
resized max_dim w h =
    if leb w max_dim && leb h max_dim
    then (w, h)
    else if ltb h w
    then (at_least_one max_dim, at_least_one (h * max_dim / w))
    else (at_least_one (w * max_dim / h), at_least_one max_dim)
