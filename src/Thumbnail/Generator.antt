-- ===== src/Thumbnail/Generator.antt =====
-- internal/thumbnail/thumbnail.go: Generator. The image library, the two programs and SHA-256 are
-- parameters.
use nimbus_fs.Prelude.{
  ℕ, ◌&&◌, leb, Bool, not, if◌then◌else◌, Option, none, some, List, [], ◌∷◌, ◌++◌, map, GoString,
  codes, ℤ,
}
use nimbus_fs.GoLib.Path.{join}
use nimbus_fs.GoLib.Decimal.{format, format_int}
use nimbus_fs.Config.{is_empty}
use nimbus_fs.Fsops.Access.{uint32}
use nimbus_fs.Thumbnail.{resized}

-- image.Decode, the size of an image, Scale and jpeg.Encode.
pub record Imaging : Type 1 where
  pub Image : Type 0
  pub decode : GoString → Option Image
  pub bounds : Image → ℕ × ℕ
  pub scale : ℕ × ℕ → Image → Image
  pub encode : Image → Option GoString

-- RunAsUser
pub record RunAsUser : Type 0 where
  pub uid : ℤ
  pub gid : ℤ
  pub groups : List ℤ

-- syscall.Credential
pub record Credential : Type 0 where
  pub uid : ℕ
  pub gid : ℕ
  pub groups : List ℕ

-- dropPrivileges
abbrev pub drop_privileges : RunAsUser → Credential
drop_privileges r = record { uid = uint32 r.uid; gid = uint32 r.gid; groups = map uint32 r.groups }

-- The cache directory: what ReadFile finds.
abbrev pub Cache : Type 0
Cache = GoString → Option GoString

-- A program that is run with credentials and arguments: its output, and the files it left.
abbrev pub Run : Type 0
Run = Credential → GoString → List GoString → Option (GoString × (GoString → Option GoString))

-- Generator. `digest` is the SHA-256 of a text in hexadecimal, `random` what randomHex draws, `save`
-- what WriteFile, whose error is ignored, makes of the cache.
pub record Generator : Type 1 where
  pub cache_dir : GoString
  pub tmp_dir : GoString
  pub ffmpeg : GoString
  pub pdftoppm : GoString
  pub digest : GoString → GoString
  pub random : GoString
  pub imaging : Imaging
  pub run : Run
  pub save : GoString → GoString → Cache → Cache

unfoldable pub supports_video : Generator → Bool
supports_video g = not (is_empty g.ffmpeg)

unfoldable pub supports_pdf : Generator → Bool
supports_pdf g = not (is_empty g.pdftoppm)

-- cacheKey
unfoldable pub cache_key : GoString → ℕ → ℤ → ℕ → GoString
cache_key rel_path size mod_unix file_size =
    ((rel_path ++ b'-' ∷ format size) ++ b'-' ∷ format_int mod_unix) ++ b'-' ∷ format file_size

-- CachePath
unfoldable pub cache_path : Generator → GoString → ℕ → ℤ → ℕ → GoString
cache_path g rel_path size mod_unix file_size =
    join
      (g.cache_dir ∷ (g.digest (cache_key rel_path size mod_unix file_size) ++ codes ".jpg") ∷ [])

module _ (m : Imaging) where
  -- resize
  abbrev pub resize_to : m.Image → ℕ → ℕ × ℕ → m.Image
  resize_to src max_dim (w, h) =
      if leb w max_dim && leb h max_dim then src else m.scale (resized max_dim w h) src

  abbrev pub encode_decoded : ℕ → Option m.Image → Option GoString
  encode_decoded max_dim none = none
  encode_decoded max_dim (some src) = m.encode (resize_to src max_dim (m.bounds src))

  -- FromImage
  unfoldable pub from_image : GoString → ℕ → Option GoString
  from_image text max_dim = encode_decoded max_dim (m.decode text)

module _ (g : Generator) where
  abbrev pub output_of : Option (GoString × (GoString → Option GoString)) → Option GoString
  output_of none = none
  output_of (some (out, files)) = some out

  abbrev pub file_of : GoString → Option (GoString × (GoString → Option GoString)) → Option GoString
  file_of path none = none
  file_of path (some (out, files)) = files path

  abbrev pub scale_filter : ℕ → GoString
  scale_filter max_dim =
      codes "scale='if(gt(iw,ih),"
      ++ format max_dim
      ++ codes ",-1)':'if(gt(iw,ih),-1,"
      ++ format max_dim
      ++ codes ")'"

  -- FromVideo
  unfoldable pub from_video : GoString → ℕ → RunAsUser → Option GoString
  from_video abs_path max_dim run_as =
      if is_empty g.ffmpeg
      then none
      else output_of (
          g.run (drop_privileges run_as) g.ffmpeg (
            codes "-ss"
            ∷ codes "1"
            ∷ codes "-i"
            ∷ abs_path
            ∷ codes "-frames:v"
            ∷ codes "1"
            ∷ codes "-vf"
            ∷ scale_filter max_dim
            ∷ codes "-f"
            ∷ codes "image2pipe"
            ∷ codes "-vcodec"
            ∷ codes "mjpeg"
            ∷ codes "-loglevel"
            ∷ codes "error"
            ∷ codes "-"
            ∷ []))

  -- FromPDF
  unfoldable pub from_pdf : GoString → ℕ → RunAsUser → Option GoString
  from_pdf abs_path max_dim run_as =
      if is_empty g.pdftoppm
      then none
      else let out_prefix = join (g.tmp_dir ∷ (codes "pdf-" ++ g.random) ∷ []) in
        file_of (out_prefix ++ codes ".jpg") (
          g.run (drop_privileges run_as) g.pdftoppm (
            codes "-jpeg"
            ∷ codes "-singlefile"
            ∷ codes "-f"
            ∷ codes "1"
            ∷ codes "-l"
            ∷ codes "1"
            ∷ codes "-scale-to"
            ∷ format max_dim
            ∷ abs_path
            ∷ out_prefix
            ∷ []))
