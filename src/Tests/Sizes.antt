-- ===== src/Tests/Sizes.antt =====
-- Examples of internal/thumbnail.
use nimbus_fs.Prelude.{◌≡◌, refl, codes, str_eq}
use nimbus_fs.Thumbnail.{image, kind_for_ext, is_one_of, resized}
use nimbus_fs.GoLib.Strings.{lower}

wide : resized 256 1000 10 ≡ (256, 2)
unfolding resized
wide = refl

thin : resized 256 1000 1 ≡ (256, 1)
unfolding resized
thin = refl

kind_of_photo : kind_for_ext (codes ".JPG") ≡ image
unfolding kind_for_ext lower is_one_of str_eq
kind_of_photo = refl
