-- ===== src/Protocol/Images.antt =====
-- Image URLs in internal/adapter/shared/shared.go: `ImageSource` and `ClaudeImageURL`. The verb %q is a
-- parameter.
use opencode_go_cliproxyapi.Prelude.Outcome.{Outcome, err, ok}
pub mod Back
use opencode_go_cliproxyapi.Prelude.{Option, [], if◌then◌else◌, is_empty, none, some, ◌++◌, ◌∷◌}
use opencode_go_cliproxyapi.Prelude.Text.{
  Text, codes, cut_byte, cut_prefix, has_suffix, text_eq, trim_suffix,
}
use opencode_go_cliproxyapi.Prelude.Json.{Json, member, no_member, object, string}
use opencode_go_cliproxyapi.ErrorClass.{ClassifiedError, translation_error}

-- The member `source` of an image block of Messages.
pub data ImageSource : Type 0 where
  base64_source : Text → Text → ImageSource
  url_source : Text → ImageSource

unfoldable pub image_block : ImageSource → Json
image_block (base64_source media_type body) = object (
    member (codes "type") (string (codes "image")) (
      member (codes "source")
        (object (
          member (codes "type") (string (codes "base64")) (
            member (codes "media_type") (string media_type)
              (member (codes "data") (string body) no_member))))
        no_member))
image_block (url_source url) = object (
    member (codes "type") (string (codes "image")) (
      member (codes "source")
        (object (
          member (codes "type") (string (codes "url"))
            (member (codes "url") (string url) no_member)))
        no_member))

-- A media type, or the one that stands for none.
unfoldable pub or_octets : Text → Text
or_octets [] = codes "application/octet-stream"
or_octets (c ∷ media) = c ∷ media

-- A data URL behind `data:`, cut at its first comma.
unfoldable pub data_source : Text → Option (Text × Text) → Outcome ClassifiedError ImageSource
data_source url none = err (translation_error (codes "malformed data URL: missing ',' separator"))
data_source url (some (header, body)) =
    if has_suffix header (codes ";base64")
    then ok (base64_source (or_octets (trim_suffix header (codes ";base64"))) body)
    else ok (url_source url)

unfoldable pub source_behind : Text → Option Text → Outcome ClassifiedError ImageSource
source_behind url none = ok (url_source url)
source_behind url (some rest) = data_source url (cut_byte 44 rest)

-- `ImageSource`.
unfoldable pub image_source : Text → Outcome ClassifiedError ImageSource
image_source url = source_behind url (cut_prefix url (codes "data:"))

module _ (quote : Text → Text) where
  -- `ClaudeImageURL`.
  unfoldable pub claude_image_url : Text → Text → Text → Text → Outcome ClassifiedError Text
  claude_image_url source_type url media_type body =
      if text_eq source_type (codes "url")
      then (if is_empty url
          then err (translation_error (codes "image source missing url"))
          else ok url)
      else if text_eq source_type (codes "base64")
      then (if is_empty body
          then err (translation_error (codes "base64 image source missing data"))
          else ok (codes "data:" ++ (or_octets media_type ++ (codes ";base64," ++ body))))
      else err (translation_error (codes "unsupported image source type " ++ quote source_type))

  -- `ClaudeImageURL` on the fields of a decoded source, where an absent one is the empty string.
  unfoldable pub source_url : ImageSource → Outcome ClassifiedError Text
  source_url (base64_source media_type body) = claude_image_url (codes "base64") [] media_type body
  source_url (url_source url) = claude_image_url (codes "url") url [] []
