-- ===== src/Protocol/Samples.antt =====
-- The theorems on the tables of internal/adapter/shared/shared.go at concrete reasons.
use opencode_go_cliproxyapi.Prelude.Outcome.{ok}
use opencode_go_cliproxyapi.Prelude.{[], if◌then◌else◌, refl, ◌∷◌, ◌≡◌}
use opencode_go_cliproxyapi.Prelude.Text.{
  Text, codes, cut_byte, cut_prefix, has_prefix, has_suffix, mem_text, text_eq, trim_prefix,
  trim_suffix,
}
use opencode_go_cliproxyapi.Protocol.Images.{
  base64_source, claude_image_url, data_source, image_source, or_octets, source_behind, source_url,
}
use opencode_go_cliproxyapi.Protocol.Images.Back.{image_source-source_url}
use opencode_go_cliproxyapi.Protocol.{
  claude_stop_to_finish, finish_to_claude_stop, response_status_from_cc_finish,
  response_status_from_claude_stop,
}
use opencode_go_cliproxyapi.Protocol.Reasons.{reasons_again, status_of_stop}

reasons_again_example :
    (claude_stop_to_finish (finish_to_claude_stop (codes "length")) ≡ (
      if mem_text
        (codes "length")
        (codes "tool_calls" ∷ codes "length" ∷ codes "content_filter" ∷ codes "stop" ∷ [])
      then codes "length"
      else codes "stop"))
    × (finish_to_claude_stop (claude_stop_to_finish (codes "length")) ≡ (
        if mem_text
          (codes "length")
          (codes "tool_use" ∷ codes "max_tokens" ∷ codes "refusal" ∷ codes "end_turn" ∷ [])
        then codes "length"
        else codes "end_turn"))
reasons_again_example = reasons_again (codes "length")

status_of_stop_example :
    response_status_from_cc_finish (claude_stop_to_finish (codes "max_tokens"))
    ≡ response_status_from_claude_stop (codes "max_tokens")
status_of_stop_example = status_of_stop (codes "max_tokens")

abbrev png_url : Text
png_url = codes "data:image/png;base64,iVBORw0"

png_source : image_source png_url ≡ ok (base64_source (codes "image/png") (codes "iVBORw0"))
unfolding image_source source_behind data_source or_octets cut_prefix cut_byte has_suffix has_prefix
    trim_suffix trim_prefix
png_source = refl

png_back : source_url (λ t. t) (base64_source (codes "image/png") (codes "iVBORw0")) ≡ ok png_url
unfolding source_url claude_image_url or_octets text_eq
png_back = refl

image_source-source_url_example :
    image_source png_url ≡ ok (base64_source (codes "image/png") (codes "iVBORw0"))
image_source-source_url_example =
    image_source-source_url (λ t. t) png_url png_url
      (base64_source (codes "image/png") (codes "iVBORw0")) png_source png_back
