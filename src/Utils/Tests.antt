-- ===== src/Utils/Tests.antt =====
-- The arithmetic of sequence numbers, and the test for a tag's head, on concrete inputs.
use rtp_http_flv.Prelude.{ℕ, ◌≡◌, ◌↔◌, refl, true, List, [], ◌∷◌, done}
use rtp_http_flv.Utils.Seq.{first_before_second}
use rtp_http_flv.Utils.TagHead.{IsTag, is_tag_head, is_tag_head_iff}

-- An audio tag with a body of two bytes.
abbrev audio_tag : List ℕ
audio_tag = 8 ∷ 0 ∷ 0 ∷ 2 ∷ 0 ∷ 0 ∷ 1 ∷ 0 ∷ 0 ∷ 0 ∷ 0 ∷ 175 ∷ 1 ∷ []

audio_tag-head : is_tag_head audio_tag ≡ done true
unfolding is_tag_head
audio_tag-head = refl

wrapped_before : first_before_second 65535 0 ≡ true
unfolding first_before_second
wrapped_before = refl

is_tag_head_iff_example : (is_tag_head audio_tag ≡ done true) ↔ IsTag audio_tag
is_tag_head_iff_example = is_tag_head_iff audio_tag
