-- ===== src/Bytes/Tests.antt =====
-- Concrete strings through the three truncations.
use desktop_remote.Common.{◌∷◌, ◌<◌, ◌≡◌, ◌↔◌, refl, []}
use desktop_remote.Events.{Text}
use desktop_remote.Bytes.{
  units, byte_length, marker, bound_text, truncate_utf8, truncate_message, take_utf8_head,
}
use desktop_remote.Bytes.Limits.{Bounding, bound_text-Bounding, truncate_utf8_exceeds_iff}

abbrev word : Text
word = units "daemon"

byte_length_kinds : byte_length (units "añ…") ≡ 6
unfolding byte_length
byte_length_kinds = refl

-- A pair of surrogates has four bytes, each of its halves alone three.
byte_length_pair : byte_length (0xd83d ∷ 0xde00 ∷ []) ≡ 4
unfolding byte_length
byte_length_pair = refl

byte_length_lone : byte_length (0xd83d ∷ []) ≡ 3
unfolding byte_length
byte_length_lone = refl

take_utf8_head-word : take_utf8_head word 3 ≡ units "dae"
unfolding take_utf8_head
take_utf8_head-word = refl

truncate_utf8-word : truncate_utf8 word 5 ≡ units "da…"
unfolding truncate_utf8
truncate_utf8-word = refl

truncate_utf8_over : truncate_utf8 word 1 ≡ units "…"
unfolding truncate_utf8
truncate_utf8_over = refl

truncate_message-word : truncate_message word 5 ≡ units "da…"
unfolding truncate_message
truncate_message-word = refl

marker_word : marker 120 ≡ units "\n… [truncated: 120 bytes] …\n"
unfolding marker
marker_word = refl

bound_text-Bounding_example : Bounding word (marker (byte_length word)) 4 (bound_text word 4)
bound_text-Bounding_example = bound_text-Bounding word 4

truncate_utf8_exceeds_iff_example :
    (2 < byte_length (truncate_utf8 word 2)) ↔ ((0 < 2) × (2 < 3) × (2 < byte_length word))
truncate_utf8_exceeds_iff_example = truncate_utf8_exceeds_iff word 2

word_size : byte_length word ≡ 6
unfolding byte_length
word_size = refl
