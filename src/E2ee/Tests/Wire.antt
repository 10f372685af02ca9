-- ===== src/E2ee/Tests/Wire.antt =====
-- Frames, headers and padding at concrete inputs.
use cmd_chat.Prelude.{nat_eq, bytes_eq, Bytes, codes, put_u32, u32_of, ok, err, ◌≡◌, refl, [], ◌∷◌}
use cmd_chat.E2ee.Wire.{
  frame_too_large, unexpected_eof, eof, padding_failed, read_frame, write_frame,
}
use cmd_chat.E2ee.Wire.Frames.{buffer_write}
use cmd_chat.E2ee.Padding.{unpad}

abbrev hello : Bytes
hello = codes "hello"

frame_of_hello : write_frame buffer_write hello [] ≡ ok (0 ∷ 0 ∷ 0 ∷ 5 ∷ hello)
unfolding write_frame put_u32
frame_of_hello = refl

short_stream : read_frame (0 ∷ 0 ∷ 0 ∷ 9 ∷ hello) ≡ err unexpected_eof
unfolding read_frame u32_of
short_stream = refl

closed_stream : read_frame [] ≡ err eof
unfolding read_frame
closed_stream = refl

huge_announced : read_frame (255 ∷ 0 ∷ 0 ∷ 0 ∷ []) ≡ err frame_too_large
unfolding read_frame u32_of
huge_announced = refl

padded : Bytes
padded = 104 ∷ 105 ∷ 0x80 ∷ 0 ∷ 0 ∷ []

no_marker : unpad (1 ∷ 0 ∷ 0 ∷ []) ≡ err padding_failed
unfolding unpad
no_marker = refl
