-- ===== src/Network/Tests.antt =====
-- STUN at concrete inputs.
use cmd_chat.Prelude.{
  replicate, nat_eq, bytes_eq, Bytes, codes, put_u16, put_u32, u16_of, u32_of, ok, err, ◌≡◌, refl,
  [], ◌∷◌, ◌++◌, arith,
}
use cmd_chat.Network.{
  binding_request, read_response, attributes, invalid_transaction, no_mapped_address,
}
use cmd_chat.Network.Stun.{
  Attribute, response, written, all_written, xor_mapped_address, read_response-response,
}

abbrev tx : Bytes
tx = replicate 12 9

-- SOFTWARE, of three bytes and one of padding.
abbrev software : Attribute
software = record { kind = 0x8022; value = codes "abc" }

read_response-response_example :
    read_response tx (
      response tx
        (all_written (software ∷ []) (written (xor_mapped_address 192 0 2 1 8080) ++ (1 ∷ 2 ∷ []))))
    ≡ ok (record { address = 192 ∷ 0 ∷ 2 ∷ 1 ∷ []; port = 8080 })
read_response-response_example =
    read_response-response tx (software ∷ []) 192 0 2 1 8080 (1 ∷ 2 ∷ []) refl
      ((omega arith, omega arith, refl, refl), tt) (omega arith)

other_transaction : read_response tx (response (replicate 12 8) []) ≡ err invalid_transaction
unfolding read_response response put_u16 put_u32 u32_of
other_transaction = refl

nothing_mapped : read_response tx (response tx []) ≡ err no_mapped_address
unfolding read_response response put_u16 put_u32 u32_of attributes u16_of
nothing_mapped = refl

request : binding_request tx ≡ 0 ∷ 1 ∷ 0 ∷ 0 ∷ 0x21 ∷ 0x12 ∷ 0xA4 ∷ 0x42 ∷ tx
unfolding binding_request put_u16 put_u32
request = refl
