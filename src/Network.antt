-- ===== src/Network.antt =====
-- The STUN client of internal/network/nat.go, from the datagram that answers on, and the order of
-- internal/network/strategy.go. Sockets and TryHolePunch are left out.
pub mod Stun
mod Ending
mod Tests
use cmd_chat.Prelude.{
  ltb, leb, ◌==◌, if◌then◌else◌, length, get_or, take, drop, ◌>>=◌, ◌>>◌, refuse_if, Result, eq,
  bytes_beq, nat_eq, bytes_eq, Bytes, put_u16, put_u32, u16_of, u32_of, ok, err, ℕ, zero, suc, ◌+◌,
  ◌-◌, ◌*◌, ◌/◌, ◌^◌, ap, not, ◌&&◌, ◌||◌, Option, none, some, List, [], ◌∷◌, ◌++◌, map,
}
use Prim.Native.Nat.{bit_xor}

pub data Error : Type 0 where
  short_response invalid_transaction invalid_attribute_length no_mapped_address : Error
  -- Never met: the model's own.
  out_of_fuel : Error

-- The octets of an IPv4 address and a port.
pub record Endpoint : Type 0 where
  pub address : Bytes
  pub port : ℕ

pub data Strategy : Type 0 where
  localhost lan direct nat_traversal relay_fallback : Strategy

-- `Order`
abbrev pub order : List Strategy
order = localhost ∷ lan ∷ direct ∷ nat_traversal ∷ relay_fallback ∷ []

abbrev pub magic_cookie : ℕ
magic_cookie = 0x2112A442

-- The binding request for a transaction.
unfoldable pub binding_request : Bytes → Bytes
binding_request tx = put_u16 1 ++ (put_u16 0 ++ (put_u32 magic_cookie ++ tx))

-- `v[i] ^ b`
unfoldable pub xor_octet : Bytes → ℕ → ℕ → ℕ
xor_octet v i b = bit_xor (get_or v i 0) b

-- What an attribute says of the mapped address.
unfoldable pub mapped : ℕ → ℕ → Bytes → Option Endpoint
mapped kind size v =
    if (kind == 0x0020 && leb 8 size) && get_or v 1 0 == 1
    then some (record {
      address =
          xor_octet v 4 0x21 ∷ xor_octet v 5 0x12 ∷ xor_octet v 6 0xA4 ∷ xor_octet v 7 0x42 ∷ [];
      port = bit_xor (u16_of (drop 2 v)) 0x2112;
    })
    else if (kind == 0x0001 && leb 8 size) && get_or v 1 0 == 1
    then some (record {
      address = get_or v 4 0 ∷ get_or v 5 0 ∷ get_or v 6 0 ∷ get_or v 7 0 ∷ [];
      port = u16_of (drop 2 v);
    })
    else none

-- `(ln + 3) &^ 3`
unfoldable pub padded : ℕ → ℕ
padded n = (n + 3) / 4 * 4

-- The loop over the attributes, from what is left of the datagram; each has four bytes at least.
unfoldable pub attributes : ℕ → Bytes → Result Error Endpoint
attributes zero rest = err out_of_fuel
attributes (suc fuel) rest =
    let kind = u16_of rest in
    let size = u16_of (drop 2 rest) in
    let body = drop 4 rest in
    let more = attributes fuel (drop (padded size) body) in
    if ltb (length rest) 4
    then err no_mapped_address
    else if ltb (length body) size
    then err invalid_attribute_length
    else elim (mapped kind size (take size body)) [ none ↦ more | some e ↦ ok e ]

-- `discoverSTUN` from the answer on.
unfoldable pub read_response : Bytes → Bytes → Result Error Endpoint
read_response tx datagram = do
  refuse_if (ltb (length datagram) 20) short_response
  refuse_if
      (not (u32_of (take 4 (drop 4 datagram)) == magic_cookie)
        || not (bytes_beq (take 12 (drop 8 datagram)) tx))
      invalid_transaction
  attributes (length datagram) (drop 20 datagram)
