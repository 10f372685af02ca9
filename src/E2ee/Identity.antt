-- ===== src/E2ee/Identity.antt =====
-- Identities: DeriveID of internal/identity/identity.go, the blocked keys of
-- internal/e2ee/smallorder.go and the safety number of internal/e2ee/safety.go.
use cmd_chat.Prelude.{
  ltb, ◌==◌, if◌then◌else◌, length, take, drop, All, bytes_beq, bytes_beq_iff, nat_eq, bytes_eq,
  Bytes, codes, ℕ, zero, suc, ◌+◌, ◌-◌, ◌*◌, ◌/◌, ◌≡◌, refl, ◌≢◌, Bool, true, false, not, ◌||◌,
  List, [], ◌∷◌, ◌++◌, map, arith,
}
use cmd_chat.E2ee.Crypto.{Crypto}

abbrev pub public_key_size : ℕ
public_key_size = 32

unfoldable pub derive_id : Crypto → Bytes → Bytes
derive_id c public = codes "cc-" ++ c.base32 (take 10 (c.sha256 public))

-- `hex.DecodeString` of one digit and of the table's entries, which are all well-formed.
unfoldable pub hex_digit : ℕ → ℕ
hex_digit d = if ltb d b'a' then d - b'0' else d - b'a' + 10

unfoldable pub decode_hex : Bytes → Bytes
unfolding hex_digit
decode_hex (a ∷ b ∷ r) = (hex_digit a * 16 + hex_digit b) ∷ decode_hex r
decode_hex _ = []

unfoldable pub small_order_keys : List Bytes
unfolding decode_hex
small_order_keys = map decode_hex (
    codes "0100000000000000000000000000000000000000000000000000000000000000"
    ∷ codes "ecffffffffffffffffffffffffffffffffffffffffffffffffffffffffffff7f"
    ∷ codes "0000000000000000000000000000000000000000000000000000000000000000"
    ∷ codes "0000000000000000000000000000000000000000000000000000000000000080"
    ∷ codes "26e8958fc2b227b045c3f489f2ef98f0d5dfac05d3c63339b13802886d53fc05"
    ∷ codes "26e8958fc2b227b045c3f489f2ef98f0d5dfac05d3c63339b13802886d53fc85"
    ∷ codes "c7176a703d4dd84fba3c0b760d10670f2a2053fa2c39ccc64ec7fd7792ac037a"
    ∷ codes "c7176a703d4dd84fba3c0b760d10670f2a2053fa2c39ccc64ec7fd7792ac03fa"
    ∷ codes "ecffffffffffffffffffffffffffffffffffffffffffffffffffffffffffffff"
    ∷ codes "edffffffffffffffffffffffffffffffffffffffffffffffffffffffffffff7f"
    ∷ codes "eeffffffffffffffffffffffffffffffffffffffffffffffffffffffffffff7f"
    ∷ [])

-- The loop of `usableIdentityKey` over the table: whether any entry is the key.
unfoldable pub blocked : Bytes → List Bytes → Bool
blocked public [] = false
blocked public (bad ∷ rest) = bytes_beq public bad || blocked public rest

unfoldable pub usable_identity_key : Bytes → Bool
usable_identity_key public =
    if not (length public == public_key_size) then false else not (blocked public small_order_keys)

-- `bytes.Compare(a, b) > 0`
unfoldable pub after : Bytes → Bytes → Bool
after [] b = false
after (x ∷ a) [] = true
after (x ∷ a) (y ∷ b) = if x == y then after a b else ltb y x

abbrev pub safety_label : Bytes
safety_label = codes "CMD-CHAT-E2EE v2 safety number"

abbrev pub safety_number_groups : ℕ
safety_number_groups = 8

-- The loop that groups the digits: the groups from `i` on, `left` of them.
unfoldable pub groups : Bytes → ℕ → ℕ → ℕ → Bytes
groups encoded size i zero = []
groups encoded size i (suc left) =
    (if ltb 0 i then codes " " else [])
    ++ (take size (drop (i * size) encoded) ++ groups encoded size (i + 1) left)

-- The text made of two keys in their order.
unfoldable pub safety_text : Crypto → Bytes → Bytes → Bytes
safety_text c first second =
    let sum = c.sha256 (safety_label ++ ((0 ∷ []) ++ (first ++ second))) in
    let encoded = c.base32 (take 20 sum) in
    groups encoded (length encoded / safety_number_groups) 0 safety_number_groups

-- `SafetyNumber`; the empty text for a key of another length.
unfoldable pub safety_number : Crypto → Bytes → Bytes → Bytes
safety_number c local remote =
    if not (length local == public_key_size) || not (length remote == public_key_size)
    then []
    else if after local remote
    then safety_text c remote local
    else safety_text c local remote

after_total : (a b : Bytes) → after a b ≡ false → after b a ≡ false → a ≡ b
unfolding after
after_total [] [] h k = refl
after_total [] (y ∷ b) h k = cc
after_total (x ∷ a) [] h k = cc
after_total (x ∷ a) (y ∷ b) h k = ground (arith, after_total a b)

pub after_asym : (a b : Bytes) → after a b ≡ true → after b a ≡ false
unfolding after
after_asym [] b h = cc
after_asym (x ∷ a) [] h = refl
after_asym (x ∷ a) (y ∷ b) h = ground (arith, after_asym a b)

-- Both sides of a conversation compute the same safety number.
pub safety_number_comm : (c : Crypto) (a b : Bytes) → safety_number c a b ≡ safety_number c b a
unfolding safety_number
safety_number_comm c a b = ground (arith, after_total a b, after_asym a b)

not_blocked : (k : Bytes) (ks : List Bytes) → blocked k ks ≡ false → All (λ bad. k ≢ bad) ks
unfolding blocked
not_blocked k [] h = tt
not_blocked k (x ∷ ks) h = (λ e. ground (arith, bytes_beq_iff k x), not_blocked k ks (ground arith))

-- A key that is let through has 32 bytes and is none of the blocked encodings.
pub usable_identity_key_sound :
    (k : Bytes)
    → usable_identity_key k ≡ true
    → (length k ≡ public_key_size) × All (λ bad. k ≢ bad) small_order_keys
unfolding usable_identity_key
usable_identity_key_sound k h = (ground arith, not_blocked k small_order_keys (ground arith))
