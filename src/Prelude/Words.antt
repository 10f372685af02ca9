-- ===== src/Prelude/Words.antt =====
-- Bytes are numbers below 256; Go strings and byte slices are lists of them. Big-endian words.
use Prim.Native.Nat.{ℕ, ◌+◌, ◌*◌, ◌/◌, ◌%◌, ◌^◌, ◌<◌}
use Prim.Native.Char.{code}
use Prim.Native.String.{String}
use mathlib.Core.Path.{◌≡◌, refl}
use mathlib.Core.List.{List, [], ◌∷◌}
use native.Mathlib.Omega.{arith}
use cmd_chat.Prelude.Lists.{length, All}
use cmd_chat.Prelude.Tests.{ltb, if◌then◌else◌}

abbrev pub Bytes : Type 0
Bytes = List ℕ

abbrev pub IsByte : ℕ → Type 0
IsByte b = b < 256

abbrev pub IsBytes : List ℕ → Type 0
IsBytes = All IsByte

-- The bytes of an ASCII literal.
abbrev pub codes : String → List ℕ
codes String.[] = []
codes (String.◌∷◌ first rest) = code first ∷ codes rest

-- `binary.BigEndian.PutUint16` and `PutUint32`, with the conversion to the word.
unfoldable pub put_u16 : ℕ → Bytes
put_u16 v = v / 2 ^ 8 % 256 ∷ v % 256 ∷ []

unfoldable pub put_u32 : ℕ → Bytes
put_u32 v = v / 2 ^ 24 % 256 ∷ v / 2 ^ 16 % 256 ∷ v / 2 ^ 8 % 256 ∷ v % 256 ∷ []

-- `binary.BigEndian.Uint16` and `Uint32`, on slices that the callers have cut to size.
unfoldable pub u16_of : Bytes → ℕ
u16_of (a ∷ b ∷ r) = a * 256 + b
u16_of _ = 0

unfoldable pub u32_of : Bytes → ℕ
u32_of (a ∷ b ∷ c ∷ d ∷ r) = ((a * 256 + b) * 256 + c) * 256 + d
u32_of _ = 0

pub u16_of-put_u16 : (v : ℕ) → v < 2 ^ 16 → u16_of (put_u16 v) ≡ v
unfolding u16_of put_u16
u16_of-put_u16 v h = omega arith

pub u32_of-put_u32 : (v : ℕ) → v < 2 ^ 32 → u32_of (put_u32 v) ≡ v
unfolding u32_of put_u32
u32_of-put_u32 v h = omega arith

pub length-put_u32 : (v : ℕ) → length (put_u32 v) ≡ 4
unfolding put_u32
length-put_u32 v = refl

pub length-put_u16 : (v : ℕ) → length (put_u16 v) ≡ 2
unfolding put_u16
length-put_u16 v = refl

-- `hex.EncodeToString`
abbrev hex_of : ℕ → ℕ
hex_of d = if ltb d 10 then 48 + d else 87 + d

unfoldable pub encode_to_string : Bytes → Bytes
encode_to_string [] = []
encode_to_string (b ∷ s) = hex_of (b / 16) ∷ hex_of (b % 16) ∷ encode_to_string s
