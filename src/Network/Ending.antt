-- ===== src/Network/Ending.antt =====
-- The loop over the attributes of a STUN answer, whatever arrives.
use cmd_chat.Prelude.{
  ltb, ◌==◌, ltb_false→le, Bool-cases, Option-cases, length, take, drop, length-drop, bytes_beq,
  nat_eq, bytes_eq, Bytes, u16_of, u32_of, err, ℕ, zero, suc, ◌<◌, ◌≢◌, inl, inr, not, ◌||◌, arith,
}
use cmd_chat.Network.{magic_cookie, mapped, padded, attributes, read_response, out_of_fuel}

attributes-ends :
    (fuel : ℕ) (rest : Bytes) → length rest < fuel → attributes fuel rest ≢ err out_of_fuel
unfolding attributes
attributes-ends zero rest h = absurd (omega arith)
attributes-ends (suc fuel) rest h = elim (Bool-cases (ltb (length rest) 4)) [
  | inl short ↦ rw short (λ e. cc e)
  | inr long ↦ elim (Bool-cases (ltb (length (drop 4 rest)) (u16_of (drop 2 rest)))) [
    | inl cut ↦ rw (long, cut) (λ e. cc e)
    | inr whole ↦
        elim (Option-cases (
          mapped (u16_of rest) (u16_of (drop 2 rest))
            (take (u16_of (drop 2 rest)) (drop 4 rest)))) [
              | inr (e, found) ↦ rw (long, whole, found) (λ f. cc f)
              | inl missing ↦
                  rw (long, whole, missing)
                    (attributes-ends fuel (drop (padded (u16_of (drop 2 rest))) (drop 4 rest)) (
                      omega (
                        arith,
                        h,
                        ltb_false→le (length rest) 4 long,
                        length-drop 4 rest,
                        length-drop (padded (u16_of (drop 2 rest))) (drop 4 rest),
                      )))
            ]
  ]
]

-- Whatever arrives, the loop over the attributes comes to an end.
pub read_response-ends : (tx datagram : Bytes) → read_response tx datagram ≢ err out_of_fuel
unfolding read_response
read_response-ends tx datagram e = elim (Bool-cases (ltb (length datagram) 20)) [
  | inl short ↦ cc (rw (read_response, short) at e)
  | inr long ↦
      elim (Bool-cases (
        not (u32_of (take 4 (drop 4 datagram)) == magic_cookie)
        || not (bytes_beq (take 12 (drop 8 datagram)) tx))) [
          | inl other ↦ cc (rw (read_response, long, other) at e)
          | inr same ↦
              attributes-ends (length datagram) (drop 20 datagram)
                (omega (arith, length-drop 20 datagram, ltb_false→le (length datagram) 20 long))
                (rw (read_response, long, same) at e)
        ]
]
