-- ===== src/Types/Address/Laws.antt =====
-- What the address conversions give: round trips with the hexadecimal text, and exact domains.
use oif_starknet.Prelude.{
  ℕ, ◌-◌, ◌≡◌, ◌<◌, [], ◌∷◌, ◌++◌, arith, ◌==◌, if◌then◌else◌, if_cases, length, take, drop,
  replicate, All, All-append, take-of_length, length-append, length-take, length-replicate, ap,
}
use mathlib.Core.List.{append-nil}
use Prim.Native.String.{String}
use mathlib.Core.Path.{◌≡⟨◌⟩◌, ◌∎}
use oif_starknet.Prelude.Result.{ok, err, errorf, wrapping, Ensures, Ensures-bind, Ensures-ok}
use oif_starknet.Prelude.Text.{Bytes, GoString, trim_0x}
use oif_starknet.Prelude.Hex.{
  IsByte, encode_to_string, decode_string, decode_string-encode_to_string, length-encode_to_string,
}
use oif_starknet.Types.Address.{Address, Geth, copy_at, to_evm_address, to_bytes32}

-- `0x` and the hexadecimal text of some bytes, as the listeners write addresses.
abbrev pub hex_text : Bytes → GoString
hex_text b = 48 ∷ 120 ∷ encode_to_string b

pub length-copy_at : (i : ℕ) (b : Bytes) → i < 33 → length (copy_at i b) ≡ 32
unfolding copy_at
length-copy_at i b h = omega (
  arith,
  length-append (replicate i 0) (take (32 - i) b ++ replicate (32 - i - length b) 0),
  length-append (take (32 - i) b) (replicate (32 - i - length b) 0),
  length-take (32 - i) b,
  length-replicate {A = ℕ} i 0,
  length-replicate {A = ℕ} (32 - i - length b) 0,
)

-- A full 32 bytes are copied as they are.
copy_at-full : (b : Bytes) → length b ≡ 32 → copy_at 0 b ≡ b
unfolding copy_at
copy_at-full b len =
    take 32 b ++ replicate (32 - length b) 0
    ≡⟨ ap (λ n. take 32 b ++ replicate (32 - n) 0) len ⟩ take 32 b ++ []
    ≡⟨ append-nil (take 32 b) ⟩ take 32 b
    ≡⟨ take-of_length 32 b (omega arith) ⟩ b ∎

-- 20 bytes are copied behind 12 zero bytes.
copy_at-address : (a : Address) → length a ≡ 20 → copy_at 12 a ≡ replicate 12 0 ++ a
unfolding copy_at
copy_at-address a len =
    replicate 12 0 ++ (take 20 a ++ replicate (20 - length a) 0)
    ≡⟨ ap (λ n. replicate 12 0 ++ (take 20 a ++ replicate (20 - n) 0)) len ⟩
      replicate 12 0 ++ (take 20 a ++ [])
    ≡⟨ ap (λ t. replicate 12 0 ++ t) (append-nil (take 20 a)) ⟩ replicate 12 0 ++ take 20 a
    ≡⟨ ap (λ t. replicate 12 0 ++ t) (take-of_length 20 a (omega arith)) ⟩ replicate 12 0 ++ a ∎

module _ (g : Geth) where
  -- The 32-byte form of `0x` and the hexadecimal text of 32 bytes are these bytes.
  pub to_bytes32-hex_text :
      (b : Bytes) → All IsByte b → length b ≡ 32 → to_bytes32 g (hex_text b) ≡ ok b
  unfolding to_bytes32 trim_0x
  to_bytes32-hex_text b bytes len =
      let size : length (encode_to_string b) ≡ 64 = omega (arith, length-encode_to_string b) in
      rw (size, decode_string-encode_to_string b bytes, len, copy_at-full b len)

  -- The EVM address of such a text is `BytesToAddress` of the last 20 of the 32 bytes.
  pub to_evm_address-hex_text :
      (b : Bytes)
      → All IsByte b
      → length b ≡ 32
      → to_evm_address g (hex_text b) ≡ ok (g.bytes_to_address (drop 12 b))
  unfolding to_evm_address trim_0x
  to_evm_address-hex_text b bytes len =
      let size : length (encode_to_string b) ≡ 64 = omega (arith, length-encode_to_string b) in
      rw (size, decode_string-encode_to_string b bytes, len)

  -- An EVM address that a listener reads from a bytes32 field, where it stands behind 12 zero
  -- bytes, and writes as text, is the address that the handler takes from that text, provided
  -- that `BytesToAddress` keeps 20 bytes as they are.
  pub to_evm_address-copy_at :
      (a : Address)
      → All IsByte a
      → length a ≡ 20
      → g.bytes_to_address a ≡ a
      → to_evm_address g (hex_text (copy_at 12 a)) ≡ ok a
  to_evm_address-copy_at a bytes len keeps =
      let e = copy_at-address a len in
      let bs : All IsByte (copy_at 12 a) =
        rw e (All-append IsByte (replicate 12 0) a zeros bytes) in
      rw (to_evm_address-hex_text (copy_at 12 a) bs (length-copy_at 12 a (omega arith)), e, keeps)
    where
      zeros : All IsByte (replicate 12 0)
      zeros = omega arith

  -- A 32-byte conversion that succeeds has 32 bytes, whatever the text.
  pub length-to_bytes32 :
      (address : GoString) (b : Bytes) → to_bytes32 g address ≡ ok b → length b ≡ 32
  unfolding to_bytes32
  length-to_bytes32 address b = Ensures-ok Full (to_bytes32 g address) b (full address)
    where
      Full : Bytes → Type 0
      Full x = length x ≡ 32

      exact :
          (i n : ℕ) (text : String) (bytes : Bytes)
          → i < 33
          → Ensures Full (if length bytes == n then ok (copy_at i bytes) else err (errorf text))
      exact i n text bytes h =
          if_cases (Ensures Full) (length bytes == n) _ _ (λ _. length-copy_at i bytes h) (λ _. tt)

      full : (address : GoString) → Ensures Full (to_bytes32 g address)
      full s =
          let c = trim_0x s in
          if_cases (Ensures Full) (length c == 64) _ _
            (λ _.
              Ensures-bind Full (wrapping "failed to decode bytes32 address" (decode_string c)) _
                λ x _. exact 0 32 _ x (omega arith))
            λ _.
              if_cases (Ensures Full) (length c == 62) _ _
                (λ _.
                  Ensures-bind Full (wrapping "failed to decode Starknet address" (decode_string c))
                    _ λ x _. exact 1 31 _ x (omega arith))
                λ _.
                  if_cases (Ensures Full) (length c == 40) _ _
                    (λ _. length-copy_at 12 (g.hex_to_address s) (omega arith)) λ _. tt
