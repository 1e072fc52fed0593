-- ===== src/Tools/Aes.antt =====
-- `DecryptAES` of tools/auth.go. base64, md5 and the block cipher of crypto/aes are parameters; the mode of
-- operation, which is cipher feedback (`cipher.NewCFBDecrypter`), is written out.
pub mod RoundTrip
mod Tests
use Prim.Native.Nat.{bit_xor}
use aliyun_ahas.Common.{
  ℕ, zero, suc, ◌+◌, ◌-◌, ◌≤◌, ◌<◌, Text, lit, [], ◌∷◌, ◌++◌, append-nil, length, take, drop,
  length-append, take-append-drop, Bool, true, false, not, ◌||◌, Option, none, some, Result, ok,
  err, panic, ltb, ◌==◌, if◌then◌else◌, Bool-cases, ◌≡◌, ◌⊎◌, inl, inr, refl, ap, ◌∙◌, arith,
}
use aliyun_ahas.Common.Xor.{bit_xor_twice}

abbrev pub block_size : ℕ
block_size = 16

-- `XORKeyStream`, for as many bytes as the text has.
xor_bytes : Text → Text → Text
xor_bytes [] k = []
xor_bytes (c ∷ s) [] = []
xor_bytes (c ∷ s) (b ∷ k) = bit_xor c b ∷ xor_bytes s k

module _ (block : Text → Text) where
  -- A block of the text is joined with the block cipher of the block before it, at first of `iv`. One round for each
  -- byte is enough.
  pub cfb_decrypt : ℕ → Text → Text → Text
  unfolding xor_bytes
  cfb_decrypt zero iv s = []
  cfb_decrypt (suc n) iv [] = []
  cfb_decrypt (suc n) iv (c ∷ s) =
      xor_bytes (take block_size (c ∷ s)) (block iv)
      ++ cfb_decrypt n (take block_size (c ∷ s)) (drop block_size (c ∷ s))

  -- The other direction, which the other side uses.
  pub cfb_encrypt : ℕ → Text → Text → Text
  unfolding xor_bytes
  cfb_encrypt zero iv s = []
  cfb_encrypt (suc n) iv [] = []
  cfb_encrypt (suc n) iv (c ∷ s) =
      xor_bytes (take block_size (c ∷ s)) (block iv)
      ++ cfb_encrypt n (xor_bytes (take block_size (c ∷ s)) (block iv)) (drop block_size (c ∷ s))

-- `base64.StdEncoding.DecodeString`: the bytes and the error; `md5`: the sum; `aes`: the block cipher for a key.
module _ (base64 : Text → Text × Option Text) (md5 : Text → Text) (aes : Text → Text → Text) where
  -- `aes.NewCipher` takes keys of three lengths.
  is_key : Text → Bool
  is_key kt = length kt == 16 || (length kt == 24 || length kt == 32)

  decrypt_bytes : Text → Text → Result Text
  unfolding cfb_decrypt is_key
  decrypt_bytes kt bytes =
      if not (is_key kt)
      then panic
      else if ltb (length bytes) block_size
      then panic
      else let text = drop block_size bytes in
        ok (cfb_decrypt (aes kt) (length text) (take block_size bytes) text)

  decrypt_decoded : Text → Text × Option Text → Result Text
  unfolding decrypt_bytes
  decrypt_decoded key (bytes, some e) = err e
  decrypt_decoded key (bytes, none) = decrypt_bytes (md5 key) bytes

  -- `DecryptAES`; a hash takes what is written to it without an error.
  unfoldable pub decrypt_aes : Text → Text → Result Text
  unfolding decrypt_decoded
  decrypt_aes str key = decrypt_decoded key (base64 str)
