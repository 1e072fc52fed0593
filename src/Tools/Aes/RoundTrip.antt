-- ===== src/Tools/Aes/RoundTrip.antt =====
-- `DecryptAES` on what was encrypted, and on any other text.
use aliyun_ahas.Common.{
  ℕ, zero, suc, ◌+◌, ◌≤◌, ◌<◌, Text, [], ◌∷◌, ◌++◌, length, length-take, length-drop, take_block,
  take, drop, length-append, take-append-drop, Option, none, some, ok, err, panic, ltb, Bool-cases,
  ◌≡◌, ◌⊎◌, inl, inr, refl, ap, ◌∙◌, arith,
}
use aliyun_ahas.Common.Xor.{bit_xor_twice}
use aliyun_ahas.Tools.Aes.{
  block_size, xor_bytes, cfb_decrypt, cfb_encrypt, decrypt_aes, decrypt_decoded,
}

length-xor_bytes : (s k : Text) → length s ≤ length k → length (xor_bytes s k) ≡ length s
unfolding xor_bytes
length-xor_bytes [] k h = refl
length-xor_bytes (c ∷ s) [] h = absurd (omega arith)
length-xor_bytes (c ∷ s) (b ∷ k) h = omega (arith, length-xor_bytes s k (omega arith))

xor_bytes_twice : (s k : Text) → length s ≤ length k → xor_bytes (xor_bytes s k) k ≡ s
unfolding xor_bytes
xor_bytes_twice [] k h = refl
xor_bytes_twice (c ∷ s) [] h = absurd (omega arith)
xor_bytes_twice (c ∷ s) (b ∷ k) h = ground (arith, bit_xor_twice c b, xor_bytes_twice s k)

module _ (block : Text → Text) (whole : (b : Text) → length (block b) ≡ block_size) where
  cfb_decrypt-some :
      (n : ℕ) (iv s : Text)
      → 0 < length s
      → cfb_decrypt block (suc n) iv s
        ≡ xor_bytes (take block_size s) (block iv)
          ++ cfb_decrypt block n (take block_size s) (drop block_size s)
  unfolding cfb_decrypt
  cfb_decrypt-some n iv [] h = absurd (omega arith)
  cfb_decrypt-some n iv (c ∷ s) h = refl

  cfb_encrypt-none : (n : ℕ) (iv : Text) → cfb_encrypt block n iv [] ≡ []
  unfolding cfb_encrypt
  cfb_encrypt-none zero iv = refl
  cfb_encrypt-none (suc n) iv = refl

  pub length-cfb_encrypt :
      (n : ℕ) (iv s : Text) → length s ≤ n → length (cfb_encrypt block n iv s) ≡ length s
  unfolding cfb_encrypt
  length-cfb_encrypt zero iv [] h = refl
  length-cfb_encrypt zero iv (c ∷ s) h = absurd (omega arith)
  length-cfb_encrypt (suc n) iv [] h = refl
  length-cfb_encrypt (suc n) iv (c ∷ s) h =
      let front = take block_size (c ∷ s) in
      let b = xor_bytes front (block iv) in
      let rest = drop block_size (c ∷ s) in
      omega (
        arith,
        length-append b (cfb_encrypt block n b rest),
        length-xor_bytes front (block iv)
            (omega (arith, (length-take block_size (c ∷ s)).0, whole iv)),
        length-cfb_encrypt n b rest (omega (arith, length-drop block_size (c ∷ s))),
        ap length (take-append-drop block_size (c ∷ s)),
        length-append front rest,
      )

  pub cfb_decrypt-cfb_encrypt :
      (n : ℕ) (iv s : Text) → length s ≤ n → cfb_decrypt block n iv (cfb_encrypt block n iv s) ≡ s
  cfb_decrypt-cfb_encrypt zero iv [] h = unfold cfb_decrypt in refl
  cfb_decrypt-cfb_encrypt zero iv (c ∷ s) h = absurd (omega arith)
  cfb_decrypt-cfb_encrypt (suc n) iv [] h = unfold cfb_decrypt cfb_encrypt in refl
  cfb_decrypt-cfb_encrypt (suc n) iv (c ∷ s) h =
      let front = take block_size (c ∷ s) in
      let b = xor_bytes front (block iv) in
      let rest = drop block_size (c ∷ s) in
      let e = cfb_encrypt block n b rest in
      let (short, full) = length-take block_size (c ∷ s) in
      let fits : length front ≤ length (block iv) = omega (arith, whole iv) in
      let same = length-xor_bytes front (block iv) fits in
      let (cut_front, cut_rest) =
        take_block block_size b e (omega (arith, same)) (last full same) in
      let encrypted : cfb_encrypt block (suc n) iv (c ∷ s) ≡ b ++ e = unfold cfb_encrypt in refl in
      let decrypted =
        cfb_decrypt-some n iv (b ++ e) (omega (arith, length-append b e, same, taken)) in
      let behind =
        cfb_decrypt-cfb_encrypt n b rest (omega (arith, length-drop block_size (c ∷ s))) in
      rw (encrypted, decrypted, cut_front, cut_rest, xor_bytes_twice front (block iv) fits, behind)
        (take-append-drop block_size (c ∷ s))
    where
      taken : 0 < length (take block_size (c ∷ s))
      taken = omega arith

      last :
          (length (take block_size (c ∷ s)) ≡ block_size) ⊎ (drop block_size (c ∷ s) ≡ [])
          → length (xor_bytes (take block_size (c ∷ s)) (block iv))
            ≡ length (take block_size (c ∷ s))
          → (length (xor_bytes (take block_size (c ∷ s)) (block iv)) ≡ block_size)
            ⊎ (cfb_encrypt block n
                  (xor_bytes (take block_size (c ∷ s)) (block iv))
                  (drop block_size (c ∷ s))
                ≡ [])
      last (inl full) same = inl (same ∙ full)
      last (inr none_left) same =
          inr (rw none_left (cfb_encrypt-none n (xor_bytes (take block_size (c ∷ s)) (block iv))))

  pub length-cfb_decrypt :
      (n : ℕ) (iv s : Text) → length s ≤ n → length (cfb_decrypt block n iv s) ≡ length s
  unfolding cfb_decrypt
  length-cfb_decrypt zero iv [] h = refl
  length-cfb_decrypt zero iv (c ∷ s) h = absurd (omega arith)
  length-cfb_decrypt (suc n) iv [] h = refl
  length-cfb_decrypt (suc n) iv (c ∷ s) h =
      let front = take block_size (c ∷ s) in
      let b = xor_bytes front (block iv) in
      let rest = drop block_size (c ∷ s) in
      omega (
        arith,
        length-append b (cfb_decrypt block n front rest),
        length-xor_bytes front (block iv)
            (omega (arith, (length-take block_size (c ∷ s)).0, whole iv)),
        length-cfb_decrypt n front rest (omega (arith, length-drop block_size (c ∷ s))),
        ap length (take-append-drop block_size (c ∷ s)),
        length-append front rest,
      )

module _ (base64 : Text → Text × Option Text) (md5 : Text → Text) (aes : Text → Text → Text)
    (sum : (t : Text) → length (md5 t) ≡ 16) where
  decrypted_long :
      (key bytes : Text)
      → block_size ≤ length bytes
      → decrypt_decoded base64 md5 aes key (bytes, none)
        ≡ ok (
            cfb_decrypt
              (aes (md5 key))
              (length (drop block_size bytes))
              (take block_size bytes)
              (drop block_size bytes))
  unfolding decrypt_decoded
  decrypted_long key bytes h = ground (arith, sum key)

  decrypted_short :
      (key bytes : Text)
      → length bytes < block_size
      → decrypt_decoded base64 md5 aes key (bytes, none) ≡ panic
  unfolding decrypt_decoded
  decrypted_short key bytes h = ground (arith, sum key)

  decoded_outcomes :
      (whole : (k b : Text) → length (aes k b) ≡ block_size) (key : Text)
      (given : Text × Option Text)
      → let r = decrypt_decoded base64 md5 aes key given in
        ((e : Text) × (given.1 ≡ some e) × (r ≡ err e))
        ⊎ ((given.1 ≡ none)
            × (((length given.0 < block_size) × (r ≡ panic))
                ⊎ ((m : Text) × (r ≡ ok m) × (length given.0 ≡ block_size + length m))))
  decoded_outcomes whole key (bytes, some e) = inl (e, refl, unfold decrypt_decoded in refl)
  decoded_outcomes whole key (bytes, none) = elim (Bool-cases (ltb (length bytes) block_size)) [
    | inl short ↦
        let h : length bytes < block_size = ground arith in
        inr (refl, inl (h, decrypted_short key bytes h))
    | inr long ↦
        let text = drop block_size bytes in
        let m = cfb_decrypt (aes (md5 key)) (length text) (take block_size bytes) text in
        let h : block_size ≤ length bytes = ground arith in
        let same =
          length-cfb_decrypt (aes (md5 key)) (whole (md5 key)) (length text) (take block_size bytes)
            text (omega arith) in
        inr (
          refl,
          inr (m, decrypted_long key bytes h, omega (arith, h, same, length-drop block_size bytes)),
        )
  ]

-- What base64 gives back as the start value and the message, encrypted under the key, is decrypted to the message:
-- for a sum of 16 bytes, a cipher with blocks of 16 bytes, a start value of 16 bytes, and a message of any length.
pub decrypt_aes-encrypted :
    (base64 : Text → Text × Option Text) (md5 : Text → Text) (aes : Text → Text → Text)
    (str key iv message : Text)
    → ((t : Text) → length (md5 t) ≡ 16)
    → ((k b : Text) → length (aes k b) ≡ block_size)
    → length iv ≡ block_size
    → base64 str ≡ (iv ++ cfb_encrypt (aes (md5 key)) (length message) iv message, none)
    → decrypt_aes base64 md5 aes str key ≡ ok message
unfolding decrypt_aes
decrypt_aes-encrypted base64 md5 aes str key iv message sum whole begins given =
    let text = cfb_encrypt (aes (md5 key)) (length message) iv message in
    let (front, rest) = take_block block_size iv text (omega arith) (inl begins) in
    let same =
      length-cfb_encrypt (aes (md5 key)) (whole (md5 key)) (length message) iv message
        (omega arith) in
    let long : block_size ≤ length (iv ++ text) = omega (arith, length-append iv text) in
    ap (decrypt_decoded base64 md5 aes key) given
    ∙ decrypted_long base64 md5 aes sum key (iv ++ text) long
    ∙ rw (front, rest, same)
        (ap ok (
          cfb_decrypt-cfb_encrypt (aes (md5 key)) (whole (md5 key)) (length message) iv message
            (omega arith)))

-- Each outcome of `DecryptAES`: the error of base64 is passed on; a text shorter than a block is a panic; any other
-- gives as many bytes as are behind the first block. The key is never refused.
pub decrypt_aes_outcomes :
    (base64 : Text → Text × Option Text) (md5 : Text → Text) (aes : Text → Text → Text)
    (str key : Text)
    → ((t : Text) → length (md5 t) ≡ 16)
    → ((k b : Text) → length (aes k b) ≡ block_size)
    → let r = decrypt_aes base64 md5 aes str key in
      ((e : Text) × ((base64 str).1 ≡ some e) × (r ≡ err e))
      ⊎ (((base64 str).1 ≡ none)
          × (((length (base64 str).0 < block_size) × (r ≡ panic))
              ⊎ ((m : Text) × (r ≡ ok m) × (length (base64 str).0 ≡ block_size + length m))))
unfolding decrypt_aes
decrypt_aes_outcomes base64 md5 aes str key sum whole =
    decoded_outcomes base64 md5 aes sum whole key (base64 str)
