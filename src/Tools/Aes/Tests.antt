-- ===== src/Tools/Aes/Tests.antt =====
-- Runs of the decryption with a small cipher.
use aliyun_ahas.Common.{
  ℕ, ◌+◌, ◌%◌, Text, lit, [], ◌∷◌, ◌++◌, length, is_empty, Option, none, some, ok, panic,
  if◌then◌else◌, ◌≡◌, refl,
}
use aliyun_ahas.Tools.Aes.{cfb_encrypt, decrypt_aes}
use aliyun_ahas.Tools.Aes.RoundTrip.{decrypt_aes-encrypted}

abbrev sixteen : ℕ → Text
sixteen n = n ∷ n ∷ 2 ∷ n ∷ n ∷ 5 ∷ n ∷ n ∷ n ∷ 1 ∷ n ∷ n ∷ n ∷ 9 ∷ n ∷ n ∷ []

abbrev first : Text → ℕ
first [] = 0
first (c ∷ s) = c

abbrev sum_of : Text → Text
sum_of t = sixteen (length t % 256)

abbrev cipher : Text → Text → Text
cipher k b = sixteen ((first k + first b) % 256)

-- A decoder that knows no empty text, and takes others as they are.
abbrev decoder : Text → Text × Option Text
decoder s = if is_empty s then ([], some (lit "illegal")) else (s, none)

abbrev message : Text
message = lit "a message of more than a block"

abbrev begin : Text
begin = sixteen 7

abbrev sealed : Text
sealed = begin ++ cfb_encrypt (cipher (sum_of (lit "key"))) (length message) begin message

opens : decrypt_aes decoder sum_of cipher sealed (lit "key") ≡ ok message
unfolding decrypt_aes cfb_encrypt
opens = refl

refuses_short : decrypt_aes decoder sum_of cipher (lit "short") (lit "key") ≡ panic
unfolding decrypt_aes
refuses_short = refl

decrypt_aes-encrypted_example : decrypt_aes decoder sum_of cipher sealed (lit "key") ≡ ok message
decrypt_aes-encrypted_example =
    decrypt_aes-encrypted decoder sum_of cipher sealed (lit "key") begin message (λ t. refl)
      (λ k b. refl) refl refl
