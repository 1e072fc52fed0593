-- ===== src/Tools/Auth.antt =====
-- tools/auth.go: the keys, the signature and the chunks. The digest (SHA-256 in hexadecimal, in base64)
-- and the file are parameters.
pub mod Laws
use aliyun_ahas.Common.{
  ℕ, zero, suc, ◌-◌, Text, lit, [], ◌∷◌, ◌++◌, is_empty, text_eq, length, take, drop, Bool, ◌||◌,
  Option, none, some, Result, ok, err, panic, diverge, ltb, if◌then◌else◌,
}

-- `localSoleilKey` and `localLuneKey`
pub record Keys : Type 0 where
  pub soleil_key : Text
  pub lune_key : Text

-- `Sign`
unfoldable pub sign : (Text → Text) → Keys → Text → Text
sign digest keys sign_data = digest (sign_data ++ keys.lune_key)

-- `Auth`
unfoldable pub auth : (Text → Text) → Keys → Text → Text → Bool
auth digest keys received_sign sign_data = text_eq (sign digest keys sign_data) received_sign

prepend : Text → Result Text → Result Text
prepend chunk (ok rest) = ok (chunk ++ rest)
prepend chunk (err e) = err e
prepend chunk panic = panic
prepend chunk diverge = diverge

-- The loop of `splitToChunk`, with the chunks joined.
chunks : ℕ → ℕ → Text → Result Text
unfolding prepend
chunks fuel size [] = ok []
chunks zero size (c ∷ s) = diverge
chunks (suc fuel) size (c ∷ s) =
    let size' = if ltb (length (c ∷ s)) size then length (c ∷ s) else size in
    prepend (take size' (c ∷ s)) (chunks fuel size' (drop size' (c ∷ s)))

-- `splitToChunk`, with as many rounds as there are bytes.
pub split_to_chunk : Text → ℕ → Result Text
unfolding chunks
split_to_chunk s size = if ltb (length s) size then ok s else chunks (length s) size s

module _ {W : Type 0} (open_file : W → Option Text × W)
    (write_string : Text → W → Option Text × W) where
  save_second : Keys → Text → Text → W → Option Text × Keys × W
  save_second keys k1 k2 w =
      let (e, w₁) = write_string (lit "L=" ++ k2) w in
      elim e [
        | some x ↦ (some x, keys, w₁)
        | none ↦ (none, record { soleil_key = k1; lune_key = k2 }, w₁)
      ]

  save_first : Keys → Text → Text → W → Option Text × Keys × W
  save_first keys k1 k2 w =
      let (e, w₁) = write_string (lit "S=" ++ (k1 ++ lit "\n")) w in
      elim e [ some x ↦ (some x, keys, w₁) | none ↦ save_second keys k1 k2 w₁ ]

  -- `SaveMetadataToFile`
  unfoldable pub save_metadata_to_file : Keys → Text → Text → W → Option Text × Keys × W
  unfolding save_first save_second
  save_metadata_to_file keys k1 k2 w =
      if is_empty k1 || is_empty k2
      then (some (lit "SaveMetadataToFile failed: key is empty"), keys, w)
      else let (e, w₁) = open_file w in
        elim e [ some x ↦ (some x, keys, w₁) | none ↦ save_first keys k1 k2 w₁ ]
