-- ===== src/Tools/Auth/Laws.antt =====
-- The keys and the chunks (tools/auth.go).
use aliyun_ahas.Common.{
  ℕ, zero, suc, ◌≤◌, ◌<◌, Text, [], ◌∷◌, is_empty, length, length-drop, drop, take-append-drop,
  false, Bool-cases, Option, none, some, ok, ◌≡◌, ◌⊎◌, inl, inr, refl, ap, ltb, if◌then◌else◌,
  arith,
}
use aliyun_ahas.Tools.Auth.{
  Keys, prepend, chunks, split_to_chunk, save_metadata_to_file, save_first, save_second,
}

chunks_join : (fuel size : ℕ) (s : Text) → 0 < size → length s ≤ fuel → chunks fuel size s ≡ ok s
unfolding chunks
chunks_join fuel size [] h enough = refl
chunks_join zero size (c ∷ s) h enough = absurd (omega arith)
chunks_join (suc fuel) size (c ∷ s) h enough =
    let size' = if ltb (length (c ∷ s)) size then length (c ∷ s) else size in
    let positive : 0 < size' = ground arith in
    let fewer = length-drop size' (c ∷ s) in
    let rest = chunks_join fuel size' (drop size' (c ∷ s)) positive (omega (arith, fewer)) in
    rw rest (unfold prepend in ap ok (take-append-drop size' (c ∷ s)))

-- For a positive size, `splitToChunk` ends and gives its text back: the chunks joined are the text.
pub split_to_chunk_joins : (s : Text) (size : ℕ) → 0 < size → split_to_chunk s size ≡ ok s
unfolding split_to_chunk
split_to_chunk_joins s size h = elim (Bool-cases (ltb (length s) size)) [
  | inl short ↦ rw short refl
  | inr long ↦ rw long (chunks_join (length s) size s h (omega arith))
]

-- `SaveMetadataToFile` sets both keys or none: with no error both are the new ones, which are not
-- empty, and with an error both are as before, wherever the file fails.
pub save_all_or_nothing :
    {W : Type 0} (open_file : W → Option Text × W) (write_string : Text → W → Option Text × W)
    (keys : Keys) (k1 k2 : Text) (w : W)
    → let (e, keys', w') = save_metadata_to_file open_file write_string keys k1 k2 w in
      ((e ≡ none)
        × (keys' ≡ record { soleil_key = k1; lune_key = k2 })
        × (is_empty k1 ≡ false)
        × (is_empty k2 ≡ false))
      ⊎ ((x : Text) × (e ≡ some x) × (keys' ≡ keys))
unfolding save_metadata_to_file save_first save_second
save_all_or_nothing open_file write_string keys k1 k2 w = ground arith
