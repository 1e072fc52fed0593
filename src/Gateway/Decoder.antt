-- ===== src/Gateway/Decoder.antt =====
-- gateway/protocol.go: the loops by which `Decode` reads a field, and what it means that a decoder
-- takes given bytes off a stream, with the rules by which such facts are put together.
pub mod Ends
pub mod Starves
use aliyun_ahas.Common.{
  ℕ, zero, suc, ◌+◌, ◌-◌, ◌≤◌, ◌<◌, ◌^◌, ◌≡◌, refl, sym, ap, subst, [], ◌∷◌, ◌++◌, Text, length,
  length-append, append_assoc, append-nil, append-split, ◌∙◌, Option, none, some, Result, ok, err,
  panic, diverge, arith,
}
use aliyun_ahas.Gateway.Stream.{Reader, IsStream, handle_read_result}
use aliyun_ahas.Gateway.Wire.{
  uint, put_uint32, put_uint64, length-put_uint, uint-put_uint32, uint-put_uint64,
}

-- A step of a decoder: it takes the reader on and gives a value, or fails.
abbrev pub Decoder : Type 0 → Type 0 → Type 0
Decoder S A = S → Result (A × S)

infixl 5 ◌>>=◌
unfoldable pub ◌>>=◌ : {S A B : Type 0} → Decoder S A → (A → Decoder S B) → Decoder S B
◌>>=◌ p f s = elim (p s) [ ok (a, t) ↦ f a t | err e ↦ err e | panic ↦ panic | diverge ↦ diverge ]

handle_read_result_pos : (n : ℕ) → 0 < n → handle_read_result n none ≡ ok tt
unfolding handle_read_result
handle_read_result_pos n h = ground arith

abbrev pub pure : {S A : Type 0} → A → Decoder S A
pure a s = ok (a, s)

module _ (rd : Reader) where
  -- What follows one call of `Read`: the checks of `handleReadResult`, then `rest`.
  after_read :
      (Text × Option Text) × rd.State → (Text → Decoder rd.State Text) → Result (Text × rd.State)
  after_read ((chunk, e), t) rest = elim (handle_read_result (length chunk) e) [
    | ok _ ↦ rest chunk t
    | err x ↦ err x
    | panic ↦ panic
    | diverge ↦ diverge
  ]

  -- `for m := 0; m < len(buf); { n, err := br.Read(buf[m:]); ...; m += n }`, with `need` bytes left to
  -- fill and `got` those before them. Each round fills one byte at least, so `need` rounds are enough.
  read_loop : ℕ → ℕ → Text → Decoder rd.State Text
  unfolding after_read
  read_loop fuel zero got s = ok (got, s)
  read_loop zero (suc need) got s = diverge
  read_loop (suc fuel) (suc need) got s =
      after_read (rd.read s (suc need))
        λ chunk. read_loop fuel (suc need - length chunk) (got ++ chunk)

  pub read_bytes : ℕ → Decoder rd.State Text
  unfolding read_loop
  read_bytes n = read_loop n n []

  pub read_uint32 : Decoder rd.State ℕ
  read_uint32 = do bs ← read_bytes 4; pure (uint bs)

  pub read_uint64 : Decoder rd.State ℕ
  read_uint64 = do bs ← read_bytes 8; pure (uint bs)

  after_byte : (ℕ × Option Text) × rd.State → Result (ℕ × rd.State)
  after_byte ((b, none), t) = ok (b, t)
  after_byte ((b, some e), t) = err e

  pub read_uint8 : Decoder rd.State ℕ
  unfolding after_byte
  read_uint8 s = after_byte (rd.read_byte s)

  -- A length and as many bytes, as each text of a message is sent.
  pub read_text : Decoder rd.State (ℕ × Text)
  read_text = do n ← read_uint32; text ← read_bytes n; pure (n, text)

module _ {rd : Reader} (st : IsStream rd) where
  open st use {pending, read_some, read_byte_some}

  -- `p` takes exactly the bytes `bs` off the stream and gives `a`, whatever follows them and however
  -- the reader cuts them.
  unfoldable pub Takes : {A : Type 0} → Decoder rd.State A → Text → A → Type 0
  Takes {A} p bs a =
      (s : rd.State) (rest : Text)
      → pending s ≡ bs ++ rest
      → (t : rd.State) × (p s ≡ ok (a, t)) × (pending t ≡ rest)

  pub Takes-bind :
      {A B : Type 0} (p : Decoder rd.State A) (f : A → Decoder rd.State B) (bs cs : Text) (a : A)
      (b : B)
      → Takes p bs a
      → Takes (f a) cs b
      → Takes (p >>= f) (bs ++ cs) b
  unfolding Takes ◌>>=◌
  Takes-bind p f bs cs a b hp hf s rest h =
      let (t, e, left) = hp s (cs ++ rest) (rw (← append_assoc bs cs rest) h) in
      let (u, e', left') = hf t rest left in (u, rw (e, ◌>>=◌) e', left')

  read_loop_step :
      (fuel need : ℕ) (got c : Text) (s t : rd.State)
      → rd.read s (suc need) ≡ ((c, none), t)
      → 0 < length c
      → read_loop rd (suc fuel) (suc need) got s
        ≡ read_loop rd fuel (suc need - length c) (got ++ c) t
  unfolding read_loop
  read_loop_step fuel need got c s t e h =
      rw e (rw (handle_read_result_pos (length c) h, after_read))

  read_loop-Takes :
      (fuel need : ℕ) (got bs : Text)
      → length bs ≡ need
      → need ≤ fuel
      → Takes (read_loop rd fuel need got) bs (got ++ bs)
  unfolding Takes
  read_loop-Takes fuel zero got [] n h s rest e = (s, unfold read_loop in rw append-nil, e)
  read_loop-Takes fuel zero got (b ∷ bs) n h s rest e = absurd (omega arith)
  read_loop-Takes zero (suc need) got bs n h s rest e = absurd (omega arith)
  read_loop-Takes (suc fuel) (suc need) got bs n h s rest e =
      let available : 0 < length (pending s) = rw e (rw length-append (omega arith)) in
      let (c, t, r, some_read, c_fits, cut) = read_some s (suc need) (omega arith) available in
      let (ds, front, back) = append-split bs rest c (pending t) (sym e ∙ cut) (omega arith) in
      let sizes : length bs ≡ length c + length ds = ap length front ∙ length-append c ds in
      let (u, e', left) =
        read_loop-Takes fuel (suc need - length c) (got ++ c) ds (omega arith) (omega arith) t rest
          back in
      let whole : (got ++ c) ++ ds ≡ got ++ bs =
        append_assoc got c ds ∙ ap (λ z. got ++ z) (sym front) in
      (u, read_loop_step fuel need got c s t r some_read ∙ e' ∙ ap (λ z. ok (z, u)) whole, left)

  -- The loop of `Decode` fills a buffer of `n` bytes with the next `n` bytes of the stream.
  pub read_bytes-Takes : (bs : Text) (n : ℕ) → length bs ≡ n → Takes (read_bytes rd n) bs bs
  unfolding read_bytes Takes ◌>>=◌
  read_bytes-Takes bs n e = read_loop-Takes n n [] bs e (omega arith)

  pub Takes-map :
      {A B : Type 0} (p : Decoder rd.State A) (g : A → B) (bs : Text) (a : A)
      → Takes p bs a
      → Takes (p >>= λ x. pure (g x)) bs (g a)
  unfolding Takes ◌>>=◌
  Takes-map p g bs a h s rest e = let (t, r, left) = h s rest e in (t, rw (r, ◌>>=◌), left)

  pub read_uint32-Takes : (v : ℕ) → v < 2 ^ 32 → Takes (read_uint32 rd) (put_uint32 v) v
  unfolding read_uint32
  read_uint32-Takes v h =
      subst (Takes (read_uint32 rd) (put_uint32 v)) (uint-put_uint32 v h)
        (Takes-map _ uint _ _ (read_bytes-Takes (put_uint32 v) 4 (length-put_uint 4 v)))

  pub read_uint64-Takes : (v : ℕ) → v < 2 ^ 64 → Takes (read_uint64 rd) (put_uint64 v) v
  unfolding read_uint64
  read_uint64-Takes v h =
      subst (Takes (read_uint64 rd) (put_uint64 v)) (uint-put_uint64 v h)
        (Takes-map _ uint _ _ (read_bytes-Takes (put_uint64 v) 8 (length-put_uint 8 v)))

  pub read_uint8-Takes : (b : ℕ) → Takes (read_uint8 rd) (b ∷ []) b
  unfolding read_uint8 Takes ◌>>=◌
  read_uint8-Takes b s rest e = let (t, r, left) = read_byte_some s b rest e in (t, rw r, left)

  pub read_text-Takes :
      (bs : Text)
      → length bs < 2 ^ 32
      → Takes (read_text rd) (put_uint32 (length bs) ++ bs) (length bs, bs)
  unfolding read_text
  read_text-Takes bs h =
      Takes-bind _ _ _ _ _ _ (read_uint32-Takes _ h)
        (Takes-map _ _ _ _ (read_bytes-Takes bs _ refl))
