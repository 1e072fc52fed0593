-- ===== src/Gateway/Decoder/Starves.antt =====
-- A field that the stream cuts short is an error, never a value (gateway/protocol.go).
use aliyun_ahas.Common.{
  ℕ, zero, suc, ◌+◌, ◌-◌, ◌≤◌, ◌<◌, ◌≡◌, ◌∙◌, sym, ap, refl, [], ◌∷◌, ◌++◌, Text, length,
  length-append, length-eq_zero, append-split, append_assoc, ◌^◌, some, err, arith,
}
use native.Mathlib.Decide.{dec_le, dec_lt}
use aliyun_ahas.Gateway.Stream.{Reader, IsStream, handle_read_result}
use aliyun_ahas.Gateway.Wire.{put_uint32, put_uint64, length-put_uint}
use aliyun_ahas.Gateway.Decoder.{
  Decoder, ◌>>=◌, pure, Takes, read_loop_step, read_loop, read_bytes, read_uint8, read_uint32,
  read_uint64, read_text, read_uint32-Takes,
}

module _ {rd : Reader} (st : IsStream rd) where
  open st use {pending, read_some, read_end, read_byte_end}

  -- On a stream that ends inside the bytes `bs`, `p` gives an error.
  unfoldable pub Starves : {A : Type 0} → Decoder rd.State A → Text → Type 0
  Starves p bs =
      (s : rd.State) (missing : Text)
      → 0 < length missing
      → bs ≡ pending s ++ missing
      → (e : Text) × (p s ≡ err e)

  pub Starves-bind :
      {A B : Type 0} (p : Decoder rd.State A) (f : A → Decoder rd.State B) (bs cs : Text) (a : A)
      → Takes st p bs a
      → Starves p bs
      → Starves (f a) cs
      → Starves (p >>= f) (bs ++ cs)
  unfolding Starves Takes ◌>>=◌
  Starves-bind p f bs cs a takes starves next s missing any e =
      elim (dec_le (length bs) (length (pending s))) [
        | yes enough ↦
            let (ds, front, tail) = append-split (pending s) missing bs cs (sym e) enough in
            let (t, r, left) = takes s ds front in
            let (x, fails) = next t missing any (tail ∙ ap (λ z. z ++ missing) (sym left)) in
            (x, rw (r, ◌>>=◌) fails)
        | no short ↦
            let (ds, front, tail) = append-split bs cs (pending s) missing e (omega arith) in
            let sizes : length bs ≡ length (pending s) + length ds =
              ap length front ∙ length-append (pending s) ds in
            let (x, fails) = starves s ds (omega arith) front in (x, rw (fails, ◌>>=◌))
      ]

  pub Starves-map :
      {A B : Type 0} (p : Decoder rd.State A) (g : A → B) (bs : Text)
      → Starves p bs
      → Starves (p >>= λ x. pure (g x)) bs
  unfolding Starves ◌>>=◌
  Starves-map p g bs h s missing any e =
      let (x, fails) = h s missing any e in (x, rw (fails, ◌>>=◌))

  read_loop_end :
      (fuel need : ℕ) (got e : Text) (s t : rd.State)
      → rd.read s (suc need) ≡ (([], some e), t)
      → read_loop rd (suc fuel) (suc need) got s ≡ err e
  unfolding read_loop handle_read_result
  read_loop_end fuel need got e s t r = rw r

  -- The bytes that are missing are part of the bytes asked for.
  missing_fits :
      (bs : Text) (s : rd.State) (missing : Text)
      → bs ≡ pending s ++ missing
      → length bs ≡ length (pending s) + length missing
  missing_fits bs s missing e = ap length e ∙ length-append (pending s) missing

  read_loop-Starves :
      (fuel need : ℕ) (got bs : Text)
      → length bs ≡ need
      → need ≤ fuel
      → Starves (read_loop rd fuel need got) bs
  unfolding Starves
  read_loop-Starves fuel zero got bs n h s missing some_missing e =
      absurd (omega (arith, missing_fits bs s missing e))
  read_loop-Starves zero (suc need) got bs n h s missing some_missing e = absurd (omega arith)
  read_loop-Starves (suc fuel) (suc need) got bs n h s missing some_missing e =
      elim (dec_lt 0 (length (pending s))) [
        | yes more ↦
            let (c, t, r, some_read, c_fits, cut) = read_some s (suc need) (omega arith) more in
            let left : bs ≡ c ++ (pending t ++ missing) =
              e ∙ ap (λ z. z ++ missing) cut ∙ append_assoc c (pending t) missing in
            let sizes : length bs ≡ length c + length (pending t ++ missing) =
              ap length left ∙ length-append c (pending t ++ missing) in
            let (x, fails) =
              read_loop-Starves fuel (suc need - length c) (got ++ c) (pending t ++ missing)
                (omega arith) (omega arith) t missing some_missing refl in
            (x, read_loop_step st fuel need got c s t r some_read ∙ fails)
        | no none_left ↦
            let (x, t, r) =
              read_end s (suc need) (omega arith) (length-eq_zero (pending s) (omega arith)) in
            (x, read_loop_end fuel need got x s t r)
      ]

  pub read_bytes-Starves : (bs : Text) (n : ℕ) → length bs ≡ n → Starves (read_bytes rd n) bs
  unfolding read_bytes
  read_bytes-Starves bs n e = read_loop-Starves n n [] bs e (omega arith)

  pub read_uint32-Starves : (v : ℕ) → Starves (read_uint32 rd) (put_uint32 v)
  unfolding read_uint32
  read_uint32-Starves v = Starves-map _ _ _ (read_bytes-Starves _ 4 (length-put_uint 4 v))

  pub read_uint64-Starves : (v : ℕ) → Starves (read_uint64 rd) (put_uint64 v)
  unfolding read_uint64
  read_uint64-Starves v = Starves-map _ _ _ (read_bytes-Starves _ 8 (length-put_uint 8 v))

  pub read_uint8-Starves : (b : ℕ) → Starves (read_uint8 rd) (b ∷ [])
  unfolding read_uint8 Starves
  read_uint8-Starves b s missing some_missing e =
      let sizes = missing_fits (b ∷ []) s missing e in
      let (x, c, t, r) = read_byte_end s (length-eq_zero (pending s) (omega arith)) in (x, rw r)

  pub read_text-Starves :
      (bs : Text) → length bs < 2 ^ 32 → Starves (read_text rd) (put_uint32 (length bs) ++ bs)
  unfolding read_text
  read_text-Starves bs h =
      Starves-bind _ _ _ _ _ (read_uint32-Takes st _ h) (read_uint32-Starves _)
        (Starves-map _ _ _ (read_bytes-Starves bs _ refl))
