-- ===== src/Gateway/Decoder/Ends.antt =====
-- The reading loops of gateway/protocol.go end on every reader, with a value or an error.
use aliyun_ahas.Common.{
  ℕ, zero, suc, ◌-◌, ◌≤◌, ◌<◌, [], ◌∷◌, ◌++◌, Text, length, Option, none, some, Result, ok, err,
  panic, diverge, arith,
}
use aliyun_ahas.Gateway.Stream.{Reader, handle_read_result}
use aliyun_ahas.Gateway.Decoder.{
  Decoder, ◌>>=◌, pure, after_read, after_byte, handle_read_result_pos, read_loop, read_bytes,
  read_uint8, read_uint32, read_uint64, read_text,
}

-- The call has returned: with a value, or with an error.
abbrev pub Returned : {A : Type 0} → Result A → Type 0
Returned (ok a) = Unit
Returned (err e) = Unit
Returned panic = ⊥
Returned diverge = ⊥

unfoldable pub Ends : {S A : Type 0} → Decoder S A → Type 0
Ends {S} p = (s : S) → Returned (p s)

pub Ends-bind :
    {S A B : Type 0} (p : Decoder S A) (f : A → Decoder S B)
    → Ends p
    → ((a : A) → Ends (f a))
    → Ends (p >>= f)
unfolding Ends ◌>>=◌
Ends-bind {S} {A} {B} p f hp hf s = go (p s) (hp s)
  where
    go :
        (r : Result (A × S))
        → Returned r
        → Returned
            (elim r [ ok (a, t) ↦ f a t | err e ↦ err e | panic ↦ panic | diverge ↦ diverge ])
    go (ok (a, t)) h = hf a t
    go (err e) h = tt
    go panic h = h
    go diverge h = h

pub Ends-pure : (S : Type 0) {A : Type 0} (a : A) → Ends (pure {S = S} a)
unfolding Ends
Ends-pure S a s = tt

module _ (rd : Reader) where
  after_read-Returned :
      (r : (Text × Option Text) × rd.State) (rest : Text → Decoder rd.State Text)
      → ((c : Text) → 0 < length c → Ends (rest c))
      → Returned (after_read rd r rest)
  unfolding after_read Ends
  after_read-Returned ((c, some e), t) rest h = unfold handle_read_result in tt
  after_read-Returned (([], none), t) rest h = unfold handle_read_result in tt
  after_read-Returned ((b ∷ c, none), t) rest h =
      rw (handle_read_result_pos (length (b ∷ c)) (omega arith), after_read, Returned)
        (h (b ∷ c) (omega arith) t)

  read_loop-Ends : (fuel need : ℕ) (got : Text) → need ≤ fuel → Ends (read_loop rd fuel need got)
  unfolding read_loop Ends
  read_loop-Ends fuel zero got h s = tt
  read_loop-Ends zero (suc need) got h s = absurd (omega arith)
  read_loop-Ends (suc fuel) (suc need) got h s =
      after_read-Returned (rd.read s (suc need)) _
        (λ c some_read. read_loop-Ends fuel (suc need - length c) (got ++ c) (omega arith))

  pub read_bytes-Ends : (n : ℕ) → Ends (read_bytes rd n)
  unfolding read_bytes
  read_bytes-Ends n = read_loop-Ends n n [] (omega arith)

  pub read_uint8-Ends : Ends (read_uint8 rd)
  unfolding read_uint8 Ends
  read_uint8-Ends s = go (rd.read_byte s)
    where
      go : (r : (ℕ × Option Text) × rd.State) → Returned (after_byte rd r)
      go ((b, none), t) = tt
      go ((b, some e), t) = tt

  pub read_uint32-Ends : Ends (read_uint32 rd)
  unfolding read_uint32
  read_uint32-Ends = Ends-bind _ _ (read_bytes-Ends 4) (λ bs. Ends-pure _ _)

  pub read_uint64-Ends : Ends (read_uint64 rd)
  unfolding read_uint64
  read_uint64-Ends = Ends-bind _ _ (read_bytes-Ends 8) (λ bs. Ends-pure _ _)

  pub read_text-Ends : Ends (read_text rd)
  unfolding read_text
  read_text-Ends =
      Ends-bind _ _ read_uint32-Ends (λ n. Ends-bind _ _ (read_bytes-Ends n) (λ bs. Ends-pure _ _))

pub ruleset reads_end = (
  Ends-bind, Ends-pure, read_bytes-Ends, read_uint8-Ends, read_uint32-Ends, read_uint64-Ends,
  read_text-Ends,
)
