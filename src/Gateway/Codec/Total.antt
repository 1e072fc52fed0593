-- ===== src/Gateway/Codec/Total.antt =====
-- `Decode` returns on every reader (gateway/protocol.go).
use aliyun_ahas.Common.{◌≡◌, ◌⊎◌, inl, inr, refl, Text, Result, ok, err, panic, diverge}
use aliyun_ahas.Tools.Gzip.{Gzip}
use aliyun_ahas.Gateway.Message.{AgwMessage}
use aliyun_ahas.Gateway.Stream.{Reader}
use aliyun_ahas.Gateway.Decoder.Ends.{
  Ends, Ends-bind, Ends-pure, Returned, read_bytes-Ends, read_uint8-Ends, read_uint32-Ends,
  read_uint64-Ends, read_text-Ends,
}
use aliyun_ahas.Gateway.Codec.{decode_ids, decode_client, decode_call, decode_body, decode}

module _ (rd : Reader) where
  decode_ids-Ends : (m : AgwMessage) → Ends (decode_ids rd m)
  unfolding decode_ids
  decode_ids-Ends m = Ends-bind _ _ (read_uint32-Ends rd) λ _.
      Ends-bind _ _ (read_uint64-Ends rd) λ _. Ends-bind _ _ (read_uint8-Ends rd) λ _.
        Ends-bind _ _ (read_uint8-Ends rd) λ _.
          Ends-bind _ _ (read_uint8-Ends rd)
            λ _. Ends-bind _ _ (read_uint64-Ends rd) λ _. Ends-pure _ _

  decode_client-Ends : (m : AgwMessage) → Ends (decode_client rd m)
  unfolding decode_client
  decode_client-Ends m = Ends-bind _ _ (read_text-Ends rd) λ _.
      Ends-bind _ _ (read_text-Ends rd) λ _.
        Ends-bind _ _ (read_uint32-Ends rd)
          λ _. Ends-bind _ _ (read_text-Ends rd) λ _. Ends-pure _ _

  decode_call-Ends : (m : AgwMessage) → Ends (decode_call rd m)
  unfolding decode_call
  decode_call-Ends m = Ends-bind _ _ (read_uint32-Ends rd) λ _.
      Ends-bind _ _ (read_text-Ends rd) λ _. Ends-bind _ _ (read_uint32-Ends rd) λ _.
        Ends-bind _ _ (read_text-Ends rd) λ _.
          Ends-bind _ _ (read_text-Ends rd)
            λ _. Ends-bind _ _ (read_uint32-Ends rd) λ _. Ends-pure _ _

  decode-Ends : (gz : Gzip) (m : AgwMessage) → Ends (decode rd gz m)
  unfolding decode decode_body
  decode-Ends gz m₀ = Ends-bind _ _ (decode_ids-Ends m₀) λ _.
      Ends-bind _ _ (decode_client-Ends _) λ _.
        Ends-bind _ _ (decode_call-Ends _)
          λ _. Ends-bind _ _ (read_bytes-Ends rd _) λ _. Ends-pure _ _

Returned-cases :
    {A : Type 0} (r : Result A) → Returned r → ((a : A) × (r ≡ ok a)) ⊎ ((e : Text) × (r ≡ err e))
Returned-cases (ok a) h = inl (a, refl)
Returned-cases (err e) h = inr (e, refl)
Returned-cases panic h = absurd h
Returned-cases diverge h = absurd h

-- On every reader, a broken one included, `Decode` returns: with a message, or with an error. Its
-- loops do not spin on a reader that gives nothing, and `need` rounds are always enough.
pub decode_returns :
    (rd : Reader) (gz : Gzip) (m : AgwMessage) (s : rd.State)
    → ((r : AgwMessage × rd.State) × (decode rd gz m s ≡ ok r))
      ⊎ ((e : Text) × (decode rd gz m s ≡ err e))
unfolding Ends
decode_returns rd gz m s = Returned-cases (decode rd gz m s) (decode-Ends rd gz m s)
