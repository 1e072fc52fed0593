-- ===== src/Gateway/Reader/Serving.antt =====
-- The reader over a whole stream (gateway/read.go).
use aliyun_ahas.Common.{
  suc, ◌^◌, ◌<◌, ◌≡◌, ◌∙◌, refl, ap, Text, List, [], ◌∷◌, ◌++◌, map, All, length, true,
}
use aliyun_ahas.Tools.Gzip.{Gzip, IsInverse}
use aliyun_ahas.Gateway.Message.{AgwMessage, new_agw_message}
use aliyun_ahas.Gateway.Stream.{Reader, IsStream}
use aliyun_ahas.Gateway.Codec.{encode, encode_body}
use aliyun_ahas.Gateway.Codec.RoundTrip.{IsSized, received, decode-encode}
use aliyun_ahas.Gateway.Codec.Truncated.{decode_at_end}
use aliyun_ahas.Gateway.Reader.{
  Handlers, Reaction, notify, reply, ignore, crash, stall, react, Ended, closed_on, carry_on, serve,
  run_reader,
}

-- The bytes of messages sent one after the other.
abbrev pub wires : Gzip → List AgwMessage → Text
wires gz [] = []
wires gz (m ∷ ms) = (encode gz m).0 ++ wires gz ms

-- A message that can be sent, and whose handler returns.
pub record IsSent (gz : Gzip) (handlers : Handlers) (m : AgwMessage) : Type 0 where
  pub sized : IsSized m
  pub fits : length (encode_body gz m).0 < 2 ^ 32
  pub encodes : (encode gz m).1 ≡ true
  pub returns : (react handlers (received m (encode_body gz m).0) ≡ crash → ⊥)
  pub goes_on : (react handlers (received m (encode_body gz m).0) ≡ stall → ⊥)

-- The reaction to a message as it arrives.
abbrev pub reaction : Gzip → Handlers → AgwMessage → Reaction
reaction gz handlers m = react handlers (received m (encode_body gz m).0)

carry_on_lem :
    (r : Reaction) (rest : List Reaction × Ended)
    → (r ≡ crash → ⊥)
    → (r ≡ stall → ⊥)
    → carry_on r rest ≡ (r ∷ rest.0, rest.1)
unfolding carry_on
carry_on_lem crash rest p q = absurd (p refl)
carry_on_lem stall rest p q = absurd (q refl)
carry_on_lem (notify m) rest p q = refl
carry_on_lem (reply m) rest p q = refl
carry_on_lem (ignore m) rest p q = refl

-- On a stream of messages whose numbers and lengths fit their fields, which encode, and to which the
-- reaction is neither a panic nor a handler that does not return, with a compression that is undone, cut by the reader in any way and then ended, the goroutine reacts to each
-- message once and in order, as to the message that was sent, and closes the connection behind the last.
pub reader_serves_each :
    (rd : Reader) (st : IsStream rd) (gz : Gzip)
    → IsInverse gz
    → (handlers : Handlers) (ms : List AgwMessage) → All (IsSent gz handlers) ms
    → (s : rd.State) → st.pending s ≡ wires gz ms
    → (e : Text) × (run_reader rd gz handlers (suc (length ms)) s
        ≡ (map (reaction gz handlers) ms, closed_on e))
unfolding run_reader serve
reader_serves_each rd st gz inverse handlers [] h s e =
    let (x, fails) = decode_at_end rd st gz new_agw_message s e in (x, rw fails)
reader_serves_each rd st gz inverse handlers (m ∷ ms) h s e =
    let (t, r, left) =
      decode-encode rd st gz inverse new_agw_message m h.0.sized h.0.fits h.0.encodes s
        (wires gz ms) e in
    let (x, rest) = reader_serves_each rd st gz inverse handlers ms h.1 t left in
    (
      x,
      rw r (
          carry_on_lem (reaction gz handlers m) _ h.0.returns h.0.goes_on
          ∙ ap (λ z. (reaction gz handlers m ∷ z.0, z.1)) rest),
    )
