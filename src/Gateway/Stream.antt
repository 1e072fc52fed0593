-- ===== src/Gateway/Stream.antt =====
-- The connection's buffered reader, which gateway/protocol.go reads in loops: bufio.Reader over a
-- net.Conn. It is a parameter, since the bytes and the way they are cut come from outside.
use aliyun_ahas.Common.{
  ℕ, ◌≤◌, ◌<◌, ◌≡◌, [], ◌∷◌, ◌++◌, Option, none, some, Text, length, Result, ok, err, lit, ◌==◌,
  if◌then◌else◌,
}

-- `read s n` is `br.Read(p)` with `len(p) == n`: the bytes put into `p` and the error. `read_byte s` is
-- `br.ReadByte()`.
pub record Reader : Type 1 where
  pub State : Type 0
  pub read : State → ℕ → (Text × Option Text) × State
  pub read_byte : State → (ℕ × Option Text) × State

-- The reader's contract over a stream: `pending s` are the bytes that the peer sends before the
-- stream ends. A read returns a piece of them, at least one byte and at most as many as asked for;
-- at the end of the stream a read fails.
pub record IsStream (rd : Reader) : Type 0 where
  pub pending : rd.State → Text
  pub read_some :
      (s : rd.State) (n : ℕ)
      → 0 < n
      → 0 < length (pending s)
      → (c : Text) × (t : rd.State) × (rd.read s n ≡ ((c, none), t))
        × (0 < length c)
        × (length c ≤ n)
        × (pending s ≡ c ++ pending t)
  pub read_end :
      (s : rd.State) (n : ℕ)
      → 0 < n
      → pending s ≡ []
      → (e : Text) × (t : rd.State) × (rd.read s n ≡ (([], some e), t))
  pub read_byte_some :
      (s : rd.State) (b : ℕ) (bs : Text)
      → pending s ≡ b ∷ bs
      → (t : rd.State) × (rd.read_byte s ≡ ((b, none), t)) × (pending t ≡ bs)
  pub read_byte_end :
      (s : rd.State)
      → pending s ≡ []
      → (e : Text) × (b : ℕ) × (t : rd.State) × (rd.read_byte s ≡ ((b, some e), t))

-- `handleReadResult`
unfoldable pub handle_read_result : ℕ → Option Text → Result (Unit {0})
handle_read_result n (some e) = err e
handle_read_result n none = if n == 0 then err (lit "read bytes less than 0") else ok tt
