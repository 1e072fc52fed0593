-- ===== src/Gateway/Pool/Slots.antt =====
-- The slots of the pool (gateway/conn.go).
use aliyun_ahas.Common.{ℕ, ◌≡◌, Bool, Option, some, Result, ok, ◌⊎◌}
use aliyun_ahas.Gateway.Pool.{AgwConn, ConnectionPool, Net, get, get_unlocked, get_at}
use aliyun_ahas.Gateway.Ring.{next}

-- A connection stands in the slot of its own number.
abbrev pub SlotsMatch : (ℕ → Option AgwConn) → Type 0
SlotsMatch slots = (id : ℕ) (c : AgwConn) → slots id ≡ some c → c.conn_id ≡ id

-- What a caller may rely on: slots that match, and where a connection is given, one that stands in its
-- slot.
abbrev Delivered : Result AgwConn → ConnectionPool → Type 0
Delivered r p = SlotsMatch p.slots × ((c : AgwConn) → r ≡ ok c → p.slots c.conn_id ≡ some c)

-- A slot that has a connection is not connected again: `get` gives that connection, and neither the
-- slots nor the outside world change, whatever the network would do.
pub get_reuses :
    {W : Type 0} (net : Net W) (tls : Bool) (p : ConnectionPool) (w : W) (id : ℕ) (c : AgwConn)
    → (next p.ring).0 ≡ ok id
    → p.slots id ≡ some c
    → get net tls p w ≡ (ok c, record p { ring = (next p.ring).1 }, w)
unfolding get
get_reuses net tls p w id c e here = rw (e, get_at) (rw (here, get_unlocked))

-- The connections of the one are in the same slots of the other.
abbrev pub KeepsAll : (ℕ → Option AgwConn) → (ℕ → Option AgwConn) → Type 0
KeepsAll slots slots' = (j : ℕ) (d : AgwConn) → slots j ≡ some d → slots' j ≡ some d

module _ {W : Type 0} (net : Net W) (tls : Bool) where
  -- The slots are left alone, or hold all that the other goroutines have put into them.
  abbrev pub Kept : ConnectionPool → W → ConnectionPool → Type 0
  Kept p w p' = (p'.slots ≡ p.slots) ⊎ KeepsAll (net.others w p.slots).0 p'.slots
