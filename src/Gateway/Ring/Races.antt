-- ===== src/Gateway/Ring/Races.antt =====
-- `next` of gateway/ring.go run by many goroutines at once. Its loads and stores are atomic one by one
-- and not together. A goroutine in `next` keeps no value of its own between them, so a state counts
-- the goroutines at each place.
use aliyun_ahas.Common.{ℕ, suc, ◌+◌, ◌%◌, ◌^◌, ◌≤◌, ◌<◌, ◌≡◌, List, ok, arith}
use aliyun_ahas.Gateway.Ring.{max_index, value_at}

-- Goroutines that have added, that have seen an index above the bound, and that are to read a value.
pub record Callers : Type 0 where
  pub index : ℕ
  pub added : ℕ
  pub over : ℕ
  pub ready : ℕ

-- The atomic accesses, in the order of the code: add, load and compare, store 0, load and read.
pub data Access {A : Type 0} (values : List A) : Callers → Callers → Type 0 where
  enter :
      (s : Callers)
      → Access values s (record s { index = (s.index + 1) % 2 ^ 32; added = suc s.added })
  pass :
      (s : Callers) (n : ℕ)
      → s.added ≡ suc n
      → s.index ≤ max_index
      → Access values s (record s { added = n; ready = suc s.ready })
  exceed :
      (s : Callers) (n : ℕ)
      → s.added ≡ suc n
      → max_index < s.index
      → Access values s (record s { added = n; over = suc s.over })
  reset :
      (s : Callers) (n : ℕ)
      → s.over ≡ suc n
      → Access values s (record s { index = 0; over = n; ready = suc s.ready })
  take_value :
      (s : Callers) (n : ℕ) (v : A)
      → s.ready ≡ suc n
      → value_at values s.index ≡ ok v
      → Access values s (record s { ready = n })

abbrev pub calm : Callers
calm = record { index = 0; added = 0; over = 0; ready = 0 }

pub data Reach {A : Type 0} (values : List A) : Callers → Type 0 where
  here : Reach values calm
  then : {s t : Callers} → Reach values s → Access values s t → Reach values t

abbrev IsBounded : Callers → Type 0
IsBounded s = s.index ≤ max_index + s.added + s.over

module _ {A : Type 0} {values : List A} where
  Access-IsBounded : {s t : Callers} → Access values s t → IsBounded s → IsBounded t
  Access-IsBounded (enter s) h = omega arith
  Access-IsBounded (pass s n e low) h = omega arith
  Access-IsBounded (exceed s n e high) h = omega arith
  Access-IsBounded (reset s n e) h = omega arith
  Access-IsBounded (take_value s n v e r) h = omega arith

  -- However the accesses of concurrent calls interleave, the index passes its bound by no more than
  -- the number of goroutines between their addition and the end of their reset.
  pub index_bounded : (s : Callers) → Reach values s → s.index ≤ max_index + s.added + s.over
  index_bounded s here = omega arith
  index_bounded s (then {s = t} r a) = Access-IsBounded a (index_bounded t r)
