-- ===== src/Gateway/Singleton.antt =====
-- `GetAgwClientInstance` of gateway/gateway.go, called by many goroutines at once. Its accesses of `instance` and of
-- the lock are atomic one by one; a client is the number of those that were made before it.
pub mod Returns
mod Tests
use aliyun_ahas.Common.{
  ℕ, zero, suc, ◌+◌, ◌≤◌, Bool, true, false, Option, none, some, List, [], ◌∷◌, All, ◌≡◌, ◌≢◌, ◌⊎◌,
  inl, inr, refl, arith,
}

-- Where the goroutine that holds the lock is: before its look at `instance`, or behind it.
pub data Holder : Type 0 where
  nobody : Holder
  looking : Holder
  assigned : Holder

-- `waiting` goroutines have found nil without the lock, and `returned` are the clients that calls gave.
pub record Instances : Type 0 where
  pub instance_ptr : Option ℕ
  pub made : ℕ
  pub holder : Holder
  pub waiting : ℕ
  pub returned : List ℕ

-- One access. The look under the lock gives what is there, or nil.
pub data Step : Instances → Instances → Type 0 where
  found :
      (s : Instances) (i : ℕ)
      → s.instance_ptr ≡ some i
      → Step s (record s { returned = i ∷ s.returned })
  missed : (s : Instances) → s.instance_ptr ≡ none → Step s (record s { waiting = suc s.waiting })
  locked :
      (s : Instances) (n : ℕ)
      → s.holder ≡ nobody
      → s.waiting ≡ suc n
      → Step s (record s { holder = looking; waiting = n })
  found_locked :
      (s : Instances) (i : ℕ)
      → s.holder ≡ looking
      → s.instance_ptr ≡ some i
      → Step s (record s { holder = nobody; returned = i ∷ s.returned })
  created :
      (s : Instances)
      → s.holder ≡ looking
      → s.instance_ptr ≡ none
      → Step s (record s { instance_ptr = some s.made; made = suc s.made; holder = assigned })
  unlocked :
      (s : Instances) (i : ℕ)
      → s.holder ≡ assigned
      → s.instance_ptr ≡ some i
      → Step s (record s { holder = nobody; returned = i ∷ s.returned })

abbrev pub at_start : Instances
at_start = record { instance_ptr = none; made = 0; holder = nobody; waiting = 0; returned = [] }

pub data Reach : Instances → Type 0 where
  here : Reach at_start
  then : {s t : Instances} → Reach s → Step s t → Reach t

-- Either nothing is made and nothing returned, or the first client is.
abbrev pub IsSingle : Instances → Type 0
IsSingle s =
    ((s.instance_ptr ≡ none) × (s.made ≡ 0) × (s.returned ≡ []) × (s.holder ≢ assigned))
    ⊎ ((s.instance_ptr ≡ some 0) × (s.made ≡ 1) × All (λ i. i ≡ 0) s.returned)

pub Step-IsSingle : {s t : Instances} → Step s t → IsSingle s → IsSingle t
Step-IsSingle (found s i e) (inl (n, m, r, a)) = absurd (cc)
Step-IsSingle (found s i e) (inr (n, m, r)) = inr (n, m, (ground arith, r))
Step-IsSingle (missed s e) h = h
Step-IsSingle (locked s n e w) (inl (i, m, r, a)) = inl (i, m, r, λ x. cc)
Step-IsSingle (locked s n e w) (inr h) = inr h
Step-IsSingle (found_locked s i l e) (inl (n, m, r, a)) = absurd (cc)
Step-IsSingle (found_locked s i l e) (inr (n, m, r)) = inr (n, m, (ground arith, r))
Step-IsSingle (created s l e) (inl (n, m, r, a)) = inr (ground arith, ground arith, ground arith)
Step-IsSingle (created s l e) (inr (n, m, r)) = absurd (cc)
Step-IsSingle (unlocked s i l e) (inl (n, m, r, a)) = absurd (cc)
Step-IsSingle (unlocked s i l e) (inr (n, m, r)) = inr (n, m, (ground arith, r))

pub Reach-IsSingle : {s : Instances} → Reach s → IsSingle s
Reach-IsSingle here = inl (refl, refl, refl, λ x. cc)
Reach-IsSingle (then r st) = Step-IsSingle st (Reach-IsSingle r)

-- However the calls of `GetAgwClientInstance` interleave, at most one client is made, and every call gives that one.
pub one_instance : (s : Instances) → Reach s → (s.made ≤ 1) × All (λ i. i ≡ 0) s.returned
one_instance s r = elim (Reach-IsSingle r) [
  | inl (n, m, none_yet, a) ↦ (omega arith, rw none_yet tt)
  | inr (n, m, all) ↦ (omega arith, all)
]
