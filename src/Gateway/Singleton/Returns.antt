-- ===== src/Gateway/Singleton/Returns.antt =====
-- No call of `GetAgwClientInstance` is stuck (gateway/gateway.go).
use aliyun_ahas.Common.{
  ℕ, zero, suc, ◌+◌, some, ◌∷◌, length, All, ◌≡◌, inl, inr, refl, sym, ap, ◌∙◌, arith,
}
use aliyun_ahas.Gateway.Singleton.{
  Holder, nobody, looking, assigned, Instances, Step, locked, found_locked, created, unlocked,
  Reach, IsSingle, Step-IsSingle, Reach-IsSingle,
}

pub data Runs : Instances → Instances → Type 0 where
  stop : {s : Instances} → Runs s s
  go : {s t u : Instances} → Step s t → Runs t u → Runs s u

abbrev pub held : Holder → ℕ
held nobody = 0
held looking = 1
held assigned = 1

-- The calls that have found nil and have not returned.
abbrev pub pending : Instances → ℕ
pending s = s.waiting + held s.holder

-- A run after which nobody holds the lock, and the call that held it has returned.
record Freed (s : Instances) : Type 0 where
  after : Instances
  run : Runs s after
  free : after.holder ≡ nobody
  same_waiting : after.waiting ≡ s.waiting
  one_more : length after.returned ≡ length s.returned + held s.holder
  single : IsSingle after

free_assigned : (s : Instances) → s.holder ≡ assigned → IsSingle s → Freed s
free_assigned s h (inl (n, m, r, a)) = absurd (a h)
free_assigned s h (inr (n, m, r)) =
    let st = unlocked s 0 h n in
    record {
      after = record s { holder = nobody; returned = 0 ∷ s.returned };
      run = go st stop;
      free = refl;
      same_waiting = refl;
      one_more = rw h (omega arith);
      single = Step-IsSingle st (inr (n, m, r));
    }

free_looking : (s : Instances) → s.holder ≡ looking → IsSingle s → Freed s
free_looking s h (inl (n, m, r, a)) =
    let st = created s h n in
    let t : Instances = record s {
      instance_ptr = some s.made;
      made = suc s.made;
      holder = assigned;
    } in
    let f = free_assigned t refl (Step-IsSingle st (inl (n, m, r, a))) in
    record {
      after = f.after;
      run = go st f.run;
      free = f.free;
      same_waiting = f.same_waiting;
      one_more = f.one_more ∙ ap (λ (x : Holder). length s.returned + held x) (sym h);
      single = f.single;
    }
free_looking s h (inr (n, m, r)) =
    let st = found_locked s 0 h n in
    record {
      after = record s { holder = nobody; returned = 0 ∷ s.returned };
      run = go st stop;
      free = refl;
      same_waiting = refl;
      one_more = rw h (omega arith);
      single = Step-IsSingle st (inr (n, m, r));
    }

free_holder : (s : Instances) (h : Holder) → s.holder ≡ h → IsSingle s → Freed s
free_holder s nobody e i = record {
  after = s;
  run = stop;
  free = e;
  same_waiting = refl;
  one_more = rw e (omega arith);
  single = i;
}
free_holder s looking e i = free_looking s e i
free_holder s assigned e i = free_assigned s e i

Runs-append : {s t u : Instances} → Runs s t → Runs t u → Runs s u
Runs-append stop r = r
Runs-append (go st q) r = go st (Runs-append q r)

record Drained (s : Instances) : Type 0 where
  after : Instances
  run : Runs s after
  free : after.holder ≡ nobody
  none_waiting : after.waiting ≡ 0
  all_more : length after.returned ≡ length s.returned + s.waiting
  single : IsSingle after

drain : (n : ℕ) (s : Instances) → s.waiting ≡ n → s.holder ≡ nobody → IsSingle s → Drained s
drain zero s w h i = record {
  after = s;
  run = stop;
  free = h;
  none_waiting = w;
  all_more = omega (arith, w);
  single = i;
}
drain (suc n) s w h i =
    let st = locked s n h w in
    let f = free_looking (record s { holder = looking; waiting = n }) refl (Step-IsSingle st i) in
    let r = drain n f.after f.same_waiting f.free f.single in
    record {
      after = r.after;
      run = go st (Runs-append f.run r.run);
      free = r.free;
      none_waiting = r.none_waiting;
      all_more = omega (arith, w, r.all_more, f.one_more, f.same_waiting);
      single = r.single;
    }

-- From every state that calls of `GetAgwClientInstance` lead to, in any interleaving, there is a run in which each
-- call that has found nil returns, once: the lock is free at its end and nobody waits for it, and what was returned
-- is the one client.
pub calls_return :
    (s : Instances)
    → Reach s
    → (t : Instances) × Runs s t
      × (t.waiting ≡ 0)
      × (t.holder ≡ nobody)
      × (length t.returned ≡ length s.returned + pending s)
      × All (λ i. i ≡ 0) t.returned
calls_return s r =
    let f = free_holder s s.holder refl (Reach-IsSingle r) in
    let d = drain f.after.waiting f.after refl f.free f.single in
    (
      d.after,
      Runs-append f.run d.run,
      d.none_waiting,
      d.free,
      omega (arith, d.all_more, f.one_more, f.same_waiting),
      IsSingle-returned d.after d.single,
    )
  where
    IsSingle-returned : (t : Instances) → IsSingle t → All (λ i. i ≡ 0) t.returned
    IsSingle-returned t (inl (n, m, e, a)) = rw e tt
    IsSingle-returned t (inr (n, m, all)) = all
