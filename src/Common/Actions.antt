-- ===== src/Common/Actions.antt =====
-- Calls that change the outside world `W`: each gives a result and the world that it leaves. A chain
-- of calls stops at the first that is not `ok`, as `if err != nil { return err }` does.
use native.Mathlib.Omega.{arith}
use mathlib.Core.Path.{◌≡◌, refl}
use aliyun_ahas.Common.Texts.{Text}
use aliyun_ahas.Common.Results.{Result, ok, err, panic, diverge}

abbrev pub Act : Type 0 → Type 0 → Type 0
Act W A = W → Result A × W

abbrev pub proceed : {W A B : Type 0} → Result A × W → (A → Act W B) → Result B × W
proceed (ok a, w) next = next a w
proceed (err e, w) next = (err e, w)
proceed (panic, w) next = (panic, w)
proceed (diverge, w) next = (diverge, w)

infixl 5 ◌>>=◌ ◌>>◌
abbrev pub ◌>>=◌ : {W A B : Type 0} → Act W A → (A → Act W B) → Act W B
◌>>=◌ p f w = proceed (p w) f

abbrev pub ◌>>◌ : {W B : Type 0} → Act W (Unit {0}) → Act W B → Act W B
◌>>◌ p q w = proceed (p w) λ _. q

abbrev pub done : {W A : Type 0} → A → Act W A
done a w = (ok a, w)

abbrev pub fail : {W A : Type 0} → Text → Act W A
fail e w = (err e, w)

module _ {W : Type 0} where
  -- Where the action gives a value in a state with `P`, it leaves one with `Q`.
  pub record Leads (P : W → Type 0) (action : Act W (Unit {0})) (Q : W → Type 0) : Type 0 where
    pub leads : (w : W) → P w → (action w).0 ≡ ok tt → Q (action w).1

  proceed-leads :
      (R : W → Type 0) (g : Act W (Unit {0})) (x : Result (Unit {0}) × W)
      → (x.0 ≡ ok tt → (g x.1).0 ≡ ok tt → R (g x.1).1)
      → (proceed x (λ _. g)).0 ≡ ok tt
      → R (proceed x (λ _. g)).1
  proceed-leads R g (ok _, w) q h = q refl h
  proceed-leads R g (err x, w) q h = absurd (ground arith)
  proceed-leads R g (panic, w) q h = absurd (ground arith)
  proceed-leads R g (diverge, w) q h = absurd (ground arith)

  pub Leads-then :
      (P Q R : W → Type 0) (f g : Act W (Unit {0})) → Leads P f Q → Leads Q g R → Leads P (f >> g) R
  Leads-then P Q R f g first next = record {
    leads = λ w p e.
        proceed-leads R g (f w) (λ one two. next.leads (f w).1 (first.leads w p one) two) e;
  }
