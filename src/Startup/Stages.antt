-- ===== src/Startup/Stages.antt =====
-- What each stage of the start leaves (init.go).
use aliyun_ahas.Common.{Text, List, Option, none, some, ok, ◌≡◌, ◌∙◌, refl, sym, subst, arith}
use aliyun_ahas.Common.Actions.{Act, Leads}
use aliyun_ahas.Service
use aliyun_ahas.Service.{Context, live, Controller, is_stopped}
use aliyun_ahas.Config.{init_config_from_file}
use aliyun_ahas.Config.Loading.{init_config_bounds}
use aliyun_ahas.Meta.Initialised.{init_metadata_ready}
use aliyun_ahas.Aliyun.{get_acm_endpoint}
use aliyun_ahas.Startup.Facts.{IsFresh, IsBounded, IsOpen, HasAcm, IsSettled, IsServed}
use aliyun_ahas.Startup.{
  Process, Outside, State, outer, load_config, load_metadata, started, start_channel, set_constant,
  require_acm, check_acm,
}

module _ {W : Type 0} (outside : Outside W) (before : List Text) where
  abbrev pub On : (Process → Type 0) → State W → Type 0
  On P s = P s.0

  pub outer-IsFresh :
      (action : Act W (Unit {0}))
      → Leads (On (IsFresh before)) (outer outside action) (On (IsFresh before))
  unfolding outer
  outer-IsFresh action = record { leads = λ s p e. p }

  pub load_config-IsBounded :
      (filename : Text)
      → Leads
          (On (IsFresh before))
          (load_config outside filename)
          (λ s. IsFresh before s.0 × IsBounded s.0)
  unfolding load_config
  load_config-IsBounded filename = record {
    leads = λ s p e.
        let r = init_config_from_file outside.surroundings filename s.0.config in
        let bounds =
          init_config_bounds outside.surroundings filename s.0.config r.1 (λ i. (e i, r.1)) in
        (
          record { not_yet = p.not_yet; sent_before = p.sent_before },
          record { timeout_some = bounds.0; timeout_fits = bounds.1 },
        );
  }

  pub load_metadata-IsSettled :
      Leads
        (λ s. IsFresh before s.0 × IsBounded s.0)
        (load_metadata outside)
        (On (IsSettled before))
  unfolding load_metadata
  load_metadata-IsSettled = record {
    leads = λ s p e.
        let c = s.0.config in
        let ready =
          init_metadata_ready outside.machine c.license c.name_space c.env c.transport.secure
            s.0.metadata s.1 e in
        record {
          fresh = record { not_yet = p.0.not_yet; sent_before = ready.4 ∙ p.0.sent_before };
          bounded = record { timeout_some = p.1.timeout_some; timeout_fits = p.1.timeout_fits };
          located = record { placed = ready.0 };
        };
  }

  pub start_channel-IsOpen :
      Leads (On (IsSettled before)) (start_channel outside) (λ s. IsSettled before s.0 × IsOpen s.0)
  unfolding start_channel started Service.start is_stopped
  start_channel-IsOpen = record {
    leads = λ s p e.
        let c = s.0.channel in
        let place = p.located.placed in
        let fit = p.bounded.timeout_fits in
        let some_time = p.bounded.timeout_some in
        let unused = p.fresh.not_yet in let kept = p.fresh.sent_before in ground arith;
  }

  pub set_constant-keeps :
      Leads
        (λ s. IsSettled before s.0 × IsOpen s.0)
        (set_constant outside)
        (λ s. IsSettled before s.0 × IsOpen s.0)
  unfolding set_constant
  set_constant-keeps = record {
    leads = λ s p e. (
      record {
        fresh = record { not_yet = p.0.fresh.not_yet; sent_before = p.0.fresh.sent_before };
        bounded = record {
          timeout_some = p.0.bounded.timeout_some;
          timeout_fits = p.0.bounded.timeout_fits;
        };
        located = record { placed = p.0.located.placed };
      },
      record { open_channel = p.1.open_channel },
    );
  }

  found_acm :
      (host : Option Text) (s : State W)
      → get_acm_endpoint s.0.metadata.region_id ≡ host
      → (require_acm outside host s).0 ≡ ok tt
      → HasAcm s.0
  unfolding require_acm
  found_acm none s h e = absurd (ground arith)
  found_acm (some host) s h e = record { host = host; host_found = h }

  require_acm-same : (host : Option Text) (s : State W) → (require_acm outside host s).1 ≡ s
  unfolding require_acm
  require_acm-same none s = refl
  require_acm-same (some host) s = refl

  pub check_acm-IsServed :
      Leads
        (λ s. IsSettled before s.0 × IsOpen s.0)
        (check_acm outside)
        (λ s. IsFresh before s.0 × IsServed s.0)
  unfolding check_acm
  check_acm-IsServed = record {
    leads = λ s p e.
        let host = get_acm_endpoint s.0.metadata.region_id in
        let found = found_acm host s refl e in
        subst (λ (s' : State W). IsFresh before s'.0 × IsServed s'.0)
          (sym (require_acm-same host s))
          (
            p.0.fresh,
            record { bounded = p.0.bounded; located = p.0.located; opened = p.1; has_acm = found },
          );
  }
