-- ===== src/Startup/Joined.antt =====
-- What the transport's stages of the start leave (init.go).
use aliyun_ahas.Common.{
  Text, List, [], ◌∷◌, ◌++◌, Option, some, Result, ok, err, panic, diverge, ◌≡◌, ◌∙◌, refl, sym, ap,
  subst, arith,
}
use aliyun_ahas.Common.Actions.{Leads}
use aliyun_ahas.Meta.{Meta, endpoint_for}
use aliyun_ahas.Aliyun.{get_acm_endpoint}
use aliyun_ahas.Gateway.Client.{AgwClient}
use aliyun_ahas.Transport.Connect.Identity.{IsIdentified}
use aliyun_ahas.Transport.Start.{Transport, new_transport}
use aliyun_ahas.Transport.Start.Made.{new_transport_dials_endpoint, new_transport_no_handlers}
use aliyun_ahas.Transport.Start.Connected.{start_transport-IsIdentified}
use aliyun_ahas.Startup.Facts.{IsFresh, IsDialling, IsNamed, IsServed}
use aliyun_ahas.Startup.{Process, Outside, cert, transport_made, make_transport, connect_transport}
use aliyun_ahas.Startup.Stages.{On}

module _ {W : Type 0} (outside : Outside W) (before : List Text) where
  transport_made-ok :
      (r : Result Transport × AgwClient × W) (p : Process)
      → (transport_made outside r p).0 ≡ ok tt
      → (t : Transport) × (r.0 ≡ ok t)
        × ((transport_made outside r p).1.0 ≡ record p { client = r.1; transport = some t })
  unfolding transport_made
  transport_made-ok (ok t, c, w) p e = (t, refl, refl)
  transport_made-ok (err x, c, w) p e = absurd (ground arith)
  transport_made-ok (panic, c, w) p e = absurd (ground arith)
  transport_made-ok (diverge, c, w) p e = absurd (ground arith)

  -- A process with a transport that has not connected.
  pub record IsJoined (p : Process) : Type 0 where
    pub sent_nothing : p.metadata.tid_chan ≡ before
    pub served : IsServed p
    pub dialling : IsDialling p

  IsServed-with :
      (p : Process) (c : AgwClient) (t : Option Transport)
      → IsServed p
      → IsServed (record p { client = c; transport = t })
  IsServed-with p c t h = record {
    bounded = record {
      timeout_some = h.bounded.timeout_some;
      timeout_fits = h.bounded.timeout_fits;
    };
    located = record { placed = h.located.placed };
    opened = record { open_channel = h.opened.open_channel };
    has_acm = record { host = h.has_acm.host; host_found = h.has_acm.host_found };
  }

  pub make_transport-IsJoined :
      Leads
        (λ s. IsFresh before s.0 × IsServed s.0)
        (make_transport outside)
        (On outside before IsJoined)
  unfolding make_transport
  make_transport-IsJoined = record {
    leads = λ s p e.
        let q = s.0 in
        let made =
          new_transport (cert outside q) outside.atoi_error (some q.config.transport)
            (some q.metadata) q.handlers q.client s.1 in
        let (t, made_it, same) = transport_made-ok made q e in
        let dialled =
          new_transport_dials_endpoint (cert outside q) outside.atoi_error q.config.transport.secure
            q.config.env q.metadata.region_id q.config.transport q.metadata q.handlers q.client s.1
            t p.1.located.placed p.0.not_yet made_it in
        subst IsJoined (sym same) (record {
          sent_nothing = p.0.sent_before;
          served = IsServed-with q made.1 (some t) p.1;
          dialling = record {
            transport = t;
            made_transport = refl;
            dials = dialled.0;
            by_tls = dialled.1;
            no_handlers = λ name.
                new_transport_no_handlers (cert outside q) outside.atoi_error q.config.transport
                  q.metadata q.handlers q.client s.1 t name made_it;
          };
        });
  }

  -- A process that has connected.
  pub record IsReached (p : Process) : Type 0 where
    pub named : IsNamed before p
    pub served : IsServed p
    pub dialling : IsDialling p

  IsReached-with :
      (p : Process) (m : Meta)
      → IsJoined p
      → IsIdentified p.metadata m
      → IsReached (record p { metadata = m })
  IsReached-with p m h known = record {
    named = record {
      uid_known = known.uid_known;
      tid_known = known.tid_known;
      tid_sent = known.sent ∙ ap (λ sent. sent ++ (m.tid ∷ [])) h.sent_nothing;
    };
    served = record {
      bounded = record {
        timeout_some = h.served.bounded.timeout_some;
        timeout_fits = h.served.bounded.timeout_fits;
      };
      located = record {
        placed =
            ap (endpoint_for p.config.transport.secure p.config.env) known.same_region
            ∙ h.served.located.placed
            ∙ ap some (sym known.same_endpoint);
      };
      opened = record { open_channel = h.served.opened.open_channel };
      has_acm = record {
        host = h.served.has_acm.host;
        host_found = ap get_acm_endpoint known.same_region ∙ h.served.has_acm.host_found;
      };
    };
    dialling = record {
      transport = h.dialling.transport;
      made_transport = h.dialling.made_transport;
      dials = h.dialling.dials ∙ sym known.same_endpoint;
      by_tls = h.dialling.by_tls;
      no_handlers = h.dialling.no_handlers;
    };
  }

  pub connect_transport-IsReached :
      Leads (On outside before IsJoined) (connect_transport outside) (On outside before IsReached)
  unfolding connect_transport
  connect_transport-IsReached = record {
    leads = λ s p e.
        let (id, w₁) = outside.new_id s.1 in
        let known =
          start_transport-IsIdentified outside.json outside.call outside.save outside.app id
            s.0.metadata w₁ e in
        IsReached-with s.0 _ p known;
  }
