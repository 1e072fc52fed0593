-- ===== src/Startup/Ready.antt =====
-- The process after a start that gives no error (init.go).
use aliyun_ahas.Common.{
  Text, lit, text_eq, decimal, List, [], ◌∷◌, ◌++◌, ap, ◌∙◌, true, false, Option, none, some,
  Result, ok, err, panic, diverge, ◌≡◌, refl, sym, arith,
}
use mathlib.Core.Option.{some-injective}
use aliyun_ahas.Common.Actions.{Leads, Leads-then}
use aliyun_ahas.Gateway.Client.{AgwClient}
use aliyun_ahas.Transport.Request.{Request}
use aliyun_ahas.Transport.Response.{Response}
use aliyun_ahas.Transport.Handler.{AgwRequestHandler, new_common_handler}
use aliyun_ahas.Transport.Start.{Transport, register_handler}
use aliyun_ahas.Transport.Start.Registered.{
  Holds, register_all, register_handler-leaves, register_all-client, first_handler_stays,
}
use aliyun_ahas.Heartbeat.{get_ping_handler, new_heartbeat}
use aliyun_ahas.Startup.{
  Process, Outside, State, register_transport_handlers, finish, finish_start, init_steps, recover,
  init_ahas_from_file,
}
use aliyun_ahas.Startup.Facts.{IsFresh, IsServed, IsDialling, IsNamed}
use aliyun_ahas.Startup.Stages.{
  On, outer-IsFresh, load_config-IsBounded, load_metadata-IsSettled, start_channel-IsOpen,
  set_constant-keeps, check_acm-IsServed,
}
use aliyun_ahas.Startup.Joined.{IsReached, make_transport-IsJoined, connect_transport-IsReached}

module _ {W : Type 0} (outside : Outside W) where
  abbrev pub ready_handler : (Request → Result Response) → AgwRequestHandler
  ready_handler h = new_common_handler outside.codec outside.keys outside.now h

  -- The transport of a process, by which the gateway reaches the three handlers.
  pub record IsAnswering (p : Process) : Type 0 where
    pub transport : Transport
    pub has_transport : p.transport ≡ some transport
    pub shared : p.handlers ≡ transport.registered
    pub dials :
        transport.client.config.gateway_ip
          ++ (lit ":" ++ decimal transport.client.config.gateway_port)
        ≡ p.metadata.ahas_endpoint
    pub by_tls : transport.client.config.tls_flag ≡ true
    pub nodes :
        Holds outside.json (lit "clusterNode") (ready_handler outside.resource_nodes) transport
    pub metrics : Holds outside.json (lit "metric") (ready_handler outside.metrics) transport
    pub ping :
        Holds outside.json
          (lit "ping")
          (get_ping_handler outside.codec outside.keys outside.now)
          transport

  -- A process that is ready: it has a place, a user and a tenant, its rules have an endpoint and timeouts that
  -- fit, its channel is open, it answers, and the tenant is waiting in the channel of tenants.
  pub record IsReady (before : List Text) (p : Process) : Type 0 where
    pub named : IsNamed before p
    pub served : IsServed p
    pub answering : IsAnswering p

  abbrev metric : Text × AgwRequestHandler
  metric = (lit "metric", ready_handler outside.metrics)

  abbrev ping : Text × AgwRequestHandler
  ping = (lit "ping", get_ping_handler outside.codec outside.keys outside.now)

  -- The three registrations, in order.
  abbrev registrations : List (Text × AgwRequestHandler)
  registrations = (lit "clusterNode", ready_handler outside.resource_nodes) ∷ metric ∷ ping ∷ []

  answering :
      (p p' : Process) (h : IsDialling p)
      → p'.metadata.ahas_endpoint ≡ p.metadata.ahas_endpoint
      → p'.transport ≡ some (register_all outside.json registrations h.transport)
      → p'.handlers ≡ (register_all outside.json registrations h.transport).registered
      → IsAnswering p'
  unfolding register_all text_eq
  answering p p' h same has_all all_shared =
      let json = outside.json in
      let t = h.transport in
      let t₁ = register_handler json (lit "clusterNode") (ready_handler outside.resource_nodes) t in
      let t₂ = register_handler json (lit "metric") (ready_handler outside.metrics) t₁ in
      let free : (name : Text)
          → text_eq (lit "clusterNode") name ≡ false
          → t₁.handlers name ≡ none =
        λ name differs.
          (register_handler-leaves json name (lit "clusterNode") _ t differs
            (h.no_handlers name)).0 in
      let client = register_all-client json registrations t in
      record {
        transport = register_all json registrations t;
        has_transport = has_all;
        shared = all_shared;
        dials =
            ap
              (λ (c : AgwClient). c.config.gateway_ip ++ (lit ":" ++ decimal c.config.gateway_port))
              client
            ∙ h.dials
            ∙ sym same;
        by_tls = ap (λ (c : AgwClient). c.config.tls_flag) client ∙ h.by_tls;
        nodes =
            first_handler_stays json (lit "clusterNode") _ (metric ∷ ping ∷ []) t refl
              (h.no_handlers (lit "clusterNode"));
        metrics =
            first_handler_stays json (lit "metric") _ (ping ∷ []) t₁ refl
              (free (lit "metric") refl);
        ping =
            first_handler_stays json (lit "ping") _ [] t₂ refl
              (register_handler-leaves json (lit "ping") (lit "metric") _ t₁ refl
                (free (lit "ping") refl)).0;
      }

  finish-IsReady :
      (before : List Text) (o : Option Transport) (p : Process) (w : W)
      → IsReached outside before p
      → p.transport ≡ o
      → (finish outside o (p, w)).0 ≡ ok tt
      → IsReady before (finish outside o (p, w)).1.0
  unfolding finish register_transport_handlers new_heartbeat register_all
  finish-IsReady before none p w h same e = absurd (ground arith)
  finish-IsReady before (some t) p w h same e =
      let q : t ≡ h.dialling.transport =
        some-injective t h.dialling.transport (sym same ∙ h.dialling.made_transport) in
      record {
        named = record {
          uid_known = h.named.uid_known;
          tid_known = h.named.tid_known;
          tid_sent = h.named.tid_sent;
        };
        served = record {
          bounded = record {
            timeout_some = h.served.bounded.timeout_some;
            timeout_fits = h.served.bounded.timeout_fits;
          };
          located = record { placed = h.served.located.placed };
          opened = record { open_channel = h.served.opened.open_channel };
          has_acm = record {
            host = h.served.has_acm.host;
            host_found = h.served.has_acm.host_found;
          };
        };
        answering =
            answering p _ h.dialling refl
              (ap (λ t'. some (register_all outside.json registrations t')) q)
              (ap (λ t'. (register_all outside.json registrations t').registered) q);
      }

  finish_start-IsReady :
      (before : List Text)
      → Leads
          (On outside before (IsReached outside before))
          (finish_start outside)
          (On outside before (IsReady before))
  unfolding finish_start
  finish_start-IsReady before = record {
    leads = λ s p e. finish-IsReady before s.0.transport s.0 s.1 p refl e;
  }

  init_steps-IsReady :
      (before : List Text) (filename : Text)
      → Leads
          (On outside before (IsFresh before))
          (init_steps outside filename)
          (On outside before (IsReady before))
  unfolding init_steps
  init_steps-IsReady before filename =
      Leads-then _ _ _ _ _ (outer-IsFresh outside before (outside.sentinel_init filename)) (
        Leads-then _ _ _ _ _ (outer-IsFresh outside before outside.logger_init) (
          Leads-then _ _ _ _ _ (load_config-IsBounded outside before filename) (
            Leads-then _ _ _ _ _ (load_metadata-IsSettled outside before) (
              Leads-then _ _ _ _ _ (start_channel-IsOpen outside before) (
                Leads-then _ _ _ _ _ (set_constant-keeps outside before) (
                  Leads-then _ _ _ _ _ (check_acm-IsServed outside before) (
                    Leads-then _ _ _ _ _ (make_transport-IsJoined outside before) (
                      Leads-then _ _ _ _ _ (connect_transport-IsReached outside before)
                        (finish_start-IsReady before)))))))))

  recover-IsReady :
      (before : List Text) (x : Result (Unit {0}) × State W)
      → (x.0 ≡ ok tt → IsReady before x.1.0)
      → (recover outside x).0 ≡ ok tt
      → IsReady before (recover outside x).1.0
  unfolding recover
  recover-IsReady before (ok _, s) h e = h refl
  recover-IsReady before (err x, s) h e = absurd (ground arith)
  recover-IsReady before (panic, s) h e = absurd (ground arith)
  recover-IsReady before (diverge, s) h e = absurd (ground arith)

  -- Where `InitAhasFromFile` gives no error, on a client that was not initialised, the process is ready: the
  -- data source's timeout is positive and fits its interval; the endpoint is that of the environment and the region,
  -- and the transport's client dials it by TLS; the channel for downloads is open; the region has an endpoint for
  -- the rules; the user and the tenant are known, and the tenant waits for the data source; and the gateway reaches
  -- the handlers of nodes, metrics and pings.
  pub init_ahas_from_file-IsReady :
      (filename : Text) (p : Process) (w : W)
      → p.client.once ≡ false
      → (init_ahas_from_file outside filename (p, w)).0 ≡ ok tt
      → IsReady p.metadata.tid_chan (init_ahas_from_file outside filename (p, w)).1.0
  unfolding init_ahas_from_file
  init_ahas_from_file-IsReady filename p w unused e =
      let fresh : IsFresh p.metadata.tid_chan p = record { not_yet = unused; sent_before = refl } in
      recover-IsReady p.metadata.tid_chan (init_steps outside filename (p, w))
        ((init_steps-IsReady p.metadata.tid_chan filename).leads (p, w) fresh) e
