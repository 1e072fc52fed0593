-- ===== src/Transport/Start/Registered.antt =====
-- Which handler answers after several registrations (transport/transport.go).
use aliyun_ahas.Common.{
  Text, is_empty, text_eq, text_eq_iff, text_eq_self, List, [], ◌∷◌, false, none, some, ◌≡◌, refl,
  ◌∙◌, arith,
}
use aliyun_ahas.Gateway.Reader.{add_handler}
use aliyun_ahas.Transport.Handler.{Json, AgwRequestHandler}
use aliyun_ahas.Transport.Start.{Transport, gateway_handler, register_handler}

-- Registrations in order.
unfoldable pub register_all : Json → List (Text × AgwRequestHandler) → Transport → Transport
register_all json [] t = t
register_all json ((name, h) ∷ more) t = register_all json more (register_handler json name h t)

-- The transport has `h` for a name, and the gateway's client has it, too.
pub record Holds (json : Json) (name : Text) (h : AgwRequestHandler) (t : Transport) : Type 0 where
  pub in_transport : t.handlers name ≡ some h
  pub in_client : t.registered name ≡ some (gateway_handler json h)

register_handler-Holds :
    (json : Json) (name : Text) (h : AgwRequestHandler) (t : Transport)
    → is_empty name ≡ false
    → t.handlers name ≡ none
    → Holds json name h (register_handler json name h t)
unfolding register_handler add_handler
register_handler-Holds json name h t named free = let itself = text_eq_self name in ground arith

register_handler-keeps :
    (json : Json) (name other : Text) (h k : AgwRequestHandler) (t : Transport)
    → Holds json name h t
    → Holds json name h (register_handler json other k t)
unfolding register_handler add_handler
register_handler-keeps json name other h k t holds =
    let same = text_eq_iff other name in
    let here = holds.in_transport in let there = holds.in_client in ground arith

register_all-keeps :
    (json : Json) (name : Text) (h : AgwRequestHandler) (more : List (Text × AgwRequestHandler))
    (t : Transport)
    → Holds json name h t
    → Holds json name h (register_all json more t)
unfolding register_all
register_all-keeps json name h [] t holds = holds
register_all-keeps json name h ((other, k) ∷ more) t holds =
    register_all-keeps json name h more (register_handler json other k t)
      (register_handler-keeps json name other h k t holds)

-- A registration under one name leaves the other names free, and the client as it is.
pub register_handler-leaves :
    (json : Json) (name other : Text) (k : AgwRequestHandler) (t : Transport)
    → text_eq other name ≡ false
    → t.handlers name ≡ none
    → ((register_handler json other k t).handlers name ≡ none)
      × ((register_handler json other k t).client ≡ t.client)
unfolding register_handler add_handler
register_handler-leaves json name other k t differs free = ground arith

register_handler-client :
    (json : Json) (name : Text) (h : AgwRequestHandler) (t : Transport)
    → (register_handler json name h t).client ≡ t.client
unfolding register_handler
register_handler-client json name h t = ground arith

pub register_all-client :
    (json : Json) (more : List (Text × AgwRequestHandler)) (t : Transport)
    → (register_all json more t).client ≡ t.client
unfolding register_all
register_all-client json [] t = refl
register_all-client json ((name, h) ∷ more) t =
    register_all-client json more (register_handler json name h t)
    ∙ register_handler-client json name h t

-- The first handler that is registered under a name which is not empty stays, in the transport and in the
-- gateway's client, whatever is registered after it, under this name or others.
pub first_handler_stays :
    (json : Json) (name : Text) (h : AgwRequestHandler) (more : List (Text × AgwRequestHandler))
    (t : Transport)
    → is_empty name ≡ false
    → t.handlers name ≡ none
    → Holds json name h (register_all json ((name, h) ∷ more) t)
unfolding register_all
first_handler_stays json name h more t named free =
    register_all-keeps json name h more (register_handler json name h t)
      (register_handler-Holds json name h t named free)
