-- ===== src/Middleware.antt =====
-- internal/gateway/middleware/chain.go and what the middlewares share: the request with the values
-- of its context, the response under way and the state that outlives a request. A handler answers
-- with that state and a reply. Logs and metrics are left out.
pub mod IpRules
pub mod IpFilter
pub mod Matching
pub mod Cors
pub mod Access
pub mod Throttle
pub mod Facts
pub mod Rules
pub mod Stages
pub mod Stops
pub mod Serving
pub mod Admission
mod Examples
use elite_gate.Prelude.{ℕ, Bool, true, false, List, [], ◌∷◌, ◌++◌, Option, none, some, ℤ}
use elite_gate.Text.{Text, Unicode, codes}
use elite_gate.TextMap.{TextMap, lookup, insert}
use elite_gate.RateLimit.{RateResult}
use elite_gate.Router.{Route}

-- runtime.DomainContext
pub record DomainContext : Type 0 where
  pub hostname : Text
  pub status : Text
  pub routing_status : Text

-- auth.Identity
pub record Identity : Type 0 where
  pub client_id : Text
  pub role : Text
  pub scopes : List Text

-- The values under the keys of internal/shared; an absent text is empty.
pub record Context : Type 0 where
  pub route : Option Route
  pub custom_domain : Option DomainContext
  pub client_id : Text
  pub role : Text
  pub scopes : List Text

-- `header` is r.Header.Get.
pub record Request : Type 0 where
  pub path : Text
  pub method : Text
  pub host : Text
  pub remote_addr : Text
  pub header : Text → Text
  pub context : Context

-- The package net, on its addresses and networks. split_host_port answers the host.
pub record Net (Ip Subnet : Type 0) : Type 0 where
  pub parse_ip : Text → Option Ip
  pub to_4 : Ip → Option Ip
  pub ip_string : Ip → Text
  pub parse_cidr : Text → Option Subnet
  pub contains_ip : Subnet → Ip → Bool
  pub split_host_port : Text → Option Text

-- ipfilter.IPChecker
pub record IpChecker (Subnet : Type 0) : Type 0 where
  pub allowed_ips : List Text
  pub allowed_subnets : List Subnet

-- ratelimit.Limiter: the two methods the middleware calls, on a state.
pub record Limiter (S : Type 0) : Type 0 where
  pub limit : S → ℤ
  pub check_and_consume : S → ℕ → Text → ℤ → S × RateResult

-- A nil validator or key store is none. `routes` and `domain_map` are the snapshot.
pub record GatewayConfig (S Ip Subnet : Type 0) : Type 0 where
  pub now : ℕ
  pub unicode : Unicode
  pub decimal : ℤ → Text
  pub net : Net Ip Subnet
  pub limiter : Limiter S
  pub jwt_validator : Option (Text → Option Identity)
  pub key_store : Option (Text → Option Identity)
  pub routes : List Route
  pub domain_map : TextMap DomainContext

-- The limiter, the cache of the IP filter and the headers of the response under way.
pub record World (S Subnet : Type 0) : Type 0 where
  pub limiter_state : S
  pub cache : TextMap (IpChecker Subnet)
  pub headers : TextMap (List Text)

-- The response of a middleware, or the request that the proxy is given.
pub data Reply : Type 0 where
  error_reply : ℕ → Text → Reply
  rate_reply : ℤ → ℕ → Reply
  no_content : Reply
  proxied : Request → Reply

abbrev pub Handler : Type 0 → Type 0 → Type 0
Handler S Subnet = World S Subnet → Request → World S Subnet × Reply

abbrev or_no_values : Option (List Text) → List Text
or_no_values none = []
or_no_values (some vs) = vs

module _ {S Subnet : Type 0} where
  -- w.Header().Set
  unfoldable pub set_header : Text → Text → World S Subnet → World S Subnet
  set_header name value w = record w { headers = insert name (value ∷ []) w.headers }

  -- w.Header().Add
  unfoldable pub add_header : Text → Text → World S Subnet → World S Subnet
  add_header name value w = record w {
    headers = insert name (or_no_values (lookup name w.headers) ++ value ∷ []) w.headers;
  }

  -- httpJSON and denyJSON with an error.
  unfoldable pub http_json : ℕ → Text → World S Subnet → World S Subnet × Reply
  http_json status message w =
      (set_header (codes "Content-Type") (codes "application/json") w, error_reply status message)

  -- Chain: the first middleware is the outermost.
  abbrev pub chain :
      Handler S Subnet → List (Handler S Subnet → Handler S Subnet) → Handler S Subnet
  chain h [] = h
  chain h (m ∷ ms) = m (chain h ms)
