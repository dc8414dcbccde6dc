-- ===== src/Middleware/Access.antt =====
-- middleware/auth.go, with Contains and HasAllScopes of helper/helper.go. The set that HasAllScopes
-- builds is the list itself.
use elite_gate.Prelude.{Bool, true, ◌||◌, not, List, Option, none, some, if◌then◌else◌, any, all}
use elite_gate.Text.{Text, codes, text_eq, is_empty, has_prefix, trim_prefix, trim_space}
use elite_gate.Router.{Route}
use elite_gate.Middleware.{GatewayConfig, World, Handler, Request, Reply, Identity, http_json}
use elite_gate.Middleware.IpFilter.{is_nil}
use elite_gate.Middleware.Matching.{is_preflight}

abbrev pub contains_text : List Text → Text → Bool
contains_text list target = any (λ v. text_eq v target) list

unfoldable pub has_all_scopes : List Text → List Text → Bool
has_all_scopes client_scopes required = all (contains_text client_scopes) required

unfoldable pub is_public_path : Text → Bool
is_public_path path = text_eq path (codes "/health") || text_eq path (codes "/ready")

-- The two tests of the route's policy.
abbrev pub permits_role : Route → Identity → Bool
permits_role rt i = is_nil rt.allowed_roles || contains_text rt.allowed_roles i.role

abbrev pub permits_scopes : Route → Identity → Bool
permits_scopes rt i = is_nil rt.allowed_scopes || has_all_scopes i.scopes rt.allowed_scopes

abbrev pub identified : Request → Identity → Request
identified r i = record r {
  context = record r.context { client_id = i.client_id; role = i.role; scopes = i.scopes };
}

abbrev pub is_client : Identity → Identity
is_client i = record i { role = codes "client" }

-- The record of a key, as the identity of a client.
abbrev pub as_client : Option Identity → Option Identity
as_client none = none
as_client (some i) = some (is_client i)

-- rt == nil, or AuthRequired.
abbrev pub asks_auth : Option Route → Bool
asks_auth none = true
asks_auth (some rt) = rt.auth_required

module _ {S Ip Subnet : Type 0} (e : GatewayConfig S Ip Subnet) where
  abbrev pub unauthorized : Text → World S Subnet → World S Subnet × Reply
  unauthorized message w = http_json 401 message w

  module _ (next : Handler S Subnet) where
    abbrev pub enforce : World S Subnet → Request → Identity → Option Route → World S Subnet × Reply
    enforce w r i none = next w (identified r i)
    enforce w r i (some rt) =
        if not (permits_role rt i)
        then http_json 403 (codes "forbidden: role not permitted") w
        else if not (permits_scopes rt i)
        then http_json 403 (codes "forbidden: insufficient scopes") w
        else next w (identified r i)

    abbrev pub with_identity :
        World S Subnet → Request → Text → Option Identity → World S Subnet × Reply
    with_identity w r message none = unauthorized message w
    with_identity w r message (some i) = enforce w r i r.context.route

    abbrev pub by_token :
        World S Subnet → Request → Text → Option (Text → Option Identity) → World S Subnet × Reply
    by_token w r token none = unauthorized (codes "JWT authentication is not configured") w
    by_token w r token (some validate) =
        if is_empty token
        then unauthorized (codes "invalid token") w
        else with_identity w r (codes "invalid token") (validate token)

    abbrev pub by_key :
        World S Subnet → Request → Text → Option (Text → Option Identity) → World S Subnet × Reply
    by_key w r key none = unauthorized (codes "authentication required") w
    by_key w r key (some validate) =
        if is_empty key
        then unauthorized (codes "authentication required") w
        else with_identity w r (codes "invalid api key") (as_client (validate key))

    unfoldable pub authenticate : Handler S Subnet
    authenticate w r =
        if has_prefix (r.header (codes "Authorization")) (codes "Bearer ")
        then by_token w r
            (trim_space e.unicode
              (trim_prefix (r.header (codes "Authorization")) (codes "Bearer ")))
            e.jwt_validator
        else by_key w r (trim_space e.unicode (r.header (codes "X-API-Key"))) e.key_store

    unfoldable pub auth : Handler S Subnet
    auth w r =
        if is_public_path r.path || is_preflight e r
        then next w r
        else if not (asks_auth r.context.route)
        then next w r
        else authenticate w r
