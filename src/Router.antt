-- ===== src/Router.antt =====
-- internal/gateway/router/matcher.go: which route serves a request.
-- A Go int that can be -1 is a ℤ. A pointer into the list of routes is the route.
pub mod Paths
pub mod Best
pub mod Exact
pub mod Examples
use elite_gate.Prelude.{
  ℕ, ◌+◌, Bool, true, false, ◌&&◌, ◌||◌, not, List, [], ◌∷◌, Option, none, some, if◌then◌else◌,
  ◌==◌, ℤ, pos, negsuc, int_le, any, length,
}
use elite_gate.Text.{
  Text, codes, text_eq, is_empty, has_prefix, skip, ends_with, has_byte, trim_left, trim_right,
  split, Unicode, equal_fold,
}

-- model.Route
pub record Route : Type 0 where
  pub id : Text
  pub project_id : Text
  pub name : Text
  pub path : Text
  pub upstream_id : Option Text
  pub upstream_url : Text
  pub methods : List Text
  pub protocol : Text
  pub match_type : Text
  pub enabled : Bool
  pub policy_id : Option Text
  pub auth_required : Bool
  pub rate_limit_rpm : ℤ
  pub allowed_origins : List Text
  pub allowed_roles : List Text
  pub allowed_scopes : List Text
  pub ip_allowlist : List Text
  pub ip_blocklist : List Text
  pub created_at : ℕ
  pub updated_at : ℕ

unfoldable pub match_method : Unicode → List Text → Text → Bool
unfolding equal_fold text_eq
match_method u [] method = true
match_method u (m ∷ ms) method =
    is_empty method
    || text_eq method (codes "OPTIONS")
    || any
        (λ n. equal_fold u n (codes "ANY") || equal_fold u n (codes "*") || equal_fold u n method)
        (m ∷ ms)

unfoldable pub match_boundary_prefix : Text → Text → Bool
unfolding has_prefix skip ends_with
match_boundary_prefix pattern path =
    if not (has_prefix path pattern)
    then false
    else if ends_with b'/' pattern
    then true
    else if length path == length pattern
    then true
    else has_prefix (skip path pattern) (codes "/")

unfoldable pub split_path : Text → List Text
unfolding trim_left trim_right split
split_path p =
    let q = trim_right (λ c. c == b'/') (trim_left (λ c. c == b'/') p) in
    if is_empty q then [] else split b'/' q

unfoldable pub match_segments : List Text → List Text → Bool
unfolding has_prefix text_eq
match_segments [] rs = true
match_segments (p ∷ ps) [] = false
match_segments (p ∷ ps) (r ∷ rs) =
    let rest = match_segments ps rs in
    if has_prefix p (codes ":")
    then (if is_empty r then false else rest)
    else if not (text_eq p r)
    then false
    else rest

unfoldable pub match_parametric : Text → Text → Bool
unfolding split_path match_segments
match_parametric pattern path =
    let ps = split_path pattern in
    let rs = split_path path in if not (length ps == length rs) then false else match_segments ps rs

unfoldable pub match_score : Route → Text → ℤ
unfolding match_parametric match_boundary_prefix text_eq
match_score rt path =
    if text_eq rt.path path
    then pos (1000000 + length rt.path)
    else if has_byte b':' rt.path && match_parametric rt.path path
    then pos (500000 + length rt.path)
    else if not (text_eq rt.match_type (codes "exact")) && match_boundary_prefix rt.path path
    then pos (length rt.path)
    else negsuc 0

-- The two tests that skip a route.
abbrev pub is_candidate : Unicode → Text → Route → Bool
is_candidate u method rt =
    text_eq rt.protocol (codes "http") && rt.enabled && match_method u rt.methods method

-- One turn of the loop, on `best` and `bestScore`.
unfoldable pub consider : Unicode → Text → Text → Option Route × ℤ → Route → Option Route × ℤ
unfolding match_method match_score
consider u path method (best, best_score) rt =
    if not (is_candidate u method rt)
    then (best, best_score)
    else if int_le (match_score rt path) best_score
    then (best, best_score)
    else (some rt, match_score rt path)

unfoldable pub consider_all :
    Unicode → Text → Text → Option Route × ℤ → List Route → Option Route × ℤ
unfolding consider
consider_all u path method best [] = best
consider_all u path method best (rt ∷ rts) =
    consider_all u path method (consider u path method best rt) rts

unfoldable pub match_http : Unicode → Text → Text → List Route → Option Route
unfolding consider_all
match_http u path method routes = (consider_all u path method (none, negsuc 0) routes).0
