-- ===== src/Router/Examples.antt =====
-- The theorems at three routes.
use elite_gate.Prelude.{
  ◌≤◌, ◌≡◌, ◌↔◌, ◌⊎◌, refl, true, false, List, [], ◌∷◌, none, some, pos, All, here, there, arith,
}
use elite_gate.Text.{Text, codes, plain, text_eq}
use elite_gate.Router.{
  Route, match_http, match_parametric, match_boundary_prefix, split_path, match_method,
}
use elite_gate.Router.Best.{rank, IsFirstBest, match_http_lem}
use elite_gate.Router.Exact.{exact_path_wins}
use elite_gate.Router.Paths.{Under, Fits, match_parametric_iff, match_boundary_prefix_iff}

abbrev route_at : Text → Text → Route
route_at path match_type = record {
  id = path;
  project_id = codes "p";
  name = path;
  path = path;
  upstream_id = none;
  upstream_url = [];
  methods = codes "GET" ∷ [];
  protocol = codes "http";
  match_type = match_type;
  enabled = true;
  policy_id = none;
  auth_required = false;
  rate_limit_rpm = pos 0;
  allowed_origins = [];
  allowed_roles = [];
  allowed_scopes = [];
  ip_allowlist = [];
  ip_blocklist = [];
  created_at = 0;
  updated_at = 0;
}

abbrev routes : List Route
routes =
    route_at (codes "/users") (codes "prefix")
    ∷ route_at (codes "/users/:id") (codes "prefix")
    ∷ route_at (codes "/users/me") (codes "exact")
    ∷ []

match_http_lem_example :
    ((match_http plain (codes "/users/7") (codes "GET") routes ≡ none)
      × All (λ s. rank plain (codes "/users/7") (codes "GET") s ≤ 0) routes)
    ⊎ ((r : Route) × (match_http plain (codes "/users/7") (codes "GET") routes ≡ some r)
        × IsFirstBest (rank plain (codes "/users/7") (codes "GET")) 0 routes r)
match_http_lem_example = match_http_lem plain (codes "/users/7") (codes "GET") routes

exact_path_wins_example :
    (r : Route) × (match_http plain (codes "/users/me") (codes "GET") routes ≡ some r)
    × (r.path ≡ codes "/users/me")
unfolding text_eq match_method
exact_path_wins_example =
    exact_path_wins plain (codes "/users/me") (codes "GET") routes
      (omega arith, (omega arith, (omega arith, tt))) (there (there (here (refl, refl))))

match_parametric_iff_example :
    (match_parametric (codes "/users/:id") (codes "/users/7") ≡ true)
    ↔ Fits (split_path (codes "/users/:id")) (split_path (codes "/users/7"))
match_parametric_iff_example = match_parametric_iff (codes "/users/:id") (codes "/users/7")

match_boundary_prefix_iff_example :
    (match_boundary_prefix (codes "/users") (codes "/users2") ≡ true)
    ↔ Under (codes "/users") (codes "/users2")
match_boundary_prefix_iff_example = match_boundary_prefix_iff (codes "/users") (codes "/users2")

-- A prefix ends at a segment.
not_under : match_boundary_prefix (codes "/users") (codes "/users2") ≡ false
unfolding match_boundary_prefix
not_under = refl
