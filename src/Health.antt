-- ===== src/Health.antt =====
-- internal/gateway/health/checker.go: the health of the upstreams, by base URL.
-- An operation is one step, as under the mutex. An HTTP probe answers through a parameter, and the
-- goroutines of a round run one after another, in the order of the list of URLs.
pub mod Sync
pub mod Probes
pub mod Invariant
pub mod Examples
use elite_gate.Prelude.{
  ℕ, ◌+◌, Bool, true, false, ◌&&◌, ◌||◌, not, List, [], ◌∷◌, ◌++◌, Option, none, some,
  if◌then◌else◌, ltb, leb, select, map,
}
use elite_gate.Text.{Text, codes, is_empty}
use elite_gate.TextMap.{TextMap, lookup, insert, remove}

pub record Status : Type 0 where
  pub healthy : Bool
  pub last_check : Option ℕ
  pub last_err : Text
  pub consecutive_fails : ℕ
  pub project_id : Text

pub record TargetHealthConfig : Type 0 where
  pub health_path : Text
  pub project_id : Text

pub record Checker : Type 0 where
  pub statuses : TextMap Status
  pub health_paths : TextMap Text
  pub project_ids : TextMap Text

abbrev pub new_checker : Checker
new_checker = record { statuses = []; health_paths = []; project_ids = [] }

abbrev pub is_some {ℓ} : {A : Type ℓ} → Option A → Bool
is_some none = false
is_some (some _) = true

abbrev pub new_status : Text → Status
new_status project = record {
  healthy = true;
  last_check = none;
  last_err = [];
  consecutive_fails = 0;
  project_id = project;
}

abbrev pub or_health : Text → Text
or_health path = if is_empty path then codes "/health" else path

-- statuses[url] = &Status{…} for a URL that is not there.
abbrev pub known_or_new : Text → Text → TextMap Status → Option Status → TextMap Status
known_or_new url project m none = insert url (new_status project) m
known_or_new url project m (some _) = m

unfoldable pub register : Checker → Text → Text → Text → Checker
unfolding lookup insert
register c url health_path project = record {
  statuses = known_or_new url project c.statuses (lookup url c.statuses);
  health_paths = insert url (or_health health_path) c.health_paths;
  project_ids = insert url project c.project_ids;
}

unfoldable pub register_all : Checker → TextMap Text → Checker
unfolding register
register_all c [] = c
register_all c ((url, path) ∷ targets) = register_all (register c url path []) targets

unfoldable pub unregister : Checker → Text → Checker
unfolding lookup remove
unregister c url = if not (is_some (lookup url c.statuses)) then c else record {
  statuses = remove url c.statuses;
  health_paths = remove url c.health_paths;
  project_ids = remove url c.project_ids;
}

unfoldable pub register_desired : Checker → TextMap TargetHealthConfig → Checker
unfolding register
register_desired c [] = c
register_desired c ((url, cfg) ∷ desired) =
    register_desired (register c url cfg.health_path cfg.project_id) desired

unfoldable pub unregister_all : Checker → List Text → Checker
unfolding unregister
unregister_all c [] = c
unregister_all c (url ∷ urls) = unregister_all (unregister c url) urls

abbrev pub keys {ℓ} : {V : Type ℓ} → TextMap V → List Text
keys m = map (λ e. e.0) m

unfoldable pub sync_targets : Checker → TextMap TargetHealthConfig → Checker
unfolding lookup register_desired unregister_all
sync_targets c desired =
    let to_remove = select (λ u. not (is_some (lookup u desired))) (keys c.statuses) in
    unregister_all (register_desired c desired) to_remove

abbrev pub healthy_or : Option Status → Bool
healthy_or none = true
healthy_or (some s) = s.healthy

unfoldable pub is_healthy : Checker → Text → Bool
unfolding lookup
is_healthy c url = healthy_or (lookup url c.statuses)

-- What net/http answers a probe.
pub data Response : Type 0 where
  not_built no_answer : Text → Response
  answered : ℕ → Text → Response

abbrev pub judge : Response → Bool × Text
judge (not_built err) = (false, codes "build request: " ++ err)
judge (no_answer err) = (false, err)
judge (answered code status) =
    if leb 200 code && ltb code 300 then (true, []) else (false, codes "HTTP " ++ status)

abbrev path_or : Option Text → Text
path_or none = codes "/health"
path_or (some path) = or_health path

unfoldable pub probe : (Text → Response) → Checker → Text → Bool × Text
unfolding lookup
probe http c url = judge (http (url ++ path_or (lookup url c.health_paths)))

abbrev pub probed : ℕ → Bool → Text → Status → Status
probed now healthy err s = record s {
  healthy = healthy;
  last_check = some now;
  last_err = if healthy then [] else err;
  consecutive_fails = if healthy then 0 else s.consecutive_fails + 1;
}

abbrev pub set_known : Checker → ℕ → Text → Bool → Text → Option Status → Checker
set_known c now url healthy err none = c
set_known c now url healthy err (some s) = record c {
  statuses = insert url (probed now healthy err s) c.statuses;
}

unfoldable pub set_status : Checker → ℕ → Text → Bool → Text → Checker
unfolding lookup insert
set_status c now url healthy err = set_known c now url healthy err (lookup url c.statuses)

unfoldable pub probe_urls : (Text → Response) → ℕ → Checker → List Text → Checker
unfolding probe set_status
probe_urls http now c [] = c
probe_urls http now c (url ∷ urls) =
    let (healthy, err) = probe http c url in
    probe_urls http now (set_status c now url healthy err) urls

unfoldable pub probe_all : (Text → Response) → ℕ → Checker → Checker
unfolding probe_urls
probe_all http now c = probe_urls http now c (keys c.statuses)
