-- ===== src/Health/Examples.antt =====
-- The theorems at two upstreams.
use elite_gate.Prelude.{refl, ◌↔◌, ◌⊎◌, ◌++◌, ◌≡◌, [], ◌∷◌, true, false, if◌then◌else◌}
use elite_gate.Text.{Text, codes, text_eq}
use elite_gate.TextMap.{TextMap, lookup, insert}
use elite_gate.Health.{
  Checker, TargetHealthConfig, Response, answered, new_checker, register, set_status, sync_targets,
  is_healthy, probe_all, is_some,
}
use elite_gate.Health.Invariant.{Run, starts, goes_on, registers, sets, IsSound, Run-IsSound}
use elite_gate.Health.Sync.{watched, lookup-sync_targets}
use elite_gate.Health.Probes.{IsUp, own_path, is_healthy-probe_all}

abbrev one : Checker
one = register new_checker (codes "http://a") (codes "/ready") (codes "p")

abbrev desired : TextMap TargetHealthConfig
desired = (codes "http://b", record { health_path = []; project_id = codes "p" }) ∷ []

abbrev http : Text → Response
http url = answered (if text_eq url (codes "http://a/ready") then 503 else 200) (codes "503")

lookup-sync_targets_example :
    lookup (codes "http://b") (sync_targets one desired).statuses
    ≡ watched (lookup (codes "http://b") one.statuses) (lookup (codes "http://b") desired)
lookup-sync_targets_example = lookup-sync_targets one desired (codes "http://b")

is_healthy-probe_all_example : (is_healthy (probe_all http 5 one) (codes "http://a") ≡ true) ↔ (
    (is_some (lookup (codes "http://a") one.statuses) ≡ false)
    ⊎ IsUp (http (codes "http://a" ++ codes "/ready")))
unfolding register lookup insert text_eq
is_healthy-probe_all_example =
    is_healthy-probe_all http 5 one (codes "http://a") (codes "/ready")
      (own_path b'/' (codes "ready") refl)

-- The upstream is registered, and its probe fails.
history : Run (set_status one 5 (codes "http://a") false (codes "503"))
history =
    goes_on (goes_on starts (registers new_checker (codes "http://a") (codes "/ready") (codes "p")))
      (sets one 5 (codes "http://a") false (codes "503"))

Run-IsSound_example : IsSound (set_status one 5 (codes "http://a") false (codes "503"))
Run-IsSound_example = Run-IsSound history
