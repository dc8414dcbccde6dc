-- ===== src/Gateways/Draining.antt =====
-- gateway_deprovision_repo.go, QueueGatewayDeprovisioning, and gateway_repo.go, MarkDraining and
-- ListStaleDraining: the statements that take a gateway out of service. `now` is NOW().
use elite_gate.Prelude.{
  ℕ, ◌+◌, Bool, true, false, ◌&&◌, not, List, Option, none, some, if◌then◌else◌, ltb, ℤ, pos,
  negsuc, select,
}
use elite_gate.Text.{Text, text_eq}
use elite_gate.Table.{exec, find, is_null}
use elite_gate.Gateways.{
  Gateway, GatewayTable, GatewayStatus, draining, decommissioned, deprovisioning, GatewayRepoError,
  gateway_not_found, database_failure, is_live_at,
}
use elite_gate.Gateways.Ingress.{is_deprovisioning}

abbrev pub has_left : GatewayStatus → Bool
has_left decommissioned = true
has_left _ = false

abbrev pub drains_or_left : GatewayStatus → Bool
drains_or_left draining = true
drains_or_left s = has_left s

abbrev pub time_or : Option ℕ → ℕ → ℕ
time_or none now = now
time_or (some t) now = t

-- What a caller gets: two times, of which the zero time is none, or an error.
pub data Drain : Type 0 where
  drains : Option ℕ → Drain
  not_drained : GatewayRepoError → Drain

abbrev pub set_draining : ℕ → Gateway → Gateway
set_draining now r = record r {
  status = draining;
  drain_started_at = some (time_or r.drain_started_at now);
  updated_at = now;
}

abbrev pub drain_of : Option Gateway → Drain
drain_of none = not_drained gateway_not_found
drain_of (some r) = drains r.drain_started_at

abbrev pub may_drain : Text → Gateway → Bool
may_drain id r = is_live_at id r && not (drains_or_left r.status)

unfoldable pub drain_row : GatewayTable → ℕ → Text → Option Gateway → GatewayTable × Drain
unfolding find
drain_row db now id none = (db, drain_of (find (λ r. text_eq r.external_id id) db.rows))
drain_row db now id (some r) = (
  record db { rows = exec (may_drain id) (set_draining now) db.rows },
  drains (some (time_or r.drain_started_at now)),
)

unfoldable pub mark_draining : GatewayTable → ℕ → Text → GatewayTable × Drain
unfolding find drain_row exec
mark_draining db now id =
    if db.up
    then drain_row db now id (find (may_drain id) db.rows)
    else (db, not_drained database_failure)

abbrev pub begun_before : ℕ → ℕ → Option ℕ → Bool
begun_before now stale_after none = false
begun_before now stale_after (some t) = ltb (t + stale_after) now

abbrev pub is_draining : GatewayStatus → Bool
is_draining draining = true
is_draining _ = false

-- drain_started_at < NOW() - staleAfter, and not in the queue of the worker.
unfoldable pub is_stale_draining : ℕ → ℕ → Gateway → Bool
is_stale_draining now stale_after r =
    is_draining r.status
    && is_null r.deleted_at
    && not (is_deprovisioning r.provisioning_status)
    && begun_before now stale_after r.drain_started_at

unfoldable pub list_stale_draining : GatewayTable → ℕ → ℕ → Option (List Gateway)
unfolding is_stale_draining
list_stale_draining db now stale_after =
    if db.up then some (select (is_stale_draining now stale_after) db.rows) else none

-- A drain timeout below zero counts as zero.
abbrev pub timeout_or_zero : ℤ → ℕ
timeout_or_zero (pos t) = t
timeout_or_zero (negsuc t) = 0

abbrev pub kept_retries : Gateway → ℕ
kept_retries r = if is_deprovisioning r.provisioning_status then r.retry_count else 0

-- The CASE of next_retry_at.
abbrev pub ready_at : ℕ → ℕ → Gateway → ℕ
ready_at now timeout r =
    if is_deprovisioning r.provisioning_status
    then time_or r.next_retry_at (time_or r.drain_started_at now + timeout)
    else time_or r.drain_started_at now + timeout

unfoldable pub set_queued : ℕ → ℕ → Gateway → Gateway
set_queued now timeout r = record r {
  status = draining;
  drain_started_at = some (time_or r.drain_started_at now);
  provisioning_status = deprovisioning;
  provisioning_error = none;
  retry_count = kept_retries r;
  next_retry_at = some (ready_at now timeout r);
  locked_at = none;
  locked_by = none;
  lease_token = none;
  updated_at = now;
}

abbrev pub may_leave : Text → Gateway → Bool
may_leave id r = is_live_at id r && not (has_left r.status)

-- The drain's begin and the time at which the cleanup may begin; the zero times of a gateway that
-- is gone already; or an error.
pub data Queued : Type 0 where
  queued : ℕ → ℕ → Queued
  already_decommissioned : Queued
  not_queued : GatewayRepoError → Queued

abbrev pub missed_queue : Option Gateway → Queued
missed_queue none = not_queued gateway_not_found
missed_queue (some r) =
    if has_left r.status then already_decommissioned else not_queued gateway_not_found

unfoldable pub queue_row : GatewayTable → ℕ → Text → ℕ → Option Gateway → GatewayTable × Queued
unfolding find exec set_queued
queue_row db now id timeout none = (db, missed_queue (find (λ r. text_eq r.external_id id) db.rows))
queue_row db now id timeout (some r) = (
  record db { rows = exec (may_leave id) (set_queued now timeout) db.rows },
  queued (time_or r.drain_started_at now) (ready_at now timeout r),
)

unfoldable pub queue_gateway_deprovisioning : GatewayTable → ℕ → Text → ℤ → GatewayTable × Queued
unfolding find queue_row
queue_gateway_deprovisioning db now id timeout =
    if db.up
    then queue_row db now id (timeout_or_zero timeout) (find (may_leave id) db.rows)
    else (db, not_queued database_failure)
