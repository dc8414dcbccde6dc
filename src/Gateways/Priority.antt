-- ===== src/Gateways/Priority.antt =====
-- gateway_ingress_state.go, ReserveGatewayListenerRulePriority. The advisory lock makes its
-- transaction one step.
use elite_gate.Prelude.{
  ℕ, zero, suc, ◌-◌, Bool, false, ◌&&◌, List, Option, none, some, if◌then◌else◌, leb, any, ℤ, pos,
  negsuc,
}
use elite_gate.Text.{Text}
use elite_gate.Table.{exec, find, is_null, holds}
use elite_gate.Gateways.{
  Gateway, GatewayTable, GatewayRepoError, is_held, stale_gateway_ingress_lease, database_failure,
  invalid_priority_range, no_priority_available,
}

-- The negation of minPriority < 1 || maxPriority > 50000 || minPriority > maxPriority.
abbrev pub is_priority_range : ℤ → ℤ → Bool
is_priority_range (pos low) (pos high) = leb 1 low && leb high 50000 && leb low high
is_priority_range _ _ = false

-- WHERE listener_rule_priority = candidate AND deleted_at IS NULL
abbrev pub uses_priority : ℕ → Gateway → Bool
uses_priority candidate r = holds r.listener_rule_priority candidate && is_null r.deleted_at

-- The first of `count` candidates from `low` that no live row uses.
unfoldable pub first_free : List Gateway → ℕ → ℕ → Option ℕ
first_free rows zero low = none
first_free rows (suc count) low =
    let rest = first_free rows count (suc low) in
    if any (uses_priority low) rows then rest else some low

pub data Reservation : Type 0 where
  reserved : ℕ → Reservation
  not_reserved : GatewayRepoError → Reservation

abbrev pub set_priority : ℕ → ℕ → Gateway → Gateway
set_priority now priority r = record r { listener_rule_priority = some priority; updated_at = now }

abbrev pub allocate : GatewayTable → ℕ → Text → ℕ → Option ℕ → GatewayTable × Reservation
allocate db now id lease none = (db, not_reserved no_priority_available)
allocate db now id lease (some priority) = (
  record db { rows = exec (is_held id lease) (set_priority now priority) db.rows },
  reserved priority,
)

-- COALESCE(listener_rule_priority, 0) and the test of it.
abbrev pub keep_or_allocate :
    GatewayTable → ℕ → Text → ℕ → Option ℕ → Option ℕ → GatewayTable × Reservation
keep_or_allocate db now id lease none free = allocate db now id lease free
keep_or_allocate db now id lease (some zero) free = allocate db now id lease free
keep_or_allocate db now id lease (some (suc n)) free = (db, reserved (suc n))

abbrev pub reserve_for :
    GatewayTable → ℕ → Text → ℕ → Option ℕ → Option Gateway → GatewayTable × Reservation
reserve_for db now id lease free none = (db, not_reserved stale_gateway_ingress_lease)
reserve_for db now id lease free (some r) =
    keep_or_allocate db now id lease r.listener_rule_priority free

abbrev pub size_of_range : ℤ → ℤ → ℕ
size_of_range (pos low) (pos high) = suc high - low
size_of_range _ _ = 0

abbrev pub start_of_range : ℤ → ℕ
start_of_range (pos low) = low
start_of_range (negsuc low) = 0

unfoldable pub reserve_gateway_listener_rule_priority :
    GatewayTable → ℕ → Text → ℕ → ℤ → ℤ → GatewayTable × Reservation
unfolding find first_free exec
reserve_gateway_listener_rule_priority db now id lease low high =
    if is_priority_range low high
    then (if db.up
        then reserve_for db now id lease
            (first_free db.rows (size_of_range low high) (start_of_range low))
            (find (is_held id lease) db.rows)
        else (db, not_reserved database_failure))
    else (db, not_reserved invalid_priority_range)
