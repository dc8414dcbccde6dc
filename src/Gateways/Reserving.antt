-- ===== src/Gateways/Reserving.antt =====
-- gateway_ingress_state.go, ReserveGatewayListenerRulePriority: which priority is reserved.
use elite_gate.Prelude.{
  ℕ, zero, suc, ◌+◌, ◌-◌, ◌≤◌, ◌<◌, ◌≡◌, refl, sym, ◌∙◌, inl, inr, Bool, true, false, List, Option,
  none, some, if◌then◌else◌, leb, any, All, Any, ◌⊎◌, arith, Bool-cases, some_injective,
  none_not_some, ℤ, pos, negsuc,
}
use mathlib.Core.Path.{subst}
use elite_gate.Text.{Text}
use elite_gate.Table.{exec, find}
use elite_gate.Table.Effects.{find-some, find-none}
use elite_gate.Gateways.{
  Gateway, GatewayTable, is_held, stale_gateway_ingress_lease, database_failure,
  invalid_priority_range, no_priority_available,
}
use elite_gate.Gateways.Priority.{
  is_priority_range, uses_priority, first_free, Reservation, reserved, not_reserved, set_priority,
  allocate, keep_or_allocate, reserve_for, reserve_gateway_listener_rule_priority,
}

-- The least priority of a range that no live row uses.
pub record IsLeastFree (rows : List Gateway) (low high p : ℕ) : Type 0 where
  pub from : low ≤ p
  pub to : p ≤ high
  pub free : any (uses_priority p) rows ≡ false
  pub least : (n : ℕ) → low ≤ n → n < p → any (uses_priority n) rows ≡ true

first_free-cons :
    (rows : List Gateway) (count low : ℕ) (b : Bool)
    → any (uses_priority low) rows ≡ b
    → first_free rows (suc count) low ≡ (if b then first_free rows count (suc low) else some low)
unfolding first_free
first_free-cons rows count low b h = rw h refl

used_from :
    (rows : List Gateway) (low n : ℕ)
    → any (uses_priority low) rows ≡ true
    → (suc low ≤ n → any (uses_priority n) rows ≡ true)
    → low ≤ n
    → any (uses_priority n) rows ≡ true
used_from rows low n e h l = elim (Bool-cases (leb (suc low) n)) [
  | inl k ↦ h (ground arith)
  | inr k ↦
      let same : low ≡ n = ground arith in subst (λ m. any (uses_priority m) rows ≡ true) same e
]

first_free-some :
    (rows : List Gateway) (count low high p : ℕ)
    → low + count ≤ suc high
    → first_free rows count low ≡ some p
    → IsLeastFree rows low high p
unfolding first_free
first_free-some rows zero low high p k h = absurd (none_not_some h)
first_free-some rows (suc count) low high p k h = elim (Bool-cases (any (uses_priority low) rows)) [
  | inl e ↦
      let v =
        first_free-some rows count (suc low) high p (omega arith)
          (sym (first_free-cons rows count low true e) ∙ h) in
      record {
        from = omega (arith, v.from);
        to = v.to;
        free = v.free;
        least = λ n l m. used_from rows low n e (λ l. v.least n l m) l;
      }
  | inr e ↦
      let same = some_injective (sym (first_free-cons rows count low false e) ∙ h) in
      subst (IsLeastFree rows low high) same (record {
        from = omega arith;
        to = omega arith;
        free = e;
        least = λ n l m. absurd (omega arith);
      })
]

first_free-none :
    (rows : List Gateway) (count low : ℕ)
    → first_free rows count low ≡ none
    → (n : ℕ) → low ≤ n
    → n < low + count
    → any (uses_priority n) rows ≡ true
unfolding first_free
first_free-none rows zero low h n l m = absurd (omega arith)
first_free-none rows (suc count) low h n l m = elim (Bool-cases (any (uses_priority low) rows)) [
  | inl e ↦
      used_from rows low n e
        (λ l.
          first_free-none rows count (suc low) (sym (first_free-cons rows count low true e) ∙ h) n l
            (omega arith))
        l
  | inr e ↦ absurd (none_not_some (sym h ∙ first_free-cons rows count low false e))
]

-- What every case after the first three rests on: the range, the database and the held row.
pub record IsOpen (db : GatewayTable) (id : Text) (lease low high : ℕ) (r : Gateway) : Type 0 where
  pub from : 1 ≤ low
  pub to : high ≤ 50000
  pub ordered : low ≤ high
  pub up : db.up ≡ true
  pub held : is_held id lease r ≡ true
  pub member : Any (λ s. s ≡ r) db.rows

-- The row has no priority yet.
abbrev pub IsUnset : Option ℕ → Type 0
IsUnset o = (o ≡ none) ⊎ (o ≡ some 0)

-- What a reservation answers, and what it writes.
pub data Reserves (db : GatewayTable) (now : ℕ) (id : Text) (lease : ℕ)
    : ℤ → ℤ → GatewayTable × Reservation → Type 0 where
  bad_range :
      {low high : ℤ}
      → is_priority_range low high ≡ false
      → Reserves db now id lease low high (db, not_reserved invalid_priority_range)
  no_database :
      {low high : ℤ}
      → is_priority_range low high ≡ true
      → db.up ≡ false
      → Reserves db now id lease low high (db, not_reserved database_failure)
  no_lease :
      {low high : ℤ}
      → is_priority_range low high ≡ true
      → db.up ≡ true
      → All (λ r. is_held id lease r ≡ false) db.rows
      → Reserves db now id lease low high (db, not_reserved stale_gateway_ingress_lease)
  keeps :
      {low high : ℕ} (r : Gateway) (n : ℕ)
      → IsOpen db id lease low high r
      → r.listener_rule_priority ≡ some (suc n)
      → Reserves db now id lease (pos low) (pos high) (db, reserved (suc n))
  none_left :
      {low high : ℕ} (r : Gateway)
      → IsOpen db id lease low high r
      → IsUnset r.listener_rule_priority
      → ((n : ℕ) → low ≤ n → n ≤ high → any (uses_priority n) db.rows ≡ true)
      → Reserves db now id lease (pos low) (pos high) (db, not_reserved no_priority_available)
  takes :
      {low high : ℕ} (r : Gateway) (p : ℕ)
      → IsOpen db id lease low high r
      → IsUnset r.listener_rule_priority
      → IsLeastFree db.rows low high p
      → Reserves db now id lease
          (pos low)
          (pos high)
          (record db { rows = exec (is_held id lease) (set_priority now p) db.rows }, reserved p)

module _ (db : GatewayTable) (now : ℕ) (id : Text) (lease low high : ℕ) where
  allocate-Reserves :
      (r : Gateway) (free : Option ℕ)
      → IsOpen db id lease low high r
      → IsUnset r.listener_rule_priority
      → first_free db.rows (suc high - low) low ≡ free
      → Reserves db now id lease (pos low) (pos high) (allocate db now id lease free)
  allocate-Reserves r none v u e =
      let ordered = v.ordered in
      none_left r v u (λ n a b. first_free-none db.rows (suc high - low) low e n a (omega arith))
  allocate-Reserves r (some p) v u e =
      let ordered = v.ordered in
      takes r p v u (first_free-some db.rows (suc high - low) low high p (omega arith) e)

  keep_or_allocate-Reserves :
      (r : Gateway) (old : Option ℕ)
      → IsOpen db id lease low high r
      → r.listener_rule_priority ≡ old
      → Reserves db now id lease
          (pos low)
          (pos high)
          (keep_or_allocate db now id lease old (first_free db.rows (suc high - low) low))
  keep_or_allocate-Reserves r none v e = allocate-Reserves r _ v (inl e) refl
  keep_or_allocate-Reserves r (some zero) v e = allocate-Reserves r _ v (inr e) refl
  keep_or_allocate-Reserves r (some (suc n)) v e = keeps r n v e

  reserve_for-Reserves :
      (found : Option Gateway)
      → is_priority_range (pos low) (pos high) ≡ true
      → db.up ≡ true
      → find (is_held id lease) db.rows ≡ found
      → Reserves db now id lease
          (pos low)
          (pos high)
          (reserve_for db now id lease (first_free db.rows (suc high - low) low) found)
  reserve_for-Reserves none ok up e = no_lease ok up (find-none (is_held id lease) db.rows e)
  reserve_for-Reserves (some r) ok up e =
      let hit = find-some (is_held id lease) db.rows r e in
      keep_or_allocate-Reserves r r.listener_rule_priority
        (record {
          from = ground arith;
          to = ground arith;
          ordered = ground arith;
          up = up;
          held = hit.0;
          member = hit.1;
        })
        refl

Reserves-if :
    {db : GatewayTable} {now : ℕ} {id : Text} {lease : ℕ} {low high : ℤ}
    {o q : GatewayTable × Reservation} (b : Bool)
    → (b ≡ true → Reserves db now id lease low high o)
    → (b ≡ false → Reserves db now id lease low high q)
    → Reserves db now id lease low high (if b then o else q)
Reserves-if true v w = v refl
Reserves-if false v w = w refl

-- A reservation answers, first of what applies: that the range is not between 1 and 50000; the
-- error of the database; that no live row is held under the lease; the priority that such a row has
-- already; that every priority of the range is in use by a live row; or the least one that is not,
-- which it writes to the held row. In all but the last case no row changes.
pub reserve_gateway_listener_rule_priority_lem :
    (db : GatewayTable) (now : ℕ) (id : Text) (lease : ℕ) (low high : ℤ)
    → Reserves db now id lease low high
        (reserve_gateway_listener_rule_priority db now id lease low high)
unfolding reserve_gateway_listener_rule_priority
reserve_gateway_listener_rule_priority_lem db now id lease (pos low) (pos high) =
    Reserves-if _
      (λ ok.
        Reserves-if db.up (λ up. reserve_for-Reserves db now id lease low high _ ok up refl)
          (λ down. no_database ok down))
      (λ bad. bad_range bad)
reserve_gateway_listener_rule_priority_lem db now id lease (pos low) (negsuc high) = bad_range refl
reserve_gateway_listener_rule_priority_lem db now id lease (negsuc low) high = bad_range refl
