-- ===== src/Health/Sync.antt =====
-- checker.go, SyncTargets: what is watched afterwards.
use elite_gate.Prelude.{
  ◌≡◌, refl, sym, ◌∙◌, ap, Bool, true, false, ◌&&◌, ◌||◌, not, List, [], ◌∷◌, Option, none, some,
  arith, any, select, if◌then◌else◌, Bool-cases, inl, inr, Option-cases,
}
use elite_gate.Text.{Text, text_eq}
use elite_gate.Text.Laws.{text_eq_iff}
use elite_gate.TextMap.{TextMap, lookup, lookup-insert, lookup-remove}
use elite_gate.Health.{
  Status, TargetHealthConfig, Checker, is_some, new_status, known_or_new, register, unregister,
  register_desired, unregister_all, keys, sync_targets,
}

-- A status that was there is kept, and a URL that was not there starts healthy.
abbrev pub started : Option Status → Text → Status
started none project = new_status project
started (some s) project = s

abbrev pub watched : Option Status → Option TargetHealthConfig → Option Status
watched old none = none
watched old (some cfg) = some (started old cfg.project_id)

abbrev added : Option Status → Option TargetHealthConfig → Option Status
added old none = old
added old (some cfg) = some (started old cfg.project_id)

same_key :
    (u j project : Text) (m : TextMap Status) (o : Option Status)
    → text_eq u j ≡ true
    → lookup j m ≡ o
    → lookup j (known_or_new u project m o) ≡ some (started (lookup j m) project)
same_key u j project m none e q = rw (lookup-insert u j (new_status project) m, e, q) refl
same_key u j project m (some s) e q = rw q refl

other_key :
    (u j project : Text) (m : TextMap Status) (o : Option Status)
    → text_eq u j ≡ false
    → lookup j (known_or_new u project m o) ≡ lookup j m
other_key u j project m none e = rw (lookup-insert u j (new_status project) m, e) refl
other_key u j project m (some s) e = refl

added-if :
    (b : Bool) (old : Option Status) (cfg : TargetHealthConfig) (o : Option TargetHealthConfig)
    → added (if b then some (started old cfg.project_id) else old) o
      ≡ added old (if b then some cfg else o)
added-if true old cfg none = refl
added-if true old cfg (some d) = refl
added-if false old cfg o = refl

absent :
    (u j : Text) (m : TextMap Status)
    → lookup u m ≡ none
    → lookup j m ≡ (if text_eq u j then none else lookup j m)
absent u j m h = elim (Bool-cases (text_eq u j)) [
  | inl e ↦ rw e (ap (λ k. lookup k m) (sym ((text_eq_iff u j).0 e)) ∙ h)
  | inr e ↦ rw e refl
]

if-or :
    (a b : Bool) (o : Option Status)
    → (if b then none else (if a then none else o)) ≡ (if a || b then none else o)
if-or true true o = refl
if-or true false o = refl
if-or false b o = refl

no_more : (a b : Bool) → b ≡ false → (a && b) ≡ b
no_more true b h = refl
no_more false b h = sym h

any_here :
    (p : Text → Bool) (u j : Text) (us : List Text) (b : Bool)
    → u ≡ j
    → text_eq u j ≡ true
    → any (λ v. text_eq v j) us ≡ (b && p j)
    → any (λ v. text_eq v j) (if p u then u ∷ us else us) ≡ p j
any_here p u j us b same e h = elim (Bool-cases (p u)) [
  | inl t ↦ rw (t, e) (sym (ap p (sym same) ∙ t))
  | inr f ↦ rw (f, h) (no_more b (p j) (ap p (sym same) ∙ f))
]

any_there :
    (p : Text → Bool) (u j : Text) (us : List Text)
    → text_eq u j ≡ false
    → any (λ v. text_eq v j) (if p u then u ∷ us else us) ≡ any (λ v. text_eq v j) us
any_there p u j us e = ground (arith, e)

finally :
    (old : Option Status) (o : Option TargetHealthConfig)
    → (if is_some old && not (is_some o) then none else added old o) ≡ watched old o
finally none none = refl
finally none (some cfg) = refl
finally (some s) none = refl
finally (some s) (some cfg) = refl

pub lookup-known_or_new :
    (u j project : Text) (m : TextMap Status) (o : Option Status)
    → lookup u m ≡ o
    → lookup j (known_or_new u project m o)
      ≡ (if text_eq u j then some (started (lookup j m) project) else lookup j m)
lookup-known_or_new u j project m o h = elim (Bool-cases (text_eq u j)) [
  | inl e ↦
      rw e (same_key u j project m o e (ap (λ k. lookup k m) (sym ((text_eq_iff u j).0 e)) ∙ h))
  | inr e ↦ rw e (other_key u j project m o e)
]

lookup-register_desired :
    (c : Checker) (j : Text) (desired : TextMap TargetHealthConfig)
    → lookup j (register_desired c desired).statuses
      ≡ added (lookup j c.statuses) (lookup j desired)
unfolding register_desired lookup register
lookup-register_desired c j [] = refl
lookup-register_desired c j ((u, cfg) ∷ desired) =
    lookup-register_desired (register c u cfg.health_path cfg.project_id) j desired
    ∙ ap (λ o. added o (lookup j desired))
        (lookup-known_or_new u j cfg.project_id c.statuses _ refl)
    ∙ added-if (text_eq u j) (lookup j c.statuses) cfg (lookup j desired)

pub lookup-unregister :
    (c : Checker) (u j : Text)
    → lookup j (unregister c u).statuses ≡ (if text_eq u j then none else lookup j c.statuses)
unfolding unregister
lookup-unregister c u j = elim (Option-cases (lookup u c.statuses)) [
  | inl h ↦ rw h (absent u j c.statuses h)
  | inr (s, h) ↦ rw h (lookup-remove u j c.statuses)
]

lookup-unregister_all :
    (c : Checker) (j : Text) (us : List Text)
    → lookup j (unregister_all c us).statuses
      ≡ (if any (λ u. text_eq u j) us then none else lookup j c.statuses)
unfolding unregister_all
lookup-unregister_all c j [] = refl
lookup-unregister_all c j (u ∷ us) =
    lookup-unregister_all (unregister c u) j us
    ∙ ap (λ o. if any (λ u. text_eq u j) us then none else o) (lookup-unregister c u j)
    ∙ if-or (text_eq u j) (any (λ u. text_eq u j) us) (lookup j c.statuses)

any-keys :
    (p : Text → Bool) (j : Text) (m : TextMap Status)
    → any (λ u. text_eq u j) (select p (keys m)) ≡ (is_some (lookup j m) && p j)
unfolding lookup
any-keys p j [] = refl
any-keys p j ((u, s) ∷ m) = elim (Bool-cases (text_eq u j)) [
  | inl e ↦ rw e (any_here p u j (select p (keys m)) _ ((text_eq_iff u j).0 e) e (any-keys p j m))
  | inr e ↦ rw e (any_there p u j (select p (keys m)) e ∙ any-keys p j m)
]

-- After SyncTargets the checker watches exactly the desired base URLs; one that was watched before
-- keeps its status, and a new one starts healthy under its project.
pub lookup-sync_targets :
    (c : Checker) (desired : TextMap TargetHealthConfig) (j : Text)
    → lookup j (sync_targets c desired).statuses ≡ watched (lookup j c.statuses) (lookup j desired)
unfolding sync_targets
lookup-sync_targets c desired j =
    lookup-unregister_all (register_desired c desired) j _
    ∙ ap (λ b. if b then none else lookup j (register_desired c desired).statuses)
        (any-keys (λ u. not (is_some (lookup u desired))) j c.statuses)
    ∙ ap
        (λ o. if is_some (lookup j c.statuses) && not (is_some (lookup j desired)) then none else o)
        (lookup-register_desired c j desired)
    ∙ finally (lookup j c.statuses) (lookup j desired)
