-- ===== src/Health/Invariant.antt =====
-- checker.go: the three maps and the count of failures, over every sequence of operations.
use elite_gate.Prelude.{
  ℕ, ◌≡◌, refl, sym, ◌∙◌, ap, Bool, true, false, Option, none, some, if◌then◌else◌, ◌==◌, arith,
}
use elite_gate.Text.{Text, text_eq}
use elite_gate.TextMap.{lookup, remove, lookup-insert, lookup-remove}
use mathlib.Core.Path.{subst}
use elite_gate.Health.Sync.{started, lookup-known_or_new}
use elite_gate.Health.Probes.{known-set_status, set_known-paths, lookup-set_known, set_entry}
use elite_gate.Health.{
  Status, Checker, new_checker, is_some, or_health, register, unregister, probed, set_known,
  set_status,
}

-- The status of a URL, its health path and its project are there together, and a status is healthy
-- exactly when it counts no failures in a row.
abbrev pub IsCounted : Option Status → Type 0
IsCounted none = Unit
IsCounted (some s) = s.healthy ≡ (s.consecutive_fails == 0)

pub record IsSound (c : Checker) : Type 0 where
  pub has_path : (u : Text) → is_some (lookup u c.statuses) ≡ is_some (lookup u c.health_paths)
  pub has_project : (u : Text) → is_some (lookup u c.statuses) ≡ is_some (lookup u c.project_ids)
  pub counted : (u : Text) → IsCounted (lookup u c.statuses)

-- One critical section of the checker.
pub data Step : Checker → Checker → Type 0 where
  registers : (c : Checker) (url path project : Text) → Step c (register c url path project)
  unregisters : (c : Checker) (url : Text) → Step c (unregister c url)
  sets :
      (c : Checker) (now : ℕ) (url : Text) (healthy : Bool) (err : Text)
      → Step c (set_status c now url healthy err)

pub data Run : Checker → Type 0 where
  starts : Run new_checker
  goes_on : {c d : Checker} → Run c → Step c d → Run d

if-IsCounted :
    (b : Bool) (o p : Option Status) → IsCounted o → IsCounted p → IsCounted (if b then o else p)
if-IsCounted true o p v w = v
if-IsCounted false o p v w = w

known_both :
    {A B : Type 0} (b : Bool) (a : A) (o : Option A) (c : B) (p : Option B)
    → is_some o ≡ is_some p
    → is_some (if b then some a else o) ≡ is_some (if b then some c else p)
known_both true a o c p h = refl
known_both false a o c p h = h

gone_both :
    {A B : Type 0} (b : Bool) (o : Option A) (p : Option B)
    → is_some o ≡ is_some p
    → is_some (if b then none else o) ≡ is_some (if b then none else p)
gone_both true o p h = refl
gone_both false o p h = h

started-IsCounted :
    (o : Option Status) (project : Text) → IsCounted o → IsCounted (some (started o project))
started-IsCounted none project v = refl
started-IsCounted (some s) project v = v

register-IsSound :
    (c : Checker) (url path project : Text) → IsSound c → IsSound (register c url path project)
unfolding register
register-IsSound c url path project v =
    let known =
      λ (u : Text). lookup-known_or_new url u project c.statuses (lookup url c.statuses) refl in
    record {
      has_path = λ u.
          ap is_some (known u)
          ∙ known_both (text_eq url u) _ _ (or_health path) _ (v.has_path u)
          ∙ sym (ap is_some (lookup-insert url u (or_health path) c.health_paths));
      has_project = λ u.
          ap is_some (known u)
          ∙ known_both (text_eq url u) _ _ project _ (v.has_project u)
          ∙ sym (ap is_some (lookup-insert url u project c.project_ids));
      counted = λ u. subst IsCounted (sym (known u)) (
          if-IsCounted (text_eq url u) _ _
            (started-IsCounted (lookup u c.statuses) project (v.counted u)) (v.counted u));
    }

removed-IsSound :
    (c : Checker) (url : Text)
    → IsSound c
    → IsSound (record {
      statuses = remove url c.statuses;
      health_paths = remove url c.health_paths;
      project_ids = remove url c.project_ids;
    })
removed-IsSound c url v = record {
  has_path = λ u.
      ap is_some (lookup-remove url u c.statuses)
      ∙ gone_both (text_eq url u) _ _ (v.has_path u)
      ∙ sym (ap is_some (lookup-remove url u c.health_paths));
  has_project = λ u.
      ap is_some (lookup-remove url u c.statuses)
      ∙ gone_both (text_eq url u) _ _ (v.has_project u)
      ∙ sym (ap is_some (lookup-remove url u c.project_ids));
  counted = λ u.
      subst IsCounted (sym (lookup-remove url u c.statuses))
        (if-IsCounted (text_eq url u) _ _ tt (v.counted u));
}

if-IsSound : (b : Bool) (c d : Checker) → IsSound c → IsSound d → IsSound (if b then c else d)
if-IsSound true c d v w = v
if-IsSound false c d v w = w

unregister-IsSound : (c : Checker) (url : Text) → IsSound c → IsSound (unregister c url)
unfolding unregister
unregister-IsSound c url v = if-IsSound _ _ _ v (removed-IsSound c url v)

set_known-projects :
    (c : Checker) (now : ℕ) (u : Text) (h : Bool) (err : Text) (o : Option Status)
    → (set_known c now u h err o).project_ids ≡ c.project_ids
set_known-projects c now u h err none = refl
set_known-projects c now u h err (some s) = refl

probed-IsCounted :
    (now : ℕ) (h : Bool) (err : Text) (s : Status) → IsCounted (some (probed now h err s))
probed-IsCounted now true err s = refl
probed-IsCounted now false err s = ground arith

set_entry-IsCounted :
    (o : Option Status) (now : ℕ) (h : Bool) (err : Text) (b : Bool) (old : Option Status)
    → IsCounted old
    → IsCounted (set_entry o now h err b old)
set_entry-IsCounted none now h err b old v = v
set_entry-IsCounted (some s) now h err b old v = if-IsCounted b _ _ (probed-IsCounted now h err s) v

set_status-IsSound :
    (c : Checker) (now : ℕ) (url : Text) (h : Bool) (err : Text)
    → IsSound c
    → IsSound (set_status c now url h err)
unfolding set_status
set_status-IsSound c now url h err v = record {
  has_path = λ u.
      known-set_status c now url h err u
      ∙ v.has_path u
      ∙ sym (
          ap (λ m. is_some (lookup u m)) (set_known-paths c now url h err (lookup url c.statuses)));
  has_project = λ u.
      known-set_status c now url h err u
      ∙ v.has_project u
      ∙ sym (
          ap (λ m. is_some (lookup u m))
            (set_known-projects c now url h err (lookup url c.statuses)));
  counted = λ u.
      subst IsCounted (sym (lookup-set_known c now url h err u (lookup url c.statuses))) (
        set_entry-IsCounted (lookup url c.statuses) now h err (text_eq url u) (lookup u c.statuses)
          (v.counted u));
}

Step-IsSound : {c d : Checker} → Step c d → IsSound c → IsSound d
Step-IsSound (registers c url path project) v = register-IsSound c url path project v
Step-IsSound (unregisters c url) v = unregister-IsSound c url v
Step-IsSound (sets c now url h err) v = set_status-IsSound c now url h err v

-- Whatever a checker has been asked to do, in any order, its three maps know the same URLs, and a
-- status is healthy exactly when its count of failures in a row is 0.
pub Run-IsSound : {c : Checker} → Run c → IsSound c
unfolding lookup
Run-IsSound starts = record { has_path = λ u. refl; has_project = λ u. refl; counted = λ u. tt }
Run-IsSound (goes_on r st) = Step-IsSound st (Run-IsSound r)
