-- ===== src/Health/Probes.antt =====
-- checker.go, probeAll: the health of each upstream after a round of probes.
use elite_gate.Prelude.{
  ℕ, ◌≤◌, ◌≡◌, ◌⊎◌, ◌↔◌, ◌++◌, arith, true_not_false, refl, sym, ◌∙◌, ap, Bool, true, false, ◌&&◌,
  ◌||◌, List, [], ◌∷◌, Option, none, some, any, if◌then◌else◌, Bool-cases, inl, inr,
}
use elite_gate.Text.{Text, text_eq, codes}
use elite_gate.Text.Laws.{text_eq_iff}
use elite_gate.TextMap.{TextMap, lookup, lookup-insert}
use elite_gate.Health.{
  Status, Checker, Response, answered, not_built, no_answer, judge, is_some, keys, is_healthy,
  probe, probed, set_status, set_known, probe_urls, probe_all, healthy_or,
}

pub set_known-paths :
    (c : Checker) (now : ℕ) (u : Text) (h : Bool) (err : Text) (o : Option Status)
    → (set_known c now u h err o).health_paths ≡ c.health_paths
set_known-paths c now u h err none = refl
set_known-paths c now u h err (some s) = refl

-- A probe reads the health paths only, and those no probe changes.
probe-set_status :
    (http : Text → Response) (c : Checker) (now : ℕ) (u : Text) (h : Bool) (err j : Text)
    → probe http (set_status c now u h err) j ≡ probe http c j
unfolding probe set_status
probe-set_status http c now u h err j =
    rw (set_known-paths c now u h err (lookup u c.statuses)) refl

abbrev pub set_entry : Option Status → ℕ → Bool → Text → Bool → Option Status → Option Status
set_entry none now h err b o = o
set_entry (some s) now h err b o = if b then some (probed now h err s) else o

pub lookup-set_known :
    (c : Checker) (now : ℕ) (u : Text) (h : Bool) (err j : Text) (o : Option Status)
    → lookup j (set_known c now u h err o).statuses
      ≡ set_entry o now h err (text_eq u j) (lookup j c.statuses)
lookup-set_known c now u h err j none = refl
lookup-set_known c now u h err j (some s) = lookup-insert u j (probed now h err s) c.statuses

set_entry-is_some :
    (o : Option Status) (now : ℕ) (h : Bool) (err : Text) (b : Bool) (old : Option Status)
    → (b ≡ true → old ≡ o)
    → is_some (set_entry o now h err b old) ≡ is_some old
set_entry-is_some none now h err b old k = refl
set_entry-is_some (some s) now h err true old k = rw (k refl) refl
set_entry-is_some (some s) now h err false old k = refl

set_entry-healthy :
    (o : Option Status) (now : ℕ) (h : Bool) (err : Text) (b : Bool) (old : Option Status)
    → (b ≡ true → old ≡ o)
    → healthy_or (set_entry o now h err b old) ≡ (if b && is_some old then h else healthy_or old)
set_entry-healthy none now h err true old k = rw (k refl) refl
set_entry-healthy none now h err false old k = refl
set_entry-healthy (some s) now h err true old k = rw (k refl) refl
set_entry-healthy (some s) now h err false old k = refl

same_entry : (u j : Text) (m : TextMap Status) → text_eq u j ≡ true → lookup j m ≡ lookup u m
same_entry u j m e = ap (λ k. lookup k m) (sym ((text_eq_iff u j).0 e))

pub known-set_status :
    (c : Checker) (now : ℕ) (u : Text) (h : Bool) (err j : Text)
    → is_some (lookup j (set_status c now u h err).statuses) ≡ is_some (lookup j c.statuses)
unfolding set_status
known-set_status c now u h err j =
    ap is_some (lookup-set_known c now u h err j (lookup u c.statuses))
    ∙ set_entry-is_some (lookup u c.statuses) now h err (text_eq u j) (lookup j c.statuses)
        (same_entry u j c.statuses)

is_healthy-set_status :
    (c : Checker) (now : ℕ) (u : Text) (h : Bool) (err j : Text)
    → is_healthy (set_status c now u h err) j
      ≡ (if text_eq u j && is_some (lookup j c.statuses) then h else is_healthy c j)
unfolding set_status is_healthy
is_healthy-set_status c now u h err j =
    ap healthy_or (lookup-set_known c now u h err j (lookup u c.statuses))
    ∙ set_entry-healthy (lookup u c.statuses) now h err (text_eq u j) (lookup j c.statuses)
        (same_entry u j c.statuses)

-- The answer of the probe of a URL is that of the equal URL.
same_probe :
    (http : Text → Response) (c : Checker) (u j : Text) (known old : Bool)
    → (if text_eq u j && known then (probe http c u).0 else old)
      ≡ (if text_eq u j && known then (probe http c j).0 else old)
same_probe http c u j known old = elim (Bool-cases (text_eq u j)) [
  | inl e ↦
      ap (λ k. if text_eq u j && known then (probe http c k).0 else old) ((text_eq_iff u j).0 e)
  | inr e ↦ rw e refl
]

either_probe :
    (a b known x y : Bool)
    → (if b && known then x else (if a && known then x else y))
      ≡ (if (a || b) && known then x else y)
either_probe true true true x y = refl
either_probe true true false x y = refl
either_probe true false known x y = refl
either_probe false b known x y = refl

is_healthy-probe_urls :
    (http : Text → Response) (now : ℕ) (c : Checker) (us : List Text) (j : Text)
    → is_healthy (probe_urls http now c us) j ≡ (
        if any (λ u. text_eq u j) us && is_some (lookup j c.statuses)
        then (probe http c j).0
        else is_healthy c j)
unfolding probe_urls
is_healthy-probe_urls http now c [] j = refl
is_healthy-probe_urls http now c (u ∷ us) j =
    let (h, err) = probe http c u in
    let after = set_status c now u h err in
    is_healthy-probe_urls http now after us j
    ∙ ap
        (λ k. if any (λ v. text_eq v j) us && k then (probe http after j).0 else is_healthy after j)
        (known-set_status c now u h err j)
    ∙ ap
        (λ p.
          if any (λ v. text_eq v j) us && is_some (lookup j c.statuses)
          then p.0
          else is_healthy after j)
        (probe-set_status http c now u h err j)
    ∙ ap
        (λ y.
          if any (λ v. text_eq v j) us && is_some (lookup j c.statuses)
          then (probe http c j).0
          else y)
        (is_healthy-set_status c now u h err j ∙ same_probe http c u j _ _)
    ∙ either_probe (text_eq u j) (any (λ v. text_eq v j) us) _ _ _

any-keys_known :
    (j : Text) (m : TextMap Status) → any (λ u. text_eq u j) (keys m) ≡ is_some (lookup j m)
unfolding lookup
any-keys_known j [] = refl
any-keys_known j ((u, s) ∷ m) = elim (Bool-cases (text_eq u j)) [
  | inl e ↦ rw e refl
  | inr e ↦ rw e (any-keys_known j m)
]

unknown-is_healthy :
    (known : Bool) (o : Option Status) (x : Bool)
    → is_some o ≡ known
    → (if known && known then x else healthy_or o) ≡ (if known then x else true)
unknown-is_healthy true o x h = refl
unknown-is_healthy false none x h = refl
unknown-is_healthy false (some s) x h = cc

-- The answer is what the probe of the upstream finds.
probe_all-probe :
    (http : Text → Response) (now : ℕ) (c : Checker) (j : Text)
    → is_healthy (probe_all http now c) j
      ≡ (if is_some (lookup j c.statuses) then (probe http c j).0 else true)
unfolding probe_all is_healthy
probe_all-probe http now c j =
    is_healthy-probe_urls http now c (keys c.statuses) j
    ∙ ap (λ b. if b && is_some (lookup j c.statuses) then (probe http c j).0 else is_healthy c j)
        (any-keys_known j c.statuses)
    ∙ unknown-is_healthy _ (lookup j c.statuses) _ refl

-- An HTTP response with a status from 200 to 299.
pub data IsUp : Response → Type 0 where
  is_up : (code : ℕ) (status : Text) → 200 ≤ code → code ≤ 299 → IsUp (answered code status)

-- The path at which an upstream is probed: its own, and /health for none or an empty one.
pub data PathOf (c : Checker) (url : Text) : Text → Type 0 where
  own_path :
      (x : ℕ) (path : Text) → lookup url c.health_paths ≡ some (x ∷ path) → PathOf c url (x ∷ path)
  empty_path : lookup url c.health_paths ≡ some [] → PathOf c url (codes "/health")
  no_path : lookup url c.health_paths ≡ none → PathOf c url (codes "/health")

judge-IsUp : (r : Response) → (judge r).0 ≡ true → IsUp r
judge-IsUp (not_built err) h = absurd (true_not_false (sym h))
judge-IsUp (no_answer err) h = absurd (true_not_false (sym h))
judge-IsUp (answered code status) h = is_up code status (ground arith) (ground arith)

IsUp-judge : (r : Response) → IsUp r → (judge r).0 ≡ true
IsUp-judge r (is_up code status l h) = ground arith

probe-PathOf :
    (http : Text → Response) (c : Checker) (url path : Text)
    → PathOf c url path
    → probe http c url ≡ judge (http (url ++ path))
unfolding probe
probe-PathOf http c url path (own_path x rest h) = rw h refl
probe-PathOf http c url path (empty_path h) = rw h refl
probe-PathOf http c url path (no_path h) = rw h refl

-- After a round of probes an upstream counts as healthy exactly when it is not watched or the GET of
-- its own health path, or of /health where it has none, was answered with a status from 200 to 299,
-- whatever the order of the probes.
pub is_healthy-probe_all :
    (http : Text → Response) (now : ℕ) (c : Checker) (j path : Text)
    → PathOf c j path
    → (is_healthy (probe_all http now c) j ≡ true)
      ↔ ((is_some (lookup j c.statuses) ≡ false) ⊎ IsUp (http (j ++ path)))
is_healthy-probe_all http now c j path at_path =
    let found = probe_all-probe http now c j in
    let probed_at = ap (λ o. o.0) (probe-PathOf http c j path at_path) in
    elim (Bool-cases (is_some (lookup j c.statuses))) [
      | inr unwatched ↦ (
        λ h. inl unwatched,
        λ h. found ∙ ap (λ b. if b then (probe http c j).0 else true) unwatched,
      )
      | inl watched ↦
          let same : is_healthy (probe_all http now c) j ≡ (judge (http (j ++ path))).0 =
            found ∙ ap (λ b. if b then (probe http c j).0 else true) watched ∙ probed_at in
          (
            λ h. inr (judge-IsUp _ (sym same ∙ h)),
            λ v. elim v [
              | inl unwatched ↦ absurd (true_not_false (sym watched ∙ unwatched))
              | inr up ↦ same ∙ IsUp-judge _ up
            ],
          )
    ]
