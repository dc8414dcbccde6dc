-- ===== src/Middleware/Rules.antt =====
-- middleware/ip_filter.go: what the cache of checkers knows of the rules of a route.
use elite_gate.Prelude.{
  ◌≡◌, refl, sym, ◌∙◌, ap, inl, inr, true, false, List, [], Option, none, some, if◌then◌else◌,
  Bool-cases, leb, length, some_injective, none_not_some, arith,
}
use mathlib.Core.Path.{subst}
use elite_gate.Text.{Text, codes, text_eq}
use elite_gate.Text.Laws.{text_eq_iff}
use elite_gate.TextMap.{TextMap, lookup, insert, lookup-insert}
use elite_gate.Router.{Route}
use elite_gate.Middleware.{GatewayConfig, World, Request, IpChecker}
use elite_gate.Middleware.IpRules.{
  sort_strings, join, rule_set_key, new_ip_checker, is_allowed, extract_ip,
}
use elite_gate.Middleware.IpFilter.{
  is_nil, remember, remembered, cached, get_checker, matches_ip, misses_ip,
}
use elite_gate.Middleware.Facts.{Filtered, no_rules, passes}

module _ {S Ip Subnet : Type 0} (e : GatewayConfig S Ip Subnet) where
  -- A checker that was made of a list whose sorted patterns, joined by commas, are the key.
  pub record IsMade (key : Text) (c : IpChecker Subnet) : Type 0 where
    pub rules : List Text
    pub listed : join (codes ",") (sort_strings rules) ≡ key
    pub parsed : new_ip_checker e.unicode e.net rules ≡ some c

  -- Each checker of the cache was made of a list of its key.
  abbrev pub IsFilled : TextMap (IpChecker Subnet) → Type 0
  IsFilled cache = (key : Text) (c : IpChecker Subnet) → lookup key cache ≡ some c → IsMade key c

  -- Why a block list lets an address pass.
  pub data NotBlocked (rules : List Text) (ip : Text) : Type 0 where
    no_block_rules : is_nil rules ≡ true → NotBlocked rules ip
    block_unparsed : new_ip_checker e.unicode e.net rules ≡ none → NotBlocked rules ip
    not_in_block :
        (c : IpChecker Subnet)
        → IsMade (join (codes ",") (sort_strings rules)) c
        → is_allowed e.unicode e.net c ip ≡ false
        → NotBlocked rules ip

  -- Why an allow list does.
  pub data Allowed (rules : List Text) (ip : Text) : Type 0 where
    no_allow_rules : is_nil rules ≡ true → Allowed rules ip
    allow_unparsed : new_ip_checker e.unicode e.net rules ≡ none → Allowed rules ip
    in_allow :
        (c : IpChecker Subnet)
        → IsMade (join (codes ",") (sort_strings rules)) c
        → is_allowed e.unicode e.net c ip ≡ true
        → Allowed rules ip

  -- The address of a request that the filter lets pass.
  pub record Address (rt : Route) (r : Request) : Type 0 where
    pub not_blocked :
        NotBlocked rt.ip_blocklist (extract_ip e.unicode e.net r.remote_addr (some r.header) false)
    pub allowed :
        Allowed rt.ip_allowlist (extract_ip e.unicode e.net r.remote_addr (some r.header) false)

  -- What the cache answers for a list.
  data Found (rules : List Text) : Option (IpChecker Subnet) → Type 0 where
    asks_none : is_nil rules ≡ true → Found rules none
    unparsed : new_ip_checker e.unicode e.net rules ≡ none → Found rules none
    made :
        (c : IpChecker Subnet)
        → IsMade (join (codes ",") (sort_strings rules)) c
        → Found rules (some c)

  parsed_entry :
      (rules : List Text) (c : IpChecker Subnet)
      → new_ip_checker e.unicode e.net rules ≡ some c
      → IsMade (rule_set_key rules) c
  unfolding rule_set_key
  parsed_entry rules c h = record { rules = rules; listed = refl; parsed = h }

  insert-IsFilled :
      (key : Text) (c : IpChecker Subnet) (m : TextMap (IpChecker Subnet))
      → IsMade key c
      → IsFilled m
      → IsFilled (insert key c m)
  insert-IsFilled key c m v filled j d h = elim (Bool-cases (text_eq key j)) [
    | inl same ↦
        let here : some c ≡ some d =
          sym (ap (λ b. if b then some c else lookup j m) same)
          ∙ sym (lookup-insert key j c m)
          ∙ h in
        subst (λ k. IsMade k d) ((text_eq_iff key j).0 same)
          (subst (IsMade key) (some_injective here) v)
    | inr other ↦
        filled j d (
          sym (ap (λ b. if b then some c else lookup j m) other)
          ∙ sym (lookup-insert key j c m)
          ∙ h)
  ]

  empty-IsFilled : IsFilled []
  unfolding lookup
  empty-IsFilled key c h = absurd (none_not_some h)

  module _ (w : World S Subnet) (filled : IsFilled w.cache) (rules : List Text) where
    remember-IsFilled :
        (c : IpChecker Subnet)
        → IsMade (rule_set_key rules) c
        → IsFilled (remember e w (rule_set_key rules) c).cache
    unfolding remember
    remember-IsFilled c v = elim (Bool-cases (leb 5000 (length w.cache))) [
      | inl full ↦ rw full (insert-IsFilled (rule_set_key rules) c [] v empty-IsFilled)
      | inr room ↦ rw room (insert-IsFilled (rule_set_key rules) c w.cache v filled)
    ]

    remembered-Found :
        (o : Option (IpChecker Subnet))
        → new_ip_checker e.unicode e.net rules ≡ o
        → IsFilled (remembered e w (rule_set_key rules) o).0.cache
          × Found rules (remembered e w (rule_set_key rules) o).1
    unfolding rule_set_key
    remembered-Found none h = (filled, unparsed h)
    remembered-Found (some c) h =
        (remember-IsFilled c (parsed_entry rules c h), made c (parsed_entry rules c h))

    cached-Found :
        (o : Option (IpChecker Subnet))
        → lookup (rule_set_key rules) w.cache ≡ o
        → IsFilled (cached e w rules o).0.cache × Found rules (cached e w rules o).1
    unfolding rule_set_key
    cached-Found (some c) h = (filled, made c (filled _ c h))
    cached-Found none h = remembered-Found _ refl

    get_checker-Found :
        IsFilled (get_checker e w rules).0.cache × Found rules (get_checker e w rules).1
    unfolding get_checker
    get_checker-Found = elim (Bool-cases (is_nil rules)) [
      | inl empty ↦ rw empty (filled, asks_none empty)
      | inr some_rules ↦ rw some_rules (cached-Found (lookup (rule_set_key rules) w.cache) refl)
    ]

  Found-NotBlocked :
      (rules : List Text) (o : Option (IpChecker Subnet)) (ip : Text)
      → Found rules o
      → matches_ip e o ip ≡ false
      → NotBlocked rules ip
  Found-NotBlocked rules o ip (asks_none h) m = no_block_rules h
  Found-NotBlocked rules o ip (unparsed h) m = block_unparsed h
  Found-NotBlocked rules o ip (made c v) m = not_in_block c v m

  Found-Allowed :
      (rules : List Text) (o : Option (IpChecker Subnet)) (ip : Text)
      → Found rules o
      → misses_ip e o ip ≡ false
      → Allowed rules ip
  Found-Allowed rules o ip (asks_none h) m = no_allow_rules h
  Found-Allowed rules o ip (unparsed h) m = allow_unparsed h
  Found-Allowed rules o ip (made c v) m = in_allow c v (ground arith)

  pub Filtered-Address :
      (w : World S Subnet) (rt : Route) (r : Request)
      → IsFilled w.cache
      → Filtered e w rt r
      → Address rt r
  Filtered-Address w rt r filled (no_rules allow block) = record {
    not_blocked = no_block_rules block;
    allowed = no_allow_rules allow;
  }
  Filtered-Address w rt r filled (passes blocked missed) =
      let first = get_checker-Found w filled rt.ip_blocklist in
      let second = get_checker-Found (get_checker e w rt.ip_blocklist).0 first.0 rt.ip_allowlist in
      record {
        not_blocked = Found-NotBlocked rt.ip_blocklist _ _ first.1 blocked;
        allowed = Found-Allowed rt.ip_allowlist _ _ second.1 missed;
      }
