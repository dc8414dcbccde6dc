-- ===== src/Middleware/Stops.antt =====
-- What a middleware does to the state when it answers itself, and the cache of the IP filter.
use elite_gate.Prelude.{
  inl, inr, Bool-cases, suc, ◌≤◌, ◌≡◌, refl, Bool, true, false, [], ◌∷◌, Option, none, some,
  if◌then◌else◌, length, List, arith, ◌∙◌, leb,
}
use elite_gate.Text.{Text}
use elite_gate.TextMap.{TextMap, insert, lookup}
use elite_gate.Middleware.IpRules.{rule_set_key}
use elite_gate.Middleware.{
  IpChecker, GatewayConfig, World, Reply, error_reply, rate_reply, no_content, proxied, set_header,
  add_header,
}
use elite_gate.Middleware.IpFilter.{is_nil, remember, remembered, cached, get_checker}

abbrev pub is_answer : Reply → Bool
is_answer (error_reply status message) = true
is_answer no_content = true
is_answer (rate_reply limit reset) = false
is_answer (proxied r) = false

abbrev pub IsSmall {ℓ} : {V : Type ℓ} → TextMap V → Type 0
IsSmall m = length m ≤ 5000

pub if_holds :
    {A : Type 0} (P : A → Type 0) (b : Bool) (x y : A)
    → (b ≡ true → P x)
    → (b ≡ false → P y)
    → P (if b then x else y)
if_holds P true x y h k = h refl
if_holds P false x y h k = k refl

length-insert :
    {V : Type 0} (k : Text) (v : V) (m : TextMap V) → length (insert k v m) ≤ suc (length m)
unfolding insert
length-insert k v [] = omega arith
length-insert k v ((j, w) ∷ m) = ground (arith, length-insert k v m)

module _ {S Subnet : Type 0} where
  -- The limiter is as it was, and the cache within its bound if it was.
  pub record Stays (w v : World S Subnet) : Type 0 where
    pub limiter_kept : v.limiter_state ≡ w.limiter_state
    pub cache_kept : IsSmall w.cache → IsSmall v.cache

  pub stays : (w : World S Subnet) → Stays w w
  stays w = record { limiter_kept = refl; cache_kept = λ h. h }

  pub Stays-trans : (u v w : World S Subnet) → Stays u v → Stays v w → Stays u w
  Stays-trans u v w h k = record {
    limiter_kept = k.limiter_kept ∙ h.limiter_kept;
    cache_kept = λ b. k.cache_kept (h.cache_kept b);
  }

  pub set_header-Stays :
      (name value : Text) (w : World S Subnet) → Stays w (set_header name value w)
  unfolding set_header
  set_header-Stays name value w = record { limiter_kept = refl; cache_kept = λ h. h }

  pub add_header-Stays :
      (name value : Text) (w : World S Subnet) → Stays w (add_header name value w)
  unfolding add_header
  add_header-Stays name value w = record { limiter_kept = refl; cache_kept = λ h. h }

module _ {S Ip Subnet : Type 0} (e : GatewayConfig S Ip Subnet) (w : World S Subnet) where
  remember-Stays : (key : Text) (c : IpChecker Subnet) → Stays w (remember e w key c)
  unfolding remember
  remember-Stays key c =
      if_holds (Stays w) (leb 5000 (length w.cache)) _ _
        (λ full. record {
          limiter_kept = refl;
          cache_kept = λ h. omega (arith, length-insert key c []);
        })
        (λ room. record {
          limiter_kept = refl;
          cache_kept = λ h. ground (arith, length-insert key c w.cache);
        })

  remembered-Stays : (key : Text) (o : Option (IpChecker Subnet)) → Stays w (remembered e w key o).0
  remembered-Stays key none = stays w
  remembered-Stays key (some c) = remember-Stays key c

  cached-Stays :
      (rules : List Text) (o : Option (IpChecker Subnet)) → Stays w (cached e w rules o).0
  cached-Stays rules (some c) = stays w
  cached-Stays rules none = remembered-Stays _ _

  pub get_checker-Stays : (rules : List Text) → Stays w (get_checker e w rules).0
  unfolding get_checker
  get_checker-Stays rules = elim (Bool-cases (is_nil rules)) [
    | inl n ↦ rw n (stays w)
    | inr n ↦ rw n (cached-Stays rules (lookup (rule_set_key rules) w.cache))
  ]
