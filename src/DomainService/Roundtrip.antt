-- ===== src/DomainService/Roundtrip.antt =====
-- custom_domain_service.go: a domain that is registered and then verified.
use elite_gate.Prelude.{
  ℕ, ◌≡◌, refl, sym, ◌∙◌, ap, Bool, true, false, ◌&&◌, ◌||◌, List, [], ◌∷◌, ◌++◌, Option, none,
  some, if◌then◌else◌, leb, ◌==◌, all, length, arith, Any, here, some_injective, there,
  true_not_false,
}
use mathlib.Core.Path.{subst}
use elite_gate.Text.{Text, is_empty, text_eq, trim_prefix, trim_space}
use elite_gate.Text.Laws.{text_eq_refl, has_prefix-append, trim_prefix-append}
use elite_gate.Text.Trim.{all-map, is_plain_byte, trim_space-plain}
use elite_gate.Table.{find}
use elite_gate.Domain.{CustomDomain, is_verified, is_active}
use elite_gate.DomainRepo.{Store, database_error}
use elite_gate.DomainRepo.Requests.{
  Reply, row, refused, owned, get_by_id_for_project, update_returning, mark_verified, set_verified,
}
use elite_gate.DomainRepo.Creation.{hostname_conflict, create_fails, create, new_domain}
use elite_gate.DomainService.{
  DomainEnv, txt_records, Served, serves_domain, load_domain, served, verification_prefix,
  record_name_of, VerificationRecord, Created, created, not_created, registered, register_with,
  register_unless, register_hostname, create_custom_domain, matches_token,
  contains_matching_verification_token, verify_by_txt, verify_loaded, verify_custom_domain,
}

-- The alphabet of base64.RawURLEncoding.
abbrev pub is_token_byte : ℕ → Bool
is_token_byte c =
    (leb b'a' c && leb c b'z')
    || (leb b'A' c && leb c b'Z')
    || (leb b'0' c && leb c b'9')
    || c == b'-'
    || c == b'_'

token-plain : (c : ℕ) → is_token_byte c ≡ true → is_plain_byte c ≡ true
token-plain c h = ground arith

plain-append :
    (xs ys : Text)
    → all is_plain_byte xs ≡ true
    → all is_plain_byte ys ≡ true
    → all is_plain_byte (xs ++ ys) ≡ true
plain-append [] ys h k = k
plain-append (x ∷ xs) ys h k = ground (arith, plain-append xs ys)

module _ (e : DomainEnv) (token : Text) (filled : is_empty token ≡ false)
    (plain : all is_token_byte token ≡ true) where
  trimmed_value : trim_space e.unicode (verification_prefix ++ token) ≡ verification_prefix ++ token
  trimmed_value = trim_space-plain e.unicode (verification_prefix ++ token) (
      plain-append verification_prefix token refl
        (all-map is_token_byte is_plain_byte token token-plain plain))

  trimmed_token :
      trim_space e.unicode (trim_prefix (verification_prefix ++ token) verification_prefix) ≡ token
  trimmed_token =
      ap (trim_space e.unicode) (trim_prefix-append verification_prefix token)
      ∙ (trim_space-plain e.unicode token
          (all-map is_token_byte is_plain_byte token token-plain plain))

  value-matches : matches_token e (e.sha256_hex token) (verification_prefix ++ token) ≡ true
  unfolding matches_token
  value-matches =
      rw (trimmed_value, trimmed_token, has_prefix-append verification_prefix token, filled)
        (self (e.sha256_hex token))
    where
      self : (t : Text) → ((length t == length t) && text_eq t t) ≡ true
      self t = ground (arith, text_eq_refl t)

  contains-value :
      (records : List Text)
      → Any (λ t. t ≡ verification_prefix ++ token) records
      → contains_matching_verification_token e records (e.sha256_hex token) ≡ true
  unfolding contains_matching_verification_token
  contains-value [] m = elim m [ ]
  contains-value (t ∷ ts) (here h) =
      let found =
        subst (λ x. matches_token e (e.sha256_hex token) x ≡ true) (sym h) value-matches in
      rw found refl
  contains-value (t ∷ ts) (there m) = ground (arith, contains-value ts m)

-- What a registration that is answered has done.
pub record Registered (e : DomainEnv) (db : Store) (project id : ℕ) (v : VerificationRecord)
    (after : Store) : Type 0 where
  pub hostname : Text
  pub token : Text
  pub drawn : e.token ≡ some token
  pub new_id : e.new_id ≡ id
  pub answer : record { name = record_name_of hostname; value = verification_prefix ++ token } ≡ v
  pub up : db.up ≡ true
  pub stored : after ≡ record db {
    rows =
        new_domain e.db_now e.new_id project hostname
          (e.sha256_hex token)
          (record_name_of hostname)
          e.gateway_public_host
        ∷ db.rows;
  }

abbrev is_created : Created → Bool
is_created (created id v) = true
is_created (not_created err) = false

refused_creation :
    {W : Type 0} (c : Created) (id : ℕ) (v : VerificationRecord)
    → is_created c ≡ false
    → c ≡ created id v
    → W
refused_creation c id v h k = absurd (true_not_false (sym (ap is_created k) ∙ h))

created-id : (a b : ℕ) (v w : VerificationRecord) → created a v ≡ created b w → a ≡ b
created-id a b v w h = ap id_of h
  where
    id_of : Created → ℕ
    id_of (created i x) = i
    id_of (not_created err) = 0

created-record : (a b : ℕ) (v w : VerificationRecord) → created a v ≡ created b w → v ≡ w
created-record a b v w h = ap record_of h
  where
    record_of : Created → VerificationRecord
    record_of (created i x) = x
    record_of (not_created err) = v

module _ (e : DomainEnv) (db : Store) (project id : ℕ) (v : VerificationRecord) where
  insert-Registered :
      (hostname token : Text) (broken taken : Bool)
      → e.token ≡ some token
      → (broken ≡ false → db.up ≡ true)
      → (registered e
          (record { name = record_name_of hostname; value = verification_prefix ++ token })
          (if broken
            then (db, some (create_fails database_error))
            else if taken
            then (db, some hostname_conflict)
            else (
              record db {
                rows =
                    new_domain e.db_now e.new_id project hostname
                      (e.sha256_hex token)
                      (record_name_of hostname)
                      e.gateway_public_host
                    ∷ db.rows;
              },
              none,
            ))).1
        ≡ created id v
      → Registered e db project id v
          (registered e
            (record { name = record_name_of hostname; value = verification_prefix ++ token })
            (if broken
              then (db, some (create_fails database_error))
              else if taken
              then (db, some hostname_conflict)
              else (
                record db {
                  rows =
                      new_domain e.db_now e.new_id project hostname
                        (e.sha256_hex token)
                        (record_name_of hostname)
                        e.gateway_public_host
                      ∷ db.rows;
                },
                none,
              ))).0
  insert-Registered hostname token true taken t up h = refused_creation _ id v refl h
  insert-Registered hostname token false true t up h = refused_creation _ id v refl h
  insert-Registered hostname token false false t up h = record {
    hostname = hostname;
    token = token;
    drawn = t;
    new_id = created-id _ _ _ _ h;
    answer = created-record _ _ _ _ h;
    up = up refl;
    stored = refl;
  }

  register_with-Registered :
      (hostname : Text) (token : Option Text)
      → e.token ≡ token
      → (register_with e db project hostname token).1 ≡ created id v
      → Registered e db project id v (register_with e db project hostname token).0
  unfolding create
  register_with-Registered hostname none t h = refused_creation _ id v refl h
  register_with-Registered hostname (some token) t h =
      insert-Registered hostname token _ _ t (λ k. ground arith) h

  register_unless-Registered :
      (hostname : Text) (taken : Option Bool)
      → (register_unless e db project hostname taken).1 ≡ created id v
      → Registered e db project id v (register_unless e db project hostname taken).0
  register_unless-Registered hostname none h = refused_creation _ id v refl h
  register_unless-Registered hostname (some true) h = refused_creation _ id v refl h
  register_unless-Registered hostname (some false) h =
      register_with-Registered hostname e.token refl h

  register_hostname-Registered :
      (hostname : Option Text)
      → (register_hostname e db project hostname).1 ≡ created id v
      → Registered e db project id v (register_hostname e db project hostname).0
  register_hostname-Registered none h = refused_creation _ id v refl h
  register_hostname-Registered (some hostname) h = register_unless-Registered hostname _ h

  pub create_custom_domain-Registered :
      (raw_hostname : Text)
      → (create_custom_domain e db project raw_hostname).1 ≡ created id v
      → Registered e db project id v (create_custom_domain e db project raw_hostname).0
  unfolding create_custom_domain
  create_custom_domain-Registered raw_hostname h = register_hostname-Registered _ h

module _ (db : Store) (new : CustomDomain) (up : db.up ≡ true) (live : new.deleted_at ≡ none) where
  abbrev with_new : Store
  with_new = record db { rows = new ∷ db.rows }

  new-owned : owned new.id new.project_id new ≡ true
  new-owned = ground arith

  find-new : find (owned new.id new.project_id) (new ∷ db.rows) ≡ some new
  unfolding find
  find-new = rw new-owned refl

  load-new : load_domain with_new new.id new.project_id ≡ row new
  unfolding load_domain get_by_id_for_project
  load-new = rw (up, find-new) refl

  mark-new :
      (now : ℕ) → (mark_verified with_new now new.id new.project_id).1 ≡ row (set_verified now new)
  unfolding mark_verified update_returning
  mark-new now = rw (up, find-new) refl

  served-row : (o : Store × Reply) (r : CustomDomain) → o.1 ≡ row r → (served o).1 ≡ serves_domain r
  served-row (d, row s) r h = ap reply_of h
    where
      reply_of : Reply → Served
      reply_of (row t) = serves_domain t
      reply_of (refused err) = serves_domain r
  served-row (d, refused err) r h = absurd (true_not_false (ap is_row h))
    where
      is_row : Reply → Bool
      is_row (row t) = false
      is_row (refused err) = true

  verify-new :
      (e : DomainEnv) (records : List Text)
      → (is_verified new.status || is_active new.status) ≡ false
      → e.lookup_txt new.verification_record_name ≡ txt_records records
      → contains_matching_verification_token e records new.verification_token_hash ≡ true
      → (verify_custom_domain e with_new new.project_id new.id).1
        ≡ serves_domain (set_verified e.db_now new)
  unfolding verify_custom_domain verify_by_txt
  verify-new e records fresh found proven =
      ap (λ o. (verify_loaded e with_new o).1) load-new
      ∙ rw (fresh, found, proven) (served-row _ _ (mark-new e.db_now))

-- A domain that CreateCustomDomain answers can be verified: once the resolver finds the answered
-- value under the answered name, VerifyCustomDomain, at any clock on the store that the
-- creation left, answers the domain as verified. The token is not empty and of the alphabet of
-- base64.RawURLEncoding, and SHA-256 is the same function at both times.
pub create_then_verify :
    (e later : DomainEnv) (db : Store) (project id : ℕ) (raw_hostname token : Text)
    (v : VerificationRecord) (records : List Text)
    → (create_custom_domain e db project raw_hostname).1 ≡ created id v
    → e.token ≡ some token
    → is_empty token ≡ false
    → all is_token_byte token ≡ true
    → later.sha256_hex ≡ e.sha256_hex
    → later.lookup_txt v.name ≡ txt_records records
    → Any (λ t. t ≡ v.value) records
    → (d : CustomDomain) × ((verify_custom_domain later
          (create_custom_domain e db project raw_hostname).0
          project
          id).1
        ≡ serves_domain d)
      × (d.id ≡ id)
      × (is_verified d.status ≡ true)
unfolding set_verified
create_then_verify e later db project id raw_hostname token v records made drawn filled plain same
      found published =
    let r = create_custom_domain-Registered e db project id v raw_hostname made in
    let new =
      new_domain e.db_now e.new_id project r.hostname (e.sha256_hex r.token)
        (record_name_of r.hostname) e.gateway_public_host in
    let token_is : r.token ≡ token = some_injective (sym r.drawn ∙ drawn) in
    let listed : Any (λ t. t ≡ verification_prefix ++ token) records =
      subst (λ t. Any (λ x. x ≡ verification_prefix ++ t) records) token_is
        (subst (λ w. Any (λ x. x ≡ w.value) records) (sym r.answer) published) in
    let hash_is : later.sha256_hex token ≡ e.sha256_hex r.token =
      ap (λ f. f token) same ∙ ap e.sha256_hex (sym token_is) in
    let proven =
      subst (λ h. contains_matching_verification_token later records h ≡ true) hash_is
        (contains-value later token filled plain records listed) in
    let there_is =
      subst (λ w. later.lookup_txt w.name ≡ txt_records records) (sym r.answer) found in
    (
      set_verified later.db_now new,
      subst
          (λ d.
            (verify_custom_domain later d project id).1
            ≡ serves_domain (set_verified later.db_now new))
          (sym r.stored)
          (subst
            (λ i.
              (verify_custom_domain later (record db { rows = new ∷ db.rows }) project i).1
              ≡ serves_domain (set_verified later.db_now new))
            r.new_id (verify-new db new r.up refl later records refl there_is proven)),
      r.new_id,
      refl,
    )
