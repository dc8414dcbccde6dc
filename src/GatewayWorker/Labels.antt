-- ===== src/GatewayWorker/Labels.antt =====
-- gateway_provisioner.go, gatewayResourceSuffix: what the names of resources look like.
use elite_gate.Prelude.{
  ℕ, zero, suc, ◌≤◌, ◌≡◌, refl, ◌∙◌, inl, inr, Bool, true, false, ◌||◌, List, [], ◌∷◌, ◌++◌, leb,
  all, take, length, arith, Bool-cases,
}
use elite_gate.Text.{Text, Unicode, codes, is_empty, has_prefix, ends_with, trim_left, trim_right}
use elite_gate.GatewayWorker.Names.{
  is_name_byte, is_dash, write_rune, clean_runes, trim_dashes, id_runes, cleaned_id, short_or,
  gateway_resource_suffix, gateway_target_group_name, gateway_hostname,
}

abbrev pub is_label_byte : ℕ → Bool
is_label_byte c = is_name_byte c || is_dash c

-- A label of a host name: letters, digits and inner dashes, and at most n of them.
pub record IsLabel (n : ℕ) (s : Text) : Type 0 where
  pub bytes : all is_label_byte s ≡ true
  pub start : has_prefix s (codes "-") ≡ false
  pub end : ends_with b'-' s ≡ false
  pub nonempty : is_empty s ≡ false
  pub short : length s ≤ n

all-append :
    (p : ℕ → Bool) (xs ys : Text) → all p xs ≡ true → all p ys ≡ true → all p (xs ++ ys) ≡ true
all-append p [] ys h k = k
all-append p (x ∷ xs) ys h k = ground (arith, all-append p xs ys)

write_rune-all :
    (written : Text) (c : ℕ)
    → all is_label_byte written ≡ true
    → all is_label_byte (write_rune written c) ≡ true
write_rune-all written c h = elim (Bool-cases (is_name_byte c)) [
  | inl e ↦ rw e (all-append is_label_byte written (c ∷ []) h (ground arith))
  | inr e ↦ elim (Bool-cases (is_empty written)) [
    | inl k ↦ rw (e, k) h
    | inr k ↦ rw (e, k) (all-append is_label_byte written (b'-' ∷ []) h refl)
  ]
]

clean_runes-all :
    (cs : List ℕ) (written : Text)
    → all is_label_byte written ≡ true
    → all is_label_byte (clean_runes written cs) ≡ true
unfolding clean_runes
clean_runes-all [] written h = h
clean_runes-all (c ∷ cs) written h = clean_runes-all cs _ (write_rune-all written c h)

trim_left-all : (p drops : ℕ → Bool) (s : Text) → all p s ≡ true → all p (trim_left drops s) ≡ true
unfolding trim_left
trim_left-all p drops [] h = h
trim_left-all p drops (x ∷ xs) h = ground (arith, trim_left-all p drops xs)

trim_right-all :
    (p drops : ℕ → Bool) (s : Text) → all p s ≡ true → all p (trim_right drops s) ≡ true
unfolding trim_right
trim_right-all p drops [] h = h
trim_right-all p drops (x ∷ xs) h = ground (arith, trim_right-all p drops xs)

trim_left-start : (s : Text) → has_prefix (trim_left is_dash s) (codes "-") ≡ false
unfolding trim_left has_prefix
trim_left-start [] = refl
trim_left-start (x ∷ xs) = ground (arith, trim_left-start xs)

trim_right-start :
    (s : Text)
    → has_prefix s (codes "-") ≡ false
    → has_prefix (trim_right is_dash s) (codes "-") ≡ false
unfolding trim_right has_prefix
trim_right-start [] h = refl
trim_right-start (x ∷ xs) h = ground arith

trim_right-end : (s : Text) → ends_with b'-' (trim_right is_dash s) ≡ false
unfolding trim_right ends_with
trim_right-end [] = refl
trim_right-end (x ∷ xs) = ground (arith, trim_right-end xs)

trim_dashes-IsLabel :
    (s : Text)
    → all is_label_byte s ≡ true
    → is_empty (trim_dashes s) ≡ false
    → length (trim_dashes s) ≤ 20
    → IsLabel 20 (trim_dashes s)
unfolding trim_dashes
trim_dashes-IsLabel s h e l = record {
  bytes =
      trim_right-all is_label_byte is_dash (trim_left is_dash s)
        (trim_left-all is_label_byte is_dash s h);
  start = trim_right-start (trim_left is_dash s) (trim_left-start s);
  end = trim_right-end (trim_left is_dash s);
  nonempty = e;
  short = l;
}

cleaned_id-IsLabel :
    (u : Unicode) (id : Text)
    → is_empty (cleaned_id u id) ≡ false
    → length (cleaned_id u id) ≤ 20
    → IsLabel 20 (cleaned_id u id)
unfolding cleaned_id
cleaned_id-IsLabel u id =
    trim_dashes-IsLabel (clean_runes [] (id_runes u id)) (clean_runes-all (id_runes u id) [] refl)

names_are_labels : (s : Text) → all is_name_byte s ≡ true → all is_label_byte s ≡ true
names_are_labels [] h = refl
names_are_labels (x ∷ xs) h = ground (arith, names_are_labels xs)

name-start : (s : Text) → all is_name_byte s ≡ true → has_prefix s (codes "-") ≡ false
unfolding has_prefix
name-start [] h = refl
name-start (x ∷ xs) h = ground arith

name-end : (s : Text) → all is_name_byte s ≡ true → ends_with b'-' s ≡ false
unfolding ends_with
name-end [] h = refl
name-end (x ∷ []) h = ground arith
name-end (x ∷ y ∷ s) h = name-end (y ∷ s) (ground arith)

all-take : (p : ℕ → Bool) (n : ℕ) (s : Text) → all p s ≡ true → all p (take n s) ≡ true
all-take p zero s h = refl
all-take p (suc n) [] h = refl
all-take p (suc n) (x ∷ xs) h = ground (arith, all-take p n xs)

length-take : (n : ℕ) (s : Text) → length (take n s) ≤ n
length-take zero s = omega arith
length-take (suc n) [] = omega arith
length-take (suc n) (x ∷ xs) = omega (arith, length-take n xs)

take_nonempty : (n : ℕ) (s : Text) → is_empty s ≡ false → is_empty (take (suc n) s) ≡ false
take_nonempty n [] h = h
take_nonempty n (x ∷ xs) h = refl

short_or-IsLabel :
    (name other : Text)
    → (is_empty name ≡ false → length name ≤ 20 → IsLabel 20 name)
    → IsLabel 20 other
    → IsLabel 20 (short_or name other)
short_or-IsLabel name other h k = elim (Bool-cases (is_empty name)) [
  | inl e ↦ rw e k
  | inr e ↦ elim (Bool-cases (leb (length name) 20)) [
    | inl l ↦ rw (e, l) (h e (ground arith))
    | inr l ↦ rw (e, l) k
  ]
]

pub gateway_resource_suffix-IsLabel :
    (u : Unicode) (sha256_hex : Text → Text) (id : Text)
    → all is_name_byte (sha256_hex id) ≡ true
    → is_empty (sha256_hex id) ≡ false
    → IsLabel 20 (gateway_resource_suffix u sha256_hex id)
unfolding gateway_resource_suffix
gateway_resource_suffix-IsLabel u sha256_hex id h n =
    let w = all-take is_name_byte 12 (sha256_hex id) h in
    short_or-IsLabel _ _ (cleaned_id-IsLabel u id) (record {
      bytes = names_are_labels (take 12 (sha256_hex id)) w;
      start = name-start (take 12 (sha256_hex id)) w;
      end = name-end (take 12 (sha256_hex id)) w;
      nonempty = take_nonempty 11 (sha256_hex id) n;
      short = omega (arith, length-take 12 (sha256_hex id));
    })

ends_with-append :
    (b : ℕ) (xs ys : Text) → is_empty ys ≡ false → ends_with b (xs ++ ys) ≡ ends_with b ys
unfolding ends_with
ends_with-append b [] ys h = refl
ends_with-append b (x ∷ []) [] h = ground arith
ends_with-append b (x ∷ []) (y ∷ ys) h = refl
ends_with-append b (x ∷ z ∷ xs) ys h = ends_with-append b (z ∷ xs) ys h

-- The names of a gateway's resources: the target group's is a label of at most 26 bytes, and the
-- host name is a label of at most 23 bytes before a dot and the base domain. SHA-256 in hex gives
-- letters and digits, and at least one.
pub gateway_names-IsLabel :
    (u : Unicode) (sha256_hex : Text → Text) (id base_domain : Text)
    → all is_name_byte (sha256_hex id) ≡ true
    → is_empty (sha256_hex id) ≡ false
    → IsLabel 26 (gateway_target_group_name u sha256_hex id)
      × ((label : Text) × IsLabel 23 label
          × (gateway_hostname u sha256_hex id base_domain ≡ label ++ codes "." ++ base_domain))
unfolding gateway_target_group_name gateway_hostname has_prefix
gateway_names-IsLabel u sha256_hex id base_domain h n =
    let v = gateway_resource_suffix-IsLabel u sha256_hex id h n in
    let s = gateway_resource_suffix u sha256_hex id in
    (
      record {
        bytes = all-append is_label_byte (codes "eg-gw-") s refl v.bytes;
        start = refl;
        end = ends_with-append b'-' (codes "eg-gw-") s v.nonempty ∙ v.end;
        nonempty = refl;
        short = omega (arith, v.short);
      },
      (
        codes "gw-" ++ s,
        record {
          bytes = all-append is_label_byte (codes "gw-") s refl v.bytes;
          start = refl;
          end = ends_with-append b'-' (codes "gw-") s v.nonempty ∙ v.end;
          nonempty = refl;
          short = omega (arith, v.short);
        },
        refl,
      ),
    )
