-- ===== src/GatewayWorker/Names.antt =====
-- gateway_provisioner.go, gatewayResourceSuffix, gatewayTargetGroupName and gatewayHostname: the
-- names of a gateway's resources. SHA-256 in hex is a parameter.
use elite_gate.Prelude.{
  ℕ, Bool, ◌&&◌, ◌||◌, not, List, [], ◌∷◌, ◌++◌, if◌then◌else◌, leb, ◌==◌, take, length,
}
use elite_gate.Text.{
  Text, Unicode, codes, trim_space, to_lower, trim_prefix, runes_of, trim_left, trim_right,
  is_empty,
}

-- A letter or a digit of a name.
abbrev pub is_name_byte : ℕ → Bool
is_name_byte c = (leb b'a' c && leb c b'z') || (leb b'0' c && leb c b'9')

-- One turn of the loop, on what has been written so far.
abbrev pub write_rune : Text → ℕ → Text
write_rune written c =
    if is_name_byte c
    then written ++ c ∷ []
    else if is_empty written
    then written
    else written ++ b'-' ∷ []

unfoldable pub clean_runes : Text → List ℕ → Text
clean_runes written [] = written
clean_runes written (c ∷ cs) = clean_runes (write_rune written c) cs

abbrev pub is_dash : ℕ → Bool
is_dash c = c == b'-'

-- strings.Trim(s, "-")
unfoldable pub trim_dashes : Text → Text
unfolding trim_left trim_right
trim_dashes s = trim_right is_dash (trim_left is_dash s)

-- What the loop reads.
unfoldable pub id_runes : Unicode → Text → List ℕ
unfolding trim_space to_lower trim_prefix runes_of
id_runes u id =
    runes_of u
      (trim_prefix (trim_prefix (to_lower u (trim_space u id)) (codes "gw_")) (codes "gw-"))

unfoldable pub cleaned_id : Unicode → Text → Text
unfolding id_runes clean_runes trim_dashes
cleaned_id u id = trim_dashes (clean_runes [] (id_runes u id))

abbrev pub short_or : Text → Text → Text
short_or name other = if not (is_empty name) && leb (length name) 20 then name else other

module _ (u : Unicode) (sha256_hex : Text → Text) where
  unfoldable pub gateway_resource_suffix : Text → Text
  unfolding cleaned_id
  gateway_resource_suffix id = short_or (cleaned_id u id) (take 12 (sha256_hex id))

  unfoldable pub gateway_target_group_name : Text → Text
  unfolding gateway_resource_suffix
  gateway_target_group_name id = codes "eg-gw-" ++ gateway_resource_suffix id

  unfoldable pub gateway_hostname : Text → Text → Text
  unfolding gateway_resource_suffix
  gateway_hostname id base_domain =
      codes "gw-" ++ gateway_resource_suffix id ++ codes "." ++ base_domain
