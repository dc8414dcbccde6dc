-- ===== src/Hostname.antt =====
-- internal/helper/domain.go: the host names of custom domains. net.ParseIP is a parameter.
pub mod Laws
use elite_gate.Prelude.{
  ℕ, Bool, true, false, ◌&&◌, ◌||◌, not, List, Option, none, some, if◌then◌else◌, ltb, leb, ◌==◌,
  all, any, length,
}
use elite_gate.Text.{
  Text, Unicode, codes, is_empty, text_eq, has_prefix, ends_with, contains, has_byte, split,
  trim_space, to_lower, trim_suffix,
}

abbrev pub is_hostname_byte : ℕ → Bool
is_hostname_byte c = (leb b'a' c && leb c b'z') || (leb b'0' c && leb c b'9') || c == b'-'

-- A byte of a character outside ASCII is none of these either.
unfoldable pub valid_hostname_label : Text → Bool
valid_hostname_label label =
    not (is_empty label)
    && leb (length label) 63
    && not (has_prefix label (codes "-"))
    && not (ends_with b'-' label)
    && all is_hostname_byte label

-- What NormalizeHostname looks for before it splits the name.
unfoldable pub looks_like_url : Text → Bool
looks_like_url s =
    contains s (codes "://")
    || has_byte b'/' s
    || has_byte b'?' s
    || has_byte b'#' s
    || has_byte b':' s
    || has_byte b'*' s

unfoldable pub accepted : (Text → Bool) → Text → Bool
accepted parses_ip s =
    not (is_empty s)
    && leb (length s) 253
    && not (looks_like_url s)
    && not (text_eq s (codes "localhost"))
    && not (parses_ip s)
    && leb 3 (length (split b'.' s))
    && all valid_hostname_label (split b'.' s)

abbrev pub cleaned_hostname : Unicode → Text → Text
cleaned_hostname u input = trim_suffix b'.' (to_lower u (trim_space u input))

-- none for ErrInvalidHostname.
unfoldable pub normalize_hostname : Unicode → (Text → Bool) → Text → Option Text
normalize_hostname u parses_ip input =
    let hostname = cleaned_hostname u input in
    if accepted parses_ip hostname then some hostname else none
