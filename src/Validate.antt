-- ===== src/Validate.antt =====
-- pkg/util/validate.go: the shape of job names, storage classes, volume sizes and access modes.
pub mod Names
pub mod Sizes
mod Tests
use runai_cli.Prelude.{
  ℕ, String, len, Bool, true, false, ◌&&◌, ◌||◌, Option, none, some, codes, ltb, leb, ◌==◌, str_eq,
  if◌then◌else◌,
}
use runai_cli.Regex.{Regex, cls, seq, star, opt, plus, null, deriv, matches}

-- The errors, by the message that the code formats.
pub data Invalid : Type 0 where
  too_long bad_name bad_class bad_mode bad_size : Invalid

abbrev pub job_max_length : ℕ
job_max_length = 49

abbrev pub access_mode_read_only_param : String
access_mode_read_only_param = "ro"

abbrev pub access_mode_read_write_param : String
access_mode_read_write_param = "rw"

unfoldable pub is_digit : ℕ → Bool
is_digit c = leb b'0' c && leb c b'9'

-- [a-z0-9]
unfoldable pub is_alnum : ℕ → Bool
unfolding is_digit
is_alnum c = (leb b'a' c && leb c b'z') || is_digit c

-- [-a-z0-9]
unfoldable pub is_label_char : ℕ → Bool
unfolding is_alnum
is_label_char c = (c == b'-') || is_alnum c

-- [a-z0-9]([-a-z0-9]*[a-z0-9])?
unfoldable pub dns1123_label : Regex
unfolding is_alnum is_label_char
dns1123_label = seq (cls is_alnum) (opt (seq (star (cls is_label_char)) (cls is_alnum)))

-- [+-]
unfoldable pub is_sign : ℕ → Bool
is_sign c = (c == b'+') || (c == b'-')

-- [0-9.]
unfoldable pub is_amount_char : ℕ → Bool
unfolding is_digit
is_amount_char c = is_digit c || (c == b'.')

-- [eEinumkKMGTP]
unfoldable pub is_unit_char : ℕ → Bool
is_unit_char c =
    (c == b'e')
    || (c == b'E')
    || (c == b'i')
    || (c == b'n')
    || (c == b'u')
    || (c == b'm')
    || (c == b'k')
    || (c == b'K')
    || (c == b'M')
    || (c == b'G')
    || (c == b'T')
    || (c == b'P')

-- ([+-]?[0-9.]+)([eEinumkKMGTP]*[-+]?[0-9]*)
unfoldable pub resource_request : Regex
unfolding is_sign is_amount_char is_unit_char is_digit
resource_request =
    seq (seq (opt (cls is_sign)) (plus (cls is_amount_char)))
      (seq (star (cls is_unit_char)) (seq (opt (cls is_sign)) (star (cls is_digit))))

unfoldable pub validate_job_name : String → Option Invalid
unfolding dns1123_label matches
validate_job_name value =
    if ltb job_max_length (len value)
    then some too_long
    else if matches dns1123_label (codes value)
    then none
    else some bad_name

unfoldable pub validate_storage_class_name : String → Option Invalid
unfolding dns1123_label matches
validate_storage_class_name name =
    if str_eq name ""
    then none
    else if matches dns1123_label (codes name)
    then none
    else some bad_class

unfoldable pub validate_mount_read_only_flag : String → Option Invalid
validate_mount_read_only_flag flag =
    if str_eq flag ""
      || str_eq flag access_mode_read_only_param
      || str_eq flag access_mode_read_write_param
    then none
    else some bad_mode

unfoldable pub validate_storage_resource_request : String → Option Invalid
unfolding resource_request matches
validate_storage_resource_request request =
    if matches resource_request (codes request) then none else some bad_size
