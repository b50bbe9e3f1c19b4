-- ===== src/Validation.antt =====
-- Validation of a PRStack: controllers/validation.go. A pattern is a tree of Regex; as every pattern
-- is valid, the branch for a pattern that does not compile is not there.
pub mod Classes
pub mod Domain
pub mod Parts
pub mod Accepts
pub mod Safety
pub mod Bounds
use Prim.Native.Char.{code}
use Prim.Native.String.{len}
use Prim.Native.String as str
use pishop_operator.Base.{
  ℕ, ℤ, pos, negsuc, String, List, [], ◌∷◌, Option, none, some, Bool, true, false, not, ◌&&◌, ◌||◌,
  concat, if◌then◌else◌, str_eq, ltb, leb, ◌==◌, length, map, push,
}
use pishop_operator.Api.{PrStack, ResourceLimits, BackupConfig}
use pishop_operator.Client.{Error, Reason}
use pishop_operator.Regex.{Regex, Class, plus, optional, up_to, match_string}
use pishop_operator.Stack.Secrets.{join}

pub record ValidationError : Type 0 where
  pub field : String
  pub message : String

-- `Error()`
unfoldable pub error_text : ValidationError → String
error_text e = concat ("validation error for field '" ∷ e.field ∷ "': " ∷ e.message ∷ [])

abbrev pub invalid : String → String → Option ValidationError
invalid field message = some (record { field = field; message = message })

-- A check, and the rest of the checks where it passes.
abbrev pub unless : Bool → Option ValidationError → Option ValidationError → Option ValidationError
unless fails error rest = if fails then error else rest

abbrev pub digit : Class
digit = (b'0', b'9') ∷ []

abbrev pub letter_or_digit : Class
letter_or_digit = (b'a', b'z') ∷ (b'A', b'Z') ∷ (b'0', b'9') ∷ []

abbrev pub tag_character : Class
tag_character =
    (b'a', b'z') ∷ (b'A', b'Z') ∷ (b'0', b'9') ∷ (b'.', b'.') ∷ (b'_', b'_') ∷ (b'-', b'-') ∷ []

abbrev pub label_character : Class
label_character = (b'a', b'z') ∷ (b'A', b'Z') ∷ (b'0', b'9') ∷ (b'-', b'-') ∷ []

abbrev pub dot : Class
dot = (b'.', b'.') ∷ []

-- `^\d+$`
unfoldable pub pr_number_pattern : Regex
pr_number_pattern = plus (Regex.one digit)

-- `^[a-zA-Z0-9][a-zA-Z0-9._-]*$`
unfoldable pub image_tag_pattern : Regex
image_tag_pattern = Regex.seq (Regex.one letter_or_digit) (Regex.star (Regex.one tag_character))

-- `[a-zA-Z0-9]([a-zA-Z0-9\-]{0,61}[a-zA-Z0-9])?`
unfoldable pub label_pattern : Regex
label_pattern =
    Regex.seq (Regex.one letter_or_digit)
      (optional (Regex.seq (up_to 61 (Regex.one label_character)) (Regex.one letter_or_digit)))

-- A label, and any number of labels behind a dot each.
unfoldable pub domain_pattern : Regex
unfolding label_pattern
domain_pattern = Regex.seq label_pattern (Regex.star (Regex.seq (Regex.one dot) label_pattern))

unfoldable pub validate_pr_number : String → Option ValidationError
unfolding pr_number_pattern
validate_pr_number pr_number =
    unless (str_eq pr_number "") (invalid "prNumber" "PR number is required") (
      unless (not (match_string pr_number_pattern pr_number))
        (invalid "prNumber" "PR number must be numeric")
        (unless (ltb 10 (len pr_number)) (invalid "prNumber" "PR number too long (max 10 digits)")
          none))

unfoldable pub validate_image_tag : String → Option ValidationError
unfolding image_tag_pattern
validate_image_tag image_tag =
    unless (str_eq image_tag "") (invalid "imageTag" "image tag cannot be empty") (
      unless (not (match_string image_tag_pattern image_tag))
        (invalid "imageTag" "image tag contains invalid characters")
        (unless (ltb 128 (len image_tag))
          (invalid "imageTag" "image tag too long (max 128 characters)") none))

unfoldable pub validate_custom_domain : String → Option ValidationError
unfolding domain_pattern
validate_custom_domain domain =
    unless (str_eq domain "") (invalid "customDomain" "custom domain cannot be empty") (
      unless (not (match_string domain_pattern domain))
        (invalid "customDomain" "invalid domain format")
        (unless (ltb 253 (len domain))
          (invalid "customDomain" "domain too long (max 253 characters)") none))

-- `unicode.IsSpace`
unfoldable pub is_space : ℕ → Bool
is_space c =
    (leb 9 c && leb c 13)
    || c == 0x20
    || c == 0x85
    || c == 0xa0
    || c == 0x1680
    || (leb 0x2000 c && leb c 0x200a)
    || c == 0x2028
    || c == 0x2029
    || c == 0x202f
    || c == 0x205f
    || c == 0x3000

-- Whether a field goes on with this text.
unfoldable pub in_field : String → Bool
unfolding is_space
in_field String.[] = false
in_field (String.◌∷◌ c s) = not (is_space (code c))

-- `strings.Fields`
unfoldable pub fields : String → List String
unfolding is_space in_field
fields String.[] = []
fields (String.◌∷◌ c s) =
    let rest = fields s in
    if is_space (code c) then rest else if in_field s then push c rest else (str.◌∷◌ c "" ∷ rest)

-- The checks of the retention, whose days are an int.
unfoldable pub validate_retention : ℤ → Option ValidationError
validate_retention (negsuc n) =
    invalid "backupConfig.retentionDays" "retention days cannot be negative"
validate_retention (pos n) =
    unless (ltb 3650 n) (invalid "backupConfig.retentionDays" "retention days too high (max 3650)")
      none

-- `if err := check; err != nil { return err }` and the rest.
abbrev pub first_error : Option ValidationError → Option ValidationError → Option ValidationError
first_error (some e) rest = some e
first_error none rest = rest

-- `errors = append(errors, err)`, where there is an error.
abbrev pub add_error : Option ValidationError → List ValidationError → List ValidationError
add_error none errors = errors
add_error (some e) errors = e ∷ errors

-- All errors in one text, as `%v` prints a slice of them.
unfoldable pub combine : List ValidationError → Option Error
unfolding error_text
combine [] = none
combine (e ∷ es) = some (record {
  reason = Reason.unspecified;
  text = concat ("validation failed: [" ∷ join " " (map error_text (e ∷ es)) ∷ "]" ∷ []);
})

-- `resource.ParseQuantity` is a parameter: the error that it gives for a text.
module _ (parse_quantity : String → Option Error) where
  unfoldable pub validate_resource_quantity : String → String → Option ValidationError
  validate_resource_quantity quantity field_name =
      unless (str_eq quantity "") (invalid field_name "resource quantity cannot be empty")
        (elim (parse_quantity quantity) [
          | none ↦ none
          | some e ↦
              invalid field_name (concat ("invalid resource quantity format: " ∷ e.text ∷ []))
        ])

  -- A quantity that is checked only where it is given.
  unfoldable pub validate_given_quantity : String → String → Option ValidationError
  unfolding validate_resource_quantity
  validate_given_quantity quantity field_name =
      if str_eq quantity "" then none else validate_resource_quantity quantity field_name

  unfoldable pub validate_resource_limits : ResourceLimits → Option ValidationError
  unfolding validate_given_quantity
  validate_resource_limits limits =
      first_error (validate_given_quantity limits.cpu_limit "cpuLimit") (
        first_error (validate_given_quantity limits.memory_limit "memoryLimit")
          (validate_given_quantity limits.storage_limit "storageLimit"))

  unfoldable pub validate_backup_config : BackupConfig → Option ValidationError
  unfolding fields validate_retention validate_given_quantity
  validate_backup_config config =
      unless
        (config.enabled
          && not (str_eq config.schedule "")
          && not (length (fields config.schedule) == 5))
        (invalid "backupConfig.schedule" "invalid cron schedule format (expected 5 fields)")
        (first_error (validate_retention config.retention_days)
          (validate_given_quantity config.storage_size "backupConfig.storageSize"))

  -- The errors of the parts that are given, in order.
  unfoldable pub validation_errors : PrStack → List ValidationError
  unfolding validate_pr_number validate_image_tag validate_custom_domain validate_resource_limits
      validate_backup_config
  validation_errors x = add_error (validate_pr_number x.spec.pr_number) (
      add_error (if str_eq x.spec.image_tag "" then none else validate_image_tag x.spec.image_tag) (
        add_error
          (if str_eq x.spec.custom_domain ""
            then none
            else validate_custom_domain x.spec.custom_domain)
          (add_error
            (elim (x.spec.resource_limits) [ none ↦ none | some l ↦ validate_resource_limits l ])
            (add_error
              (elim (x.spec.backup_config) [ none ↦ none | some c ↦ validate_backup_config c ])
              []))))

  -- `ValidatePRStack`
  unfoldable pub validate_pr_stack : PrStack → Option Error
  unfolding validation_errors combine
  validate_pr_stack x = combine (validation_errors x)
