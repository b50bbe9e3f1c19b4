-- ===== src/Validation/Parts.antt =====
-- What the checks of a PRStack's parts accept: its number, tag, domain, limits and backups.
use Prim.Native.String.{String, len}
use mathlib.Core.Path.{subst}
use text.Mathlib.TextEquality.{eq_iff}
use pishop_operator.Base.{
  concat, ℤ, pos, negsuc, [], ◌∷◌, Option, none, some, Bool, true, false, not, ◌&&◌, ◌≡◌, ◌≢◌, refl,
  ◌↔◌, arith, ◌≤◌, str_eq, ltb, ◌==◌, length, if◌then◌else◌,
}
use pishop_operator.Api.{ResourceLimits, BackupConfig}
use pishop_operator.Client.{Error}
use pishop_operator.Naming.Isolation.{AllDigits}
use pishop_operator.Regex.{match_string}
use pishop_operator.Validation.{
  unless, invalid, ValidationError, validate_pr_number, validate_image_tag, validate_custom_domain,
  validate_resource_quantity, validate_given_quantity, validate_resource_limits, validate_retention,
  validate_backup_config, fields, first_error, letter_or_digit, tag_character, pr_number_pattern,
  image_tag_pattern, domain_pattern,
}
use pishop_operator.Validation.Classes.{
  AllIn, StartsIn, pr_number_pattern-AllDigits, image_tag_pattern-AllIn,
}
use pishop_operator.Validation.Domain.{IsDomain, IsDomain-nonempty, domain_pattern-IsDomain}

-- One to ten digits.
abbrev pub IsNumber : String → Type 0
IsNumber s = (s ≢ "") × (AllDigits s × (len s ≤ 10))

-- A letter or digit, then characters of a tag, 128 bytes at most.
abbrev pub IsTag : String → Type 0
IsTag s = StartsIn letter_or_digit s × (AllIn tag_character s × (len s ≤ 128))

abbrev pub IsShortDomain : String → Type 0
IsShortDomain s = IsDomain s × (len s ≤ 253)

-- The three checks of a text pass where it is not empty, matches and is short enough.
three_checks :
    (empty matched long : Bool) (e f g : ValidationError)
    → (unless empty (some e) (unless (not matched) (some f) (unless long (some g) none)) ≡ none)
      ↔ ((empty ≡ false) × ((matched ≡ true) × (long ≡ false)))
three_checks empty matched long e f g = (λ h. ground arith, λ h. ground (arith, h.0, h.1.0, h.1.1))

pub IsNumber-accepts : (s : String) → (validate_pr_number s ≡ none) ↔ IsNumber s
unfolding validate_pr_number
IsNumber-accepts s =
    let (digits, back) = pr_number_pattern-AllDigits s in
    let (passed, passes) =
      three_checks (str_eq s "") (match_string pr_number_pattern s) (ltb 10 (len s)) _ _ _ in
    (
      λ h.
          let (_, (matched, short)) = passed h in
          ((digits matched).0, ((digits matched).1, ground arith)),
      λ h. passes (ground (arith, eq_iff s "", h.0), (back (h.0, h.1.0), ground (arith, h.1.1))),
    )

pub IsTag-accepts : (s : String) → (validate_image_tag s ≡ none) ↔ IsTag s
unfolding validate_image_tag
IsTag-accepts s =
    let (there, back) = image_tag_pattern-AllIn s in
    let (passed, passes) =
      three_checks (str_eq s "") (match_string image_tag_pattern s) (ltb 128 (len s)) _ _ _ in
    (
      λ h.
          let (_, (matched, short)) = passed h in
          ((there matched).0, ((there matched).1, ground arith)),
      λ h.
          let filled : s ≢ "" = λ e. subst (StartsIn letter_or_digit) e h.0 in
          passes (ground (arith, eq_iff s "", filled), (back (h.0, h.1.0), ground (arith, h.1.1))),
    )

pub IsShortDomain-accepts : (s : String) → (validate_custom_domain s ≡ none) ↔ IsShortDomain s
unfolding validate_custom_domain
IsShortDomain-accepts s =
    let (there, back) = domain_pattern-IsDomain s in
    let (passed, passes) =
      three_checks (str_eq s "") (match_string domain_pattern s) (ltb 253 (len s)) _ _ _ in
    (
      λ h. let (_, (matched, short)) = passed h in (there matched, ground arith),
      λ h.
          passes
            (ground (arith, eq_iff s "", IsDomain-nonempty s h.0), (back h.0, ground (arith, h.1))),
    )

-- A quantity that is given is one for the parser.
module _ (parse_quantity : String → Option Error) where
  abbrev pub IsQuantity : String → Type 0
  IsQuantity text = str_eq text "" ≡ false → parse_quantity text ≡ none

  IsQuantity-accepts :
      (text field : String)
      → (validate_given_quantity parse_quantity text field ≡ none) ↔ IsQuantity text
  unfolding validate_given_quantity validate_resource_quantity
  IsQuantity-accepts text field = by_cases (str_eq text "") (parse_quantity text)
    where
      by_cases :
          (b : Bool) (o : Option Error)
          → ((if b
                then none
                else unless b (invalid field "resource quantity cannot be empty") (elim o [
                  | none ↦ none
                  | some e ↦
                      invalid field (concat ("invalid resource quantity format: " ∷ e.text ∷ []))
                ]))
              ≡ none)
            ↔ (b ≡ false → o ≡ none)
      by_cases true o = (λ h e. cc, λ h. refl)
      by_cases false none = (λ h e. refl, λ h. refl)
      by_cases false (some e) = (λ h f. cc, λ h. let g : some e ≡ none = h refl in cc)

  both_none : (a b : Option ValidationError) → (first_error a b ≡ none) ↔ ((a ≡ none) × (b ≡ none))
  both_none none b = (λ h. (refl, h), λ h. h.1)
  both_none (some e) b = (λ h. cc, λ h. h.0)

  abbrev pub AreQuantities : ResourceLimits → Type 0
  AreQuantities l =
      IsQuantity l.cpu_limit × (IsQuantity l.memory_limit × IsQuantity l.storage_limit)

  pub limits_accept :
      (l : ResourceLimits) → (validate_resource_limits parse_quantity l ≡ none) ↔ AreQuantities l
  unfolding validate_resource_limits
  limits_accept l =
      let (outer, outer_back) =
        both_none (validate_given_quantity parse_quantity l.cpu_limit "cpuLimit") _ in
      let (inner, inner_back) =
        both_none (validate_given_quantity parse_quantity l.memory_limit "memoryLimit")
          (validate_given_quantity parse_quantity l.storage_limit "storageLimit") in
      let (cpu, cpu_back) = IsQuantity-accepts l.cpu_limit "cpuLimit" in
      let (memory, memory_back) = IsQuantity-accepts l.memory_limit "memoryLimit" in
      let (storage, storage_back) = IsQuantity-accepts l.storage_limit "storageLimit" in
      (
        λ h. let (a, b) = outer h in let (c, d) = inner b in (cpu a, (memory c, storage d)),
        λ h. outer_back (cpu_back h.0, inner_back (memory_back h.1.0, storage_back h.1.1)),
      )

  -- A retention of zero to ten years.
  abbrev pub IsRetention : ℤ → Type 0
  IsRetention (negsuc n) = ⊥
  IsRetention (pos n) = n ≤ 3650

  IsRetention-accepts : (z : ℤ) → (validate_retention z ≡ none) ↔ IsRetention z
  unfolding validate_retention
  IsRetention-accepts (negsuc n) = (λ h. cc, λ h. absurd h)
  IsRetention-accepts (pos n) = (λ h. ground arith, λ h. ground arith)

  -- A schedule of five fields, where backups are enabled and there is one; a retention; and a size.
  abbrev pub IsBackup : BackupConfig → Type 0
  IsBackup c =
      (c.enabled ≡ true → c.schedule ≢ "" → length (fields c.schedule) ≡ 5)
      × (IsRetention c.retention_days × IsQuantity c.storage_size)

  schedule_lem :
      (enabled empty five : Bool) (e : ValidationError) (rest : Option ValidationError)
      → (unless (enabled && not empty && not five) (some e) rest ≡ none)
        ↔ ((enabled ≡ true → empty ≡ false → five ≡ true) × (rest ≡ none))
  schedule_lem true true five e rest = (λ h. (λ p q. cc, h), λ h. h.1)
  schedule_lem true false true e rest = (λ h. (λ p q. refl, h), λ h. h.1)
  schedule_lem true false false e rest = (λ h. cc, λ h. let f : false ≡ true = h.0 refl refl in cc)
  schedule_lem false empty five e rest = (λ h. (λ p. cc, h), λ h. h.1)

  pub IsBackup-accepts :
      (c : BackupConfig) → (validate_backup_config parse_quantity c ≡ none) ↔ IsBackup c
  unfolding validate_backup_config
  IsBackup-accepts c =
      let (outer, outer_back) =
        schedule_lem c.enabled (str_eq c.schedule "") (length (fields c.schedule) == 5) _ (
          first_error (validate_retention c.retention_days)
            (validate_given_quantity parse_quantity c.storage_size "backupConfig.storageSize")) in
      let (inner, inner_back) =
        both_none (validate_retention c.retention_days)
          (validate_given_quantity parse_quantity c.storage_size "backupConfig.storageSize") in
      let (days, days_back) = IsRetention-accepts c.retention_days in
      let (size, size_back) = IsQuantity-accepts c.storage_size "backupConfig.storageSize" in
      (
        λ h.
            let (schedule, rest) = outer h in
            let (a, b) = inner rest in
            (
              λ on given.
                  let filled : str_eq c.schedule "" ≡ false =
                    ground (arith, eq_iff c.schedule "", given) in
                  let five = schedule on filled in ground arith,
              (days a, size b),
            ),
        λ h. outer_back (
          λ on filled.
              let five = h.0 on (λ e. ground (arith, eq_iff c.schedule "")) in ground arith,
          inner_back (days_back h.1.0, size_back h.1.1),
        ),
      )
