-- ===== src/Validation/Accepts.antt =====
-- What `ValidatePRStack` accepts, without patterns and in one description.
use Prim.Native.String.{String}
use mathlib.Core.Path.{subst}
use text.Mathlib.TextEquality.{eq_iff}
use pishop_operator.Base.{
  List, [], ◌∷◌, Option, none, some, Bool, true, false, ◌≡◌, ◌≢◌, refl, ◌↔◌, str_eq, if◌then◌else◌,
}
use pishop_operator.Api.{PrStack, ResourceLimits, BackupConfig}
use pishop_operator.Client.{Error}
use pishop_operator.Validation.{
  combine, ValidationError, validate_pr_number, validate_image_tag, validate_custom_domain,
  validate_resource_limits, validate_backup_config, validation_errors, validate_pr_stack, add_error,
}
use pishop_operator.Validation.Parts.{
  IsNumber, IsTag, IsShortDomain, AreQuantities, IsBackup, IsNumber-accepts, IsTag-accepts,
  IsShortDomain-accepts, limits_accept, IsBackup-accepts,
}

module _ (parse_quantity : String → Option Error) where
  -- A PRStack that is fit for use: every part that is given is well formed.
  pub record IsValid (x : PrStack) : Type 0 where
    pub number : IsNumber x.spec.pr_number
    pub tag : x.spec.image_tag ≢ "" → IsTag x.spec.image_tag
    pub domain : x.spec.custom_domain ≢ "" → IsShortDomain x.spec.custom_domain
    pub limits :
        (l : ResourceLimits) → x.spec.resource_limits ≡ some l → AreQuantities parse_quantity l
    pub backup : (c : BackupConfig) → x.spec.backup_config ≡ some c → IsBackup parse_quantity c

  no_errors :
      (a : Option ValidationError) (es : List ValidationError)
      → (add_error a es ≡ []) ↔ ((a ≡ none) × (es ≡ []))
  no_errors none es = (λ h. (refl, h), λ h. h.1)
  no_errors (some e) es = (λ h. cc, λ h. let f : some e ≡ none = h.0 in cc)

  given_accepts :
      (P : String → Type 0) (check : String → Option ValidationError)
      → ((s : String) → (check s ≡ none) ↔ P s)
      → (s : String) → ((if str_eq s "" then none else check s) ≡ none) ↔ (s ≢ "" → P s)
  given_accepts P check accepts s = by_test (str_eq s "") (eq_iff s "")
    where
      by_test :
          (b : Bool)
          → ((b ≡ true) ↔ (s ≡ ""))
          → ((if b then none else check s) ≡ none) ↔ (s ≢ "" → P s)
      by_test true (to, _) = (λ h n. absurd (n (to refl)), λ h. refl)
      by_test false (_, from) =
          (λ h n. (accepts s).0 h, λ h. (accepts s).1 (h λ e. let f : false ≡ true = from e in cc))

  present_accepts :
      {A : Type 0} (P : A → Type 0) (check : A → Option ValidationError)
      → ((a : A) → (check a ≡ none) ↔ P a)
      → (o : Option A)
      → (elim o as (λ _. Option ValidationError) [ none ↦ none | some a ↦ check a ] ≡ none)
        ↔ ((a : A) → o ≡ some a → P a)
  present_accepts P check accepts none = (λ h a e. cc, λ h. refl)
  present_accepts P check accepts (some a) = (
    λ h b e. let same : a ≡ b = cc in subst P same ((accepts a).0 h),
    λ h. (accepts a).1 (h a refl),
  )

  combine_accepts : (es : List ValidationError) → (combine es ≡ none) ↔ (es ≡ [])
  unfolding combine
  combine_accepts [] = (λ h. refl, λ h. refl)
  combine_accepts (e ∷ es) = (λ h. cc, λ h. cc)

  all_pass :
      (a b c d e : Option ValidationError)
      → (add_error a (add_error b (add_error c (add_error d (add_error e [])))) ≡ [])
        ↔ ((a ≡ none) × ((b ≡ none) × ((c ≡ none) × ((d ≡ none) × (e ≡ none)))))
  all_pass a b c d e =
      let (p, p') = no_errors a (add_error b (add_error c (add_error d (add_error e [])))) in
      let (q, q') = no_errors b (add_error c (add_error d (add_error e []))) in
      let (s, s') = no_errors c (add_error d (add_error e [])) in
      let (t, t') = no_errors d (add_error e []) in
      let (u, u') = no_errors e [] in
      (
        λ h.
            let h1 = p h in
            let h2 = q h1.1 in
            let h3 = s h2.1 in let h4 = t h3.1 in (h1.0, (h2.0, (h3.0, (h4.0, (u h4.1).0)))),
        λ (x, (y, (z, (v, w)))). p' (x, q' (y, s' (z, t' (v, u' (w, refl))))),
      )

  -- A PRStack is accepted exactly when its number is one to ten digits, and its image tag, custom
  -- domain, resource limits and backup configuration are well formed where they are given.
  pub validate_pr_stack-IsValid :
      (x : PrStack) → (validate_pr_stack parse_quantity x ≡ none) ↔ IsValid x
  unfolding validate_pr_stack validation_errors
  validate_pr_stack-IsValid x =
      let (passed, passes) =
        all_pass (validate_pr_number x.spec.pr_number)
          (if str_eq x.spec.image_tag "" then none else validate_image_tag x.spec.image_tag)
          (if str_eq x.spec.custom_domain ""
            then none
            else validate_custom_domain x.spec.custom_domain)
          (elim (x.spec.resource_limits) [
            | none ↦ none
            | some l ↦ validate_resource_limits parse_quantity l
          ])
          (elim (x.spec.backup_config) [
            | none ↦ none
            | some c ↦ validate_backup_config parse_quantity c
          ]) in
      let (number, number_back) = IsNumber-accepts x.spec.pr_number in
      let (tag, tag_back) = given_accepts IsTag validate_image_tag IsTag-accepts x.spec.image_tag in
      let (domain, domain_back) =
        given_accepts IsShortDomain validate_custom_domain IsShortDomain-accepts
          x.spec.custom_domain in
      let (limits, limits_back) =
        present_accepts (AreQuantities parse_quantity) (validate_resource_limits parse_quantity)
          (limits_accept parse_quantity) x.spec.resource_limits in
      let (backup, backup_back) =
        present_accepts (IsBackup parse_quantity) (validate_backup_config parse_quantity)
          (IsBackup-accepts parse_quantity) x.spec.backup_config in
      let (listed, listed_back) = combine_accepts (validation_errors parse_quantity x) in
      (
        λ h.
            let (a, (b, (c, (d, e)))) = passed (listed h) in
            record {
              number = number a;
              tag = tag b;
              domain = domain c;
              limits = limits d;
              backup = backup e;
            },
        λ h. listed_back (
            passes (
              number_back h.number,
              (
                tag_back h.tag,
                (domain_back h.domain, (limits_back h.limits, backup_back h.backup)),
              ),
            )),
      )
