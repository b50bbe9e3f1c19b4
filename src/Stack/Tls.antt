-- ===== src/Stack/Tls.antt =====
-- TLS of the ingress that `createIngress` makes.
use text.Mathlib.TextLemmas.{append-eq-nil_iff, cons≢nil}
use text.Mathlib.TextEquality.{eq_iff}
use pishop_operator.Base.{
  String, List, [], ◌∷◌, Bool, true, false, ◌≡◌, ◌≢◌, ◌↔◌, refl, arith, concat, if◌then◌else◌, All,
}
use pishop_operator.Kube.{IngressTls}
use pishop_operator.Api.{PrStack}
use pishop_operator.Reconciler.{Reconciler, get_domain}
use pishop_operator.Stack.Ingress.{enable_tls, tls_secret_name, create_ingress}

named_secret-ne-empty : (name : String) → concat (name ∷ "-tls" ∷ []) ≢ ""
named_secret-ne-empty name e = cons≢nil ((append-eq-nil_iff {p = name}).0 e).1

module _ (r : Reconciler) (x : PrStack) where
  tls_secret_name-ne-empty : (name : String) → enable_tls r x ≡ true → tls_secret_name r x name ≢ ""
  unfolding enable_tls tls_secret_name
  tls_secret_name-ne-empty name h = ground (
    arith,
    eq_iff x.spec.ingress_tls_secret_name "",
    eq_iff r.cert_manager_issuer "",
    named_secret-ne-empty name,
  )

  pub create_ingress-tls :
      (namespace name path : String)
      → ((create_ingress r x namespace name path).host ≡ get_domain r x)
        × (All
              (λ (t : IngressTls). (t.hosts ≡ get_domain r x ∷ []) × (t.secret_name ≢ ""))
              (create_ingress r x namespace name path).tls
            × (((create_ingress r x namespace name path).tls ≡ []) ↔ (enable_tls r x ≡ false)))
  unfolding create_ingress
  create_ingress-tls namespace name path =
      (refl, by_test (enable_tls r x) (tls_secret_name-ne-empty name))
    where
      tls_of : Bool → List IngressTls
      tls_of b =
          if b
          then record { hosts = get_domain r x ∷ []; secret_name = tls_secret_name r x name } ∷ []
          else []

      by_test :
          (b : Bool)
          → (b ≡ true → tls_secret_name r x name ≢ "")
          → All
              (λ (t : IngressTls). (t.hosts ≡ get_domain r x ∷ []) × (t.secret_name ≢ ""))
              (tls_of b)
            × ((tls_of b ≡ []) ↔ (b ≡ false))
      by_test true named = (((refl, named refl), tt), (λ e. cc, λ e. cc))
      by_test false named = (tt, (λ e. refl, λ e. refl))
