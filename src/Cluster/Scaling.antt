-- ===== src/Cluster/Scaling.antt =====
-- Which deployments `scaleDeployments` updates, and where it stops.
use pishop_operator.Base.{
  ℕ, String, List, ◌∷◌, [], concat, ◌++◌, ◌≡◌, refl, sym, ap, Bool, true, false, Option, none, some,
  is_some, if◌then◌else◌, ◌⊎◌, inl, inr,
}
use mathlib.Core.Path.{subst}
use pishop_operator.Kube.{Deployment, Object}
use pishop_operator.Client.{Client, Call, Log, State, Error, Go, attempt, pure, maybe, errorf}
use pishop_operator.Client.Rules.{Ends, Ends-mono}
use pishop_operator.Reconciler.{Reconciler, call}
use pishop_operator.Cluster.{has_replicas, scale_each, scale_deployments}

-- The updates that bring the deployments to the number: one for each that has another.
pub scale_calls : ℕ → List Deployment → List Call
scale_calls n [] = []
scale_calls n (d ∷ ds) =
    if has_replicas n d.replicas
    then scale_calls n ds
    else Call.update (Object.deployment (record d { replicas = some n })) ∷ scale_calls n ds

-- The log with calls made one after the other.
pub add_calls : List Call → Log → Log
add_calls [] l = l
add_calls (c ∷ cs) l = add_calls cs (c ∷ l)

-- The calls are made from a log on until one is refused: each is answered without an error, but for the
-- last one where the run returns an error.
abbrev pub StopsAt : Client → Option Error → List Call → Log → Type 0
StopsAt client o [] l = o ≡ none
StopsAt client o (c ∷ cs) l =
    ((client.error (c ∷ l) ≡ none) × StopsAt client o cs (c ∷ l))
    ⊎ ((is_some (client.error (c ∷ l)) ≡ true) × ((cs ≡ []) × (is_some o ≡ true)))

-- A run that was to make some calls, and returned `o`: it made the first of them in order, all of
-- them if it returns no error, and up to one that was refused otherwise.
pub record Scaled (r : Reconciler) (calls : List Call) (s : State) (o : Option Error) (t : State)
    : Type 0 where
  pub made : List Call
  pub left : List Call
  pub split : calls ≡ made ++ left
  pub logged : t.log ≡ add_calls made s.log
  pub untouched : t.stack ≡ s.stack
  pub complete : o ≡ none → left ≡ []
  pub refused : is_some o ≡ true → is_some (r.client.error t.log) ≡ true
  pub stops : StopsAt r.client o made s.log

module _ (r : Reconciler) where
  pub Scaled-none : (s : State) → Scaled r [] s none s
  unfolding add_calls
  Scaled-none s = record {
    made = [];
    left = [];
    split = refl;
    logged = refl;
    untouched = refl;
    complete = λ e. refl;
    refused = λ e. cc;
    stops = refl;
  }

  -- One call, and the rest of them where it is not refused.
  pub attempt-Scaled :
      (c : Call) (cs : List Call) (fail : Error → Error) (rest : Go (Option Error))
      → ((u : State) → Ends (λ o t. Scaled r cs u o t) (rest u))
      → (s : State)
      → Ends
          (λ o t. Scaled r (c ∷ cs) s o t)
          (attempt (call r c) (λ e. pure (some (fail e))) rest s)
  unfolding add_calls
  attempt-Scaled c cs fail rest ih s = by_error (r.client.error l) refl
    where
      l : Log
      l = c ∷ s.log

      by_error :
          (o : Option Error)
          → r.client.error l ≡ o
          → Ends
              (λ o t. Scaled r (c ∷ cs) s o t)
              (maybe o rest (λ e. pure (some (fail e))) (record s { log = l }))
      by_error none e =
          Ends-mono _ _ (rest (record s { log = l })) (ih (record s { log = l })) λ o t h. record {
            made = c ∷ h.made;
            left = h.left;
            split = ap (λ cs. c ∷ cs) h.split;
            logged = h.logged;
            untouched = h.untouched;
            complete = h.complete;
            refused = h.refused;
            stops = inl (e, h.stops);
          }
      by_error (some x) e = record {
        made = c ∷ [];
        left = cs;
        split = refl;
        logged = refl;
        untouched = refl;
        complete = λ e. cc;
        refused = λ k. ap is_some e;
        stops = inr (ap is_some e, (refl, refl));
      }

module _ (r : Reconciler) (n : ℕ) where
  abbrev scaled_deployment : Deployment → Call
  scaled_deployment d = Call.update (Object.deployment (record d { replicas = some n }))

  scale_each-Scaled :
      (ds : List Deployment) (s : State)
      → Ends (λ o t. Scaled r (scale_calls n ds) s o t) (scale_each r n ds s)
  unfolding scale_each scale_calls
  scale_each-Scaled [] s = Scaled-none r s
  scale_each-Scaled (d ∷ ds) s = by_replicas (scale_each-Scaled ds) (has_replicas n d.replicas)
    where
      failure : Error → Error
      failure e = errorf (concat ("failed to scale deployment " ∷ d.meta.name ∷ ": " ∷ [])) e

      by_replicas :
          ((u : State) → Ends (λ o t. Scaled r (scale_calls n ds) u o t) (scale_each r n ds u))
          → (b : Bool)
          → Ends
              (λ o t.
                Scaled r
                  (if b then scale_calls n ds else scaled_deployment d ∷ scale_calls n ds)
                  s
                  o
                  t)
              ((if b
                  then scale_each r n ds
                  else attempt
                      (call r (scaled_deployment d))
                      (λ e. pure (some (failure e)))
                      (scale_each r n ds))
                s)
      by_replicas ih true = ih s
      by_replicas ih false =
          attempt-Scaled r (scaled_deployment d) (scale_calls n ds) failure (scale_each r n ds) ih s

  -- Where the deployments could be listed, scaling does not panic: it updates those that have another
  -- number of replicas, in order, all of them if it returns no error, and no more after one that was
  -- refused. The PRStack at hand stays.
  pub scale_deployments-Scaled :
      (namespace : String) (s : State)
      → r.client.error (Call.list_deployments namespace ∷ s.log) ≡ none
      → Ends
          (λ o t.
            Scaled r
              (scale_calls n (r.client.deployments (Call.list_deployments namespace ∷ s.log)))
              (record s { log = Call.list_deployments namespace ∷ s.log })
              o
              t)
          (scale_deployments r namespace n s)
  unfolding scale_deployments
  scale_deployments-Scaled namespace s e =
      let l = Call.list_deployments namespace ∷ s.log in
      let listed = record s { log = l } in
      subst
        (λ o.
          Ends (λ o t. Scaled r (scale_calls n (r.client.deployments l)) listed o t)
            (maybe o (scale_each r n (r.client.deployments l))
              (λ x. pure (some (errorf "failed to list deployments: " x))) listed))
        (sym e) (scale_each-Scaled (r.client.deployments l) listed)
