-- ===== src/Outside/Stored.antt =====
-- What the API server holds of a status that it was sent: all of it, with times in whole seconds,
-- as metav1.Time is written.
use namespace_cost_governor.Base.{List, [], ◌∷◌, ◌≡◌, refl}
use namespace_cost_governor.Go.Time.{Time, unix_seconds}
use namespace_cost_governor.Api.{NamespaceBudgetStatus, IdleWorkloadStatus}
use namespace_cost_governor.Api.Kube.{Condition}

-- The two times are in the same second.
abbrev pub SameSecond : Time → Time → Type 0
SameSecond t u = unix_seconds t ≡ unix_seconds u

-- Two lists that agree entry by entry.
abbrev pub Entrywise : {A : Type 0} → (A → A → Type 0) → List A → List A → Type 0
Entrywise R [] [] = Unit
Entrywise R (a ∷ xs) (b ∷ ys) = R a b × Entrywise R xs ys
Entrywise R _ _ = ⊥

pub record StoredCondition (stored sent : Condition) : Type 0 where
  pub kind : stored.kind ≡ sent.kind
  pub status : stored.status ≡ sent.status
  pub reason : stored.reason ≡ sent.reason
  pub message : stored.message ≡ sent.message
  pub last_transition_time : SameSecond stored.last_transition_time sent.last_transition_time

pub record StoredIdle (stored sent : IdleWorkloadStatus) : Type 0 where
  pub name : stored.name ≡ sent.name
  pub namespace : stored.namespace ≡ sent.namespace
  pub idle_since : SameSecond stored.idle_since sent.idle_since

pub record StoredStatus (stored sent : NamespaceBudgetStatus) : Type 0 where
  pub phase : stored.phase ≡ sent.phase
  pub current_usage : stored.current_usage ≡ sent.current_usage
  pub accumulated : stored.accumulated ≡ sent.accumulated
  pub last_reconcile : SameSecond stored.last_reconcile sent.last_reconcile
  pub budget_percent : stored.budget_percent ≡ sent.budget_percent
  pub idle_workloads : Entrywise StoredIdle stored.idle_workloads sent.idle_workloads
  pub last_report_ref : stored.last_report_ref ≡ sent.last_report_ref
  pub conditions : Entrywise StoredCondition stored.conditions sent.conditions

Entrywise-refl :
    {A : Type 0} (R : A → A → Type 0) → ((a : A) → R a a) → (xs : List A) → Entrywise R xs xs
Entrywise-refl R same [] = tt
Entrywise-refl R same (a ∷ xs) = (same a, Entrywise-refl R same xs)

-- A status that is stored as it was sent.
pub StoredStatus-refl : (s : NamespaceBudgetStatus) → StoredStatus s s
StoredStatus-refl s = record {
  phase = refl;
  current_usage = refl;
  accumulated = refl;
  last_reconcile = refl;
  budget_percent = refl;
  idle_workloads =
      Entrywise-refl StoredIdle (λ i. record { name = refl; namespace = refl; idle_since = refl })
        s.idle_workloads;
  last_report_ref = refl;
  conditions =
      Entrywise-refl StoredCondition
        (λ c. record {
          kind = refl;
          status = refl;
          reason = refl;
          message = refl;
          last_transition_time = refl;
        })
        s.conditions;
}
