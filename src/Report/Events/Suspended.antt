-- ===== src/Report/Events/Suspended.antt =====
-- The events of a report are the Deployments of the namespace that the operator scaled down.
use mathlib.Core.Path.{subst}
use namespace_cost_governor.Base.{
  IsErr, String, none, some, false, List, [], ◌∷◌, ◌≡◌, refl, sym, ap, ◌∙◌, ◌↔◌, inl, inr, ok,
  Option-cases, Result-cases, ◌>>=◌, arith,
}
use namespace_cost_governor.Base.Int.{pos}
use namespace_cost_governor.Go.Float.{Float64}
use namespace_cost_governor.Api.{SuspensionEvent}
use namespace_cost_governor.Api.Kube.{Deployment, annotation}
use namespace_cost_governor.Outside.{Outside}
use namespace_cost_governor.Outside.Laws.{IsLawful, In, All-In, deployment_at}
use namespace_cost_governor.Idle.{IdleWorkload}
use namespace_cost_governor.Actions.ScaleDown.{
  annotation_scaled_down_at, annotation_reason, marked, scale_down, is_scaled_down_by_operator,
  at_zero,
}
use namespace_cost_governor.Actions.ScaleDown.Annotations.{
  annotation-marked_at, annotation-marked_reason, annotation-with_replicas,
}
use namespace_cost_governor.Actions.ScaleDown.Stages.{untouched, recorded, scaled, scale_down-Stage}
use namespace_cost_governor.Report.Events.{text_or_empty, events_of, collect_suspension_events}

-- The event says what the annotations of `d` do.
pub record Tells (d : Deployment) (event : SuspensionEvent) : Type 0 where
  pub workload : d.name ≡ event.workload
  pub scaled_down_at : annotation annotation_scaled_down_at d ≡ some event.scaled_down_at
  pub reason : text_or_empty (annotation annotation_reason d) ≡ event.reason

abbrev event_of : Deployment → String → SuspensionEvent
event_of d at = record {
  workload = d.name;
  scaled_down_at = at;
  reason = text_or_empty (annotation annotation_reason d);
}

Tells-event :
    (d : Deployment) (at : String) (e : SuspensionEvent)
    → annotation annotation_scaled_down_at d ≡ some at
    → e ≡ event_of d at
    → Tells d e
Tells-event d at e found same =
    subst (Tells d) (sym same) (record { workload = refl; scaled_down_at = found; reason = refl })

events_of-absent :
    (d : Deployment) (ds : List Deployment)
    → annotation annotation_scaled_down_at d ≡ none
    → events_of (d ∷ ds) ≡ events_of ds
unfolding events_of
events_of-absent d ds absent = rw (absent, events_of)

events_of-found :
    (d : Deployment) (ds : List Deployment) (at : String)
    → annotation annotation_scaled_down_at d ≡ some at
    → events_of (d ∷ ds) ≡ event_of d at ∷ events_of ds
unfolding events_of
events_of-found d ds at found = rw (found, events_of)

-- Each event tells of a listed Deployment.
events_of-from :
    (e : SuspensionEvent) (ds : List Deployment)
    → In e (events_of ds)
    → (d : Deployment) × In d ds × Tells d e
unfolding events_of
events_of-from e [] listed = absurd listed
events_of-from e (d ∷ ds) listed = elim (Option-cases (annotation annotation_scaled_down_at d)) [
  | inl absent ↦
      let (d', there, tells) =
        events_of-from e ds (subst (In e) (events_of-absent d ds absent) listed) in
      (d', inr there, tells)
  | inr (at, found) ↦ elim (subst (In e) (events_of-found d ds at found) listed) [
    | inl same ↦ (d, inl refl, Tells-event d at e found same)
    | inr later ↦ let (d', there, tells) = events_of-from e ds later in (d', inr there, tells)
  ]
]

event-eq :
    (d : Deployment) (e : SuspensionEvent) (at : String)
    → annotation annotation_scaled_down_at d ≡ some at
    → Tells d e
    → e ≡ event_of d at
event-eq d e at found tells =
    let is_at : e.scaled_down_at ≡ at = cc (tells.scaled_down_at, found) in
    ground (arith, is_at, tells.workload, tells.reason)

-- A listed Deployment of which an event tells has that event.
events_of-In :
    (e : SuspensionEvent) (d : Deployment) (ds : List Deployment)
    → In d ds
    → Tells d e
    → In e (events_of ds)
events_of-In e d [] there tells = absurd there
events_of-In e d (d' ∷ ds) (inl same) tells =
    let own = subst (λ x. Tells x e) same tells in
    subst (In e) (sym (events_of-found d' ds e.scaled_down_at own.scaled_down_at))
      (inl (event-eq d' e e.scaled_down_at own.scaled_down_at own))
events_of-In e d (d' ∷ ds) (inr later) tells =
    let rest = events_of-In e d ds later tells in
    elim (Option-cases (annotation annotation_scaled_down_at d')) [
      | inl absent ↦ subst (In e) (sym (events_of-absent d' ds absent)) rest
      | inr (at, found) ↦ subst (In e) (sym (events_of-found d' ds at found)) (inr rest)
    ]

module _ {F : Float64} (O : Outside F) (L : IsLawful O) where
  -- When the Deployments can be listed, an event is in the report exactly if a Deployment of that
  -- name stands in the namespace whose annotations say when it was scaled down, and say the time
  -- and the reason of the event (a missing reason reads "").
  pub collect_suspension_events_iff :
      (w : O.World) (ns : String) (events : List SuspensionEvent) (e : SuspensionEvent)
      → (collect_suspension_events O ns w).0 ≡ ok events
      → In e events ↔ ((d : Deployment) × (deployment_at O w ns e.workload ≡ some d) × Tells d e)
  unfolding collect_suspension_events ◌>>=◌
  collect_suspension_events_iff w ns events e fine =
      elim (Result-cases (O.list_deployments ns w).0) [
        | inr (x, failing) ↦ absurd (ground (arith, failing, fine))
        | inl (ds, got) ↦
            let all : events_of ds ≡ events = ground (arith, got, fine) in
            (
              λ there.
                  let (d, listed, tells) = events_of-from e ds (subst (In e) (sym all) there) in
                  let stored =
                    All-In (λ x. deployment_at O w ns x.name ≡ some x) d ds listed
                      (L.list_deployments_lem w ns ds got) in
                  (d, subst (λ n. deployment_at O w ns n ≡ some d) tells.workload stored, tells),
              λ (d, stored, tells). subst (In e) all (
                  events_of-In e d ds (L.list_deployments-complete w ns e.workload ds d got stored)
                    tells),
            )
      ]

  -- After a scale-down of a running, unmarked Deployment that returned no error, the events of its
  -- namespace, if they can be collected, hold one with its name, some time, and the reason that
  -- the operator writes.
  pub scale_down-reported :
      (w : O.World) (x : IdleWorkload) (d : Deployment) (events : List SuspensionEvent)
      → deployment_at O w x.namespace x.name ≡ some d
      → is_scaled_down_by_operator d ≡ false
      → at_zero d ≡ false
      → (scale_down O x w).0 ≡ ok tt
      → (collect_suspension_events O x.namespace (scale_down O x w).1).0 ≡ ok events
      → (at : String) × In
          (record { workload = x.name; scaled_down_at = at; reason = "idle:cpu<threshold:30m" })
          events
  unfolding text_or_empty
  scale_down-reported w x d events here fresh runs done fine =
      elim (scale_down-Stage O L w x d here fresh runs) [
        | untouched e o ↦ absurd (subst IsErr done e)
        | recorded at d' e o same ↦ absurd (subst IsErr done e)
        | scaled at d' o same ↦
            let reads = λ (k : String).
              same.annotations k ∙ annotation-with_replicas k (pos 0) (marked at d) in
            let event : SuspensionEvent = record {
              workload = x.name;
              scaled_down_at = at;
              reason = "idle:cpu<threshold:30m";
            } in
            (
              at,
              (collect_suspension_events_iff (scale_down O x w).1 x.namespace events event fine).1 (
                d',
                o,
                record {
                  workload = (L.stored_key (scale_down O x w).1 x.namespace x.name d' o).1;
                  scaled_down_at = reads annotation_scaled_down_at ∙ annotation-marked_at at d;
                  reason =
                      ap text_or_empty (reads annotation_reason ∙ annotation-marked_reason at d);
                },
              ),
            )
      ]
