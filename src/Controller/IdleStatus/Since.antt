-- ===== src/Controller/IdleStatus/Since.antt =====
-- The times that `toIdleWorkloadStatus` keeps.
use namespace_cost_governor.Base.{
  zero, suc, nat_beq, false, arith, String, ◌<>◌, Option, none, some, List, [], ◌∷◌, ◌==◌, ◌≡◌,
  refl, ap, ◌∙◌, if◌then◌else◌, map,
}
use namespace_cost_governor.Base.Dict
use namespace_cost_governor.Base.Dict.{Dict, lookup-insert}
use namespace_cost_governor.Base.Int.{pos, negsuc}
use namespace_cost_governor.Go.Time.{Time}
use namespace_cost_governor.Api.{IdleWorkloadStatus}
use namespace_cost_governor.Idle.{IdleWorkload}
use namespace_cost_governor.Controller.IdleStatus.{
  workload_key, previous_into, since_of, statuses_of, to_idle_workload_status,
}

-- The time of the last entry whose namespace and name, with a slash between, are `key`, and `before` if there is none.
pub last_seen : String → List IdleWorkloadStatus → Option Time → Option Time
last_seen key [] before = before
last_seen key (p ∷ previous) before =
    last_seen key previous
      (if p.namespace <> ("/" <> p.name) == key then some p.idle_since else before)

-- The zero time, at which Go's count of nanoseconds begins, stands for none.
kept_since : Option Time → Time → Time
kept_since none detected = detected
kept_since (some (pos zero)) detected = detected
kept_since (some (pos (suc n))) detected = pos (suc n)
kept_since (some (negsuc n)) detected = negsuc n

since_of-kept_since : (o : Option Time) (t : Time) → since_of o t ≡ kept_since o t
unfolding since_of kept_since
since_of-kept_since none t = refl
since_of-kept_since (some (pos zero)) t = refl
since_of-kept_since (some (pos (suc n))) t =
    let more : nat_beq (suc n) 0 ≡ false = ground arith in rw more refl
since_of-kept_since (some (negsuc n)) t = refl

-- The entry of one workload, from the entries of the last reconcile.
pub carried_since : List IdleWorkloadStatus → IdleWorkload → IdleWorkloadStatus
carried_since previous w = record {
  name = w.name;
  namespace = w.namespace;
  idle_since = kept_since (last_seen (w.namespace <> ("/" <> w.name)) previous none) w.idle_since;
}

lookup-previous_into :
    (key : String) (previous : List IdleWorkloadStatus) (prev_map : Dict Time)
    → Dict.lookup key (previous_into previous prev_map)
      ≡ last_seen key previous (Dict.lookup key prev_map)
unfolding previous_into last_seen workload_key
lookup-previous_into key [] prev_map = refl
lookup-previous_into key (p ∷ previous) prev_map =
    lookup-previous_into key previous _
    ∙ ap (λ o. last_seen key previous o)
        (lookup-insert key (workload_key p.namespace p.name) p.idle_since prev_map)

statuses_of-map :
    (previous : List IdleWorkloadStatus) (workloads : List IdleWorkload)
    → statuses_of (previous_into previous []) workloads ≡ map (carried_since previous) workloads
unfolding statuses_of carried_since Dict.lookup workload_key
statuses_of-map previous [] = refl
statuses_of-map previous (w ∷ workloads) =
    rw
      (
        lookup-previous_into (workload_key w.namespace w.name) previous [],
        statuses_of-map previous workloads,
        since_of-kept_since (last_seen (workload_key w.namespace w.name) previous none)
            w.idle_since,
      )
      refl

-- The idle workloads of the status are those of the detection, in its order; each is idle since the
-- time of its last entry of the reconcile before, if it has one with a time that is not zero, and
-- else since the time of the detection.
pub to_idle_workload_status-map :
    (workloads : List IdleWorkload) (previous : List IdleWorkloadStatus)
    → to_idle_workload_status workloads previous ≡ map (carried_since previous) workloads
unfolding to_idle_workload_status
to_idle_workload_status-map workloads previous = statuses_of-map previous workloads
