-- ===== src/Controller/Month/Reset.antt =====
-- When the month boundary resets the running totals.
use mathlib.Core.Option.{some-injective}
use namespace_cost_governor.Base.{
  none, some, Bool, true, false, Error, Result, ok, err, ◌≡◌, ◌≢◌, ◌⊎◌, ◌↔◌, sym, ap, ◌∙◌, refl,
  inl, inr, ◌>>=◌, nat_beq, Bool-cases, Result-cases, Option-cases, arith, eq_iff,
}
use namespace_cost_governor.Go.Float.{Float64}
use namespace_cost_governor.Go.Time.{Time, LocatedTime}
use namespace_cost_governor.Api.{NamespaceBudget}
use namespace_cost_governor.Outside.{Outside}
use namespace_cost_governor.Controller.{Reconciler}
use namespace_cost_governor.Controller.Month.{
  reset_accumulated, reset_after, is_first_day, other_month, since_parsed, month_boundary,
  maybe_generate_report,
}

module _ {F : Float64} (O : Outside F) (r : Reconciler F) where
  -- It is the first day of a month, and the totals run since a time in another month, in whose own
  -- zone its month is read.
  pub record Due (now : Time) (b : NamespaceBudget) : Type 0 where
    pub since : LocatedTime
    pub first_day : O.calendar.day now ≡ 1
    pub started : b.status.accumulated.since ≢ ""
    pub parsed : O.calendar.parse_rfc3339 b.status.accumulated.since ≡ some since
    pub other :
        (O.calendar.located_month since ≢ O.calendar.month now)
        ⊎ (O.calendar.located_year since ≢ O.calendar.year now)

  -- The ways in which the month boundary ends: with the totals at 0 and running since now, when a
  -- report was due and succeeded; with the budget as it was, when none was due or it failed.
  pub data Boundary (now : Time) (b : NamespaceBudget) (w : O.World) (o : Result NamespaceBudget)
      : Type 0 where
    not_due : (Due now b → ⊥) → o ≡ ok b → Boundary now b w o
    not_reported :
        (e : Error)
        → Due now b
        → (maybe_generate_report O r b w).0 ≡ err e
        → o ≡ ok b
        → Boundary now b w o
    reset :
        Due now b
        → (maybe_generate_report O r b w).0 ≡ ok tt
        → o
          ≡ ok (record b {
            status = record b.status {
              accumulated = record {
                core_hours = "0";
                gib_hours = "0";
                since = O.calendar.format_rfc3339 now;
              };
            };
          })
        → Boundary now b w o

  pub first_day_iff :
      (now : Time) (b : NamespaceBudget)
      → (is_first_day O.calendar now b ≡ true)
        ↔ ((O.calendar.day now ≡ 1) × (b.status.accumulated.since ≢ ""))
  unfolding is_first_day
  first_day_iff now b = (
    λ h. (
      ground (arith, eq_iff b.status.accumulated.since ""),
      λ e. ground (arith, eq_iff b.status.accumulated.since ""),
    ),
    λ h. ground (arith, eq_iff b.status.accumulated.since ""),
  )

  pub other_month_iff :
      (since : LocatedTime) (now : Time)
      → (other_month O.calendar since now ≡ true) ↔ (
          (O.calendar.located_month since ≢ O.calendar.month now)
          ⊎ (O.calendar.located_year since ≢ O.calendar.year now))
  unfolding other_month
  other_month_iff since now = (
    λ h. elim (Bool-cases (nat_beq (O.calendar.located_month since) (O.calendar.month now))) [
      | inl same ↦ inr (λ e. ground arith)
      | inr other ↦ inl (λ e. ground arith)
    ],
    λ h. elim h [ inl other ↦ ground arith | inr other ↦ ground arith ],
  )

  -- The month boundary never fails. On the first day of a month, when the time since which the
  -- totals run is in another month and the report succeeds, it sets the totals to 0, to run from
  -- now; in all other cases, a failed report among them, it leaves the budget as it was.
  pub month_boundary-Boundary :
      (now : Time) (b : NamespaceBudget) (w : O.World)
      → Boundary now b w (month_boundary O r now b w).0
  unfolding month_boundary since_parsed reset_after ◌>>=◌ reset_accumulated
  month_boundary-Boundary now b w = elim (Bool-cases (is_first_day O.calendar now b)) [
    | inr later ↦
        not_due (λ due. true_false ((first_day_iff now b).1 (due.first_day, due.started)) later)
          (rw later refl)
    | inl first ↦ elim (Option-cases (O.calendar.parse_rfc3339 b.status.accumulated.since)) [
      | inl unreadable ↦
          not_due (λ due. none_some (sym unreadable ∙ due.parsed)) (rw (first, unreadable) refl)
      | inr (since, read) ↦ elim (Bool-cases (other_month O.calendar since now)) [
        | inr same ↦
            not_due
              (λ due.
                let own = some-injective _ _ (sym due.parsed ∙ read) in
                true_false
                  (ap (λ s. other_month O.calendar s now) (sym own)
                    ∙ (other_month_iff due.since now).1 due.other)
                  same)
              (rw (first, read, same) refl)
        | inl new ↦
            let is_due : Due now b = record {
              since = since;
              first_day = ((first_day_iff now b).0 first).0;
              started = ((first_day_iff now b).0 first).1;
              parsed = read;
              other = (other_month_iff since now).0 new;
            } in
            elim (Result-cases (maybe_generate_report O r b w).0) [
              | inl (a, done) ↦ reset is_due done (rw (first, read, new, done) refl)
              | inr (e, failing) ↦
                  not_reported e is_due failing (rw (first, read, new, failing) refl)
            ]
      ]
    ]
  ]
    where
      none_some : {A : Type 0} {a : A} → none ≡ some a → ⊥
      none_some e = cc e

      true_false : {x : Bool} → x ≡ true → x ≡ false → ⊥
      true_false t f = cc (t, f)

  pub month_boundary-returns :
      (now : Time) (b : NamespaceBudget) (w : O.World)
      → (b1 : NamespaceBudget) × ((month_boundary O r now b w).0 ≡ ok b1)
  month_boundary-returns now b w = elim (month_boundary-Boundary now b w) [
    | not_due none_due same ↦ (b, same)
    | not_reported e due failing same ↦ (b, same)
    | reset due done totals ↦ (_, totals)
  ]
