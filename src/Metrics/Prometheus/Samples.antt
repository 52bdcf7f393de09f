-- ===== src/Metrics/Prometheus/Samples.antt =====
-- Which samples the client makes of an answer of Prometheus.
use mathlib.Core.Option.{some-injective}
use mathlib.Core.Path.{subst}
use namespace_cost_governor.Base.{
  String, ◌<>◌, true, false, some, List, [], ◌∷◌, ◌++◌, ◌≡◌, refl, sym, ap, ◌∙◌, ◌↔◌, ◌⊎◌, inl, inr,
  ok, Bool-cases, ◌>>=◌,
}
use namespace_cost_governor.Base.Dict
use namespace_cost_governor.Base.Dict.{Dict}
use namespace_cost_governor.Go.Float.{Float64}
use namespace_cost_governor.Go.Time.{Time}
use namespace_cost_governor.Metrics.{Sample, Any, number, text, other, Series, PromResponse}
use namespace_cost_governor.Outside.{Outside, HttpResponse}
use namespace_cost_governor.Outside.Laws.{In}
use namespace_cost_governor.Metrics.Prometheus.{
  Client, or_empty, to_time, to_float64, sample_of, samples_of_values, samples_of, read_response,
  handle_response, do_request,
}

In-append-left : {A : Type 0} (a : A) (xs ys : List A) → In a xs → In a (xs ++ ys)
In-append-left a [] ys here = absurd here
In-append-left a (x ∷ xs) ys (inl same) = inl same
In-append-left a (x ∷ xs) ys (inr later) = inr (In-append-left a xs ys later)

In-append-right : {A : Type 0} (a : A) (xs ys : List A) → In a ys → In a (xs ++ ys)
In-append-right a [] ys there = there
In-append-right a (x ∷ xs) ys there = inr (In-append-right a xs ys there)

In-append : {A : Type 0} (a : A) (xs ys : List A) → In a (xs ++ ys) → In a xs ⊎ In a ys
In-append a [] ys there = inr there
In-append a (x ∷ xs) ys (inl same) = inl (inl same)
In-append a (x ∷ xs) ys (inr later) = elim (In-append a xs ys later) [
  | inl left ↦ inl (inr left)
  | inr right ↦ inr right
]

module _ {F : Float64} where
  -- The pair of a numeric time and a text that is a number says what the sample does.
  pub data Says (pod : String) (s : Sample F) : List (Any F) → Type 0 where
    says :
        (sec : F.Carrier) (value : String) (rest : List (Any F))
        → pod ≡ s.pod
        → to_time {F = F} (number sec) ≡ some s.time_stamp
        → F.parse value ≡ (s.value, true)
        → Says pod s (number sec ∷ text value ∷ rest)

  -- Some pair of the series, or its single one, says it.
  pub record SaidIn (s : Sample F) (r : Series F) : Type 0 where
    pub pair : List (Any F)
    pub there : In pair (r.values ++ (r.value ∷ []))
    pub said : Says (or_empty (Dict.lookup "pod" r.metric)) s pair

  -- The pair of a number and a text gives a sample exactly when the text is a number.
  sample_of-invalid :
      (pod : String) (sec : F.Carrier) (v : String) (rest : List (Any F))
      → (F.parse v).1 ≡ false
      → sample_of {F = F} pod (number sec ∷ text v ∷ rest) ≡ []
  unfolding sample_of to_time to_float64
  sample_of-invalid pod sec v rest invalid = rw (sample_of, to_float64, invalid)

  sample_of-valid :
      (pod : String) (sec : F.Carrier) (v : String) (rest : List (Any F)) (t : Time)
      → to_time {F = F} (number sec) ≡ some t
      → (F.parse v).1 ≡ true
      → sample_of {F = F} pod (number sec ∷ text v ∷ rest)
        ≡ (record { pod = pod; time_stamp = t; value = (F.parse v).0 } ∷ [])
  unfolding sample_of to_float64
  sample_of-valid pod sec v rest t time valid =
      rw (sample_of, to_time, to_float64, valid)
        (ap (λ x. record { pod = pod; time_stamp = x; value = (F.parse v).0 } ∷ [])
          (some-injective _ _ time))

  sample_of-Says :
      (pod : String) (s : Sample F) (pair : List (Any F))
      → In s (sample_of pod pair)
      → Says pod s pair
  unfolding sample_of to_time to_float64
  sample_of-Says pod s [] there = absurd there
  sample_of-Says pod s (t ∷ []) there = absurd there
  sample_of-Says pod s (text x ∷ v ∷ rest) there = absurd there
  sample_of-Says pod s (other ∷ v ∷ rest) there = absurd there
  sample_of-Says pod s (number sec ∷ number x ∷ rest) there = absurd there
  sample_of-Says pod s (number sec ∷ other ∷ rest) there = absurd there
  sample_of-Says pod s (number sec ∷ text v ∷ rest) there = elim (Bool-cases (F.parse v).1) [
    | inl valid ↦
        let one = subst (In s) (sample_of-valid pod sec v rest _ refl valid) there in
        elim one [
          | inl same ↦
              says sec v rest (sym (ap (λ x. x.pod) same))
                (ap some (sym (ap (λ x. x.time_stamp) same)))
                (ap (λ x. (x, (F.parse v).1)) (sym (ap (λ x. x.value) same))
                  ∙ ap (λ b. (s.value, b)) valid)
          | inr never ↦ absurd never
        ]
    | inr invalid ↦ absurd (subst (In s) (sample_of-invalid pod sec v rest invalid) there)
  ]

  Says-sample_of :
      (pod : String) (s : Sample F) (pair : List (Any F))
      → Says pod s pair
      → In s (sample_of pod pair)
  Says-sample_of pod s pair (says sec value rest p t v) =
      subst (In s) (sym (sample_of-valid pod sec value rest s.time_stamp t (ap (λ x. x.1) v))) (
        inl (
          ap (λ x. record { pod = x; time_stamp = s.time_stamp; value = s.value }) (sym p)
          ∙ ap (λ x. record { pod = pod; time_stamp = s.time_stamp; value = x })
              (sym (ap (λ x. x.0) v))))

  samples_of_values_iff :
      (pod : String) (s : Sample F) (vs : List (List (Any F)))
      → In s (samples_of_values pod vs) ↔ ((pair : List (Any F)) × In pair vs × Says pod s pair)
  unfolding samples_of_values
  samples_of_values_iff pod s [] = (λ there. absurd there, λ found. absurd found.1)
  samples_of_values_iff pod s (v ∷ vs) = (
    λ there. elim (In-append s (sample_of pod v) (samples_of_values pod vs) there) [
      | inl now ↦ (v, inl refl, sample_of-Says pod s v now)
      | inr later ↦
          let (pair, at, said) = (samples_of_values_iff pod s vs).0 later in (pair, inr at, said)
    ],
    λ found. elim found.1 [
      | inl same ↦
          In-append-left s (sample_of pod v) (samples_of_values pod vs)
            (Says-sample_of pod s v (subst (Says pod s) same found.2))
      | inr later ↦
          In-append-right s (sample_of pod v) (samples_of_values pod vs)
            ((samples_of_values_iff pod s vs).1 (found.0, later, found.2))
    ],
  )

  SaidIn-samples :
      (s : Sample F) (r : Series F) (rs : List (Series F)) → SaidIn s r → In s (samples_of (r ∷ rs))
  unfolding samples_of
  SaidIn-samples s r rs found =
      let pod = or_empty (Dict.lookup "pod" r.metric) in
      let own = samples_of_values pod r.values in
      let single = sample_of pod r.value in
      let rest = samples_of rs in
      elim (In-append found.pair r.values (r.value ∷ []) found.there) [
        | inl now ↦
            In-append-left s own (single ++ rest)
              ((samples_of_values_iff pod s r.values).1 (found.pair, now, found.said))
        | inr (inl same) ↦ In-append-right s own (single ++ rest) (
            In-append-left s single rest
              (Says-sample_of pod s r.value (subst (Says pod s) same found.said)))
        | inr (inr never) ↦ absurd never
      ]

  samples_of_iff :
      (s : Sample F) (rs : List (Series F))
      → In s (samples_of rs) ↔ ((r : Series F) × In r rs × SaidIn s r)
  unfolding samples_of
  samples_of_iff s [] = (λ there. absurd there, λ found. absurd found.1)
  samples_of_iff s (r ∷ rs) =
      let pod = or_empty (Dict.lookup "pod" r.metric) in
      let own = samples_of_values pod r.values in
      let single = sample_of pod r.value in
      let rest = samples_of rs in
      (
        λ there. elim (In-append s own (single ++ rest) there) [
          | inl now ↦
              let (pair, at, said) = (samples_of_values_iff pod s r.values).0 now in
              (
                r,
                inl refl,
                record {
                  pair = pair;
                  there = In-append-left pair r.values (r.value ∷ []) at;
                  said = said;
                },
              )
          | inr later ↦ elim (In-append s single rest later) [
            | inl now ↦ (
              r,
              inl refl,
              record {
                pair = r.value;
                there = In-append-right r.value r.values (r.value ∷ []) (inl refl);
                said = sample_of-Says pod s r.value now;
              },
            )
            | inr after ↦ let (q, at, said) = (samples_of_iff s rs).0 after in (q, inr at, said)
          ]
        ],
        λ found. elim found.1 [
          | inl same ↦ SaidIn-samples s r rs (subst (SaidIn s) same found.2)
          | inr later ↦
              In-append-right s own (single ++ rest)
                (In-append-right s single rest ((samples_of_iff s rs).1 (found.0, later, found.2)))
        ],
      )

  -- A decoded answer that is a success with a result gives a list of the samples it says.
  handle_response-samples :
      (O : Outside F) (c : Client) (resp : HttpResponse) (p : PromResponse F) (rs : List (Series F))
      (w : O.World)
      → resp.status_code ≡ 200
      → O.decode resp.body ≡ ok p
      → p.status ≡ "success"
      → p.payload ≡ some rs
      → handle_response O c resp w ≡ (ok (samples_of rs), w)
  unfolding handle_response read_response ◌>>=◌
  handle_response-samples O c resp p rs w code decoded status payload =
      rw (code, decoded, read_response, status, payload)

  -- When the URL and the request can be made and Prometheus answers with status 200 and a body that
  -- decodes to a success with a result, the client gives a list, and a sample is in it exactly when
  -- some pair of some series says it, among its `values` or as its single `value`: the sample's pod
  -- is the label "pod" of the series, or "" where there is none, its time is the pair's number and
  -- its value the number its text reads as.
  pub do_request-samples :
      (O : Outside F) (c : Client) (path : String) (params : Dict String) (u : String)
      (req : String × Dict String) (resp : HttpResponse) (p : PromResponse F) (rs : List (Series F))
      (w w' : O.World)
      → O.parse_url (c.base_url <> path) ≡ ok u
      → O.new_request u params ≡ ok req
      → O.http_get req w ≡ (ok resp, w')
      → resp.status_code ≡ 200
      → O.decode resp.body ≡ ok p
      → p.status ≡ "success"
      → p.payload ≡ some rs
      → (xs : List (Sample F)) × (do_request O c path params w ≡ (ok xs, w'))
        × ((s : Sample F) → In s xs ↔ ((r : Series F) × In r rs × SaidIn s r))
  unfolding do_request ◌>>=◌
  do_request-samples O c path params u req resp p rs w w' url made got code decoded status payload =
      (
        samples_of rs,
        rw (url, made, got, handle_response-samples O c resp p rs w' code decoded status payload),
        λ s. samples_of_iff s rs,
      )
