-- ===== src/Backend/Domain/Trails.antt =====
-- Where an inspection can come from and go to, by the transition table.
use vision_qc.Prelude.{
  String, none, some, Bool, true, false, List, [], ◌∷◌, ◌≡◌, refl, sym, ◌⊎◌, inl, inr, ◌↔◌, Member,
  any_of, Bool-cases, eq_iff, ap, ◌∙◌, arith,
}
use vision_qc.Backend.Domain.{
  unknown_state, InspectionStatus, received, validated, inferencing, scored, auto_released,
  review_required, batch_held, nonconformance_confirmed, action_pending, action_executing,
  action_completed, action_failed, verifying, closed, rejected_input, inference_failed, text_of,
  parse, transitions, state_eq, assert_inspection_transition,
}

pub parse-text_of : (s : InspectionStatus) → parse (text_of s) ≡ some s
unfolding parse
parse-text_of received = refl
parse-text_of validated = refl
parse-text_of _ = refl

abbrev pub IsMove : InspectionStatus → InspectionStatus → Type 0
IsMove s t = Member t (transitions s)

-- A run of transitions, with the states that it enters.
pub data Trail : InspectionStatus → List InspectionStatus → InspectionStatus → Type 0 where
  here : {s : InspectionStatus} → Trail s [] s
  move :
      {s t u : InspectionStatus} {entered : List InspectionStatus}
      → IsMove s t
      → Trail t entered u
      → Trail s (t ∷ entered) u

-- Before anyone confirmed a nonconformance.
abbrev unconfirmed : InspectionStatus → Bool
unconfirmed nonconformance_confirmed = false
unconfirmed action_pending = false
unconfirmed action_executing = false
unconfirmed action_completed = false
unconfirmed action_failed = false
unconfirmed verifying = false
unconfirmed closed = false
unconfirmed _ = true

IsMove-unconfirmed :
    (s t : InspectionStatus)
    → IsMove s t
    → unconfirmed s ≡ true
    → (unconfirmed t ≡ true) ⊎ (t ≡ nonconformance_confirmed)
unfolding transitions
IsMove-unconfirmed received t m h = ground arith
IsMove-unconfirmed validated t m h = ground arith
IsMove-unconfirmed _ t m h = ground arith

closed_confirmed_from :
    {s t : InspectionStatus} {entered : List InspectionStatus}
    → unconfirmed s ≡ true
    → t ≡ closed
    → Trail s entered t
    → Member nonconformance_confirmed entered
closed_confirmed_from {s = s} h e here = cc (sym h ∙ ap unconfirmed e)
closed_confirmed_from {s = s} h e (move {t = t} m rest) = elim (IsMove-unconfirmed s t m h) [
  | inl k ↦ inr (closed_confirmed_from k e rest)
  | inr k ↦ inl (sym k)
]

-- An inspection that was received is closed only after a nonconformance was confirmed on the way.
pub closed_confirmed :
    {entered : List InspectionStatus}
    → Trail received entered closed
    → Member nonconformance_confirmed entered
closed_confirmed trail = closed_confirmed_from refl refl trail

-- Before a person has the inspection to review.
abbrev pub unreviewed : InspectionStatus → Bool
unreviewed received = true
unreviewed validated = true
unreviewed inferencing = true
unreviewed scored = true
unreviewed inference_failed = true
unreviewed auto_released = true
unreviewed rejected_input = true
unreviewed _ = false

IsMove-unreviewed :
    (s t : InspectionStatus)
    → IsMove s t
    → unreviewed s ≡ true
    → (unreviewed t ≡ true) ⊎ (t ≡ review_required) ⊎ (t ≡ batch_held)
unfolding transitions
IsMove-unreviewed received t m h = ground arith
IsMove-unreviewed validated t m h = ground arith
IsMove-unreviewed _ t m h = ground arith

release_reviewed_from :
    {s t : InspectionStatus} {entered : List InspectionStatus}
    → unreviewed s ≡ true
    → unreviewed t ≡ false
    → Trail s entered t
    → Member review_required entered ⊎ Member batch_held entered
release_reviewed_from h e here = cc
release_reviewed_from {s = s} h e (move {t = t} m rest) = elim (IsMove-unreviewed s t m h) [
  | inl k ↦ elim (release_reviewed_from k e rest) [ inl r ↦ inl (inr r) | inr r ↦ inr (inr r) ]
  | inr (inl k) ↦ inl (inl (sym k))
  | inr (inr k) ↦ inr (inl (sym k))
]

-- An inspection that was received gets past the review (a release approved by a person, a confirmed
-- nonconformance, an escalation, or any later state) only by way of a review or a batch hold.
pub release_reviewed :
    {t : InspectionStatus} {entered : List InspectionStatus}
    → unreviewed t ≡ false
    → Trail received entered t
    → Member review_required entered ⊎ Member batch_held entered
release_reviewed e trail = release_reviewed_from refl e trail

-- Where no automatic release is ahead.
abbrev no_auto : InspectionStatus → Bool
no_auto received = false
no_auto validated = false
no_auto inferencing = false
no_auto scored = false
no_auto auto_released = false
no_auto _ = true

IsMove-no_auto : (s t : InspectionStatus) → IsMove s t → no_auto s ≡ true → no_auto t ≡ true
unfolding transitions
IsMove-no_auto received t m h = ground arith
IsMove-no_auto validated t m h = ground arith
IsMove-no_auto _ t m h = ground arith

-- Once the inference has failed, or a review or a hold is on, no run of transitions ends in an
-- automatic release.
pub no_auto_release :
    (s : InspectionStatus) (entered : List InspectionStatus)
    → no_auto s ≡ true
    → ¬ Trail s entered auto_released
no_auto_release s entered h trail = go trail h refl
  where
    go :
        {a b : InspectionStatus} {l : List InspectionStatus}
        → Trail a l b
        → no_auto a ≡ true
        → b ≡ auto_released
        → ⊥
    go here k e = cc (sym k ∙ ap no_auto e)
    go {a = a} (move {t = t} m rest) k e = go rest (IsMove-no_auto a t m k) e

IsMove_iff :
    (s t : InspectionStatus) (l : List InspectionStatus)
    → (any_of (λ u. state_eq u t) l ≡ true) ↔ Member t l
IsMove_iff s t [] = (λ h. cc, λ m. absurd m)
IsMove_iff s t (u ∷ l) =
    let ih = IsMove_iff s t l in
    elim (Bool-cases (state_eq u t)) [
      | inl e ↦
          let same : u ≡ t =
            cc (parse-text_of u, parse-text_of t, (eq_iff (text_of u) (text_of t)).0 e) in
          (λ h. inl (sym same), λ m. rw (e, any_of))
      | inr e ↦ (
        λ h. inr (ih.0 (ground (arith, h, e))),
        λ m. elim m [ inl k ↦ absurd (differ e k) | inr k ↦ rw (e, any_of) (ih.1 k) ],
      )
    ]
  where
    differ : state_eq u t ≡ false → t ≡ u → ⊥
    differ e k = cc (sym e ∙ (eq_iff (text_of u) (text_of t)).1 (ap text_of (sym k)))

-- `assert_inspection_transition` accepts exactly the pairs of the table, and refuses any other pair
-- of states; a text that names no state is refused as unknown.
pub assert_inspection_transition_lem :
    ((s t : InspectionStatus)
      → (assert_inspection_transition (text_of s) (text_of t) ≡ none) ↔ IsMove s t)
    × ((current target : String)
        → (parse current ≡ none) ⊎ (parse target ≡ none)
        → assert_inspection_transition current target ≡ some unknown_state)
unfolding assert_inspection_transition
assert_inspection_transition_lem = (
  λ s t.
      let iff = IsMove_iff s t (transitions s) in
      (
        λ h. iff.0 (ground (arith, h, parse-text_of s, parse-text_of t)),
        λ m. ground (arith, iff.1 m, parse-text_of s, parse-text_of t),
      ),
  λ current target h. ground (arith, h),
)

-- A state, with a run of transitions to one that has none left.
abbrev Finishes : InspectionStatus → Type 0
Finishes s =
    (t : InspectionStatus) × (entered : List InspectionStatus) × Trail s entered t
    × (transitions t ≡ [])
