-- ===== src/Backend/Domain/Tests.antt =====
-- Trails of single inspections, and the theorems about trails on them.
use vision_qc.Prelude.{List, [], ◌∷◌, refl, inl, inr}
use vision_qc.Backend.Domain.{
  InspectionStatus, received, validated, inferencing, scored, review_required, release_approved,
  nonconformance_confirmed, action_pending, action_executing, action_completed, verifying, closed,
  auto_released, transitions,
}
use vision_qc.Backend.Domain.Trails.{Trail, here, move, no_auto_release}

abbrev whole_life : List InspectionStatus
whole_life =
    validated ∷ inferencing ∷ scored ∷ review_required ∷ nonconformance_confirmed ∷ action_pending
    ∷ action_executing ∷ action_completed ∷ verifying ∷ closed ∷ []

life : Trail received whole_life closed
unfolding transitions
life = move (inl refl) (
    move (inl refl) (
      move (inl refl) (
        move (inr (inl refl)) (
          move (inr (inl refl)) (
            move (inl refl)
              (move (inl refl) (move (inl refl) (move (inl refl) (move (inl refl) here)))))))))

no_auto_release_example : ¬ Trail review_required (release_approved ∷ []) auto_released
no_auto_release_example = no_auto_release review_required (release_approved ∷ []) refl
