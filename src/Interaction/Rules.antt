-- ===== src/Interaction/Rules.antt =====
-- Laws of the interaction rules.
use new1v.Prelude.{ℕ, ◌≡◌, refl, Bool, true, false, Option, none, some, List, arith}
use new1v.Records.{AppUser, Gender, male, female}
use new1v.Interaction.{
  InteractionAction, InteractionRelationRuntime, is_customer_service_participant,
  is_opposite_gender, is_certified_mix, ensure_interaction_allowed, interaction_blocked,
}

gender_comm : (a b : Gender) → is_opposite_gender a b ≡ is_opposite_gender b a
unfolding is_opposite_gender
gender_comm male male = refl
gender_comm male female = refl
gender_comm female male = refl
gender_comm female female = refl

mix_comm : (a b : Bool) → is_certified_mix a b ≡ is_certified_mix b a
unfolding is_certified_mix
mix_comm true true = refl
mix_comm true false = refl
mix_comm false true = refl
mix_comm false false = refl

participant_comm :
    (a b : ℕ) (id : Option ℕ)
    → is_customer_service_participant a b id ≡ is_customer_service_participant b a id
unfolding is_customer_service_participant
participant_comm a b none = refl
participant_comm a b (some id) = ground arith

-- The rules treat the two users alike: with actor and target exchanged the answer is the same.
pub interaction_symmetric :
    (action : InteractionAction) (a b : ℕ) (u v : AppUser) (bypass : Bool)
    (runtime : InteractionRelationRuntime)
    → ensure_interaction_allowed action a u b v bypass runtime
      ≡ ensure_interaction_allowed action b v a u bypass runtime
unfolding ensure_interaction_allowed
interaction_symmetric action a b u v bypass runtime = rw (
  participant_comm a b runtime.customer_service_user_id,
  gender_comm u.gender v.gender,
  mix_comm u.is_certified_user v.is_certified_user,
)

-- Blocking works both ways: neither may interact with the other.
pub interaction_blocked_symmetric :
    (a b : ℕ) (rows : List (ℕ × ℕ)) → interaction_blocked a b rows ≡ interaction_blocked b a rows
unfolding interaction_blocked
interaction_blocked_symmetric a b rows = ground arith
