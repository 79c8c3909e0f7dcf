-- ===== src/Interaction.antt =====
-- Who may interact with whom: backend/app/services/interaction_relation_service.py and the block
-- relation of backend/app/services/user_block_service.py. The configuration is taken as it is
-- loaded, with the key of the customer service account if that is enabled.
pub mod Rules
use new1v.Prelude.{
  ℕ, Bool, true, false, not, ◌&&◌, ◌||◌, Option, none, some, List, [], ◌∷◌, ltb, ◌==◌,
  if◌then◌else◌,
}
use new1v.Records.{AppUser, Gender, male, female}

pub data InteractionAction : Type 0 where
  follow im_text call gift : InteractionAction

pub record RuleFlags : Type 0 where
  pub opposite_gender_enabled : Bool
  pub certified_mix_enabled : Bool

pub record InteractionRelationRuntime : Type 0 where
  pub rule_flags : InteractionAction → RuleFlags
  pub customer_service_user_id : Option ℕ

pub data InteractionRelationError : Type 0 where
  customer_service_only opposite_gender_only certified_mix_only : InteractionRelationError

unfoldable pub is_customer_service_participant : ℕ → ℕ → Option ℕ → Bool
is_customer_service_participant actor_id target_id none = false
is_customer_service_participant actor_id target_id (some id) =
    ltb 0 id && ((actor_id == id) || (target_id == id))

unfoldable pub is_opposite_gender : Gender → Gender → Bool
is_opposite_gender male female = true
is_opposite_gender female male = true
is_opposite_gender _ _ = false

unfoldable pub is_certified_mix : Bool → Bool → Bool
is_certified_mix true b = not b
is_certified_mix false b = b

abbrev is_im_text : InteractionAction → Bool
is_im_text im_text = true
is_im_text _ = false

-- `none` lets the action through; an error is the exception raised.
unfoldable pub ensure_interaction_allowed :
    InteractionAction
    → (actor_id : ℕ) → AppUser
    → (target_id : ℕ) → AppUser
    → (bypass_limits : Bool) → InteractionRelationRuntime
    → Option InteractionRelationError
unfolding is_customer_service_participant is_opposite_gender is_certified_mix
ensure_interaction_allowed action actor_id actor target_id target bypass_limits runtime =
    let flags = runtime.rule_flags action in
    if bypass_limits
    then none
    else if is_customer_service_participant actor_id target_id runtime.customer_service_user_id
    then if is_im_text action then none else some customer_service_only
    else if flags.opposite_gender_enabled && not (is_opposite_gender actor.gender target.gender)
    then some opposite_gender_only
    else if flags.certified_mix_enabled
        && not (is_certified_mix actor.is_certified_user target.is_certified_user)
    then some certified_mix_only
    else none

-- A block is the pair of the blocker and the blocked.
unfoldable pub has_block : ℕ → ℕ → List (ℕ × ℕ) → Bool
has_block blocker blocked [] = false
has_block blocker blocked ((a, b) ∷ rows) =
    ((a == blocker) && (b == blocked)) || has_block blocker blocked rows

-- `ensure_not_blocked`: true where it raises.
unfoldable pub interaction_blocked : ℕ → ℕ → List (ℕ × ℕ) → Bool
interaction_blocked actor_id target_id rows =
    if not (ltb 0 actor_id) || not (ltb 0 target_id) || (actor_id == target_id)
    then false
    else has_block actor_id target_id rows || has_block target_id actor_id rows
