-- ===== src/Accounts/PhasePromotion.antt =====
-- accounts/phase_promotion.py: validate_phase_transition, over `resolve` of config/firm_registry.py.
-- The texts of the errors are left out.
pub mod Legality
use td_sandboxed.Base.{
  ◌≡◌, Bool, true, false, not, ◌||◌, String, str_eq, Option, none, some, List, [], ◌∷◌,
  if◌then◌else◌,
}
use td_sandboxed.Base.Dict.{Dict, lookup}

pub record AccountPhase : Type 0 where
  pub phase_id : String
  pub allowed_transitions : List String

-- The registry: the phases of a product of a firm.
abbrev pub FirmRegistry : Type 0
FirmRegistry = Dict (Dict (Dict AccountPhase))

-- What is read of an account; a missing attribute is none.
pub record Account : Type 0 where
  pub firm_id : Option String
  pub product_id : Option String
  pub phase : Option String

abbrev pub find {ℓ} : {A B : Type ℓ} → Option A → (A → Option B) → Option B
find none k = none
find (some x) k = k x

-- `FirmRegistry.resolve`, as its callers here read it: none for a FirmRegistryError
unfoldable pub resolve : FirmRegistry → (firm product phase : String) → Option AccountPhase
resolve registry firm product phase =
    find (lookup firm registry)
      λ products. find (lookup product products) λ phases. lookup phase phases

-- Why a promotion is refused, in the order of the checks.
pub data PhasePromotionError : Type 0 where
  not_firm_bound already_in_phase unresolved not_declared : PhasePromotionError

pub data Promotion : Type 0 where
  from_to : AccountPhase → AccountPhase → Promotion
  refused : PhasePromotionError → Promotion

abbrev pub member : String → List String → Bool
member a [] = false
member a (b ∷ bs) = if str_eq b a then true else member a bs

-- The value of an attribute that is there and not empty
abbrev pub bound : Option String → Option String
bound none = none
bound (some text) = if str_eq text "" then none else some text

abbrev pub declared : AccountPhase → AccountPhase → String → Promotion
declared current target target_id =
    if member target_id current.allowed_transitions
    then from_to current target
    else refused not_declared

abbrev pub resolved : String → Option AccountPhase → Option AccountPhase → Promotion
resolved target_id (some current) (some target) = declared current target target_id
resolved target_id _ _ = refused unresolved

abbrev pub of_bound :
    FirmRegistry → String → Option String → Option String → Option String → Promotion
of_bound registry target_id (some firm) (some product) (some phase) =
    if str_eq target_id phase
    then refused already_in_phase
    else resolved target_id (resolve registry firm product phase)
        (resolve registry firm product target_id)
of_bound registry target_id _ _ _ = refused not_firm_bound

-- `validate_phase_transition`
unfoldable pub validate_phase_transition : FirmRegistry → Account → (target_id : String) → Promotion
unfolding resolve
validate_phase_transition registry account target_id =
    of_bound registry target_id (bound account.firm_id) (bound account.product_id)
      (bound account.phase)
