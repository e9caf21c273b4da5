-- ===== src/Application/States.antt =====
-- src/alert2ir/application/persistence.py: the states of a processing and of its attempt, and the
-- table of allowed transitions.
use alert2ir.Prelude.{
  true, String, ℕ, nat_eq, ◌≡◌, ◌↔◌, arith, List, [], ◌∷◌, Bool, false, ◌||◌, Eq, ◌==◌,
}

pub data ProcessingState : Type 0 where
  accepted planned submitting submitted completed failed recovery_required : ProcessingState

pub data ExecutionAttemptState : Type 0 where
  planned submitting submitted completed failed recovery_required : ExecutionAttemptState

-- state.value
abbrev pub processing_state_value : ProcessingState → String
processing_state_value ProcessingState.accepted = "accepted"
processing_state_value ProcessingState.planned = "planned"
processing_state_value ProcessingState.submitting = "submitting"
processing_state_value ProcessingState.submitted = "submitted"
processing_state_value ProcessingState.completed = "completed"
processing_state_value ProcessingState.failed = "failed"
processing_state_value ProcessingState.recovery_required = "recovery_required"

-- The members are told apart by their positions.
abbrev processing_state_index : ProcessingState → ℕ
processing_state_index ProcessingState.accepted = 0
processing_state_index ProcessingState.planned = 1
processing_state_index ProcessingState.submitting = 2
processing_state_index ProcessingState.submitted = 3
processing_state_index ProcessingState.completed = 4
processing_state_index ProcessingState.failed = 5
processing_state_index ProcessingState.recovery_required = 6

abbrev attempt_state_index : ExecutionAttemptState → ℕ
attempt_state_index ExecutionAttemptState.planned = 0
attempt_state_index ExecutionAttemptState.submitting = 1
attempt_state_index ExecutionAttemptState.submitted = 2
attempt_state_index ExecutionAttemptState.completed = 3
attempt_state_index ExecutionAttemptState.failed = 4
attempt_state_index ExecutionAttemptState.recovery_required = 5

abbrev pub same_processing_state : ProcessingState → ProcessingState → Bool
same_processing_state a b = nat_eq (processing_state_index a) (processing_state_index b)

abbrev pub same_attempt_state : ExecutionAttemptState → ExecutionAttemptState → Bool
same_attempt_state a b = nat_eq (attempt_state_index a) (attempt_state_index b)

pub same_processing_state_iff :
    (a b : ProcessingState) → (same_processing_state a b ≡ true) ↔ (a ≡ b)
same_processing_state_iff a b = ground arith

pub same_attempt_state_iff :
    (a b : ExecutionAttemptState) → (same_attempt_state a b ≡ true) ↔ (a ≡ b)
same_attempt_state_iff a b = ground arith

instance abbrev pub processing_state_equality : Eq ProcessingState
processing_state_equality = record {
  equal = same_processing_state;
  equal_iff = same_processing_state_iff;
}

instance abbrev pub attempt_state_equality : Eq ExecutionAttemptState
attempt_state_equality = record { equal = same_attempt_state; equal_iff = same_attempt_state_iff }

-- state in {…}
abbrev pub member {ℓ} : {A : Type ℓ} ⦃e : Eq A⦄ → A → List A → Bool
member a [] = false
member a (x ∷ xs) = a == x || member a xs

unfoldable pub terminal_processing_states : List ProcessingState
terminal_processing_states = ProcessingState.completed ∷ ProcessingState.failed ∷ []

abbrev pub active_attempt_states : List ExecutionAttemptState
active_attempt_states =
    ExecutionAttemptState.planned ∷ ExecutionAttemptState.submitting
    ∷ ExecutionAttemptState.submitted ∷ ExecutionAttemptState.recovery_required ∷ []

unfoldable pub allowed_processing_transitions : ProcessingState → List ProcessingState
allowed_processing_transitions ProcessingState.accepted =
    ProcessingState.planned ∷ ProcessingState.completed ∷ ProcessingState.failed ∷ []
allowed_processing_transitions ProcessingState.planned =
    ProcessingState.submitting ∷ ProcessingState.failed ∷ []
allowed_processing_transitions ProcessingState.submitting =
    ProcessingState.submitted ∷ ProcessingState.failed ∷ ProcessingState.recovery_required ∷ []
allowed_processing_transitions ProcessingState.submitted =
    ProcessingState.submitted ∷ ProcessingState.completed ∷ ProcessingState.failed
    ∷ ProcessingState.recovery_required ∷ []
allowed_processing_transitions ProcessingState.completed = []
allowed_processing_transitions ProcessingState.failed = []
allowed_processing_transitions ProcessingState.recovery_required =
    ProcessingState.submitted ∷ ProcessingState.failed ∷ []

unfoldable pub processing_transition_allowed : ProcessingState → ProcessingState → Bool
unfolding allowed_processing_transitions
processing_transition_allowed from to = member to (allowed_processing_transitions from)
