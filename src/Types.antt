-- ===== src/Types.antt =====
-- crates/gum-types/src/lib.rs: the enumerations that the crates share, with the equality tests
-- that `derive(PartialEq)` gives, and the result type of the fallible operations.
use gum.Prelude.{
  ℕ, ◌≡◌, ◌⊎◌, inl, inr, refl, ap, ◌↔◌, Bool, true, some, unwrap_or, String, arith, ◌==◌,
}

pub data TriggerType : Type 0 where
  enqueue schedule replay backfill : TriggerType

pub data RunStatus : Type 0 where
  queued running succeeded failed timed_out canceled : RunStatus

pub data AttemptStatus : Type 0 where
  queued leased running succeeded failed timed_out canceled : AttemptStatus

pub data DeployStatus : Type 0 where
  registering warming warmup_failed ready failed : DeployStatus

-- `Result<A, String>`
pub data Result {ℓ} (A : Type ℓ) : Type ℓ where
  ok : A → Result A
  err : String → Result A

pub Result-cases {ℓ} :
    {A : Type ℓ} (r : Result A) → ((a : A) × (r ≡ ok a)) ⊎ ((e : String) × (r ≡ err e))
Result-cases (ok a) = inl (a, refl)
Result-cases (err e) = inr (e, refl)

infixl 5 ◌>>=◌
abbrev pub ◌>>=◌ {ℓ κ} : {A : Type ℓ} {B : Type κ} → Result A → (A → Result B) → Result B
ok a >>= f = f a
err e >>= f = err e

trigger_type_tag : TriggerType → ℕ
trigger_type_tag TriggerType.enqueue = 0
trigger_type_tag TriggerType.schedule = 1
trigger_type_tag TriggerType.replay = 2
trigger_type_tag TriggerType.backfill = 3

run_status_tag : RunStatus → ℕ
run_status_tag RunStatus.queued = 0
run_status_tag RunStatus.running = 1
run_status_tag RunStatus.succeeded = 2
run_status_tag RunStatus.failed = 3
run_status_tag RunStatus.timed_out = 4
run_status_tag RunStatus.canceled = 5

attempt_status_tag : AttemptStatus → ℕ
attempt_status_tag AttemptStatus.queued = 0
attempt_status_tag AttemptStatus.leased = 1
attempt_status_tag AttemptStatus.running = 2
attempt_status_tag AttemptStatus.succeeded = 3
attempt_status_tag AttemptStatus.failed = 4
attempt_status_tag AttemptStatus.timed_out = 5
attempt_status_tag AttemptStatus.canceled = 6

deploy_status_tag : DeployStatus → ℕ
deploy_status_tag DeployStatus.registering = 0
deploy_status_tag DeployStatus.warming = 1
deploy_status_tag DeployStatus.warmup_failed = 2
deploy_status_tag DeployStatus.ready = 3
deploy_status_tag DeployStatus.failed = 4

unfoldable pub trigger_type_eq : TriggerType → TriggerType → Bool
unfolding trigger_type_tag
trigger_type_eq a b = trigger_type_tag a == trigger_type_tag b

unfoldable pub run_status_eq : RunStatus → RunStatus → Bool
unfolding run_status_tag
run_status_eq a b = run_status_tag a == run_status_tag b

unfoldable pub attempt_status_eq : AttemptStatus → AttemptStatus → Bool
unfolding attempt_status_tag
attempt_status_eq a b = attempt_status_tag a == attempt_status_tag b

unfoldable pub deploy_status_eq : DeployStatus → DeployStatus → Bool
unfolding deploy_status_tag
deploy_status_eq a b = deploy_status_tag a == deploy_status_tag b

pub some_inj : {A : Type 0} {a b : A} → some a ≡ some b → a ≡ b
some_inj {a} h = ap (λ o. unwrap_or o a) h

pub run_status_eq_iff : (a b : RunStatus) → (run_status_eq a b ≡ true) ↔ (a ≡ b)
unfolding run_status_eq
run_status_eq_iff a b = ground arith

pub attempt_status_eq_iff : (a b : AttemptStatus) → (attempt_status_eq a b ≡ true) ↔ (a ≡ b)
unfolding attempt_status_eq
attempt_status_eq_iff a b = ground arith

pub deploy_status_eq_iff : (a b : DeployStatus) → (deploy_status_eq a b ≡ true) ↔ (a ≡ b)
unfolding deploy_status_eq
deploy_status_eq_iff a b = ground arith
