-- ===== src/Api/Handlers.antt =====
-- crates/gum-api/src/handlers.rs and app_state.rs: the handlers over a store and a secret store. A
-- handler checks its caller, calls the service, and turns an error into an answer.
pub mod Runs
pub mod Admin
pub mod Internal
pub mod Secrets
pub mod Access
use Prim.Native.String.{◌++◌ as append}
use gum.Prelude.{Option, none, some, String}
use gum.Types.{Result}
use gum.Queries.GumStore.{GumStore}
use gum.Api.Action.{Action}
use gum.Api.Auth.{
  ApiError, Answer, HeaderValue, StatusCode, internal, answer_of, require_admin, require_internal,
  require_api_or_admin,
}
use gum.Api.Secrets.{SecretStore}

module _ {Json : Type 0} (S : GumStore Json) (K : SecretStore) where
  pub record AppState : Type 0 where
    pub store : S.State
    pub secrets : K.State
    pub project_id : String
    pub api_key : String
    pub admin_key : String
    pub internal_key : String

  abbrev pub Handler : Type 0 → Type 0
  Handler A = AppState → Answer A × AppState

  module _ {A : Type 0} where
    -- Nothing is done where the caller is refused.
    abbrev pub after_check : Answer (Unit {0}) → Handler A → Handler A
    after_check (Answer.accepted _) handler app = handler app
    after_check (Answer.refused e) handler app = (Answer.refused e, app)

    unfoldable pub for_api : HeaderValue → Handler A → Handler A
    for_api authorization handler app =
        after_check (require_api_or_admin app.api_key app.admin_key authorization) handler app

    unfoldable pub for_admin : HeaderValue → Handler A → Handler A
    for_admin authorization handler app =
        after_check (require_admin app.admin_key authorization) handler app

    unfoldable pub for_runners : HeaderValue → Handler A → Handler A
    for_runners authorization handler app =
        after_check (require_internal app.internal_key authorization) handler app

    unfoldable pub on_store : Action S.State A → Handler A
    on_store action app =
        let (result, store) = action app.store in (answer_of result, record app { store = store })

    unfoldable pub read_store : (S.State → Result A) → Handler A
    read_store query app = (answer_of (query app.store), app)

    abbrev pub finish_task : String → AppState → Option (Result A × S.State) → Answer A × AppState
    finish_task message app none = (Answer.refused (internal message), app)
    finish_task message app (some (result, store)) =
        (answer_of result, record app { store = store })

    -- A task that may panic, with the message for that.
    unfoldable pub run_task : String → (S.State → Option (Result A × S.State)) → Handler A
    run_task message task app = finish_task message app (task app.store)

  -- What is looked up, or the answer that it is not there.
  abbrev pub found_or : {A : Type 0} → String → Answer (Option A) × AppState → Answer A × AppState
  found_or message (Answer.refused e, app) = (Answer.refused e, app)
  found_or message (Answer.accepted (some a), app) = (Answer.accepted a, app)
  found_or message (Answer.accepted none, app) =
      (Answer.refused (record { status = StatusCode.not_found; message = message }), app)
