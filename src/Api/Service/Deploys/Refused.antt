-- ===== src/Api/Service/Deploys/Refused.antt =====
-- crates/gum-api/src/service.rs: a deploy that `register_deploy` refuses, over the in-memory store.
use gum.Prelude.{◌≡◌, some, String, arith}
use gum.Prelude.Int.{ℤ}
use gum.Types.{err}
use gum.Queries.Schedule.Cron.{Calendar}
use gum.Store.{MemoryStore}
use gum.Store.Deploys.{register_deploy as store_register_deploy}
use gum.Store.Instance.{memory_store}
use gum.Api.Routes.{RegisterDeployRequest}
use gum.Api.Service.Deploys.{register_deploy, store_deploy}

-- A deploy that is refused, for its rate limits, its schedules or its project, leaves the store as it is.
pub register_deploy-refused :
    {Json : Type 0} (empty_object : Json) (calendar : Calendar) (s t : MemoryStore Json)
    (request : RegisterDeployRequest) (now : ℤ) (message : String)
    → register_deploy (memory_store empty_object calendar) calendar s request now
      ≡ some (err message, t)
    → t ≡ s
unfolding register_deploy store_deploy store_register_deploy
register_deploy-refused empty_object calendar s t request now message h = ground arith
