-- ===== src/Api/Handlers/Admin.antt =====
-- crates/gum-api/src/handlers.rs: the listings, which the admin key opens.
use gum.Prelude.Int.{ℤ}
use gum.Queries.GumStore.{GumStore}
use gum.Api.Auth.{HeaderValue}
use gum.Api.Secrets.{SecretStore}
use gum.Api.Routes.{
  RunsListResponse, RunnersListResponse, LeasesListResponse, ConcurrencyListResponse,
  RateLimitListResponse, ProviderHealthListResponse,
}
use gum.Api.Handlers.{Handler, for_admin, read_store}
use gum.Api.Service.Views as views_service

module _ {Json : Type 0} (S : GumStore Json) (K : SecretStore) (authorization : HeaderValue) where
  pub list_runs : ℤ → Handler S K RunsListResponse
  list_runs now =
      for_admin S K authorization (read_store S K (λ s. views_service.list_runs S s 50 now))

  pub list_runners : Handler S K RunnersListResponse
  list_runners = for_admin S K authorization (read_store S K (views_service.list_runners S))

  pub list_leases : Handler S K LeasesListResponse
  list_leases = for_admin S K authorization (read_store S K (views_service.list_leases S))

  pub list_concurrency : Handler S K ConcurrencyListResponse
  list_concurrency = for_admin S K authorization (read_store S K (views_service.list_concurrency S))

  pub list_rate_limits : ℤ → Handler S K RateLimitListResponse
  list_rate_limits now =
      for_admin S K authorization (read_store S K (λ s. views_service.list_rate_limits S s now))

  pub list_provider_health : Handler S K ProviderHealthListResponse
  list_provider_health =
      for_admin S K authorization (read_store S K (views_service.list_provider_health S))
