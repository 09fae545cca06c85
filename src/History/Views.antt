-- ===== src/History/Views.antt =====
-- What the listings of crates/gum-store/src/memory.rs show after a history.
use gum.Prelude.{ℕ, ◌^◌, ◌<◌, ◌≡◌, List, arith}
use gum.Prelude.Lists.{All}
use gum.Types.{ok}
use gum.Models.{ConcurrencyStatusRecord}
use gum.Queries.Schedule.Cron.{Calendar}
use gum.Store.{MemoryStore, default}
use gum.Store.Listings.Limits.{list_concurrency_status}
use gum.Store.Listings.Active.{ShowsActive, list_concurrency_status-ShowsActive}
use gum.History.{History}
use gum.History.Invariant.{DeploysFit, History-Lasting}
use gum.History.Guarantees.{default-Sound}

-- After every history of calls and deploys from the default store that takes fewer than 2 ^ 64
-- identifiers and whose deploys bring jobs with fewer than 2 ^ 32 - 1 retries: the listing of
-- concurrency limits shows of each job as many active runs as attempts run for it, which is the
-- number that leasing compares with the limit.
pub concurrency_listing_exact :
    {Json : Type 0} {empty_object : Json} {calendar : Calendar} {n : ℕ} {s : MemoryStore Json}
    (past : History empty_object calendar default n s)
    → n < 2 ^ 64
    → DeploysFit past
    → (statuses : List ConcurrencyStatusRecord) × (list_concurrency_status s ≡ ok statuses)
      × All (ShowsActive s.state) statuses
concurrency_listing_exact {s = s} past room fits =
    let inv = (History-Lasting default-Sound (omega arith) past fits).sound.inv.inv in
    list_concurrency_status-ShowsActive s inv.runs_keyed inv.single
