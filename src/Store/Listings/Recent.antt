-- ===== src/Store/Listings/Recent.antt =====
-- crates/gum-store/src/memory.rs: which runs `list_recent_runs` shows.
use gum.Prelude.{subst, arith, ◌||◌, ◌&&◌, ℕ, ◌+◌, ◌≡◌, ◌∙◌, refl, Bool, true, List, min}
use gum.Prelude.Int.{ltb_ℤ, eqb_ℤ}
use gum.Prelude.Lists.{length, All, count}
use gum.Prelude.Order.{
  cmp_text, not_after, cmp_ℤ-IsOrder, cmp_text-IsOrder, IsOrder, on-IsOrder, then_with-IsOrder,
  reverse-IsOrder, not_after-total, not_after_trans,
}
use gum.Prelude.Sort.{
  Sorted, drop, sort_by, sort_by-Sorted, take-Sorted, take_before_drop, count-sort_by,
  count-take-drop, length-sort_by, length-take,
}
use gum.Map.{values}
use gum.Types.{ok}
use gum.Models.{RunRecord}
use gum.Store.{MemoryStore}
use gum.Store.Listings.{cmp_recent, newest, list_recent_runs}

module _ {Json : Type 0} where
  cmp_recent-IsOrder : IsOrder (cmp_recent {Json = Json})
  unfolding cmp_recent
  cmp_recent-IsOrder = reverse-IsOrder (
      then_with-IsOrder
        (on-IsOrder cmp_ℤ-IsOrder (λ (run : RunRecord Json). run.scheduled_at_epoch_ms))
        (on-IsOrder cmp_text-IsOrder (λ (run : RunRecord Json). run.id)))

  -- The run is scheduled later than the other, or for the same moment with an identifier not before.
  abbrev pub not_older : RunRecord Json → RunRecord Json → Bool
  not_older left right =
      ltb_ℤ right.scheduled_at_epoch_ms left.scheduled_at_epoch_ms
      || (eqb_ℤ right.scheduled_at_epoch_ms left.scheduled_at_epoch_ms
          && not_after (cmp_text right.id left.id))

  in_order : RunRecord Json → RunRecord Json → Bool
  in_order left right = not_after (cmp_recent left right)

  in_order_lem : (left right : RunRecord Json) → in_order left right ≡ not_older left right
  unfolding in_order cmp_recent
  in_order_lem left right = ground arith

  -- The listed runs are the first of all the runs by an order, as many as the limit allows, in order;
  -- with the omitted ones they are all the runs.
  pub record IsFirstBy (order : RunRecord Json → RunRecord Json → Bool) (limit : ℕ)
      (runs listed : List (RunRecord Json)) : Type 0 where
    pub omitted : List (RunRecord Json)
    pub all_there : (p : RunRecord Json → Bool) → count p listed + count p omitted ≡ count p runs
    pub ordered : Sorted order listed
    pub before : All (λ run. All (λ other. order run other ≡ true) omitted) listed
    pub long : length listed ≡ min limit (length runs)

  abbrev pub IsNewest : ℕ → List (RunRecord Json) → List (RunRecord Json) → Type 0
  IsNewest = IsFirstBy not_older

  newest-IsFirstBy :
      (limit : ℕ) (runs : List (RunRecord Json)) → IsFirstBy in_order limit runs (newest limit runs)
  unfolding newest in_order
  newest-IsFirstBy limit runs =
      let sorted = sort_by in_order runs in
      let order =
        sort_by-Sorted in_order (not_after-total cmp_recent-IsOrder)
          (not_after_trans cmp_recent-IsOrder) runs in
      record {
        omitted = drop limit sorted;
        all_there = λ p. count-take-drop p limit sorted ∙ count-sort_by in_order p runs;
        ordered = take-Sorted in_order limit sorted order;
        before = take_before_drop in_order limit sorted order;
        long = rw (length-take limit sorted, length-sort_by in_order runs) refl;
      }

  newest-IsNewest :
      (limit : ℕ) (runs : List (RunRecord Json)) → IsNewest limit runs (newest limit runs)
  newest-IsNewest limit runs =
      subst (λ order. IsFirstBy order limit runs (newest limit runs))
        (λ i left right. in_order_lem left right i) (newest-IsFirstBy limit runs)

  -- The listing of recent runs shows the newest of the stored runs: as many as the limit allows, in
  -- order, the latest scheduled first and then the greater identifier, and none that it leaves out is newer
  -- than one that it shows; those shown and those left out are together the stored runs.
  pub list_recent_runs-IsNewest :
      (s : MemoryStore Json) (limit : ℕ)
      → (listed : List (RunRecord Json)) × (list_recent_runs s limit ≡ ok listed)
        × IsNewest limit (values s.state.runs) listed
  unfolding list_recent_runs
  list_recent_runs-IsNewest s limit =
      (newest limit (values s.state.runs), refl, newest-IsNewest limit (values s.state.runs))
