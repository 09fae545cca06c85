-- ===== src/Lifecycle/Refine.antt =====
-- The relation between the store of crates/gum-store/src/memory.rs before and after an operation:
-- moves of the abstract machine, and identifiers that stay new.
use gum.Prelude.{◌≤◌, ◌≡◌, refl}
use gum.Store.{MemoryStore, default}
use gum.Lifecycle.{core, Moves, stay, Moves-trans, Moves-same_jobs}
use gum.Map.{get-empty}
use gum.Map.Keyed.{Keyed}
use gum.Lifecycle.Ids.{FreshAbove, later-FreshAbove}
use gum.Lifecycle.Invariant.{Inv, Moves-Inv, empty-Inv}

pub record IsFresh {Json : Type 0} (s : MemoryStore Json) : Type 0 where
  pub runs : FreshAbove "run" s.ids s.state.runs
  pub attempts : FreshAbove "att" s.ids s.state.attempts

pub record StoreInv {Json : Type 0} (s : MemoryStore Json) : Type 0 where
  pub inv : Inv (core s)
  pub fresh : IsFresh s
  pub jobs_keyed : Keyed (λ j. j.id) s.state.jobs

pub record Refines {Json : Type 0} (s t : MemoryStore Json) : Type 0 where
  pub moves : Moves (core s) (core t)
  pub fresh : IsFresh t

module _ {Json : Type 0} where
  pub Refines-refl : (s : MemoryStore Json) → StoreInv s → Refines s s
  Refines-refl s h = record { moves = stay; fresh = h.fresh }

  pub Refines-StoreInv : {s t : MemoryStore Json} → StoreInv s → Refines s t → StoreInv t
  Refines-StoreInv h r = record {
    inv = Moves-Inv r.moves h.inv;
    fresh = r.fresh;
    jobs_keyed = rw (Moves-same_jobs r.moves) h.jobs_keyed;
  }

  -- What changes neither runs nor attempts nor jobs, and may take identifiers.
  pub Refines-drift :
      {s t : MemoryStore Json} (w : MemoryStore Json)
      → t.ids ≤ w.ids
      → w.state.jobs ≡ t.state.jobs
      → w.state.runs ≡ t.state.runs
      → w.state.attempts ≡ t.state.attempts
      → Refines s t
      → Refines s w
  Refines-drift {s} {t} w le ej er ea r = record {
    moves = rw (ej, er, ea) r.moves;
    fresh = record {
      runs = rw er (later-FreshAbove "run" t.ids w.ids t.state.runs le r.fresh.runs);
      attempts = rw ea (later-FreshAbove "att" t.ids w.ids t.state.attempts le r.fresh.attempts);
    };
  }

  pub Refines-trans : {s t w : MemoryStore Json} → Refines s t → Refines t w → Refines s w
  Refines-trans p q = record { moves = Moves-trans p.moves q.moves; fresh = q.fresh }

pub default-StoreInv : {Json : Type 0} → StoreInv (default {Json = Json})
default-StoreInv = record {
  inv = empty-Inv refl refl;
  fresh = record { runs = λ n _. get-empty _; attempts = λ n _. get-empty _ };
  jobs_keyed = tt;
}
