-- ===== src/Worker/PlanController/Late.antt =====
-- core/worker/plan_controller.cpp: a fetch that ends after its partition has left.
use tangram.Base.{ℕ, ◌≡◌, ◌&&◌, [], get, has, member, pos}
use tangram.Worker.PlanController.{PlanController, same_collection}
use tangram.Worker.PlanController.Leaves.{Leaves}

-- What is left of the partition on the node that it has left.
record Left (p : ℕ) (s s' : PlanController) : Type 0 where
  updates : has p s'.running_updates ≡ has p s.running_updates
  maps :
      (same_collection s' && member p s'.running_maps)
      ≡ (same_collection s && member p s.running_maps)
  fetches : get (pos 0) p s'.running_fetches ≡ get (pos 0) p s.running_fetches
  waiting : get [] p s'.waiting_updates ≡ []
