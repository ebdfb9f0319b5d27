-- ===== src/Worker.antt =====
-- pkg/controller/v1beta2/controller.go: `worker` and `processNextItem`. What the queue hands out is
-- an argument: a key, an item of another type, or that the queue was shut down.
pub mod Laws
pub mod Responds
use habitat_operator.Base.{
  String, Bool, true, false, List, [], ◌∷◌, Outcome, returns, fails, panics, pure, panic, ◌>>=◌,
  ◌>>◌, if◌then◌else◌,
}
use habitat_operator.Kube.Api.{Api}
use habitat_operator.State.{Act, Error, add_rate_limited, forget, done, queue_call}
use habitat_operator.Conform.{conform}

-- `key, quit := hc.queue.Get()`
pub data Got : Type 0 where
  quit : Got
  key : String → Got
  not_a_key : Got

module _ (api : Api) where
  -- What follows `conform`. `Done` is deferred, so it comes last, and also runs on a panic.
  conformed : String → Outcome (Error api.Failure) (Unit {0}) → Act api Bool
  conformed k (fails e) = do queue_call api (add_rate_limited k); queue_call api (done k); pure true
  conformed k (returns _) = do queue_call api (forget k); queue_call api (done k); pure true
  conformed k panics = do queue_call api (done k); panic

  -- The item that is no string is not the one that is forgotten: that is the zero value "".
  unfoldable pub process_next_item : Got → Act api Bool
  unfolding conformed
  process_next_item quit s = (returns false, s)
  process_next_item not_a_key s = (do queue_call api (forget ""); pure false) s
  process_next_item (key k) s = let r = conform api k s in conformed k r.0 r.1

  -- `for hc.processNextItem() {}`, over what the queue hands out.
  unfoldable pub worker : List Got → Act api (Unit {0})
  worker [] = pure tt
  worker (g ∷ gs) =
      λ s. let rest = worker gs in (do more ← process_next_item g; if more then rest else pure tt) s
