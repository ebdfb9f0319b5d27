-- ===== src/Lifecycle.antt =====
-- pkg/controller/v1beta2/controller.go: `New` and `Run`. `Run` starts goroutines for the informers
-- and the workers, which end once the context is cancelled; a wait group counts them. It is a step
-- relation: each step is one of `Run`'s own, the end of a goroutine, or the cancellation.
pub mod Group
pub mod Ends
pub mod Complete
use habitat_operator.Base.{
  ℕ, suc, ◌+◌, ◌-◌, String, Bool, true, false, Option, none, some, Result, ok, err, ◌≡◌, ◌<>◌,
}

-- `Config`, with the types of the libraries' clients and factories. A nil field is `none`.
pub record Config (RestClient Clientset ClusterConfig KubeFactory HabitatFactory : Type 0)
    : Type 0 where
  pub habitat_client : Option RestClient
  pub kubernetes_clientset : Option Clientset
  pub cluster_config : Option ClusterConfig
  pub kube_informer_factory : Option KubeFactory
  pub habitat_informer_factory : Option HabitatFactory
  pub namespace : String

-- `if x == nil { return nil, errors.New(…) }`
abbrev pub required : {A B : Type 0} → Option A → String → Result String B → Result String B
required none what next = err ("invalid controller config: no " <> what)
required (some _) what next = next

module _ {R C X K H L : Type 0} where
  -- The controller that is returned keeps the configuration and the logger; the queue and the
  -- recorder are new.
  unfoldable pub new : Config R C X K H → Option L → Result String (Config R C X K H × Option L)
  new config logger = required config.habitat_client "HabitatClient" (
      required config.kubernetes_clientset "KubernetesClientset" (
        required config.kube_informer_factory "KubeInformerFactory" (
          required config.habitat_informer_factory "HabitatInformerFactory"
            (required logger "logger" (ok (config, logger))))))

-- How far `Run` is: before `wg.Add`; waiting for the caches; in the loop that starts the workers,
-- with so many to go; waiting for the context; waiting for the wait group; returned, with the
-- context's error or with nil.
pub data Phase : Type 0 where
  starting syncing : Phase
  spawning : ℕ → Phase
  serving stopping : Phase
  ended : Bool → Phase

-- `group` is the counter of the wait group; `informers` and `consumers` are the goroutines that run.
pub record Run : Type 0 where
  pub phase : Phase
  pub cancelled : Bool
  pub queue_shut : Bool
  pub group : ℕ
  pub informers : ℕ
  pub consumers : ℕ

abbrev pub initial : Run
initial = record {
  phase = starting;
  cancelled = false;
  queue_shut = false;
  group = 0;
  informers = 0;
  consumers = 0;
}

-- `Run(ctx, workers)`. The call of `Done` on a counter of 0 would panic; `Group` shows that there is
-- none.
pub data Step (workers : ℕ) : Run → Run → Type 0 where
  -- The caches are registered, the pods watched, and the informers run.
  launch :
      (r : Run)
      → r.phase ≡ starting
      → Step workers r
          (record r { phase = syncing; group = r.group + (4 + workers); informers = 4 })
  cancel : (r : Run) → Step workers r (record r { cancelled = true })
  informer_done :
      (r : Run) (n : ℕ)
      → r.informers ≡ suc n
      → r.cancelled ≡ true
      → Step workers r (record r { informers = n; group = r.group - 1 })
  -- `cache.WaitForCacheSync` gives false only if the channel is closed.
  synced : (r : Run) → r.phase ≡ syncing → Step workers r (record r { phase = spawning workers })
  not_synced :
      (r : Run)
      → r.phase ≡ syncing
      → r.cancelled ≡ true
      → Step workers r (record r { phase = ended false })
  spawn :
      (r : Run) (n : ℕ)
      → r.phase ≡ spawning (suc n)
      → Step workers r (record r { phase = spawning n; consumers = suc r.consumers })
  spawned : (r : Run) → r.phase ≡ spawning 0 → Step workers r (record r { phase = serving })
  -- A worker waits in `Get` until the queue, which holds only texts, is shut down; then `wait.Until`
  -- ends, as the channel is closed.
  consumer_done :
      (r : Run) (n : ℕ)
      → r.consumers ≡ suc n
      → r.cancelled ≡ true
      → r.queue_shut ≡ true
      → Step workers r (record r { consumers = n; group = r.group - 1 })
  stop :
      (r : Run)
      → r.phase ≡ serving
      → r.cancelled ≡ true
      → Step workers r (record r { phase = stopping; queue_shut = true })
  wait :
      (r : Run)
      → r.phase ≡ stopping
      → r.group ≡ 0
      → Step workers r (record r { phase = ended true })

pub data Reach (workers : ℕ) (r : Run) : Run → Type 0 where
  here : Reach workers r r
  next : {s t : Run} → Reach workers r s → Step workers s t → Reach workers r t
