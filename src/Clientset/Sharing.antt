-- ===== src/Clientset/Sharing.antt =====
-- What `NewForConfig` makes of a configuration, and what it leaves as it is.
use habitat_operator.Base.{
  ℕ, suc, ◌≤◌, Bool, true, false, Option, some, Result, ok, err, ◌≡◌, refl, arith,
}
use habitat_operator.Memory.{Heap, Cells, put}
use habitat_operator.Copies.Grows.{IsWhole, Within}
use habitat_operator.Clientset.{
  Library, Config, Cell, a_config, a_limiter, Makers, HabitatV1beta1Client, Clientset, wrapped,
  with_defaults, v1beta1_new_for_config, with_discovery,
}

put_same : {C : Type 0} (f : Cells C) (p : ℕ) (c : C) → put f p c p ≡ some c
put_same f p c = ground arith

put_fresh :
    {C : Type 0} (h : Heap C) (f : Cells C) (p : ℕ) (c : C)
    → IsWhole h
    → h.next ≤ p
    → Within 0 h.cell f
    → Within 0 h.cell (put f p c)
put_fresh h f p c w n kept q d m e = ground (arith, w q, kept q d m e)

module _ (library : Library) (makers : Makers library) where
  unfoldable pub joined :
      Config library
      → Result library.Failure (HabitatV1beta1Client library)
      → Result library.Failure (Clientset library)
  joined config (err e) = err e
  joined config (ok client) = with_discovery library makers client (makers.discovery_for config)

  -- The client of Habitats, with the defaults.
  abbrev pub client_of : Config library → Result library.Failure (HabitatV1beta1Client library)
  client_of config = wrapped library makers (makers.rest_client_for (with_defaults library config))

  -- The clients of a configuration, without memory: the client of Habitats has its defaults, and the
  -- discovery client has not.
  unfoldable pub connected : Config library → Result library.Failure (Clientset library)
  unfolding joined
  connected config = joined config (client_of config)

  pub v1beta1_made :
      (p : ℕ) (h : Heap (Cell library)) (config : Config library)
      → IsWhole h
      → h.cell p ≡ some (a_config config)
      → (k : Heap (Cell library)) × (v1beta1_new_for_config library makers p h
          ≡ some (client_of config, k))
        × Within 0 h.cell k.cell
  unfolding v1beta1_new_for_config
  v1beta1_made p h config w there =
      let first = put h.cell h.next (a_config config) in
      let second = put first h.next (a_config (with_defaults library config)) in
      (
        record { next = suc h.next; cell = second },
        rw
            (
              there,
              put_same h.cell h.next (a_config config),
              put_same first h.next (a_config (with_defaults library config)),
            )
            refl,
        put_fresh h first h.next _ w (omega arith)
            (put_fresh h h.cell h.next _ w (omega arith) (λ q d m e. e)),
      )

  -- What the limiter of the clients is: that of the configuration, or else a new one, of the rate and
  -- the burst of the configuration, if the rate is positive.
  abbrev pub Limits : Config library → Bool → Option ℕ → Cells (Cell library) → Type 0
  Limits config false l f = l ≡ config.rate_limiter
  Limits config true l f = (p : ℕ) × (l ≡ some p) × (f p ≡ some (a_limiter config.qps config.burst))
