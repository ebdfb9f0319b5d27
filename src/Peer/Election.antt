-- ===== src/Peer/Election.antt =====
-- The abstract view of the peer ConfigMap: an election among the pods that run; and what `is_running`
-- says of them.
use habitat_operator.Base.{
  false, ◌≢◌, String, ◌==◌, eq_iff, true, Option, some, List, [], ◌∷◌, ◌≡◌, refl, sym, ◌∙◌, ap, inl,
  inr, Bool-cases, arith, Among,
}
use habitat_operator.Kube.Objects.{Pod}
use habitat_operator.Peer.{is_running}

-- The leader among the running pods: none has the empty address, and otherwise it is one of them.
abbrev pub IsChosen : List Pod → Option String → Type 0
IsChosen [] leader = leader ≡ some ""
IsChosen (p ∷ pods) leader = (q : Pod) × Among q (p ∷ pods) × (leader ≡ some q.pod_ip)

-- The abstract view of the peer ConfigMap: a register that holds an address, and the pods that
-- run when it is looked at. Nobody is the leader where no pod runs; a leader that runs stays; and
-- where the leader does not run, or there is none yet, it is the first of the pods.
pub data Elects (pods : List Pod) (before : Option String) (after : String) : Type 0 where
  nobody : pods ≡ [] → after ≡ "" → Elects pods before after
  stays :
      (q : Pod)
      → Among q pods
      → before ≡ some q.pod_ip
      → after ≡ q.pod_ip
      → Elects pods before after
  chosen :
      (p : Pod) (others : List Pod)
      → pods ≡ p ∷ others
      → ((q : Pod) → Among q pods → before ≢ some q.pod_ip)
      → after ≡ p.pod_ip
      → Elects pods before after

-- The register holds what an election gave.
abbrev pub IsElected : List Pod → Option String → Option String → Type 0
IsElected pods before leader = (after : String) × (leader ≡ some after) × Elects pods before after

pub IsElected-IsChosen :
    (pods : List Pod) (before leader : Option String)
    → IsElected pods before leader
    → IsChosen pods leader
IsElected-IsChosen [] before leader (a, e, nobody _ f) = e ∙ ap some f
IsElected-IsChosen [] before leader (a, e, stays q m _ _) = elim m [ ]
IsElected-IsChosen [] before leader (a, e, chosen p others f _ _) = cc
IsElected-IsChosen (p ∷ pods) before leader (a, e, nobody f _) = cc
IsElected-IsChosen (p ∷ pods) before leader (a, e, stays q m _ f) = (q, m, e ∙ ap some f)
IsElected-IsChosen (p ∷ pods) before leader (a, e, chosen q others f _ g) =
    (p, inl refl, e ∙ ap some (g ∙ ap (λ (x : Pod). x.pod_ip) (sym (head_eq f))))
  where
    head_eq : (p ∷ pods) ≡ (q ∷ others) → p ≡ q
    head_eq h = cc

pub is_running_sound :
    (ip : String) (pods : List Pod)
    → is_running ip pods ≡ true
    → (q : Pod) × Among q pods × (ip ≡ q.pod_ip)
unfolding is_running
is_running_sound ip [] e = cc
is_running_sound ip (p ∷ pods) e = elim (Bool-cases (p.pod_ip == ip)) [
  | inl same ↦ (p, inl refl, sym ((eq_iff p.pod_ip ip).0 same))
  | inr differ ↦ let (q, m, f) = is_running_sound ip pods (ground arith) in (q, inr m, f)
]

pub is_running_complete :
    (ip : String) (pods : List Pod)
    → is_running ip pods ≡ false
    → (q : Pod) → Among q pods
    → some ip ≢ some q.pod_ip
unfolding is_running
is_running_complete ip [] e q m = elim m [ ]
is_running_complete ip (p ∷ pods) e q (inl m) =
    λ f. ground (arith, eq_iff p.pod_ip ip, ap (λ (x : Pod). x.pod_ip) m, some_eq f)
  where
    some_eq : some ip ≡ some q.pod_ip → ip ≡ q.pod_ip
    some_eq h = cc
is_running_complete ip (p ∷ pods) e q (inr m) = is_running_complete ip pods (ground arith) q m
