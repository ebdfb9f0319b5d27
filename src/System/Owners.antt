-- ===== src/System/Owners.antt =====
-- One worker has each key: what a worker's steps keep.
use habitat_operator.Base.{
  same-or-not, ℕ, String, Bool, true, false, none, some, List, [], ◌∷◌, ◌≡◌, ◌≢◌, refl, sym, ap,
  ◌∙◌, subst, ◌⊎◌, inl, inr,
}
use habitat_operator.State.{QueueCall, done}
use habitat_operator.System.Queue.{WorkQueue, Lawful, SameProcessed, Hands}
use habitat_operator.System.{Status, idle, reconciling, answering, System, set, initial}
use habitat_operator.System.Marks.{
  holds, EndsInDone, IsSound, quiet_processed, set_same, set_other, same_index,
}

module _ (queues : WorkQueue) (lawful : Lawful queues) where
  -- The keys that the queue has as processed are those that the workers hold, each of them one.
  pub record IsExclusive (s : System queues) : Type 0 where
    pub sound : (i : ℕ) → IsSound (s.status i)
    pub held :
        (i : ℕ) (k : String) → holds (s.status i) ≡ some k → queues.is_processed s.queue k ≡ true
    pub unique :
        (i j : ℕ) (k : String) → holds (s.status i) ≡ some k → holds (s.status j) ≡ some k → i ≡ j
    pub busy :
        (k : String)
        → queues.is_processed s.queue k ≡ true
        → (i : ℕ) × (holds (s.status i) ≡ some k)

  pub initial-IsExclusive : IsExclusive (initial queues)
  initial-IsExclusive = record {
    sound = λ i. tt;
    held = λ i k e. cc;
    unique = λ i j k e f. cc;
    busy = λ k e. absurd (none_processed k e);
  }
    where
      none_processed : (k : String) → queues.is_processed queues.empty k ≡ true → ⊥
      none_processed k e = cc (lawful.none_processed k)

  -- Nobody takes or leaves a key.
  pub same_marks :
      (s t : System queues)
      → SameProcessed queues s.queue t.queue
      → ((i : ℕ) → IsSound (t.status i))
      → ((i : ℕ) → holds (t.status i) ≡ holds (s.status i))
      → IsExclusive s
      → IsExclusive t
  same_marks s t same sound marks v = record {
    sound = sound;
    held = λ i k e. same k ∙ v.held i k (sym (marks i) ∙ e);
    unique = λ i j k e f. v.unique i j k (sym (marks i) ∙ e) (sym (marks j) ∙ f);
    busy = λ k e. let (i, h) = v.busy k (sym (same k) ∙ e) in (i, marks i ∙ h);
  }

  -- The property of each worker, after one of them has changed.
  each_set :
      (P : ℕ → Status → Type 0) (i : ℕ) (x : Status) (f : ℕ → Status)
      → P i x
      → ((j : ℕ) → j ≢ i → P j (f j))
      → (j : ℕ) → P j (set queues i x f j)
  each_set P i x f new old j = elim (same_index queues lawful i j) [
    | inl e ↦
        subst (λ n. P n (set queues i x f n)) (sym e)
          (subst (P i) (sym (set_same queues lawful i x f)) new)
    | inr n ↦ subst (P j) (sym (set_other queues lawful i j x f n)) (old j n)
  ]

  -- One worker changes its status, and holds what it held.
  pub same_mark :
      (s : System queues) (q : queues.Queue) (i : ℕ) (x : Status)
      → SameProcessed queues s.queue q
      → IsSound x
      → holds x ≡ holds (s.status i)
      → IsExclusive s
      → IsExclusive (record { queue = q; status = set queues i x s.status })
  same_mark s q i x same sound mark v =
      same_marks s (record { queue = q; status = set queues i x s.status }) same
        (each_set (λ j y. IsSound y) i x s.status sound (λ j n. v.sound j))
        (each_set (λ j y. holds y ≡ holds (s.status j)) i x s.status mark (λ j n. refl)) v

  free_and_taken : (b : Bool) → b ≡ false → b ≡ true → ⊥
  free_and_taken b e f = cc

  -- A worker that holds nothing takes a key.
  pub taken :
      (s : System queues) (q : queues.Queue) (i : ℕ) (k : String)
      → s.status i ≡ idle
      → Hands queues s.queue k q
      → IsExclusive s
      → IsExclusive (record { queue = q; status = set queues i (reconciling k) s.status })
  taken s q i k was h v = record {
    sound = each_set (λ j y. IsSound y) i (reconciling k) s.status tt (λ j n. v.sound j);
    held =
        each_set (λ j y. (l : String) → holds y ≡ some l → queues.is_processed q l ≡ true) i
          (reconciling k) s.status
          (λ l e. subst (λ m. queues.is_processed q m ≡ true) (same_key e) h.taken)
          (λ j n l e. h.others l (not_k j l e) ∙ v.held j l e);
    unique = λ a b l e f. elim (holder a l e) [
      | inl (ai, kl) ↦ elim (holder b l f) [
        | inl (bi, _) ↦ ai ∙ sym bi
        | inr g ↦ absurd (not_k b l g (sym kl))
      ]
      | inr d ↦ elim (holder b l f) [
        | inl (_, kl) ↦ absurd (not_k a l d (sym kl))
        | inr g ↦ v.unique a b l d g
      ]
    ];
    busy = λ l e. elim (known l) [
      | inl same ↦ (i, ap holds (set_same queues lawful i (reconciling k) s.status) ∙ ap some same)
      | inr n ↦
          let (j, g) = v.busy l (sym (h.others l n) ∙ e) in
          (j, ap holds (set_other queues lawful i j (reconciling k) s.status (not_i j l g)) ∙ g)
    ];
  }
    where
      same_key : {l : String} → some k ≡ some l → k ≡ l
      same_key e = cc

      not_k : (j : ℕ) (l : String) → holds (s.status j) ≡ some l → l ≢ k
      not_k j l e same =
          free_and_taken (queues.is_processed s.queue k) h.was_free
            (subst (λ m. queues.is_processed s.queue m ≡ true) same (v.held j l e))

      holder :
          (j : ℕ) (l : String)
          → holds (set queues i (reconciling k) s.status j) ≡ some l
          → ((j ≡ i) × (k ≡ l)) ⊎ (holds (s.status j) ≡ some l)
      holder =
          each_set
            (λ j y.
              (l : String) → holds y ≡ some l → ((j ≡ i) × (k ≡ l)) ⊎ (holds (s.status j) ≡ some l))
            i (reconciling k) s.status (λ l e. inl (refl, same_key e)) (λ j n l e. inr e)

      known : (l : String) → (k ≡ l) ⊎ (l ≢ k)
      known l = elim (same-or-not k l) [ inl e ↦ inl e | inr n ↦ inr (λ e. n (sym e)) ]

      not_i : (j : ℕ) (l : String) → holds (s.status j) ≡ some l → j ≢ i
      not_i j l e same = idle_holds (ap holds (sym was ∙ ap s.status (sym same)) ∙ e)
        where
          idle_holds : none ≡ some l → ⊥
          idle_holds x = cc

  -- A worker calls `Done` of the key that it holds.
  pub left :
      (s : System queues) (i : ℕ) (k : String)
      → s.status i ≡ answering k (done k ∷ [])
      → IsExclusive s
      → IsExclusive (record {
        queue = queues.apply (done k) s.queue;
        status = set queues i (answering k []) s.status;
      })
  left s i k was v = record {
    sound = each_set (λ j y. IsSound y) i (answering k []) s.status tt (λ j n. v.sound j);
    held = λ j l e. let (n, f) = kept j l e in lawful.done_others k l s.queue n ∙ v.held j l f;
    unique = λ a b l e f. v.unique a b l (kept a l e).1 (kept b l f).1;
    busy = λ l e.
        let n = still l e in
        let (j, g) = v.busy l (sym (lawful.done_others k l s.queue n) ∙ e) in
        (j, ap holds (set_other queues lawful i j (answering k []) s.status (not_i j l n g)) ∙ g);
  }
    where
      mine : holds (s.status i) ≡ some k
      mine = ap holds was

      same_key : {l : String} → some k ≡ some l → l ≡ k
      same_key e = cc

      kept :
          (j : ℕ) (l : String)
          → holds (set queues i (answering k []) s.status j) ≡ some l
          → (l ≢ k) × (holds (s.status j) ≡ some l)
      kept =
          each_set
            (λ j y. (l : String) → holds y ≡ some l → (l ≢ k) × (holds (s.status j) ≡ some l)) i
            (answering k []) s.status (λ l e. absurd (nothing e))
            (λ j n l e. ((λ same. n (v.unique j i k (e ∙ ap some same) mine)), e))
        where
          nothing : {l : String} → none ≡ some l → ⊥
          nothing e = cc

      still : (l : String) → queues.is_processed (queues.apply (done k) s.queue) l ≡ true → l ≢ k
      still l e same =
          free_and_taken (queues.is_processed (queues.apply (done k) s.queue) k)
            (lawful.done_processed k s.queue)
            (subst (λ m. queues.is_processed (queues.apply (done k) s.queue) m ≡ true) same e)

      not_i : (j : ℕ) (l : String) → l ≢ k → holds (s.status j) ≡ some l → j ≢ i
      not_i j l n e same = n (same_key (sym mine ∙ ap (λ m. holds (s.status m)) (sym same) ∙ e))

  -- A worker makes one of its calls.
  pub answered :
      (s : System queues) (i : ℕ) (k : String) (c : QueueCall) (calls : List QueueCall)
      → s.status i ≡ answering k (c ∷ calls)
      → EndsInDone k (c ∷ calls)
      → IsExclusive s
      → IsExclusive (record {
        queue = queues.apply c s.queue;
        status = set queues i (answering k calls) s.status;
      })
  answered s i k c [] was last v =
      subst
        (λ d. IsExclusive (record {
          queue = queues.apply d s.queue;
          status = set queues i (answering k []) s.status;
        }))
        (sym last) (left s i k (subst (λ d. s.status i ≡ answering k (d ∷ [])) last was) v)
  answered s i k c (d ∷ calls) was ends v =
      same_mark s (queues.apply c s.queue) i (answering k (d ∷ calls))
        (quiet_processed queues lawful c s.queue ends.0) ends.1 (sym (ap holds was)) v
