-- ===== src/Tests/Queues.antt =====
-- A work queue of lists, that keeps the laws.
use habitat_operator.Base.{
  String, ◌==◌, eq_iff, Bool, true, false, ◌||◌, Option, none, some, List, [], ◌∷◌, ◌++◌, ◌≡◌, ◌≢◌,
  refl, subst, inl, inr, if◌then◌else◌, Bool-cases, same-or-not, arith,
}
use habitat_operator.State.{QueueCall, add, add_rate_limited, forget, done}
use habitat_operator.System.Queue.{WorkQueue, Lawful, IsWaiting, Hands}

abbrev is_in : String → List String → Bool
is_in k [] = false
is_in k (x ∷ xs) = x == k || is_in k xs

abbrev without : String → List String → List String
without k [] = []
without k (x ∷ xs) = let rest = without k xs in if x == k then rest else x ∷ rest

abbrev first_free : List String → List String → Option String
first_free [] processed = none
first_free (k ∷ due) processed = if is_in k processed then first_free due processed else some k

pub record Lists : Type 0 where
  pub due : List String
  pub delayed : List String
  pub processed : List String
  pub opened : Bool

abbrev asked_of : Lists → QueueCall → Lists
asked_of q (add k) = record q { due = q.due ++ (k ∷ []) }
asked_of q (add_rate_limited k) = record q { delayed = k ∷ q.delayed }
asked_of q (forget k) = q
asked_of q (done k) = q

abbrev apply_call : QueueCall → Lists → Lists
apply_call (done k) q = record q { processed = without k q.processed }
apply_call c q = if q.opened then asked_of q c else q

abbrev hand_out : Lists → Option String → Option (String × Lists)
hand_out q none = none
hand_out q (some k) = some (k, record q { due = without k q.due; processed = k ∷ q.processed })

abbrev pub lists : WorkQueue
lists = record {
  Queue = Lists;
  empty = record { due = []; delayed = []; processed = []; opened = true };
  apply = apply_call;
  get = λ q. hand_out q (first_free q.due q.processed);
  wait = λ q. if q.opened then record q { due = q.due ++ q.delayed; delayed = [] } else q;
  shut_down = λ q. record q { opened = false };
  is_open = λ q. q.opened;
  is_due = λ q k. is_in k q.due;
  is_delayed = λ q k. is_in k q.delayed;
  is_processed = λ q k. is_in k q.processed;
}

is_in-append : (k : String) (xs ys : List String) → is_in k (xs ++ ys) ≡ (is_in k xs || is_in k ys)
is_in-append k [] ys = refl
is_in-append k (x ∷ xs) ys = ground (arith, is_in-append k xs ys)

is_in-without : (k : String) (xs : List String) → is_in k (without k xs) ≡ false
is_in-without k [] = refl
is_in-without k (x ∷ xs) = ground (arith, is_in-without k xs)

is_in-without_ne : (k j : String) (xs : List String) → j ≢ k → is_in j (without k xs) ≡ is_in j xs
is_in-without_ne k j [] n = refl
is_in-without_ne k j (x ∷ xs) n = ground (arith, is_in-without_ne k j xs n, eq_iff x k, eq_iff x j)

free_free :
    (due processed : List String) (k : String)
    → first_free due processed ≡ some k
    → is_in k processed ≡ false
free_free [] processed k e = cc
free_free (x ∷ due) processed k e = ground (arith, free_free due processed k)

none_free :
    (due processed : List String)
    → first_free due processed ≡ none
    → (k : String) → is_in k due ≡ true
    → is_in k processed ≡ true
none_free [] processed e k m = cc
none_free (x ∷ due) processed e k m = elim (Bool-cases (is_in x processed)) [
  | inl taken ↦ elim (same-or-not x k) [
    | inl same ↦ subst (λ y. is_in y processed ≡ true) same taken
    | inr differ ↦
        none_free due processed (ground (arith, e, taken)) k (ground (arith, m, eq_iff x k, differ))
  ]
  | inr free ↦ absurd (ground (arith, e, free))
]

-- A call keeps what waits.
call_waits :
    (c : QueueCall) (q : Lists) (k : String)
    → IsWaiting lists q k
    → IsWaiting lists (apply_call c q) k
call_waits (add j) q k w = ground (arith, w, is_in-append k q.due (j ∷ []))
call_waits (add_rate_limited j) q k w = ground (arith, w)
call_waits (forget j) q k w = ground (arith, w)
call_waits (done j) q k w = w

handed :
    (q r : Lists) (k : String)
    → hand_out q (first_free q.due q.processed) ≡ some (k, r)
    → Hands lists q k r
handed q r k e = found (first_free q.due q.processed) refl e
  where
    found :
        (o : Option String)
        → first_free q.due q.processed ≡ o
        → hand_out q o ≡ some (k, r)
        → Hands lists q k r
    found none first f = cc
    found (some j) first f =
        subst (λ (x : String × Lists). Hands lists q x.0 x.1) (given f)
          (record {
            was_free = free_free q.due q.processed j first;
            taken = ground (arith, eq_iff j j);
            others = λ i n. ground (arith, eq_iff j i, n);
            others_wait = λ i n _ w. ground (arith, w, is_in-without_ne j i q.due n);
          })
      where
        left : Lists
        left = record q { due = without j q.due; processed = j ∷ q.processed }

        given : hand_out q (some j) ≡ some (k, r) → ◌≡◌ {A = String × Lists} (j, left) (k, r)
        given x = cc

pub lists-Lawful : Lawful lists
lists-Lawful = record {
  none_processed = λ k. refl;
  apply_open = call_open;
  get_open = λ q r k e. handed_open q r k (first_free q.due q.processed) e;
  wait_open = λ q. ground arith;
  shut = λ q. refl;
  add_processed = λ k q j. ground arith;
  limited_processed = λ k q j. ground arith;
  forget_processed = λ k q j. ground arith;
  done_processed = λ k q. is_in-without k q.processed;
  done_others = λ k j q n. is_in-without_ne k j q.processed n;
  wait_processed = λ q k. ground arith;
  shut_processed = λ q k. refl;
  get_hands = handed;
  get_none =
      λ q e k due. none_free q.due q.processed (nothing q (first_free q.due q.processed) e) k due;
  apply_keeps = λ c q k _ w. call_waits c q k w;
  wait_keeps = λ q k _ w. ground (arith, w, is_in-append k q.due q.delayed);
  add_waits = λ k q opened. ground (arith, opened, is_in-append k q.due (k ∷ []), eq_iff k k);
  limited_waits = λ k q opened. ground (arith, opened, eq_iff k k);
}
  where
    nothing : (q : Lists) (o : Option String) → hand_out q o ≡ none → o ≡ none
    nothing q none e = refl
    nothing q (some k) e = cc

    call_open : (c : QueueCall) (q : Lists) → (apply_call c q).opened ≡ q.opened
    call_open (add k) q = ground arith
    call_open (add_rate_limited k) q = ground arith
    call_open (forget k) q = ground arith
    call_open (done k) q = refl

    handed_open :
        (q r : Lists) (k : String) (o : Option String)
        → hand_out q o ≡ some (k, r)
        → r.opened ≡ q.opened
    handed_open q r k none e = cc
    handed_open q r k (some j) e = cc
