-- ===== src/Cache/Invariant.antt =====
-- The invariant of the routing cache: its seven maps tell one story.
use servermore.Base.{
  Option, Option-cases, String, [], ap, arith, eq_iff, if◌then◌else◌, inl, inr, none, refl, some,
  str_eq, ℕ, ◌∷◌, ◌≡◌, ◌≢◌,
}
use servermore.Base.Maps.{
  Map, delete, get_or, insert, is_some, lookup, lookup-delete, lookup-insert,
}
use servermore.Base.Nested.{lookup_in}
use servermore.Cache.{InMemoryCache, Set, new_in_memory_cache, recount, total_requests}

-- Whether a runner's set should hold an instance, given the runner recorded for the instance.
abbrev pub owned_by : String → Option String → Option (Unit {0})
owned_by runner_addr none = none
owned_by runner_addr (some owner) = if str_eq owner runner_addr then some tt else none

-- The queue length that a function's map should hold for an instance.
abbrev pub queued_for : String → Option String → Option ℕ → Option ℕ
queued_for func_id none queue_len = none
queued_for func_id (some owner) queue_len = if str_eq owner func_id then queue_len else none

pub record IsConsistent (c : InMemoryCache) : Type 0 where
  pub members :
      (r i : String) → lookup_in r i c.runner_instances ≡ owned_by r (lookup i c.instance_runner)
  pub queues :
      (f i : String)
      → lookup_in f i c.func_instances
        ≡ queued_for f (lookup i c.instance_function) (lookup i c.instance_queue)
  pub measured :
      (i : String) → is_some (lookup i c.instance_queue) ≡ is_some (lookup i c.instance_runner)
  pub placed :
      (i : String) → lookup i c.instance_runner ≡ none → lookup i c.instance_function ≡ none
  pub named_runner : (i : String) → lookup i c.instance_runner ≢ some ""
  pub named_function : (i : String) → lookup i c.instance_function ≢ some ""

abbrev pub sum_of : Map ℕ → Option Set → Option ℕ
sum_of queue none = none
sum_of queue (some instances) = some (total_requests queue instances)

-- A runner's request count is the sum of the queue lengths of its instances.
abbrev pub IsCounted : InMemoryCache → String → Type 0
IsCounted c r = lookup r c.runner_requests ≡ sum_of c.instance_queue (lookup r c.runner_instances)

pub record IsValid (c : InMemoryCache) : Type 0 where
  pub consistent : IsConsistent c
  pub counted : (r : String) → IsCounted c r

pub new_in_memory_cache-IsValid : IsValid new_in_memory_cache
unfolding lookup lookup_in
new_in_memory_cache-IsValid = record {
  consistent = record {
    members = λ r i. refl;
    queues = λ f i. refl;
    measured = λ i. refl;
    placed = λ i e. refl;
    named_runner = λ i. cc;
    named_function = λ i. cc;
  };
  counted = λ r. refl;
}

-- The sum reads the queue lengths of its own instances only.
pub total_requests_congr :
    (queue queue' : Map ℕ) (instances : Set)
    → ((i : String)
        → lookup i instances ≢ none
        → get_or 0 (lookup i queue') ≡ get_or 0 (lookup i queue))
    → total_requests queue' instances ≡ total_requests queue instances
unfolding total_requests lookup
total_requests_congr queue queue' [] same = refl
total_requests_congr queue queue' ((i, u) ∷ instances) same =
    let head = same i (ground (arith, eq_iff i i)) in
    let rest =
      total_requests_congr queue queue' instances (λ j e. same j (ground (arith, e, eq_iff i j))) in
    cc

pub lookup-recount :
    (r r' : String) (row : Option Set) (queue requests : Map ℕ)
    → lookup r' (recount r row queue requests)
      ≡ (if str_eq r r' then sum_of queue row else lookup r' requests)
unfolding recount
lookup-recount r r' none queue requests = lookup-delete r r' requests
lookup-recount r r' (some s) queue requests = lookup-insert r r' (total_requests queue s) requests

-- A runner's sum does not read the queue of an instance that it does not hold.
pub sum_of-insert :
    (i : String) (q : ℕ) (queue : Map ℕ) (r : String) (m : Map Set)
    → lookup_in r i m ≡ none
    → sum_of (insert i q queue) (lookup r m) ≡ sum_of queue (lookup r m)
unfolding lookup_in
sum_of-insert i q queue r m h = elim (Option-cases (lookup r m)) [
  | inl e ↦ rw e
  | inr (s, e) ↦
      let absent : lookup i s ≡ none = ground (arith, e, h) in
      rw e (
        ap some (
          total_requests_congr queue (insert i q queue) s
            (λ j held. ground (arith, eq_iff i j, lookup-insert i j q queue, absent, held))))
]

pub sum_of-delete :
    (i : String) (queue : Map ℕ) (r : String) (m : Map Set)
    → lookup_in r i m ≡ none
    → sum_of (delete i queue) (lookup r m) ≡ sum_of queue (lookup r m)
unfolding lookup_in
sum_of-delete i queue r m h = elim (Option-cases (lookup r m)) [
  | inl e ↦ rw e
  | inr (s, e) ↦
      let absent : lookup i s ≡ none = ground (arith, e, h) in
      rw e (
        ap some (
          total_requests_congr queue (delete i queue) s
            (λ j held. ground (arith, eq_iff i j, lookup-delete i j queue, absent, held))))
]
