-- ===== src/Cache/Moves.antt =====
-- An instance that changes its owner: what `SetInstance` and a heartbeat do to the maps of sets.
use servermore.Base.{
  Bool, Option, Option-cases, String, arith, eq_iff, eq_refl, false, if◌then◌else◌, inl, inr, none,
  some, str_cases, str_eq, ℕ, ◌&&◌, ◌||◌, ◌≡◌, ◌≢◌,
}
use servermore.Base.Maps.{Map, get_or, lookup}
use servermore.Base.Nested.{
  delete_in, drop_in, insert_in, lookup-delete_in_ne, lookup-in-delete, lookup-in-drop,
  lookup-in-insert, lookup-insert_in_ne, lookup_in,
}
use servermore.Cache.{InMemoryCache, Set, has_moved, recount}
use servermore.Cache.Invariant.{IsConsistent, lookup-recount, owned_by, queued_for, sum_of}

-- An instance that changes its owner leaves the old one's set.
pub leave_members :
    (m : Map Set) (i r : String) (previous : Option String) (r' i' : String)
    → lookup_in r' i' m ≡ (if str_eq i i' then owned_by r' previous else lookup_in r' i' m)
    → previous ≢ some ""
    → lookup_in r' i' (
        insert_in r i tt
          (if has_moved (get_or "" previous) r then delete_in (get_or "" previous) i m else m))
      ≡ (if str_eq i i' then owned_by r' (some r) else lookup_in r' i' m)
unfolding has_moved
leave_members m i r none r' i' old named =
    ground (arith, eq_iff "" "", eq_iff i i', eq_iff r r', lookup-in-insert r i tt m r' i')
leave_members m i r (some p) r' i' old named = ground (
  arith,
  eq_iff p "",
  eq_iff p r,
  eq_iff p r',
  eq_iff i i',
  eq_iff r r',
  lookup-in-insert r i tt m r' i',
  lookup-in-insert r i tt (delete_in p i m) r' i',
  lookup-in-delete p i m r' i',
)

pub leave_queues :
    (m : Map (Map ℕ)) (i f : String) (previous : Option String) (queue : Option ℕ) (q : ℕ)
    (f' i' : String)
    → lookup_in f' i' m ≡ (if str_eq i i' then queued_for f' previous queue else lookup_in f' i' m)
    → previous ≢ some ""
    → lookup_in f' i' (
        insert_in f i q
          (if has_moved (get_or "" previous) f then drop_in (get_or "" previous) i m else m))
      ≡ (if str_eq i i' then queued_for f' (some f) (some q) else lookup_in f' i' m)
unfolding has_moved
leave_queues m i f none queue q f' i' old named =
    ground (arith, eq_iff "" "", eq_iff i i', eq_iff f f', lookup-in-insert f i q m f' i')
leave_queues m i f (some p) queue q f' i' old named = ground (
  arith,
  eq_iff p "",
  eq_iff p f,
  eq_iff p f',
  eq_iff i i',
  eq_iff f f',
  lookup-in-insert f i q m f' i',
  lookup-in-insert f i q (drop_in p i m) f' i',
  lookup-in-drop p i m f' i',
)

-- The counts after an instance has joined `r` and, if `moved`, left `p`.
pub moved_requests :
    (moved : Bool) (p r r' : String) (m : Map Set) (queue requests : Map ℕ)
    → lookup r' (
        if moved
        then recount p (lookup p m) queue (recount r (lookup r m) queue requests)
        else recount r (lookup r m) queue requests)
      ≡ (if str_eq r r' || (moved && str_eq p r')
          then sum_of queue (lookup r' m)
          else lookup r' requests)
moved_requests moved p r r' m queue requests = ground (
  arith,
  eq_iff r r',
  eq_iff p r',
  lookup-recount r r' (lookup r m) queue requests,
  lookup-recount p r' (lookup p m) queue (recount r (lookup r m) queue requests),
)

pub moved_row :
    (moved : Bool) (p r r' i : String) (m : Map Set)
    → (str_eq r r' || (moved && str_eq p r')) ≡ false
    → lookup r' (insert_in r i tt (if moved then delete_in p i m else m)) ≡ lookup r' m
moved_row moved p r r' i m h = ground (
  arith,
  eq_iff r r',
  eq_iff p r',
  lookup-insert_in_ne r i tt m r',
  lookup-insert_in_ne r i tt (delete_in p i m) r',
  lookup-delete_in_ne p i m r',
)

module _ (c : InMemoryCache) (valid : IsConsistent c) (i : String) where
  pub members_at :
      (r' i' : String)
      → lookup_in r' i' c.runner_instances ≡ (
          if str_eq i i'
          then owned_by r' (lookup i c.instance_runner)
          else lookup_in r' i' c.runner_instances)
  members_at r' i' = elim (str_cases i i') [
    | inl e ↦ rw (← e, eq_refl i) (valid.members r' i)
    | inr e ↦ rw e
  ]

  pub queues_at :
      (f' i' : String)
      → lookup_in f' i' c.func_instances ≡ (
          if str_eq i i'
          then queued_for f' (lookup i c.instance_function) (lookup i c.instance_queue)
          else lookup_in f' i' c.func_instances)
  queues_at f' i' = elim (str_cases i i') [
    | inl e ↦ rw (← e, eq_refl i) (valid.queues f' i)
    | inr e ↦ rw e
  ]

module _ (c : InMemoryCache) (valid : IsConsistent c) (i r : String) where
  abbrev pub previous : String
  previous = get_or "" (lookup i c.instance_runner)

  abbrev pub recounted : String → Bool
  recounted r' = str_eq r r' || (has_moved previous r && str_eq previous r')

  pub unowned : (r' : String) → recounted r' ≡ false → lookup_in r' i c.runner_instances ≡ none
  unfolding has_moved
  unowned r' other = elim (Option-cases (lookup i c.instance_runner)) [
    | inl e ↦ rw (valid.members r' i, e)
    | inr (p, e) ↦ ground (
      arith,
      e,
      valid.members r' i,
      eq_iff p "",
      eq_iff p r,
      eq_iff p r',
      eq_iff r r',
      valid.named_runner i,
    )
  ]
