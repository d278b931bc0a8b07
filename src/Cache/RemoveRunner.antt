-- ===== src/Cache/RemoveRunner.antt =====
-- `RemoveRunner` as a whole.
use servermore.Base.{Option, String, [], arith, eq_iff, none, some, ℕ, ◌≡◌}
use servermore.Base.Maps.{delete, get_or, is_some, lookup, lookup-delete, lookup-nil}
use servermore.Base.Nested.{lookup-in-delete_row, lookup-row}
use servermore.Cache.{InMemoryCache, drop_unreported, remove_runner}
use servermore.Cache.Drop.{
  Keeps, KeepsAll, drop_unreported-IsConsistent, drop_unreported-IsCounted,
  drop_unreported-KeepsAll, remove_instances-drop_unreported,
}
use servermore.Cache.Invariant.{IsConsistent, IsCounted, IsValid, owned_by, sum_of}
use servermore.Cache.Placement.{evicted, placed_by, placement}

placed_by-evicted :
    (r : String) (f o : Option String) (q : Option ℕ) {f' o' : Option String} {q' : Option ℕ}
    → (let dropped = is_some (owned_by r o) in
        Keeps dropped o o' × Keeps dropped f f' × Keeps dropped q q')
    → placed_by f' o' q' ≡ evicted r (placed_by f o q)
placed_by-evicted r f none q keeps = ground arith
placed_by-evicted r f (some o) q keeps = ground (arith, eq_iff o r)

module _ (r : String) (c : InMemoryCache) (valid : IsConsistent c) where
  emptied : InMemoryCache
  emptied = drop_unreported [] (get_or [] (lookup r c.runner_instances)) c

  emptied-IsConsistent : IsConsistent emptied
  unfolding emptied
  emptied-IsConsistent =
      drop_unreported-IsConsistent [] (get_or [] (lookup r c.runner_instances)) c valid

  remove_runner-emptied : remove_runner r c ≡ record emptied {
    runner_instances = delete r emptied.runner_instances;
    runner_requests = delete r emptied.runner_requests;
    runner_stats = delete r emptied.runner_stats;
  }
  unfolding remove_runner emptied
  remove_runner-emptied =
      rw (remove_instances-drop_unreported (get_or [] (lookup r c.runner_instances)) c)

  emptied-KeepsAll :
      (j : String) → KeepsAll (is_some (owned_by r (lookup j c.instance_runner))) j c emptied
  unfolding emptied
  emptied-KeepsAll j =
      let dropped =
        drop_unreported-KeepsAll [] (get_or [] (lookup r c.runner_instances)) c j valid in
      ground (
        arith,
        dropped,
        lookup-row r j c.runner_instances,
        valid.members r j,
        lookup-nil {V = Unit {0}} j,
      )

  emptied-IsCounted :
      ((r' : String) → IsCounted c r')
      → (r' : String)
      → lookup r' (delete r emptied.runner_requests)
        ≡ sum_of emptied.instance_queue (lookup r' (delete r emptied.runner_instances))
  unfolding emptied
  emptied-IsCounted counted r' =
      let old =
        drop_unreported-IsCounted [] (get_or [] (lookup r c.runner_instances)) c r' valid
          (counted r') in
      ground (
        arith,
        old,
        eq_iff r r',
        lookup-delete r r' emptied.runner_requests,
        lookup-delete r r' emptied.runner_instances,
      )

  -- Removing a runner keeps a valid cache valid.
  pub remove_runner-IsValid : ((r' : String) → IsCounted c r') → IsValid (remove_runner r c)
  remove_runner-IsValid counted = rw remove_runner-emptied (record {
    consistent = record {
      members = λ r' j. ground (
        arith,
        eq_iff r r',
        lookup-in-delete_row r emptied.runner_instances r' j,
        (emptied-KeepsAll j).0,
        emptied-IsConsistent.members r' j,
        eq_iff r r,
      );
      queues = emptied-IsConsistent.queues;
      measured = emptied-IsConsistent.measured;
      placed = emptied-IsConsistent.placed;
      named_runner = emptied-IsConsistent.named_runner;
      named_function = emptied-IsConsistent.named_function;
    };
    counted = emptied-IsCounted counted;
  })

  -- On a consistent cache, removing a runner takes away exactly the placements on that runner.
  pub placement-remove_runner :
      (j : String) → placement (remove_runner r c) j ≡ evicted r (placement c j)
  placement-remove_runner j = rw remove_runner-emptied (
      placed_by-evicted r (lookup j c.instance_function) (lookup j c.instance_runner)
        (lookup j c.instance_queue) (emptied-KeepsAll j))
