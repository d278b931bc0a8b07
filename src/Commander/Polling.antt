-- ===== src/Commander/Polling.antt =====
-- `PollRunnerHeartbeats` with the in-memory cache.
use mathlib.Core.List.{Memᴰ}
use mathlib.Core.List.Memᴰ
use servermore.Base.{
  All, Bool, List, Option, String, [], ap, arith, eq_iff, false, if◌then◌else◌, inl, inr, map, none,
  refl, some, str_cases, str_eq, subst, sym, true, ℕ, ◌∙◌, ◌∷◌, ◌≡◌, ◌≢◌, ◌⊎◌,
}
use servermore.Base.Maps.{Map, lookup}
use servermore.Base.Results.{Result, err, ok}
use servermore.Cache.{InMemoryCache, ResourceMetrics}
use servermore.Cache.History.{
  Call, IsNamed, apply, apply-IsValid, apply_all, heartbeat_call, remove_runner_call,
}
use servermore.Cache.Interface.{in_memory}
use servermore.Cache.Invariant.{IsValid}
use servermore.Cache.Placement.{Placement, after_heartbeat, evicted, placement, runs_on}
use servermore.Cache.Refinement.{IsMap, View, on_view, placement-apply}
use servermore.Commander.Db.{RunnerRow}
use servermore.Commander.Service.{
  HeartbeatResponse, Service, after_client, evict_runner, poll_all, poll_runner_heartbeat,
}

-- The heartbeat of a runner: none if no client can be made, the call fails, or the answer is nil.
abbrev pub answered :
    Result String (Unit {0}) → Result String (Option HeartbeatResponse) → Option HeartbeatResponse
answered (err e) answer = none
answered (ok _) (err e) = none
answered (ok _) (ok resp) = resp

abbrev pub metrics_of : HeartbeatResponse → ResourceMetrics
metrics_of resp = record {
  cpu_percent = resp.cpu_percent;
  unused_memory_bytes = resp.unused_memory_bytes;
}

-- The call on the cache that a runner's poll comes to.
abbrev pub call_of : String → Option HeartbeatResponse → Call
call_of addr none = remove_runner_call addr
call_of addr (some resp) = heartbeat_call addr resp.queue_depths (metrics_of resp)

module _ {Key D : Type 0} (order : Map ℕ → Map ℕ) (base : Service Key D InMemoryCache) where
  abbrev pub polling : Service Key D InMemoryCache
  polling = record base { cache = in_memory order }

  abbrev pub poll_call : RunnerRow → Call
  poll_call runn =
      call_of runn.addr
        (answered (base.runners.create_client runn.addr) (base.runners.heartbeat runn.addr))

  after_client-apply :
      (addr : String) (c : InMemoryCache) (client : Result String (Unit {0}))
      (answer : Result String (Option HeartbeatResponse))
      → after_client polling addr c client answer ≡ apply (call_of addr (answered client answer)) c
  unfolding apply evict_runner
  after_client-apply addr c (err e) answer = refl
  after_client-apply addr c (ok made) (err e) = refl
  after_client-apply addr c (ok made) (ok none) = refl
  after_client-apply addr c (ok made) (ok (some resp)) = refl

  -- A round of polling is one call on the cache for each runner: a heartbeat where the runner
  -- answers, and its eviction where it does not, whatever the order of the runners.
  poll_all-apply_all :
      (runners : List RunnerRow) (c : InMemoryCache)
      → poll_all polling runners c ≡ apply_all (map poll_call runners) c
  unfolding poll_all apply_all poll_runner_heartbeat
  poll_all-apply_all [] c = refl
  poll_all-apply_all (runn ∷ runners) c =
      ap (poll_all polling runners) (
        after_client-apply runn.addr c (base.runners.create_client runn.addr)
          (base.runners.heartbeat runn.addr))
      ∙ poll_all-apply_all runners (apply (poll_call runn) c)

  -- No instance is placed on the runner.
  abbrev pub IsEvicted : String → InMemoryCache → Type 0
  IsEvicted addr c = (j : String) → runs_on addr (placement c j) ≡ false

  -- The rows and the heartbeats of a round: addresses that are not empty, and heartbeats that name an
  -- instance once.
  abbrev pub ArePolled : List RunnerRow → Type 0
  ArePolled runners = All (λ runn. (runn.addr ≢ "") × IsMap (poll_call runn)) runners

  call_of-IsNamed :
      (addr : String) (found : Option HeartbeatResponse) → addr ≢ "" → IsNamed (call_of addr found)
  call_of-IsNamed addr none named = tt
  call_of-IsNamed addr (some resp) named = named

  kept_off :
      (addr : String) (gone : Bool) (p : Option Placement)
      → (gone ≡ false → runs_on addr p ≡ false)
      → runs_on addr (if gone then none else p) ≡ false
  kept_off addr true p off = refl
  kept_off addr false p off = off refl

  evicted_by : (addr : String) (p : Option Placement) → runs_on addr (evicted addr p) ≡ false
  evicted_by addr p = kept_off addr (runs_on addr p) p (λ e. e)

  evicted_still :
      (addr other : String) (p : Option Placement)
      → runs_on addr p ≡ false
      → runs_on addr (evicted other p) ≡ false
  evicted_still addr other p off = kept_off addr (runs_on other p) p (λ _. off)

  after_heartbeat_still :
      (addr other : String) (found : Option ℕ) (p : Option Placement)
      → str_eq other addr ≡ false
      → runs_on addr p ≡ false
      → runs_on addr (after_heartbeat other found p) ≡ false
  after_heartbeat_still addr other none p apart off = evicted_still addr other p off
  after_heartbeat_still addr other (some depth) p apart off = apart

  on_view_still :
      (addr other : String) (found : Option HeartbeatResponse) (view : View) (j : String)
      → str_eq other addr ≡ false
      → runs_on addr (view j) ≡ false
      → runs_on addr (on_view (call_of other found) view j) ≡ false
  on_view_still addr other none view j apart off = evicted_still addr other (view j) off
  on_view_still addr other (some resp) view j apart off =
      after_heartbeat_still addr other (lookup j resp.queue_depths) (view j) apart off

  -- A runner that does not answer, in the round.
  abbrev pub IsSilent : String → Type 0
  IsSilent addr = answered (base.runners.create_client addr) (base.runners.heartbeat addr) ≡ none

  polled_itself :
      (runn : RunnerRow) (addr : String) (c : InMemoryCache)
      → runn.addr ≡ addr
      → IsSilent addr
      → IsValid c
      → IsEvicted addr (apply (poll_call runn) c)
  polled_itself runn addr c same silent valid j =
      let its_call : poll_call runn ≡ remove_runner_call addr =
        rw same (ap (call_of addr) silent) in
      subst (λ call. runs_on addr (placement (apply call c) j) ≡ false) (sym its_call)
        (ap (runs_on addr) (placement-apply (remove_runner_call addr) c j tt tt valid)
          ∙ evicted_by addr (placement c j))

  polled_other :
      (runn : RunnerRow) (addr : String) (c : InMemoryCache)
      → str_eq runn.addr addr ≡ false
      → (runn.addr ≢ "") × IsMap (poll_call runn)
      → IsValid c
      → IsEvicted addr c
      → IsEvicted addr (apply (poll_call runn) c)
  polled_other runn addr c apart (named, unique) valid off j =
      let found =
        answered (base.runners.create_client runn.addr) (base.runners.heartbeat runn.addr) in
      ap (runs_on addr)
        (placement-apply (poll_call runn) c j (call_of-IsNamed runn.addr found named) unique valid)
      ∙ on_view_still addr runn.addr found (placement c) j apart (off j)

  round :
      (runners : List RunnerRow) (addr : String) (c : InMemoryCache)
      → ArePolled runners
      → IsSilent addr
      → IsValid c
      → IsEvicted addr c ⊎ Memᴰ addr (map (λ runn. runn.addr) runners)
      → IsValid (apply_all (map poll_call runners) c)
        × IsEvicted addr (apply_all (map poll_call runners) c)
  unfolding apply_all
  round [] addr c polled silent valid (inl off) = (valid, off)
  round [] addr c polled silent valid (inr nowhere) = absurd (Memᴰ.not-nil nowhere)
  round (runn ∷ runners) addr c ((named, unique), polled) silent valid off =
      let found =
        answered (base.runners.create_client runn.addr) (base.runners.heartbeat runn.addr) in
      let valid' = apply-IsValid (poll_call runn) c (call_of-IsNamed runn.addr found named) valid in
      round runners addr (apply (poll_call runn) c) polled silent valid'
        (elim (str_cases runn.addr addr) [
          | inl same ↦ inl (polled_itself runn addr c same silent valid)
          | inr apart ↦ elim off [
            | inl off_it ↦ inl (polled_other runn addr c apart (named, unique) valid off_it)
            | inr somewhere ↦ elim (Memᴰ.cases_cons somewhere) [
              | inl same ↦ absurd (ground (arith, apart, eq_iff runn.addr addr, same))
              | inr later ↦ inr later
            ]
          ]
        ])

  -- A round of polling, on a valid cache, with rows whose addresses are not empty and heartbeats that
  -- name an instance once: where no client of a runner of the round can be made, its heartbeat fails or
  -- its answer is nil, no instance is placed on it behind the round, whatever the order of the rows and
  -- whatever the other runners report; and the cache is valid again.
  pub poll_all-IsEvicted :
      (runners : List RunnerRow) (addr : String) (c : InMemoryCache)
      → ArePolled runners
      → IsSilent addr
      → Memᴰ addr (map (λ runn. runn.addr) runners)
      → IsValid c
      → IsValid (poll_all polling runners c) × IsEvicted addr (poll_all polling runners c)
  poll_all-IsEvicted runners addr c polled silent listed valid =
      subst (λ after_round. IsValid after_round × IsEvicted addr after_round)
        (sym (poll_all-apply_all runners c)) (round runners addr c polled silent valid (inr listed))
