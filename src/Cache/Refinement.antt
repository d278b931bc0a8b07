-- ===== src/Cache/Refinement.antt =====
-- The cache as its clients see it, over any sequence of writing calls.
use servermore.Base.{
  All, List, Option, String, [], ap, if◌then◌else◌, none, refl, some, str_eq, ◌∙◌, ◌∷◌, ◌≡◌,
}
use servermore.Base.Maps.{lookup}
use servermore.Cache.{InMemoryCache, new_in_memory_cache}
use servermore.Cache.Heartbeat.{HasUniqueKeys}
use servermore.Cache.History.{
  Call, IsNamed, apply, apply-IsValid, apply_all, heartbeat_call, remove_runner_call,
  set_instance_call,
}
use servermore.Cache.Invariant.{IsValid, new_in_memory_cache-IsValid}
use servermore.Cache.Placement.{Placement, after_heartbeat, evicted, placement}
use servermore.Cache.RemoveRunner.{placement-remove_runner}
use servermore.Cache.SetInstance.{placement-set_instance}
use servermore.Cache.Upsert.{placement-upsert_runner_heartbeat}

-- What the clients may know: for each instance, where it runs.
abbrev pub View : Type 0
View = String → Option Placement

-- The calls on the view.
abbrev pub on_view : Call → View → View
on_view (set_instance_call f i r q) view j =
    if str_eq i j then some (record { function = some f; runner = r; queue_len = q }) else view j
on_view (heartbeat_call r depths metrics) view j = after_heartbeat r (lookup j depths) (view j)
on_view (remove_runner_call r) view j = evicted r (view j)

unfoldable pub all_on_view : List Call → View → View
all_on_view [] view = view
all_on_view (call ∷ calls) view = all_on_view calls (on_view call view)

-- The map of a heartbeat has each key once, as every Go map.
abbrev pub IsMap : Call → Type 0
IsMap (heartbeat_call r depths metrics) = HasUniqueKeys depths
IsMap _ = Unit

on_view-cong :
    (call : Call) (first second : View) (j : String)
    → first j ≡ second j
    → on_view call first j ≡ on_view call second j
on_view-cong (set_instance_call f i r q) first second j same =
    ap
      (λ p.
        if str_eq i j then some (record { function = some f; runner = r; queue_len = q }) else p)
      same
on_view-cong (heartbeat_call r depths metrics) first second j same =
    ap (after_heartbeat r (lookup j depths)) same
on_view-cong (remove_runner_call r) first second j same = ap (evicted r) same

all_on_view-cong :
    (calls : List Call) (first second : View)
    → ((j : String) → first j ≡ second j)
    → (j : String) → all_on_view calls first j ≡ all_on_view calls second j
unfolding all_on_view
all_on_view-cong [] first second same = same
all_on_view-cong (call ∷ calls) first second same =
    all_on_view-cong calls (on_view call first) (on_view call second)
      (λ j. on_view-cong call first second j (same j))

pub placement-apply :
    (call : Call) (c : InMemoryCache) (j : String)
    → IsNamed call
    → IsMap call
    → IsValid c
    → placement (apply call c) j ≡ on_view call (placement c) j
unfolding apply
placement-apply (set_instance_call f i r q) c j named unique v =
    placement-set_instance c f i r q v.consistent j
placement-apply (heartbeat_call r depths metrics) c j named unique v =
    placement-upsert_runner_heartbeat r named depths metrics c v.consistent unique j
placement-apply (remove_runner_call r) c j named unique v =
    placement-remove_runner r c v.consistent j

placement-apply_all_from :
    (calls : List Call) (c : InMemoryCache) (j : String)
    → All IsNamed calls
    → All IsMap calls
    → IsValid c
    → placement (apply_all calls c) j ≡ all_on_view calls (placement c) j
unfolding apply_all all_on_view
placement-apply_all_from [] c j named maps v = refl
placement-apply_all_from (call ∷ calls) c j (first, named) (unique, maps) v =
    placement-apply_all_from calls (apply call c) j named maps (apply-IsValid call c first v)
    ∙ all_on_view-cong calls (placement (apply call c)) (on_view call (placement c))
        (λ i. placement-apply call c i first unique v) j

nothing_placed : (j : String) → placement new_in_memory_cache j ≡ none
unfolding lookup
nothing_placed j = refl

-- After any sequence of writing calls on a new cache, with function ids and runner addresses that are
-- not empty, its seven maps place every instance where the calls on the plain view place it: a call that
-- registers an instance places it and moves no other; a heartbeat places what it reports on its runner,
-- with the function known before, and takes away the runner's other instances; the removal of a runner
-- takes away exactly what ran there.
pub placement-apply_all :
    (calls : List Call) (j : String)
    → All IsNamed calls
    → All IsMap calls
    → placement (apply_all calls new_in_memory_cache) j ≡ all_on_view calls (λ i. none) j
placement-apply_all calls j named maps =
    placement-apply_all_from calls new_in_memory_cache j named maps new_in_memory_cache-IsValid
    ∙ all_on_view-cong calls (placement new_in_memory_cache) (λ i. none) nothing_placed j
