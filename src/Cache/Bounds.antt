-- ===== src/Cache/Bounds.antt =====
-- The request counts fit the int in which the source keeps them.
use servermore.Base.{
  All, Bool, List, Option, Option-cases, String, [], ap, arith, false, if◌then◌else◌, inl, inr,
  length, none, refl, some, str_eq, subst, sym, true, ℕ, ◌*◌, ◌+◌, ◌<◌, ◌^◌, ◌∙◌, ◌∷◌, ◌≡◌, ◌≤◌,
}
use servermore.Base.Maps.{Map, get_or, is_some, lookup}
use servermore.Cache.{InMemoryCache, Set, new_in_memory_cache, requests_per_runner, total_requests}
use servermore.Cache.History.{
  Call, IsNamed, apply, apply-IsValid, apply_all, apply_all-IsValid, heartbeat_call,
  remove_runner_call, set_instance_call,
}
use servermore.Cache.Invariant.{IsValid, new_in_memory_cache-IsValid, sum_of}
use servermore.Cache.Placement.{Placement, after_heartbeat, placed_by, placement, runs_on}
use servermore.Cache.Refinement.{IsMap, View, on_view, placement-apply}

abbrev pub HasDepths : Map ℕ → Type 0
HasDepths queue = (i : String) → get_or 0 (lookup i queue) < 2 ^ 32

total_requests-lt :
    (queue : Map ℕ) (instances : Set)
    → HasDepths queue
    → total_requests queue instances + length instances ≤ length instances * 2 ^ 32
unfolding total_requests
total_requests-lt queue [] small = omega arith
total_requests-lt queue ((i, _) ∷ instances) small =
    omega (arith, small i, total_requests-lt queue instances small)

-- A queue length that a call brings is a uint32.
abbrev pub IsShort : Call → Type 0
IsShort (set_instance_call f i r q) = q < 2 ^ 32
IsShort (heartbeat_call r depths metrics) =
    (j : String) (d : ℕ) → lookup j depths ≡ some d → d < 2 ^ 32
IsShort (remove_runner_call r) = Unit

abbrev AllShort : View → Type 0
AllShort view = (j : String) (p : Placement) → view j ≡ some p → p.queue_len < 2 ^ 32

abbrev len_or : ℕ → Option Placement → ℕ
len_or n none = n
len_or n (some p) = p.queue_len

evicted-short :
    (r : String) (before : Option Placement) (p : Placement) (gone : Bool)
    → ((q : Placement) → before ≡ some q → q.queue_len < 2 ^ 32)
    → (if gone then none else before) ≡ some p
    → p.queue_len < 2 ^ 32
evicted-short r before p true short e = cc
evicted-short r before p false short e = short p e

after_heartbeat-short :
    (r : String) (found : Option ℕ) (before : Option Placement) (p : Placement)
    → ((d : ℕ) → found ≡ some d → d < 2 ^ 32)
    → ((q : Placement) → before ≡ some q → q.queue_len < 2 ^ 32)
    → after_heartbeat r found before ≡ some p
    → p.queue_len < 2 ^ 32
after_heartbeat-short r none before p low short e =
    evicted-short r before p (runs_on r before) short e
after_heartbeat-short r (some d) before p low short e =
    subst (λ n. n < 2 ^ 32) (ap (len_or 0) e) (low d refl)

set-short :
    (f r : String) (q : ℕ) (before : Option Placement) (p : Placement) (it : Bool)
    → q < 2 ^ 32
    → ((x : Placement) → before ≡ some x → x.queue_len < 2 ^ 32)
    → (if it then some (record { function = some f; runner = r; queue_len = q }) else before)
      ≡ some p
    → p.queue_len < 2 ^ 32
set-short f r q before p true low short e = subst (λ n. n < 2 ^ 32) (ap (len_or 0) e) low
set-short f r q before p false low short e = short p e

on_view-AllShort :
    (call : Call) (view : View) → IsShort call → AllShort view → AllShort (on_view call view)
on_view-AllShort (set_instance_call f i r q) view low short j p e =
    set-short f r q (view j) p (str_eq i j) low (short j) e
on_view-AllShort (heartbeat_call r depths metrics) view low short j p e =
    after_heartbeat-short r (lookup j depths) (view j) p (low j) (short j) e
on_view-AllShort (remove_runner_call r) view low short j p e =
    evicted-short r (view j) p (runs_on r (view j)) (short j) e

apply_all-AllShort :
    (calls : List Call) (c : InMemoryCache)
    → All IsNamed calls
    → All IsMap calls
    → All IsShort calls
    → IsValid c
    → AllShort (placement c)
    → AllShort (placement (apply_all calls c))
unfolding apply_all
apply_all-AllShort [] c named maps low valid short = short
apply_all-AllShort (call ∷ calls) c (named, names) (unique, maps) (low, lows) valid short =
    apply_all-AllShort calls (apply call c) names maps lows (apply-IsValid call c named valid)
      (λ j p e.
        on_view-AllShort call (placement c) low short j p
          (sym (placement-apply call c j named unique valid) ∙ e))

short_or_absent : (q : Option ℕ) → is_some q ≡ false → get_or 0 q < 2 ^ 32
short_or_absent none e = omega arith
short_or_absent (some n) e = cc

AllShort-HasDepths :
    (c : InMemoryCache) → IsValid c → AllShort (placement c) → HasDepths c.instance_queue
AllShort-HasDepths c valid short i = elim (Option-cases (lookup i c.instance_runner)) [
  | inl nowhere ↦
      short_or_absent (lookup i c.instance_queue) (valid.consistent.measured i ∙ ap is_some nowhere)
  | inr (r, at_r) ↦
      short i
        (record {
          function = lookup i c.instance_function;
          runner = r;
          queue_len = get_or 0 (lookup i c.instance_queue);
        })
        (ap (λ ru. placed_by (lookup i c.instance_function) ru (lookup i c.instance_queue)) at_r)
]

nothing_short : AllShort (placement new_in_memory_cache)
unfolding lookup
nothing_short j p e = cc

-- After any sequence of the writing calls of the interface on a new cache, with function ids and runner
-- addresses that are not empty and queue lengths below 2^32, as a uint32 has them: the request count of
-- a runner with at most 2^31 instances is below 2^63, so that its sum in a 64-bit int never overflows.
pub apply_all-requests-lt :
    (calls : List Call) (r : String) (instances : Set) (n : ℕ)
    → All IsNamed calls
    → All IsMap calls
    → All IsShort calls
    → lookup r ((apply_all calls new_in_memory_cache).runner_instances) ≡ some instances
    → length instances ≤ 2 ^ 31
    → lookup r (requests_per_runner (apply_all calls new_in_memory_cache)) ≡ some n
    → n < 2 ^ 63
unfolding requests_per_runner
apply_all-requests-lt calls r instances n named maps lows has few counts =
    let c = apply_all calls new_in_memory_cache in
    let valid = apply_all-IsValid calls named in
    let depths = AllShort-HasDepths c valid (
      apply_all-AllShort calls new_in_memory_cache named maps lows new_in_memory_cache-IsValid
        nothing_short) in
    let same : total_requests c.instance_queue instances ≡ n =
      ap (get_or 0) (sym (ap (sum_of c.instance_queue) has) ∙ sym (valid.counted r) ∙ counts) in
    let low = total_requests-lt c.instance_queue instances depths in omega arith
