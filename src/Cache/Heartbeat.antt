-- ===== src/Cache/Heartbeat.antt =====
-- The first loop of `UpsertRunnerHeartbeat`.
use servermore.Base.{
  Option, String, [], arith, eq_iff, false, if◌then◌else◌, none, refl, some, str_eq, ℕ, ◌∷◌, ◌≡◌,
  ◌≢◌,
}
use servermore.Base.Maps.{Map, insert, is_some, lookup, lookup-insert}
use servermore.Cache.{InMemoryCache, Set, report_instance, report_instances, reported}
use servermore.Cache.Invariant.{IsConsistent, IsCounted}
use servermore.Cache.Report.{report_instance-IsConsistent, report_instance-IsCounted}
use servermore.Cache.Report

-- The first of two values that is there.
abbrev pub or_else {ℓ} : {A : Type ℓ} → Option A → Option A → Option A
or_else none b = b
or_else (some a) b = some a

-- A Go map has each key once.
abbrev pub HasUniqueKeys {ℓ} : {V : Type ℓ} → Map V → Type ℓ
HasUniqueKeys [] = Unit
HasUniqueKeys ((k, v) ∷ m) = (lookup k m ≡ none) × HasUniqueKeys m

module _ (r : String) (named : r ≢ "") where
  pub report_instances-IsConsistent :
      (depths : Map ℕ) (c : InMemoryCache)
      → IsConsistent c
      → IsConsistent (report_instances r depths c)
  unfolding report_instances
  report_instances-IsConsistent [] c valid = valid
  report_instances-IsConsistent ((i, q) ∷ depths) c valid =
      report_instances-IsConsistent depths (report_instance r i q c)
        (report_instance-IsConsistent r i q c valid named)

  pub report_instances-IsCounted :
      (depths : Map ℕ) (c : InMemoryCache) (r' : String)
      → IsConsistent c
      → str_eq r r' ≡ false
      → IsCounted c r'
      → IsCounted (report_instances r depths c) r'
  unfolding report_instances
  report_instances-IsCounted [] c r' valid other counted = counted
  report_instances-IsCounted ((i, q) ∷ depths) c r' valid other counted =
      report_instances-IsCounted depths (report_instance r i q c) r'
        (report_instance-IsConsistent r i q c valid named) other
        (report_instance-IsCounted r i q c valid r' other counted)

  pub runner-report_instances :
      (depths : Map ℕ) (c : InMemoryCache) (j : String)
      → IsConsistent c
      → lookup j (report_instances r depths c).instance_runner
        ≡ (if is_some (lookup j depths) then some r else lookup j c.instance_runner)
  unfolding report_instances lookup
  runner-report_instances [] c j valid = refl
  runner-report_instances ((i, q) ∷ depths) c j valid = ground (
    arith,
    eq_iff i j,
    Report.lookup-runner r i q c valid j,
    runner-report_instances depths (report_instance r i q c) j
        (report_instance-IsConsistent r i q c valid named),
  )

  pub function-report_instances :
      (depths : Map ℕ) (c : InMemoryCache) (j : String)
      → IsConsistent c
      → lookup j (report_instances r depths c).instance_function ≡ lookup j c.instance_function
  unfolding report_instances
  function-report_instances [] c j valid = refl
  function-report_instances ((i, q) ∷ depths) c j valid = ground (
    arith,
    Report.lookup-function r i q c valid j,
    function-report_instances depths (report_instance r i q c) j
        (report_instance-IsConsistent r i q c valid named),
  )

  pub queue-report_instances :
      (depths : Map ℕ) (c : InMemoryCache) (j : String)
      → IsConsistent c
      → HasUniqueKeys depths
      → lookup j (report_instances r depths c).instance_queue
        ≡ or_else (lookup j depths) (lookup j c.instance_queue)
  unfolding report_instances lookup
  queue-report_instances [] c j valid unique = refl
  queue-report_instances ((i, q) ∷ depths) c j valid unique = ground (
    arith,
    eq_iff i j,
    unique.0,
    Report.lookup-queue r i q c valid j,
    queue-report_instances depths (report_instance r i q c) j
        (report_instance-IsConsistent r i q c valid named) unique.1,
  )

pub lookup-reported :
    (depths : Map ℕ) (s : Set) (j : String)
    → lookup j (reported depths s) ≡ (if is_some (lookup j depths) then some tt else lookup j s)
unfolding reported lookup
lookup-reported [] s j = refl
lookup-reported ((i, q) ∷ depths) s j =
    ground (arith, eq_iff i j, lookup-insert i j tt s, lookup-reported depths (insert i tt s) j)
