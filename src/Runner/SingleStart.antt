-- ===== src/Runner/SingleStart.antt =====
-- pkg/runner/grpc.go: `startInstance`. At most one goroutine at a time starts an instance of a file.
use servermore.Base.{
  Bool-cases, List, Option, String, [], ap, eq_iff, eq_refl, false, if◌then◌else◌, inl, inr, none,
  refl, some, str_cases, str_eq, sym, ℕ, ◌++◌, ◌∙◌, ◌∷◌, ◌≡◌, ◌≢◌,
}
use servermore.Base.Maps.{
  Map, delete, lookup, lookup-delete_ne, lookup-delete_self, lookup-insert, lookup-nil,
}
use servermore.Runner.Instances.{
  InstancesStates, StartAnswer, already_starting, answer_start, is_starting_or_start_it,
  new_instance_states, remove_starting_instance, start_it, submit,
}

-- The instance tables, and the goroutines that were told to start an instance and have not yet
-- answered, each with its file and the consumer through which it will answer.
pub record Starting (Q C : Type 0) : Type 0 where
  pub states : InstancesStates Q C
  pub starting : Map C

-- The consumers of the goroutines that start an instance of this file.
unfoldable pub consumers_of {ℓ} : {C : Type ℓ} → String → Map C → List C
consumers_of func_path [] = []
consumers_of func_path ((path, consumer) ∷ others) =
    let rest = consumers_of func_path others in
    if str_eq path func_path then consumer ∷ rest else rest

module _ {Q C : Type 0} where
  abbrev pub no_starts : Starting Q C
  no_starts = record { states = new_instance_states; starting = [] }

  -- What a goroutine goes on to do with the answer of `IsStartingOrStartIt`: wait, or start.
  abbrev pub told : String → Starting Q C → StartAnswer C × InstancesStates Q C → Starting Q C
  told func_path s (already_starting consumer, is) = record s { states = is }
  told func_path s (start_it consumer, is) = record {
    states = is;
    starting = (func_path, consumer) ∷ s.starting;
  }

pub data StartStep {Q C : Type 0} (s : Starting Q C) : Starting Q C → Type 0 where
  ask_start :
      (func_path : String) (fresh : C)
      → StartStep s (told func_path s (is_starting_or_start_it func_path fresh s.states))
  -- The runtime did not start: `RemoveStartingInstance`.
  start_failed :
      (func_path : String) (consumer : C) (before behind : Map C)
      → s.starting ≡ before ++ ((func_path, consumer) ∷ behind)
      → StartStep s (record {
        states = remove_starting_instance func_path s.states;
        starting = before ++ behind;
      })
  -- It did: `Submit`.
  start_succeeded :
      (func_path instance_id : String) (now shutdown_after : ℕ) (consumer : C)
      (before behind : Map C)
      → s.starting ≡ before ++ ((func_path, consumer) ∷ behind)
      → StartStep s (record {
        states = submit func_path instance_id now shutdown_after s.states;
        starting = before ++ behind;
      })

pub data StartReachable {Q C : Type 0} : Starting Q C → Type 0 where
  at_first : StartReachable no_starts
  then_step : (s s' : Starting Q C) → StartReachable s → StartStep s s' → StartReachable s'

abbrev pub at_most_one {ℓ} : {C : Type ℓ} → Option C → List C
at_most_one none = []
at_most_one (some consumer) = consumer ∷ []

-- The goroutines that start an instance of a file are one, where the table names its consumer, or none.
abbrev pub IsSingle : {Q C : Type 0} → Starting Q C → Type 0
IsSingle s =
    (func_path : String)
    → consumers_of func_path s.starting ≡ at_most_one (lookup func_path s.states.starting_instances)

module _ {C : Type 0} where
  tail_or_nil : List C → List C
  tail_or_nil [] = []
  tail_or_nil (c ∷ cs) = cs

  consumers_of-append :
      (func_path : String) (xs ys : Map C)
      → consumers_of func_path (xs ++ ys) ≡ consumers_of func_path xs ++ consumers_of func_path ys
  unfolding consumers_of
  consumers_of-append func_path [] ys = refl
  consumers_of-append func_path ((path, c) ∷ xs) ys = elim (Bool-cases (str_eq path func_path)) [
    | inl same ↦ rw (same, consumers_of-append func_path xs ys) refl
    | inr apart ↦ rw apart (consumers_of-append func_path xs ys)
  ]

  not_behind : (xs ys : List C) (c : C) → xs ++ (c ∷ ys) ≢ []
  not_behind [] ys c e = cc
  not_behind (x ∷ xs) ys c e = cc

  only_one :
      (xs ys : List C) (c : C) (one : Option C) → xs ++ (c ∷ ys) ≡ at_most_one one → xs ++ ys ≡ []
  unfolding tail_or_nil
  only_one xs ys c none e = absurd (not_behind xs ys c e)
  only_one [] ys c (some d) e = ap tail_or_nil e
  only_one (x ∷ xs) ys c (some d) e = absurd (not_behind xs ys c (ap tail_or_nil e))

  removed-same :
      (func_path : String) (consumer : C) (before behind : Map C) (one : Option C)
      → consumers_of func_path (before ++ ((func_path, consumer) ∷ behind)) ≡ at_most_one one
      → consumers_of func_path (before ++ behind) ≡ []
  unfolding consumers_of
  removed-same func_path consumer before behind one e =
      consumers_of-append func_path before behind
      ∙ only_one (consumers_of func_path before) (consumers_of func_path behind) consumer one (
          rw
            (
              consumers_of-append func_path before ((func_path, consumer) ∷ behind),
              eq_refl func_path,
            )
            at e)

  removed-other :
      (func_path probe : String) (consumer : C) (before behind : Map C)
      → str_eq func_path probe ≡ false
      → consumers_of probe (before ++ behind)
        ≡ consumers_of probe (before ++ ((func_path, consumer) ∷ behind))
  unfolding consumers_of
  removed-other func_path probe consumer before behind apart =
      consumers_of-append probe before behind
      ∙ sym (consumers_of-append probe before ((func_path, consumer) ∷ behind) ∙ rw apart refl)

module _ {Q C : Type 0} where
  pub told-IsSingle :
      (s : Starting Q C) (func_path : String) (fresh : C) (found : Option C)
      → IsSingle s
      → lookup func_path s.states.starting_instances ≡ found
      → IsSingle (told func_path s (answer_start func_path fresh s.states found))
  unfolding consumers_of
  told-IsSingle s func_path fresh (some consumer) h e probe = h probe
  told-IsSingle s func_path fresh none h e probe = elim (str_cases func_path probe) [
    | inl same ↦
        let none_yet : consumers_of probe s.starting ≡ [] =
          h probe
          ∙ ap at_most_one (ap (λ p. lookup p s.states.starting_instances) (sym same) ∙ e) in
        rw
          (
            lookup-insert func_path probe fresh s.states.starting_instances,
            (eq_iff func_path probe).1 same,
            none_yet,
          )
          refl
    | inr apart ↦
        rw (lookup-insert func_path probe fresh s.states.starting_instances, apart) (h probe)
  ]

  pub ended-IsSingle :
      (s : Starting Q C) (func_path : String) (consumer : C) (before behind : Map C)
      → IsSingle s
      → s.starting ≡ before ++ ((func_path, consumer) ∷ behind)
      → (probe : String)
      → consumers_of probe (before ++ behind)
        ≡ at_most_one (lookup probe (delete func_path s.states.starting_instances))
  ended-IsSingle s func_path consumer before behind h e probe = elim (str_cases func_path probe) [
    | inl same ↦ rw (← same) (
        removed-same func_path consumer before behind (lookup func_path s.states.starting_instances)
          (ap (consumers_of func_path) (sym e) ∙ h func_path)
        ∙ ap at_most_one (sym (lookup-delete_self func_path s.states.starting_instances)))
    | inr apart ↦
        removed-other func_path probe consumer before behind apart
        ∙ ap (consumers_of probe) (sym e)
        ∙ h probe
        ∙ ap at_most_one (sym (lookup-delete_ne func_path probe s.states.starting_instances apart))
  ]

  StartStep-IsSingle : (s s' : Starting Q C) → IsSingle s → StartStep s s' → IsSingle s'
  unfolding is_starting_or_start_it remove_starting_instance submit
  StartStep-IsSingle s s' h (ask_start func_path fresh) =
      told-IsSingle s func_path fresh (lookup func_path s.states.starting_instances) h refl
  StartStep-IsSingle s s' h (start_failed func_path consumer before behind e) =
      ended-IsSingle s func_path consumer before behind h e
  StartStep-IsSingle s s' h (start_succeeded func_path i now after_time consumer before behind e) =
      ended-IsSingle s func_path consumer before behind h e

  -- However the goroutines that ask for an instance and those that start one interleave, those that
  -- start one of a file are the one that the table names for the file, or none.
  pub StartReachable-IsSingle : (s : Starting Q C) → StartReachable s → IsSingle s
  unfolding consumers_of
  StartReachable-IsSingle s at_first = λ probe. rw (lookup-nil probe) refl
  StartReachable-IsSingle s' (then_step s same earlier step) =
      StartStep-IsSingle s s' (StartReachable-IsSingle s earlier) step
