-- ===== src/Routing/Tests.antt =====
-- Runs of the router over the in-memory cache, and its theorems at concrete inputs.
use servermore.Base.{
  Bool-cases, String, [], ap, eq_iff, false, inl, inr, refl, some, str_cases, str_eq, str_ne_sym, ℕ,
  ◌∷◌, ◌≡◌, ◌⊎◌,
}
use servermore.Base.Maps.{Has, Map, delete, get_or, lookup}
use servermore.Base.Results.{err, ok}
use servermore.Cache.{requests_per_runner}
use servermore.Cache.Interface.{IsOrder, in_memory}
use servermore.Cache.Tests.{cache_model, two_runners, two_runners-IsValid}
use servermore.Routing.{new_naive_router, pick_least_loaded_runner, prepare_instance, route}
use servermore.Routing.Route.{Outcome, route-Outcome}

-- Maps visited in the order in which they are stored, each key once.
unfoldable pub stored : Map ℕ → Map ℕ
unfolding delete
stored [] = []
stored ((k, v) ∷ m) = (k, v) ∷ delete k (stored m)

Has-delete_to :
    (k j : String) (v : ℕ) (m : Map ℕ) → Has k v (delete j m) → Has k v m × (str_eq j k ≡ false)
unfolding delete
Has-delete_to k j v [] h = absurd h
Has-delete_to k j v ((i, w) ∷ m) h = elim (Bool-cases (str_eq i j)) [
  | inl e ↦ let (held, apart) = Has-delete_to k j v m (rw e at h) in (inr held, apart)
  | inr e ↦
      let split : ((i ≡ k) × (w ≡ v)) ⊎ Has k v (delete j m) = rw e at h in
      elim split [
        | inl (here, same) ↦ (inl (here, same), str_ne_sym k j (rw here at e))
        | inr later ↦ let (held, apart) = Has-delete_to k j v m later in (inr held, apart)
      ]
]

Has-delete_from :
    (k j : String) (v : ℕ) (m : Map ℕ) → Has k v m → str_eq j k ≡ false → Has k v (delete j m)
unfolding delete
Has-delete_from k j v [] h apart = absurd h
Has-delete_from k j v ((i, w) ∷ m) (inl (here, same)) apart =
    rw (rw (← here) at (str_ne_sym j k apart)) (inl (here, same))
Has-delete_from k j v ((i, w) ∷ m) (inr later) apart = elim (Bool-cases (str_eq i j)) [
  | inl e ↦ rw e (Has-delete_from k j v m later apart)
  | inr e ↦ rw e (inr (Has-delete_from k j v m later apart))
]

stored_to : (m : Map ℕ) (k : String) (v : ℕ) → Has k v (stored m) → lookup k m ≡ some v
unfolding stored lookup
stored_to [] k v h = absurd h
stored_to ((j, w) ∷ m) k v (inl (here, same)) = rw ((eq_iff j k).1 here) (ap some same)
stored_to ((j, w) ∷ m) k v (inr later) =
    let (held, apart) = Has-delete_to k j v (stored m) later in rw apart (stored_to m k v held)

stored_from : (m : Map ℕ) (k : String) (v : ℕ) → lookup k m ≡ some v → Has k v (stored m)
unfolding stored lookup
stored_from [] k v h = cc
stored_from ((j, w) ∷ m) k v h = elim (str_cases j k) [
  | inl here ↦ inl (here, ap (get_or w) (rw ((eq_iff j k).1 here) at h))
  | inr apart ↦ inr (Has-delete_from k j v (stored m) (stored_from m k v (rw apart at h)) apart)
]

pub stored-IsOrder : IsOrder stored
stored-IsOrder m k v = (stored_to m k v, stored_from m k v)

abbrev busy : Map ℕ
busy = ("a:1", 9) ∷ ("b:1", 2) ∷ ("c:1", 5) ∷ []

least_of_busy : pick_least_loaded_runner busy 6 ≡ "b:1"
unfolding pick_least_loaded_runner
least_of_busy = refl

none_of_busy : pick_least_loaded_runner busy 2 ≡ ""
unfolding pick_least_loaded_runner
none_of_busy = refl

route_picks :
    route (in_memory stored) (new_naive_router 3 10) "7" two_runners
    ≡ ok (record { runner_addr = "b:1"; instance_id = "i2" })
unfolding route stored cache_model requests_per_runner
route_picks = refl

route_prepares :
    route (in_memory stored) (new_naive_router 0 10) "7" two_runners
    ≡ err (prepare_instance "7" "b:1")
unfolding route stored cache_model requests_per_runner pick_least_loaded_runner
route_prepares = refl

route-Outcome_example :
    Outcome stored stored-IsOrder two_runners two_runners-IsValid
      (new_naive_router 3 10)
      "7"
      (route (in_memory stored) (new_naive_router 3 10) "7" two_runners)
unfolding cache_model
route-Outcome_example =
    route-Outcome stored stored-IsOrder two_runners two_runners-IsValid (new_naive_router 3 10) "7"
      refl
