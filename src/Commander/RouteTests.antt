-- ===== src/Commander/RouteTests.antt =====
-- Runs of `WithRetry`, of `RouteFunction` and of a round of polling, and their theorems at them.
use mathlib.Core.List.{Memᴰ}
use servermore.Base.{
  List, String, [], arith, false, if◌then◌else◌, ltb, refl, some, str_distinct, ℕ, ◌∷◌, ◌≡◌,
}
use servermore.Base.Maps.{lookup}
use servermore.Base.Results.{Result, err, ok}
use servermore.Cache.{requests_per_runner, set_instance}
use servermore.Cache.Invariant.{IsValid}
use servermore.Cache.Tests.{cache_model, two_runners, two_runners-IsValid}
use servermore.Commander.Db.{
  DbError, RunnerRow, busy, errored_more_than, is_retryable, locked, retry_from, with_retry,
}
use servermore.Commander.Db.Retry.{Answers, with_retry-Answers}
use servermore.Commander.Polling.{ArePolled, IsEvicted, poll_all-IsEvicted, polling}
use servermore.Commander.Routes.{
  IsRoutable, IsRouted, commander, route_function-IsRouted, route_function_again,
}
use servermore.Commander.Service.{poll_all, route_function}
use servermore.Commander.Tests.{commander_model, no_rows_yet, small_service, uploaded}
use servermore.Routing.{Routing, new_naive_router, pick_least_loaded_runner, route}
use servermore.Routing.Tests.{stored, stored-IsOrder}

abbrev third_call_answers : ℕ → Result DbError String
third_call_answers k = if ltb k 3 then err busy else ok "row"

third_call : with_retry third_call_answers (λ k. false) ≡ some (ok "row")
unfolding with_retry retry_from is_retryable
third_call = refl

twenty_calls :
    with_retry {R = String} (λ k. err locked) (λ k. false)
    ≡ some (err (errored_more_than 20 locked))
unfolding with_retry retry_from is_retryable
twenty_calls = refl

with_retry-Answers_example :
    Answers third_call_answers (λ k. false) 1 (with_retry third_call_answers (λ k. false))
with_retry-Answers_example = with_retry-Answers third_call_answers (λ k. false)

abbrev routed_8 : Routing
routed_8 = record { runner_addr = "b:1"; instance_id = "i9" }

routed :
    route_function
      (commander stored stored-IsOrder (new_naive_router 3 10) small_service)
      "8"
      uploaded
      two_runners
    ≡ ok (routed_8, set_instance "8" "i9" "b:1" 0 two_runners)
unfolding commander_model cache_model route stored requests_per_runner pick_least_loaded_runner
routed = refl

pub two_runners-IsRoutable :
    IsRoutable stored stored-IsOrder (new_naive_router 3 10) small_service two_runners
unfolding cache_model
two_runners-IsRoutable = (two_runners-IsValid, refl)

route_function-IsRouted_example :
    IsRoutable stored stored-IsOrder
      (new_naive_router 3 10)
      small_service
      (set_instance "8" "i9" "b:1" 0 two_runners)
    × IsRouted stored stored-IsOrder
        (new_naive_router 3 10)
        small_service
        "8"
        routed_8
        (set_instance "8" "i9" "b:1" 0 two_runners)
route_function-IsRouted_example =
    route_function-IsRouted stored stored-IsOrder (new_naive_router 3 10) small_service "8" uploaded
      two_runners (set_instance "8" "i9" "b:1" 0 two_runners) routed_8 (str_distinct "8" "" refl)
      two_runners-IsRoutable routed

route_function_again_example :
    (routing' : Routing) × (route_function
        (commander stored stored-IsOrder (new_naive_router 3 10) small_service)
        "8"
        no_rows_yet
        (set_instance "8" "i9" "b:1" 0 two_runners)
      ≡ ok (routing', set_instance "8" "i9" "b:1" 0 two_runners))
route_function_again_example =
    route_function_again stored stored-IsOrder (new_naive_router 3 10) small_service "8" uploaded
      no_rows_yet two_runners (set_instance "8" "i9" "b:1" 0 two_runners) routed_8 (omega arith)
      (str_distinct "8" "" refl) two_runners-IsRoutable routed

abbrev both_runners : List RunnerRow
both_runners = record { id = 3; addr = "a:1" } ∷ record { id = 4; addr = "b:1" } ∷ []

-- "a:1" answers the round, and "b:1" does not.
both_polled : ArePolled stored small_service both_runners
unfolding lookup
both_polled = ((str_distinct "a:1" "" refl, (refl, tt)), ((str_distinct "b:1" "" refl, tt), tt))

poll_all-IsEvicted_example :
    IsValid (poll_all (polling stored small_service) both_runners two_runners)
    × IsEvicted stored small_service "b:1"
        (poll_all (polling stored small_service) both_runners two_runners)
poll_all-IsEvicted_example =
    poll_all-IsEvicted stored small_service both_runners "b:1" two_runners both_polled refl
      (Memᴰ.tail (Memᴰ.head refl)) two_runners-IsValid
