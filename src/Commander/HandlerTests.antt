-- ===== src/Commander/HandlerTests.antt =====
-- Runs of the commander's endpoints, and the theorems on their statuses at concrete inputs.
use servermore.Base.{[], refl, ◌∷◌, ◌≡◌, ◌⊎◌}
use servermore.Base.Results.{err, ok}
use servermore.Cache.{function_id_instances, requests_per_runner}
use servermore.Cache.Tests.{cache_model, two_runners, two_runners-IsValid}
use servermore.Commander.Handlers.{
  GrpcStatus, failure, grpc_route_function, http_create_function, http_download_function, success,
  unavailable, unknown,
}
use servermore.Commander.Routes.{commander}
use servermore.Commander.Service.{ServiceError, call_failed, function_by_id, route_function}
use servermore.Commander.Statuses.{AllBusy, grpc_route_function-unavailable}
use servermore.Commander.Tests.{commander_model, down, no_rows_yet, small_service, uploaded}
use servermore.Routing.{new_naive_router, pick_least_loaded_runner, route}
use servermore.Routing.Least.{AllLoaded}
use servermore.Routing.Route.{AllOverloaded}
use servermore.Routing.Tests.{stored, stored-IsOrder}

created :
    http_create_function small_service (ok (5 ∷ [], ok (2 ∷ []))) no_rows_yet
    ≡ (success 201 (record { id = 8; name = 5 ∷ [] }), uploaded)
unfolding commander_model http_create_function
created = refl

unknown_function :
    http_download_function small_service (λ path. ok []) "8" no_rows_yet
    ≡ failure 404 "function.not.found"
unfolding commander_model http_download_function function_by_id
unknown_function = refl

downloaded :
    http_download_function small_service (λ path. ok path) "8" uploaded
    ≡ success 200
        (record { function_id = 8; function_path = 5 ∷ 1 ∷ 2 ∷ []; content = 5 ∷ 1 ∷ 2 ∷ [] })
unfolding commander_model http_download_function function_by_id
downloaded = refl

none_free :
    grpc_route_function
      (commander stored stored-IsOrder (new_naive_router 0 0) small_service)
      (λ e. unknown)
      "7"
      uploaded
      two_runners
    ≡ err unavailable
unfolding commander_model cache_model route stored requests_per_runner pick_least_loaded_runner
    grpc_route_function
none_free = refl

-- A runner that cannot be reached makes the same status, though nothing is overloaded.
abbrev wrapped_status : ServiceError → GrpcStatus
wrapped_status (call_failed message) = unavailable
wrapped_status e = unknown

none_busy :
    grpc_route_function
      (commander stored stored-IsOrder
        (new_naive_router 3 10)
        (record small_service { runners = down }))
      wrapped_status
      "8"
      uploaded
      two_runners
    ≡ err unavailable
unfolding commander_model cache_model route stored requests_per_runner pick_least_loaded_runner
    grpc_route_function
none_busy = refl

grpc_route_function-unavailable_example :
    (AllBusy stored stored-IsOrder
        (new_naive_router 0 0)
        small_service
        (λ e. unknown)
        0
        (stored (function_id_instances "7" two_runners))
      → AllBusy stored stored-IsOrder
          (new_naive_router 0 0)
          small_service
          (λ e. unknown)
          0
          (stored (requests_per_runner two_runners))
      → grpc_route_function
          (commander stored stored-IsOrder (new_naive_router 0 0) small_service)
          (λ e. unknown)
          "7"
          uploaded
          two_runners
        ≡ err unavailable)
    × (grpc_route_function
            (commander stored stored-IsOrder (new_naive_router 0 0) small_service)
            (λ e. unknown)
            "7"
            uploaded
            two_runners
          ≡ err unavailable
        → (AllOverloaded stored stored-IsOrder two_runners two_runners-IsValid 0
              (stored (function_id_instances "7" two_runners))
            × AllLoaded 0 (stored (requests_per_runner two_runners)))
          ⊎ ((cause : ServiceError) × (◌≡◌ {A = GrpcStatus} unknown unavailable)
              × (route_function
                    (commander stored stored-IsOrder (new_naive_router 0 0) small_service)
                    "7"
                    uploaded
                    two_runners
                  ≡ err cause)))
unfolding cache_model
grpc_route_function-unavailable_example =
    grpc_route_function-unavailable stored stored-IsOrder (new_naive_router 0 0) small_service
      (λ e. unknown) "7" uploaded two_runners two_runners-IsValid refl
