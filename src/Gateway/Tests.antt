-- ===== src/Gateway/Tests.antt =====
-- Runs of the gateway's handler, and its theorems at concrete inputs.
use mathlib.Core.List.{Memᴰ}
use servermore.Base.{List, String, [], false, none, refl, slash, ℕ, ◌++◌, ◌∷◌, ◌≡◌, ◌≢◌, ◌⊎◌}
use servermore.Base.Maps.{delete, insert, lookup}
use servermore.Base.Results.{ok}
use servermore.Gateway.{
  Clients, Request, close_entries, close_runners, flatten_headers, forwarded, forwarded_path,
  process_function_request, runner_conn, set_headers, write_response,
}
use servermore.Gateway.Closing.{Serves, at_start, runner_conn-IsClosed, then_request}
use servermore.Gateway.Paths.{IsRooted, forwarded_path_correct}

-- The function "7" is on the runner "a:1"; the connection to it is numbered 4.
abbrev one_runner : Clients ℕ
one_runner = record {
  route_function = λ function_id. ok (record { runner_addr = "a:1"; instance_id = "i1" });
  dial = λ addr. ok 4;
  invoke =
      λ conn request. ok (record { status = 201; headers = request.headers; body = request.path });
  header_key = λ name. name;
}

-- `POST /7/x`
abbrev post : Request
post = record {
  method = "POST";
  path = 47 ∷ 55 ∷ 47 ∷ 120 ∷ [];
  headers = ("Accept", "a" ∷ "b" ∷ []) ∷ ("Empty", []) ∷ [];
  body = ok (1 ∷ []);
}

answered : process_function_request one_runner (55 ∷ []) post [] [] ≡ (
  forwarded (record { status = 201; headers = ("Accept", "a") ∷ []; body = 47 ∷ 120 ∷ [] }),
  ("a:1", 4) ∷ [],
)
unfolding process_function_request runner_conn lookup insert flatten_headers forwarded_path
    write_response set_headers
answered = refl

dialled :
    runner_conn one_runner "a:1" [] (("b:1", 9) ∷ []) ≡ ok (4, false, ("b:1", 9) ∷ ("a:1", 4) ∷ [])
unfolding runner_conn lookup insert
dialled = refl

forwarded_path_correct_example :
    ((rest : List ℕ) × (post.path ≡ (slash ∷ 55 ∷ []) ++ rest)
      × IsRooted rest (forwarded_path post.path (55 ∷ [])))
    ⊎ (((rest : List ℕ) → post.path ≢ (slash ∷ 55 ∷ []) ++ rest)
        × IsRooted post.path (forwarded_path post.path (55 ∷ [])))
forwarded_path_correct_example = forwarded_path_correct post.path (55 ∷ [])

-- A further request, whose first check came before "a:1" was dialled, uses its connection at the
-- second check.
one_more : Serves one_runner (("b:1", 9) ∷ ("a:1", 4) ∷ []) (("b:1", 9) ∷ ("a:1", 4) ∷ [])
unfolding process_function_request runner_conn lookup
one_more = then_request (55 ∷ []) post [] at_start (λ a c e. cc)

closed_both : close_runners {Conn = ℕ} (("b:1", 9) ∷ ("a:1", 4) ∷ []) ≡ (9 ∷ 4 ∷ [], [])
unfolding close_entries delete
closed_both = refl

runner_conn-IsClosed_example :
    Memᴰ 4 (close_runners {Conn = ℕ} (("b:1", 9) ∷ ("a:1", 4) ∷ [])).0
    × ((other : String)
        → lookup other (close_runners {Conn = ℕ} (("b:1", 9) ∷ ("a:1", 4) ∷ [])).1 ≡ none)
unfolding lookup
runner_conn-IsClosed_example =
    runner_conn-IsClosed one_runner "a:1" [] (("b:1", 9) ∷ []) (("b:1", 9) ∷ ("a:1", 4) ∷ [])
      (("b:1", 9) ∷ ("a:1", 4) ∷ []) 4 false (λ a c e. cc) dialled one_more
