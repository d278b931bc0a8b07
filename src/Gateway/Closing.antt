-- ===== src/Gateway/Closing.antt =====
-- The connections that the gateway makes, and their end at its shutdown.
use mathlib.Core.List.{Memᴰ}
use servermore.Base.{
  Bool, List, Option, String, [], arith, eq_iff, if◌then◌else◌, inl, inr, none, refl, some,
  str_cases, str_eq, ℕ, ◌∙◌, ◌∷◌, ◌≡◌,
}
use servermore.Base.Maps.{Map, delete, is_some, lookup, lookup-delete}
use servermore.Base.Results.{ok}
use servermore.Gateway.{
  Clients, Request, close_entries, close_runners, process_function_request, runner_conn,
}
use servermore.Gateway.Requests.{IsKept, process_function_request-IsAnswered, runner_conn-IsKept}

closed-lookup :
    {Conn : Type 0} (addr : String) (conn : Conn) (entries runners : Map Conn)
    → lookup addr entries ≡ some conn
    → Memᴰ conn (close_entries entries runners).0
unfolding close_entries lookup
closed-lookup addr conn [] runners e = cc
closed-lookup addr conn ((k, c) ∷ entries) runners e =
    let found : (if str_eq k addr then some c else lookup addr entries) ≡ some conn = e in
    elim (str_cases k addr) [
      | inl same ↦ Memᴰ.head (ground (arith, found, eq_iff k addr))
      | inr apart ↦
          Memᴰ.tail (closed-lookup addr conn entries (delete k runners) (ground (arith, found)))
    ]

left-lookup :
    {Conn : Type 0} (addr : String) (entries runners : Map Conn)
    → lookup addr (close_entries entries runners).1
      ≡ (if is_some (lookup addr entries) then none else lookup addr runners)
unfolding close_entries lookup
left-lookup addr [] runners = refl
left-lookup addr ((k, c) ∷ entries) runners = ground (
  arith,
  left-lookup addr entries (delete k runners),
  lookup-delete k addr runners,
  eq_iff k addr,
)

none_left : {A : Type 0} (found : Option A) → (if is_some found then none else found) ≡ none
none_left none = refl
none_left (some a) = refl

module _ {Conn : Type 0} (clients : Clients Conn) where
  -- The connections that requests leave, one after the other at the lock. The first check of each sees
  -- connections of some earlier moment.
  pub data Serves (start : Map Conn) : Map Conn → Type 0 where
    at_start : Serves start start
    then_request :
        {runners : Map Conn} (function_id : List ℕ) (r : Request) (first : Map Conn)
        → Serves start runners
        → IsKept clients first runners
        → Serves start (process_function_request clients function_id r first runners).1

  Serves-IsKept : (start runners : Map Conn) → Serves start runners → IsKept clients start runners
  Serves-IsKept start _ at_start = λ addr conn e. e
  Serves-IsKept start _ (then_request {runners} function_id r first before seen) = λ addr conn e.
      (process_function_request-IsAnswered clients function_id r first runners seen).1 addr conn
        (Serves-IsKept start runners before addr conn e)

  -- Every connection that `runnerConn` hands out is closed by `Close`, whatever requests come in
  -- between, if what its first check sees is still kept at its second; and `Close` leaves no
  -- connection.
  pub runner_conn-IsClosed :
      (addr : String) (first runners runners' last : Map Conn) (conn : Conn) (reused : Bool)
      → IsKept clients first runners
      → runner_conn clients addr first runners ≡ ok (conn, reused, runners')
      → Serves runners' last
      → Memᴰ conn (close_runners last).0
        × ((other : String) → lookup other (close_runners last).1 ≡ none)
  runner_conn-IsClosed addr first runners runners' last conn reused kept handed serves =
      let (there, _) =
        runner_conn-IsKept clients addr first runners runners' conn reused kept handed in
      (
        closed-lookup addr conn last last (Serves-IsKept runners' last serves addr conn there),
        λ other. left-lookup other last last ∙ none_left (lookup other last),
      )
