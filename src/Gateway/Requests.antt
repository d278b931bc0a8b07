-- ===== src/Gateway/Requests.antt =====
-- What the gateway answers, and the connections that it keeps.
use servermore.Base.{
  Bool, List, Option, String, [], ap, arith, eq_iff, eq_refl, false, if◌then◌else◌, inl, inr, none,
  refl, some, str_cases, subst₂, sym, true, ℕ, ◌<◌, ◌∙◌, ◌∷◌, ◌≡◌, ◌≢◌, ◌≤◌, ◌⊎◌,
}
use servermore.Base.Maps.{
  Has, Map, insert, lookup, lookup-insert, lookup-insert_ne, lookup-insert_self,
}
use servermore.Base.Results.{Result, err, ok, ok_or, ok_steps}
use servermore.Gateway.{
  BodyError, Clients, Reply, Request, Response, after_body, after_conn, after_routing, answer_of,
  checked_conn, forwarded, invoke_request, is_status, keep, locked_conn, panicked,
  process_function_request, read_error, refused, runner_conn, set_headers, too_large,
  write_response,
}
use servermore.Routing.{Routing}

nothing_held : (key value : String) → lookup key [] ≢ some value
unfolding lookup
nothing_held key value e = cc

module _ {Conn : Type 0} (clients : Clients Conn) where
  -- The headers that are set: each value under the spelling of its name, and no others.
  abbrev pub HasHeaders : Map String → Map String → Type 0
  HasHeaders given headers =
      ((name value : String)
        → Has name value given
        → (lookup (clients.header_key name) headers ≢ none))
      × ((key value : String)
          → lookup key headers ≡ some value
          → (name : String) × (clients.header_key name ≡ key) × Has name value given)

  -- What the handler makes of an answer: it writes the status and the body as they are, or panics at a
  -- status that is not one.
  abbrev pub IsWritten : Response → Reply → Type 0
  IsWritten resp (refused status code) = ⊥
  IsWritten resp (forwarded out) =
      (100 ≤ resp.status)
      × (resp.status ≤ 999)
      × (out.status ≡ resp.status)
      × (out.body ≡ resp.body)
      × HasHeaders resp.headers out.headers
  IsWritten resp (panicked status) = (status ≡ resp.status) × ((status < 100) ⊎ (999 < status))

  -- The handler writes what the instance answered: the commander named the instance and its runner, the
  -- runner's connection is kept, and the instance was called with this request.
  abbrev pub IsForwarded : List ℕ → Request → Map Conn → Reply → Type 0
  IsForwarded function_id r runners' reply =
      (routing : Routing) × (conn : Conn) × (body : List ℕ) × (resp : Response)
      × (clients.route_function function_id ≡ ok routing)
      × (lookup routing.runner_addr runners' ≡ some conn)
      × (r.body ≡ ok body)
      × (clients.invoke conn (invoke_request clients function_id r routing body) ≡ ok resp)
      × IsWritten resp reply

  abbrev pub IsRefused : Reply → Type 0
  IsRefused (forwarded resp) = ⊥
  IsRefused (panicked status) = ⊥
  IsRefused (refused status code) = (status ≡ 400) ⊎ ((status ≡ 413) ⊎ (status ≡ 500))

  -- Every connection of the first map is one of the second.
  abbrev pub IsKept : Map Conn → Map Conn → Type 0
  IsKept first runners =
      (addr : String) (conn : Conn)
      → lookup addr first ≡ some conn
      → lookup addr runners ≡ some conn

  locked_conn-IsKept :
      (addr : String) (runners runners' : Map Conn) (conn : Conn) (reused : Bool)
      (there : Option Conn)
      → lookup addr runners ≡ there
      → locked_conn clients addr runners there ≡ ok (conn, reused, runners')
      → (lookup addr runners' ≡ some conn) × IsKept runners runners'
  locked_conn-IsKept addr runners runners' conn reused (some old) there e =
      let same = ap (ok_or (old, true, runners)) e in
      subst₂ (λ c m. (lookup addr m ≡ some c) × IsKept runners m) (ap (λ p. p.0) same)
        (ap (λ p. p.2) same) (there, λ a c held. held)
  locked_conn-IsKept addr runners runners' conn reused none there e =
      let (dialled, _, kept) = ok_steps (clients.dial addr) _ e in
      let same = ap (ok_or (keep clients addr runners dialled)) kept in
      subst₂ (λ c m. (lookup addr m ≡ some c) × IsKept runners m) (ap (λ p. p.0) same)
        (ap (λ p. p.2) same)
        (
          lookup-insert_self addr dialled runners,
          λ a c held. elim (str_cases addr a) [
            | inl at_addr ↦ let gone : lookup a runners ≡ none = rw (← at_addr) there in cc
            | inr apart ↦ lookup-insert_ne addr a dialled runners apart ∙ held
          ],
        )

  checked_conn-IsKept :
      (addr : String) (first runners runners' : Map Conn) (conn : Conn) (reused : Bool)
      (there : Option Conn)
      → IsKept first runners
      → lookup addr first ≡ there
      → checked_conn clients addr runners there ≡ ok (conn, reused, runners')
      → (lookup addr runners' ≡ some conn) × IsKept runners runners'
  checked_conn-IsKept addr first runners runners' conn reused (some old) kept there e =
      locked_conn-IsKept addr runners runners' conn reused (some old) (kept addr old there) e
  checked_conn-IsKept addr first runners runners' conn reused none kept there e =
      locked_conn-IsKept addr runners runners' conn reused (lookup addr runners) refl e

  -- The connection that a request gets is the one kept for the runner's address, and every connection
  -- that was kept stays, whatever connections others added between the two checks.
  pub runner_conn-IsKept :
      (addr : String) (first runners runners' : Map Conn) (conn : Conn) (reused : Bool)
      → IsKept first runners
      → runner_conn clients addr first runners ≡ ok (conn, reused, runners')
      → (lookup addr runners' ≡ some conn) × IsKept runners runners'
  unfolding runner_conn
  runner_conn-IsKept addr first runners runners' conn reused kept e =
      checked_conn-IsKept addr first runners runners' conn reused (lookup addr first) kept refl e

  -- What the handler answers is refused with a status of its own, or forwarded.
  abbrev pub IsAnswered : List ℕ → Request → Map Conn → Reply × Map Conn → Type 0
  IsAnswered function_id r runners (reply, runners') =
      (IsRefused reply ⊎ IsForwarded function_id r runners' reply) × IsKept runners runners'

  set_headers-Has :
      (given headers : Map String) (name value : String)
      → Has name value given ⊎ (lookup (clients.header_key name) headers ≢ none)
      → lookup (clients.header_key name) (set_headers clients given headers) ≢ none
  unfolding set_headers
  set_headers-Has [] headers name value (inl nowhere) = absurd nowhere
  set_headers-Has [] headers name value (inr held) = held
  set_headers-Has ((k, v) ∷ later) headers name value (inl (inl (same, _))) =
      set_headers-Has later (insert (clients.header_key k) v headers) name value
        (inr (rw (lookup-insert, same, eq_refl) (λ e. cc)))
  set_headers-Has ((k, v) ∷ later) headers name value (inl (inr behind)) =
      set_headers-Has later (insert (clients.header_key k) v headers) name value (inl behind)
  set_headers-Has ((k, v) ∷ later) headers name value (inr held) =
      set_headers-Has later (insert (clients.header_key k) v headers) name value (
        inr (
          ground (
            arith,
            held,
            lookup-insert (clients.header_key k) (clients.header_key name) v headers,
          )))

  lookup-set_headers :
      (given headers : Map String) (key value : String)
      → lookup key (set_headers clients given headers) ≡ some value
      → ((name : String) × (clients.header_key name ≡ key) × Has name value given)
        ⊎ (lookup key headers ≡ some value)
  unfolding set_headers
  lookup-set_headers [] headers key value e = inr e
  lookup-set_headers ((k, v) ∷ later) headers key value e =
      elim (lookup-set_headers later (insert (clients.header_key k) v headers) key value e) [
        | inl (name, spelt, found) ↦ inl (name, spelt, inr found)
        | inr held ↦ elim (str_cases (clients.header_key k) key) [
          | inl same ↦ inl (
            k,
            same,
            inl (
              refl,
              ground (
                arith,
                held,
                same,
                eq_iff (clients.header_key k) key,
                lookup-insert (clients.header_key k) key v headers,
              ),
            ),
          )
          | inr apart ↦
              inr (sym (lookup-insert_ne (clients.header_key k) key v headers apart) ∙ held)
        ]
      ]

  set_headers-HasHeaders : (given : Map String) → HasHeaders given (set_headers clients given [])
  set_headers-HasHeaders given = (
    λ name value found. set_headers-Has given [] name value (inl found),
    λ key value e. elim (lookup-set_headers given [] key value e) [
      | inl spelt ↦ spelt
      | inr held ↦ absurd (nothing_held key value held)
    ],
  )

  status-IsWritten :
      (resp : Response) (fine : Bool)
      → is_status clients resp.status ≡ fine
      → IsWritten resp (
          if fine
          then forwarded (record resp { headers = set_headers clients resp.headers [] })
          else panicked resp.status)
  status-IsWritten resp true e =
      (ground (arith, e), ground (arith, e), refl, refl, set_headers-HasHeaders resp.headers)
  status-IsWritten resp false e = (refl, ground (arith, e))

  write_response-IsWritten : (resp : Response) → IsWritten resp (write_response clients resp)
  unfolding write_response
  write_response-IsWritten resp = status-IsWritten resp (is_status clients resp.status) refl

  answer_of-IsAnswered :
      (function_id : List ℕ) (r : Request) (routing : Routing) (runners' : Map Conn) (conn : Conn)
      (body : List ℕ) (answer : Result String Response)
      → clients.route_function function_id ≡ ok routing
      → lookup routing.runner_addr runners' ≡ some conn
      → r.body ≡ ok body
      → clients.invoke conn (invoke_request clients function_id r routing body) ≡ answer
      → IsRefused (answer_of clients answer)
        ⊎ IsForwarded function_id r runners' (answer_of clients answer)
  answer_of-IsAnswered function_id r routing runners' conn body (err e) routed held read asked =
      inl (inr (inr refl))
  answer_of-IsAnswered function_id r routing runners' conn body (ok resp) routed held read asked =
      inr (routing, conn, body, resp, routed, held, read, asked, write_response-IsWritten resp)

  after_body-IsAnswered :
      (function_id : List ℕ) (r : Request) (routing : Routing) (runners' : Map Conn) (conn : Conn)
      (body : Result BodyError (List ℕ))
      → clients.route_function function_id ≡ ok routing
      → lookup routing.runner_addr runners' ≡ some conn
      → r.body ≡ body
      → IsRefused (after_body clients function_id r routing conn body)
        ⊎ IsForwarded function_id r runners' (after_body clients function_id r routing conn body)
  after_body-IsAnswered function_id r routing runners' conn (err too_large) routed held read =
      inl (inr (inl refl))
  after_body-IsAnswered function_id r routing runners' conn (err (read_error e)) routed held read =
      inl (inr (inr refl))
  after_body-IsAnswered function_id r routing runners' conn (ok body) routed held read =
      answer_of-IsAnswered function_id r routing runners' conn body
        (clients.invoke conn (invoke_request clients function_id r routing body)) routed held read
        refl

  after_conn-IsAnswered :
      (function_id : List ℕ) (r : Request) (routing : Routing) (first runners : Map Conn)
      (found : Result String (Conn × Bool × Map Conn))
      → IsKept first runners
      → clients.route_function function_id ≡ ok routing
      → runner_conn clients routing.runner_addr first runners ≡ found
      → IsAnswered function_id r runners (after_conn clients function_id r routing runners found)
  after_conn-IsAnswered function_id r routing first runners (err e) kept routed asked =
      (inl (inr (inr refl)), λ a c held. held)
  after_conn-IsAnswered function_id r routing first runners (ok (conn, reused, runners')) kept
        routed asked =
      let (held, kept') =
        runner_conn-IsKept routing.runner_addr first runners runners' conn reused kept asked in
      (after_body-IsAnswered function_id r routing runners' conn r.body routed held refl, kept')

  after_routing-IsAnswered :
      (function_id : List ℕ) (r : Request) (first runners : Map Conn)
      (found : Result String Routing)
      → IsKept first runners
      → clients.route_function function_id ≡ found
      → IsAnswered function_id r runners (after_routing clients function_id r first runners found)
  after_routing-IsAnswered function_id r first runners (err e) kept routed =
      (inl (inr (inr refl)), λ a c held. held)
  after_routing-IsAnswered function_id r first runners (ok routing) kept routed =
      after_conn-IsAnswered function_id r routing first runners
        (runner_conn clients routing.runner_addr first runners) kept routed refl

  -- Every request is refused with status 400, 413 or 500, or the handler writes what the instance
  -- answered that the commander named for the function: that instance was called, over the connection
  -- kept for its runner, with the request's method, the forwarded path, the first values of its headers
  -- and its whole body. Every connection that was kept stays.
  pub process_function_request-IsAnswered :
      (function_id : List ℕ) (r : Request) (first runners : Map Conn)
      → IsKept first runners
      → IsAnswered function_id r runners
          (process_function_request clients function_id r first runners)
  unfolding process_function_request
  process_function_request-IsAnswered [] r first runners kept = (inl (inl refl), λ a c held. held)
  process_function_request-IsAnswered (b ∷ rest) r first runners kept =
      after_routing-IsAnswered (b ∷ rest) r first runners (clients.route_function (b ∷ rest)) kept
        refl
