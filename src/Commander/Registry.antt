-- ===== src/Commander/Registry.antt =====
-- `CreateFunction` and `RegisterRunner`: what they write to the database, and when.
use servermore.Base.{
  Bool, Bool-cases, List, Option, String, ap, false, inl, inr, refl, sym, true, ℕ, ◌∙◌, ◌≡◌, ◌⊎◌,
}
use servermore.Base.Results.{Result, err, ok, ok_or, ok_steps, ok_wrapped, wrap}
use servermore.Commander.Db.{DbError, FunctionRow, RunnerRow}
use servermore.Commander.Service.{
  ApiFunction, HeartbeatResponse, Runners, Service, after_lookup, client_failed, create_function,
  exists_check_failed, heartbeat_failed, is_no_rows, persist_failed, persist_new_runner,
  read_failed, refuse_existing, register_runner, runner_save_failed, save_failed,
}

module _ {Key D S : Type 0} (svc : Service Key D S) where
  -- The steps of an upload that succeeded.
  abbrev pub IsUploaded : List ℕ → List ℕ → D → ApiFunction Key → D → Type 0
  IsUploaded func_name func_bytes d function d' =
      (func_path : List ℕ) × (row : FunctionRow Key) × (svc.db.function_exists_by_hash
          (svc.sha256 func_bytes) d
        ≡ ok false)
      × (svc.save func_name (svc.sha256 func_bytes) func_bytes ≡ ok func_path)
      × (svc.db.create_function func_path func_name (svc.sha256 func_bytes) d ≡ ok (row, d'))
      × (record { id = row.id; name = row.name } ≡ function)

  not_existing : (exists : Bool) (x : Unit {0}) → refuse_existing exists ≡ ok x → exists ≡ false
  not_existing false x e = refl
  not_existing true x e = cc

  -- An upload that succeeds has read the body, found no function of the same hash, saved the bytes,
  -- and made one row, for the path of the saved file and the hash; it answers with that row's id and
  -- name.
  pub create_function-IsUploaded :
      (func_name : List ℕ) (body : Result String (List ℕ)) (d d' : D) (function : ApiFunction Key)
      → create_function svc func_name body d ≡ ok (function, d')
      → (func_bytes : List ℕ) × (body ≡ ok func_bytes)
        × IsUploaded func_name func_bytes d function d'
  unfolding create_function
  create_function-IsUploaded func_name body d d' function e =
      let (func_bytes, read, e1) = ok_steps (wrap read_failed body) _ e in
      let (exists, asked, e2) =
        ok_steps
          (wrap exists_check_failed (svc.db.function_exists_by_hash (svc.sha256 func_bytes) d)) _
          e1 in
      let (x, fresh, e3) = ok_steps (refuse_existing exists) _ e2 in
      let (func_path, saved, e4) =
        ok_steps (wrap save_failed (svc.save func_name (svc.sha256 func_bytes) func_bytes)) _ e3 in
      let ((row, d1), made, e5) =
        ok_steps
          (wrap persist_failed
            (svc.db.create_function func_path func_name (svc.sha256 func_bytes) d))
          _ e4 in
      let same = ap (ok_or (record { id = row.id; name = row.name }, d1)) e5 in
      (
        func_bytes,
        ok_wrapped read_failed body read,
        (
          func_path,
          row,
          rw (← not_existing exists x fresh) (ok_wrapped exists_check_failed _ asked),
          ok_wrapped save_failed _ saved,
          ok_wrapped persist_failed _ made ∙ ap (λ x. ok (row, x)) (ap (λ p. p.1) same),
          ap (λ p. p.0) same,
        ),
      )

  -- The steps that register a runner that the database did not hold.
  abbrev pub IsSavedAlive : String → D → RunnerRow → D → Type 0
  IsSavedAlive addr d runn d' =
      ((missing : DbError) × (svc.db.runner_by_addr addr d ≡ err missing)
        × (is_no_rows missing ≡ true))
      × (svc.runners.create_client addr ≡ ok tt)
      × ((resp : Option HeartbeatResponse) × (svc.runners.heartbeat addr ≡ ok resp))
      × (svc.db.create_runner addr d ≡ ok (runn, d'))

  persist_new_runner-ok :
      (addr : String) (d d' : D) (runn : RunnerRow) (missing : DbError)
      → svc.db.runner_by_addr addr d ≡ err missing
      → is_no_rows missing ≡ true
      → persist_new_runner svc addr d ≡ ok (runn, d')
      → IsSavedAlive addr d runn d'
  unfolding persist_new_runner
  persist_new_runner-ok addr d d' runn missing asked absent e =
      let (x, client, e1) = ok_steps (wrap client_failed (svc.runners.create_client addr)) _ e in
      let (resp, answer, e2) = ok_steps (wrap heartbeat_failed (svc.runners.heartbeat addr)) _ e1 in
      (
        (missing, asked, absent),
        ok_wrapped client_failed _ client,
        (resp, ok_wrapped heartbeat_failed _ answer),
        ok_wrapped runner_save_failed _ e2,
      )

  after_lookup-ok :
      (addr : String) (d d' : D) (runn : RunnerRow) (found : Result DbError RunnerRow)
      → svc.db.runner_by_addr addr d ≡ found
      → after_lookup svc addr d found ≡ ok (runn, d')
      → ((found ≡ ok runn) × (d ≡ d')) ⊎ IsSavedAlive addr d runn d'
  after_lookup-ok addr d d' runn (ok row) asked e =
      let same = ap (ok_or (row, d)) e in inl (ap ok (ap (λ p. p.0) same), ap (λ p. p.1) same)
  after_lookup-ok addr d d' runn (err failing) asked e = elim (Bool-cases (is_no_rows failing)) [
    | inl absent ↦ inr (persist_new_runner-ok addr d d' runn failing asked absent (rw absent at e))
    | inr other ↦ let impossible = rw other at e in cc
  ]

  -- A registration that succeeds either finds the address in the database, answers with that row and
  -- leaves the database as it is, or finds no row, gets an answer to a heartbeat from the runner, and
  -- makes one row for the address.
  register_runner_correct :
      (addr : String) (d d' : D) (runn : RunnerRow)
      → register_runner svc addr d ≡ ok (runn, d')
      → ((svc.db.runner_by_addr addr d ≡ ok runn) × (d ≡ d')) ⊎ IsSavedAlive addr d runn d'
  unfolding register_runner
  register_runner_correct addr d d' runn e =
      after_lookup-ok addr d d' runn (svc.db.runner_by_addr addr d) refl e

-- A runner that has registered gets the same row when it registers again, and the database stays as
-- it is, whatever calls to runners answer then, if a row that was made is found again by its address.
pub register_runner_again :
    {Key D S : Type 0} (svc : Service Key D S) (later : Runners)
    (found : (addr : String) (d d' : D) (runn : RunnerRow)
      → svc.db.create_runner addr d ≡ ok (runn, d')
      → svc.db.runner_by_addr addr d' ≡ ok runn)
    (addr : String) (d d' : D) (runn : RunnerRow)
    → register_runner svc addr d ≡ ok (runn, d')
    → register_runner (record svc { runners = later }) addr d' ≡ ok (runn, d')
unfolding register_runner
register_runner_again svc later found addr d d' runn e =
    elim (register_runner_correct svc addr d d' runn e) [
      | inl (known, same) ↦ rw (ap (svc.db.runner_by_addr addr) (sym same) ∙ known)
      | inr (_, _, _, made) ↦ rw (found addr d d' runn made)
    ]
