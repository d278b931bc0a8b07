-- ===== src/Runner/SingleWorker.antt =====
-- At most one worker serves an instance, in the order in which its requests were queued.
use servermore.Base.{
  Bool, List, [], ap, append_assoc, append_behind, arith, false, if◌then◌else◌, inl, inr, leb,
  length, length-behind, refl, sym, true, ℕ, ◌++◌, ◌+◌, ◌<◌, ◌∙◌, ◌∷◌, ◌≡◌, ◌≤◌, ◌⊎◌,
}
use servermore.Base.Results.{not_refused, ok, ok_or, required}
use servermore.Runner.Instances.{
  InstanceState, adding_to_closed_queue, invocations_queue_max_len, open_instance, queue_full,
  reset_timer, send_on_closed_queue, send_to_queue, timer_already_triggered,
}
use servermore.Runner.Worker.{Execution, admitted, asked, waiting}

module _ {Q : Type 0} where
  -- Those that have passed the timer and are, or will be, workers.
  abbrev pub committed : Execution Q → ℕ
  committed x = x.timed_starters + x.queued_starters + x.workers

  -- Until the timer fires, a worker or a caller that will start one is there exactly if the instance
  -- is open.
  abbrev pub IsAttended : Execution Q → Type 0
  IsAttended x =
      ((x.instance_of.opened ≡ true) × (x.starters + committed x ≡ 1))
      ⊎ ((x.instance_of.opened ≡ false) × (x.starters + committed x ≡ 0))

-- What every reachable execution keeps.
pub record IsServed {Q : Type 0} (x : Execution Q) : Type 0 where
  pub one_worker : committed x ≤ 1
  pub attended : x.instance_of.timer_active ≡ true → IsAttended x
  pub short : length x.instance_of.queue ≤ invocations_queue_max_len
  pub in_order : x.served ++ x.instance_of.queue ≡ x.accepted
  pub ended : (x.shutdown ≡ waiting) ⊎ (x.instance_of.timer_active ≡ false)
  pub uncancelled : x.instance_of.cancelled ≡ true → x.instance_of.timer_active ≡ false

module _ {Q : Type 0} where
  pub sent :
      (req : Q) (instance instance' : InstanceState Q)
      → send_to_queue req instance ≡ ok instance'
      → (length (instance.queue ++ (req ∷ [])) ≤ invocations_queue_max_len)
        × (record instance { queue = instance.queue ++ (req ∷ []) } ≡ instance')
  sent req instance instance' e =
      let (unclosed, e1) = not_refused instance.queue_closed send_on_closed_queue _ e in
      let (free, e2) =
        not_refused (leb invocations_queue_max_len (length instance.queue)) queue_full _ e1 in
      (rw (length-behind instance.queue req) (ground (arith, free)), ap (ok_or instance) e2)

  pub let_in :
      (now : ℕ) (instance instance' : InstanceState Q)
      → admitted now instance ≡ ok instance'
      → (instance.opened ≡ true)
        × (instance.timer_active ≡ true)
        × (record instance { last_used_timer_end = now + instance.instance_shutdown_after }
            ≡ instance')
  unfolding reset_timer
  let_in now instance instance' e =
      let (is_open, e1) = required instance.opened adding_to_closed_queue _ e in
      let (active, e2) = required instance.timer_active timer_already_triggered _ e1 in
      (is_open, active, ap (ok_or instance) e2)

  opened_as :
      (x : Execution Q) (b : Bool)
      → x.instance_of.opened ≡ b
      → IsServed x
      → IsServed (
          asked
            (if b then (true, x.instance_of) else (false, record x.instance_of { opened = true }))
            x)
  opened_as x true e h = record {
    one_worker = h.one_worker;
    attended = h.attended;
    short = h.short;
    in_order = h.in_order;
    ended = h.ended;
    uncancelled = h.uncancelled;
  }
  opened_as x false e h = record {
    one_worker = h.one_worker;
    attended = λ active. elim (h.attended active) [
      | inl (is_open, _) ↦ cc
      | inr (_, unattended) ↦ inl (refl, omega arith)
    ];
    short = h.short;
    in_order = h.in_order;
    ended = h.ended;
    uncancelled = h.uncancelled;
  }

  pub ask-IsServed :
      (x : Execution Q) → IsServed x → IsServed (asked (open_instance x.instance_of) x)
  unfolding open_instance
  ask-IsServed x h = opened_as x x.instance_of.opened refl h

  -- A step that only moves goroutines on keeps what is said of the instance.
  pub moved-IsServed :
      (x y : Execution Q)
      → IsServed x
      → y.instance_of ≡ x.instance_of
      → y.shutdown ≡ x.shutdown
      → y.served ≡ x.served
      → y.accepted ≡ x.accepted
      → committed y ≤ 1
      → (x.instance_of.timer_active ≡ true → y.starters + committed y ≡ x.starters + committed x)
      → IsServed y
  moved-IsServed x y h same phase served accepted small count = record {
    one_worker = small;
    attended = λ active. elim (h.attended (rw same at active)) [
      | inl (is_open, attended) ↦
          inl (ap (λ i. i.opened) same ∙ is_open, count (rw same at active) ∙ attended)
      | inr (unopen_yet, attended) ↦
          inr (ap (λ i. i.opened) same ∙ unopen_yet, count (rw same at active) ∙ attended)
    ];
    short = rw same h.short;
    in_order = rw (same, served, accepted) h.in_order;
    ended = rw (same, phase) h.ended;
    uncancelled = rw same h.uncancelled;
  }

  pub attended_open :
      (x : Execution Q)
      → IsServed x
      → x.instance_of.opened ≡ true
      → x.instance_of.timer_active ≡ true
      → x.starters + committed x ≡ 1
  attended_open x h is_open active = elim (h.attended active) [
    | inl (_, attended) ↦ attended
    | inr (unopen_yet, _) ↦ cc
  ]

  pub attended_working :
      (x : Execution Q)
      → IsServed x
      → 0 < committed x
      → x.instance_of.timer_active ≡ true
      → x.starters + committed x ≡ 1
  attended_working x h working active = elim (h.attended active) [
    | inl (_, attended) ↦ attended
    | inr (_, attended) ↦ absurd (omega (arith, attended, working))
  ]

  pub queued_last :
      (x : Execution Q) (req : Q)
      → IsServed x
      → x.served ++ (x.instance_of.queue ++ (req ∷ [])) ≡ x.accepted ++ (req ∷ [])
  queued_last x req h =
      sym (append_assoc x.served x.instance_of.queue (req ∷ []))
      ∙ ap (λ l. l ++ (req ∷ [])) h.in_order

  pub served_first :
      (x : Execution Q) (req : Q) (rest : List Q)
      → IsServed x
      → x.instance_of.queue ≡ req ∷ rest
      → (x.served ++ (req ∷ [])) ++ rest ≡ x.accepted
  served_first x req rest h front =
      append_behind x.served req rest ∙ ap (λ l. x.served ++ l) (sym front) ∙ h.in_order

  pub shorter :
      (x : Execution Q) (req : Q) (rest : List Q)
      → IsServed x
      → x.instance_of.queue ≡ req ∷ rest
      → length rest ≤ invocations_queue_max_len
  shorter x req rest h front =
      let bound : length (req ∷ rest) ≤ invocations_queue_max_len = rw front at h.short in
      omega (arith, bound)
