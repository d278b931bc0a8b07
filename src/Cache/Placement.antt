-- ===== src/Cache/Placement.antt =====
-- The cache as its clients see it: where each instance runs. Independent of the seven maps.
use servermore.Base.{Bool, Option, String, false, if◌then◌else◌, none, some, str_eq, ℕ}
use servermore.Base.Maps.{get_or, lookup}
use servermore.Cache.{InMemoryCache}

pub record Placement : Type 0 where
  pub function : Option String
  pub runner : String
  pub queue_len : ℕ

-- What the maps say of one instance.
abbrev pub placed_by : Option String → Option String → Option ℕ → Option Placement
placed_by function none queue_len = none
placed_by function (some runner) queue_len =
    some (record { function = function; runner = runner; queue_len = get_or 0 queue_len })

abbrev pub placement : InMemoryCache → String → Option Placement
placement c i =
    placed_by (lookup i c.instance_function) (lookup i c.instance_runner)
      (lookup i c.instance_queue)

abbrev pub runs_on : String → Option Placement → Bool
runs_on r none = false
runs_on r (some p) = str_eq p.runner r

abbrev pub function_of : Option Placement → Option String
function_of none = none
function_of (some p) = p.function

-- The instances of a runner that is gone have no placement.
abbrev pub evicted : String → Option Placement → Option Placement
evicted r p = if runs_on r p then none else p

-- A heartbeat: a reported instance runs on `r` with the reported queue and the function known for
-- it; the other instances of `r` are gone; the rest is as it was.
abbrev pub after_heartbeat : String → Option ℕ → Option Placement → Option Placement
after_heartbeat r none p = evicted r p
after_heartbeat r (some depth) p =
    some (record { function = function_of p; runner = r; queue_len = depth })
