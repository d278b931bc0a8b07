-- ===== src/Runner/MultiConsumer.antt =====
-- pkg/runner/instances.go: `MultiConsumer`, through which one goroutine hands a result to all that
-- wait for it. Each operation holds the consumer's mutex from its first access to the end, so that a
-- run is a sequence of operations.
use servermore.Base.{
  Bool, List, Option, [], false, if◌then◌else◌, length, none, some, suc, true, zero, ℕ, ◌++◌, ◌∷◌,
}
use servermore.Base.Results.{Result, err, ok, ◌>>=◌}

-- A channel made with a buffer of one: what it holds, and whether it has been closed.
pub record Channel (T : Type 0) : Type 0 where
  pub buffer : Option T
  pub closed : Bool

-- What ends or stops a goroutine that works on a channel.
pub data ChannelFailure : Type 0 where
  send_on_closed close_of_closed send_blocks unknown_channel : ChannelFailure

-- `subscribers` names channels by the order in which they were made, and `channels` holds them in
-- that order. `hasResult` is whether `result` is there.
pub record MultiConsumer (T : Type 0) : Type 0 where
  pub subscribers : List ℕ
  pub result : Option T
  pub channels : List (Channel T)

pub data Operation (T : Type 0) : Type 0 where
  add_sub_op : Operation T
  submit_op : T → Operation T

module _ {T : Type 0} where
  abbrev pub new_channel : Channel T
  new_channel = record { buffer = none; closed = false }

  abbrev pub send_open : T → Option T → Result ChannelFailure (Channel T)
  send_open value none = ok (record { buffer = some value; closed = false })
  send_open value (some old) = err send_blocks

  -- `sub <- result`
  abbrev pub send : T → Channel T → Result ChannelFailure (Channel T)
  send value ch = if ch.closed then err send_on_closed else send_open value ch.buffer

  -- `close(sub)`
  abbrev pub close : Channel T → Result ChannelFailure (Channel T)
  close ch = if ch.closed then err close_of_closed else ok (record ch { closed = true })

  abbrev pub send_and_close : T → Channel T → Result ChannelFailure (Channel T)
  send_and_close value ch = send value ch >>= λ sent. close sent

  unfoldable pub deliver : T → ℕ → List (Channel T) → Result ChannelFailure (List (Channel T))
  deliver value sub [] = err unknown_channel
  deliver value zero (ch ∷ chans) = send_and_close value ch >>= λ done. ok (done ∷ chans)
  deliver value (suc sub) (ch ∷ chans) = deliver value sub chans >>= λ rest. ok (ch ∷ rest)

  -- The loop of `SubmitResult` over the subscribers.
  unfoldable pub deliver_all :
      T → List ℕ → List (Channel T) → Result ChannelFailure (List (Channel T))
  deliver_all value [] chans = ok chans
  deliver_all value (sub ∷ subs) chans =
      deliver value sub chans >>= λ chans'. deliver_all value subs chans'

  abbrev pub new_multi_consumer : MultiConsumer T
  new_multi_consumer = record { subscribers = []; result = none; channels = [] }

  abbrev pub add_sub_on : Option T → MultiConsumer T → Result ChannelFailure (MultiConsumer T)
  add_sub_on none b = ok (record b {
    subscribers = b.subscribers ++ (length b.channels ∷ []);
    channels = b.channels ++ (new_channel ∷ []);
  })
  add_sub_on (some value) b = send_and_close value new_channel >>= λ done.
      ok (record b { channels = b.channels ++ (done ∷ []) })

  -- `AddSub`: the new channel is the last one of the channels it leaves.
  unfoldable pub add_sub : MultiConsumer T → Result ChannelFailure (MultiConsumer T)
  add_sub b = add_sub_on b.result b

  unfoldable pub submit_result : T → MultiConsumer T → Result ChannelFailure (MultiConsumer T)
  submit_result value b = deliver_all value b.subscribers b.channels >>= λ chans.
      ok (record { subscribers = []; result = some value; channels = chans })

  abbrev pub perform : Operation T → MultiConsumer T → Result ChannelFailure (MultiConsumer T)
  perform add_sub_op b = add_sub b
  perform (submit_op value) b = submit_result value b

  unfoldable pub run :
      List (Operation T) → MultiConsumer T → Result ChannelFailure (MultiConsumer T)
  unfolding add_sub submit_result
  run [] b = ok b
  run (op ∷ ops) b = perform op b >>= λ b'. run ops b'
