-- ===== src/Events.antt =====
-- pkg/events/events.go: the broker. A channel is the list of the events that wait in its buffer;
-- what a closed channel still holds is its reader's. The time and the random identifier that
-- `Publish` may need are arguments.
pub mod Acts
pub mod Delivery
pub mod Ring
pub mod Retention
pub mod Examples
use spectral_cloud.Prelude.{
  ℕ, zero, suc, ◌+◌, ◌-◌, ◌%◌, String, Option, none, some, List, [], ◌∷◌, ◌++◌, ◌==◌, ◌||◌, ltb,
  eqb, if◌then◌else◌, length, get_elem?, set, replicate,
}
use spectral_cloud.Prelude.Int.{ℤ, pos, negsuc, ltb_ℤ, leb_ℤ, incr}
use spectral_cloud.Prelude.Clock.{Time}
use spectral_cloud.Prelude.Dict.{Dict, insert, remove}
use mathlib.Core.List.{map}

-- The parameter is the type of the data that events carry.
pub record Event (D : Type 0) : Type 0 where
  pub id : String
  pub type_of : String
  pub tenant_id : String
  pub timestamp : Time
  pub payload : D

pub record Channel (D : Type 0) : Type 0 where
  pub capacity : ℤ
  pub waiting : List (Event D)

-- A slot of the ring that no event has reached yet holds the zero event, which is `none`.
pub record Broker (D : Type 0) : Type 0 where
  pub subscribers : Dict (Channel D)
  pub hist_buf : List (Option (Event D))
  pub hist_head : ℕ
  pub hist_max : ℕ
  pub hist_count : ℤ

abbrev pub default_history_size : ℤ
default_history_size = pos 256

module _ {D : Type 0} where
  unfoldable pub new_broker_with_history : ℤ → Broker D
  new_broker_with_history (negsuc n) = record {
    subscribers = [];
    hist_buf = [];
    hist_head = 0;
    hist_max = 0;
    hist_count = pos 0;
  }
  new_broker_with_history (pos n) = record {
    subscribers = [];
    hist_buf = replicate n none;
    hist_head = 0;
    hist_max = n;
    hist_count = pos 0;
  }

  unfoldable pub new_broker : Broker D
  unfolding new_broker_with_history
  new_broker = new_broker_with_history default_history_size

  -- A channel that stood under the identifier is replaced.
  unfoldable pub subscribe : Broker D → String → ℤ → Broker D
  subscribe b id buf_size = record b {
    subscribers =
        insert id
          (record { capacity = if leb_ℤ buf_size (pos 0) then pos 64 else buf_size; waiting = [] })
          b.subscribers;
  }

  unfoldable pub unsubscribe : Broker D → String → Broker D
  unsubscribe b id = record b { subscribers = remove id b.subscribers }

  -- A send that does not block: a full channel drops the event.
  unfoldable pub offer : Event D → Channel D → Channel D
  offer e c =
      if ltb_ℤ (pos (length c.waiting)) c.capacity
      then record c { waiting = c.waiting ++ (e ∷ []) }
      else c

  unfoldable pub complete : Event D → Time → String → Event D
  complete e now random_id = record e {
    id = if e.id == "" then random_id else e.id;
    timestamp = if eqb e.timestamp 0 then now else e.timestamp;
  }

  unfoldable pub remember : Broker D → Event D → Broker D
  remember b e =
      if ltb 0 b.hist_max
      then record b {
        hist_buf = set b.hist_buf b.hist_head (some e);
        hist_head = (b.hist_head + 1) % b.hist_max;
        hist_count = incr b.hist_count;
      }
      else b

  unfoldable pub publish : Broker D → Event D → Time → String → Broker D
  unfolding complete remember offer
  publish b event now random_id =
      let e = complete event now random_id in
      let r = remember b e in record r { subscribers = map (λ s. (s.0, offer e s.1)) r.subscribers }

  -- The newest `limit` slots, oldest first: the i-th from the end is read at head - 1 - i.
  unfoldable pub slots : Broker D → ℕ → List (Option (Option (Event D)))
  slots b zero = []
  slots b (suc i) =
      get_elem? b.hist_buf ((b.hist_head + b.hist_max - 1 - i) % b.hist_max) ∷ slots b i

  -- `none` is the nil slice. The count is negative only after 2^63 events, where Go would panic.
  unfoldable pub history : Broker D → ℤ → Option (List (Option (Option (Event D))))
  unfolding slots
  history b limit = if eqb b.hist_max 0 then none else elim b.hist_count [
    | negsuc n ↦ none
    | pos total ↦
        if eqb total 0
        then none
        else (let filled = if ltb b.hist_max total then b.hist_max else total in
            some (
              slots b (elim limit [
                | negsuc n ↦ filled
                | pos n ↦ if eqb n 0 || ltb filled n then filled else n
              ])))
  ]

  unfoldable pub subscriber_count : Broker D → ℕ
  subscriber_count b = length b.subscribers
