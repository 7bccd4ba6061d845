-- ===== src/Events/Examples.antt =====
-- Tests of the event broker, and its theorem at a concrete input.
use spectral_cloud.Prelude.{
  ℕ, String, ◌≡◌, refl, some, List, [], ◌∷◌, take, none, ◌-◌, eqb, if◌then◌else◌, length, map, drop,
  arith, eq_iff, ◌≢◌,
}
use spectral_cloud.Prelude.Int.{incr, pos_part, pos}
use spectral_cloud.Prelude.Clock.{Time}
use spectral_cloud.Prelude.Dict.{lookup}
use spectral_cloud.Events.{
  Event, Broker, new_broker_with_history, subscribe, complete, publish, history,
}
use spectral_cloud.Events.Acts.{
  publish_all, completed, Act, publishes, subscribes, unsubscribes, receives, act_all, published,
}
use spectral_cloud.Events.Delivery.{capacity_for, lookup-act_all-subscribe}
use spectral_cloud.Events.Retention.{retained, history-publish_all}

abbrev event : String → Event ℕ
event name = record {
  id = name;
  type_of = "job.created";
  tenant_id = "t";
  timestamp = 0;
  payload = 7;
}

abbrev three_events : List (Event ℕ × Time × String)
three_events = (event "a", 10, "r1") ∷ (event "", 11, "r2") ∷ (event "c", 12, "r3") ∷ []

abbrev broker : Broker ℕ
broker = new_broker_with_history (pos 2)

-- The ring of two keeps the last two events, the oldest first.
history_of_three :
    history (publish_all three_events broker) (pos 0)
    ≡ some (
        some (some (complete (event "") 11 "r2")) ∷ some (some (complete (event "c") 12 "r3")) ∷ [])
unfolding history publish_all publish new_broker_with_history incr
history_of_three = refl

-- Between the publications another subscriber comes, reads and goes.
abbrev acts : List (Act ℕ)
acts =
    subscribes "u" (pos 1)
    ∷ publishes (event "a") 10 "r1"
    ∷ receives "u"
    ∷ publishes (event "") 11 "r2"
    ∷ unsubscribes "u"
    ∷ publishes (event "c") 12 "r3"
    ∷ []

s_not_u : ◌≢◌ {A = String} "s" "u"
s_not_u = ground (arith, eq_iff "s" "u")

lookup-act_all-subscribe_example :
    let capacity = capacity_for (pos 2) in
    lookup "s" (act_all acts (subscribe broker "s" (pos 2))).subscribers
    ≡ some (record { capacity = capacity; waiting = take (pos_part capacity) (published acts) })
lookup-act_all-subscribe_example =
    lookup-act_all-subscribe broker "s" (pos 2) acts
      (s_not_u, (tt, (s_not_u, (tt, (s_not_u, (tt, tt))))))

history-publish_all_example :
    history (publish_all three_events (new_broker_with_history (pos 2))) (pos 1) ≡ (
      if eqb (length three_events) 0
      then none
      else some (
          map
            (λ x. some (some x))
            (drop
              (length three_events - retained 2 (pos 1) (length three_events))
              (completed three_events))))
history-publish_all_example = history-publish_all 2 (pos 1) three_events (omega arith) (omega arith)
