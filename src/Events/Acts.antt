-- ===== src/Events/Acts.antt =====
-- pkg/events/events.go: histories of calls on a broker, and the receives from its channels.
use spectral_cloud.Prelude.{String, Option, none, some, List, [], ◌∷◌, ◌≢◌, map}
use spectral_cloud.Prelude.Int.{ℤ}
use spectral_cloud.Prelude.Clock.{Time}
use spectral_cloud.Prelude.Dict.{lookup, insert}
use spectral_cloud.Events.{Event, Channel, Broker, subscribe, unsubscribe, complete, publish}

-- A publication, with its time and random identifier, or an act on the channel of an identifier.
pub data Act (D : Type 0) : Type 0 where
  publishes : Event D → Time → String → Act D
  subscribes : String → ℤ → Act D
  unsubscribes : String → Act D
  receives : String → Act D

module _ {D : Type 0} where
  -- Events that are published one after the other, each with its time and random identifier.
  unfoldable pub publish_all : List (Event D × Time × String) → Broker D → Broker D
  publish_all [] b = b
  publish_all ((e, t, r) ∷ ps) b = publish_all ps (publish b e t r)

  abbrev pub completed : List (Event D × Time × String) → List (Event D)
  completed ps = map (λ p. complete p.0 p.1 p.2) ps

  abbrev pub take_first :
      Broker D → String → Channel D → List (Event D) → Broker D × Option (Event D)
  take_first b id c [] = (b, none)
  take_first b id c (e ∷ es) =
      (record b { subscribers = insert id (record c { waiting = es }) b.subscribers }, some e)

  -- A receive that does not wait, from the channel that stands under an identifier.
  unfoldable pub receive : Broker D → String → Broker D × Option (Event D)
  receive b id = elim (lookup id b.subscribers) [
    | none ↦ (b, none)
    | some c ↦ take_first b id c c.waiting
  ]

  unfoldable pub act : Act D → Broker D → Broker D
  unfolding receive
  act (publishes e t r) b = publish b e t r
  act (subscribes id size) b = subscribe b id size
  act (unsubscribes id) b = unsubscribe b id
  act (receives id) b = (receive b id).0

  unfoldable pub act_all : List (Act D) → Broker D → Broker D
  unfolding act
  act_all [] b = b
  act_all (a ∷ acts) b = act_all acts (act a b)

  -- The acts that are not about the channel of an identifier, but for the publications.
  abbrev pub SparesFor : String → Act D → Type 0
  SparesFor id (publishes e t r) = Unit
  SparesFor id (subscribes j size) = id ≢ j
  SparesFor id (unsubscribes j) = id ≢ j
  SparesFor id (receives j) = id ≢ j

  -- The events that a history publishes, each with its identifier and its time filled in.
  abbrev pub published : List (Act D) → List (Event D)
  published [] = []
  published (publishes e t r ∷ acts) = complete e t r ∷ published acts
  published (subscribes j size ∷ acts) = published acts
  published (unsubscribes j ∷ acts) = published acts
  published (receives j ∷ acts) = published acts
