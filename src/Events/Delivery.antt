-- ===== src/Events/Delivery.antt =====
-- pkg/events/events.go: what a subscriber finds in its channel.
use spectral_cloud.Prelude.{
  ℕ, zero, suc, ◌+◌, ◌<◌, String, ◌≡◌, refl, some, List, [], ◌∷◌, ◌++◌, arith, eq_refl,
  if◌then◌else◌, Bool-cases, inl, inr, length, take, length-append, ap, ◌∙◌, sym, ◌==◌, map,
  Option-cases, All, ◌≢◌, eq_iff,
}
use spectral_cloud.Prelude.Int.{leb_ℤ, pos_part, ℤ, pos, negsuc}
use spectral_cloud.Prelude.Clock.{Time}
use spectral_cloud.Prelude.Dict.{Dict, lookup, insert, remove, lookup-insert, lookup-remove}
use spectral_cloud.Events.{
  Event, Channel, Broker, subscribe, unsubscribe, offer, complete, remember, publish,
}
use spectral_cloud.Events.Acts.{
  Act, publishes, subscribes, unsubscribes, receives, take_first, receive, act, act_all, SparesFor,
  published,
}

abbrev pub capacity_for : ℤ → ℤ
capacity_for size = if leb_ℤ size (pos 0) then pos 64 else size

capacity_is_pos : (size : ℤ) → (k : ℕ) × (capacity_for size ≡ pos k)
capacity_is_pos (pos n) = elim (Bool-cases (leb_ℤ (pos n) (pos 0))) [
  | inl e ↦ (64, ground (arith, e))
  | inr e ↦ (n, ground (arith, e))
]
capacity_is_pos (negsuc n) = (64, ground arith)

module _ {D : Type 0} where
  map_append :
      (w : List (Event D)) (e : Event D) (es : List (Event D))
      → (w ++ (e ∷ [])) ++ es ≡ w ++ (e ∷ es)
  map_append [] e es = refl
  map_append (x ∷ w) e es = ap (◌∷◌ x) (map_append w e es)

  append_nil : (w : List (Event D)) → w ++ [] ≡ w
  append_nil [] = refl
  append_nil (x ∷ w) = ap (◌∷◌ x) (append_nil w)

  unfoldable offer_all : List (Event D) → Channel D → Channel D
  offer_all [] c = c
  offer_all (e ∷ es) c = offer_all es (offer e c)

  channel_of : ℕ → List (Event D) → Channel D
  channel_of c w = record { capacity = pos c; waiting = w }

  offer_full :
      (c : ℕ) (w : List (Event D)) (e : Event D)
      → length w ≡ c
      → offer e (channel_of c w) ≡ channel_of c w
  unfolding offer channel_of
  offer_full c w e h = ground (arith, h)

  offer_room :
      (c : ℕ) (w : List (Event D)) (e : Event D)
      → length w < c
      → offer e (channel_of c w) ≡ channel_of c (w ++ (e ∷ []))
  unfolding offer channel_of
  offer_room c w e h = ground (arith, h)

  offer_all-take :
      (es : List (Event D)) (c d : ℕ) (w : List (Event D))
      → length w + d ≡ c
      → offer_all es (channel_of c w) ≡ channel_of c (w ++ take d es)
  unfolding offer_all
  offer_all-take [] c zero w h = ap (channel_of c) (sym (append_nil w))
  offer_all-take [] c (suc d) w h = ap (channel_of c) (sym (append_nil w))
  offer_all-take (e ∷ es) c zero w h =
      ap (offer_all es) (offer_full c w e (omega arith)) ∙ offer_all-take es c zero w h
  offer_all-take (e ∷ es) c (suc d) w h =
      ap (offer_all es) (offer_room c w e (omega arith))
      ∙ offer_all-take es c d (w ++ (e ∷ [])) (omega (arith, length-append w (e ∷ [])))
      ∙ ap (channel_of c) (map_append w e (take d es))

  lookup-offer :
      (id : String) (e : Event D) (m : Dict (Channel D)) (c : Channel D)
      → lookup id m ≡ some c
      → lookup id (map (λ s. (s.0, offer e s.1)) m) ≡ some (offer e c)
  unfolding lookup
  lookup-offer id e [] c h = absurd (ground (arith, h))
  lookup-offer id e ((k, x) ∷ m) c h = elim (Bool-cases (id == k)) [
    | inl t ↦
        let same : x ≡ c = ground (arith, t, h) in rw (t, lookup) (ap (λ y. some (offer e y)) same)
    | inr t ↦ rw (t, lookup) (lookup-offer id e m c (ground (arith, t, h)))
  ]

  subscribers-remember : (b : Broker D) (e : Event D) → (remember b e).subscribers ≡ b.subscribers
  unfolding remember
  subscribers-remember b e = ground arith

  lookup-publish :
      (id : String) (b : Broker D) (e : Event D) (t : Time) (r : String) (c : Channel D)
      → lookup id b.subscribers ≡ some c
      → lookup id (publish b e t r).subscribers ≡ some (offer (complete e t r) c)
  unfolding publish
  lookup-publish id b e t r c h =
      lookup-offer id (complete e t r) (remember b (complete e t r)).subscribers c
        (ap (lookup id) (subscribers-remember b (complete e t r)) ∙ h)

  offer_all-opened :
      (es : List (Event D)) (z : ℤ) (k : ℕ)
      → z ≡ pos k
      → offer_all es (record { capacity = z; waiting = [] })
        ≡ record { capacity = z; waiting = take (pos_part z) es }
  unfolding channel_of
  offer_all-opened es (pos n) k e = offer_all-take es n n [] (omega arith)
  offer_all-opened es (negsuc n) k e = absurd (ground (arith, e))

  lookup-insert_ne :
      (id j : String) (c : Channel D) (m : Dict (Channel D))
      → id ≢ j
      → lookup id (insert j c m) ≡ lookup id m
  lookup-insert_ne id j c m apart = ground (arith, apart, eq_iff id j, lookup-insert j id c m)

  lookup-remove_ne :
      (id j : String) (m : Dict (Channel D)) → id ≢ j → lookup id (remove j m) ≡ lookup id m
  lookup-remove_ne id j m apart = ground (arith, apart, eq_iff id j, lookup-remove j id m)

  lookup-take_first_ne :
      (id j : String) (b : Broker D) (c : Channel D) (w : List (Event D))
      → id ≢ j
      → lookup id (take_first b j c w).0.subscribers ≡ lookup id b.subscribers
  lookup-take_first_ne id j b c [] apart = refl
  lookup-take_first_ne id j b c (e ∷ es) apart = lookup-insert_ne id j _ b.subscribers apart

  lookup-receive_ne :
      (id j : String) (b : Broker D)
      → id ≢ j
      → lookup id (receive b j).0.subscribers ≡ lookup id b.subscribers
  unfolding receive
  lookup-receive_ne id j b apart = elim (Option-cases (lookup j b.subscribers)) [
    | inl e ↦ rw (e, receive) refl
    | inr (c, e) ↦ rw (e, receive) (lookup-take_first_ne id j b c c.waiting apart)
  ]

  lookup-act_all :
      (id : String) (acts : List (Act D)) (b : Broker D) (c : Channel D)
      → All (SparesFor id) acts
      → lookup id b.subscribers ≡ some c
      → lookup id (act_all acts b).subscribers ≡ some (offer_all (published acts) c)
  unfolding act_all act subscribe unsubscribe offer_all
  lookup-act_all id [] b c h e = e
  lookup-act_all id (publishes x t r ∷ acts) b c h e =
      lookup-act_all id acts (publish b x t r) (offer (complete x t r) c) h.1
        (lookup-publish id b x t r c e)
  lookup-act_all id (subscribes j size ∷ acts) b c h e =
      lookup-act_all id acts (subscribe b j size) c h.1
        (lookup-insert_ne id j _ b.subscribers h.0 ∙ e)
  lookup-act_all id (unsubscribes j ∷ acts) b c h e =
      lookup-act_all id acts (unsubscribe b j) c h.1 (lookup-remove_ne id j b.subscribers h.0 ∙ e)
  lookup-act_all id (receives j ∷ acts) b c h e =
      lookup-act_all id acts (receive b j).0 c h.1 (lookup-receive_ne id j b h.0 ∙ e)

  -- A subscriber that reads nothing finds the first events that were published after it subscribed,
  -- in their order and as many as its buffer holds (64 unless it asks for a positive number); the
  -- later ones are dropped. In between, other identifiers may subscribe, unsubscribe and receive in
  -- any order; no call is about the subscriber's own identifier.
  pub lookup-act_all-subscribe :
      (b : Broker D) (id : String) (size : ℤ) (acts : List (Act D))
      → All (SparesFor id) acts
      → let capacity = capacity_for size in
        lookup id (act_all acts (subscribe b id size)).subscribers
        ≡ some (record { capacity = capacity; waiting = take (pos_part capacity) (published acts) })
  unfolding subscribe
  lookup-act_all-subscribe b id size acts others =
      let z = capacity_for size in
      let (k, e) = capacity_is_pos size in
      let c : Channel D = record { capacity = z; waiting = [] } in
      let stored : lookup id (subscribe b id size).subscribers ≡ some c =
        lookup-insert id id c b.subscribers ∙ ground (arith, eq_refl id) in
      lookup-act_all id acts (subscribe b id size) c others stored
      ∙ ap some (offer_all-opened (published acts) z k e)
