-- ===== src/Events/Retention.antt =====
-- pkg/events/events.go: what `History` returns.
use mathlib.Core.Path.{subst}
use spectral_cloud.Prelude.{
  ℕ, zero, suc, ◌+◌, ◌-◌, ◌<◌, ◌≤◌, String, ◌≡◌, refl, false, Option, none, some, List, [], ◌∷◌,
  ◌++◌, arith, if◌then◌else◌, Bool-cases, inl, inr, length, ap, ◌∙◌, sym, ltb, eqb, ◌||◌, map, drop,
  replicate, length-append,
}
use spectral_cloud.Prelude.Int.{ℤ, pos, negsuc, half_word}
use spectral_cloud.Prelude.Clock.{Time}
use spectral_cloud.Events.{
  Event, Broker, new_broker_with_history, complete, publish, slots, history,
}
use spectral_cloud.Events.Acts.{publish_all, completed}
use spectral_cloud.Events.Ring.{Ring, remember-Ring, slots-Ring}

-- How many events are returned: all that the ring holds, or the limit where it is positive and less.
abbrev pub retained : ℕ → ℤ → ℕ → ℕ
retained n limit total =
    let filled = if ltb n total then n else total in
    elim limit [ negsuc k ↦ filled | pos k ↦ if eqb k 0 || ltb filled k then filled else k ]

retained_small :
    (n : ℕ) (limit : ℤ) (total : ℕ)
    → (retained n limit total ≤ n) × (retained n limit total ≤ total)
retained_small n (negsuc k) total = (ground arith, ground arith)
retained_small n (pos k) total = (ground arith, ground arith)

module _ {D : Type 0} where
  publish-Ring :
      (n : ℕ) (b : Broker D) (xs : List (Event D)) (e : Event D) (t : Time) (r : String)
      → 0 < n
      → length xs + 1 < half_word
      → Ring n b xs
      → Ring n (publish b e t r) (xs ++ complete e t r ∷ [])
  unfolding publish
  publish-Ring n b xs e t r some_slot room h =
      let q = remember-Ring n b xs (complete e t r) some_slot room h in
      record { size = q.size; room = q.room; head = q.head; count = q.count; held = q.held }

  append_assoc :
      (xs : List (Event D)) (e : Event D) (es : List (Event D))
      → (xs ++ e ∷ []) ++ es ≡ xs ++ e ∷ es
  append_assoc [] e es = refl
  append_assoc (x ∷ xs) e es = ap (◌∷◌ x) (append_assoc xs e es)

  append_nil : (xs : List (Event D)) → xs ++ [] ≡ xs
  append_nil [] = refl
  append_nil (x ∷ xs) = ap (◌∷◌ x) (append_nil xs)

  publish_all-Ring :
      (n : ℕ) (ps : List (Event D × Time × String)) (b : Broker D) (xs : List (Event D))
      → 0 < n
      → length xs + length ps < half_word
      → Ring n b xs
      → Ring n (publish_all ps b) (xs ++ completed ps)
  unfolding publish_all
  publish_all-Ring n [] b xs some_slot room h = subst (Ring n b) (sym (append_nil xs)) h
  publish_all-Ring n ((e, t, r) ∷ ps) b xs some_slot room h =
      let longer = length-append xs (complete e t r ∷ []) in
      subst (Ring n (publish_all ps (publish b e t r)))
        (append_assoc xs (complete e t r) (completed ps))
        (publish_all-Ring n ps (publish b e t r) (xs ++ complete e t r ∷ []) some_slot
          (omega (arith, room, longer))
          (publish-Ring n b xs e t r some_slot (omega (arith, room)) h))

  length-replicate : (n : ℕ) (x : Option (Event D)) → length (replicate n x) ≡ n
  length-replicate zero x = refl
  length-replicate (suc n) x = ap suc (length-replicate n x)

  new-Ring : (n : ℕ) → 0 < n → Ring {D = D} n (new_broker_with_history (pos n)) []
  unfolding new_broker_with_history
  new-Ring n p = record {
    size = refl;
    room = length-replicate n none;
    head = omega (arith, p);
    count = refl;
    held = λ j x at recent. absurd (ground (arith, at));
  }

  length-completed : (ps : List (Event D × Time × String)) → length (completed ps) ≡ length ps
  length-completed [] = refl
  length-completed (p ∷ ps) = ap suc (length-completed ps)

  history-Ring :
      (n : ℕ) (limit : ℤ) (b : Broker D) (xs : List (Event D))
      → 0 < n
      → Ring n b xs
      → history b limit ≡ (
          if eqb (length xs) 0
          then none
          else some (map (λ x. some (some x)) (drop (length xs - retained n limit (length xs)) xs)))
  unfolding history
  history-Ring n limit b xs some_slot r =
      let on : eqb b.hist_max 0 ≡ false = ground (arith, r.size, some_slot) in
      elim (Bool-cases (eqb (length xs) 0)) [
        | inl e ↦ rw (on, history) (rw (r.count, history) (rw (e, history) refl))
        | inr e ↦
            let (a, c) = retained_small n limit (length xs) in
            rw (on, history)
              (rw (r.count, history)
                (rw (e, history)
                  (ap (λ m. some (slots b (retained m limit (length xs)))) r.size
                    ∙ ap some (slots-Ring n b xs (retained n limit (length xs)) r a c))))
      ]

  -- After fewer than 2^63 events on a new broker whose ring has `n` slots, `History` returns the
  -- newest events, completed and in the order they were published: the last `n`, or as many as the
  -- limit says if it is positive and less; and nil if there was none.
  pub history-publish_all :
      (n : ℕ) (limit : ℤ) (ps : List (Event D × Time × String))
      → 0 < n
      → length ps < half_word
      → history (publish_all ps (new_broker_with_history (pos n))) limit ≡ (
          if eqb (length ps) 0
          then none
          else some (
              map
                (λ x. some (some x))
                (drop (length ps - retained n limit (length ps)) (completed ps))))
  history-publish_all n limit ps some_slot room =
      let b = publish_all ps (new_broker_with_history (pos n)) in
      let r =
        publish_all-Ring n ps (new_broker_with_history (pos n)) [] some_slot (omega (arith, room))
          (new-Ring n some_slot) in
      history-Ring n limit b (completed ps) some_slot r
      ∙ ap
          (λ k.
            if eqb k 0
            then none
            else some (map (λ x. some (some x)) (drop (k - retained n limit k) (completed ps))))
          (length-completed ps)
