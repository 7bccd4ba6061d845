-- ===== src/Notify/Firing.antt =====
-- pkg/notify/notify.go: which rules an event fires, what a delivery counts, and refused updates.
use mathlib.Core.List.{Memᴰ}
use spectral_cloud.Prelude.{
  String, ◌≡◌, ◌↔◌, ◌⊎◌, refl, Bool, true, false, not, some, List, [], ◌∷◌, ◌==◌, ◌&&◌, arith,
  eq_iff, eq_refl, eqb, if◌then◌else◌, Bool-cases, inl, inr, ap, ◌∙◌, sym, length, select,
}
use spectral_cloud.Prelude.Dict.{lookup, insert, values, lookup-insert}
use spectral_cloud.Prelude.Select.{mem-select}
use spectral_cloud.Persist.{Host, Codec}
use spectral_cloud.Events.{Event}
use spectral_cloud.Notify.Rule.{
  Rule, UpdateParams, Library, canonical_event_type, any_type, matches,
}
use spectral_cloud.Notify.{Manager, rejected, webhook_url_required, get, update, dispatch}

module _ {D : Type 0} (lib : Library D) where
  -- A rule without a tenant watches every tenant, and one without types every type; types are
  -- compared in their canonical spelling.
  abbrev pub Watches : Rule → Event D → Type 0
  Watches r ev =
      ((r.tenant ≡ "") ⊎ (r.tenant ≡ ev.tenant_id))
      × ((r.event_types ≡ [])
          ⊎ ((t : String) × Memᴰ t r.event_types
              × (canonical_event_type lib t ≡ canonical_event_type lib ev.type_of)))

  any_type_sound :
      (wanted : String) (ts : List String)
      → any_type lib wanted ts ≡ true
      → (t : String) × Memᴰ t ts × (canonical_event_type lib t ≡ wanted)
  unfolding any_type
  any_type_sound wanted [] h = absurd (ground (arith, h))
  any_type_sound wanted (t ∷ ts) h = elim (Bool-cases (canonical_event_type lib t == wanted)) [
    | inl e ↦ (t, Memᴰ.head refl, ground (arith, eq_iff (canonical_event_type lib t) wanted, e))
    | inr e ↦
        let later : any_type lib wanted ts ≡ true = ground (arith, h, e) in
        let (u, m, f) = any_type_sound wanted ts later in (u, Memᴰ.tail m, f)
  ]

  any_type_complete :
      (wanted : String) (ts : List String) (t : String)
      → Memᴰ t ts
      → canonical_event_type lib t ≡ wanted
      → any_type lib wanted ts ≡ true
  unfolding any_type
  any_type_complete wanted [] t m e = elim m [ ]
  any_type_complete wanted (x ∷ ts) t (Memᴰ.head f) e =
      let same : canonical_event_type lib x ≡ wanted = ap (canonical_event_type lib) (sym f) ∙ e in
      ground (arith, eq_iff (canonical_event_type lib x) wanted, same)
  any_type_complete wanted (x ∷ ts) t (Memᴰ.tail m) e =
      ground (arith, any_type_complete wanted ts t m e)

  length_zero : (ts : List String) → eqb (length ts) 0 ≡ true → ts ≡ []
  length_zero [] e = refl
  length_zero (t ∷ ts) e = absurd (ground (arith, e))

  matches_sound : (r : Rule) (ev : Event D) → matches lib r ev ≡ true → Watches r ev
  unfolding matches
  matches_sound r ev h =
      elim (Bool-cases (not (r.tenant == "") && not (r.tenant == ev.tenant_id))) [
        | inl e ↦ absurd (ground (arith, h, e))
        | inr e ↦ (tenants e, types (eqb (length r.event_types) 0) refl (ground (arith, h, e)))
      ]
    where
      tenants :
          (not (r.tenant == "") && not (r.tenant == ev.tenant_id)) ≡ false
          → (r.tenant ≡ "") ⊎ (r.tenant ≡ ev.tenant_id)
      tenants e = elim (Bool-cases (r.tenant == "")) [
        | inl a ↦ inl (ground (arith, eq_iff r.tenant "", a))
        | inr a ↦ inr (ground (arith, eq_iff r.tenant ev.tenant_id, a, e))
      ]

      types :
          (b : Bool)
          → eqb (length r.event_types) 0 ≡ b
          → (if b then true else any_type lib (canonical_event_type lib ev.type_of) r.event_types)
            ≡ true
          → (r.event_types ≡ [])
            ⊎ ((t : String) × Memᴰ t r.event_types
                × (canonical_event_type lib t ≡ canonical_event_type lib ev.type_of))
      types true e k = inl (length_zero r.event_types e)
      types false e k = inr (any_type_sound (canonical_event_type lib ev.type_of) r.event_types k)

  matches_complete : (r : Rule) (ev : Event D) → Watches r ev → matches lib r ev ≡ true
  unfolding matches
  matches_complete r ev (mine, typed) =
      let a : (not (r.tenant == "") && not (r.tenant == ev.tenant_id)) ≡ false = elim mine [
        | inl e ↦ ground (arith, eq_iff r.tenant "", e)
        | inr e ↦ ground (arith, eq_iff r.tenant ev.tenant_id, e)
      ] in
      elim typed [
        | inl e ↦
            let none_named : eqb (length r.event_types) 0 ≡ true = ap (λ l. eqb (length l) 0) e in
            rw (a, matches) (rw (none_named, matches) refl)
        | inr (t, m, e) ↦
            let found =
              any_type_complete (canonical_event_type lib ev.type_of) r.event_types t m e in
            rw (a, matches) (ground (arith, found))
      ]

module _ {h : Host} (codec : Codec h Rule) {D : Type 0} (lib : Library D) where
  -- An event fires exactly the rules that are stored and active and watch for it.
  pub mem-dispatch :
      (m : Manager h) (ev : Event D) (r : Rule)
      → Memᴰ r (dispatch codec lib m ev)
        ↔ (Memᴰ r (values m.rules) × (r.active ≡ true) × Watches lib r ev)
  unfolding dispatch
  mem-dispatch m ev r =
      let all = mem-select (λ x. x.active) r (values m.rules) in
      let some_of =
        mem-select (λ x. matches lib x ev) r (select (λ x. x.active) (values m.rules)) in
      (
        λ k. let (a, b) = some_of.0 k in let (c, d) = all.0 a in (c, d, matches_sound lib r ev b),
        λ (c, d, w). some_of.1 (all.1 (c, d), matches_complete lib r ev w),
      )

module _ {h : Host} (codec : Codec h Rule) where
  -- An update that names the rule anew but has an empty URL is refused, and the rule has the new
  -- name all the same; the store is not written.
  pub rejected_url :
      (m : Manager h) (tenant id : String) (params : UpdateParams) (r : Rule) (name : String)
      → lookup id m.rules ≡ some r
      → r.tenant ≡ tenant
      → params.name ≡ some name
      → (name == "") ≡ false
      → params.webhook_url ≡ some ""
      → (let (n, reply) = update codec m tenant id params in
          (reply ≡ rejected webhook_url_required)
          × (get codec n tenant id ≡ some (record r { name = name }))
          × (n.db ≡ m.db))
  unfolding update get
  rejected_url m tenant id params r name found mine named full url =
      let x : Rule = record r { name = name } in
      let b : (r.tenant == tenant) ≡ true = ground (arith, eq_iff r.tenant tenant, mine) in
      let stored : lookup id (insert id x m.rules) ≡ some x =
        lookup-insert id id x m.rules ∙ rw (eq_refl id) refl in
      let held : get codec m tenant id ≡ some r = rw (found, get) (rw (b, get) refl) in
      let result : update codec m tenant id params
          ≡ (record m { rules = insert id x m.rules }, rejected webhook_url_required) =
        rw (held, update) (rw (named, update) (rw (full, update) (rw (url, update) refl))) in
      rw result (refl, rw (stored, get) (rw (b, get) refl), refl)
