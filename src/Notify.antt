-- ===== src/Notify.antt =====
-- pkg/notify/notify.go: the rules and their deliveries. `dispatch` starts a goroutine for each rule
-- that it returns, which is `fire`.
pub mod Rule
pub mod Firing
mod Examples
use Prim.Native.String.{◌++◌ as str_append}
use spectral_cloud.Prelude.{
  ℕ, ◌+◌, ◌%◌, String, Bool, true, false, not, Option, none, some, List, [], ◌∷◌, ◌==◌, ◌&&◌, ◌||◌,
  ltb, if◌then◌else◌, length, select, map,
}
use spectral_cloud.Prelude.Int.{word}
use spectral_cloud.Prelude.Clock.{Time}
use spectral_cloud.Prelude.Dict.{Dict, lookup, insert, remove, values}
use spectral_cloud.Persist.{Host, Codec}
use spectral_cloud.Events.{Event}
use Rule.{
  Rule as NotifyRule, UpdateParams, Library, Request, rule_key_prefix, parse_rule_num, rule_id,
  matches,
}

pub record Manager (h : Host) : Type 0 where
  pub rules : Dict NotifyRule
  pub counter : ℕ
  pub db : Option h.Db

pub data UpdateError : Type 0 where
  name_required : UpdateError
  webhook_url_required : UpdateError

pub data UpdateReply : Type 0 where
  not_found : UpdateReply
  rejected : UpdateError → UpdateReply
  updated : NotifyRule → UpdateReply

module _ {h : Host} (codec : Codec h NotifyRule) where
  unfoldable pub new : Manager h
  new = record { rules = []; counter = 0; db = none }

  unfoldable pub new_with_store : h.Db → Manager h
  new_with_store d = record { rules = []; counter = 0; db = some d }

  unfoldable pub persist : Manager h → NotifyRule → Manager h
  persist m r = elim m.db [
    | none ↦ m
    | some d ↦ elim (codec.encode r) [
      | none ↦ m
      | some v ↦ record m { db = some (h.put r.tenant (str_append rule_key_prefix r.id) v d) }
    ]
  ]

  unfoldable pub unpersist : Manager h → NotifyRule → Manager h
  unpersist m r = elim m.db [
    | none ↦ m
    | some d ↦ record m { db = some (h.delete r.tenant (str_append rule_key_prefix r.id) d) }
  ]

  unfoldable pub store_rule : Manager h → String → NotifyRule → Manager h
  unfolding persist
  store_rule m id r = persist (record m { rules = insert id r m.rules }) r

  unfoldable pub decode_all : List h.Data → List NotifyRule
  decode_all [] = []
  decode_all (v ∷ vs) =
      let rest = decode_all vs in elim (codec.decode v) [ none ↦ rest | some r ↦ r ∷ rest ]

  unfoldable pub restore : Manager h → List NotifyRule → Manager h
  unfolding parse_rule_num
  restore m [] = m
  restore m (r ∷ rs) =
      let n = parse_rule_num r.id in
      restore
        (record m {
          rules = insert r.id r m.rules;
          counter = if ltb m.counter n then n else m.counter;
        })
        rs

  unfoldable pub load_from_store : Manager h → String → Manager h × Option ℕ
  unfolding restore decode_all
  load_from_store m tenant = elim m.db [
    | none ↦ (m, some 0)
    | some d ↦ elim (h.scan tenant rule_key_prefix d) [
      | none ↦ (m, none)
      | some vs ↦ (restore m (decode_all vs), some (length (decode_all vs)))
    ]
  ]

  unfoldable pub add :
      Manager h → String → String → String → String → List String → Time → Manager h × NotifyRule
  unfolding store_rule rule_id
  add m tenant name webhook_url secret event_types now =
      let n = (m.counter + 1) % word in
      let r : NotifyRule = record {
        id = rule_id n;
        tenant = tenant;
        name = name;
        event_types = event_types;
        webhook_url = webhook_url;
        secret = secret;
        created_at = now;
        active = true;
        fired_total = 0;
      } in
      (store_rule (record m { counter = n }) (rule_id n) r, r)

  unfoldable pub get : Manager h → String → String → Option NotifyRule
  get m tenant id = elim (lookup id m.rules) [
    | none ↦ none
    | some r ↦ if r.tenant == tenant then some r else none
  ]

  abbrev or_else {ℓ} : {A : Type ℓ} → A → Option A → A
  or_else old none = old
  or_else old (some new) = new

  -- A field that may not be set to the empty text.
  abbrev pub is_empty : Option String → Bool
  is_empty none = false
  is_empty (some s) = s == ""

  -- The rule is changed in place, so a new name stays where the URL is refused.
  unfoldable pub update : Manager h → String → String → UpdateParams → Manager h × UpdateReply
  unfolding get store_rule
  update m tenant id params = elim (get m tenant id) [
    | none ↦ (m, not_found)
    | some r ↦
        if is_empty params.name
        then (m, rejected name_required)
        else (let renamed : NotifyRule = record r { name = or_else r.name params.name } in
            if is_empty params.webhook_url
            then (record m { rules = insert id renamed m.rules }, rejected webhook_url_required)
            else (let changed : NotifyRule = record renamed {
              webhook_url = or_else r.webhook_url params.webhook_url;
              secret = or_else r.secret params.secret;
              event_types = or_else r.event_types params.event_types;
              active = or_else r.active params.active;
            } in
                (store_rule m id changed, updated changed)))
  ]

  unfoldable pub delete : Manager h → String → String → Manager h × Bool
  unfolding get unpersist
  delete m tenant id = elim (get m tenant id) [
    | none ↦ (m, false)
    | some r ↦ (let u = unpersist m r in record u { rules = remove id u.rules }, true)
  ]

  unfoldable pub list : Manager h → String → List NotifyRule
  list m tenant = select (λ r. tenant == "" || r.tenant == tenant) (values m.rules)

module _ {h : Host} (codec : Codec h NotifyRule) {D : Type 0} (lib : Library D) where
  -- The rules for which a goroutine is started.
  unfoldable pub dispatch : Manager h → Event D → List NotifyRule
  unfolding matches
  dispatch m ev = select (λ r. matches lib r ev) (select (λ r. r.active) (values m.rules))

  -- What is posted, if the request can be made; the reply to it is not looked at.
  unfoldable pub fire : Manager h → NotifyRule → Event D → Manager h × Option Request
  unfolding store_rule
  fire m r ev = elim (lib.body r ev) [
    | none ↦ (m, none)
    | some content ↦
        if not (lib.is_url r.webhook_url)
        then (m, none)
        else (let request : Request = record {
          url = r.webhook_url;
          content = content;
          rule = r.id;
          signature =
              if r.secret == ""
              then none
              else some (str_append "sha256=" (lib.hmac_hex r.secret content));
        } in
            (
              elim (lookup r.id m.rules) [
                | none ↦ m
                | some live ↦
                    store_rule codec m r.id
                      (record live { fired_total = (live.fired_total + 1) % word })
              ],
              some request,
            ))
  ]
