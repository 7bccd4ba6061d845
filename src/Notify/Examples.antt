-- ===== src/Notify/Examples.antt =====
-- Tests of the notification rules, and their theorems at concrete inputs.
use mathlib.Core.List.{Memᴰ}
use spectral_cloud.Prelude.{String, ◌≡◌, ◌↔◌, refl, true, false, none, some, [], ◌∷◌}
use spectral_cloud.Prelude.Dict.{lookup, values}
use spectral_cloud.Persist.{Host, Codec}
use spectral_cloud.Events.{Event}
use spectral_cloud.Notify.Rule.{Rule, UpdateParams, Library}
use spectral_cloud.Notify.{Manager, get, update, rejected, webhook_url_required, dispatch}
use spectral_cloud.Notify.Firing.{Watches, mem-dispatch, rejected_url}

-- A host without storage.
abbrev bare : Host
bare = record {
  Payload = String;
  Data = Rule;
  Db = String;
  put = λ t k v d. d;
  delete = λ t k d. d;
  scan = λ t p d. some [];
}

abbrev plain : Codec bare Rule
plain = record { encode = λ r. some r; decode = λ r. some r }

abbrev lib : Library String
lib = record {
  to_lower = λ s. s;
  body = λ r ev. some ev.payload;
  is_url = λ s. true;
  hmac_hex = λ k s. s;
}

abbrev routes : Rule
routes = record {
  id = "rule-1";
  tenant = "t";
  name = "routes";
  event_types = "route_updated" ∷ [];
  webhook_url = "http://h";
  secret = "";
  created_at = 1;
  active = true;
  fired_total = 0;
}

abbrev paused : Rule
paused = record routes { id = "rule-2"; active = false }

abbrev m : Manager bare
m = record { rules = ("rule-1", routes) ∷ ("rule-2", paused) ∷ []; counter = 2; db = none }

-- The event is spelled with a dot, the rule with an underscore.
abbrev event : Event String
event = record {
  id = "e";
  type_of = " route.updated";
  tenant_id = "t";
  timestamp = 5;
  payload = "p";
}

fires : dispatch plain lib m event ≡ routes ∷ []
unfolding dispatch
fires = refl

mem-dispatch_example :
    Memᴰ routes (dispatch plain lib m event)
    ↔ (Memᴰ routes (values m.rules) × (routes.active ≡ true) × Watches lib routes event)
mem-dispatch_example = mem-dispatch plain lib m event routes

found : lookup "rule-1" m.rules ≡ some routes
unfolding lookup
found = refl

abbrev no_url : UpdateParams
no_url = record {
  name = some "all";
  webhook_url = some "";
  secret = none;
  event_types = none;
  active = none;
}

rejected_url_example :
    let (n, reply) = update plain m "t" "rule-1" no_url in
    (reply ≡ rejected webhook_url_required)
    × (get plain n "t" "rule-1" ≡ some (record routes { name = "all" }))
    × (n.db ≡ m.db)
rejected_url_example =
    rejected_url plain m "t" "rule-1" no_url routes "all" found refl refl refl refl
