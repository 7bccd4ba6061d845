-- ===== src/Notify/Rule.antt =====
-- pkg/notify/notify.go: a rule, and the events that it watches for. `strings.ToLower` is a parameter,
-- `json.Marshal`, `http.NewRequest` and the HMAC as well.
use Prim.Native.Nat.{ℕ}
use Prim.Native.Char.{Char, code}
use Prim.Native.String.{◌++◌ as str_append}
use spectral_cloud.Prelude.{
  String, Bool, true, false, not, Option, none, some, List, [], ◌∷◌, ◌==◌, ◌&&◌, eqb, length,
  if◌then◌else◌,
}
use spectral_cloud.Prelude.Clock.{Time}
use spectral_cloud.Prelude.Spaces.{trim_space}
use spectral_cloud.Prelude.Decimal.{show, scan, strip_prefix}
use spectral_cloud.Events.{Event}

pub record Rule : Type 0 where
  pub id : String
  pub tenant : String
  pub name : String
  pub event_types : List String
  pub webhook_url : String
  pub secret : String
  pub created_at : Time
  pub active : Bool
  pub fired_total : ℕ

pub record UpdateParams : Type 0 where
  pub name : Option String
  pub webhook_url : Option String
  pub secret : Option String
  pub event_types : Option (List String)
  pub active : Option Bool

-- What the code takes from the libraries: the JSON of what a rule sends for an event, whether a URL
-- makes a request, and the HMAC in hexadecimal.
pub record Library (D : Type 0) : Type 0 where
  pub to_lower : String → String
  pub body : Rule → Event D → Option String
  pub is_url : String → Bool
  pub hmac_hex : String → String → String

pub record Request : Type 0 where
  pub url : String
  pub content : String
  pub rule : String
  pub signature : Option String

abbrev pub rule_key_prefix : String
rule_key_prefix = "notify_"

unfoldable pub parse_rule_num : String → ℕ
unfolding strip_prefix scan
parse_rule_num id = elim (strip_prefix "rule-" id) [ none ↦ 0 | some rest ↦ scan rest ]

unfoldable pub rule_id : ℕ → String
rule_id n = str_append "rule-" (show n)

abbrev underscore : Char
underscore = "_"

-- strings.ReplaceAll(s, ".", "_")
unfoldable pub replace_dots : String → String
replace_dots String.[] = ""
replace_dots (String.◌∷◌ c s) =
    String.◌∷◌ (if eqb (code c) 46 then underscore else c) (replace_dots s)

module _ {D : Type 0} (lib : Library D) where
  unfoldable pub canonical_event_type : String → String
  unfolding trim_space replace_dots
  canonical_event_type value = replace_dots (trim_space (lib.to_lower value))

  unfoldable pub any_type : String → List String → Bool
  unfolding canonical_event_type
  any_type ev_type [] = false
  any_type ev_type (t ∷ ts) =
      let rest = any_type ev_type ts in if canonical_event_type t == ev_type then true else rest

  unfoldable pub matches : Rule → Event D → Bool
  unfolding any_type
  matches r ev =
      if not (r.tenant == "") && not (r.tenant == ev.tenant_id)
      then false
      else if eqb (length r.event_types) 0
      then true
      else any_type (canonical_event_type ev.type_of) r.event_types
