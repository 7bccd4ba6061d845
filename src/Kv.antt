-- ===== src/Kv.antt =====
-- pkg/kv/kv.go: entries with an optional time to live, by tenant and key. The times of a call are
-- arguments. A loop over a map is a loop over its keys.
pub mod Lookup
pub mod Examples
use spectral_cloud.Prelude.{
  ℕ, ◌+◌, length, String, Bool, true, false, not, Option, none, some, List, [], ◌∷◌, ◌==◌, ◌&&◌,
  ◌||◌, eqb, if◌then◌else◌, select, count_if,
}
use spectral_cloud.Prelude.Int.{pos, ltb_ℤ}
use spectral_cloud.Prelude.Clock.{Time, Duration, add_time, passed, before}
use spectral_cloud.Prelude.Dict.{Dict, lookup, insert, remove, values, keys}
use spectral_cloud.Prelude.Sort.{sort_by}
use spectral_cloud.Prelude.Sweep.{sweep}
use spectral_cloud.Prelude.Bytes.{text_less}
use spectral_cloud.Prelude.Decimal.{strip_prefix}

pub record Entry : Type 0 where
  pub key : String
  pub value : String
  pub tenant : String
  pub expires_at : Option Time
  pub updated_at : Time

pub record Store : Type 0 where
  pub entries : Dict (Dict Entry)

unfoldable pub new : Store
new = record { entries = [] }

-- s.entries[tenant], where reading the nil map of a missing tenant finds nothing
unfoldable pub bucket : Store → String → Dict Entry
bucket s tenant = elim (lookup tenant s.entries) [ none ↦ [] | some m ↦ m ]

-- The clock is read twice: for the expiry and for the time of the update.
unfoldable pub set_entry : Store → String → String → String → Duration → Time → Time → Store
unfolding bucket add_time
set_entry s tenant key value ttl now stamp =
    let e : Entry = record {
      key = key;
      value = value;
      tenant = tenant;
      expires_at = if ltb_ℤ (pos 0) ttl then some (add_time now ttl) else none;
      updated_at = stamp;
    } in
    record { entries = insert tenant (insert key e (bucket s tenant)) s.entries }

abbrev pub unexpired : Time → Option Entry → Option Entry
unexpired now none = none
unexpired now (some e) = if passed e.expires_at now then none else some e

unfoldable pub get : Store → String → String → Time → Option Entry
unfolding bucket
get s tenant key now = unexpired now (lookup key (bucket s tenant))

unfoldable pub delete : Store → String → String → Store × Bool
unfolding bucket
delete s tenant key = elim (lookup key (bucket s tenant)) [
  | none ↦ (s, false)
  | some e ↦ (record { entries = insert tenant (remove key (bucket s tenant)) s.entries }, true)
]

abbrev pub has_prefix : String → String → Bool
has_prefix k prefix = elim (strip_prefix prefix k) [ none ↦ false | some rest ↦ true ]

unfoldable pub list : Store → String → String → Time → List Entry
unfolding bucket sort_by text_less
list s tenant prefix now =
    sort_by (λ a b. text_less a.key b.key)
      (values (
        select (λ e. (prefix == "" || has_prefix e.0 prefix) && not (passed e.1.expires_at now))
          (bucket s tenant)))

-- e.ExpiresAt == nil || now.Before(*e.ExpiresAt)
abbrev pub counted : Time → Entry → Bool
counted now e = elim e.expires_at [ none ↦ true | some t ↦ before now t ]

unfoldable pub count_all : Time → List (Dict Entry) → ℕ
count_all now [] = 0
count_all now (m ∷ ms) = count_if (counted now) (values m) + count_all now ms

unfoldable pub count : Store → Time → ℕ
unfolding count_all
count s now = count_all now (values s.entries)

-- The rounds of the two loops of `Prune`, over the keys of a tenant and over the tenants.
unfoldable pub prune_key : Time → Dict Entry × ℕ → String → Dict Entry × ℕ
prune_key now (m, n) k = elim (lookup k m) [
  | none ↦ (m, n)
  | some e ↦ if passed e.expires_at now then (remove k m, n + 1) else (m, n)
]

unfoldable pub prune_tenant : Time → Store × ℕ → String → Store × ℕ
unfolding sweep prune_key
prune_tenant now (s, n) tenant = elim (lookup tenant s.entries) [
  | none ↦ (s, n)
  | some m ↦
      let (left, total) = sweep (prune_key now) (m, n) (keys m) in
      let kept = insert tenant left s.entries in
      (record { entries = if eqb (length left) 0 then remove tenant kept else kept }, total)
]

unfoldable pub prune : Store → Time → Store × ℕ
unfolding sweep prune_tenant
prune s now = sweep (prune_tenant now) (s, 0) (keys s.entries)
