-- ===== src/Kv/Lookup.antt =====
-- pkg/kv/kv.go: what is read after a write or a removal.
use spectral_cloud.Prelude.{
  String, ◌≡◌, refl, Bool, true, false, Option, none, some, arith, eq_iff, if◌then◌else◌,
  Option-cases, Bool-cases, inl, inr, ap, ◌∙◌, ltb, ◌==◌, ◌&&◌,
}
use spectral_cloud.Prelude.Int.{pos, ltb_ℤ}
use spectral_cloud.Prelude.Clock.{Time, Duration, add_time}
use spectral_cloud.Prelude.Dict.{Dict, lookup, insert, remove, lookup-insert, lookup-remove}
use spectral_cloud.Kv.{Entry, Store, bucket, set_entry, unexpired, get, delete}

lookup-bucket :
    (t u : String) (m : Dict Entry) (s : Store) (x : String)
    → lookup x (bucket (record { entries = insert t m s.entries }) u)
      ≡ (if u == t then lookup x m else lookup x (bucket s u))
unfolding bucket
lookup-bucket t u m s x = ground (arith, lookup-insert t u m s.entries)

written :
    (t k u x : String) (e : Entry) (s : Store)
    → lookup x (bucket (record { entries = insert t (insert k e (bucket s t)) s.entries }) u)
      ≡ (if (u == t) && (x == k) then some e else lookup x (bucket s u))
written t k u x e s =
    lookup-bucket t u (insert k e (bucket s t)) s x
    ∙ ground (arith, lookup-insert k x e (bucket s t), eq_iff u t)

removed :
    (t k u x : String) (s : Store)
    → lookup x (bucket (record { entries = insert t (remove k (bucket s t)) s.entries }) u)
      ≡ (if (u == t) && (x == k) then none else lookup x (bucket s u))
removed t k u x s =
    lookup-bucket t u (remove k (bucket s t)) s x
    ∙ ground (arith, lookup-remove k x (bucket s t), eq_iff u t)

deleted :
    (s : Store) (t k u x : String)
    → lookup x (bucket (delete s t k).0 u)
      ≡ (if (u == t) && (x == k) then none else lookup x (bucket s u))
unfolding delete
deleted s t k u x = elim (Option-cases (lookup k (bucket s t))) [
  | inl e ↦ rw (e, delete) (ground (arith, e, eq_iff u t, eq_iff x k))
  | inr (old, e) ↦ rw (e, delete) (removed t k u x s)
]

abbrev written_entry : String → String → String → Duration → Time → Time → Entry
written_entry t k v ttl now stamp = record {
  key = k;
  value = v;
  tenant = t;
  expires_at = if ltb_ℤ (pos 0) ttl then some (add_time now ttl) else none;
  updated_at = stamp;
}

unexpired-written :
    (t k v : String) (ttl : Duration) (now stamp later : Time)
    → unexpired later (some (written_entry t k v ttl now stamp)) ≡ (
        if ltb_ℤ (pos 0) ttl && ltb (add_time now ttl) later
        then none
        else some (written_entry t k v ttl now stamp))
unexpired-written t k v ttl now stamp later = elim (Bool-cases (ltb_ℤ (pos 0) ttl)) [
  | inl e ↦ rw (e, written_entry) refl
  | inr e ↦ rw (e, written_entry) refl
]

unexpired-if :
    (c : Bool) (o p : Option Entry) (now : Time)
    → unexpired now (if c then o else p) ≡ (if c then unexpired now o else unexpired now p)
unexpired-if true o p now = refl
unexpired-if false o p now = refl

-- What a key of a tenant reads after `Set` and after `Delete`: the new entry until its time to
-- live is over, nothing, or for any other tenant or key what it read before.
pub get-set_entry_delete :
    (s : Store) (t k v : String) (ttl : Duration) (now stamp later : Time) (u x : String)
    → (get (set_entry s t k v ttl now stamp) u x later ≡ (
        if (u == t) && (x == k)
        then (if ltb_ℤ (pos 0) ttl && ltb (add_time now ttl) later
            then none
            else some (record {
              key = k;
              value = v;
              tenant = t;
              expires_at = if ltb_ℤ (pos 0) ttl then some (add_time now ttl) else none;
              updated_at = stamp;
            }))
        else get s u x later))
      × (get (delete s t k).0 u x later ≡ (if (u == t) && (x == k) then none else get s u x later))
unfolding get set_entry delete
get-set_entry_delete s t k v ttl now stamp later u x =
    let e = written_entry t k v ttl now stamp in
    let c = (u == t) && (x == k) in
    (
      ap (unexpired later) (written t k u x e s)
          ∙ unexpired-if c (some e) (lookup x (bucket s u)) later
          ∙ ap (λ o. if c then o else unexpired later (lookup x (bucket s u)))
              (unexpired-written t k v ttl now stamp later),
      ap (unexpired later) (deleted s t k u x) ∙ unexpired-if c none (lookup x (bucket s u)) later,
    )
