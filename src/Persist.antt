-- ===== src/Persist.antt =====
-- The key-value persistence that pkg/jobs, pkg/agentgroup, pkg/scheduler and pkg/pipeline share: the
-- interface `Persister` over BoltDB, and JSON. Both are parameters. An error of `PutKV` or
-- `DeleteKV` is logged and dropped by the callers, so `put` and `delete` give the store afterwards
-- in every case.
pub mod Memory
use spectral_cloud.Prelude.{
  String, ◌≡◌, Option, none, some, List, false, ◌==◌, ◌&&◌, if◌then◌else◌, ◌≢◌,
}
use spectral_cloud.Prelude.Decimal.{strip_prefix}
use mathlib.Core.List.{Memᴰ}

pub record Host : Type 1 where
  pub Payload : Type 0
  pub Data : Type 0
  pub Db : Type 0
  pub put : String → String → Data → Db → Db
  pub delete : String → String → Db → Db
  -- The values under a prefix, or `none` where `ScanPrefix` returns an error.
  pub scan : String → String → Db → Option (List Data)

-- json.Marshal and json.Unmarshal at one type; `none` is an error.
pub record Codec (h : Host) (A : Type 0) : Type 0 where
  pub encode : A → Option h.Data
  pub decode : h.Data → Option A

-- What a working store promises: a write for a named tenant (BoltDB refuses an empty name) or a
-- removal changes one key of one tenant, and a scan returns the values of the keys with the prefix.
pub record Works (h : Host) : Type 1 where
  pub get : h.Db → String → String → Option h.Data
  pub get-put :
      (t k u j : String) (v : h.Data) (d : h.Db)
      → (t == "") ≡ false
      → get (h.put t k v d) u j ≡ (if (u == t) && (j == k) then some v else get d u j)
  pub get-delete :
      (t k u j : String) (d : h.Db)
      → get (h.delete t k d) u j ≡ (if (u == t) && (j == k) then none else get d u j)
  pub scans : (t p : String) (d : h.Db) → (l : List h.Data) × (h.scan t p d ≡ some l)
  pub scan_sound :
      (t p : String) (d : h.Db) (l : List h.Data) (v : h.Data)
      → h.scan t p d ≡ some l
      → Memᴰ v l
      → (k r : String) × (strip_prefix p k ≡ some r) × (get d t k ≡ some v)
  pub scan_complete :
      (t p : String) (d : h.Db) (l : List h.Data) (v : h.Data) (k r : String)
      → h.scan t p d ≡ some l
      → strip_prefix p k ≡ some r
      → get d t k ≡ some v
      → Memᴰ v l

module _ {h : Host} {A : Type 0} (codec : Codec h A) where
  -- A value that has a JSON form, from which it is read back whole. Not every Go value has one: a
  -- channel has no JSON form, and an empty map under `omitempty` is read back as nil.
  abbrev pub Readable : A → Type 0
  Readable a = (v : h.Data) × (codec.encode a ≡ some v) × (codec.decode v ≡ some a)
