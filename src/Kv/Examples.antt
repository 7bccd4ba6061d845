-- ===== src/Kv/Examples.antt =====
-- Tests of the key-value store, and its theorem at a concrete input.
use spectral_cloud.Prelude.{◌≡◌, ◌≢◌, refl, none, some, arith, if◌then◌else◌, ltb, ◌==◌, ◌&&◌}
use spectral_cloud.Prelude.Int.{pos, ltb_ℤ}
use spectral_cloud.Prelude.Clock.{add_time}
use spectral_cloud.Prelude.Dict.{lookup, insert}
use spectral_cloud.Kv.{Store, set_entry, get, delete, count, new}
use spectral_cloud.Kv.Lookup.{get-set_entry_delete}

abbrev one : Store
one = set_entry new "t" "k" "v" (pos 10) 100 101

-- At the instant of its expiry an entry is still read, but not counted.
expiry_instant : (count one 110 ≡ 0) × (get one "t" "k" 110 ≢ none)
unfolding set_entry new get count lookup insert
expiry_instant = (refl, λ e. absurd (ground (arith, e)))

get-set_entry_delete_example :
    (get (set_entry one "t" "k" "w" (pos 0) 200 201) "t" "k" 900 ≡ (
      if ("t" == "t") && ("k" == "k")
      then (if ltb_ℤ (pos 0) (pos 0) && ltb (add_time 200 (pos 0)) 900
          then none
          else some (record {
            key = "k";
            value = "w";
            tenant = "t";
            expires_at = if ltb_ℤ (pos 0) (pos 0) then some (add_time 200 (pos 0)) else none;
            updated_at = 201;
          }))
      else get one "t" "k" 900))
    × (get (delete one "t" "k").0 "t" "k" 900
        ≡ (if ("t" == "t") && ("k" == "k") then none else get one "t" "k" 900))
get-set_entry_delete_example = get-set_entry_delete one "t" "k" "w" (pos 0) 200 201 900 "t" "k"
