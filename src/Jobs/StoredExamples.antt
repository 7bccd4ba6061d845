-- ===== src/Jobs/StoredExamples.antt =====
-- The job queue over a store in memory.
use spectral_cloud.Prelude.{
  String, ◌≡◌, refl, false, some, List, [], ◌∷◌, arith, All, Bool-cases, inl, inr, ap, sym, ◌∙◌,
  ◌==◌,
}
use spectral_cloud.Prelude.Int.{pos}
use spectral_cloud.Prelude.Clock.{Time}
use spectral_cloud.Prelude.Dict.{Dict, lookup, insert}
use spectral_cloud.Prelude.Decimal.{show}
use spectral_cloud.Persist.{Codec, Readable}
use spectral_cloud.Persist.Memory.{Table, empty, memory, memory_works}
use spectral_cloud.Jobs.Record.{Job, SubmitOptions}
use spectral_cloud.Jobs.{
  Queue, new_queue_with_store, load_from_store, get, submit_with_opts, store_job, persist, cancel,
}
use spectral_cloud.Jobs.Mirror.{owned, Legible}
use spectral_cloud.Jobs.History.{Call, submits, cancels, run, step, Room}
use spectral_cloud.Jobs.Recovery.{StaysLegible, load-run}

-- JSON that is the value itself.
abbrev plain : Codec (memory String (Job String)) (Job String)
plain = record { encode = λ j. some j; decode = λ j. some j }

plain-Readable : (j : Job String) → Readable plain j
plain-Readable j = (j, refl, refl)

abbrev options : SubmitOptions
options = record { priority = pos 0; ttl_seconds = pos 0 }

-- A job of each of two tenants, and the first is cancelled.
abbrev history : List (Time × Call String)
history =
    (100, submits "t" "" "ocr" "a" options)
    ∷ (200, submits "u" "" "ocr" "b" options)
    ∷ (300, cancels "job-1")
    ∷ []

history-Room : Room plain history (new_queue_with_store plain empty)
unfolding step submit_with_opts store_job persist new_queue_with_store cancel lookup insert show
history-Room = (omega arith, (omega arith, (omega arith, omega arith)))

named_lookup :
    (m : Dict (Job String)) (id : String) (j : Job String)
    → All (λ e. (e.1.tenant == "") ≡ false) m
    → lookup id m ≡ some j
    → (j.tenant == "") ≡ false
unfolding lookup
named_lookup [] id j h e = absurd (ground arith)
named_lookup ((k, x) ∷ m) id j h e = elim (Bool-cases (id == k)) [
  | inl t ↦ let same : x ≡ j = ground (arith, t, e) in ap (λ y. y.tenant == "") (sym same) ∙ h.0
  | inr t ↦ named_lookup m id j h.1 (ground (arith, t, e))
]

abbrev Named : Queue (memory String (Job String)) → Type 0
Named q = All (λ e. (e.1.tenant == "") ≡ false) q.jobs

Legible-of_Named :
    (q : Queue (memory String (Job String)))
    → Named q
    → Legible plain (memory_works String (Job String)) q
Legible-of_Named q h id j e = (named_lookup q.jobs id j h e, plain-Readable j)

abbrev q1 : Queue (memory String (Job String))
q1 = step plain (new_queue_with_store plain empty) (100, submits "t" "" "ocr" "a" options)

abbrev q2 : Queue (memory String (Job String))
q2 = step plain q1 (200, submits "u" "" "ocr" "b" options)

abbrev q3 : Queue (memory String (Job String))
q3 = step plain q2 (300, cancels "job-1")

queues-Named : Named q1 × Named q2 × Named q3
unfolding step submit_with_opts store_job persist new_queue_with_store cancel insert show lookup
queues-Named = ((refl, tt), (refl, (refl, tt)), (refl, (refl, tt)))

history-StaysLegible :
    StaysLegible plain (memory_works String (Job String)) history (new_queue_with_store plain empty)
history-StaysLegible =
    let (n1, n2, n3) = queues-Named in
    (Legible-of_Named q1 n1, (Legible-of_Named q2 n2, (Legible-of_Named q3 n3, tt)))

load-run_example :
    let q = run plain history (new_queue_with_store plain empty) in
    (s : Table (Job String)) × (q.db ≡ some s)
    × ((id : String)
        → get plain (load_from_store plain (new_queue_with_store plain s) "t").0 id
          ≡ owned "t" (get plain q id))
load-run_example =
    load-run plain (memory_works String (Job String)) empty history "t" (λ t id. refl) history-Room
      history-StaysLegible
