-- ===== src/Scheduler/Runners.antt =====
-- pkg/scheduler/scheduler.go: the goroutines of a schedule, and the entries that they belong to.
use mathlib.Core.Path.{subst}
use spectral_cloud.Prelude.{
  ℕ, String, ◌≡◌, refl, Bool, true, false, Option, none, some, List, [], ◌∷◌, arith, eq_iff,
  eq_refl, if◌then◌else◌, Option-cases, Bool-cases, inl, inr, ap, ◌∙◌, sym, ◌==◌, select, keep_if,
}
use spectral_cloud.Prelude.Clock.{Duration}
use spectral_cloud.Prelude.Dict.{lookup, insert, lookup-insert}
use spectral_cloud.Persist.{Host}
use spectral_cloud.Scheduler.Record.{ScheduleEntry, Runner, without}
use spectral_cloud.Scheduler.State.{Manager, start_locked, stop_locked}

abbrev pub runners_of : String → List Runner → List Runner
runners_of id runs = select (λ r. r.id == id) runs

abbrev pub one_runner : String → Duration → Option ℕ → List Runner
one_runner id period none = []
one_runner id period (some c) = record { context = c; id = id; period = period } ∷ []

abbrev pub is_armed : Option ℕ → Bool
is_armed none = false
is_armed (some c) = true

-- An active schedule has one goroutine, with its interval, and another has none.
abbrev pub Fits : {P : Type 0} → String → List Runner → Option (ScheduleEntry P) → Type 0
Fits id runs none = runners_of id runs ≡ []
Fits id runs (some e) =
    (e.sched.id ≡ id)
    × (runners_of id runs ≡ one_runner id e.sched.interval e.cancel)
    × (is_armed e.cancel ≡ e.sched.active)

pub runners_of-without :
    (j id : String) (c : ℕ) (runs : List Runner)
    → (j == id) ≡ false
    → runners_of j (without id c runs) ≡ runners_of j runs
unfolding without
runners_of-without j id c [] h = refl
runners_of-without j id c (r ∷ rs) h =
    ground (arith, eq_iff r.id j, eq_iff r.id id, eq_iff j id, runners_of-without j id c rs h)

without-runners_of :
    (id : String) (c : ℕ) (runs : List Runner)
    → runners_of id (without id c runs) ≡ without id c (runners_of id runs)
unfolding without
without-runners_of id c [] = refl
without-runners_of id c (r ∷ rs) = ground (arith, without-runners_of id c rs)

pub without_one :
    (id : String) (c : ℕ) (period : Duration) (runs : List Runner)
    → runners_of id runs ≡ one_runner id period (some c)
    → runners_of id (without id c runs) ≡ []
unfolding without
without_one id c period runs h =
    without-runners_of id c runs ∙ ap (without id c) h ∙ ground (arith, eq_refl id)

head_runner :
    (k id : String) (c : ℕ) (period : Duration) (runs : List Runner)
    → id ≡ k
    → runners_of k runs ≡ []
    → runners_of k (record { context = c; id = id; period = period } ∷ runs)
      ≡ one_runner k period (some c)
head_runner k id c period runs own idle =
    let r : Runner = record { context = c; id = id; period = period } in
    ap (λ b. keep_if b r (runners_of k runs)) (ap (◌== k) own ∙ eq_refl k)
    ∙ ap (λ l. r ∷ l) idle
    ∙ ap (λ i. record { context = c; id = i; period = period } ∷ []) own

-- From `m` to `n`, only the entry of one key and its goroutines change, and they fit.
pub record Sets {h : Host} (m n : Manager h) (k : String) : Type 0 where
  pub entry : ScheduleEntry h.Payload
  pub stored :
      (j : String) → lookup j n.schedules ≡ (if j == k then some entry else lookup j m.schedules)
  pub others : (j : String) → (j == k) ≡ false → runners_of j n.runs ≡ runners_of j m.runs
  pub fits : Fits k n.runs (some entry)
  pub counter : n.counter ≡ m.counter

pub Fits-same :
    {P : Type 0} (j : String) (xs ys : List Runner) (o : Option (ScheduleEntry P))
    → runners_of j ys ≡ runners_of j xs
    → Fits j xs o
    → Fits j ys o
Fits-same j xs ys none e f = e ∙ f
Fits-same j xs ys (some x) e f = (f.0, e ∙ f.1, f.2)

pub Sets-Fits :
    {h : Host} (m n : Manager h) (k : String)
    → Sets m n k
    → ((j : String) → Fits j m.runs (lookup j m.schedules))
    → (j : String) → Fits j n.runs (lookup j n.schedules)
Sets-Fits m n k s v j = elim (Bool-cases (j == k)) [
  | inl e ↦
      let here : lookup j n.schedules ≡ some s.entry = s.stored j ∙ ground (arith, e) in
      let same : k ≡ j = ground (arith, eq_iff j k, e) in
      subst (Fits j n.runs) (sym here) (subst (λ i. Fits i n.runs (some s.entry)) same s.fits)
  | inr e ↦
      let there : lookup j n.schedules ≡ lookup j m.schedules = s.stored j ∙ ground (arith, e) in
      subst (Fits j n.runs) (sym there)
        (Fits-same j m.runs n.runs (lookup j m.schedules) (s.others j e) (v j))
]

-- Persistence changes neither the entries nor the goroutines nor the counter.
pub record Same {h : Host} (m n : Manager h) : Type 0 where
  pub schedules : n.schedules ≡ m.schedules
  pub runs : n.runs ≡ m.runs
  pub counter : n.counter ≡ m.counter

module _ {h : Host} where
  pub Sets-after : (m n o : Manager h) (k : String) → Sets m n k → Same n o → Sets m o k
  Sets-after m n o k s e = record {
    entry = s.entry;
    stored = λ j. ap (lookup j) e.schedules ∙ s.stored j;
    others = λ j d. ap (runners_of j) e.runs ∙ s.others j d;
    fits = subst (λ r. Fits k r (some s.entry)) (sym e.runs) s.fits;
    counter = e.counter ∙ s.counter;
  }

  pub Sets-before :
      (m n o : Manager h) (k : String)
      → Sets n o k
      → n.counter ≡ m.counter
      → ((j : String) → (j == k) ≡ false → lookup j n.schedules ≡ lookup j m.schedules)
      → ((j : String) → (j == k) ≡ false → runners_of j n.runs ≡ runners_of j m.runs)
      → Sets m o k
  Sets-before m n o k s same look run = record {
    entry = s.entry;
    stored = λ j. s.stored j ∙ (elim (Bool-cases (j == k)) [
      | inl e ↦ ground (arith, e)
      | inr e ↦ ground (arith, e, look j e)
    ]);
    others = λ j d. s.others j d ∙ run j d;
    fits = s.fits;
    counter = s.counter ∙ same;
  }

  -- The entry of a key is stored, and its goroutines are those that it should have.
  pub store-Sets :
      (m : Manager h) (k : String) (e : ScheduleEntry h.Payload)
      → Fits k m.runs (some e)
      → Sets m (record m { schedules = insert k e m.schedules }) k
  store-Sets m k e f = record {
    entry = e;
    stored = λ j. lookup-insert k j e m.schedules;
    others = λ j d. refl;
    fits = f;
    counter = refl;
  }

  pub start_locked-Sets :
      (m : Manager h) (k : String) (e : ScheduleEntry h.Payload)
      → e.sched.id ≡ k
      → e.sched.active ≡ true
      → runners_of k m.runs ≡ []
      → Sets m (start_locked m k e) k
  unfolding start_locked
  start_locked-Sets m k e own on idle = record {
    entry = record e { cancel = some m.contexts };
    stored = λ j. lookup-insert k j (record e { cancel = some m.contexts }) m.schedules;
    others = λ j d. ground (arith, own, d, eq_iff j k, eq_iff k j);
    fits = (own, head_runner k e.sched.id m.contexts e.sched.interval m.runs own idle, sym on);
    counter = refl;
  }

  pub stop_locked-Sets :
      (m : Manager h) (k : String) (e : ScheduleEntry h.Payload) (period : Duration)
      → e.sched.id ≡ k
      → e.sched.active ≡ false
      → runners_of k m.runs ≡ one_runner k period e.cancel
      → Sets m (stop_locked m k e) k
  unfolding stop_locked
  stop_locked-Sets m k e period own off now = elim (Option-cases e.cancel) [
    | inl n ↦
        rw (n, stop_locked)
          (store-Sets m k e (
            own,
            now ∙ ap (one_runner k period) n ∙ sym (ap (one_runner k e.sched.interval) n),
            ap is_armed n ∙ sym off,
          ))
    | inr (c, n) ↦
        rw (n, stop_locked)
          (record {
            entry = record e { cancel = none };
            stored = λ j. lookup-insert k j (record e { cancel = none }) m.schedules;
            others = λ j d. runners_of-without j e.sched.id c m.runs (ap (◌==◌ j) own ∙ d);
            fits = (
              own,
              ap (λ i. runners_of k (without i c m.runs)) own
                  ∙ without_one k c period m.runs (now ∙ ap (one_runner k period) n),
              sym off,
            );
            counter = refl;
          })
  ]
