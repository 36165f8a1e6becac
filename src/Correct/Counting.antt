-- ===== src/Correct/Counting.antt =====
-- factorengine/observer.go: what the counting observer's counters say.
use risk_engine.Prelude.{
  ℕ, ◌+◌, ◌%◌, ◌^◌, ◌≡◌, refl, ◌∙◌, Bool, not, Bool-cases, inl, inr, ◌<◌, true, false, Option, none,
  some, List, [], ◌∷◌, arith,
}
use risk_engine.Prelude.Int.{pattern64}
use risk_engine.Outcome.{ValidationError}
use risk_engine.Cache.{bump}
use risk_engine.Observer.{
  Observation, CacheObservation, RuleObserverStats, new_in_memory_rule_observer, observe_compile,
  observe_eval, observe_cache, bump_error,
}

-- What an observer is told.
pub data Event : Type 0 where
  compiled evaluated : Observation → Event
  looked_up : CacheObservation → Event

abbrev pub observe : Event → RuleObserverStats → RuleObserverStats
observe (compiled obs) o = observe_compile obs o
observe (evaluated obs) o = observe_eval obs o
observe (looked_up obs) o = observe_cache obs o

abbrev pub observe_all : List Event → RuleObserverStats → RuleObserverStats
observe_all [] o = o
observe_all (e ∷ es) o = observe_all es (observe e o)

-- Numbers of events with a property, and durations as 64-bit patterns, that do not wrap around.
abbrev pub one : Bool → ℕ
one true = 1
one false = 0

abbrev pub is_error : Observation → Bool
is_error obs = elim obs.error [ none ↦ false | some e ↦ true ]

abbrev pub total : (Event → ℕ) → List Event → ℕ
total f [] = 0
total f (e ∷ es) = f e + total f es

module _ (f : Observation → ℕ) where
  abbrev pub of_compiled : Event → ℕ
  of_compiled (compiled obs) = f obs
  of_compiled (evaluated obs) = 0
  of_compiled (looked_up obs) = 0

  abbrev pub of_evaluated : Event → ℕ
  of_evaluated (compiled obs) = 0
  of_evaluated (evaluated obs) = f obs
  of_evaluated (looked_up obs) = 0

abbrev pub of_looked_up : (Bool → ℕ) → Event → ℕ
of_looked_up f (compiled obs) = 0
of_looked_up f (evaluated obs) = 0
of_looked_up f (looked_up obs) = f obs.hit

module _ (field : RuleObserverStats → ℕ) (f : Event → ℕ)
    (step : (e : Event) (o : RuleObserverStats)
      → field o < 2 ^ 64
      → field (observe e o) ≡ (field o + f e) % 2 ^ 64) where
  grows :
      (es : List Event) (o : RuleObserverStats)
      → field o < 2 ^ 64
      → field (observe_all es o) ≡ (field o + total f es) % 2 ^ 64
  grows [] o h = nothing_added (field o) h
    where
      nothing_added : (a : ℕ) → a < 2 ^ 64 → a ≡ (a + 0) % 2 ^ 64
      nothing_added a h = omega arith
  grows (e ∷ es) o h =
      let s = step e o h in
      joined (field o) (field (observe e o)) (f e) (total f es)
        (field (observe_all es (observe e o))) s
        (grows es (observe e o) (bounded (field o + f e) (field (observe e o)) s))
    where
      bounded : (a b : ℕ) → b ≡ a % 2 ^ 64 → b < 2 ^ 64
      bounded a b h = omega arith

      joined :
          (a b c d r : ℕ) → b ≡ (a + c) % 2 ^ 64 → r ≡ (b + d) % 2 ^ 64 → r ≡ (a + (c + d)) % 2 ^ 64
      joined a b c d r h k = omega arith

  from_zero :
      (es : List Event)
      → field new_in_memory_rule_observer ≡ 0
      → field (observe_all es new_in_memory_rule_observer) ≡ total f es % 2 ^ 64
  from_zero es z =
      sum_from_zero (field new_in_memory_rule_observer) (total f es) z
        (grows es new_in_memory_rule_observer (small (field new_in_memory_rule_observer) z))
    where
      small : (a : ℕ) → a ≡ 0 → a < 2 ^ 64
      small a h = omega arith

      sum_from_zero : (a b : ℕ) {r : ℕ} → a ≡ 0 → r ≡ (a + b) % 2 ^ 64 → r ≡ b % 2 ^ 64
      sum_from_zero a b h k = omega arith

unchanged : (a : ℕ) → a < 2 ^ 64 → a ≡ (a + 0) % 2 ^ 64
unchanged a h = omega arith

bump_error-one :
    (e : Option ValidationError) (a : ℕ)
    → a < 2 ^ 64
    → bump_error e a ≡ (a + one (elim e [ none ↦ false | some x ↦ true ])) % 2 ^ 64
bump_error-one none a h = unchanged a h
bump_error-one (some e) a h = refl

-- The counters after events: the numbers of compilations and evaluations, of those with an error, of
-- requests, hits and misses, and the sums of the durations.
abbrev pub counts : (Event → ℕ) → List Event → ℕ
counts f es = total f es % 2 ^ 64

pub record Counts (es : List Event) (o : RuleObserverStats) : Type 0 where
  pub compiles : o.compile_count ≡ counts (of_compiled λ obs. 1) es
  pub compile_failures : o.compile_errors ≡ counts (of_compiled λ obs. one (is_error obs)) es
  pub compile_time :
      o.compile_duration_nanos ≡ counts (of_compiled λ obs. pattern64 obs.duration) es
  pub evals : o.eval_count ≡ counts (of_evaluated λ obs. 1) es
  pub eval_failures : o.eval_errors ≡ counts (of_evaluated λ obs. one (is_error obs)) es
  pub eval_time : o.eval_duration_nanos ≡ counts (of_evaluated λ obs. pattern64 obs.duration) es
  pub hits : o.cache_hits ≡ counts (of_looked_up one) es
  pub misses : o.cache_misses ≡ counts (of_looked_up λ hit. one (not hit)) es
  pub requests : o.cache_requests ≡ (o.cache_hits + o.cache_misses) % 2 ^ 64

-- A request for a program changes the counters of requests alone.
observe_cache-keeps :
    (field : RuleObserverStats → ℕ) (obs : CacheObservation) (o : RuleObserverStats)
    → ((r h m : ℕ)
        → field (record o { cache_requests = r; cache_hits = h; cache_misses = m }) ≡ field o)
    → field (observe_cache obs o) ≡ field o
unfolding observe_cache
observe_cache-keeps field obs o keeps = elim (Bool-cases obs.hit) [
  | inl e ↦ rw (observe_cache, e) (keeps _ _ _)
  | inr e ↦ rw (observe_cache, e) (keeps _ _ _)
]

module _ (field : RuleObserverStats → ℕ) (g : Observation → ℕ)
    (kept : (o : RuleObserverStats) (r h m : ℕ)
      → field (record o { cache_requests = r; cache_hits = h; cache_misses = m }) ≡ field o) where
  compiles_count :
      ((obs : Observation) (o : RuleObserverStats)
        → field o < 2 ^ 64
        → field (observe_compile obs o) ≡ (field o + g obs) % 2 ^ 64)
      → ((obs : Observation) (o : RuleObserverStats) → field (observe_eval obs o) ≡ field o)
      → (e : Event) (o : RuleObserverStats) → field o < 2 ^ 64
      → field (observe e o) ≡ (field o + of_compiled g e) % 2 ^ 64
  compiles_count adds keeps (compiled obs) o h = adds obs o h
  compiles_count adds keeps (evaluated obs) o h = keeps obs o ∙ unchanged (field o) h
  compiles_count adds keeps (looked_up obs) o h =
      observe_cache-keeps field obs o (kept o) ∙ unchanged (field o) h

  evals_count :
      ((obs : Observation) (o : RuleObserverStats)
        → field o < 2 ^ 64
        → field (observe_eval obs o) ≡ (field o + g obs) % 2 ^ 64)
      → ((obs : Observation) (o : RuleObserverStats) → field (observe_compile obs o) ≡ field o)
      → (e : Event) (o : RuleObserverStats) → field o < 2 ^ 64
      → field (observe e o) ≡ (field o + of_evaluated g e) % 2 ^ 64
  evals_count adds keeps (compiled obs) o h = keeps obs o ∙ unchanged (field o) h
  evals_count adds keeps (evaluated obs) o h = adds obs o h
  evals_count adds keeps (looked_up obs) o h =
      observe_cache-keeps field obs o (kept o) ∙ unchanged (field o) h

hits_count :
    (e : Event) (o : RuleObserverStats)
    → o.cache_hits < 2 ^ 64
    → (observe e o).cache_hits ≡ (o.cache_hits + of_looked_up one e) % 2 ^ 64
unfolding observe_compile observe_eval observe_cache
hits_count (compiled obs) o h = unchanged o.cache_hits h
hits_count (evaluated obs) o h = unchanged o.cache_hits h
hits_count (looked_up obs) o h = elim (Bool-cases obs.hit) [
  | inl e ↦ rw (observe_cache, e) refl
  | inr e ↦ rw (observe_cache, e) (unchanged o.cache_hits h)
]

misses_count :
    (e : Event) (o : RuleObserverStats)
    → o.cache_misses < 2 ^ 64
    → (observe e o).cache_misses ≡ (o.cache_misses + of_looked_up (λ hit. one (not hit)) e) % 2 ^ 64
unfolding observe_compile observe_eval observe_cache
misses_count (compiled obs) o h = unchanged o.cache_misses h
misses_count (evaluated obs) o h = unchanged o.cache_misses h
misses_count (looked_up obs) o h = elim (Bool-cases obs.hit) [
  | inl e ↦ rw (observe_cache, e) (unchanged o.cache_misses h)
  | inr e ↦ rw (observe_cache, e) refl
]

Accounted : RuleObserverStats → Type 0
Accounted o = o.cache_requests ≡ (o.cache_hits + o.cache_misses) % 2 ^ 64

accounted_sum :
    (r h m : ℕ)
    → r ≡ (h + m) % 2 ^ 64
    → (bump r ≡ (bump h + m) % 2 ^ 64) × (bump r ≡ (h + bump m) % 2 ^ 64)
accounted_sum r h m e = (omega arith, omega arith)

observe-Accounted : (e : Event) (o : RuleObserverStats) → Accounted o → Accounted (observe e o)
unfolding observe_compile observe_eval observe_cache Accounted
observe-Accounted (compiled obs) o h = h
observe-Accounted (evaluated obs) o h = h
observe-Accounted (looked_up obs) o h =
    let (hit, miss) = accounted_sum o.cache_requests o.cache_hits o.cache_misses h in
    elim (Bool-cases obs.hit) [
      | inl e ↦ rw (observe_cache, e) hit
      | inr e ↦ rw (observe_cache, e) miss
    ]

observe_all-Accounted :
    (es : List Event) (o : RuleObserverStats) → Accounted o → Accounted (observe_all es o)
observe_all-Accounted [] o h = h
observe_all-Accounted (e ∷ es) o h =
    observe_all-Accounted es (observe e o) (observe-Accounted e o h)

-- After any events a new observer's counters are, up to 64 bits, the numbers of compilations and evaluations,
-- of those with an error, of hits and misses, and the sums of the durations; the requests are the hits and
-- the misses.
pub observe_all-Counts : (es : List Event) → Counts es (observe_all es new_in_memory_rule_observer)
unfolding observe_compile observe_eval Accounted
observe_all-Counts es = record {
  compiles =
      from_zero _ _
        (compiles_count (λ o. o.compile_count) _ (λ o r h m. refl) (λ obs o h. refl)
          (λ obs o. refl))
        es refl;
  compile_failures =
      from_zero _ _
        (compiles_count (λ o. o.compile_errors) (λ obs. one (is_error obs)) (λ o r h m. refl)
          (λ obs o. bump_error-one obs.error o.compile_errors) (λ obs o. refl))
        es refl;
  compile_time =
      from_zero _ _
        (compiles_count (λ o. o.compile_duration_nanos) _ (λ o r h m. refl) (λ obs o h. refl)
          (λ obs o. refl))
        es refl;
  evals =
      from_zero _ _
        (evals_count (λ o. o.eval_count) _ (λ o r h m. refl) (λ obs o h. refl) (λ obs o. refl)) es
        refl;
  eval_failures =
      from_zero _ _
        (evals_count (λ o. o.eval_errors) (λ obs. one (is_error obs)) (λ o r h m. refl)
          (λ obs o. bump_error-one obs.error o.eval_errors) (λ obs o. refl))
        es refl;
  eval_time =
      from_zero _ _
        (evals_count (λ o. o.eval_duration_nanos) _ (λ o r h m. refl) (λ obs o h. refl)
          (λ obs o. refl))
        es refl;
  hits = from_zero _ _ hits_count es refl;
  misses = from_zero _ _ misses_count es refl;
  requests = observe_all-Accounted es new_in_memory_rule_observer refl;
}
