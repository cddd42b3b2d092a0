-- ===== src/Metrics/Isolation.antt =====
-- Requests that are measured at the same time, on threads of their own: src/metrics.rs.
use tex_attestation_server.Prelude.{
  ℕ, ◌≡◌, refl, sym, ap, ◌∙◌, false, some, List, [], ◌∷◌, ◌==◌, if◌then◌else◌, inl, inr, Bool-cases,
  Option-cases, ==_iff,
}
use tex_attestation_server.Text.{Text, lit}
use tex_attestation_server.Metrics
use tex_attestation_server.Metrics.{Recorder, Kind, stage, unit, finish_span}
use tex_attestation_server.Metrics.Scope
use tex_attestation_server.Metrics.Scope.{Span, change, with_current, set_at, put, start, finish}

-- A measurement point, with the times that it reads.
pub data Point : Type 0 where
  counter : Text → ℕ → Point
  cold : Point
  entered : ℕ → Point
  timed : Text → Kind → ℕ → ℕ → Point
  serialized : ℕ → ℕ → Point

-- The point, on a thread.
unfoldable pub measure : ℕ → Point → Scope.Scope → Scope.Scope
measure thread (counter name value) s = Scope.count thread name value s
measure thread cold s = Scope.mark_cold thread s
measure thread (entered now) s = Scope.enter_handler thread now s
measure thread (timed name kind from to) s = (finish to (start thread name kind from s) s).1
measure thread (serialized from to) s = Scope.measure_json thread from to s

-- Points of several threads, in the order in which they happen.
unfoldable pub run : List (ℕ × Point) → Scope.Scope → Scope.Scope
unfolding measure
run [] s = s
run ((thread, point) ∷ rest) s = run rest (measure thread point s)

-- What a point does to the recorder of its request.
unfoldable pub effect : Point → Recorder → Recorder
effect (counter name value) rec = Metrics.count name value rec
effect cold rec = Metrics.mark_cold rec
effect (entered now) rec = Metrics.enter_handler now rec
effect (timed name kind from to) rec = finish_span kind name from to rec
effect (serialized from to) rec = finish_span stage (lit "serialize_us") from to rec

-- The effects of the points of one thread.
unfoldable pub own : ℕ → List (ℕ × Point) → Recorder → Recorder
own thread [] rec = rec
own thread ((t, point) ∷ rest) rec =
    let here = own thread rest (effect point rec) in
    let skipped = own thread rest rec in if t == thread then here else skipped

measure-with_current :
    (thread : ℕ) (point : Point) (s : Scope.Scope)
    → measure thread point s ≡ with_current thread (effect point) s
unfolding measure effect Scope.count Scope.mark_cold Scope.enter_handler Scope.measure_json finish
    start with_current
measure-with_current thread (counter name value) s = refl
measure-with_current thread cold s = refl
measure-with_current thread (entered now) s = refl
measure-with_current thread (timed name kind from to) s = elim (Option-cases (s.current thread)) [
  | inl nobody ↦ rw (nobody, with_current) refl
  | inr (req, is) ↦ rw (is, with_current) refl
]
measure-with_current thread (serialized from to) s = elim (Option-cases (s.current thread)) [
  | inl nobody ↦ rw (nobody, with_current) refl
  | inr (req, is) ↦ rw (is, with_current) refl
]

put-cache : (req : ℕ) (rec : Recorder) (s : Scope.Scope) → (put req rec s).cache req ≡ some rec
unfolding put set_at
put-cache req rec s = rw ((==_iff req req).1 refl) refl

put-other :
    (r req : ℕ) (rec : Recorder) (s : Scope.Scope)
    → (r == req) ≡ false
    → (put r rec s).cache req ≡ s.cache req
unfolding put set_at
put-other r req rec s differ = rw differ refl

change-current :
    (req : ℕ) (f : Recorder → Recorder) (s : Scope.Scope) → (change req f s).current ≡ s.current
unfolding change put
change-current req f s = elim (Option-cases (s.cache req)) [
  | inl nothing ↦ rw (nothing, change) refl
  | inr (rec, is) ↦ rw (is, change) refl
]

change-cache :
    (req : ℕ) (f : Recorder → Recorder) (s : Scope.Scope) (rec : Recorder)
    → s.cache req ≡ some rec
    → (change req f s).cache req ≡ some (f rec)
unfolding change
change-cache req f s rec is = rw (is, change) (put-cache req (f rec) s)

change-other :
    (r req : ℕ) (f : Recorder → Recorder) (s : Scope.Scope)
    → (r == req) ≡ false
    → (change r f s).cache req ≡ s.cache req
unfolding change
change-other r req f s differ = elim (Option-cases (s.cache r)) [
  | inl nothing ↦ rw (nothing, change) refl
  | inr (rec, is) ↦ rw (is, change) (put-other r req (f rec) s differ)
]

with_current-current :
    (thread : ℕ) (f : Recorder → Recorder) (s : Scope.Scope)
    → (with_current thread f s).current ≡ s.current
unfolding with_current
with_current-current thread f s = elim (Option-cases (s.current thread)) [
  | inl nobody ↦ rw (nobody, with_current) refl
  | inr (req, is) ↦ rw (is, with_current) (change-current req f s)
]

-- A thread that handles the request, and one that handles none or another.
abbrev Handles : ℕ → ℕ → Scope.Scope → Type 0
Handles thread req s = s.current thread ≡ some req

abbrev Elsewhere : ℕ → ℕ → Scope.Scope → Type 0
Elsewhere thread req s = (r : ℕ) → s.current thread ≡ some r → (r == req) ≡ false

with_current-own :
    (thread req : ℕ) (f : Recorder → Recorder) (s : Scope.Scope) (rec : Recorder)
    → Handles thread req s
    → s.cache req ≡ some rec
    → (with_current thread f s).cache req ≡ some (f rec)
unfolding with_current
with_current-own thread req f s rec here is = rw (here, with_current) (change-cache req f s rec is)

with_current-other :
    (thread req : ℕ) (f : Recorder → Recorder) (s : Scope.Scope)
    → Elsewhere thread req s
    → (with_current thread f s).cache req ≡ s.cache req
unfolding with_current
with_current-other thread req f s away = elim (Option-cases (s.current thread)) [
  | inl nobody ↦ rw (nobody, with_current) refl
  | inr (r, is) ↦ rw (is, with_current) (change-other r req f s (away r is))
]

-- The request is handled by this thread and by no other.
pub record HandledBy (thread req : ℕ) (s : Scope.Scope) : Type 0 where
  pub here : Handles thread req s
  pub nowhere_else : (t : ℕ) → (t == thread) ≡ false → Elsewhere t req s

measure-HandledBy :
    (thread req t : ℕ) (point : Point) (s : Scope.Scope)
    → HandledBy thread req s
    → HandledBy thread req (measure t point s)
measure-HandledBy thread req t point s h =
    let same : (measure t point s).current ≡ s.current =
      (λ i. (measure-with_current t point s i).current) ∙ with_current-current t (effect point) s in
    record {
      here = (λ i. same i thread) ∙ h.here;
      nowhere_else = λ u differ r is. h.nowhere_else u differ r ((λ i. sym same i u) ∙ is);
    }

-- Requests do not see each other: while the points of several threads happen in any order, the
-- recorder of a request that one thread handles gets the effects of the points of that thread, in
-- their order, and of no other.
pub run-own :
    (thread req : ℕ) (steps : List (ℕ × Point)) (s : Scope.Scope) (rec : Recorder)
    → HandledBy thread req s
    → s.cache req ≡ some rec
    → (run steps s).cache req ≡ some (own thread steps rec)
unfolding run own
run-own thread req [] s rec h is = is
run-own thread req ((t, point) ∷ rest) s rec h is =
    let h' = measure-HandledBy thread req t point s h in
    let shown : (measure t point s).cache req ≡ (with_current t (effect point) s).cache req =
      λ i. (measure-with_current t point s i).cache req in
    elim (Bool-cases (t == thread)) [
      | inl same ↦ rw same (
          run-own thread req rest (measure t point s) (effect point rec) h' (
            shown
            ∙ with_current-own t req (effect point) s rec
                (ap s.current ((==_iff t thread).0 same) ∙ h.here) is))
      | inr differ ↦ rw differ (
          run-own thread req rest (measure t point s) rec h'
            (shown ∙ with_current-other t req (effect point) s (h.nowhere_else t differ) ∙ is))
    ]

-- A span counts once: when it was ended, the drop at the end of its scope adds nothing, whatever
-- the time is then and whatever happened in between.
finish_twice :
    (now later : ℕ) (span : Span) (s s' : Scope.Scope)
    → (finish later (finish now span s).0 s').1 ≡ s'
unfolding finish
finish_twice now later span s s' = elim (Option-cases span.started) [
  | inl over ↦ rw over refl
  | inr (from, is) ↦ elim (Option-cases span.rec) [
    | inl nobody ↦ rw (is, nobody) refl
    | inr (req, is') ↦ rw (is, is') refl
  ]
]
