-- ===== src/Metrics/Inflight.antt =====
-- The number of requests in flight: `INFLIGHT` of src/metrics.rs. A request gets its recorder when
-- it arrives, is counted when its handling begins, and its recorder is dropped at the end, with or
-- without having been counted.
use tex_attestation_server.Prelude.{
  ℕ, ◌+◌, ◌^◌, ◌≤◌, ◌<◌, ◌≡◌, refl, ap, ◌∙◌, Bool, true, false, Option, List, [], ◌∷◌, ◌++◌, arith,
  length, length-append, inl, inr, Bool-cases,
}
use tex_attestation_server.Text.{Text}
use tex_attestation_server.Metrics.{Recorder, new_recorder, begin_request, drop_recorder}

-- The counter, and the recorders that are alive.
abbrev pub State : Type 0
State = ℕ × List Recorder

pub data Reachable : State → Type 0 where
  idle : Reachable (0, [])
  arrive :
      (now : Option ℕ) (instant n : ℕ) (live : List Recorder)
      → Reachable (n, live)
      → Reachable (n, new_recorder now instant n ∷ live)
  begins :
      (uri : Text) (n : ℕ) (before : List Recorder) (rec : Recorder) (after : List Recorder)
      → Reachable (n, before ++ rec ∷ after)
      → rec.counted ≡ false
      → length (before ++ rec ∷ after) < 2 ^ 64
      → Reachable ((begin_request uri (n, rec)).0, before ++ (begin_request uri (n, rec)).1 ∷ after)
  ends :
      (n : ℕ) (before : List Recorder) (rec : Recorder) (after : List Recorder)
      → Reachable (n, before ++ rec ∷ after)
      → length (before ++ rec ∷ after) < 2 ^ 64
      → Reachable (drop_recorder n rec, before ++ after)

-- The recorders that were counted.
abbrev one : Bool → ℕ
one true = 1
one false = 0

pub counted_in : List Recorder → ℕ
counted_in [] = 0
counted_in (rec ∷ rest) = one rec.counted + counted_in rest

counted_in-append : (s t : List Recorder) → counted_in (s ++ t) ≡ counted_in s + counted_in t
unfolding counted_in
counted_in-append [] t = omega arith
counted_in-append (r ∷ s) t = omega (arith, counted_in-append s t)

counted_in_le : (s : List Recorder) → counted_in s ≤ length s
unfolding counted_in
counted_in_le [] = omega arith
counted_in_le (r ∷ s) = elim (Bool-cases r.counted) [
  | inl counted ↦ rw counted (omega (arith, counted_in_le s))
  | inr fresh ↦ rw fresh (omega (arith, counted_in_le s))
]

counted_in-at :
    (before : List Recorder) (rec : Recorder) (after : List Recorder)
    → counted_in (before ++ rec ∷ after) ≡ counted_in before + (one rec.counted + counted_in after)
unfolding counted_in
counted_in-at before rec after = counted_in-append before (rec ∷ after)

room_for :
    (before : List Recorder) (rec : Recorder) (after : List Recorder)
    → length (before ++ rec ∷ after) < 2 ^ 64
    → counted_in before + counted_in after + 1 < 2 ^ 64
room_for before rec after room =
    omega (arith, counted_in_le before, counted_in_le after, length-append before (rec ∷ after))

begins-counted :
    (uri : Text) (n : ℕ) (before : List Recorder) (rec : Recorder) (after : List Recorder)
    → n ≡ counted_in (before ++ rec ∷ after)
    → rec.counted ≡ false
    → length (before ++ rec ∷ after) < 2 ^ 64
    → (begin_request uri (n, rec)).0 ≡ counted_in (before ++ (begin_request uri (n, rec)).1 ∷ after)
unfolding begin_request
begins-counted uri n before rec after h fresh room =
    let now : n ≡ counted_in before + (0 + counted_in after) =
      h
      ∙ counted_in-at before rec after
      ∙ ap (λ b. counted_in before + (one b + counted_in after)) fresh in
    omega (arith, now, room_for before rec after room, counted_in-at before _ after)

ends-counted :
    (n : ℕ) (before : List Recorder) (rec : Recorder) (after : List Recorder)
    → n ≡ counted_in (before ++ rec ∷ after)
    → length (before ++ rec ∷ after) < 2 ^ 64
    → drop_recorder n rec ≡ counted_in (before ++ after)
unfolding drop_recorder
ends-counted n before rec after h room = elim (Bool-cases rec.counted) [
  | inl counted ↦
      let now : n ≡ counted_in before + (1 + counted_in after) =
        h
        ∙ counted_in-at before rec after
        ∙ ap (λ b. counted_in before + (one b + counted_in after)) counted in
      rw counted
        (omega (arith, now, room_for before rec after room, counted_in-append before after))
  | inr fresh ↦
      let now : n ≡ counted_in before + (0 + counted_in after) =
        h
        ∙ counted_in-at before rec after
        ∙ ap (λ b. counted_in before + (one b + counted_in after)) fresh in
      rw fresh (omega (arith, now, counted_in-append before after))
]

-- Whatever requests arrive, begin and end, in whatever order, the counter is the number of live
-- recorders that were counted. A request begins once, and fewer than 2 ^ 64 are alive.
pub Reachable-counted : (s : State) → Reachable s → s.0 ≡ counted_in s.1
unfolding counted_in new_recorder
Reachable-counted _ idle = refl
Reachable-counted _ (arrive now instant n live r) = omega (arith, Reachable-counted (n, live) r)
Reachable-counted _ (begins uri n before rec after r fresh room) =
    begins-counted uri n before rec after (Reachable-counted _ r) fresh room
Reachable-counted _ (ends n before rec after r room) =
    ends-counted n before rec after (Reachable-counted _ r) room
