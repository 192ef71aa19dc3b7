-- ===== src/Verifier/Report/Sound.antt =====
-- What a run that passes has shown.
use chers.Base.{
  ℕ, ◌≡◌, refl, sym, subst, ap, ◌∙◌, Bool, true, Option, List, [], ◌∷◌, String, arith,
  append-eq-nil,
}
use chers.Verifier.Audit.{Audit, Result, ok, raised, malformed}
use chers.Verifier.Json.{Numbers, Members}
use chers.Verifier.Report.{
  Report, Evidence, Check, continue, ◌>>=◌, add_errors, audit, caught, conclude, verify, verify_run,
  set_report, ◌>>◌, verify_flags, verify_claims, verify_compliance, empty_report, check_measured,
}
use chers.Verifier.Reading.{
  Timings, load_manifest, replay_manifest, check_claims, read_timing, check_compliance,
}
use chers.Verifier.Chart.{Chart}
use chers.Verifier.Replay.{Replay}

-- A part that may go on with no error at its end had none at its start.
record Mono {A : Type 0} (m : Check A) : Type 0 where
  backwards : (r r' : Report) (a : A) → m r ≡ (ok a, r') → r'.errors ≡ [] → r.errors ≡ []

continue-ok :
    {A B : Type 0} (x : Result A × Report) (f : A → Check B) (b : B) (r' : Report)
    → continue x f ≡ (ok b, r')
    → (a : A) × (r : Report) × (x ≡ (ok a, r)) × (f a r ≡ (ok b, r'))
continue-ok (ok a, r) f b r' e = (a, r, refl, e)
continue-ok (raised x, r) f b r' e = absurd (ground arith)

-- A reading part, and what follows it.
audit-ok :
    {A B : Type 0} (x : Audit A) (f : A → Check B) (r r' : Report) (b : B)
    → ((a : A) → Mono (f a))
    → continue (audit x r) f ≡ (ok b, r')
    → r'.errors ≡ []
    → (a : A) × (x ≡ (ok a, [])) × (f a (add_errors [] r) ≡ (ok b, r')) × (r.errors ≡ [])
audit-ok (ok a, found) f r r' b mono e quiet =
    let before = (mono a).backwards (add_errors found r) r' b e quiet in
    let (start, nothing) = append-eq-nil r.errors found before in
    (
      a,
      ap (λ l. (ok a, l)) nothing,
      subst (λ l. f a (add_errors l r) ≡ (ok b, r')) nothing e,
      start,
    )
audit-ok (raised x, found) f r r' b mono e quiet = absurd (ground arith)

audit-value :
    {A : Type 0} (x : Audit A) (r r' : Report) (a : A) → audit x r ≡ (ok a, r') → x.0 ≡ ok a
audit-value (y, found) r r' a e = ap (λ p. p.0) e

audit-Mono : {A : Type 0} (x : Audit A) → Mono (audit x)
audit-Mono (y, found) = record {
  backwards = λ r r' a e quiet. (append-eq-nil r.errors found (ap (λ p. p.1.errors) e ∙ quiet)).0;
}

audit->>=-Mono :
    {A B : Type 0} (x : Audit A) (f : A → Check B) → ((a : A) → Mono (f a)) → Mono (audit x >>= f)
audit->>=-Mono x f mono = record {
  backwards = λ r r' b e quiet. (audit-ok x f r r' b mono e quiet).3;
}

set_report-Mono :
    {B : Type 0} (g : Report → Report) (m : Check B)
    → ((r : Report) → (g r).errors ≡ r.errors)
    → Mono m
    → Mono (set_report g >> m)
set_report-Mono g m same mono = record {
  backwards = λ r r' b e quiet. sym (same r) ∙ mono.backwards (g r) r' b e quiet;
}

check_measured-Mono : {F : Type 0} (t : Timings F) → Mono (check_measured t)
check_measured-Mono t = record {
  backwards = λ r r' b e quiet. (append-eq-nil r.errors _ (ap (λ p. p.1.errors) e ∙ quiet)).0;
}

-- A caught report without errors is that of a `_verify` that went to its end.
caught-quiet :
    (x : Result (Unit {0}) × Report)
    → (caught x).errors ≡ []
    → (r : Report) × (x ≡ (ok tt, r)) × (r.errors ≡ [])
caught-quiet (ok tt, r) e = (r, refl, e)
caught-quiet (raised x, r) e = absurd (ground (arith, append-eq-nil r.errors (malformed x ∷ []) e))

conclude-quiet : (b : Bool) (r : Report) → (conclude b r).passed ≡ true → r.errors ≡ []
unfolding conclude
conclude-quiet b r e = ground arith

module _ (numbers : Numbers) where
  open numbers use {Float}

  verify_compliance-Mono : (t : Timings Float) → Mono (verify_compliance numbers t)
  unfolding verify_compliance
  verify_compliance-Mono t =
      set_report-Mono _ _ (λ r. refl)
        (audit->>=-Mono (check_compliance numbers t) (λ _. check_measured t)
          (λ _. check_measured-Mono t))

  -- What has been shown of the files.
  pub record Shown (files : Evidence Float) (manifest : Members Float) (lanes : ℕ) (c : Chart)
      (s : Replay) : Type 0 where
    pub manifest_loads : (load_manifest numbers files.result).0 ≡ ok manifest
    pub replays : replay_manifest numbers manifest files.notes files.inputs ≡ (ok (lanes, c, s), [])
    pub claims : check_claims numbers manifest c s ≡ (ok tt, [])

  after_claims-Mono :
      (manifest : Members Float) (timing_samples : Option (List (List String)))
      → Mono (audit (read_timing numbers manifest timing_samples) >>= verify_compliance numbers)
  after_claims-Mono manifest timing_samples =
      audit->>=-Mono (read_timing numbers manifest timing_samples) (verify_compliance numbers)
        (verify_compliance-Mono)

  verify_claims-Mono :
      (manifest : Members Float) (timing_samples : Option (List (List String))) (c : Chart)
      (s : Replay)
      → Mono (verify_claims numbers manifest timing_samples c s)
  unfolding verify_claims
  verify_claims-Mono manifest timing_samples c s =
      audit->>=-Mono (check_claims numbers manifest c s)
        (λ _. audit (read_timing numbers manifest timing_samples) >>= verify_compliance numbers)
        (λ _. after_claims-Mono manifest timing_samples)

  verify-Shown :
      (files : Evidence Float) (r : Report)
      → verify numbers files empty_report ≡ (ok tt, r)
      → r.errors ≡ []
      → (manifest : Members Float) × (lanes : ℕ) × (c : Chart) × (s : Replay) × Shown files manifest
          lanes c s
  unfolding verify verify_claims
  verify-Shown files r e quiet =
      let (manifest, r₁, loaded, e₁) =
        continue-ok (audit (load_manifest numbers files.result) empty_report) _ tt r e in
      let (_, r₂, _, e₂) = continue-ok (verify_flags manifest r₁) _ tt r e₁ in
      let ((lanes, c, s), replays, e₃, _) =
        audit-ok (replay_manifest numbers manifest files.notes files.inputs)
          (λ p. verify_claims numbers manifest files.timing_samples p.1 p.2) r₂ r tt
          (λ p. verify_claims-Mono manifest files.timing_samples p.1 p.2) e₂ quiet in
      let (_, claims, _, _) =
        audit-ok (check_claims numbers manifest c s)
          (λ _.
            audit (read_timing numbers manifest files.timing_samples) >>= verify_compliance numbers)
          (add_errors [] r₂) r tt (λ _. after_claims-Mono manifest files.timing_samples) e₃ quiet in
      (
        manifest,
        lanes,
        c,
        s,
        record {
          manifest_loads = audit-value _ empty_report r₁ manifest loaded;
          replays = replays;
          claims = claims;
        },
      )

  -- A run that passes.
  pub verify_run-Shown :
      (files : Evidence Float) (require_timing : Bool)
      → (verify_run numbers files require_timing).passed ≡ true
      → (manifest : Members Float) × (lanes : ℕ) × (c : Chart) × (s : Replay) × Shown files manifest
          lanes c s
  unfolding verify_run
  verify_run-Shown files require_timing e =
      let (r, ended, quiet) =
        caught-quiet (verify numbers files empty_report) (conclude-quiet require_timing _ e) in
      verify-Shown files r ended quiet
