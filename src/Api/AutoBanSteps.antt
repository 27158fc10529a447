-- ===== src/Api/AutoBanSteps.antt =====
-- Automatic bans under every interleaving of arriving events and running jobs: which addresses they can
-- reach, and how many jobs there are (autoBanSem and the goroutines of internal/api/api.go).
use mathlib.Core.Path.{subst}
use logfort.Prelude.{
  ◌≢◌, eq_iff, Option-cases, ℕ, zero, suc, ◌+◌, ◌≤◌, String, ◌≡◌, refl, sym, ap, ◌∙◌, inl, inr,
  false, Option, none, some, List, [], ◌∷◌, arith, Option-cases, or_default, length, All, ℤ,
}
use logfort.Api.Server.{allowlisted, Server, allowlisted}
use logfort.Api.AutoBan.{sem_capacity, Job, exempt, auto_ban_event, threat_ban_event, run_job}
use logfort.Responder.Allowlist.{is_private}
use logfort.Go.Net.{Net}
use logfort.Parse.Event.{Event}
use logfort.Responder.Firewall.{Responder}
use logfort.Api.AutoBanLaws.{
  job_ip, Starts, auto_ban_event-Starts, threat_ban_event-Starts, Effect, untouched, refused,
  banned, run_job-Effect, run_job-rest,
}

-- The server, and the jobs that were started and have not run.
pub record World (F : Type 0) : Type 0 where
  pub server : Server F
  pub pending : List Job

pub data Act : Type 0 where
  -- The pipeline hands an event to AutoBanEvent or to ThreatBanEvent.
  auto_arrives threat_arrives : ℕ → Event → Act
  -- The job at a position among the pending ones runs.
  job_runs : ℕ → ℕ → Act

pub get : ℕ → List Job → Option Job
get i [] = none
get zero (j ∷ js) = some j
get (suc i) (j ∷ js) = get i js

pub without : ℕ → List Job → List Job
without i [] = []
without zero (j ∷ js) = js
without (suc i) (j ∷ js) = j ∷ without i js

abbrev enqueue : {F : Type 0} → List Job → Option Job × Server F → World F
enqueue js (none, s) = record { server = s; pending = js }
enqueue js (some j, s) = record { server = s; pending = j ∷ js }

module _ {F : Type 0} (net : Net) (parse_duration : String → Option ℤ) (resp : Responder F) where
  pub step : Act → World F → World F
  unfolding get without
  step (auto_arrives now ev) w =
      enqueue w.pending (auto_ban_event net parse_duration now ev w.server)
  step (threat_arrives now ev) w = enqueue w.pending (threat_ban_event net now ev w.server)
  step (job_runs i now) w = elim (get i w.pending) [
    | none ↦ w
    | some j ↦ record { server = run_job resp now j w.server; pending = without i w.pending }
  ]

  pub steps : List Act → World F → World F
  steps [] w = w
  steps (a ∷ acts) w = steps acts (step a w)

pub length-without :
    (i : ℕ) (js : List Job) (j : Job) → get i js ≡ some j → length (without i js) + 1 ≡ length js
unfolding get without
length-without i [] j e = ground arith
length-without zero (k ∷ js) j e = omega arith
length-without (suc i) (k ∷ js) j e = ground (arith, length-without i js j e)

module _ {ℓ} (P : Job → Type ℓ) where
  All-without : (i : ℕ) (js : List Job) → All P js → All P (without i js)
  unfolding without
  All-without i [] h = h
  All-without zero (j ∷ js) h = h.1
  All-without (suc i) (j ∷ js) h = (h.0, All-without i js h.1)

  All-get : (i : ℕ) (js : List Job) (j : Job) → All P js → get i js ≡ some j → P j
  unfolding get
  All-get i [] j h e = ground arith
  All-get zero (k ∷ js) j h e = subst P (ap (λ o. or_default o k) e) h.0
  All-get (suc i) (k ∷ js) j h e = All-get i js j h.1 e

exempt-cases :
    {F : Type 0} (net : Net) (ip : String) (s : Server F)
    → exempt net ip s ≡ false
    → (ip ≢ "") × (is_private net ip ≡ false) × (allowlisted net ip s ≡ false)
unfolding exempt
exempt-cases net ip s h = ground (arith, eq_iff ip "")

module _ {F : Type 0} (net : Net) (s₀ : Server F) (P : F → Type 0) where
  -- An address that an automatic ban may reach.
  abbrev pub Reachable : String → Type 0
  Reachable ip = (ip ≢ "") × (is_private net ip ≡ false) × (allowlisted net ip s₀ ≡ false)

  -- The allowlist is that of the start, `P` holds of the firewall, no exempt address is waiting to be
  -- banned or was announced as banned, and each pending job holds one slot of the semaphore.
  abbrev pub Contained : World F → Type 0
  Contained w =
      (w.server.allowlist ≡ s₀.allowlist)
      × P w.server.firewall
      × All (λ j. Reachable (job_ip j)) w.pending
      × All (λ e. Reachable e.ip) w.server.published
      × (w.server.auto_ban_sem ≡ length w.pending)
      × (length w.pending ≤ sem_capacity)

  Reachable-of_exempt :
      (ip : String) (s : Server F)
      → s.allowlist ≡ s₀.allowlist
      → exempt net ip s ≡ false
      → Reachable ip
  unfolding exempt allowlisted
  Reachable-of_exempt ip s e h = let (a, b, c) = exempt-cases net ip s h in (a, b, rw e at c)

  enqueue-Contained :
      (js : List Job) (s : Server F) (r : Option Job × Server F)
      → Starts net s r
      → Contained (record { server = s; pending = js })
      → Contained (enqueue js r)
  enqueue-Contained js s (none, s') (f, p, a, q, m) (a₀, k, pend, pub_, sem, cap) =
      (a ∙ a₀, rw f k, pend, rw p pub_, q refl ∙ sem, cap)
  enqueue-Contained js s (some j, s') (f, p, a, q, m) (a₀, k, pend, pub_, sem, cap) =
      let (safe, room, claims) = m j refl in
      (
        a ∙ a₀,
        rw f k,
        (Reachable-of_exempt (job_ip j) s a₀ safe, pend),
        rw p pub_,
        omega arith,
        omega arith,
      )

  module _ (resp : Responder F)
      (keeps : (ip : String) (f : F) → Reachable ip → P f → P (resp.ban ip f).1) where
    Effect-Contained :
        (ip : String) (s s' : Server F)
        → Reachable ip
        → Effect resp ip s s'
        → P s.firewall × All (λ e. Reachable e.ip) s.published
        → P s'.firewall × All (λ e. Reachable e.ip) s'.published
    Effect-Contained ip s s' safe (untouched f p) (k, q) = (rw f k, rw p q)
    Effect-Contained ip s s' safe (refused f p) (k, q) = (rw f (keeps ip s.firewall safe k), rw p q)
    Effect-Contained ip s s' safe (banned e i b f p) (k, q) =
        (rw f (keeps ip s.firewall safe k), rw p (subst Reachable (sym i) safe, q))

    run-Contained :
        (i now : ℕ) (j : Job) (w : World F)
        → get i w.pending ≡ some j
        → Contained w
        → Contained (record { server = run_job resp now j w.server; pending = without i w.pending })
    run-Contained i now j w e (a, k, pend, q, sem, cap) =
        let (a', m) = run_job-rest resp now j w.server in
        let safe = All-get (λ j'. Reachable (job_ip j')) i w.pending j pend e in
        let (k', q') =
          Effect-Contained (job_ip j) w.server (run_job resp now j w.server) safe
            (run_job-Effect resp now j w.server) (k, q) in
        let n = length-without i w.pending j e in
        (
          a' ∙ a,
          k',
          All-without (λ j'. Reachable (job_ip j')) i w.pending pend,
          q',
          omega arith,
          omega arith,
        )

    module _ (parse_duration : String → Option ℤ) where
      step-Contained :
          (a : Act) (w : World F) → Contained w → Contained (step net parse_duration resp a w)
      unfolding step
      step-Contained (auto_arrives now ev) w h =
          enqueue-Contained w.pending w.server (auto_ban_event net parse_duration now ev w.server)
            (auto_ban_event-Starts net parse_duration now ev w.server) h
      step-Contained (threat_arrives now ev) w h =
          enqueue-Contained w.pending w.server (threat_ban_event net now ev w.server)
            (threat_ban_event-Starts net now ev w.server) h
      step-Contained (job_runs i now) w h = elim (Option-cases (get i w.pending)) [
        | inl e ↦ rw (e, step) h
        | inr (j, e) ↦ rw (e, step) (run-Contained i now j w e h)
      ]

      -- Whatever events arrive and in whatever order the jobs run: where a ban of an address that is
      -- neither private nor in the allowlist keeps P of the firewall, P holds of the firewall after
      -- every run, only such addresses are announced as banned, and at most 100 jobs are pending, each
      -- with one slot of the semaphore.
      pub steps-Contained :
          (acts : List Act) (w : World F)
          → Contained w
          → Contained (steps net parse_duration resp acts w)
      unfolding steps
      steps-Contained [] w h = h
      steps-Contained (a ∷ acts) w h =
          steps-Contained acts (step net parse_duration resp a w) (step-Contained a w h)
