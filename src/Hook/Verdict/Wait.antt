-- ===== src/Hook/Verdict/Wait.antt =====
-- The wait of the hook for a decision (hook/src/main.rs), candidate by candidate.
use oshioki.Base.{
  ◌≡◌, ◌≢◌, refl, sym, ap, ◌∙◌, Bool, false, Option, none, some, List, [], ◌∷◌, ◌++◌, All, ℕ, arith,
  inl, inr, ◌⊎◌, Option-cases,
}
use oshioki.Base.Int.{ℤ}
use oshioki.Base.Result.{Result, ok, err}
use oshioki.Protocol.External.{Bytes, External}
use oshioki.Protocol.Device.{DevicePublicRecord, HookConfig}
use oshioki.Protocol.Request.{Request}
use oshioki.Protocol.Decision.{Deny, Decision}
use oshioki.Hook.Registry.{File, Commit}
use oshioki.Hook.Verdict.{
  HookError, invalid_decision, unavailable, nats, Approved, judge, apply_decision,
  final_authorization, first_valid_decision,
}
use oshioki.Hook.Verdict.Steps.{ignored_step, cut_step, ended, gate_error-valid, final-not, err_inj}
use oshioki.Hook.Verdict.Genuine.{
  IsGenuine, IsVerified, IsStopped, is_late, is_denial, is_unread, is_verified, is_forged,
  is_stopped,
}
use oshioki.Hook.Verdict.Genuine.Classify.{classify}

-- A candidate of the wait: its decision, the clocks as it is applied, what becomes of the write of the
-- registry, and, if the deadline passes before it has been applied, the registry at that moment.
pub record Received : Type 0 where
  pub decision : Decision
  pub now : ℤ
  pub clock : ℤ
  pub commit : Commit
  pub cut_off : Option File

module _ (x : External) (config : Option HookConfig) (confirms : HookConfig → Deny → Bool)
    (active : List DevicePublicRecord) (request : Request) (raw : Bytes) (epoch : ℕ) where
  abbrev pub Genuine : Decision → Type 0
  Genuine = IsGenuine x config confirms active request raw

  abbrev pub VerifiedBy : Received → Approved → Type 0
  VerifiedBy r a = IsVerified x config confirms active request raw r.decision r.now a

  abbrev judgement : Received → Result HookError Approved
  judgement r = judge x config confirms active request nats r.decision raw r.now

  abbrev pub applied : Received → File → File × Result HookError (Unit {0})
  applied r file =
      apply_decision x config confirms active request r.decision nats raw epoch r.now r.clock
        r.commit file

  abbrev pub apply_received : Received → File → File × Option (Result HookError (Unit {0}))
  apply_received r file = elim r.cut_off [
    | none ↦ ((applied r file).0, some (applied r file).1)
    | some stopped_at ↦ (stopped_at, none)
  ]

  abbrev pub waits : List (Result HookError Received) → File → File × Result HookError (Unit {0})
  waits ts file = first_valid_decision apply_received ts file

  -- A candidate that is applied in time and whose decision is not genuine.
  abbrev pub IsForged : Result HookError Received → Type 0
  IsForged t = (r : Received) × (t ≡ ok r) × (r.cut_off ≡ none) × ¬ Genuine r.decision

  pub apply-refused :
      (r : Received) (file : File) (e : HookError)
      → judgement r ≡ err e
      → applied r file ≡ (file, err e)
  unfolding apply_decision
  apply-refused r file e h = ground (arith, h)

  pub apply-judged :
      (r : Received) (file : File) (a : Approved)
      → judgement r ≡ ok a
      → applied r file
        ≡ final_authorization x r.commit a.0 epoch request.expires_at a.1 false r.clock file
  unfolding apply_decision
  apply-judged r file a h = ground (arith, h)

  pub received-applied :
      (r : Received) (file : File)
      → r.cut_off ≡ none
      → apply_received r file ≡ ((applied r file).0, some (applied r file).1)
  received-applied r file h = rw h refl

  received-cut :
      (r : Received) (file f : File) → r.cut_off ≡ some f → apply_received r file ≡ (f, none)
  received-cut r file f h = rw h refl

  judged-forged : (r : Received) → ¬ Genuine r.decision → judgement r ≡ err invalid_decision
  judged-forged r not_genuine =
      elim (classify x config confirms active request raw r.decision r.now) [
        | is_verified a j v g ↦ absurd (not_genuine g)
        | is_forged j n ↦ j
        | is_stopped e j g s ↦ absurd (not_genuine g)
      ]

  forged_step :
      (r : Received) (ts : List (Result HookError Received)) (file : File)
      → r.cut_off ≡ none
      → ¬ Genuine r.decision
      → waits (ok r ∷ ts) file ≡ waits ts file
  forged_step r ts file whole not_genuine =
      let applies = apply-refused r file invalid_decision (judged-forged r not_genuine) in
      ignored_step apply_received r ts file
        (received-applied r file whole ∙ ap (λ p. (p.0, some p.1)) applies)

  -- Forged decisions change nothing, in any number.
  pub forged_are_ignored :
      (earlier ts : List (Result HookError Received)) (file : File)
      → All IsForged earlier
      → waits (earlier ++ ts) file ≡ waits ts file
  forged_are_ignored [] ts file all_forged = refl
  forged_are_ignored (t ∷ earlier) ts file (first_forged, all_forged) =
      let rest = forged_are_ignored earlier ts file all_forged in
      let first : waits (ok first_forged.0 ∷ earlier ++ ts) file ≡ waits (earlier ++ ts) file =
        forged_step first_forged.0 (earlier ++ ts) file first_forged.2 first_forged.3 in
      rw (first_forged.1, first) rest

  -- The first candidate that is not forged: it is applied in time and is genuine.
  pub record IsDecided (ts : List (Result HookError Received)) (file file' : File)
      (result : Result HookError (Unit {0})) : Type 0 where
    pub earlier : List (Result HookError Received)
    pub received : Received
    pub later : List (Result HookError Received)
    pub order : ts ≡ earlier ++ ok received ∷ later
    pub forged : All IsForged earlier
    pub whole : received.cut_off ≡ none
    pub is_genuine : Genuine received.decision
    pub settles : applied received file ≡ (file', result)

  later-IsDecided :
      {t : Result HookError Received} {ts : List (Result HookError Received)} {file file' : File}
      {result : Result HookError (Unit {0})}
      → IsForged t
      → IsDecided ts file file' result
      → IsDecided (t ∷ ts) file file' result
  later-IsDecided {t = t} f d = record {
    earlier = t ∷ d.earlier;
    received = d.received;
    later = d.later;
    order = ap (λ l. t ∷ l) d.order;
    forged = (f, d.forged);
    whole = d.whole;
    is_genuine = d.is_genuine;
    settles = d.settles;
  }

  -- The error of a stream that failed, or of a wait that was over.
  abbrev pub IsStreamError : List (Result HookError Received) → HookError → Type 0
  IsStreamError [] e = e ≡ unavailable
  IsStreamError (t ∷ ts) e =
      (t ≡ err e)
      ⊎ ((r : Received) × (f : File) × (t ≡ ok r) × (r.cut_off ≡ some f) × (e ≡ unavailable))
      ⊎ IsStreamError ts e

  stopped_valid :
      (decision : Decision) (now : ℤ) (e : HookError)
      → IsStopped x config confirms active request raw decision now e
      → e ≢ invalid_decision
  stopped_valid decision now e (is_late t) h = cc
  stopped_valid decision now e (is_denial d eq t) h = cc
  stopped_valid decision now e (is_unread t) h = cc

  -- A genuine candidate that is applied in time ends the wait.
  IsDecided-first :
      (r : Received) (ts : List (Result HookError Received)) (file file' : File)
      (result : Result HookError (Unit {0}))
      → waits (ok r ∷ ts) file ≡ (file', result)
      → r.cut_off ≡ none
      → Genuine r.decision
      → (applied r file).1 ≢ err invalid_decision
      → IsDecided (ok r ∷ ts) file file' result
  IsDecided-first r ts file file' result h whole g valid =
      elim (ended apply_received r ts file (applied r file).0 (applied r file).1
        (received-applied r file whole)) [
          | inl invalid ↦ absurd (valid invalid)
          | inr ends ↦ record {
            earlier = [];
            received = r;
            later = ts;
            order = refl;
            forged = tt;
            whole = whole;
            is_genuine = g;
            settles = sym ends ∙ h;
          }
        ]

  pub decided :
      (ts : List (Result HookError Received)) (file file' : File)
      (result : Result HookError (Unit {0}))
      → waits ts file ≡ (file', result)
      → IsDecided ts file file' result ⊎ ((e : HookError) × (result ≡ err e) × IsStreamError ts e)
  unfolding first_valid_decision
  decided [] file file' result h = inr (unavailable, sym (ap (λ p. p.1) h), refl)
  decided (err e ∷ ts) file file' result h = inr (e, sym (ap (λ p. p.1) h), inl refl)
  decided (ok r ∷ ts) file file' result h =
      let rest = decided ts file file' result in
      elim (Option-cases r.cut_off) [
        | inr (f, cut) ↦
            let over : waits (ok r ∷ ts) file ≡ (f, err unavailable) =
              cut_step apply_received r ts file f (received-cut r file f cut) in
            inr (unavailable, ap (λ p. p.1) (sym h ∙ over), inr (inl (r, f, refl, cut, refl)))
        | inl whole ↦ elim (classify x config confirms active request raw r.decision r.now) [
          | is_forged j n ↦ elim (rest (sym (forged_step r ts file whole n) ∙ h)) [
            | inl d ↦ inl (later-IsDecided (r, refl, whole, n) d)
            | inr (e, eq, fails) ↦ inr (e, eq, inr (inr fails))
          ]
          | is_verified a j v g ↦ inl (
              IsDecided-first r ts file file' result h whole g λ q.
                final-not x r.commit a.0 epoch request.expires_at a.1 false r.clock file
                  invalid_decision gate_error-valid
                  (sym (ap (λ p. p.1) (apply-judged r file a j)) ∙ q))
          | is_stopped e j g s ↦ inl (
              IsDecided-first r ts file file' result h whole g λ q.
                stopped_valid r.decision r.now e s
                  (err_inj (sym (ap (λ p. p.1) (apply-refused r file e j)) ∙ q)))
        ]
      ]
