-- ===== src/Server/Verdicts.antt =====
-- The two records of a decision in server/src/db.rs, the row of the request and the row of the outbox,
-- through the calls of the store.
use oshioki.Base.{
  ◌≡◌, inl, inr, sym, ap, ◌∙◌, false, none, some, List, [], ◌∷◌, String, arith, All-append,
  All-retain, any, find, retain, Option-cases, text_has_eq, eq_iff,
}
use oshioki.Base.Int.{ℤ}
use oshioki.Protocol.External.{Bytes, External}
use oshioki.Server.Tables.{
  Lane, pending, resolved, RequestRow, Db, Codec, has_id, find_request, has_key, new_row,
  add_outbox,
}
use oshioki.Server.Rows.{find-retain, any-All, All-find_last}
use oshioki.Server.Decide.{kind_of_lane, resolve_request, find_last, recorded_verdict}
use oshioki.Server.Outbox.{is_recent, sweep, cleanup_tables}
use oshioki.Server.Calls.{Call, run, runs, runs-keeps, empty_db}
use oshioki.Server.Effects.{
  requests_of, lane_cases, set_lane-same, set_lane-other, IsRecord, HasRecords, Effect, quiet,
  arrives, decides, sweeps, enrolls,
}
use oshioki.Server.Effects.Run.{run-Effect}
use oshioki.Server.Phase.{state_in, state_of, IsStore, run_refines}
use oshioki.Server.Resolutions.{arrived-resolved, kind_of_lane-other, resolve-resolved}

module _ (x : External) where
  -- The decisions in the outbox on each resolved request have its hash.
  abbrev Agrees : Db → Type 0
  Agrees db =
      (lane : Lane) (id : String) (hash : Bytes) (at : ℤ)
      → state_of lane id db ≡ some (resolved hash at)
      → HasRecords x lane id hash db

  abbrev pub IsRecorded : Db → Type 0
  IsRecorded db = IsStore db × Agrees db

  sweep-Agrees : (now : ℤ) (db : Db) → IsRecorded db → Agrees (cleanup_tables now db)
  unfolding cleanup_tables sweep
  sweep-Agrees now db (keyed, agrees) lane id hash at h =
      elim (Option-cases (find (has_id id) (retain (is_recent now) (requests_of lane db)))) [
        | inl n ↦ absurd (ground (arith, n, h))
        | inr (row, kept) ↦
            let found =
              find-retain (has_id id) (is_recent now) (requests_of lane db) row (keyed lane id)
                kept in
            All-retain (IsRecord x lane id hash) _ db.outbox
              (agrees lane id hash at (ground (arith, found, kept, h)))
      ]

  decide_same :
      (db : Db) (lane : Lane) (id subject : String) (raw : Bytes) (clock : ℤ) (row : RequestRow)
      → find_request lane id db ≡ some row
      → row.state ≡ pending
      → any (has_key (kind_of_lane lane) id) db.outbox ≡ false
      → Agrees db
      → (i : String) (hash : Bytes) (at : ℤ)
      → state_of lane i (
          add_outbox
            (new_row db.outbox (kind_of_lane lane) id subject raw clock none)
            (resolve_request lane id (x.sha256 raw) clock db))
        ≡ some (resolved hash at)
      → HasRecords x lane i hash (
          add_outbox
            (new_row db.outbox (kind_of_lane lane) id subject raw clock none)
            (resolve_request lane id (x.sha256 raw) clock db))
  unfolding resolve_request
  decide_same db lane id subject raw clock row found starts fresh agrees i hash at h =
      let added = new_row db.outbox (kind_of_lane lane) id subject raw clock none in
      let here = ap (λ t. state_in i t.requests) (set_lane-same db lane _) in
      elim (resolve-resolved id i (x.sha256 raw) hash clock at (requests_of lane db) row found
        starts (sym here ∙ h)) [
          | inl (own, hashes) ↦
              All-append (IsRecord x lane i hash) db.outbox (added ∷ [])
                (rw own (
                  any-All (λ r. x.sha256 r.payload ≡ hash) (has_key (kind_of_lane lane) id)
                    db.outbox fresh))
                ((λ t. hashes), tt)
          | inr (other, before) ↦
              All-append (IsRecord x lane i hash) db.outbox (added ∷ [])
                (agrees lane i hash at before)
                ((λ t. absurd (other ((eq_iff id i).0 (ground (arith, t))))), tt)
        ]

  decide-Agrees :
      (db : Db) (lane : Lane) (id subject : String) (raw : Bytes) (clock : ℤ) (row : RequestRow)
      → find_request lane id db ≡ some row
      → row.state ≡ pending
      → any (has_key (kind_of_lane lane) id) db.outbox ≡ false
      → Agrees db
      → Agrees (
          add_outbox
            (new_row db.outbox (kind_of_lane lane) id subject raw clock none)
            (resolve_request lane id (x.sha256 raw) clock db))
  unfolding resolve_request
  decide-Agrees db lane id subject raw clock row found starts fresh agrees l i hash at h =
      let added = new_row db.outbox (kind_of_lane lane) id subject raw clock none in
      elim (lane_cases lane l) [
        | inr differs ↦
            let before = ap (λ t. state_in i t.requests) (set_lane-other db lane l _ differs) in
            All-append (IsRecord x l i hash) db.outbox (added ∷ [])
              (agrees l i hash at (sym before ∙ h))
              ((λ t. absurd (ground (arith, kind_of_lane-other lane l differs, t))), tt)
        | inl same ↦ rw (← same) (
            decide_same db lane id subject raw clock row found starts fresh agrees i hash at
              (rw (← same) at h))
      ]

  Effect-Agrees : (before after : Db) → IsRecorded before → Effect x before after → Agrees after
  Effect-Agrees before after (keyed, agrees) (quiet _ q) = λ lane id hash at h.
      q.records lane id hash (agrees lane id hash at (sym (ap (state_in id) (q.requests lane)) ∙ h))
  Effect-Agrees before after (keyed, agrees) (arrives _ l row fresh starts q) = λ lane id hash at h.
      q.records lane id hash (
        agrees lane id hash at (
          arrived-resolved before l row lane id (resolved hash at) starts (λ e. absurd (cc (e)))
            (sym (ap (state_in id) (q.requests lane)) ∙ h)))
  Effect-Agrees before _ (keyed, agrees)
        (decides lane id subject raw clock row found starts fresh) =
      decide-Agrees before lane id subject raw clock row found starts fresh agrees
  Effect-Agrees before _ recorded (sweeps now) = sweep-Agrees now before recorded
  Effect-Agrees before after (keyed, agrees) (enrolls _ same outbox devices) = λ lane id hash at h.
      rw outbox (agrees lane id hash at (sym (ap (state_in id) (same lane)) ∙ h))

  module _ (c : Codec) where
    run-IsRecorded : (call : Call) (db : Db) → IsRecorded db → IsRecorded (run x c call db)
    run-IsRecorded call db recorded = (
      (run_refines x c call db recorded.0).0,
      Effect-Agrees db (run x c call db) recorded (run-Effect x c call db),
    )

    -- After any sequence of calls on a new store, in each lane: if a request is resolved and the outbox
    -- still has a decision on it, then the SHA-256 of that decision's JSON is the hash in the request's
    -- row.
    pub recorded_verdict_agrees :
        (calls : List Call) (lane : Lane) (id : String) (hash payload : Bytes) (at : ℤ)
        → state_of lane id (runs x c calls empty_db) ≡ some (resolved hash at)
        → recorded_verdict lane id (runs x c calls empty_db) ≡ some payload
        → x.sha256 payload ≡ hash
    unfolding recorded_verdict
    recorded_verdict_agrees calls lane id hash payload at h kept =
        let start : IsRecorded empty_db = ((λ l i. omega arith), λ l i hash' at' k. tt) in
        let records =
          (runs-keeps x c IsRecorded run-IsRecorded calls empty_db start).1 lane id hash at h in
        let db = runs x c calls empty_db in
        elim (Option-cases (find_last (has_key (kind_of_lane lane) id) db.outbox)) [
          | inl n ↦ absurd (ground (arith, n, kept))
          | inr (row, last) ↦
              let (agree, own) =
                All-find_last (IsRecord x lane id hash) (has_key (kind_of_lane lane) id) db.outbox
                  row records last in
              let same : row.payload ≡ payload = ground (arith, last, kept) in
              rw (← same) (agree own)
        ]
