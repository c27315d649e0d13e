-- ===== src/Server/Phase.antt =====
-- The states of one request in the store of server/src/db.rs, as a machine, and the calls of the store.
use oshioki.Base.{
  ◌≤◌, ◌≡◌, refl, inl, inr, sym, Bool, true, ◌&&◌, Option, none, some, List, [], ◌∷◌, ◌++◌, String,
  arith, find, retain, Bool-cases, Option-cases, text_has_eq, eq_iff,
}
use mathlib.Core.Path.{subst}
use oshioki.Base.Int.{ℤ}
use oshioki.Protocol.External.{Bytes, External}
use oshioki.Server.Tables.{
  Lane, State, pending, resolved, RequestRow, LaneTables, Db, Codec, update_where, count_where,
  set_lane, has_id,
}
use oshioki.Server.Rows.{
  count-append, count-retain, count-update, find-none, find-append-none, find-append-some,
  find-retain, find-update, find-update-none,
}
use oshioki.Server.Push.{is_pending}
use oshioki.Server.Ingest.{add_request}
use oshioki.Server.Decide.{resolve_request}
use oshioki.Server.Outbox.{is_recent, sweep, cleanup_tables}
use oshioki.Server.Calls.{Call, run, runs, runs-keeps}
use oshioki.Server.Effects.{
  requests_of, lane_cases, set_lane-same, set_lane-other, Effect, quiet, arrives, decides, sweeps,
  enrolls,
}
use oshioki.Server.Effects.Run.{run-Effect}

abbrev state_found : Option RequestRow → Option State
state_found none = none
state_found (some row) = some row.state

abbrev pub state_in : (id : String) → List RequestRow → Option State
state_in id rows = state_found (find (has_id id) rows)

abbrev pub state_of : Lane → (id : String) → Db → Option State
state_of lane id db = state_in id (requests_of lane db)

-- The primary key of a request table.
abbrev IsKeyed : List RequestRow → Type 0
IsKeyed rows = (id : String) → count_where (has_id id) rows ≤ 1

abbrev pub IsStore : Db → Type 0
IsStore db = (lane : Lane) → IsKeyed (requests_of lane db)

pub data Move : Option State → Option State → Type 0 where
  stays : (s : Option State) → Move s s
  appears : Move none (some pending)
  resolves : (hash : Bytes) (at : ℤ) → Move (some pending) (some (resolved hash at))
  goes : (s : State) → Move (some s) none

-- A step of one request table.
abbrev Moves : List RequestRow → List RequestRow → Type 0
Moves before after =
    IsKeyed before → IsKeyed after × ((id : String) → Move (state_in id before) (state_in id after))

pending_lem : (s : State) → is_pending s ≡ true → s ≡ pending
pending_lem pending h = refl
pending_lem (resolved hash at) h = absurd (cc)

same-Moves : (rows : List RequestRow) → Moves rows rows
same-Moves rows keyed = (keyed, λ id. stays (state_in id rows))

append-Moves :
    (rows : List RequestRow) (row : RequestRow)
    → find (has_id row.id) rows ≡ none
    → row.state ≡ pending
    → Moves rows (rows ++ row ∷ [])
append-Moves rows row fresh starts keyed = (
  (λ id. elim (Option-cases (find (has_id id) rows)) [
    | inl n ↦ ground (arith, count-append (has_id id) rows (row ∷ []), find-none (has_id id) rows n)
    | inr (old, found) ↦ elim (Bool-cases (has_id id row)) [
      | inr u ↦ ground (arith, count-append (has_id id) rows (row ∷ []), keyed id, u)
      | inl t ↦
          let same = (eq_iff row.id id).0 t in absurd (ground (arith, found, rw same at fresh))
    ]
  ]),
  λ id. elim (Option-cases (find (has_id id) rows)) [
    | inr (old, found) ↦
        let found' = find-append-some (has_id id) rows (row ∷ []) old found in
        rw (found, found') (stays (some old.state))
    | inl n ↦
        let last = find-append-none (has_id id) rows (row ∷ []) n in
        elim (Bool-cases (has_id id row)) [
          | inl t ↦ rw (n, last, t, starts) appears
          | inr u ↦ rw (n, last, u) (stays none)
        ]
  ],
)

update-Moves :
    (id : String) (hash : Bytes) (at : ℤ) (rows : List RequestRow)
    → Moves rows (
        update_where
          (λ r. has_id id r && is_pending r.state)
          (λ r. record r { state = resolved hash at })
          rows)
update-Moves id hash at rows keyed = (
  (λ i. omega (
    arith,
    keyed i,
    count-update (has_id i) _ (λ r. record r { state = resolved hash at }) (λ r. refl) rows,
  )),
  λ i. elim (Option-cases (find (has_id i) rows)) [
    | inl n ↦
        rw
          (
            n,
            find-update-none (has_id i) (λ r. has_id id r && is_pending r.state)
                (λ r. record r { state = resolved hash at }) (λ r. refl) rows n,
          )
          (stays none)
    | inr (row, found) ↦
        let updated =
          find-update (has_id i) (λ r. has_id id r && is_pending r.state)
            (λ r. record r { state = resolved hash at }) (λ r. refl) rows row found in
        elim (Bool-cases (has_id id row && is_pending row.state)) [
          | inr u ↦ rw (found, updated, u) (stays (some row.state))
          | inl t ↦
              rw (found, updated, t)
                (rw (pending_lem row.state (ground (arith, t))) (resolves hash at))
        ]
  ],
)

retain-Moves : (keep : RequestRow → Bool) (rows : List RequestRow) → Moves rows (retain keep rows)
retain-Moves keep rows keyed = (
  (λ i. omega (arith, keyed i, count-retain (has_id i) keep rows)),
  λ i. elim (Option-cases (find (has_id i) (retain keep rows))) [
    | inr (row, kept) ↦
        let found = find-retain (has_id i) keep rows row (keyed i) kept in
        rw (found, kept) (stays (some row.state))
    | inl n ↦ elim (Option-cases (find (has_id i) rows)) [
      | inl m ↦ rw (n, m) (stays none)
      | inr (row, found) ↦ rw (n, found) (goes row.state)
    ]
  ],
)

-- All tables at once: what a step of one request table is for the store.
abbrev IsStep : Db → Db → Type 0
IsStep before after = (lane : Lane) → Moves (requests_of lane before) (requests_of lane after)

requests-IsStep :
    (a b c : Db)
    → IsStep a b
    → ((lane : Lane) → requests_of lane c ≡ requests_of lane b)
    → IsStep a c
requests-IsStep a b c step same lane =
    subst (Moves (requests_of lane a)) (sym (same lane)) (step lane)

set_lane-IsStep :
    (db : Db) (lane : Lane) (tables : LaneTables)
    → Moves (requests_of lane db) tables.requests
    → IsStep db (set_lane db lane tables)
set_lane-IsStep db lane tables moves other = elim (lane_cases lane other) [
  | inl same ↦
      subst (λ l. Moves (requests_of l db) (requests_of l (set_lane db lane tables))) same
        (subst (λ t. Moves (requests_of lane db) t.requests) (sym (set_lane-same db lane tables))
          moves)
  | inr differs ↦
      subst (λ t. Moves (requests_of other db) t.requests)
        (sym (set_lane-other db lane other tables differs)) (same-Moves (requests_of other db))
]

module _ (x : External) where
  Effect-IsStep : (before after : Db) → Effect x before after → IsStep before after
  unfolding resolve_request cleanup_tables sweep
  Effect-IsStep before after (quiet _ q) =
      requests-IsStep before before after (λ lane. same-Moves (requests_of lane before)) q.requests
  Effect-IsStep before after (arrives _ lane row fresh starts q) =
      requests-IsStep before (add_request lane row before) after
        (set_lane-IsStep before lane _ (append-Moves (requests_of lane before) row fresh starts))
        q.requests
  Effect-IsStep before _ (decides lane id subject raw clock row found starts fresh) =
      set_lane-IsStep before lane _ (update-Moves id (x.sha256 raw) clock (requests_of lane before))
  Effect-IsStep before _ (sweeps now) =
      λ lane. retain-Moves (is_recent now) (requests_of lane before)
  Effect-IsStep before after (enrolls _ same outbox devices) =
      requests-IsStep before before after (λ lane. same-Moves (requests_of lane before)) same

  module _ (c : Codec) where
    -- In a store with the primary keys of its request tables, each call of any operation moves each
    -- request of each lane as the machine allows: it stays as it is, appears pending, goes from pending
    -- to resolved, or disappears; the primary keys still hold.
    pub run_refines :
        (call : Call) (db : Db)
        → IsStore db
        → IsStore (run x c call db)
          × ((lane : Lane) (id : String)
              → Move (state_of lane id db) (state_of lane id (run x c call db)))
    run_refines call db keyed =
        let step = Effect-IsStep db (run x c call db) (run-Effect x c call db) in
        ((λ lane. (step lane (keyed lane)).0), λ lane id. (step lane (keyed lane)).1 id)

    pub runs-IsStore : (calls : List Call) (db : Db) → IsStore db → IsStore (runs x c calls db)
    runs-IsStore = runs-keeps x c IsStore (λ call db keyed. (run_refines call db keyed).0)
