-- ===== src/Server/Resolutions.antt =====
-- Which requests a step of a request table leaves resolved.
use oshioki.Base.{
  ◌≡◌, ◌≢◌, ◌⊎◌, refl, inl, inr, sym, ap, ◌∙◌, false, ◌&&◌, some, List, [], ◌∷◌, ◌++◌, String,
  arith, find, Bool-cases, Option-cases, ◌==◌, text_has_eq, eq_iff,
}
use oshioki.Base.Int.{ℤ}
use oshioki.Protocol.External.{Bytes}
use oshioki.Server.Tables.{
  Lane, request, auth, tool, lane_eq, State, pending, resolved, RequestRow, Db, outbox_kind_eq,
  update_where, has_id,
}
use oshioki.Server.Rows.{
  find-some, find-append-none, find-append-some, find-update, find-update-none,
}
use oshioki.Server.Push.{is_pending}
use oshioki.Server.Ingest.{add_request}
use oshioki.Server.Decide.{kind_of_lane}
use oshioki.Server.Effects.{requests_of, lane_cases, set_lane-same, set_lane-other}
use oshioki.Server.Phase.{state_in, state_of}

pub append-resolved :
    (id : String) (rows : List RequestRow) (row : RequestRow) (s : State)
    → row.state ≡ pending
    → s ≢ pending
    → state_in id (rows ++ row ∷ []) ≡ some s
    → state_in id rows ≡ some s
append-resolved id rows row s starts done h = elim (Option-cases (find (has_id id) rows)) [
  | inr (old, found) ↦
      ground (arith, h, found, find-append-some (has_id id) rows (row ∷ []) old found)
  | inl n ↦
      let last = rw (find-append-none (has_id id) rows (row ∷ []) n) at h in
      elim (Bool-cases (has_id id row)) [
        | inl t ↦ absurd (done (ground (arith, rw t at last, starts)))
        | inr u ↦ absurd (ground (arith, rw u at last))
      ]
]

abbrev resolve_in : (id : String) → (hash : Bytes) → ℤ → List RequestRow → List RequestRow
resolve_in id hash at =
    update_where (λ r. has_id id r && is_pending r.state)
      (λ r. record r { state = resolved hash at })

-- A request that is resolved after a resolution is the one resolved, or was resolved before.
pub resolve-resolved :
    (id i : String) (hash hash' : Bytes) (at at' : ℤ) (rows : List RequestRow) (row : RequestRow)
    → find (has_id id) rows ≡ some row
    → row.state ≡ pending
    → state_in i (resolve_in id hash at rows) ≡ some (resolved hash' at')
    → ((i ≡ id) × (hash ≡ hash')) ⊎ ((id ≢ i) × (state_in i rows ≡ some (resolved hash' at')))
resolve-resolved id i hash hash' at at' rows row found starts h =
    let updated =
      find-update (has_id i) (λ r. has_id id r && is_pending r.state)
        (λ r. record r { state = resolved hash at }) (λ r. refl) rows in
    elim (Bool-cases (i == id)) [
      | inl t ↦
          let same = (eq_iff i id).0 t in
          let found' : find (has_id i) rows ≡ some row = rw same found in
          let own = find-some (has_id id) rows row found in
          let now : state_in i (resolve_in id hash at rows) ≡ some (resolved hash at) =
            rw (updated row found', own, starts) refl in
          inl (same, cc (now, h))
      | inr u ↦ elim (Option-cases (find (has_id i) rows)) [
        | inl n ↦ absurd (
            ground (
              arith,
              h,
              find-update-none (has_id i) (λ r. has_id id r && is_pending r.state)
                  (λ r. record r { state = resolved hash at }) (λ r. refl) rows n,
            ))
        | inr (r, other) ↦
            let own = (eq_iff r.id i).0 (find-some (has_id i) rows r other) in
            let differs : (i == id) ≡ false = u in
            let apart : has_id id r ≡ false = rw own differs in
            let now : state_in i (resolve_in id hash at rows) ≡ some r.state =
              rw (updated r other, apart) refl in
            inr ((λ e. absurd (ground (arith, u, (eq_iff i id).1 (sym e)))), rw other (sym now ∙ h))
      ]
    ]

pub kind_of_lane-other :
    (a b : Lane) → lane_eq a b ≡ false → outbox_kind_eq (kind_of_lane a) (kind_of_lane b) ≡ false
kind_of_lane-other request request h = h
kind_of_lane-other auth auth h = h
kind_of_lane-other tool tool h = h
kind_of_lane-other request auth h = refl
kind_of_lane-other request tool h = refl
kind_of_lane-other auth request h = refl
kind_of_lane-other auth tool h = refl
kind_of_lane-other tool request h = refl
kind_of_lane-other tool auth h = refl

-- The arrival of a pending row leaves no new request resolved.
pub arrived-resolved :
    (db : Db) (l : Lane) (row : RequestRow) (lane : Lane) (id : String) (s : State)
    → row.state ≡ pending
    → s ≢ pending
    → state_of lane id (add_request l row db) ≡ some s
    → state_of lane id db ≡ some s
arrived-resolved db l row lane id s starts done h = elim (lane_cases l lane) [
  | inr differs ↦ sym (ap (λ t. state_in id t.requests) (set_lane-other db l lane _ differs)) ∙ h
  | inl same ↦ rw (← same) (
      append-resolved id (requests_of l db) row s starts done
        (sym (ap (λ t. state_in id t.requests) (set_lane-same db l _)) ∙ (rw (← same) at h)))
]
