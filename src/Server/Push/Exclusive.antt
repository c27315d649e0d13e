-- ===== src/Server/Push/Exclusive.antt =====
-- Two claims of one row of the push outbox, one after the other (`claim_push` of server/src/db.rs).
use oshioki.Base.{
  ℕ, ◌≤◌, ◌≡◌, ◌≢◌, refl, sym, ap, inl, inr, true, false, ◌&&◌, some, List, [], ◌∷◌, String, arith,
  All, find, Bool-cases, Option-cases, ◌==◌, nat_has_eq, text_has_eq, nat_eq_iff,
}
use mathlib.Core.Path.{subst}
use oshioki.Base.Int.{ℤ, ◌<ℤ◌, saturating_add}
use oshioki.Server.Tables.{EndpointRow, PushRow, Db, find_request, update_where, count_where}
use oshioki.Server.Rows.{find-some, find-counted, All-find}
use oshioki.Server.Push.{is_open, is_unclaimed}
use oshioki.Server.Push.Leases.{PushItem, is_claimable, has_push_id, leased, joined, claim_push}

module _ (db : Db) (now : ℤ) (token : String) (until : ℤ) where
  IsLeased : ℕ → PushRow → Type 0
  IsLeased id q = has_push_id id q ≡ true → q.claim ≡ some (token, until)

  abbrev lease : ℕ → List PushRow → List PushRow
  lease id =
      update_where (λ q. has_push_id id q && is_open q && is_unclaimed now q) (leased token until)

  absent-IsLeased :
      (id : ℕ) (rows : List PushRow)
      → count_where (has_push_id id) rows ≡ 0
      → All (IsLeased id) (lease id rows)
  unfolding IsLeased
  absent-IsLeased id [] h = tt
  absent-IsLeased id (r ∷ rows) h = elim (Bool-cases (has_push_id id r)) [
    | inl t ↦ absurd (ground (arith, t, h))
    | inr u ↦
        rw u ((λ t. absurd (ground (arith, t, u))), absent-IsLeased id rows (ground (arith, u, h)))
  ]

  -- Where the id is a key, the row that was found is leased, and it is the only one with its id.
  found-IsLeased :
      (p : PushRow) (rows : List PushRow)
      → count_where (has_push_id p.id) rows ≤ 1
      → find (is_claimable db now) rows ≡ some p
      → All (IsLeased p.id) (lease p.id rows)
  unfolding IsLeased is_claimable
  found-IsLeased p [] one h = tt
  found-IsLeased p (r ∷ rows) one h = elim (Bool-cases (is_claimable db now r)) [
    | inl t ↦
        let same : r ≡ p = ground (arith, t, h) in
        let free : (has_push_id r.id r && is_open r && is_unclaimed now r) ≡ true =
          ground (arith, t, nat_eq_iff r.id r.id) in
        let alone : count_where (has_push_id r.id) rows ≡ 0 = ground (
          arith,
          subst (λ s. count_where (has_push_id s.id) (r ∷ rows) ≤ 1) (sym same) one,
          nat_eq_iff r.id r.id,
        ) in
        subst (λ s. All (IsLeased s.id) (lease s.id (r ∷ rows))) same
          (rw free ((λ t. refl), absent-IsLeased r.id rows alone))
    | inr u ↦
        let h' : find (is_claimable db now) rows ≡ some p = ground (arith, u, h) in
        let later =
          find-counted (is_claimable db now) (has_push_id p.id) rows p h'
            ((nat_eq_iff p.id p.id).1 refl) in
        let other : has_push_id p.id r ≡ false = ground (arith, one, later) in
        rw other (
          (λ t. absurd (ground (arith, t, other))),
          found-IsLeased p rows (ground (arith, one, other)) h',
        )
  ]

joined_id :
    (token : String) (db : Db) (p : PushRow) (item : PushItem)
    → joined token db p ≡ some item
    → item.id ≡ p.id
joined_id token db p item h =
    elim (Option-cases (find (λ (e : EndpointRow). e.id == p.endpoint_id) db.push_endpoints)) [
      | inl n ↦ absurd (ground (arith, n, h))
      | inr (e, f) ↦ elim (Option-cases (find_request p.request_kind p.request_id db)) [
        | inl m ↦ absurd (ground (arith, f, m, h))
        | inr (r, g) ↦ ground (arith, f, g, h)
      ]
    ]

claim_push_lem :
    (token : String) (now lease_secs : ℤ) (db db' : Db) (item : PushItem)
    → claim_push token now lease_secs db ≡ (db', some item)
    → (p : PushRow) × (find (is_claimable db now) db.push_outbox ≡ some p)
      × (item.id ≡ p.id)
      × (db'.push_outbox ≡ lease db now token (saturating_add now lease_secs) p.id db.push_outbox)
unfolding claim_push
claim_push_lem token now lease_secs db db' item h =
    elim (Option-cases (find (is_claimable db now) db.push_outbox)) [
      | inl n ↦ absurd (ground (arith, rw (n, claim_push) at h))
      | inr (p, found) ↦
          let h' = rw (found, claim_push) at h in
          (
            p,
            found,
            joined_id token db p item (ap (λ r. r.1) h'),
            ap (λ r. r.0.push_outbox) (sym h'),
          )
    ]

-- In a store where the id is the key of the push outbox, a row that a worker has claimed is not claimed
-- again by the next worker before the lease ends, whatever its token and its own lease.
pub lease_is_exclusive :
    (token token' : String) (now now' lease_secs lease_secs' : ℤ) (db db' db'' : Db)
    (item item' : PushItem)
    → ((id : ℕ) → count_where (has_push_id id) db.push_outbox ≤ 1)
    → claim_push token now lease_secs db ≡ (db', some item)
    → now' <ℤ saturating_add now lease_secs
    → claim_push token' now' lease_secs' db' ≡ (db'', some item')
    → item'.id ≢ item.id
unfolding IsLeased is_claimable
lease_is_exclusive token token' now now' lease_secs lease_secs' db db' db'' item item' keyed first
      early second same =
    let (p, found, id, rows) = claim_push_lem token now lease_secs db db' item first in
    let (q, found', id', rows') = claim_push_lem token' now' lease_secs' db' db'' item' second in
    let until = saturating_add now lease_secs in
    let leases =
      subst (All (IsLeased db now token until p.id)) (sym rows)
        (found-IsLeased db now token until p db.push_outbox (keyed p.id) found) in
    let held =
      All-find (IsLeased db now token until p.id) (is_claimable db' now') db'.push_outbox q leases
        found' ((nat_eq_iff q.id p.id).1 (omega (arith, id, id', same))) in
    absurd (ground (arith, find-some (is_claimable db' now') db'.push_outbox q found', held, early))
