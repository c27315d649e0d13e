-- ===== src/Server/Retention.antt =====
-- The requests through the cleanup of server/src/db.rs.
use oshioki.Base.{
  ◌≡◌, ◌↔◌, refl, ap, inl, inr, Bool, true, ◌&&◌, some, List, [], ◌∷◌, String, arith, find, any,
  retain, Bool-cases, ◌==◌, text_has_eq, eq_iff,
}
use oshioki.Base.Int.{ℤ, ◌≤ℤ◌, saturating_sub}
use oshioki.Server.Tables.{Lane, RequestRow, BodyRow, DeviceRow, Db, has_id, has_body, find_request}
use oshioki.Server.Rows.{find-retain}
use oshioki.Server.Ingest.{server_request_retention_secs}
use oshioki.Server.Decide.{owns}
use oshioki.Server.Outbox.{is_recent, sweep, expire_stale_deliveries, cleanup_tables, cleanup_db}
use oshioki.Server.Phase.{IsStore}

find-kept :
    (p keep : RequestRow → Bool) (rows : List RequestRow) (a : RequestRow)
    → find p rows ≡ some a
    → keep a ≡ true
    → find p (retain keep rows) ≡ some a
find-kept p keep [] a h k = cc
find-kept p keep (r ∷ rows) a h k = elim (Bool-cases (keep r)) [
  | inl t ↦ rw t (ground (arith, h, find-kept p keep rows a, k))
  | inr u ↦ rw u (ground (arith, h, find-kept p keep rows a, k, u))
]

kept-passes :
    (p keep : RequestRow → Bool) (rows : List RequestRow) (a : RequestRow)
    → find p (retain keep rows) ≡ some a
    → keep a ≡ true
kept-passes p keep [] a h = cc
kept-passes p keep (r ∷ rows) a h = ground (arith, h, kept-passes p keep rows a)

find-any :
    (p : RequestRow → Bool) (rows : List RequestRow) (a : RequestRow)
    → find p rows ≡ some a
    → any p rows ≡ true
find-any p [] a h = cc
find-any p (r ∷ rows) a h = ground (arith, h, find-any p rows a)

any-kept :
    (p keep : BodyRow → Bool) (rows : List BodyRow)
    → ((b : BodyRow) → p b ≡ true → keep b ≡ true)
    → any p (retain keep rows) ≡ any p rows
any-kept p keep [] h = refl
any-kept p keep (b ∷ rows) h = ground (arith, h b, any-kept p keep rows h)

-- In a store with the primary keys of its request tables, the cleanup, with no other call between its two
-- locks, leaves a request exactly if it was stored and received at most 300 seconds ago (in saturating
-- arithmetic), and then with the same row; and which devices own a request that is left is as before.
pub cleanup_exact :
    (lane : Lane) (id : String) (row : RequestRow) (now : ℤ) (db : Db)
    → IsStore db
    → ((find_request lane id (cleanup_db now db) ≡ some row) ↔ (
        (find_request lane id db ≡ some row)
        × (saturating_sub now server_request_retention_secs ≤ℤ row.created_at)))
      × ((find_request lane id (cleanup_db now db) ≡ some row)
          → (test : DeviceRow → Bool) (fingerprint : String)
          → owns test lane id fingerprint (cleanup_db now db) ≡ owns test lane id fingerprint db)
unfolding cleanup_db cleanup_tables sweep expire_stale_deliveries owns
cleanup_exact lane id row now db keyed =
    let rows = (db.lanes lane).requests in
    (
      (
        (λ h. (
          find-retain (has_id id) (is_recent now) rows row (keyed lane id) h,
          ground (arith, kept-passes (has_id id) (is_recent now) rows row h),
        )),
        (λ (h, recent). find-kept (has_id id) (is_recent now) rows row h (ground (arith, recent))),
      ),
      λ h test fingerprint.
          ap (λ b. b && any (λ d. (d.fingerprint == fingerprint) && d.active && test d) db.devices)
            (any-kept (has_body id fingerprint)
              (λ b. any (has_id b.request_id) (retain (is_recent now) rows))
              (db.lanes lane).sealed_bodies
              (λ b own.
                let same : b.request_id ≡ id = (eq_iff b.request_id id).0 (ground (arith, own)) in
                rw same (find-any (has_id id) (retain (is_recent now) rows) row h))),
    )
