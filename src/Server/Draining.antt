-- ===== src/Server/Draining.antt =====
-- The backlog of `verdict_worker` (server/src/main.rs) over several ticks.
use oshioki.Base.{
  ℕ, zero, suc, ◌+◌, ◌*◌, ◌-◌, ◌≤◌, ◌≡◌, ◌∙◌, sym, ap, refl, inl, inr, Bool, true, false, not, ◌&&◌,
  List, [], ◌∷◌, arith, All, length, map, any, take, retain, Bool-cases, nat_eq_iff, ◌==◌,
  nat_has_eq, if◌then◌else◌,
}
use Prim.Native.Nat.{min}
use oshioki.Base.Int.{ℤ}
use oshioki.Server.Tables.{OutboxRow, Db, is_none, update_where, count_where}
use oshioki.Server.Rows.{count-retain}
use oshioki.Server.Outbox.{
  has_rowid, sent, is_notification, expire_stale_deliveries, mark_outbox_sent, pending_outbox_where,
  pending_verdicts, publish_items, verdict_tick, is_stale,
}

-- a row that the worker has still to publish
abbrev pub is_waiting : OutboxRow → Bool
is_waiting r = is_none r.sent_at && not (is_notification r)

abbrev pub backlog : Db → ℕ
backlog db = count_where is_waiting db.outbox

-- What the marks of a tick make of one row.
abbrev marked : (clock : ℤ) → List OutboxRow → OutboxRow → OutboxRow
marked clock [] r = r
marked clock (item ∷ items) r = marked clock items (if has_rowid item.id r then sent clock r else r)

update-map :
    (test : OutboxRow → Bool) (f : OutboxRow → OutboxRow) (rows : List OutboxRow)
    → update_where test f rows ≡ map (λ r. if test r then f r else r) rows
update-map test f [] = refl
update-map test f (r ∷ rows) = ground (arith, update-map test f rows)

map-map :
    (f g : OutboxRow → OutboxRow) (rows : List OutboxRow)
    → map f (map g rows) ≡ map (λ r. f (g r)) rows
map-map f g [] = refl
map-map f g (r ∷ rows) = ap (λ rs. f (g r) ∷ rs) (map-map f g rows)

map-same : (rows : List OutboxRow) → map (λ r. r) rows ≡ rows
map-same [] = refl
map-same (r ∷ rows) = ap (λ rs. r ∷ rs) (map-same rows)

publish-marked :
    (publish : OutboxRow → Bool) (clock : ℤ) (items : List OutboxRow) (db : Db)
    → ((r : OutboxRow) → publish r ≡ true)
    → (publish_items publish clock items db).outbox ≡ map (marked clock items) db.outbox
unfolding publish_items mark_outbox_sent
publish-marked publish clock [] db works = sym (map-same db.outbox)
publish-marked publish clock (item ∷ items) db works = rw (works item) (
    publish-marked publish clock items (mark_outbox_sent item.id clock db) works
    ∙ ap (map (marked clock items)) (update-map (has_rowid item.id) (sent clock) db.outbox)
    ∙ map-map (marked clock items) _ db.outbox)

is_listed : List OutboxRow → OutboxRow → Bool
is_listed items r = any (λ item. r.id == item.id) items

-- A row that is sent stays so.
marked-sent :
    (clock : ℤ) (items : List OutboxRow) (r : OutboxRow)
    → is_waiting r ≡ false
    → is_waiting (marked clock items r) ≡ false
marked-sent clock [] r h = h
marked-sent clock (item ∷ items) r h = elim (Bool-cases (has_rowid item.id r)) [
  | inl t ↦ rw (t, marked) (marked-sent clock items (sent clock r) refl)
  | inr u ↦ rw (u, marked) (marked-sent clock items r h)
]

marked-listed :
    (clock : ℤ) (items : List OutboxRow) (r : OutboxRow)
    → is_listed items r ≡ true
    → is_waiting (marked clock items r) ≡ false
unfolding is_listed
marked-listed clock [] r h = absurd (cc)
marked-listed clock (item ∷ items) r h = elim (Bool-cases (has_rowid item.id r)) [
  | inl t ↦ rw (t, marked) (marked-sent clock items (sent clock r) refl)
  | inr u ↦ rw (u, marked) (marked-listed clock items r (ground (arith, u, h)))
]

abbrev AllListed : List OutboxRow → List OutboxRow → Type 0
AllListed items = All (λ r. is_listed items r ≡ true)

weaken :
    (item : OutboxRow) (items rows : List OutboxRow)
    → AllListed items rows
    → AllListed (item ∷ items) rows
unfolding is_listed
weaken item items [] h = tt
weaken item items (r ∷ rows) (h, hs) = (ground (arith, h), weaken item items rows hs)

listed : (items : List OutboxRow) → AllListed items items
unfolding is_listed
listed [] = tt
listed (item ∷ items) =
    (ground (arith, nat_eq_iff item.id item.id), weaken item items items (listed items))

-- The first `n` waiting rows no longer wait, and no other has begun to.
drained :
    (clock : ℤ) (items : List OutboxRow) (n : ℕ) (rows : List OutboxRow)
    → AllListed items (take n (retain is_waiting rows))
    → count_where is_waiting (map (marked clock items) rows) + min n (count_where is_waiting rows)
      ≤ count_where is_waiting rows
drained clock items n [] h = omega arith
drained clock items zero (r ∷ rows) h = elim (Bool-cases (is_waiting r)) [
  | inr u ↦ ground (arith, u, marked-sent clock items r u, drained clock items zero rows tt)
  | inl t ↦ ground (arith, t, drained clock items zero rows tt)
]
drained clock items (suc n) (r ∷ rows) h = elim (Bool-cases (is_waiting r)) [
  | inr u ↦
      let h' : AllListed items (take (suc n) (retain is_waiting rows)) = rw u at h in
      ground (arith, u, marked-sent clock items r u, drained clock items (suc n) rows h')
  | inl t ↦
      let h' : AllListed items (r ∷ take n (retain is_waiting rows)) = rw t at h in
      ground (arith, t, marked-listed clock items r h'.0, drained clock items n rows h'.1)
]

verdict_tick-backlog :
    (publish : OutboxRow → Bool) (clock : ℤ) (db : Db)
    → ((r : OutboxRow) → publish r ≡ true)
    → backlog (verdict_tick publish clock db) ≤ backlog db - 32
unfolding verdict_tick expire_stale_deliveries pending_verdicts pending_outbox_where
verdict_tick-backlog publish clock db works =
    let live = expire_stale_deliveries clock db in
    let items = pending_verdicts 32 live in
    let after = ap (count_where is_waiting) (publish-marked publish clock items live works) in
    omega (
      arith,
      after,
      drained clock items 32 live.outbox (listed items),
      count-retain is_waiting (λ r. not (is_stale clock r)) db.outbox,
    )

-- The worker's ticks at these clock readings, with no call in between.
abbrev pub verdict_ticks : (publish : OutboxRow → Bool) → (clocks : List ℤ) → Db → Db
verdict_ticks publish [] db = db
verdict_ticks publish (clock ∷ clocks) db =
    verdict_ticks publish clocks (verdict_tick publish clock db)

-- While the transport takes every message and nothing is queued in between, a tick for each 32 waiting
-- rows leaves none of them waiting.
pub verdict_ticks_drain :
    (publish : OutboxRow → Bool) (clocks : List ℤ) (db : Db)
    → ((r : OutboxRow) → publish r ≡ true)
    → backlog db ≤ 32 * length clocks
    → backlog (verdict_ticks publish clocks db) ≡ 0
verdict_ticks_drain publish [] db works h = omega arith
verdict_ticks_drain publish (clock ∷ clocks) db works h =
    verdict_ticks_drain publish clocks (verdict_tick publish clock db) works
      (omega (arith, verdict_tick-backlog publish clock db works))
