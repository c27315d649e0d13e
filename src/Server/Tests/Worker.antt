-- ===== src/Server/Tests/Worker.antt =====
-- Ticks of the worker on a store with two rows to publish.
use oshioki.Base.{◌≡◌, refl, true, none, some, [], ◌∷◌, arith}
use oshioki.Base.Int.{pos}
use oshioki.Server.Tables.{OutboxRow, Db, decision, delivery, ntfy, new_row}
use oshioki.Server.Outbox.{
  mark_outbox_sent, expire_stale_deliveries, pending_outbox_where, pending_verdicts, publish_items,
  verdict_tick,
}
use oshioki.Server.Calls.{empty_db}
use oshioki.Server.Draining.{backlog, verdict_ticks, verdict_ticks_drain}

abbrev first : OutboxRow
first = new_row [] decision "req-1" "oshioki.verdict.req-1" (1 ∷ []) (pos 900) none

abbrev busy : Db
busy = record empty_db {
  outbox =
      first
      ∷ new_row (first ∷ []) delivery "req-2" "oshioki.delivery.req-2" [] (pos 900) (some (pos 950))
      ∷ record (new_row (first ∷ []) ntfy "req-1" "https://a.b" [] (pos 900) none) { id = 3 }
      ∷ [];
}

-- The receipt is stale at the first tick; the notification is not the worker's.
ticks :
    (backlog busy ≡ 2)
    × ((verdict_tick (λ r. true) (pos 1000) busy).outbox
        ≡ record first { sent_at = some (pos 1000); attempts = 1 }
          ∷ record (new_row (first ∷ []) ntfy "req-1" "https://a.b" [] (pos 900) none) { id = 3 }
          ∷ [])
unfolding verdict_tick expire_stale_deliveries pending_verdicts pending_outbox_where publish_items
    mark_outbox_sent
ticks = (refl, refl)

verdict_ticks_drain_example : backlog (verdict_ticks (λ r. true) (pos 1000 ∷ []) busy) ≡ 0
verdict_ticks_drain_example =
    verdict_ticks_drain (λ r. true) (pos 1000 ∷ []) busy (λ r. refl) (omega arith)
