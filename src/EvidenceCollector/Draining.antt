-- ===== src/EvidenceCollector/Draining.antt =====
-- The turns of the outbox worker, one after the other.
use forensic_chain.Common.{
  ℕ, zero, suc, ◌-◌, ◌*◌, ◌≤◌, String, true, false, Option, none, some, List, [], ◌∷◌, ◌++◌, ◌≡◌,
  refl, sym, ◌∙◌, ap, arith, Bool-cases, inl, inr, All, length, if◌then◌else◌,
}
use forensic_chain.EvidenceCollector.Records.{OutboxEvent}
use forensic_chain.EvidenceCollector.Outbox.{Turn, attempt, publish, publish_outbox_events, poll}

abbrev pub Exchange : Type 0
Exchange = OutboxEvent → Option String

-- The number of events that wait.
abbrev pub waiting : List OutboxEvent → ℕ
waiting [] = 0
waiting (e ∷ es) = if e.published then waiting es else suc (waiting es)

abbrev pub IsReliable : Exchange → Type 0
IsReliable exchange = (e : OutboxEvent) → exchange e ≡ none

attempt_reliable :
    (exchange : Exchange) (e : OutboxEvent)
    → IsReliable exchange
    → (attempt exchange e).published ≡ true
unfolding attempt
attempt_reliable exchange e h = rw (attempt, h e) refl

waiting-publish :
    (exchange : Exchange) (n : ℕ) (es : List OutboxEvent)
    → IsReliable exchange
    → waiting (publish exchange n es) ≡ waiting es - n
unfolding publish
waiting-publish exchange n [] h = omega arith
waiting-publish exchange zero (e ∷ es) h = omega arith
waiting-publish exchange (suc n) (e ∷ es) h = elim (Bool-cases e.published) [
  | inl t ↦ rw t (ground (arith, t, waiting-publish exchange (suc n) es h))
  | inr f ↦ rw f (ground (arith, attempt_reliable exchange e h, waiting-publish exchange n es h))
]

-- The turns that are not rolled back.
unfoldable pub completed : List Turn → ℕ
completed [] = 0
completed ((exchange, none) ∷ turns) = suc (completed turns)
completed ((exchange, some message) ∷ turns) = completed turns

-- With a broker that takes every event, turns empty the outbox as soon as there is one that the
-- database does not roll back for each ten events that wait.
pub poll_drains :
    (turns : List Turn) (es : List OutboxEvent)
    → All (λ t. IsReliable t.0) turns
    → waiting es ≤ 10 * completed turns
    → waiting (poll turns es) ≡ 0
unfolding poll publish_outbox_events completed
poll_drains [] es h enough = omega (arith, enough)
poll_drains ((exchange, some message) ∷ turns) es h enough = poll_drains turns es h.1 enough
poll_drains ((exchange, none) ∷ turns) es h enough =
    poll_drains turns (publish exchange 10 es) h.1
      (omega (arith, enough, waiting-publish exchange 10 es h.0))

-- An event of the routing key `key` that waits.
abbrev pub IsWaiting : String → OutboxEvent → Type 0
IsWaiting key e = (e.published ≡ false) × (e.routing_key ≡ key)

-- The exchange raises on every event of the key.
abbrev pub Refuses : String → Exchange → Type 0
Refuses key exchange =
    (e : OutboxEvent) → e.routing_key ≡ key → (message : String) × (exchange e ≡ some message)

attempt-IsWaiting :
    (key : String) (exchange : Exchange) (e : OutboxEvent)
    → Refuses key exchange
    → IsWaiting key e
    → IsWaiting key (attempt exchange e)
unfolding attempt
attempt-IsWaiting key exchange e refuses (off, k) =
    let (m, bad) = refuses e k in rw (attempt, bad) (off, k)

-- Events that are refused use up the limit.
publish_refused :
    (key : String) (exchange : Exchange) (bad rest : List OutboxEvent)
    → Refuses key exchange
    → All (IsWaiting key) bad
    → (retried : List OutboxEvent) × All (IsWaiting key) retried
      × (length retried ≡ length bad)
      × (publish exchange (length bad) (bad ++ rest) ≡ retried ++ rest)
unfolding publish
publish_refused key exchange [] [] refuses h = ([], tt, refl, refl)
publish_refused key exchange [] (r ∷ rest) refuses h = ([], tt, refl, refl)
publish_refused key exchange (e ∷ bad) rest refuses h =
    let (retried, all, n, same) = publish_refused key exchange bad rest refuses h.1 in
    (
      attempt exchange e ∷ retried,
      (attempt-IsWaiting key exchange e refuses h.0, all),
      ap suc n,
      ap
            (λ b.
              if b
              then e ∷ publish exchange (suc (length bad)) (bad ++ rest)
              else attempt exchange e ∷ publish exchange (length bad) (bad ++ rest))
            h.0.0
          ∙ ap (◌∷◌ (attempt exchange e)) same,
    )

-- When the broker keeps refusing one routing key, ten waiting events of it that come first hold up
-- all others: after any number of turns these stand as they were, and the ten are still tried.
pub poll_blocked :
    (key : String) (turns : List Turn) (bad rest : List OutboxEvent)
    → All (λ t. Refuses key t.0) turns
    → All (IsWaiting key) bad
    → length bad ≡ 10
    → (retried : List OutboxEvent) × All (IsWaiting key) retried
      × (length retried ≡ 10)
      × (poll turns (bad ++ rest) ≡ retried ++ rest)
unfolding poll publish_outbox_events
poll_blocked key [] bad rest refuses h n = (bad, h, n, refl)
poll_blocked key ((exchange, some message) ∷ turns) bad rest refuses h n =
    poll_blocked key turns bad rest refuses.1 h n
poll_blocked key ((exchange, none) ∷ turns) bad rest refuses h n =
    let (once, all, m, same) = publish_refused key exchange bad rest refuses.0 h in
    let (retried, all', k, later) = poll_blocked key turns once rest refuses.1 all (m ∙ n) in
    (
      retried,
      all',
      k,
      ap (λ l. poll turns (publish exchange l (bad ++ rest))) (sym n)
          ∙ ap (poll turns) same
          ∙ later,
    )
