-- ===== src/Encounter/Guarantees.antt =====
-- What holds of an encounter whatever its host, its player and its concurrent rounds do
-- (examples/cf-game-audit/game/encounter/authority.ts).
use converge_audit.Prelude.{
  if◌then◌else◌, ℕ, ◌+◌, ◌≤◌, ◌<◌, ◌≡◌, refl, sym, ap, subst, ◌⊎◌, inl, inr, true, false, none,
  some, List, ◌∷◌, Memᴰ, arith, Option-cases, ok,
}
use converge_audit.Prelude.Text.{Text, text_eq_iff}
use converge_audit.Encounter.Records.{
  EncounterAuthorization, EncounterTicket, EncounterCommit, EncounterReveal, EncounterReceipt,
  EncounterTermination, Phase, issued, committed, revealed, settled, forfeited, abandoned,
  LedgerRow,
}
use converge_audit.Encounter.Attempts.{
  Authority, Snapshot, keep, write, held, is_some, has_item, is_forfeited, is_settled,
}
use converge_audit.Encounter.Closing.{
  closed, terminate_attempt, signed_termination, termination_statement, latest, termination_allowed,
}
use converge_audit.Encounter.Issue.{IssueContext, issue_attempt, issued_row}
use converge_audit.Encounter.Wire.{is_time}
use converge_audit.Encounter.Settlement.{Platform}
use converge_audit.Encounter.World.{Lives, Lasts}
use converge_audit.Encounter.Sound.{CommitSound, RevealSound, ReceiptSound, PhaseSound, IsSound}
use converge_audit.Encounter.History.{Good, Lives-Good}
use converge_audit.Encounter.Sealing.{Kept, origin-closed, Lasts-Kept}

issue_shape :
    (authority : Authority) (a : EncounterAuthorization) (x : IssueContext) (first : LedgerRow)
    (ticket : EncounterTicket)
    → issue_attempt authority a none x ≡ ok (write first ticket)
    → first ≡ issued_row authority a x
unfolding issue_attempt
issue_shape authority a x first ticket h = ground arith

issued_row-IsSound :
    (authority : Authority) (a : EncounterAuthorization) (x : IssueContext)
    → IsSound (issued_row authority a x)
issued_row-IsSound authority a x = record {
  commit_sound = refl;
  reveal_sound = tt;
  receipt_sound = tt;
  phase_sound = (refl, refl, refl, refl);
  retention_sound = λ y. absurd (cc);
  assets_sound = λ t m. elim m [ ];
}

-- Every world of an encounter that was issued is good.
pub reached-Good :
    (authority : Authority) (platform : Platform) (a : EncounterAuthorization) (x : IssueContext)
    (first : LedgerRow) (ticket : EncounterTicket) (current : Snapshot) (past : List Snapshot)
    → issue_attempt authority a none x ≡ ok (write first ticket)
    → Lives authority platform first (current ∷ past)
    → Good authority platform current (current ∷ past)
reached-Good authority platform a x first ticket current past e life =
    let made = issue_shape authority a x first ticket e in
    Lives-Good authority platform first current past
      (subst IsSound (sym made) (issued_row-IsSound authority a x))
      (ap (λ (r : LedgerRow). r.retention_released) made) life

-- After any interleaving of the rounds of an encounter that was issued, until its generation is sealed, a revealed seed is the
-- secret of the row, it was revealed for the committed root, the commitment was made in the window
-- of the ticket, at or after its start and before the release time, and the seed was released at or
-- after the release time.
pub commit_before_reveal :
    (authority : Authority) (platform : Platform) (a : EncounterAuthorization) (x : IssueContext)
    (first : LedgerRow) (ticket : EncounterTicket) (current : Snapshot) (past : List Snapshot)
    (r : EncounterReveal)
    → issue_attempt authority a none x ≡ ok (write first ticket)
    → Lives authority platform first (current ∷ past)
    → current.row.reveal ≡ some r
    → (c : EncounterCommit) × (n : ℕ) × (current.row.commitment ≡ some c)
      × (current.row.committed_at ≡ some n)
      × (r.root ≡ c.root)
      × (r.seed ≡ current.row.secret)
      × (current.row.ticket.commit_not_before ≤ n)
      × (n < current.row.ticket.release_at)
      × (current.row.ticket.release_at ≤ r.released_at)
commit_before_reveal authority platform a x first ticket current past r e life q =
    let g = reached-Good authority platform a x first ticket current past e life in
    let (c, f, root, seed, late) =
      subst (RevealSound current.row.ticket current.row.secret current.row.commitment) q
        g.sound.reveal_sound in
    let (n, at_time, lo, hi) =
      subst (λ m. CommitSound current.row.ticket m current.row.committed_at) f
        g.sound.commit_sound in
    (c, n, f, at_time, root, seed, lo, hi, late)

reached-Kept :
    (authority : Authority) (platform : Platform) (a : EncounterAuthorization) (x : IssueContext)
    (first : LedgerRow) (ticket : EncounterTicket) (current : Snapshot)
    (since before : List Snapshot)
    → issue_attempt authority a none x ≡ ok (write first ticket)
    → Lasts authority platform first current since before
    → Kept authority platform current since before
reached-Kept authority platform a x first ticket current since before e life =
    let made = issue_shape authority a x first ticket e in
    Lasts-Kept authority platform first current since before
      (subst IsSound (sym made) (issued_row-IsSound authority a x))
      (ap (λ (r : LedgerRow). r.retention_released) made) life

-- Whatever rounds an encounter that was issued still sees after its generation was sealed, its row, while there is one,
-- stays as sealing asked for it: its retention is closed, nothing is held, and it is settled with a
-- receipt or forfeited with a termination.
pub sealed_stays_closed :
    (authority : Authority) (platform : Platform) (a : EncounterAuthorization) (x : IssueContext)
    (first : LedgerRow) (ticket : EncounterTicket) (current s : Snapshot)
    (since before : List Snapshot)
    → issue_attempt authority a none x ≡ ok (write first ticket)
    → Lasts authority platform first current (s ∷ since) before
    → closed current ≡ true
sealed_stays_closed authority platform a x first ticket current s since before e life =
    let (h, k) =
      reached-Kept authority platform a x first ticket current (s ∷ since) before e life in
    origin-closed h current k.ended k.now

no_both :
    (row : LedgerRow) (r : EncounterReceipt) (t : EncounterTermination)
    → IsSound row
    → row.receipt ≡ some r
    → row.termination ≡ some t
    → ⊥
no_both row r t h e f = by_phase row.phase h.phase_sound
  where
    by_phase : (p : Phase) → PhaseSound row.commitment row.reveal row.receipt row.termination p → ⊥
    by_phase issued (a, b, c, d) = cc
    by_phase committed (a, b, c, d) = cc
    by_phase revealed (a, b, c) = cc
    by_phase settled (a, b) = cc
    by_phase forfeited a = cc

-- After any interleaving of the rounds of an encounter that was issued, until its generation is sealed, no snapshot has a receipt
-- if any has a termination, at whatever times the two were recorded.
pub outcomes_exclusive :
    (authority : Authority) (platform : Platform) (a : EncounterAuthorization) (x : IssueContext)
    (first : LedgerRow) (ticket : EncounterTicket) (current : Snapshot) (past : List Snapshot)
    (s t : Snapshot) (end : EncounterTermination)
    → issue_attempt authority a none x ≡ ok (write first ticket)
    → Lives authority platform first (current ∷ past)
    → Memᴰ s (current ∷ past)
    → Memᴰ t (current ∷ past)
    → t.row.termination ≡ some end
    → s.row.receipt ≡ none
outcomes_exclusive authority platform a x first ticket current past s t end e life m n q =
    let g = reached-Good authority platform a x first ticket current past e life in
    elim (Option-cases s.row.receipt) [
      | inl f ↦ f
      | inr (r, f) ↦ absurd (
          no_both current.row r end g.sound ((g.older s m).2.receipt_stays r f)
            ((g.older t n).2.termination_stays end q))
    ]

-- After any interleaving of the rounds of an encounter that was issued, until its generation is sealed, once a snapshot has closed
-- its retention, retention is closed for good, no hold is set and no case is open, then or later,
-- and the encounter has a receipt or a termination.
pub closed_retention_final :
    (authority : Authority) (platform : Platform) (a : EncounterAuthorization) (x : IssueContext)
    (first : LedgerRow) (ticket : EncounterTicket) (current : Snapshot) (past : List Snapshot)
    (s : Snapshot)
    → issue_attempt authority a none x ≡ ok (write first ticket)
    → Lives authority platform first (current ∷ past)
    → Memᴰ s (current ∷ past)
    → s.row.retention_released ≡ true
    → (current.row.retention_released ≡ true)
      × (held current ≡ false)
      × ((is_some current.row.receipt ≡ true) ⊎ (is_some current.row.termination ≡ true))
closed_retention_final authority platform a x first ticket current past s e life m q =
    let g = reached-Good authority platform a x first ticket current past e life in
    let closed = (g.older s m).2.release_stays q in
    let (free, outcome) = g.sound.retention_sound closed in
    let quiet = g.closed closed in (closed, ground (arith, free, quiet), outcome)

-- After any interleaving of the rounds of an encounter that was issued, until its generation is sealed, an asset admitted to the
-- market is an item of the receipt, and the receipt settles the root for which the seed was revealed.
pub market_assets_settled :
    (authority : Authority) (platform : Platform) (a : EncounterAuthorization) (x : IssueContext)
    (first : LedgerRow) (ticket : EncounterTicket) (current : Snapshot) (past : List Snapshot)
    (asset : Text)
    → issue_attempt authority a none x ≡ ok (write first ticket)
    → Lives authority platform first (current ∷ past)
    → Memᴰ asset current.row.admitted_assets
    → (p : EncounterReceipt) × (r : EncounterReveal) × (current.row.receipt ≡ some p)
      × (current.row.reveal ≡ some r)
      × (has_item asset p.statement.items ≡ true)
      × (p.statement.root ≡ r.root)
      × (r.released_at ≤ p.statement.settled_at)
market_assets_settled authority platform a x first ticket current past asset e life m =
    let g = reached-Good authority platform a x first ticket current past e life in
    let (p, f, item) = g.sound.assets_sound asset m in
    let (r, q, root, late) = subst (ReceiptSound current.row.reveal) f g.sound.receipt_sound in
    (p, r, f, q, item, root, late)

abandoned_either : (p : Phase) → (if is_forfeited p then abandoned else abandoned) ≡ abandoned
abandoned_either p = ground arith

-- A row can always be brought to an end: at a clock that is not before the issue or the latest
-- event of the row and leaves room for the retention, a row of the authority whose release time is a
-- time, and that is neither settled nor has a receipt, is answered with the termination that it has,
-- or, where it has none, is written forfeited and otherwise the same, with a termination of its
-- ticket as abandoned at that clock, which is the answer.
pub abandon_terminates :
    (authority : Authority) (row : LedgerRow) (now : ℕ)
    → row.ticket.authority_key ≡ authority.public_key
    → row.receipt ≡ none
    → is_settled row.phase ≡ false
    → is_time row.ticket.release_at ≡ true
    → is_time (now + authority.retention_ms) ≡ true
    → row.ticket.issued_at ≤ now
    → latest row ≤ now
    → (t : EncounterTermination) × (((row.termination ≡ some t)
          × (terminate_attempt authority abandoned now row ≡ ok (keep t)))
        ⊎ ((row.termination ≡ none)
            × (terminate_attempt authority abandoned now row
                ≡ ok (write (record row { phase = forfeited; termination = some t }) t))
            × (t.statement.reason ≡ abandoned)
            × (t.statement.ticket_id ≡ row.ticket.ticket_id)
            × (t.statement.terminated_at ≡ now)))
unfolding terminate_attempt termination_allowed
abandon_terminates authority row now key f p deadline room issue late =
    let known_key = (text_eq_iff row.ticket.authority_key authority.public_key).1 key in
    let absent : is_some row.receipt ≡ false = ap is_some f in
    elim (Option-cases row.termination) [
      | inl e ↦ (
        signed_termination authority (termination_statement authority abandoned now row),
        inr (e, ground (arith, e, known_key, absent), abandoned_either row.phase, refl, refl),
      )
      | inr (t, e) ↦ (t, inl (e, ground (arith, e, known_key, absent)))
    ]
