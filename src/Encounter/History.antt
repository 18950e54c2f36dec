-- ===== src/Encounter/History.antt =====
-- Every stored row of an encounter is sound, and what it records stays
-- (examples/cf-game-audit/game/encounter/authority.ts).
use converge_audit.Prelude.{
  ◌+◌, ◌≤◌, ◌≡◌, refl, sym, ap, subst, ◌∙◌, ◌⊎◌, inl, inr, true, false, some, List, [], ◌∷◌, Memᴰ,
  arith, Bool-cases,
}
use converge_audit.Encounter.Records.{EncounterCommit, EncounterReveal, EncounterReceipt, LedgerRow}
use converge_audit.Encounter.Attempts.{Authority, Snapshot, held}
use converge_audit.Encounter.Settlement.{Platform}
use converge_audit.Encounter.World.{
  next_revision, Writes, commits, reveals, settles, admits, holds, forfeits, terminates, closes,
  retires, archives, relinquishes, Moves, writes, opens_case, closes_cases, Lives, issues, moves,
}
use converge_audit.Encounter.Shapes.{
  commit_shape, reveal_shape, settle_shape, settle_receipt_shape, admit_shape, admit_checked_shape,
  hold_shape, fence_shape, forfeit_shape, terminate_shape, closure_shape, retire_shape,
  custody_shape, relinquish_shape,
}
use converge_audit.Encounter.Sound.{RevealSound, IsSound, Grows, Grows-refl, Grows-trans}
use converge_audit.Encounter.Preserved.{
  commit-IsSound, reveal-IsSound, settle-IsSound, admit-IsSound, hold-IsSound, forfeit-IsSound,
  terminate-IsSound, release-IsSound, archive-IsSound, relinquish-IsSound,
}

-- A write keeps the row sound, what it has recorded and its revision, and closes retention only
-- where nothing is held.
pub record Keeps (s : Snapshot) (new : LedgerRow) : Type 0 where
  pub sound : IsSound new
  pub grows : Grows s.row new
  pub same_revision : new.revision ≡ s.row.revision
  pub closing :
      new.retention_released ≡ true → (s.row.retention_released ≡ true) ⊎ (s.cases ≡ false)

-- From the row that is written, made explicit.
Keeps-by :
    (s : Snapshot) (new made : LedgerRow)
    → new ≡ made
    → IsSound made × Grows s.row made
    → made.revision ≡ s.row.revision
    → (made.retention_released ≡ true → (s.row.retention_released ≡ true) ⊎ (s.cases ≡ false))
    → Keeps s new
Keeps-by s new made e p r c =
    subst (Keeps s) (sym e) (record { sound = p.0; grows = p.1; same_revision = r; closing = c })

held-parts : (s : Snapshot) → held s ≡ false → (s.row.evidence_hold ≡ false) × (s.cases ≡ false)
held-parts s h = ground arith

next_revision-IsSound : (row : LedgerRow) → IsSound row → IsSound (next_revision row)
next_revision-IsSound row h = record {
  commit_sound = h.commit_sound;
  reveal_sound = h.reveal_sound;
  receipt_sound = h.receipt_sound;
  phase_sound = h.phase_sound;
  retention_sound = h.retention_sound;
  assets_sound = h.assets_sound;
}

next_revision-Grows : (old new : LedgerRow) → Grows old new → Grows old (next_revision new)
next_revision-Grows old new g = record {
  ticket_stays = g.ticket_stays;
  secret_stays = g.secret_stays;
  commitment_stays = g.commitment_stays;
  committed_at_stays = g.committed_at_stays;
  reveal_stays = g.reveal_stays;
  receipt_stays = g.receipt_stays;
  termination_stays = g.termination_stays;
  release_stays = g.release_stays;
  assets_stay = g.assets_stay;
}

reveal_root :
    (row : LedgerRow) (r : EncounterReveal) (c : EncounterCommit)
    → IsSound row
    → row.reveal ≡ some r
    → row.commitment ≡ some c
    → c.root ≡ r.root
reveal_root row r c h e f =
    let (d, q, root, rest, late) =
      subst (RevealSound row.ticket row.secret row.commitment) e h.reveal_sound in
    let same : c ≡ d = cc in ap (λ (x : EncounterCommit). x.root) same ∙ sym root

module _ (authority : Authority) (platform : Platform) where
  Writes-Keeps :
      (past : List Snapshot) (s : Snapshot) (new : LedgerRow)
      → ((i : Snapshot) → Memᴰ i past → Grows i.row s.row)
      → IsSound s.row
      → Writes authority platform past s new
      → Keeps s new
  Writes-Keeps past s new older h (commits c now m checked e) =
      let (absent, f, lo, hi, made) = commit_shape authority s.row new c now e in
      Keeps-by s new _ made (commit-IsSound s.row h c now absent f lo hi) refl (λ y. inl y)
  Writes-Keeps past s new older h (reveals now e) =
      let (c, q, f, absent, le, made) = reveal_shape authority s.row new now e in
      Keeps-by s new _ made (reveal-IsSound s.row h authority c now q f absent le) refl (λ y. inl y)
  Writes-Keeps past s new older h (settles {i = i} {receipt = receipt} chunks now m made e) =
      let (r, c, state, q, f, final, le, time, shape) =
        settle_receipt_shape authority platform i.row chunks now receipt made in
      let (d, absent, phase, g, root, written) = settle_shape authority s.row new receipt e in
      let revealed_now = (older i m).reveal_stays r q in
      let committed_now = (older i m).commitment_stays c f in
      let root_now = reveal_root s.row r d h revealed_now g in
      let late : r.released_at ≤ receipt.statement.settled_at =
        subst (λ (x : EncounterReceipt). r.released_at ≤ x.statement.settled_at) (sym shape) le in
      Keeps-by s new _ written
        (settle-IsSound s.row h receipt r absent phase revealed_now (sym root ∙ root_now) late) refl
        (λ y. inl y)
  Writes-Keeps past s new older h (admits {i = i} l m checked e) =
      let (p, q, item) = admit_checked_shape authority i new l checked in
      let (free, made) = admit_shape authority s new l e in
      Keeps-by s new _ made
        (admit-IsSound s.row h l.asset_id p ((older i m).receipt_stays p q) item) refl (λ y. inl y)
  Writes-Keeps past s new older h (holds hold e) =
      let (open_still, made) = hold_shape authority s.row new hold e in
      Keeps-by s new _ made (hold-IsSound s.row h hold open_still) refl (λ y. inl y)
  Writes-Keeps past s new older h (forfeits e) =
      let (f, made) = forfeit_shape authority s.row new e in
      Keeps-by s new _ made (forfeit-IsSound s.row h f) refl (λ y. inl y)
  Writes-Keeps past s new older h (terminates reason now e) =
      let (absent, f, none_yet, made) = terminate_shape authority s.row new reason now e in
      Keeps-by s new _ made (terminate-IsSound s.row h _ absent none_yet) refl (λ y. inl y)
  Writes-Keeps past s new older h (closes expected next now e) =
      let (t, q, open_still, late, free, made) =
        closure_shape authority s new expected next now e in
      Keeps-by s new _ made (release-IsSound s.row h (held-parts s free).0 (inr (rw q refl))) refl
        (λ y. inr (held-parts s free).1)
  Writes-Keeps past s new older h (retires now e) =
      let (r, q, open_still, late, free, made) = retire_shape authority s new now e in
      Keeps-by s new _ made (release-IsSound s.row h (held-parts s free).0 (inl (rw q refl))) refl
        (λ y. inr (held-parts s free).1)
  Writes-Keeps past s new older h (archives a e) =
      Keeps-by s new _ (custody_shape authority s.row new a e) (archive-IsSound s.row h a) refl
        (λ y. inl y)
  Writes-Keeps past s new older h (relinquishes ticket termination generation now members e) =
      Keeps-by s new _ (relinquish_shape s new ticket termination generation now members e)
        (relinquish-IsSound s.row h) refl (λ y. inl y)

  -- An older snapshot has a lower revision, or it is the same row and no case has been opened
  -- since; and what it had recorded is recorded still.
  abbrev pub Older : Snapshot → Snapshot → Type 0
  Older s current =
      (s.row.revision ≤ current.row.revision)
      × (s.row.revision ≡ current.row.revision
          → (s.row ≡ current.row) × (current.cases ≡ true → s.cases ≡ true))
      × Grows s.row current.row

  pub record Good (current : Snapshot) (all : List Snapshot) : Type 0 where
    pub sound : IsSound current.row
    pub closed : current.row.retention_released ≡ true → current.cases ≡ false
    pub older : (s : Snapshot) → Memᴰ s all → Older s current

  self-Older : (s : Snapshot) → Older s s
  self-Older s = (omega arith, λ e. (refl, λ y. y), Grows-refl s.row)

  -- A later row with a higher revision is newer than every snapshot.
  raised :
      (current next : Snapshot) (s : Snapshot)
      → Older s current
      → Grows current.row next.row
      → next.row.revision ≡ current.row.revision + 1
      → Older s next
  raised current next s o g r = (
    omega (arith, o.0, r),
    λ e. absurd (omega (arith, o.0, r, e)),
    Grows-trans s.row current.row next.row o.2 g,
  )

  with_next :
      (next : Snapshot) (all : List Snapshot)
      → ((s : Snapshot) → Memᴰ s all → Older s next)
      → (s : Snapshot) → Memᴰ s (next ∷ all)
      → Older s next
  with_next next all k s (Memᴰ.head e) = subst (λ x. Older x next) (sym e) (self-Older next)
  with_next next all k s (Memᴰ.tail m) = k s m

  Good-next :
      (current next : Snapshot) (all : List Snapshot)
      → Good current all
      → IsSound next.row
      → Grows current.row next.row
      → next.row.revision ≡ current.row.revision + 1
      → (next.row.retention_released ≡ true → next.cases ≡ false)
      → Good next (next ∷ all)
  Good-next current next all g s w r c = record {
    sound = s;
    closed = c;
    older = with_next next all (λ x m. raised current next x (g.older x m) w r);
  }

  Moves-Good :
      (all : List Snapshot) (current next : Snapshot)
      → Good current all
      → Moves authority platform all all current next
      → Good next (next ∷ all)
  Moves-Good all current next g (writes {s = s} {new = new} m w rev safe e) =
      let (same, opened) = (g.older s m).1 rev in
      let k =
        Writes-Keeps all s new (λ i n. subst (Grows i.row) (sym same) (g.older i n).2)
          (subst IsSound (sym same) g.sound) w in
      let made : Snapshot = record { row = next_revision new; cases = current.cases } in
      subst (λ x. Good x (x ∷ all)) (sym e)
        (Good-next current made all g (next_revision-IsSound new k.sound)
          (next_revision-Grows current.row new (subst (λ r. Grows r new) same k.grows))
          (omega (arith, k.same_revision, rev)) (closed_next s same opened k.closing))
    where
      closed_next :
          (s : Snapshot)
          → s.row ≡ current.row
          → (current.cases ≡ true → s.cases ≡ true)
          → (new.retention_released ≡ true → (s.row.retention_released ≡ true) ⊎ (s.cases ≡ false))
          → new.retention_released ≡ true
          → current.cases ≡ false
      closed_next s same opened closing y = elim (closing y) [
        | inl z ↦ g.closed (ap (λ (r : LedgerRow). r.retention_released) (sym same) ∙ z)
        | inr z ↦ elim (Bool-cases current.cases) [
          | inl t ↦ let both : s.cases ≡ true = opened t in absurd (cc)
          | inr t ↦ t
        ]
      ]
  Moves-Good all current next g (opens_case {new = new} f safe e) =
      let (open_still, made) = fence_shape authority current.row new f in
      let next_one : Snapshot = record { row = next_revision new; cases = true } in
      let same_revision : new.revision ≡ current.row.revision =
        ap (λ (r : LedgerRow). r.revision) made in
      let unreleased : new.retention_released ≡ false =
        ap (λ (r : LedgerRow). r.retention_released) made ∙ open_still in
      subst (λ x. Good x (x ∷ all)) (sym e)
        (Good-next current next_one all g
          (next_revision-IsSound new (subst IsSound (sym made) g.sound))
          (next_revision-Grows current.row new
            (subst (Grows current.row) (sym made) (Grows-refl current.row)))
          (omega (arith, same_revision)) (λ y. absurd (cc)))
  Moves-Good all current next g (closes_cases e) =
      let quiet : Snapshot = record { row = current.row; cases = false } in
      subst (λ x. Good x (x ∷ all)) (sym e)
        (record {
          sound = g.sound;
          closed = λ y. refl;
          older =
              with_next quiet all
                (λ s m. let o = g.older s m in (o.0, λ r. ((o.1 r).0, λ y. absurd (cc)), o.2));
        })

  pub Lives-Good :
      (first : LedgerRow) (current : Snapshot) (past : List Snapshot)
      → IsSound first
      → first.retention_released ≡ false
      → Lives authority platform first (current ∷ past)
      → Good current (current ∷ past)
  Lives-Good first current [] h f issues = record {
    sound = h;
    closed = λ y. absurd (cc);
    older = with_next (record { row = first; cases = false }) [] (λ s m. elim m [ ]);
  }
  Lives-Good first next (current ∷ past) h f (moves life m) =
      Moves-Good (current ∷ past) current next (Lives-Good first current past h f life) m
