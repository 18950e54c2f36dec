-- ===== src/Encounter/Sealing.antt =====
-- An encounter through the sealing of its generation and after it
-- (examples/cf-game-audit/game/encounter/generation-store.ts, recovery-store.ts and authority.ts).
use converge_audit.Prelude.{
  ◌+◌, ◌≤◌, ◌≡◌, refl, sym, ap, subst, ◌∙◌, inl, inr, true, false, none, List, [], ◌∷◌, ◌++◌, Memᴰ,
  mem-append-cases, arith,
}
use converge_audit.Prelude.Text.{Text}
use converge_audit.Encounter.Records.{LedgerRow}
use converge_audit.Encounter.Attempts.{Authority, Snapshot}
use converge_audit.Encounter.Settlement.{Platform}
use converge_audit.Encounter.World.{
  Moves, writes, opens_case, closes_cases, Lasts, unsealed, seals, lasts, sealed,
}
use converge_audit.Encounter.Shapes.{fence_shape}
use converge_audit.Encounter.Sound.{IsSound, Grows, Persists, Lasting}
use converge_audit.Encounter.History.{Good, Lives-Good}
use converge_audit.Encounter.Origins.{
  FromOrigin, IsEnded, closed-parts, closed-IsEnded, origin-FromOrigin, next-FromOrigin,
  Writes-Follows, row_at_end,
}
use converge_audit.Encounter.Closing.{closed}

-- A snapshot since the sealing: it comes from the sealed row, no case is open, it has a lower
-- revision than the current one or is the same row, and its assets are on the market still.
pub record Since (h : LedgerRow) (current s : Snapshot) : Type 0 where
  pub quiet : s.cases ≡ false
  pub from : FromOrigin h s.row
  pub earlier : s.row.revision ≤ current.row.revision
  pub same : s.row.revision ≡ current.row.revision → s.row ≡ current.row
  pub assets_kept : (a : Text) → Memᴰ a s.row.admitted_assets → Memᴰ a current.row.admitted_assets

Since-refl : (h : LedgerRow) (s : Snapshot) → s.cases ≡ false → FromOrigin h s.row → Since h s s
Since-refl h s q o = record {
  quiet = q;
  from = o;
  earlier = omega arith;
  same = λ e. refl;
  assets_kept = λ a m. m;
}

-- What holds since the sealing of the row `h`.
pub record AfterSeal (h : LedgerRow) (since before : List Snapshot) (current : Snapshot)
    : Type 0 where
  pub ended : IsEnded h
  pub now : Since h current current
  pub each : (s : Snapshot) → Memᴰ s since → Since h current s
  pub grown : (s : Snapshot) → Memᴰ s before → Grows s.row h

abbrev pub Kept :
    (authority : Authority) (platform : Platform)
    → Snapshot
    → List Snapshot
    → List Snapshot
    → Type 0
Kept authority platform current [] before = Good authority platform current before
Kept authority platform current (s ∷ since) before =
    (h : LedgerRow) × AfterSeal h (s ∷ since) before current

module _ (authority : Authority) (platform : Platform) (h : LedgerRow)
    (since before : List Snapshot) (current next : Snapshot) where
  stays-receipt :
      AfterSeal h (current ∷ since) before current
      → (i : Snapshot) → Memᴰ i (current ∷ since ++ before)
      → Persists i.row.receipt h.receipt
  stays-receipt k i m = elim (mem-append-cases (current ∷ since) before m) [
    | inl n ↦ λ p q. sym (k.each i n).from.receipt_same ∙ q
    | inr n ↦ (k.grown i n).receipt_stays
  ]

  -- The next snapshot has the same row, or a higher revision.
  followed :
      AfterSeal h (current ∷ since) before current
      → next.cases ≡ false
      → FromOrigin h next.row
      → current.row.revision ≤ next.row.revision
      → ((s : Snapshot)
          → s.row.revision ≤ current.row.revision
          → s.row.revision ≡ next.row.revision
          → s.row.revision ≡ current.row.revision × (next.row ≡ current.row))
      → ((a : Text) → Memᴰ a current.row.admitted_assets → Memᴰ a next.row.admitted_assets)
      → AfterSeal h (next ∷ current ∷ since) before next
  followed k quiet from up same kept = record {
    ended = k.ended;
    now = Since-refl h next quiet from;
    each = λ s m. one s m;
    grown = k.grown;
  }
    where
      later : (s : Snapshot) → Since h current s → Since h next s
      later s o = record {
        quiet = o.quiet;
        from = o.from;
        earlier = let a = o.earlier in omega (arith, a, up);
        same = λ e. let r = same s o.earlier e in o.same r.0 ∙ sym r.1;
        assets_kept = λ a m. kept a (o.assets_kept a m);
      }

      one : (s : Snapshot) → Memᴰ s (next ∷ current ∷ since) → Since h next s
      one s (Memᴰ.head e) = subst (Since h next) (sym e) (Since-refl h next quiet from)
      one s (Memᴰ.tail m) = later s (k.each s m)

  Moves-AfterSeal :
      AfterSeal h (current ∷ since) before current
      → Moves authority platform (current ∷ since) (current ∷ since ++ before) current next
      → AfterSeal h (next ∷ current ∷ since) before next
  Moves-AfterSeal k (writes {s = s} {new = new} m w rev safe e) =
      let o = k.each s m in
      let f =
        Writes-Follows authority platform h k.ended (current ∷ since ++ before) s new
          (stays-receipt k) o.from w in
      let same = o.same rev in
      let revision : next.row.revision ≡ current.row.revision + 1 =
        ap (λ (x : Snapshot). x.row.revision) e ∙ ap (λ n. n + 1) (f.same_revision ∙ rev) in
      followed k (ap (λ (x : Snapshot). x.cases) e ∙ k.now.quiet)
        (subst (λ (x : Snapshot). FromOrigin h x.row) (sym e) (next-FromOrigin h new f.from))
        (omega (arith, revision)) (λ t le q. absurd (omega (arith, le, q, revision)))
        (λ a n.
          subst (λ (x : Snapshot). Memᴰ a x.row.admitted_assets) (sym e)
            (f.assets_kept a (subst (λ (x : LedgerRow). Memᴰ a x.admitted_assets) (sym same) n)))
  Moves-AfterSeal k (opens_case {new = new} w safe e) =
      let f = (fence_shape authority current.row new w).0 in
      let t = k.now.from.released in absurd (cc)
  Moves-AfterSeal k (closes_cases e) =
      let row : next.row ≡ current.row = ap (λ (x : Snapshot). x.row) e in
      let revision : next.row.revision ≡ current.row.revision =
        ap (λ (x : LedgerRow). x.revision) row in
      followed k (ap (λ (x : Snapshot). x.cases) e) (subst (FromOrigin h) (sym row) k.now.from)
        (omega (arith, revision)) (λ t le q. (q ∙ revision, row))
        (λ a n. subst (λ (x : LedgerRow). Memᴰ a x.admitted_assets) (sym row) n)

module _ (authority : Authority) (platform : Platform) (first : LedgerRow) where
  pub Lasts-Kept :
      (current : Snapshot) (since before : List Snapshot)
      → IsSound first
      → first.retention_released ≡ false
      → Lasts authority platform first current since before
      → Kept authority platform current since before
  Lasts-Kept current [] before h f (unsealed {past = past} life) =
      Lives-Good authority platform first current past h f life
  Lasts-Kept _ since before h f (seals {current = hot} life e members kept) =
      let g = Lasts-Kept hot [] before h f life in
      let (released, hold, quiet, ends) = closed-parts hot e in
      let at_origin =
        Since-refl hot.row (sealed authority platform hot) quiet
          (origin-FromOrigin hot g.sound e) in
      (
        hot.row,
        record {
          ended = closed-IsEnded hot g.sound e;
          now = at_origin;
          each = λ s m. only hot at_origin s m;
          grown = λ s m. (g.older s m).2;
        },
      )
    where
      only :
          (hot : Snapshot)
          → Since hot.row (sealed authority platform hot) (sealed authority platform hot)
          → (s : Snapshot) → Memᴰ s (sealed authority platform hot ∷ [])
          → Since hot.row (sealed authority platform hot) s
      only hot o s (Memᴰ.head e) = subst (Since hot.row (sealed authority platform hot)) (sym e) o
      only hot o s (Memᴰ.tail m) = elim m [ ]
  Lasts-Kept next since before h f (lasts {current = current} {since = rest} life m) =
      let (o, k) = Lasts-Kept current (current ∷ rest) before h f life in
      (o, Moves-AfterSeal authority platform o rest before current next k m)

Grows-Lasting : (old new : LedgerRow) → Grows old new → Lasting old new
Grows-Lasting old new g = record {
  ticket_stays = g.ticket_stays;
  commitment_stays = g.commitment_stays;
  committed_at_stays = g.committed_at_stays;
  receipt_stays = g.receipt_stays;
  termination_stays = g.termination_stays;
  release_stays = g.release_stays;
  assets_stay = g.assets_stay;
}

Lasting-trans : (a b c : LedgerRow) → Lasting a b → Lasting b c → Lasting a c
Lasting-trans a b c g h = record {
  ticket_stays = h.ticket_stays ∙ g.ticket_stays;
  commitment_stays = λ x e. h.commitment_stays x (g.commitment_stays x e);
  committed_at_stays = λ x e. h.committed_at_stays x (g.committed_at_stays x e);
  receipt_stays = λ x e. h.receipt_stays x (g.receipt_stays x e);
  termination_stays = λ x e. h.termination_stays x (g.termination_stays x e);
  release_stays = λ e. h.release_stays (g.release_stays e);
  assets_stay = λ x m. h.assets_stay x (g.assets_stay x m);
}

FromOrigin-Lasting : (h row : LedgerRow) → FromOrigin h row → Lasting h row
FromOrigin-Lasting h row o = record {
  ticket_stays = o.ticket_same;
  commitment_stays = λ x e. o.commitment_same ∙ e;
  committed_at_stays = λ x e. o.committed_at_same ∙ e;
  receipt_stays = λ x e. o.receipt_same ∙ e;
  termination_stays = λ x e. o.termination_same ∙ e;
  release_stays = λ e. o.released;
  assets_stay = o.assets_stay;
}

Since-Lasting :
    (h : LedgerRow) (current s : Snapshot)
    → Since h current current
    → Since h current s
    → Lasting s.row current.row
Since-Lasting h current s now o = record {
  ticket_stays = now.from.ticket_same ∙ sym o.from.ticket_same;
  commitment_stays = λ x e. now.from.commitment_same ∙ sym o.from.commitment_same ∙ e;
  committed_at_stays = λ x e. now.from.committed_at_same ∙ sym o.from.committed_at_same ∙ e;
  receipt_stays = λ x e. now.from.receipt_same ∙ sym o.from.receipt_same ∙ e;
  termination_stays = λ x e. now.from.termination_same ∙ sym o.from.termination_same ∙ e;
  release_stays = λ e. now.from.released;
  assets_stay = o.assets_kept;
}

-- What a later row still records of an older one: all of it until the generation is sealed; from
-- then on all but the secret, its reveal and the custody, which are gone.
abbrev pub RowRecords : List Snapshot → LedgerRow → LedgerRow → Type 0
RowRecords [] old new = Grows old new
RowRecords (s ∷ since) old new = Lasting old new × (new.secret ≡ []) × (new.reveal ≡ none)

module _ (authority : Authority) (platform : Platform) where
  pub Kept-RowRecords :
      (current : Snapshot) (since before : List Snapshot) (s : Snapshot)
      → Kept authority platform current since before
      → Memᴰ s (since ++ before)
      → RowRecords since s.row current.row
  Kept-RowRecords current [] before s g m = (g.older s m).2
  Kept-RowRecords current (t ∷ since) before s (h, k) m =
      (lasting, k.now.from.erased, k.now.from.no_reveal)
    where
      lasting : Lasting s.row current.row
      lasting = elim (mem-append-cases (t ∷ since) before m) [
        | inl n ↦ Since-Lasting h current s k.now (k.each s n)
        | inr n ↦
            Lasting-trans s.row h current.row (Grows-Lasting s.row h (k.grown s n))
              (FromOrigin-Lasting h current.row k.now.from)
      ]

pub origin-closed : (h : LedgerRow) (s : Snapshot) → IsEnded h → Since h s s → closed s ≡ true
unfolding closed
origin-closed h s e o =
    let a = o.quiet in
    let b = o.from.no_hold in
    let c = o.from.released in
    elim (row_at_end h s.row o.from e) [
      | inl (p, t) ↦ ground (arith, a, b, c, p, t)
      | inr (p, r, q) ↦ ground (arith, a, b, c, p, r)
    ]
