-- ===== src/Encounter/Origins.antt =====
-- What becomes of the row of an encounter after its generation is sealed
-- (examples/cf-game-audit/game/encounter/generation-store.ts, recovery-store.ts and authority.ts).
use converge_audit.Prelude.{
  ◌≡◌, refl, sym, ap, subst, ◌∙◌, ◌⊎◌, inl, inr, true, false, ◌&&◌, none, List, [], ◌∷◌, ◌++◌, Memᴰ,
  mem-append_left, mem-append-cases, arith, Bool-cases, Option-cases,
}
use converge_audit.Prelude.Text.{Text}
use converge_audit.Encounter.Records.{
  Phase, issued, committed, revealed, settled, forfeited, LedgerRow,
}
use converge_audit.Encounter.Wire.{is_digest}
use converge_audit.Encounter.Attempts.{
  Authority, Snapshot, is_some, is_forfeited, is_settled, is_revealed,
}
use converge_audit.Encounter.Closing.{closed, origin}
use converge_audit.Encounter.Settlement.{Platform}
use converge_audit.Encounter.World.{
  next_revision, Writes, commits, reveals, settles, admits, holds, forfeits, terminates, closes,
  retires, archives, relinquishes,
}
use converge_audit.Encounter.Shapes.{
  commit_shape, reveal_secret, settle_shape, admit_shape, admit_checked_shape, hold_shape,
  forfeit_shape, forfeit_open, terminate_shape, closure_shape, retire_shape, custody_secret,
  relinquish_shape,
}
use converge_audit.Encounter.Sound.{IsSound, Persists, AssetSound, RevealSound, ReceiptSound}

-- The row comes from a row that was sealed: all of its record is there, but its secret, its reveal
-- and its custody, retention is closed, and the market has items of the receipt only.
pub record FromOrigin (h row : LedgerRow) : Type 0 where
  pub ticket_same : row.ticket ≡ h.ticket
  pub commitment_same : row.commitment ≡ h.commitment
  pub committed_at_same : row.committed_at ≡ h.committed_at
  pub phase_same : row.phase ≡ h.phase
  pub receipt_same : row.receipt ≡ h.receipt
  pub termination_same : row.termination ≡ h.termination
  pub erased : row.secret ≡ []
  pub no_reveal : row.reveal ≡ none
  pub no_hold : row.evidence_hold ≡ false
  pub released : row.retention_released ≡ true
  pub assets_stay : (a : Text) → Memᴰ a h.admitted_assets → Memᴰ a row.admitted_assets
  pub assets_sound : (a : Text) → Memᴰ a row.admitted_assets → AssetSound h.receipt a

-- The encounter was brought to one of its two ends.
abbrev pub IsEnded : LedgerRow → Type 0
IsEnded h =
    ((is_forfeited h.phase ≡ true) × (is_some h.termination ≡ true))
    ⊎ ((is_settled h.phase ≡ true) × (is_some h.receipt ≡ true) × (is_some h.commitment ≡ true))

settled_commitment :
    (row : LedgerRow) → IsSound row → is_some row.receipt ≡ true → is_some row.commitment ≡ true
settled_commitment row s e = elim (Option-cases row.receipt) [
  | inl n ↦ absurd (cc)
  | inr (p, f) ↦
      let (r, g, root, late) = subst (ReceiptSound row.reveal) f s.receipt_sound in
      let (c, k, same, seed, after) =
        subst (RevealSound row.ticket row.secret row.commitment) g s.reveal_sound in
      ap is_some k
]

pub closed-parts :
    (s : Snapshot)
    → closed s ≡ true
    → (s.row.retention_released ≡ true)
      × (s.row.evidence_hold ≡ false)
      × (s.cases ≡ false)
      × (((is_forfeited s.row.phase ≡ true) × (is_some s.row.termination ≡ true))
          ⊎ ((is_settled s.row.phase ≡ true) × (is_some s.row.receipt ≡ true)))
unfolding closed
closed-parts s h = elim (Bool-cases (is_forfeited s.row.phase && is_some s.row.termination)) [
  | inl e ↦ (
    ground (arith, h),
    ground (arith, h),
    ground (arith, h),
    inl (ground (arith, e), ground (arith, e)),
  )
  | inr e ↦ (
    ground (arith, h),
    ground (arith, h),
    ground (arith, h),
    inr (ground (arith, h, e), ground (arith, h, e)),
  )
]

pub closed-IsEnded : (s : Snapshot) → IsSound s.row → closed s ≡ true → IsEnded s.row
closed-IsEnded s sound h = elim ((closed-parts s h).3) [
  | inl e ↦ inl e
  | inr (e, p) ↦ inr (e, p, settled_commitment s.row sound p)
]

pub origin-FromOrigin :
    (s : Snapshot) → IsSound s.row → closed s ≡ true → FromOrigin s.row (origin s.row)
origin-FromOrigin s sound h =
    let (rel, hold, cases, ends) = closed-parts s h in
    record {
      ticket_same = refl;
      commitment_same = refl;
      committed_at_same = refl;
      phase_same = refl;
      receipt_same = refl;
      termination_same = refl;
      erased = refl;
      no_reveal = refl;
      no_hold = hold;
      released = rel;
      assets_stay = λ a m. m;
      assets_sound = sound.assets_sound;
    }

empty_secret : (row : LedgerRow) → row.secret ≡ [] → is_digest row.secret ≡ true → ⊥
empty_secret row e d = let f : is_digest row.secret ≡ false = ap is_digest e in absurd (cc)

module _ (h row : LedgerRow) (o : FromOrigin h row) (e : IsEnded h) where
  pub row_at_end : IsEnded row
  row_at_end = elim e [
    | inl (p, t) ↦ inl (ap is_forfeited o.phase_same ∙ p, ap is_some o.termination_same ∙ t)
    | inr (p, r, c) ↦ inr (
      ap is_settled o.phase_same ∙ p,
      ap is_some o.receipt_same ∙ r,
      ap is_some o.commitment_same ∙ c,
    )
  ]

  -- A row that differs in its revision and its mark of relinquishing.
  marked-FromOrigin : FromOrigin h (record row { recovery_released = true })
  marked-FromOrigin = record {
    ticket_same = o.ticket_same;
    commitment_same = o.commitment_same;
    committed_at_same = o.committed_at_same;
    phase_same = o.phase_same;
    receipt_same = o.receipt_same;
    termination_same = o.termination_same;
    erased = o.erased;
    no_reveal = o.no_reveal;
    no_hold = o.no_hold;
    released = o.released;
    assets_stay = o.assets_stay;
    assets_sound = o.assets_sound;
  }

  listed-FromOrigin :
      (asset : Text)
      → AssetSound h.receipt asset
      → FromOrigin h (record row { admitted_assets = row.admitted_assets ++ asset ∷ [] })
  listed-FromOrigin asset sound = record {
    ticket_same = o.ticket_same;
    commitment_same = o.commitment_same;
    committed_at_same = o.committed_at_same;
    phase_same = o.phase_same;
    receipt_same = o.receipt_same;
    termination_same = o.termination_same;
    erased = o.erased;
    no_reveal = o.no_reveal;
    no_hold = o.no_hold;
    released = o.released;
    assets_stay = λ a m. mem-append_left _ (asset ∷ []) (o.assets_stay a m);
    assets_sound = λ a m. elim (mem-append-cases row.admitted_assets (asset ∷ []) m) [
      | inl k ↦ o.assets_sound a k
      | inr k ↦ the_asset a k
    ];
  }
    where
      the_asset : (a : Text) → Memᴰ a (asset ∷ []) → AssetSound h.receipt a
      the_asset a (Memᴰ.head q) = subst (AssetSound h.receipt) (sym q) sound
      the_asset a (Memᴰ.tail m) = elim m [ ]

pub next-FromOrigin : (h row : LedgerRow) → FromOrigin h row → FromOrigin h (next_revision row)
next-FromOrigin h row o = record {
  ticket_same = o.ticket_same;
  commitment_same = o.commitment_same;
  committed_at_same = o.committed_at_same;
  phase_same = o.phase_same;
  receipt_same = o.receipt_same;
  termination_same = o.termination_same;
  erased = o.erased;
  no_reveal = o.no_reveal;
  no_hold = o.no_hold;
  released = o.released;
  assets_stay = o.assets_stay;
  assets_sound = o.assets_sound;
}

-- What a round writes still comes from the sealed row, and takes no asset from the market.
pub record Follows (h row new : LedgerRow) : Type 0 where
  pub from : FromOrigin h new
  pub same_revision : new.revision ≡ row.revision
  pub assets_kept : (a : Text) → Memᴰ a row.admitted_assets → Memᴰ a new.admitted_assets

Follows-by :
    (h row new made : LedgerRow)
    → new ≡ made
    → FromOrigin h made
    → made.revision ≡ row.revision
    → ((a : Text) → Memᴰ a row.admitted_assets → Memᴰ a made.admitted_assets)
    → Follows h row new
Follows-by h row new made e f r k =
    subst (Follows h row) (sym e) (record { from = f; same_revision = r; assets_kept = k })

module _ (h row : LedgerRow) (o : FromOrigin h row) (e : IsEnded h) where
  -- No round that begins or ends an encounter fits a row that has ended.
  no_commit : row.commitment ≡ none → is_forfeited row.phase ≡ false → ⊥
  no_commit absent f = elim (row_at_end h row o e) [
    | inl (p, t) ↦ cc
    | inr (p, r, c) ↦ let n : is_some row.commitment ≡ false = ap is_some absent in cc
  ]

  no_receipt : row.receipt ≡ none → is_revealed row.phase ≡ true → ⊥
  no_receipt absent f = elim (row_at_end h row o e) [
    | inl (p, t) ↦ phases row.phase p f
    | inr (p, r, c) ↦ let n : is_some row.receipt ≡ false = ap is_some absent in cc
  ]
    where
      phases : (p : Phase) → is_forfeited p ≡ true → is_revealed p ≡ true → ⊥
      phases issued q f = cc
      phases committed q f = cc
      phases revealed q f = cc
      phases settled q f = cc
      phases forfeited q f = cc

  no_forfeit : is_settled row.phase ≡ false → is_forfeited row.phase ≡ false → ⊥
  no_forfeit f g = elim (row_at_end h row o e) [ inl (p, t) ↦ cc | inr (p, r, c) ↦ cc ]

  no_end : is_settled row.phase ≡ false → row.termination ≡ none → ⊥
  no_end f absent = elim (row_at_end h row o e) [
    | inl (p, t) ↦ let n : is_some row.termination ≡ false = ap is_some absent in cc
    | inr (p, r, c) ↦ cc
  ]

module _ (authority : Authority) (platform : Platform) (h : LedgerRow) (e : IsEnded h) where
  pub Writes-Follows :
      (past : List Snapshot) (s : Snapshot) (new : LedgerRow)
      → ((i : Snapshot) → Memᴰ i past → Persists i.row.receipt h.receipt)
      → FromOrigin h s.row
      → Writes authority platform past s new
      → Follows h s.row new
  Writes-Follows past s new older o (commits c now m checked w) =
      let (absent, f, lo, hi, made) = commit_shape authority s.row new c now w in
      absurd (no_commit h s.row o e absent f)
  Writes-Follows past s new older o (reveals now w) =
      absurd (empty_secret s.row o.erased (reveal_secret authority s.row new now w))
  Writes-Follows past s new older o (settles {receipt = receipt} chunks now m made w) =
      let (c, absent, f, committed_as, root, written) =
        settle_shape authority s.row new receipt w in
      absurd (no_receipt h s.row o e absent f)
  Writes-Follows past s new older o (admits {i = i} l m checked w) =
      let (p, q, item) = admit_checked_shape authority i new l checked in
      let (free, made) = admit_shape authority s new l w in
      Follows-by h s.row new _ made
        (listed-FromOrigin h s.row o e l.asset_id (p, older i m p q, item)) refl
        (λ a n. mem-append_left s.row.admitted_assets (l.asset_id ∷ []) n)
  Writes-Follows past s new older o (holds hold w) =
      let (f, made) = hold_shape authority s.row new hold w in let t = o.released in absurd (cc)
  Writes-Follows past s new older o (forfeits w) =
      let (f, made) = forfeit_shape authority s.row new w in
      absurd (no_forfeit h s.row o e f (forfeit_open authority s.row new w))
  Writes-Follows past s new older o (terminates reason now w) =
      let (absent, f, none_yet, made) = terminate_shape authority s.row new reason now w in
      absurd (no_end h s.row o e f none_yet)
  Writes-Follows past s new older o (closes expected next now w) =
      let (t, q, f, late, free, made) = closure_shape authority s new expected next now w in
      let t = o.released in absurd (cc)
  Writes-Follows past s new older o (retires now w) =
      let (r, q, f, late, free, made) = retire_shape authority s new now w in
      let t = o.released in absurd (cc)
  Writes-Follows past s new older o (archives a w) =
      absurd (empty_secret s.row o.erased (custody_secret authority s.row new a w))
  Writes-Follows past s new older o (relinquishes ticket termination generation now members w) =
      Follows-by h s.row new _ (relinquish_shape s new ticket termination generation now members w)
        (marked-FromOrigin h s.row o e) refl (λ a n. n)
