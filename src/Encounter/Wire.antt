-- ===== src/Encounter/Wire.antt =====
-- The frames that are hashed and signed (examples/cf-game-audit/game/encounter/wire.ts).
use converge_audit.Prelude.{
  ℕ, Bool, Option, none, some, List, [], ◌∷◌, ◌++◌, map, ◌==◌, if◌then◌else◌,
}
use converge_audit.Prelude.Text.{Text, codes, is_hex, safe_non_negative_integer}
use converge_audit.Prelude.Json.{Json, null, num, str, array, stringify}
use converge_audit.GameItems.State.{ItemRarity, common, magic, rare, legendary}
use converge_audit.Encounter.Records.{
  EncounterTicket, EncounterCommit, EncounterReveal, EncounterItem, EncounterReceiptStatement,
  EncounterListing, TerminationReason, abandoned, expired, EncounterTerminationStatement,
}

abbrev pub frame : Text → List Json → Text
frame domain values = stringify (array (str domain ∷ values))

abbrev pub is_digest : Text → Bool
is_digest = is_hex 64

abbrev pub is_time : ℕ → Bool
is_time = safe_non_negative_integer

abbrev pub digests_json : List Text → Json
digests_json ds = array (map str ds)

unfoldable pub encounter_start_key : (Text → Text) → Text → Text → ℕ → Text
encounter_start_key hash_string unit start_head generation =
    if generation == 0
    then hash_string (frame (codes "encounter-start-v1") (str unit ∷ str start_head ∷ []))
    else hash_string (
        frame (codes "encounter-start-generation-v1")
          (str unit ∷ num generation ∷ str start_head ∷ []))

abbrev pub encounter_queue_id : (Text → Text) → Text → Text → ℕ → Text
encounter_queue_id hash_string unit start_head generation =
    codes "encounter-start:" ++ encounter_start_key hash_string unit start_head generation

abbrev pub legacy_ticket_frame : EncounterTicket → Text
legacy_ticket_frame t = frame (codes "encounter-ticket-v1") (
    num 1
    ∷ str t.ticket_id
    ∷ str t.unit
    ∷ str t.start_head
    ∷ str t.player_id
    ∷ str t.owner_public_key
    ∷ str t.authority_key
    ∷ str t.rules_id
    ∷ str t.queue_id
    ∷ str t.seed_commitment
    ∷ num t.issued_at
    ∷ num t.commit_not_before
    ∷ num t.release_at
    ∷ [])

unfoldable pub ticket_frame : EncounterTicket → Text
ticket_frame t = elim (t.generation) [
  | none ↦ legacy_ticket_frame t
  | some g ↦
      frame (codes "encounter-ticket-generation-v1") (num g ∷ str (legacy_ticket_frame t) ∷ [])
]

unfoldable pub log_root_frame : EncounterTicket → List Text → Text
log_root_frame t digests = frame (codes "encounter-log-v1") (
    str t.ticket_id
    ∷ str t.unit
    ∷ str t.start_head
    ∷ str t.player_id
    ∷ str t.owner_public_key
    ∷ str t.rules_id
    ∷ str t.queue_id
    ∷ num 60
    ∷ digests_json digests
    ∷ [])

abbrev pub commit_json : EncounterCommit → Json
commit_json c = array (
    str (codes "encounter-commit-v1")
    ∷ str c.ticket_id
    ∷ str c.root
    ∷ digests_json c.chunk_digests
    ∷ [])

unfoldable pub commit_frame : EncounterCommit → Text
commit_frame c = stringify (commit_json c)

unfoldable pub reveal_frame : EncounterReveal → Text
reveal_frame r =
    frame (codes "encounter-reveal-v1")
      (str r.ticket_id ∷ str r.root ∷ str r.seed ∷ num r.committed_at ∷ num r.released_at ∷ [])

abbrev pub rarity_text : ItemRarity → Text
rarity_text common = codes "common"
rarity_text magic = codes "magic"
rarity_text rare = codes "rare"
rarity_text legendary = codes "legendary"

abbrev pub item_json : EncounterItem → Json
item_json i = array (
    str i.asset_id
    ∷ str i.owner_id
    ∷ str i.item_type
    ∷ str (rarity_text i.rarity)
    ∷ num i.power
    ∷ str i.source_enemy_id
    ∷ num i.kill_tick
    ∷ num i.drop_index
    ∷ [])

unfoldable pub receipt_frame : EncounterReceiptStatement → Text
receipt_frame s = frame (codes "encounter-receipt-v1") (
    num 1
    ∷ str s.authority_key
    ∷ str s.ticket_id
    ∷ str s.unit
    ∷ str s.rules_id
    ∷ str s.player_id
    ∷ str s.owner_public_key
    ∷ str s.root
    ∷ str s.final_state_digest
    ∷ array (map item_json s.items)
    ∷ num s.settled_at
    ∷ num s.retention_until
    ∷ [])

unfoldable pub listing_frame : EncounterListing → Text
listing_frame l =
    frame (codes "encounter-market-admission-v1")
      (str l.ticket_id ∷ str l.receipt_id ∷ str l.asset_id ∷ [])

abbrev pub reason_text : TerminationReason → Text
reason_text abandoned = codes "abandoned"
reason_text expired = codes "expired"

abbrev pub text_or_null : Option Text → Json
text_or_null none = null
text_or_null (some t) = str t

unfoldable pub termination_frame : EncounterTerminationStatement → Text
termination_frame s = frame (codes "encounter-termination-v1") (
    num 1
    ∷ str s.authority_key
    ∷ str s.ticket_id
    ∷ str s.unit
    ∷ str s.start_head
    ∷ str s.player_id
    ∷ str s.owner_public_key
    ∷ str s.queue_id
    ∷ str s.rules_id
    ∷ text_or_null s.root
    ∷ str (reason_text s.reason)
    ∷ num s.terminated_at
    ∷ num s.retention_until
    ∷ [])
