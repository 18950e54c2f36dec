-- ===== src/Encounter/Tests.antt =====
-- An encounter from its ticket to an item on the market, one that is abandoned, and the theorems at
-- them.
use converge_audit.Prelude.{
  ℕ, zero, suc, ◌+◌, ◌%◌, ◌≤◌, ◌<◌, ◌≡◌, refl, sym, ap, Bool, true, false, ◌⊎◌, Option, none, some,
  List, [], ◌∷◌, ◌++◌, Memᴰ, length, map, ltb, if◌then◌else◌, Result, ok, err, arith,
}
use converge_audit.Prelude.Text.{Text, codes, text_eq, text_eq_refl}
use converge_audit.Prelude.Decimal.{decimal}
use converge_audit.Prelude.Json.{stringify, stringify_items, stringify_rest}
use converge_audit.Prelude.Json.Quote.{quote, escape, escape_all}
use converge_audit.Prelude.Int.{pos}
use converge_audit.GameKernel.Drops.{mix32, string_hash, rarity_for, hex, pad_start, derive_drop}
use converge_audit.GameKernel.Moves.{
  InputFrame, clamp, is_axis, squared_distance, move_toward, move_player,
}
use converge_audit.GameKernel.Step.{
  strike, attack_nearest, resolve_telegraphs, create_initial_game, advance_game,
}
use converge_audit.GameKernel.Replay.{replay}
use converge_audit.PayloadQueue.Store.{Chunk}
use converge_audit.Encounter.Records.{
  forfeited, EncounterAuthorization, EncounterTicket, EncounterCommit, EncounterReveal,
  EncounterReceipt, EncounterReceiptStatement, EncounterListing, EncounterItem,
  EncounterTermination, abandoned, expired, LedgerRow,
}
use converge_audit.Encounter.Wire.{
  is_digest, encounter_start_key, ticket_frame, log_root_frame, commit_frame, reveal_frame,
  receipt_frame, listing_frame, termination_frame,
}
use converge_audit.Encounter.Attempts.{
  Authority, EncounterRefusal, Snapshot, Attempt, keep, write, held, is_some, has_item,
  outside_commit_window, before_release_time, retention_already_closed, settled_cannot_terminate,
  commit_checked, commit_attempt, reveal_attempt, admit_checked, admit_attempt, hold_attempt,
  fence_attempt, forfeit_attempt,
}
use converge_audit.Encounter.Closing.{
  termination_allowed, terminal_cleanup_allowed, terminate_attempt, closure_attempt, retire_attempt,
  custody_attempt, closed, forgets,
}
use converge_audit.Encounter.Issue.{IssueContext, issue_attempt, issued_row, signed_ticket}
use converge_audit.Encounter.Settlement.{Platform, final_state, settle_receipt, settle_attempt}
use converge_audit.Encounter.World.{
  next_revision, commits, reveals, settles, admits, terminates, retires, writes, Lives, issues,
  moves, sealed, Lasts, unsealed, seals,
}
use converge_audit.Encounter.Guarantees.{
  commit_before_reveal, sealed_stays_closed, outcomes_exclusive, closed_retention_final,
  market_assets_settled, abandon_terminates,
}
use converge_audit.Encounter.Verify.{
  verify_encounter_ticket, verify_encounter_receipt, verify_encounter_termination,
}
use converge_audit.Encounter.Verified.{Signs, issue_verifies, terminate_verifies, settle_verifies}

abbrev repeated : ℕ → ℕ → Text
repeated zero c = []
repeated (suc n) c = c ∷ repeated n c

-- A digest by the length of the text, and signatures of a key followed by the digest.
abbrev authority : Authority
authority = record {
  public_key = repeated 64 b'a';
  sign_digest = λ d. repeated 64 b'a' ++ d;
  hash_string = λ t. repeated 64 (b'0' + length t % 10);
  verify = λ key d signature. text_eq signature (key ++ d);
  retention_ms = 500;
  trusted_archive_key = none;
}

abbrev frame_at : ℕ → InputFrame
frame_at n = record { tick = n; horizontal = if ltb 30 n then pos 1 else pos 0; vertical = pos 0 }

abbrev frames : ℕ → ℕ → List InputFrame
frames zero n = []
frames (suc k) n = frame_at n ∷ frames k (n + 1)

abbrev platform : Platform
platform = record {
  locale_compare = λ a b. pos 0;
  decode_log = λ t c chunks. some (frames 40 1);
  parse_hex = λ t. 7;
  final_state_frame = λ id s. id;
}

abbrev owner : Text
owner = repeated 64 b'b'

abbrev authorization : EncounterAuthorization
authorization = record {
  generation = none;
  unit = codes "u";
  start_head = codes "h";
  player_id = codes "ann";
  owner_public_key = owner;
}

abbrev context : IssueContext
context = record {
  at_start = 0;
  after_key = 0;
  before_insert = 0;
  ticket_id = codes "t";
  secret = repeated 64 b'5';
  now = 1000;
}

abbrev first : LedgerRow
first = issued_row authority authorization context

abbrev row_of : {A : Type 0} → Result EncounterRefusal (Attempt A) → LedgerRow
row_of (err reason) = first
row_of (ok (keep a)) = first
row_of (ok (write row a)) = row

abbrev answer_of : {A : Type 0} → A → Result EncounterRefusal (Attempt A) → A
answer_of d (err reason) = d
answer_of d (ok (keep a)) = a
answer_of d (ok (write row a)) = a

abbrev is_written : {A : Type 0} → Result EncounterRefusal (Attempt A) → Bool
is_written (err reason) = false
is_written (ok (keep a)) = false
is_written (ok (write row a)) = true

written :
    {A : Type 0} (d : A) (r : Result EncounterRefusal (Attempt A))
    → is_written r ≡ true
    → r ≡ ok (write (row_of r) (answer_of d r))
written d (err reason) h = cc
written d (ok (keep a)) h = cc
written d (ok (write row a)) h = refl

run_of_encounter : ℕ → ℕ
unfolding create_initial_game advance_game replay attack_nearest strike resolve_telegraphs
    move_player move_toward clamp is_axis squared_distance derive_drop mix32 string_hash rarity_for
    hex pad_start decimal text_eq quote escape escape_all stringify stringify_items stringify_rest
    encounter_start_key ticket_frame log_root_frame commit_frame reveal_frame receipt_frame
    listing_frame termination_frame commit_checked commit_attempt reveal_attempt admit_checked
    admit_attempt hold_attempt fence_attempt forfeit_attempt termination_allowed
    terminal_cleanup_allowed terminate_attempt closure_attempt retire_attempt custody_attempt
    issue_attempt final_state settle_receipt settle_attempt verify_encounter_ticket
    verify_encounter_receipt verify_encounter_termination
run_of_encounter n = n

abbrev ticket : EncounterTicket
ticket = signed_ticket authority authorization context

issued_first : issue_attempt authority authorization none context ≡ ok (write first ticket)
unfolding run_of_encounter
issued_first = refl

abbrev digests : List Text
digests = repeated 64 b'6' ∷ repeated 64 b'7' ∷ []

abbrev unsigned_commit : EncounterCommit
unsigned_commit = record {
  ticket_id = codes "t";
  root = authority.hash_string (log_root_frame ticket digests);
  chunk_digests = digests;
  owner_signature = [];
}

abbrev commit : EncounterCommit
commit = record unsigned_commit {
  owner_signature = owner ++ authority.hash_string (commit_frame unsigned_commit);
}

abbrev at_zero : Snapshot
at_zero = record { row = first; cases = false }

abbrev after : LedgerRow → Snapshot
after row = record { row = next_revision row; cases = false }

abbrev commit_round : Result EncounterRefusal (Attempt (Text × Option ℕ))
commit_round = commit_attempt authority commit 4500 at_zero.row

abbrev at_one : Snapshot
at_one = after (row_of commit_round)

abbrev no_reveal : EncounterReveal
no_reveal = record {
  ticket_id = [];
  root = [];
  seed = [];
  committed_at = 0;
  released_at = 0;
  signature = [];
}

abbrev reveal_round : Result EncounterRefusal (Attempt EncounterReveal)
reveal_round = reveal_attempt authority 5000 at_one.row

abbrev at_two : Snapshot
at_two = after (row_of reveal_round)

committed_one : is_written commit_round ≡ true
unfolding run_of_encounter
committed_one = refl

revealed_two : is_written reveal_round ≡ true
unfolding run_of_encounter
revealed_two = refl

checked_commit : commit_checked authority commit first ≡ ok tt
unfolding run_of_encounter
checked_commit = refl

too_early : commit_attempt authority commit 3999 first ≡ err outside_commit_window
unfolding run_of_encounter
too_early = refl

not_yet_released : reveal_attempt authority 4999 at_one.row ≡ err before_release_time
unfolding run_of_encounter
not_yet_released = refl

abbrev chunks : List Chunk
chunks =
    record { sequence = 0; checkpoint_digest = []; payload = [] }
    ∷ record { sequence = 1; checkpoint_digest = []; payload = [] }
    ∷ []

abbrev no_statement : EncounterReceiptStatement
no_statement = record {
  authority_key = [];
  ticket_id = [];
  unit = [];
  rules_id = [];
  player_id = [];
  owner_public_key = [];
  root = [];
  final_state_digest = [];
  items = [];
  settled_at = 0;
  retention_until = 0;
}

abbrev no_receipt : EncounterReceipt
no_receipt = record { statement = no_statement; receipt_id = []; signature = [] }

abbrev receipt_or : Result EncounterRefusal EncounterReceipt → EncounterReceipt
receipt_or (err reason) = no_receipt
receipt_or (ok r) = r

abbrev receipt : EncounterReceipt
receipt = receipt_or (settle_receipt authority platform chunks 6000 at_two.row)

abbrev is_ok : {A : Type 0} → Result EncounterRefusal A → Bool
is_ok (err reason) = false
is_ok (ok a) = true

receipt_made :
    (r : Result EncounterRefusal EncounterReceipt) → is_ok r ≡ true → r ≡ ok (receipt_or r)
receipt_made (err reason) h = cc
receipt_made (ok s) h = refl

made_receipt : settle_receipt authority platform chunks 6000 at_two.row ≡ ok receipt
unfolding run_of_encounter
made_receipt = receipt_made (settle_receipt authority platform chunks 6000 at_two.row) refl

abbrev settle_round : Result EncounterRefusal (Attempt EncounterReceipt)
settle_round = settle_attempt authority receipt at_two.row

abbrev at_three : Snapshot
at_three = after (row_of settle_round)

settled_three : is_written settle_round ≡ true
unfolding run_of_encounter
settled_three = refl

abbrev assets : List Text
assets = map (λ (i : EncounterItem). i.asset_id) receipt.statement.items

abbrev head_or : Text → List Text → Text
head_or d [] = d
head_or d (t ∷ ts) = t

abbrev asset : Text
asset = head_or [] assets

one_asset : length assets ≡ 1
unfolding run_of_encounter
one_asset = refl

abbrev unsigned_listing : EncounterListing
unsigned_listing = record {
  ticket_id = codes "t";
  receipt_id = receipt.receipt_id;
  asset_id = asset;
  owner_signature = [];
}

abbrev listing : EncounterListing
listing = record unsigned_listing {
  owner_signature = owner ++ authority.hash_string (listing_frame unsigned_listing);
}

checked_listing : admit_checked authority listing at_three ≡ ok tt
unfolding run_of_encounter
checked_listing = refl

abbrev admit_round : Result EncounterRefusal (Attempt Text)
admit_round = admit_attempt authority listing at_three

abbrev at_four : Snapshot
at_four = after (row_of admit_round)

admitted_four : is_written admit_round ≡ true
unfolding run_of_encounter
admitted_four = refl

abbrev retire_round : Result EncounterRefusal (Attempt LedgerRow)
retire_round = retire_attempt authority 6500 at_four

abbrev at_five : Snapshot
at_five = after (row_of retire_round)

retired_five : is_written retire_round ≡ true
unfolding run_of_encounter
retired_five = refl

hold_comes_late : hold_attempt authority true at_five.row ≡ err retention_already_closed
unfolding run_of_encounter
hold_comes_late = refl

terminate_comes_late :
    terminate_attempt authority abandoned 7000 at_five.row ≡ err settled_cannot_terminate
unfolding run_of_encounter
terminate_comes_late = refl

abbrev world_two : List Snapshot
world_two = at_two ∷ at_one ∷ at_zero ∷ []

life_two : Lives authority platform first world_two
unfolding run_of_encounter
life_two =
    moves
      (moves issues (
        writes (Memᴰ.head refl)
          (commits commit 4500 (Memᴰ.head refl) checked_commit
            (written ([], none) commit_round committed_one))
          refl (omega arith) refl))
      (writes (Memᴰ.head refl) (reveals 5000 (written no_reveal reveal_round revealed_two)) refl
        (omega arith) refl)

abbrev world_five : List Snapshot
world_five = at_five ∷ at_four ∷ at_three ∷ world_two

life_five : Lives authority platform first world_five
unfolding run_of_encounter
life_five =
    moves
      (moves
        (moves life_two (
          writes (Memᴰ.head refl)
            (settles chunks 6000 (Memᴰ.head refl) made_receipt
              (written no_receipt settle_round settled_three))
            refl (omega arith) refl))
        (writes (Memᴰ.head refl)
          (admits listing (Memᴰ.head refl) checked_listing (written [] admit_round admitted_four))
          refl (omega arith) refl))
      (writes (Memᴰ.head refl) (retires 6500 (written first retire_round retired_five)) refl
        (omega arith) refl)

abbrev reveal : EncounterReveal
reveal = answer_of no_reveal reveal_round

commit_before_reveal_example :
    (c : EncounterCommit) × (n : ℕ) × (at_two.row.commitment ≡ some c)
    × (at_two.row.committed_at ≡ some n)
    × (reveal.root ≡ c.root)
    × (reveal.seed ≡ at_two.row.secret)
    × (at_two.row.ticket.commit_not_before ≤ n)
    × (n < at_two.row.ticket.release_at)
    × (at_two.row.ticket.release_at ≤ reveal.released_at)
unfolding run_of_encounter
commit_before_reveal_example =
    commit_before_reveal authority platform authorization context first ticket at_two
      (at_one ∷ at_zero ∷ []) reveal issued_first life_two refl

abbrev at_seal : Snapshot
at_seal = sealed authority platform at_five

life_sealed : Lasts authority platform first at_seal (at_seal ∷ []) world_five
unfolding run_of_encounter closed forgets
life_sealed = seals (unsealed life_five) refl false refl

sealed_stays_closed_example : closed at_seal ≡ true
sealed_stays_closed_example =
    sealed_stays_closed authority platform authorization context first ticket at_seal at_seal []
      world_five issued_first life_sealed

closed_retention_final_example :
    (at_five.row.retention_released ≡ true)
    × (held at_five ≡ false)
    × ((is_some at_five.row.receipt ≡ true) ⊎ (is_some at_five.row.termination ≡ true))
unfolding run_of_encounter
closed_retention_final_example =
    closed_retention_final authority platform authorization context first ticket at_five
      (at_four ∷ at_three ∷ world_two) at_five issued_first life_five (Memᴰ.head refl) refl

market_assets_settled_example :
    (p : EncounterReceipt) × (r : EncounterReveal) × (at_five.row.receipt ≡ some p)
    × (at_five.row.reveal ≡ some r)
    × (has_item asset p.statement.items ≡ true)
    × (p.statement.root ≡ r.root)
    × (r.released_at ≤ p.statement.settled_at)
unfolding run_of_encounter
market_assets_settled_example =
    market_assets_settled authority platform authorization context first ticket at_five
      (at_four ∷ at_three ∷ world_two) asset issued_first life_five (Memᴰ.head refl)

signs : Signs authority
signs = record {
  key_digest = refl;
  hash_digest = λ t. digit_is_digest (length t);
  sign_verifies = λ d. text_eq_refl (repeated 64 b'a' ++ d);
}
  where
    digit_is_digest : (n : ℕ) → is_digest (repeated 64 (b'0' + n % 10)) ≡ true
    digit_is_digest n = ground arith

issue_verifies_example :
    (verify_encounter_ticket authority.hash_string authority.verify ticket authority.public_key
      ≡ true)
    × (first.ticket ≡ ticket)
issue_verifies_example =
    issue_verifies authority authorization context first ticket signs refl issued_first

abbrev root_digest : Option EncounterCommit → Bool
root_digest none = true
root_digest (some c) = is_digest c.root

settle_verifies_example :
    verify_encounter_receipt authority.hash_string authority.verify receipt authority.public_key
    ≡ true
unfolding run_of_encounter
settle_verifies_example =
    settle_verifies authority platform at_two.row chunks 6000 receipt signs refl
      (λ c e. ap (λ (o : Option EncounterCommit). root_digest o) (sym e)) made_receipt

abbrev forfeit_round : Result EncounterRefusal (Attempt EncounterTermination)
forfeit_round = terminate_attempt authority abandoned 4600 at_one.row

abbrev no_end : EncounterTermination
no_end = record {
  statement = record {
    authority_key = [];
    ticket_id = [];
    unit = [];
    start_head = [];
    player_id = [];
    owner_public_key = [];
    queue_id = [];
    rules_id = [];
    root = none;
    reason = abandoned;
    terminated_at = 0;
    retention_until = 0;
  };
  termination_id = [];
  signature = [];
}

abbrev end : EncounterTermination
end = answer_of no_end forfeit_round

abbrev at_end : Snapshot
at_end = after (row_of forfeit_round)

ended : is_written forfeit_round ≡ true
unfolding run_of_encounter
ended = refl

abbrev world_end : List Snapshot
world_end = at_end ∷ at_one ∷ at_zero ∷ []

life_end : Lives authority platform first world_end
unfolding run_of_encounter
life_end =
    moves
      (moves issues (
        writes (Memᴰ.head refl)
          (commits commit 4500 (Memᴰ.head refl) checked_commit
            (written ([], none) commit_round committed_one))
          refl (omega arith) refl))
      (writes (Memᴰ.head refl) (terminates abandoned 4600 (written no_end forfeit_round ended)) refl
        (omega arith) refl)

outcomes_exclusive_example : at_one.row.receipt ≡ none
unfolding run_of_encounter
outcomes_exclusive_example =
    outcomes_exclusive authority platform authorization context first ticket at_end
      (at_one ∷ at_zero ∷ []) at_one at_end end issued_first life_end (Memᴰ.tail (Memᴰ.head refl))
      (Memᴰ.head refl) refl

abbrev first_round : Result EncounterRefusal (Attempt EncounterTermination)
first_round = terminate_attempt authority expired 5000 first

terminate_verifies_example :
    verify_encounter_termination authority.hash_string authority.verify ticket
      (answer_of no_end first_round)
      authority.public_key
    ≡ true
unfolding run_of_encounter
terminate_verifies_example =
    terminate_verifies authority first (row_of first_round) expired 5000
      (answer_of no_end first_round) signs issue_verifies_example.0 (λ c e. absurd (cc))
      (written no_end first_round refl)

abandon_terminates_example :
    (t : EncounterTermination) × (((at_one.row.termination ≡ some t)
        × (terminate_attempt authority abandoned 4600 at_one.row ≡ ok (keep t)))
      ⊎ ((at_one.row.termination ≡ none)
          × (terminate_attempt authority abandoned 4600 at_one.row
              ≡ ok (write (record (at_one.row) { phase = forfeited; termination = some t }) t))
          × (t.statement.reason ≡ abandoned)
          × (t.statement.ticket_id ≡ at_one.row.ticket.ticket_id)
          × (t.statement.terminated_at ≡ 4600)))
unfolding run_of_encounter
abandon_terminates_example =
    abandon_terminates authority at_one.row 4600 refl refl refl refl refl (omega arith)
      (omega arith)
