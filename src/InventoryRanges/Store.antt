-- ===== src/InventoryRanges/Store.antt =====
-- The rows of one unit and owner, and `add`
-- (examples/cf-game-audit/game/encounter/inventory-ranges.ts). The rows are in no order.
use converge_audit.Prelude.{
  ℕ, ◌+◌, Bool, true, false, not, ◌&&◌, ◌||◌, Option, none, some, List, [], ◌∷◌, any, filter, ltb,
  leb, ◌==◌, if◌then◌else◌, Result, ok, err, ◌>>=◌, ◌>>◌, refuse_if,
}
use converge_audit.Prelude.Text.{max_safe_integer, safe_non_negative_integer}

pub record InventoryEmptyRange : Type 0 where
  pub first : ℕ
  pub last : ℕ

pub data RangeFault : Type 0 where
  invalid_range invalid_ordinal already_retired constraint_error : RangeFault

abbrev pub range_valid : InventoryEmptyRange → Bool
range_valid r =
    safe_non_negative_integer r.first
    && not (ltb r.first 1)
    && safe_non_negative_integer r.last
    && not (ltb r.last r.first)

abbrev pub parse : Option InventoryEmptyRange → Result RangeFault (Option InventoryEmptyRange)
parse none = ok none
parse (some r) = if range_valid r then ok (some r) else err invalid_range

abbrev pub later : InventoryEmptyRange → Option InventoryEmptyRange → Option InventoryEmptyRange
later r none = some r
later r (some q) = if ltb q.first r.first then some r else some q

-- The row with the highest `first` that is not above the ordinal.
unfoldable pub highest : ℕ → List InventoryEmptyRange → Option InventoryEmptyRange
highest ordinal [] = none
highest ordinal (r ∷ rs) =
    let rest = highest ordinal rs in if leb r.first ordinal then later r rest else rest

-- The row that starts at the ordinal.
unfoldable pub starting_at : ℕ → List InventoryEmptyRange → Option InventoryEmptyRange
starting_at ordinal [] = none
starting_at ordinal (r ∷ rs) =
    let rest = starting_at ordinal rs in if r.first == ordinal then some r else rest

abbrev pub reaches : ℕ → Option InventoryEmptyRange → Bool
reaches ordinal none = false
reaches ordinal (some r) = leb ordinal r.last

abbrev pub adjacent : ℕ → Option InventoryEmptyRange → Option InventoryEmptyRange
adjacent ordinal none = none
adjacent ordinal (some r) = if r.last + 1 == ordinal then some r else none

abbrev pub keeps : Option InventoryEmptyRange → InventoryEmptyRange → Bool
keeps none r = true
keeps (some q) r = not (r.first == q.first)

abbrev pub first_or : ℕ → Option InventoryEmptyRange → ℕ
first_or n none = n
first_or n (some r) = r.first

abbrev pub last_or : ℕ → Option InventoryEmptyRange → ℕ
last_or n none = n
last_or n (some r) = r.last

-- The rows that stay, and the row of the ordinal with its neighbours.
abbrev pub cleared :
    Option InventoryEmptyRange
    → Option InventoryEmptyRange
    → List InventoryEmptyRange
    → List InventoryEmptyRange
cleared left right rs = filter (λ r. keeps left r && keeps right r) rs

abbrev pub joined :
    ℕ → Option InventoryEmptyRange → Option InventoryEmptyRange → InventoryEmptyRange
joined ordinal left right = record { first = first_or ordinal left; last = last_or ordinal right }

-- The keys are `first` and `last`.
abbrev pub insert_row :
    InventoryEmptyRange → List InventoryEmptyRange → Result RangeFault (List InventoryEmptyRange)
insert_row new rs = do
  refuse_if (any (λ (r : InventoryEmptyRange). r.first == new.first || r.last == new.last) rs)
      constraint_error
  ok (new ∷ rs)

unfoldable pub add : ℕ → List InventoryEmptyRange → Result RangeFault (List InventoryEmptyRange)
add ordinal rs = do
  refuse_if (not (safe_non_negative_integer ordinal) || ltb ordinal 1) invalid_ordinal
  before ← parse (highest ordinal rs)
  refuse_if (reaches ordinal before) already_retired
  let left = adjacent ordinal before
  right ← if ltb ordinal max_safe_integer then parse (starting_at (ordinal + 1) rs) else ok none
  insert_row (joined ordinal left right) (cleared left right rs)
