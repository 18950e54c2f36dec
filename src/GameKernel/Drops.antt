-- ===== src/GameKernel/Drops.antt =====
-- The item that a killed enemy leaves, from the seed (examples/cf-game-audit/game/kernel.ts). Words
-- are numbers below 2 ^ 32; `Math.imul` is the product modulo 2 ^ 32, and `^` and `>>>` take their
-- operands modulo 2 ^ 32.
use Prim.Native.Nat.{bit_xor}
use converge_audit.Prelude.{
  ℕ, zero, suc, ◌+◌, ◌-◌, ◌*◌, ◌/◌, ◌%◌, ◌^◌, List, [], ◌∷◌, ◌++◌, ltb, ◌==◌, if◌then◌else◌, length,
}
use converge_audit.Prelude.Text.{Text, codes}
use converge_audit.Prelude.Decimal.{decimal}
use converge_audit.GameItems.State.{
  EnemyState, ItemRarity, common, magic, rare, legendary, GroundDrop, provisional,
}

abbrev pub word : ℕ → ℕ
word n = n % 2 ^ 32

abbrev xor32 : ℕ → ℕ → ℕ
xor32 a b = bit_xor (word a) (word b)

abbrev imul : ℕ → ℕ → ℕ
imul a b = word (word a * word b)

abbrev shift_right : ℕ → ℕ → ℕ
shift_right a k = word a / 2 ^ k

unfoldable pub mix32 : ℕ → ℕ
mix32 value =
    let a = word value in
    let b = imul (xor32 a (shift_right a 16)) 0x7feb352d in
    let c = imul (xor32 b (shift_right b 15)) 0x846ca68b in word (xor32 c (shift_right c 16))

abbrev pub hash_from : ℕ → Text → ℕ
hash_from hash [] = hash
hash_from hash (c ∷ cs) = hash_from (imul (xor32 hash c) 0x01000193) cs

unfoldable pub string_hash : Text → ℕ
string_hash value = word (hash_from 0x811c9dc5 value)

unfoldable pub rarity_for : ℕ → ItemRarity
rarity_for roll =
    if ltb (roll % 1000) 20
    then legendary
    else if ltb (roll % 1000) 140
    then rare
    else if ltb (roll % 1000) 440
    then magic
    else common

abbrev pub item_type_at : ℕ → Text
item_type_at n =
    if n == 0
    then codes "ember-blade"
    else if n == 1
    then codes "storm-ring"
    else if n == 2
    then codes "bone-charm"
    else codes "void-boots"

abbrev hex_unit : ℕ → ℕ
hex_unit n = if ltb n 10 then b'0' + n else b'a' + (n - 10)

-- `toString(16)`, on fuel: a word has eight digits at most.
abbrev hex_from : ℕ → ℕ → Text
hex_from zero n = []
hex_from (suc fuel) n =
    let more = hex_from fuel (n / 16) ++ hex_unit (n % 16) ∷ [] in
    if ltb n 16 then hex_unit n ∷ [] else more

unfoldable pub hex : ℕ → Text
hex n = hex_from 8 n

abbrev repeated : ℕ → ℕ → Text
repeated zero c = []
repeated (suc n) c = c ∷ repeated n c

unfoldable pub pad_start : ℕ → ℕ → Text → Text
pad_start n c text = repeated (n - length text) c ++ text

-- `join(":")`
abbrev pub join_colon : List Text → Text
join_colon [] = []
join_colon (x ∷ []) = x
join_colon (x ∷ y ∷ rest) = x ++ b':' ∷ join_colon (y ∷ rest)

abbrev pub roll_of : ℕ → EnemyState → ℕ → ℕ → ℕ
roll_of seed enemy kill_tick drop_index =
    mix32 (xor32 (xor32 (xor32 seed (string_hash enemy.id)) (imul kill_tick 0x9e3779b1)) drop_index)

unfoldable pub derive_drop : ℕ → Text → EnemyState → ℕ → ℕ → GroundDrop
derive_drop seed player_id enemy kill_tick drop_index =
    let roll = roll_of seed enemy kill_tick drop_index in
    let asset = join_colon (
      codes "loot-v1"
      ∷ hex (word seed)
      ∷ enemy.id
      ∷ decimal kill_tick
      ∷ decimal drop_index
      ∷ pad_start 8 b'0' (hex roll)
      ∷ []) in
    record {
      id = codes "drop:" ++ asset;
      x = enemy.x;
      y = enemy.y;
      item = record {
        asset_id = asset;
        owner_id = player_id;
        item_type = item_type_at (roll % 4);
        rarity = rarity_for roll;
        power = 1 + shift_right roll 12 % 100;
        source_enemy_id = enemy.id;
        kill_tick = kill_tick;
        drop_index = drop_index;
        audit = provisional;
      };
    }
