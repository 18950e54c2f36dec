-- ===== src/GameKernel/Step.antt =====
-- One tick of the game (examples/cf-game-audit/game/kernel.ts). The platform's `localeCompare` of two
-- texts is an argument; it decides between targets at equal distance.
use converge_audit.Prelude.{
  ℕ, ◌+◌, ◌*◌, ◌%◌, Bool, not, ◌&&◌, ◌||◌, Option, none, some, List, [], ◌∷◌, ◌++◌, map, filter,
  any, length, ltb, leb, ◌==◌, if◌then◌else◌, Result, ok, ◌>>◌, refuse_if,
}
use converge_audit.Prelude.Text.{Text, codes, text_eq, max_safe_integer}
use converge_audit.Prelude.Int.{ℤ, pos, ◌-ℤ◌, leb_ℤ, ltb_ℤ, max_ℤ, square}
use converge_audit.GameItems.State.{
  PlayerState, EnemyState, TelegraphState, InventoryItem, GroundDrop, GameState,
}
use converge_audit.GameKernel.Drops.{word, derive_drop}
use converge_audit.GameKernel.Moves.{
  InputFrame, auto_attack_interval, auto_attack_range, auto_attack_damage, pickup_radius, is_axis,
  squared_distance, move_toward, move_player,
}

pub data Outcome : Type 0 where
  hit dodged : Outcome

pub data StepEffect : Type 0 where
  auto_attack : Text → ℤ → ℕ → StepEffect
  enemy_killed : Text → ℕ → StepEffect
  item_dropped : GroundDrop → ℕ → StepEffect
  item_picked_up : Text → ℕ → StepEffect
  telegraph_resolved : Text → Outcome → ℕ → StepEffect

pub data AdvanceRefusal : Type 0 where
  tick_mismatch invalid_axis : AdvanceRefusal

-- A JavaScript `localeCompare`: negative, zero or positive.
abbrev pub LocaleCompare : Type 0
LocaleCompare = Text → Text → ℤ

-- `create_initial_game`: the seed and the player; `none` where it throws.
unfoldable pub create_initial_game : ℕ → Text → Option GameState
create_initial_game seed player_id =
    if not (leb seed max_safe_integer) || length player_id == 0
    then none
    else some (record {
      seed = word seed;
      tick = 0;
      player = record { id = player_id; x = pos 640; y = pos 360; hp = pos 3; max_hp = pos 3 };
      enemies =
          record { id = codes "enemy-0"; x = pos 760; y = pos 360; hp = pos 60; max_hp = pos 60 }
          ∷ [];
      telegraphs =
          record {
            id = codes "telegraph-0";
            x = pos 640;
            y = pos 360;
            radius = pos 96;
            start_tick = 0;
            resolve_tick = 45;
            damage = pos 1;
          }
          ∷ [];
      drops = [];
      inventory = [];
    })

abbrev pub distance_to : PlayerState → EnemyState → ℕ
distance_to player enemy = squared_distance enemy.x enemy.y player.x player.y

pub record Attack : Type 0 where
  pub enemies : List EnemyState
  pub drops : List GroundDrop
  pub effects : List StepEffect

abbrev pub no_attack : List EnemyState → Attack
no_attack enemies = record { enemies = enemies; drops = []; effects = [] }

abbrev pub in_range : PlayerState → EnemyState → Bool
in_range player enemy = leb (distance_to player enemy) (auto_attack_range * auto_attack_range)

abbrev pub replace_enemy : EnemyState → List EnemyState → List EnemyState
replace_enemy damaged = map (λ (e : EnemyState). if text_eq e.id damaged.id then damaged else e)

abbrev pub damaged : EnemyState → EnemyState
damaged target = record target { hp = target.hp -ℤ auto_attack_damage }

abbrev pub wounded : List EnemyState → ℕ → EnemyState → Attack
wounded enemies tick target = record {
  enemies = replace_enemy (damaged target) enemies;
  drops = [];
  effects = auto_attack target.id auto_attack_damage tick ∷ [];
}

abbrev pub killed : List EnemyState → PlayerState → ℕ → ℕ → EnemyState → Attack
killed enemies player tick seed target =
    let drop = derive_drop seed player.id target tick 0 in
    record {
      enemies = filter (λ (e : EnemyState). not (text_eq e.id target.id)) enemies;
      drops = drop ∷ [];
      effects =
          auto_attack target.id auto_attack_damage tick
          ∷ enemy_killed target.id tick
          ∷ item_dropped drop tick
          ∷ [];
    }

-- The attack on a target.
unfoldable pub strike : List EnemyState → PlayerState → ℕ → ℕ → EnemyState → Attack
strike enemies player tick seed target =
    if ltb_ℤ (pos 0) (damaged target).hp
    then wounded enemies tick target
    else killed enemies player tick seed target

abbrev pub strike_any : List EnemyState → PlayerState → ℕ → ℕ → Option EnemyState → Attack
strike_any enemies player tick seed none = no_attack enemies
strike_any enemies player tick seed (some target) = strike enemies player tick seed target

module _ (locale_compare : LocaleCompare) where
  -- The comparator of `sort` does not put the left one after the right one.
  abbrev pub before_or_same : PlayerState → EnemyState → EnemyState → Bool
  before_or_same player left right =
      ltb (distance_to player left) (distance_to player right)
      || distance_to player left == distance_to player right
        && leb_ℤ (locale_compare left.id right.id) (pos 0)

  -- The first of the stable sort.
  abbrev pub nearest : PlayerState → List EnemyState → Option EnemyState
  nearest player [] = none
  nearest player (e ∷ es) = elim (nearest player es) [
    | none ↦ some e
    | some f ↦ if before_or_same player e f then some e else some f
  ]

  unfoldable pub attack_nearest : List EnemyState → PlayerState → ℕ → ℕ → Attack
  attack_nearest enemies player tick seed =
      if not (tick % auto_attack_interval == 0)
      then no_attack enemies
      else strike_any enemies player tick seed (nearest player (filter (in_range player) enemies))

-- A telegraph that resolves and hits takes its damage off the hit points, down to 0.
abbrev pub hits : TelegraphState → PlayerState → Bool
hits t player = leb (squared_distance t.x t.y player.x player.y) (square t.radius)

abbrev pub after_resolution : TelegraphState → PlayerState → PlayerState
after_resolution t player =
    if hits t player then record player { hp = max_ℤ (pos 0) (player.hp -ℤ t.damage) } else player

abbrev outcome_of : TelegraphState → PlayerState → Outcome
outcome_of t player = if hits t player then hit else dodged

-- The loop over the telegraphs: the player, those that remain and the effects.
unfoldable pub resolve_telegraphs :
    ℕ → List TelegraphState → PlayerState → PlayerState × List TelegraphState × List StepEffect
resolve_telegraphs tick [] player = (player, [], [])
resolve_telegraphs tick (t ∷ ts) player =
    let resolves = t.resolve_tick == tick in
    let next = if resolves then after_resolution t player else player in
    let (last, remaining, effects) = resolve_telegraphs tick ts next in
    if resolves
    then (last, remaining, telegraph_resolved t.id (outcome_of t player) tick ∷ effects)
    else (last, t ∷ remaining, effects)

abbrev pub within_pickup : PlayerState → GroundDrop → Bool
within_pickup player drop =
    leb (squared_distance drop.x drop.y player.x player.y) (pickup_radius * pickup_radius)

abbrev pub item_of : GroundDrop → InventoryItem
item_of drop = drop.item

abbrev pub has_id : List GroundDrop → Text → Bool
has_id drops id = any (λ (d : GroundDrop). text_eq d.id id) drops

unfoldable pub advance_game :
    LocaleCompare → GameState → InputFrame → Result AdvanceRefusal (GameState × List StepEffect)
advance_game locale_compare state input = do
  refuse_if (not (input.tick == state.tick + 1)) tick_mismatch
  refuse_if (not (is_axis input.horizontal) || not (is_axis input.vertical)) invalid_axis
  let moved = move_player state input
  let enemies = map (move_toward moved) state.enemies
  let attack = attack_nearest locale_compare enemies moved input.tick state.seed
  let (player, remaining, resolved) = resolve_telegraphs input.tick state.telegraphs moved
  let all_drops = state.drops ++ attack.drops
  let picked_up = filter (within_pickup player) all_drops
  ok (
    record state {
      tick = input.tick;
      player = player;
      enemies = attack.enemies;
      telegraphs = remaining;
      drops = filter (λ (d : GroundDrop). not (has_id picked_up d.id)) all_drops;
      inventory = state.inventory ++ map item_of picked_up;
    },
    attack.effects
        ++ resolved
        ++ map (λ (d : GroundDrop). item_picked_up d.item.asset_id input.tick) picked_up,
  )
