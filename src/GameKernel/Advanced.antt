-- ===== src/GameKernel/Advanced.antt =====
-- What a tick that is made consists of (examples/cf-game-audit/game/kernel.ts).
use converge_audit.Prelude.{◌+◌, ◌≡◌, true, not, List, ◌++◌, map, filter, arith, ok}
use converge_audit.GameItems.State.{PlayerState, GroundDrop, GameState}
use converge_audit.GameKernel.Moves.{InputFrame, is_axis, move_player, move_toward}
use converge_audit.GameKernel.Step.{
  StepEffect, LocaleCompare, Attack, attack_nearest, resolve_telegraphs, within_pickup, item_of,
  has_id, advance_game,
}

module _ (locale_compare : LocaleCompare) (s : GameState) (input : InputFrame) where
  abbrev pub attack_of : Attack
  attack_of =
      attack_nearest locale_compare (map (move_toward (move_player s input)) s.enemies)
        (move_player s input) input.tick s.seed

  abbrev pub player_of : PlayerState
  player_of = (resolve_telegraphs input.tick s.telegraphs (move_player s input)).0

  abbrev pub all_drops : List GroundDrop
  all_drops = s.drops ++ attack_of.drops

  abbrev pub picked_up : List GroundDrop
  picked_up = filter (within_pickup player_of) all_drops

  abbrev pub advanced : GameState
  advanced = record s {
    tick = input.tick;
    player = player_of;
    enemies = attack_of.enemies;
    telegraphs = (resolve_telegraphs input.tick s.telegraphs (move_player s input)).1;
    drops = filter (λ (d : GroundDrop). not (has_id picked_up d.id)) all_drops;
    inventory = s.inventory ++ map item_of picked_up;
  }

  pub record Advanced (t : GameState) : Type 0 where
    pub next_tick : input.tick ≡ s.tick + 1
    pub horizontal : is_axis input.horizontal ≡ true
    pub vertical : is_axis input.vertical ≡ true
    pub result : t ≡ advanced

  pub advance-Advanced :
      (t : GameState) (effects : List StepEffect)
      → advance_game locale_compare s input ≡ ok (t, effects)
      → Advanced t
  unfolding advance_game
  advance-Advanced t effects e = ground arith
