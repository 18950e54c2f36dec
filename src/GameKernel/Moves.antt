-- ===== src/GameKernel/Moves.antt =====
-- Moves, distances and the rules' constants
-- (examples/cf-game-audit/game/kernel.ts and content.ts).
use converge_audit.Prelude.{ℕ, ◌+◌, ◌-◌, Bool, not, ◌&&◌, if◌then◌else◌}
use converge_audit.Prelude.Int.{ℤ, pos, negsuc, ◌+ℤ◌, ◌-ℤ◌, ◌*ℤ◌, min_ℤ, max_ℤ, sign, square, leb_ℤ}
use converge_audit.GameItems.State.{PlayerState, EnemyState, GameState}

abbrev pub world_width : ℕ
world_width = 1280

abbrev pub world_height : ℕ
world_height = 720

abbrev pub player_radius : ℕ
player_radius = 14

abbrev pub pickup_radius : ℕ
pickup_radius = 24

abbrev pub axis_move : ℤ
axis_move = pos 6

abbrev pub diagonal_move : ℤ
diagonal_move = pos 4

abbrev pub enemy_move : ℤ
enemy_move = pos 2

abbrev pub auto_attack_interval : ℕ
auto_attack_interval = 15

abbrev pub auto_attack_range : ℕ
auto_attack_range = 190

abbrev pub auto_attack_damage : ℤ
auto_attack_damage = pos 30

pub record InputFrame : Type 0 where
  pub tick : ℕ
  pub horizontal : ℤ
  pub vertical : ℤ

unfoldable pub clamp : ℤ → ℤ → ℤ → ℤ
clamp value minimum maximum = min_ℤ maximum (max_ℤ minimum value)

abbrev pub is_zero : ℤ → Bool
is_zero a = leb_ℤ a (pos 0) && leb_ℤ (pos 0) a

-- The axes are -1, 0 and 1.
unfoldable pub is_axis : ℤ → Bool
is_axis value = leb_ℤ (negsuc 0) value && leb_ℤ value (pos 1)

-- The distance squared of (x, y) and (u, v).
unfoldable pub squared_distance : ℤ → ℤ → ℤ → ℤ → ℕ
squared_distance x y u v = square (x -ℤ u) + square (y -ℤ v)

unfoldable pub move_toward : PlayerState → EnemyState → EnemyState
move_toward target enemy = record enemy {
  x = enemy.x +ℤ sign (target.x -ℤ enemy.x) *ℤ enemy_move;
  y = enemy.y +ℤ sign (target.y -ℤ enemy.y) *ℤ enemy_move;
}

abbrev pub distance_of : InputFrame → ℤ
distance_of input =
    if not (is_zero input.horizontal) && not (is_zero input.vertical)
    then diagonal_move
    else axis_move

unfoldable pub move_player : GameState → InputFrame → PlayerState
move_player state input = record (state.player) {
  x =
      clamp (state.player.x +ℤ input.horizontal *ℤ distance_of input) (pos player_radius)
        (pos (world_width - player_radius));
  y =
      clamp (state.player.y +ℤ input.vertical *ℤ distance_of input) (pos player_radius)
        (pos (world_height - player_radius));
}
