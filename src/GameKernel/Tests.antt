-- ===== src/GameKernel/Tests.antt =====
-- A game of forty ticks, in which the player walks to the enemy and picks up what it leaves.
use converge_audit.Prelude.{
  ℕ, zero, suc, ◌+◌, ◌≤◌, ◌≡◌, refl, Bool, true, some, List, [], ◌∷◌, length, ltb, if◌then◌else◌,
  false, Result, ok, err, arith,
}
use converge_audit.Prelude.Text.{codes, text_eq}
use converge_audit.Prelude.Decimal.{decimal}
use converge_audit.Prelude.Int.{pos, negsuc}
use converge_audit.GameItems.State.{GameState}
use converge_audit.GameKernel.Drops.{mix32, string_hash, rarity_for, hex, pad_start, derive_drop}
use converge_audit.GameKernel.Moves.{
  InputFrame, clamp, is_axis, squared_distance, move_toward, move_player,
}
use converge_audit.GameKernel.Step.{
  LocaleCompare, AdvanceRefusal, StepEffect, tick_mismatch, strike, attack_nearest,
  resolve_telegraphs, create_initial_game, advance_game,
}
use converge_audit.GameKernel.Bounds.{Inside, Near, advance-Inside}
use converge_audit.GameKernel.Census.{census, advance_census}
use converge_audit.GameKernel.Replay.{replay, replay-Fair}

abbrev locale_compare : LocaleCompare
locale_compare a b = pos 0

abbrev frame_at : ℕ → InputFrame
frame_at n = record { tick = n; horizontal = if ltb 30 n then pos 1 else pos 0; vertical = pos 0 }

abbrev frames : ℕ → ℕ → List InputFrame
frames zero n = []
frames (suc k) n = frame_at n ∷ frames k (n + 1)

abbrev blank : GameState
blank = record {
  seed = 0;
  tick = 0;
  player = record { id = []; x = pos 0; y = pos 0; hp = pos 0; max_hp = pos 0 };
  enemies = [];
  telegraphs = [];
  drops = [];
  inventory = [];
}

abbrev state_or : Result AdvanceRefusal GameState → GameState
state_or (err reason) = blank
state_or (ok s) = s

abbrev is_made : Result AdvanceRefusal GameState → Bool
is_made (err reason) = false
is_made (ok s) = true

made_state : (r : Result AdvanceRefusal GameState) → is_made r ≡ true → r ≡ ok (state_or r)
made_state (err reason) h = cc
made_state (ok s) h = refl

run_of_game : ℕ → ℕ
unfolding create_initial_game advance_game replay attack_nearest strike resolve_telegraphs
    move_player move_toward clamp is_axis squared_distance derive_drop mix32 string_hash rarity_for
    hex pad_start decimal text_eq
run_of_game n = n

abbrev first_state : GameState
first_state = record {
  seed = 7;
  tick = 0;
  player = record { id = codes "ann"; x = pos 640; y = pos 360; hp = pos 3; max_hp = pos 3 };
  enemies =
      record { id = codes "enemy-0"; x = pos 760; y = pos 360; hp = pos 60; max_hp = pos 60 } ∷ [];
  telegraphs =
      record {
        id = codes "telegraph-0";
        x = pos 640;
        y = pos 360;
        radius = pos 96;
        start_tick = 0;
        resolve_tick = 45;
        damage = pos 1;
      }
      ∷ [];
  drops = [];
  inventory = [];
}

created : create_initial_game 7 (codes "ann") ≡ some first_state
unfolding run_of_game
created = refl

abbrev last_state : GameState
last_state = state_or (replay locale_compare (frames 40 1) first_state)

replayed : replay locale_compare (frames 40 1) first_state ≡ ok last_state
unfolding run_of_game
replayed = made_state (replay locale_compare (frames 40 1) first_state) refl

-- The enemy is gone and its item is in the inventory.
one_item :
    (length last_state.enemies ≡ 0)
    × (length last_state.drops ≡ 0)
    × (length last_state.inventory ≡ 1)
unfolding run_of_game
one_item = (refl, refl, refl)

late_frame : advance_game locale_compare first_state (frame_at 2) ≡ err tick_mismatch
unfolding run_of_game
late_frame = refl

replay-Fair_example :
    (last_state.tick ≡ 40)
    × Inside last_state.player
    × (census last_state ≤ 1)
    × (length last_state.inventory ≤ 1)
replay-Fair_example =
    replay-Fair locale_compare 7 (codes "ann") (frames 40 1) first_state last_state created replayed

abbrev state_of : Result AdvanceRefusal (GameState × List StepEffect) → GameState
state_of (err reason) = blank
state_of (ok (s, effects)) = s

abbrev effects_of : Result AdvanceRefusal (GameState × List StepEffect) → List StepEffect
effects_of (err reason) = []
effects_of (ok (s, effects)) = effects

abbrev is_advanced : Result AdvanceRefusal (GameState × List StepEffect) → Bool
is_advanced (err reason) = false
is_advanced (ok result) = true

made_step :
    (r : Result AdvanceRefusal (GameState × List StepEffect))
    → is_advanced r ≡ true
    → r ≡ ok (state_of r, effects_of r)
made_step (err reason) h = cc
made_step (ok (s, effects)) h = refl

abbrev first_step : Result AdvanceRefusal (GameState × List StepEffect)
first_step =
    advance_game locale_compare first_state
      (record { tick = 1; horizontal = pos 1; vertical = negsuc 0 })

stepped : first_step ≡ ok (state_of first_step, effects_of first_step)
unfolding run_of_game
stepped = made_step first_step refl

advance-Inside_example :
    ((state_of first_step).tick ≡ 0 + 1)
    × Inside (state_of first_step).player
    × Near (state_of first_step).player.x (pos 640)
    × Near (state_of first_step).player.y (pos 360)
advance-Inside_example =
    advance-Inside locale_compare first_state (state_of first_step)
      (record { tick = 1; horizontal = pos 1; vertical = negsuc 0 }) (effects_of first_step)
      (omega arith, omega arith, omega arith, omega arith) stepped

advance_census_example : census (state_of first_step) ≤ census first_state
advance_census_example =
    advance_census locale_compare first_state (state_of first_step)
      (record { tick = 1; horizontal = pos 1; vertical = negsuc 0 }) (effects_of first_step) stepped
