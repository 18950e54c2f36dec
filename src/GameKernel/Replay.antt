-- ===== src/GameKernel/Replay.antt =====
-- A replay from the start, as a settlement runs it
-- (examples/cf-game-audit/game/kernel.ts, examples/cf-game-audit/game/encounter/authority.ts).
use converge_audit.Prelude.{
  ℕ, suc, ◌+◌, ◌≤◌, ◌≡◌, subst, some, List, [], ◌∷◌, length, arith, Result, ok, ◌>>=◌, bind-eq-ok,
  ok-injective,
}
use converge_audit.Prelude.Text.{Text}
use converge_audit.GameItems.State.{GameState}
use converge_audit.GameKernel.Moves.{InputFrame}
use converge_audit.GameKernel.Step.{
  LocaleCompare, AdvanceRefusal, StepEffect, create_initial_game, advance_game,
}
use converge_audit.GameKernel.Bounds.{Inside, advance-Inside}
use converge_audit.GameKernel.Census.{census, advance_census}

module _ (locale_compare : LocaleCompare) where
  -- The loop of `settle` over the inputs; a refused frame is a throw there.
  unfoldable pub replay : List InputFrame → GameState → Result AdvanceRefusal GameState
  replay [] state = ok state
  replay (input ∷ rest) state = do
    result ← advance_game locale_compare state input
    replay rest result.0

  pub replay_invariant :
      (P : ℕ → GameState → Type 0)
      → ((n : ℕ) (s t : GameState) (input : InputFrame) (effects : List StepEffect)
          → P n s
          → advance_game locale_compare s input ≡ ok (t, effects)
          → P (suc n) t)
      → (inputs : List InputFrame) (n : ℕ) (s t : GameState) → P n s
      → replay inputs s ≡ ok t
      → P (length inputs + n) t
  unfolding replay
  replay_invariant P keeps [] n s t p e =
      subst (λ k. P k t) (omega arith) (subst (P n) (ok-injective e) p)
  replay_invariant P keeps (input ∷ rest) n s t p e =
      let (out, first, later) =
        bind-eq-ok (advance_game locale_compare s input) (λ r. replay rest r.0) e in
      subst (λ k. P k t) (omega arith)
        (replay_invariant P keeps rest (suc n) out.0 t (keeps n s out.0 input out.1 p first) later)

-- What a state of a game holds after a number of ticks.
abbrev pub Fair : ℕ → GameState → Type 0
Fair n s = (s.tick ≡ n) × Inside s.player × (census s ≤ 1)

initial-Fair :
    (seed : ℕ) (player : Text) (s : GameState) → create_initial_game seed player ≡ some s → Fair 0 s
unfolding create_initial_game
initial-Fair seed player s e = ground arith

-- A game that is replayed from its start over a list of inputs has ticked once for each, its player
-- is inside the world, and there is at most one enemy, drop or item in all, so at most one item.
pub replay-Fair :
    (locale_compare : LocaleCompare) (seed : ℕ) (player : Text) (inputs : List InputFrame)
    (s t : GameState)
    → create_initial_game seed player ≡ some s
    → replay locale_compare inputs s ≡ ok t
    → (t.tick ≡ length inputs) × Inside t.player × (census t ≤ 1) × (length t.inventory ≤ 1)
replay-Fair locale_compare seed player inputs s t e r =
    let (tick, inside, few) =
      replay_invariant locale_compare Fair step inputs 0 s t (initial-Fair seed player s e) r in
    (omega (arith, tick), inside, few, omega (arith, few))
  where
    step :
        (n : ℕ) (u v : GameState) (input : InputFrame) (effects : List StepEffect)
        → Fair n u
        → advance_game locale_compare u input ≡ ok (v, effects)
        → Fair (suc n) v
    step n u v input effects f a =
        let (tick, inside, near, below) = advance-Inside locale_compare u v input effects f.1 a in
        (
          omega (arith, tick, f.0),
          inside,
          omega (arith, f.2, advance_census locale_compare u v input effects a),
        )
