-- ===== src/GameKernel/Bounds.antt =====
-- Where the player is after a tick (examples/cf-game-audit/game/kernel.ts).
use converge_audit.Prelude.{
  ℕ, zero, suc, ◌⊎◌, ◌+◌, ◌≤◌, ◌≡◌, refl, sym, ap, subst, ◌∙◌, true, List, [], ◌∷◌, arith,
  Bool-cases, inl, inr, ◌==◌, ok,
}
use converge_audit.Prelude.Int.{ℤ, pos, negsuc, ◌+ℤ◌, ◌*ℤ◌, ◌≤ℤ◌}
use converge_audit.GameItems.State.{PlayerState, TelegraphState, GameState}
use converge_audit.GameKernel.Moves.{InputFrame, clamp, is_axis, move_player, distance_of}
use converge_audit.GameKernel.Step.{
  StepEffect, LocaleCompare, resolve_telegraphs, hits, after_resolution, advance_game,
}
use converge_audit.GameKernel.Advanced.{advance-Advanced}

-- The player is inside the world, by its radius.
abbrev pub Inside : PlayerState → Type 0
Inside p = (pos 14 ≤ℤ p.x) × (p.x ≤ℤ pos 1266) × (pos 14 ≤ℤ p.y) × (p.y ≤ℤ pos 706)

clamp_between :
    (v : ℤ) (a b : ℕ)
    → a ≤ b
    → (pos a ≤ℤ clamp v (pos a) (pos b)) × (clamp v (pos a) (pos b) ≤ℤ pos b)
unfolding clamp
clamp_between v a b h = ground arith

axis_cases : (h : ℤ) → is_axis h ≡ true → (h ≡ negsuc 0) ⊎ (h ≡ pos 0) ⊎ (h ≡ pos 1)
unfolding is_axis
axis_cases (pos zero) e = inr (inl refl)
axis_cases (pos (suc zero)) e = inr (inr refl)
axis_cases (pos (suc (suc n))) e = absurd (ground arith)
axis_cases (negsuc zero) e = inl refl
axis_cases (negsuc (suc n)) e = absurd (ground arith)

-- Two coordinates are at most six apart.
abbrev pub Near : ℤ → ℤ → Type 0
Near a b = (a ≤ℤ b +ℤ pos 6) × (b ≤ℤ a +ℤ pos 6)

Between : ℤ → ℕ → ℕ → Type 0
Between x a b = (pos a ≤ℤ x) × (x ≤ℤ pos b)

clamp-Near :
    (x h d : ℤ) (a b : ℕ)
    → is_axis h ≡ true
    → (d ≡ pos 6) ⊎ (d ≡ pos 4)
    → Between x a b
    → Near (clamp (x +ℤ h *ℤ d) (pos a) (pos b)) x
unfolding clamp Between
clamp-Near x h d a b e c i = elim (axis_cases h e) [
  | inl z ↦ elim c [ inl y ↦ rw (z, y) (ground arith) | inr y ↦ rw (z, y) (ground arith) ]
  | inr (inl z) ↦ elim c [ inl y ↦ rw (z, y) (ground arith) | inr y ↦ rw (z, y) (ground arith) ]
  | inr (inr z) ↦ elim c [ inl y ↦ rw (z, y) (ground arith) | inr y ↦ rw (z, y) (ground arith) ]
]

distance_of-cases : (input : InputFrame) → (distance_of input ≡ pos 6) ⊎ (distance_of input ≡ pos 4)
distance_of-cases input = ground arith

abbrev SamePlace : PlayerState → PlayerState → Type 0
SamePlace p q = (p.x ≡ q.x) × (p.y ≡ q.y) × (p.id ≡ q.id)

after_resolution-SamePlace :
    (t : TelegraphState) (p : PlayerState) → SamePlace (after_resolution t p) p
after_resolution-SamePlace t p = elim (Bool-cases (hits t p)) [
  | inl e ↦ rw e (refl, refl, refl)
  | inr e ↦ rw e (refl, refl, refl)
]

pub resolve_telegraphs-SamePlace :
    (tick : ℕ) (ts : List TelegraphState) (p : PlayerState)
    → SamePlace (resolve_telegraphs tick ts p).0 p
unfolding resolve_telegraphs
resolve_telegraphs-SamePlace tick [] p = (refl, refl, refl)
resolve_telegraphs-SamePlace tick (t ∷ ts) p = elim (Bool-cases (t.resolve_tick == tick)) [
  | inl e ↦ rw e (
      let later = resolve_telegraphs-SamePlace tick ts (after_resolution t p) in
      let now = after_resolution-SamePlace t p in
      (later.0 ∙ now.0, later.1 ∙ now.1, later.2 ∙ now.2))
  | inr e ↦ rw e (resolve_telegraphs-SamePlace tick ts p)
]

moved-Inside : (s : GameState) (input : InputFrame) → Inside (move_player s input)
unfolding move_player
moved-Inside s input =
    let across =
      clamp_between (s.player.x +ℤ input.horizontal *ℤ distance_of input) 14 1266 (omega arith) in
    let down =
      clamp_between (s.player.y +ℤ input.vertical *ℤ distance_of input) 14 706 (omega arith) in
    (across.0, across.1, down.0, down.1)

moved-Near :
    (s : GameState) (input : InputFrame)
    → Inside s.player
    → is_axis input.horizontal ≡ true
    → is_axis input.vertical ≡ true
    → Near (move_player s input).x s.player.x × Near (move_player s input).y s.player.y
unfolding move_player Between
moved-Near s input i h v = (
  clamp-Near s.player.x input.horizontal (distance_of input) 14 1266 h (distance_of-cases input)
      (i.0, i.1),
  clamp-Near s.player.y input.vertical (distance_of input) 14 706 v (distance_of-cases input)
      (i.2, i.3),
)

Inside-SamePlace : (p q : PlayerState) → SamePlace p q → Inside q → Inside p
Inside-SamePlace p q e i = rw (e.0, e.1) i

-- A tick that is made while the player is inside the world is the next one, leaves the player inside
-- and moves it by at most six along each axis.
pub advance-Inside :
    (locale_compare : LocaleCompare) (s t : GameState) (input : InputFrame)
    (effects : List StepEffect)
    → Inside s.player
    → advance_game locale_compare s input ≡ ok (t, effects)
    → (t.tick ≡ s.tick + 1)
      × Inside t.player
      × Near t.player.x s.player.x
      × Near t.player.y s.player.y
advance-Inside locale_compare s t input effects i e =
    let a = advance-Advanced locale_compare s input t effects e in
    let moved = move_player s input in
    let place : SamePlace t.player moved =
      subst (λ p. SamePlace p moved) (sym (ap (λ (g : GameState). g.player) a.result))
        (resolve_telegraphs-SamePlace input.tick s.telegraphs moved) in
    let inside = moved-Inside s input in
    let near = moved-Near s input i a.horizontal a.vertical in
    (
      ap (λ (g : GameState). g.tick) a.result ∙ a.next_tick,
      Inside-SamePlace t.player moved place inside,
      subst (λ x. Near x s.player.x) (sym place.0) near.0,
      subst (λ y. Near y s.player.y) (sym place.1) near.1,
    )
